-- ===== src/Refresh/Checks.antt =====
-- internal/refresh/checks.go
pub mod Outcome
use mtlogin.Prelude.{Bool, ◌||◌, Option, none, some, Exec, if◌then◌else◌}
use mtlogin.Errors.{GoError, Result, ok, err, canceled, deadline_exceeded, is_sentinel}
use mtlogin.Domain.{Profile}
use mtlogin.Domain.Codes.{mt_auth_failed, is_code}
use mtlogin.Store.Contract.{StoreView}
use mtlogin.Context.{Ctx}
use mtlogin.Refresh.Contracts.{Client}
use mtlogin.Refresh.Calls
use mtlogin.Refresh.Calls.{Sys, noted}

unfoldable pub should_propagate_forum_error : GoError → Bool
unfolding is_sentinel is_code
should_propagate_forum_error e =
    is_sentinel canceled e || is_sentinel deadline_exceeded e || is_code mt_auth_failed e

-- The tests after the two calls whose errors are only kept.
abbrev pub settle :
    Profile → Option GoError → Bool → Option GoError → Option Profile × Option GoError
settle p update_err updated none = if updated then (some p, none) else (some p, update_err)
settle p update_err updated (some e) =
    if should_propagate_forum_error e
    then (some p, some e)
    else if updated
    then (some p, none)
    else (some p, update_err)

module _ {W S : Type 0} {view : W → StoreView} (C : Client W view S) where
  unfoldable pub run_checks : Ctx → S → Exec (Sys W) (Option Profile × Option GoError)
  run_checks ctx s y =
      let (warm, y) = noted (Calls.warmup ctx) (C.warmup s ctx) y in
      elim warm [
        | some e ↦ ((none, some e), y)
        | none ↦
            let (p, y) = noted (Calls.profile ctx) (C.profile s ctx) y in
            elim p [
              | err e ↦ ((none, some e), y)
              | ok profile ↦
                  let (warm, y) = noted (Calls.warmup ctx) (C.warmup s ctx) y in
                  elim warm [
                    | some e ↦ ((some profile, some e), y)
                    | none ↦
                        let (update_err, y) =
                          noted (Calls.update ctx) (C.update_last_browse s ctx) y in
                        let (forum, y) = noted (Calls.browse ctx) (C.browse_forum s ctx) y in
                        (settle profile update_err forum.0 forum.1, y)
                  ]
            ]
      ]
