-- ===== src/Refresh/Checks/Outcome.antt =====
-- When the checks of internal/refresh/checks.go pass, and which requests they make.
use mtlogin.Prelude.{Bool, true, false, ◌≡◌, ◌⊎◌, Option, none, some, ◌∷◌, arith, is_some, ◌↔◌}
use mtlogin.Errors.{GoError, Result, is_ok}
use mtlogin.Domain.{Profile}
use mtlogin.Domain.Codes.{mt_auth_failed, is_code}
use mtlogin.Store.Contract.{StoreView}
use mtlogin.Context.{Ctx}
use mtlogin.Refresh.Contracts.{Client}
use mtlogin.Refresh.Calls
use mtlogin.Refresh.Calls.{Call, Sys}
use mtlogin.Refresh.Checks.{run_checks, should_propagate_forum_error}

abbrev propagates : Option GoError → Bool
propagates none = false
propagates (some e) = should_propagate_forum_error e

module _ {W S : Type 0} {view : W → StoreView} (C : Client W view S) where
  module _ (ctx : Ctx) (s : S) (y : Sys W) where
    -- The worlds of a run in which no request before the update fails, and the results on the way.
    abbrev first_warmup : Option GoError × W
    first_warmup = C.warmup s ctx y.world

    abbrev profiled : Result Profile × W
    profiled = C.profile s ctx first_warmup.1

    abbrev second_warmup : Option GoError × W
    second_warmup = C.warmup s ctx profiled.1

    abbrev updated : Option GoError × W
    updated = C.update_last_browse s ctx second_warmup.1

    abbrev browsed : (Bool × Option GoError) × W
    browsed = C.browse_forum s ctx updated.1

    -- All that has to go well.
    abbrev pub AllWell : Type 0
    AllWell =
        (first_warmup.0 ≡ none)
        × (is_ok profiled.0 ≡ true)
        × (second_warmup.0 ≡ none)
        × (propagates browsed.0.1 ≡ false)
        × ((is_some updated.0 ≡ false) ⊎ (browsed.0.0 ≡ true))

    -- The checks return no error exactly if both warm-ups and the profile succeed, the forum ends
    -- without an error that is passed on, and the update or one inside the forum succeeded.
    pub run_checks_pass : ((run_checks C ctx s y).0.1 ≡ none) ↔ AllWell
    unfolding run_checks
    run_checks_pass = (λ h. ground arith, λ h. ground arith)

    -- Checks that return no error have made five requests, warm-up, profile, warm-up, update and
    -- forum in this order (the list has the latest first), and no other call.
    pub run_checks_calls :
        (run_checks C ctx s y).0.1 ≡ none
        → (run_checks C ctx s y).1.calls
          ≡ Calls.browse ctx
            ∷ Calls.update ctx
            ∷ Calls.warmup ctx
            ∷ Calls.profile ctx
            ∷ Calls.warmup ctx
            ∷ y.calls
    unfolding run_checks
    run_checks_calls h = ground arith

    -- Where both warm-ups and the profile succeed and the forum ends by an authentication error, that
    -- error is what the checks return, whether or not the update succeeded.
    pub run_checks_auth_error :
        (e : GoError)
        → is_code mt_auth_failed e ≡ true
        → first_warmup.0 ≡ none
        → is_ok profiled.0 ≡ true
        → second_warmup.0 ≡ none
        → browsed.0.1 ≡ some e
        → (run_checks C ctx s y).0.1 ≡ some e
    unfolding run_checks should_propagate_forum_error
    run_checks_auth_error e a b c d f = ground arith

  pub run_checks-view :
      (ctx : Ctx) (s : S) (y : Sys W) → view (run_checks C ctx s y).1.world ≡ view y.world
  unfolding run_checks
  run_checks-view ctx s y =
      grind (arith, C.warmup_keeps, C.profile_keeps, C.update_keeps, C.browse_forum_keeps)
