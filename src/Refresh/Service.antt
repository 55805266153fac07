-- ===== src/Refresh/Service.antt =====
-- internal/refresh/service.go and auth.go: one run.
pub mod Trace
pub mod Contexts
pub mod Notices
pub mod Stored
pub mod Success
use mtlogin.Prelude.{
  ℕ, String, Bool, true, false, ◌&&◌, ◌||◌, not, Option, none, some, Exec, ℤ, is_pos, str_eq,
  if◌then◌else◌,
}
use mtlogin.Errors.{GoError, text, Result, ok, err}
use mtlogin.Domain.{AuthState, Profile}
use mtlogin.Domain.Codes.{
  mt_auth_failed, refresh_identity_changed, refresh_identity_reset_failed, with_cause, is_code,
}
use mtlogin.Store.Contract.{Store}
use mtlogin.Refresh.Message.{
  Format, Message, MessageKind, refresh_failed, refresh_succeeded, identity_changed,
  token_auth_expired, password_auth_expired_retry, password_auth_expired_next_run, relogin_failed,
  identity_reset_failed, build_message,
}
use mtlogin.Context.{Ctx, with_timeout}
use mtlogin.Refresh.Contracts.{LoginClient, Client, Notifier}
use mtlogin.Refresh.Calls
use mtlogin.Refresh.Calls.{Sys, noted}
use mtlogin.Refresh.Checks.{run_checks}
use mtlogin.Refresh.Auth.{
  AuthConfig, Resolved, resolve, handle_auth_expired, identity_changed_error,
}

-- snapshot != state
abbrev pub same_auth : AuthState → AuthState → Bool
same_auth a b = str_eq a.token b.token && (str_eq a.did b.did && str_eq a.visitor_id b.visitor_id)

-- errors.Is(err, domain.MTAuthFailed), false for a nil error
abbrev pub is_auth_failed : Option GoError → Bool
is_auth_failed none = false
is_auth_failed (some e) = is_code mt_auth_failed e

-- What a run is given: the configuration and the services around it. A missing notifier is `none`.
pub record Service (W S : Type 0) : Type 0 where
  pub timeout : ℤ
  pub auth : AuthConfig
  pub format : Format
  pub store : Store W
  pub login : LoginClient W store.view
  pub client : Client W store.view S
  pub notifier : Option (Notifier W store.view)

module _ {W S : Type 0} (V : Service W S) where
  -- the error of the notifier is only logged
  unfoldable pub notify : Ctx → MessageKind → Option GoError → Option Profile → Sys W → Sys W
  notify ctx k e p y = elim V.notifier [
    | none ↦ y
    | some n ↦
        let m = build_message V.format k e p in (noted (Calls.notify ctx m) (n.notify ctx m) y).1
  ]

  unfoldable pub identity_changed_run : Ctx → Exec (Sys W) (Option GoError)
  identity_changed_run ctx y = (
    some identity_changed_error,
    notify ctx identity_changed (some identity_changed_error) none y,
  )

  -- the end of `runWithSession`: what is notified
  unfoldable pub report :
      Ctx → Bool → Option Profile → Option GoError → Exec (Sys W) (Option GoError)
  report ctx token_mode p none y = (none, notify ctx refresh_succeeded none p y)
  report ctx token_mode p (some e) y =
      if is_code mt_auth_failed e && token_mode
      then (some e, notify ctx token_auth_expired (some e) none y)
      else if is_code mt_auth_failed e
      then (some e, y)
      else (some e, notify ctx refresh_failed (some e) p y)

  -- the write of the identity that the session ended with
  unfoldable pub persist :
      Ctx → AuthState → ℕ → Bool → Option Profile → Option GoError → Exec (Sys W) (Option GoError)
  unfolding identity_changed_run
  persist ctx snapshot epoch token_mode p e y =
      let (saved, y) =
        noted (Calls.save_state snapshot epoch) (V.store.save_auth_state snapshot epoch) y in
      elim saved [
        | err q ↦ (some q, y)
        | ok b ↦ if b then report ctx token_mode p e y else identity_changed_run ctx y
      ]

  unfoldable pub run_with_session : Ctx → Ctx → AuthState → ℕ → Bool → Exec (Sys W) (Option GoError)
  run_with_session run_ctx notify_ctx state epoch token_mode y =
      let (s, y) = noted (Calls.new_session state) (V.client.new_session state) y in
      let (checked, y) = run_checks V.client run_ctx s y in
      let (snapshot, y) = noted Calls.snapshot (V.client.snapshot s) y in
      if not token_mode && (not (is_auth_failed checked.1) && not (same_auth snapshot state))
      then persist notify_ctx snapshot epoch token_mode checked.0 checked.1 y
      else report notify_ctx token_mode checked.0 checked.1 y

  -- the notification of a failed `HandleAuthExpired`
  abbrev pub reset_kind : GoError → MessageKind
  reset_kind e =
      if is_code refresh_identity_reset_failed e
      then identity_reset_failed
      else if is_code refresh_identity_changed e
      then identity_changed
      else relogin_failed

  -- the run with the new login, and the message if that login is refused too
  unfoldable pub run_again : Ctx → Ctx → AuthState → ℕ → Exec (Sys W) (Option GoError)
  run_again run_ctx notify_ctx state epoch y =
      let (retry_err, y) = run_with_session run_ctx notify_ctx state epoch false y in
      (
        retry_err,
        (if is_auth_failed retry_err then notify notify_ctx relogin_failed retry_err none y else y),
      )

  unfoldable pub handle_password_auth_expired :
      Ctx → Ctx → ℕ → GoError → Exec (Sys W) (Option GoError)
  handle_password_auth_expired run_ctx notify_ctx epoch auth_err y =
      let (r, y) = handle_auth_expired V.auth V.store V.login run_ctx epoch y in
      elim r [
        | err e ↦ (some e, notify notify_ctx (reset_kind e) (some e) none y)
        | ok x ↦
            if x.retried
            then run_again run_ctx notify_ctx x.state x.epoch
                (notify notify_ctx password_auth_expired_retry (some auth_err) none y)
            else (
              some auth_err,
              notify notify_ctx password_auth_expired_next_run (some auth_err) none y,
            )
      ]

  -- what `Run` does with the error of the first session
  unfoldable pub after_session :
      Ctx → Ctx → Resolved → Option GoError → Exec (Sys W) (Option GoError)
  after_session run_ctx app_ctx r none y = (none, y)
  after_session run_ctx app_ctx r (some e) y =
      if r.token_mode
      then (some e, y)
      else if is_code mt_auth_failed e
      then handle_password_auth_expired run_ctx app_ctx r.epoch e y
      else (some e, y)

  abbrev pub run_ctx : Ctx → Ctx
  run_ctx app_ctx = if is_pos V.timeout then with_timeout app_ctx V.timeout else app_ctx

  unfoldable pub run : Ctx → Exec (Sys W) (Option GoError)
  run app_ctx y =
      let (r, y) = resolve V.auth V.store V.login (run_ctx app_ctx) y in
      elim r [
        | err e ↦ (some e, notify app_ctx refresh_failed (some e) none y)
        | ok x ↦
            let (e, y) =
              run_with_session (run_ctx app_ctx) app_ctx x.state x.epoch x.token_mode y in
            after_session (run_ctx app_ctx) app_ctx x e y
      ]
