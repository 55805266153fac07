-- ===== src/Tests/RunTests.antt =====
-- the runs of internal/refresh at concrete inputs.
use mtlogin.Prelude.{
  ℕ, ◌≤◌, ◌≡◌, ◌≢◌, ◌⊎◌, refl, true, false, none, some, All, arith, if◌then◌else◌,
}
use mtlogin.Errors.{GoError, err}
use mtlogin.Domain.{AuthState, no_auth, auth_empty}
use mtlogin.Domain.Codes.{is_code}
use mtlogin.Store.{
  LevelDbStore, tdv, load_auth_state, load_auth_account, load_fields, save_auth_state,
  save_auth_account, reset_auth_state,
}
use mtlogin.Store.Contract.{next_epoch}
use mtlogin.Context.{app}
use mtlogin.Refresh.Calls.{start}
use mtlogin.Refresh.Checks.{run_checks, should_propagate_forum_error}
use mtlogin.Refresh.Auth.{
  login_and_save, save_state, save_account, reset, login_again, handle_auth_expired,
}
use mtlogin.Refresh.Auth.Views.{now}
use mtlogin.Refresh.Auth.Identity.{expired_identity}
use mtlogin.Refresh.Service.{run, run_ctx, run_with_session, handle_password_auth_expired}
use mtlogin.Refresh.Service.Contexts.{Proper, is_identity_call, run_contexts, run_token_mode}
use mtlogin.Refresh.Service.Notices.{notices, run-notices}
use mtlogin.Refresh.Service.Stored.{
  stored, checked, session_refused, session_stored, Unsaved, expired_run_cleared,
}
use mtlogin.Tests.Memory.{store, login_client, service, sturdy, Table, service_on, notifier_on}
use mtlogin.Tests.Scripts.{
  first, rotated, refused, password_config, retry_config, token_config, good, bad, bound,
}

expired_identity_example :
    (true ≡ true)
    × (1 ≡ next_epoch 0)
    × (now retry_config store
          (login_client good)
          (handle_auth_expired retry_config store (login_client good) app 0 (start bound)).1
        ≡ record { auth = first; account = (if true then "alice" else ""); epoch = 1 })
    × (true ≡ false → first ≡ no_auth)
unfolding handle_auth_expired login_again login_and_save save_state save_account reset
    load_auth_state load_auth_account load_fields save_auth_state save_auth_account reset_auth_state
expired_identity_example =
    expired_identity retry_config store (login_client good) app 0 (start bound)
      (record { state = first; epoch = 1; retried = true }) refl

run_contexts_example :
    All
      (Proper (run_ctx (service retry_config bad) app) app)
      (run (service retry_config bad) app (start bound)).1.calls
run_contexts_example = run_contexts (service retry_config bad) app bound

run_token_mode_example :
    All (λ c. is_identity_call c ≡ false) (run (service token_config bad) app (start bound)).1.calls
unfolding auth_empty
run_token_mode_example = run_token_mode (service token_config bad) app bound refl

session_refused_example :
    let z = run_with_session (service retry_config bad) app app first 0 false (start bound) in
    (stored (service retry_config bad) z.1 ≡ stored (service retry_config bad) (start bound))
    × (z.0 ≡ (checked (service retry_config bad) app app first 0 (start bound)).0.1)
unfolding run_checks should_propagate_forum_error is_code
session_refused_example =
    session_refused (service retry_config bad) app app first 0 (start bound) refl

session_stored_example :
    let V = service retry_config good in
    let z = run_with_session V app app first 0 false (start bound) in
    (stored V z.1 ≡ record {
      auth = rotated;
      account = (stored V (start bound)).account;
      epoch = (stored V (start bound)).epoch;
    })
      × (z.0 ≡ (checked V app app first 0 (start bound)).0.1)
    ⊎ (stored V z.1 ≡ stored V (start bound)) × Unsaved V app app first 0 (start bound) z.0
unfolding run_checks is_code save_auth_state save_auth_account
session_stored_example =
    session_stored (service retry_config good) app app first 0 (start bound) refl refl

expired_run_cleared_example :
    let V = service password_config bad in
    let z = handle_password_auth_expired V app app 0 refused (start bound) in
    (z.0 ≡ some refused)
    × (stored V z.1 ≡ record {
      auth = no_auth;
      account = "";
      epoch = next_epoch (stored V (start bound)).epoch;
    })
unfolding reset_auth_state save_auth_state save_auth_account
expired_run_cleared_example =
    expired_run_cleared (service password_config bad) app app 0 refused (start bound) refl refl

abbrev empty_disk : LevelDbStore Table
empty_disk = record { db = λ k. none; epoch = 0 }

-- on a disk that never fails no save ends in an error
sturdy_saves :
    (a : AuthState) (e : ℕ) (w : LevelDbStore Table) (q : GoError)
    → (save_auth_state sturdy tdv a e w).0 ≢ err q
unfolding save_auth_state
sturdy_saves a e w q = ground arith

run-notices_example :
    let m = notices (run (service_on sturdy retry_config bad) app (start empty_disk)).1.calls in
    (1 ≤ m) × (m ≤ 2)
run-notices_example =
    run-notices (service_on sturdy retry_config bad) app (notifier_on sturdy) empty_disk refl
      sturdy_saves
