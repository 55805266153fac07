-- ===== src/Tests/RefreshTests.antt =====
-- internal/refresh at concrete inputs.
use mathlib.Core.Bool.{false≢true}
use mtlogin.Prelude.{String, eq_iff, ◌≡◌, refl, true, false, [], ◌∷◌}
use mtlogin.Domain.{auth_empty}
use mtlogin.Store.{
  load_auth_state, load_auth_account, load_fields, save_auth_state, save_auth_account,
  reset_auth_state,
}
use mtlogin.Store.Contract.{next_epoch}
use mtlogin.Context.{app}
use mtlogin.Refresh.Calls
use mtlogin.Refresh.Calls.{Call, Sys, start}
use mtlogin.Refresh.Auth.{
  resolve, resolve_stored, resolve_kept, drop_foreign, bind_account, ensure_visitor_id,
  ensure_login, login_and_save, save_state, save_account, reset,
}
use mtlogin.Refresh.Auth.Views.{now}
use mtlogin.Refresh.Auth.Identity.{resolve_password_mode, resolve_foreign, fresh_calls}
use mtlogin.Tests.Memory.{store, login_client}
use mtlogin.Tests.Scripts.{first, password_config, good, bob}

resolve_password_mode_example :
    (false ≡ false)
    × (now password_config store
          (login_client good)
          (resolve password_config store (login_client good) app (start bob)).1
        ≡ record { auth = first; account = "alice"; epoch = 1 })
unfolding resolve resolve_stored resolve_kept drop_foreign bind_account ensure_visitor_id
    ensure_login login_and_save save_state save_account reset auth_empty load_auth_state
    load_auth_account load_fields save_auth_state save_auth_account reset_auth_state
resolve_password_mode_example =
    resolve_password_mode password_config store (login_client good) app (start bob)
      (record { state = first; epoch = 1; token_mode = false }) refl refl

resolve_foreign_example :
    (v : String) × ((resolve password_config store (login_client good) app (start bob)).1.calls
      ≡ fresh_calls password_config store
          (login_client good)
          app
          v
          (record { state = first; epoch = 1; token_mode = false })
          (Calls.reset ∷ Calls.load_account ∷ Calls.load_state ∷ []))
    × (1 ≡ next_epoch 0)
unfolding resolve resolve_stored resolve_kept drop_foreign bind_account ensure_visitor_id
    ensure_login login_and_save save_state save_account reset auth_empty load_auth_state
    load_auth_account load_fields save_auth_state save_auth_account reset_auth_state
resolve_foreign_example =
    resolve_foreign password_config store (login_client good) app (start bob)
      (record { state = first; epoch = 0; present = true }) "bob"
      (record { state = first; epoch = 1; token_mode = false }) refl refl refl
      (λ p. false≢true ((eq_iff "bob" "alice").1 p)) refl refl
