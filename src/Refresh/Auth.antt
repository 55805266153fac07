-- ===== src/Refresh/Auth.antt =====
-- internal/refresh/auth_manager.go: where the identity of a run comes from.
pub mod Views
pub mod Identity
pub mod Trace
use mtlogin.Prelude.{
  ℕ, String, Bool, true, false, ◌&&◌, ◌||◌, not, Option, none, some, is_empty, str_eq,
  if◌then◌else◌,
}
use mtlogin.Errors.{GoError, text, Result, ok, err, Act, pure, fail, continue, ◌>>=◌, ◌>>◌}
use mtlogin.Domain.{AuthState, no_auth, LoginRequest, auth_empty, auth_complete}
use mtlogin.Domain.Codes.{
  config_invalid, refresh_identity_changed, refresh_identity_reset_failed, with_cause,
}
use mtlogin.Store.{Loaded}
use mtlogin.Store.Contract.{Store}
use mtlogin.Context.{Ctx}
use mtlogin.Refresh.Contracts.{LoginClient}
use mtlogin.Refresh.Calls
use mtlogin.Refresh.Calls.{Sys, noted}

pub record PasswordAuthConfig : Type 0 where
  pub username : String
  pub password : String
  pub totp_secret : String

pub record AuthConfig : Type 0 where
  pub password_auth : PasswordAuthConfig
  pub token_auth : AuthState
  pub retry_on_auth_failure : Bool

-- What `Resolve` returns beside a nil error.
pub record Resolved : Type 0 where
  pub state : AuthState
  pub epoch : ℕ
  pub token_mode : Bool

-- What `HandleAuthExpired` returns beside a nil error.
pub record Expired : Type 0 where
  pub state : AuthState
  pub epoch : ℕ
  pub retried : Bool

abbrev pub identity_changed_error : GoError
identity_changed_error =
    with_cause refresh_identity_changed (text "identity config changed; current run aborted")

abbrev pub incomplete_token_error : GoError
incomplete_token_error =
    with_cause config_invalid
      (text "mt.token_auth.auth, mt.token_auth.did and mt.token_auth.visitor_id are required")

module _ {W : Type 0} (cfg : AuthConfig) (St : Store W) (L : LoginClient W St.view) where
  abbrev pub username : String
  username = cfg.password_auth.username

  -- if !saved { return identityChangedError() }
  abbrev pub require_saved : Bool → Act (Sys W) (Unit {0})
  require_saved true = pure tt
  require_saved false = fail identity_changed_error

  unfoldable pub save_state : AuthState → ℕ → Act (Sys W) (Unit {0})
  save_state s e = do
    saved ← noted (Calls.save_state s e) (St.save_auth_state s e)
    require_saved saved

  unfoldable pub save_account : String → ℕ → Act (Sys W) (Unit {0})
  save_account a e = do
    saved ← noted (Calls.save_account a e) (St.save_auth_account a e)
    require_saved saved

  -- A failed reset is reported as RefreshIdentityResetFailed.
  abbrev pub reset_result : ℕ × Option GoError → Result ℕ
  reset_result (e, none) = ok e
  reset_result (e, some q) = err (with_cause refresh_identity_reset_failed q)

  unfoldable pub reset : Act (Sys W) ℕ
  reset y = let (r, y) = noted Calls.reset St.reset_auth_state y in (reset_result r, y)

  abbrev pub generate : Act (Sys W) String
  generate y = let (v, y) = noted Calls.generate L.generate_visitor_id y in (ok v, y)

  abbrev pub login_request : String → LoginRequest
  login_request visitor_id = record {
    username = username;
    password = cfg.password_auth.password;
    totp_secret = cfg.password_auth.totp_secret;
    visitor_id = visitor_id;
  }

  unfoldable pub login_and_save : Ctx → String → ℕ → Act (Sys W) AuthState
  unfolding save_state
  login_and_save ctx visitor_id epoch = do
    let request = login_request visitor_id
    state ← noted (Calls.login ctx request) (L.login ctx request)
    save_state state epoch
    pure state

  -- The identity of another account is dropped.
  unfoldable pub drop_foreign : String → AuthState → ℕ → Act (Sys W) (AuthState × ℕ)
  unfolding reset auth_empty
  drop_foreign account state epoch =
      if not (str_eq account username) && not (auth_empty state)
      then (do epoch' ← reset; pure (no_auth, epoch'))
      else pure (state, epoch)

  unfoldable pub bind_account : String → ℕ → Act (Sys W) (Unit {0})
  unfolding save_account
  bind_account account epoch =
      if not (str_eq account username) then save_account username epoch else pure tt

  unfoldable pub ensure_visitor_id : AuthState → ℕ → Act (Sys W) AuthState
  unfolding save_state
  ensure_visitor_id state epoch =
      if is_empty state.visitor_id
      then (do
        v ← generate
        let state' : AuthState = record state { visitor_id = v }
        save_state state' epoch
        pure state')
      else pure state

  unfoldable pub ensure_login : Ctx → AuthState → ℕ → Act (Sys W) AuthState
  unfolding login_and_save
  ensure_login ctx state epoch =
      if is_empty state.token || is_empty state.did
      then login_and_save ctx state.visitor_id epoch
      else pure state

  -- the password mode of `Resolve`, from the test on the account on
  unfoldable pub resolve_kept : Ctx → String → AuthState × ℕ → Act (Sys W) Resolved
  resolve_kept ctx account (state, epoch) = do
    bind_account account epoch
    state' ← ensure_visitor_id state epoch
    state'' ← ensure_login ctx state' epoch
    pure (record { state = state''; epoch = epoch; token_mode = false })

  -- the password mode of `Resolve`
  unfoldable pub resolve_stored : Ctx → Act (Sys W) Resolved
  resolve_stored ctx = do
    loaded ← noted Calls.load_state St.load_auth_state
    account ← noted Calls.load_account St.load_auth_account
    kept ← drop_foreign account loaded.state loaded.epoch
    resolve_kept ctx account kept

  -- Resolve
  unfoldable pub resolve : Ctx → Act (Sys W) Resolved
  resolve ctx =
      if not (auth_empty cfg.token_auth)
      then (if not (auth_complete cfg.token_auth)
          then fail incomplete_token_error
          else pure (record { state = cfg.token_auth; epoch = 0; token_mode = true }))
      else resolve_stored ctx

  unfoldable pub login_again : Ctx → ℕ → Act (Sys W) Expired
  login_again ctx epoch = do
    v ← generate
    let state : AuthState = record { token = ""; did = ""; visitor_id = v }
    save_account username epoch
    save_state state epoch
    state' ← login_and_save ctx v epoch
    pure (record { state = state'; epoch = epoch; retried = true })

  -- HandleAuthExpired; its epoch argument is not read
  unfoldable pub handle_auth_expired : Ctx → ℕ → Act (Sys W) Expired
  handle_auth_expired ctx _ = do
    epoch ← reset
    (if not cfg.retry_on_auth_failure
        then pure (record { state = no_auth; epoch = epoch; retried = false })
        else login_again ctx epoch)
