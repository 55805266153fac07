-- ===== src/Refresh/Auth/Identity.antt =====
-- Which identity internal/refresh/auth_manager.go hands to a run, and what is stored then.
use mtlogin.Prelude.{
  ℕ, String, ◌≡◌, ◌≢◌, true, false, none, some, ◌∷◌, List, arith, eq_iff, if◌then◌else◌, inl, inr,
}
use mtlogin.Errors.{GoError, ok, err, is_ok, Result-cases}
use mtlogin.Domain.{no_auth, auth_empty, auth_complete}
use mtlogin.Domain.Codes.{refresh_identity_reset_failed, with_cause}
use mtlogin.Store.{Loaded}
use mtlogin.Store.Contract.{Store, next_epoch}
use mtlogin.Context.{Ctx}
use mtlogin.Refresh.Contracts.{LoginClient}
use mtlogin.Refresh.Calls
use mtlogin.Refresh.Calls.{Sys, Call}
use mtlogin.Refresh.Auth.{
  AuthConfig, Resolved, Expired, drop_foreign, bind_account, ensure_visitor_id, ensure_login,
  resolve_kept, resolve_stored, resolve, handle_auth_expired, incomplete_token_error, login_request,
}
use mtlogin.Refresh.Auth.{reset}
use mtlogin.Refresh.Auth.Views.{
  now, drop_foreign-view, bind_account-view, ensure_visitor_id-view, ensure_login-view,
  login_again-view,
}

module _ {W : Type 0} (cfg : AuthConfig) (St : Store W) (L : LoginClient W St.view) where
  -- With a token identity in the configuration, `Resolve` makes no call at all: it returns that
  -- identity at epoch 0 if its three parts are there, and the configuration error if not.
  pub resolve_token_mode :
      (ctx : Ctx) (y : Sys W)
      → auth_empty cfg.token_auth ≡ false
      → resolve cfg St L ctx y ≡ (
        (if auth_complete cfg.token_auth
            then ok (record { state = cfg.token_auth; epoch = 0; token_mode = true })
            else err incomplete_token_error),
        y,
      )
  unfolding resolve
  resolve_token_mode ctx y h = ground arith

  resolve_kept-view :
      (ctx : Ctx) (a : String) (e : ℕ) (y : Sys W) {r : Resolved}
      → (resolve_kept cfg St L ctx a ((now cfg St L y).auth, e) y).0 ≡ ok r
      → (a ≡ cfg.password_auth.username → (now cfg St L y).account ≡ a)
      → (r.token_mode ≡ false)
        × (r.epoch ≡ e)
        × (now cfg St L (resolve_kept cfg St L ctx a ((now cfg St L y).auth, e) y).1 ≡ record {
          auth = r.state;
          account = cfg.password_auth.username;
          epoch = (now cfg St L y).epoch;
        })
  unfolding resolve_kept
  resolve_kept-view ctx a e y {r} h same =
      let y1 = (bind_account cfg St L a e y).1 in
      let visited = ensure_visitor_id cfg St L (now cfg St L y1).auth e y1 in
      let bound = bind_account-view cfg St L a e y {u = tt} in
      elim (Result-cases visited.0) [
        | inl (s, q) ↦ ground (
          arith,
          bound,
          same,
          ensure_visitor_id-view cfg St L e y1 {s = s},
          ensure_login-view cfg St L ctx e visited.1 {s = r.state},
        )
        | inr (s, q) ↦ ground (arith, bound, same)
      ]

  resolve_stored-view :
      (ctx : Ctx) (y : Sys W) {r : Resolved}
      → (resolve_stored cfg St L ctx y).0 ≡ ok r
      → (r.token_mode ≡ false)
        × (now cfg St L (resolve_stored cfg St L ctx y).1
            ≡ record { auth = r.state; account = cfg.password_auth.username; epoch = r.epoch })
  unfolding resolve_stored
  resolve_stored-view ctx y {r} h =
      let (l, w1) = St.load_auth_state y.world in
      let (a, w2) = St.load_auth_account w1 in
      let y2 : Sys W = record {
        world = w2;
        calls = Calls.load_account ∷ Calls.load_state ∷ y.calls;
      } in
      let v = now cfg St L y2 in
      let dropped = drop_foreign cfg St L v.account v.auth v.epoch y2 in
      let kept1 = St.load_state_keeps y.world in
      let kept2 = St.load_account_keeps w1 in
      elim (Result-cases l) [
        | inr (x, q) ↦ ground arith
        | inl (x, q) ↦ elim (Result-cases a) [
          | inr (b, q') ↦ ground arith
          | inl (b, q') ↦ elim (Result-cases dropped.0) [
            | inr (d, q'') ↦ ground (
              arith,
              kept1,
              kept2,
              St.load_state_reads y.world x q,
              St.load_account_reads w1 b q',
            )
            | inl (d, q'') ↦ ground (
              arith,
              kept1,
              kept2,
              St.load_state_reads y.world x q,
              St.load_account_reads w1 b q',
              drop_foreign-view cfg St L y2 q'',
              resolve_kept-view ctx b d.1 dropped.1 {r = r},
            )
          ]
        ]
      ]

  -- In the password mode a resolved identity is what the store then holds, bound to the configured
  -- account, at the epoch that is returned.
  pub resolve_password_mode :
      (ctx : Ctx) (y : Sys W) (r : Resolved)
      → auth_empty cfg.token_auth ≡ true
      → (resolve cfg St L ctx y).0 ≡ ok r
      → (r.token_mode ≡ false)
        × (now cfg St L (resolve cfg St L ctx y).1
            ≡ record { auth = r.state; account = cfg.password_auth.username; epoch = r.epoch })
  unfolding resolve
  resolve_password_mode ctx y r t h = ground (arith, resolve_stored-view ctx y {r = r})

  -- In the password mode, a stored identity of the configured account that has all three parts is
  -- used as it is: two reads and no other call, so no login.
  pub resolve_reuses :
      (ctx : Ctx) (y : Sys W) (x : Loaded)
      → auth_empty cfg.token_auth ≡ true
      → (St.load_auth_state y.world).0 ≡ ok x
      → (St.load_auth_account (St.load_auth_state y.world).1).0 ≡ ok cfg.password_auth.username
      → auth_complete x.state ≡ true
      → let z = resolve cfg St L ctx y in
        (z.0 ≡ ok (record { state = x.state; epoch = x.epoch; token_mode = false }))
        × (z.1.calls ≡ Calls.load_account ∷ Calls.load_state ∷ y.calls)
  unfolding resolve resolve_stored resolve_kept drop_foreign bind_account ensure_visitor_id
      ensure_login auth_complete
  resolve_reuses ctx y x t l a c =
      let e = eq_iff cfg.password_auth.username cfg.password_auth.username in ground (arith, e)

  abbrev pub fresh_calls : Ctx → String → Resolved → List Call → List Call
  fresh_calls ctx v r before =
      Calls.save_state r.state r.epoch
      ∷ Calls.login ctx (login_request cfg St L v)
      ∷ Calls.save_state (record { token = ""; did = ""; visitor_id = v }) r.epoch
      ∷ Calls.generate
      ∷ Calls.save_account cfg.password_auth.username r.epoch
      ∷ before

  resolve_kept_fresh :
      (ctx : Ctx) (a : String) (e : ℕ) (y : Sys W) {r : Resolved}
      → a ≢ cfg.password_auth.username
      → (resolve_kept cfg St L ctx a (no_auth, e) y).0 ≡ ok r
      → let v = (L.generate_visitor_id (bind_account cfg St L a e y).1.world).0 in
        ((resolve_kept cfg St L ctx a (no_auth, e) y).1.calls ≡ fresh_calls ctx v r y.calls)
        × (r.epoch ≡ e)
  unfolding resolve_kept bind_account ensure_visitor_id ensure_login
  resolve_kept_fresh ctx a e y f h = ground (arith, eq_iff a cfg.password_auth.username)

  -- In the password mode, a call of `Resolve` that finds an identity stored for another account and
  -- succeeds has deleted that identity, bound the account anew, and returns the identity that it
  -- saved after a login made in this call, with a visitor id saved in this call right after one was
  -- generated, at the next epoch.
  pub resolve_foreign :
      (ctx : Ctx) (y : Sys W) (x : Loaded) (account : String) (r : Resolved)
      → auth_empty cfg.token_auth ≡ true
      → (St.load_auth_state y.world).0 ≡ ok x
      → (St.load_auth_account (St.load_auth_state y.world).1).0 ≡ ok account
      → account ≢ cfg.password_auth.username
      → auth_empty x.state ≡ false
      → (resolve cfg St L ctx y).0 ≡ ok r
      → (v : String) × ((resolve cfg St L ctx y).1.calls
          ≡ fresh_calls ctx v r (Calls.reset ∷ Calls.load_account ∷ Calls.load_state ∷ y.calls))
        × (r.epoch ≡ next_epoch x.epoch)
  unfolding resolve resolve_stored drop_foreign
  resolve_foreign ctx y x account r t l a f c h =
      let w1 = (St.load_auth_state y.world).1 in
      let w2 = (St.load_auth_account w1).1 in
      let (renewed, w3) = St.reset_auth_state w2 in
      let y3 : Sys W = record {
        world = w3;
        calls = Calls.reset ∷ Calls.load_account ∷ Calls.load_state ∷ y.calls;
      } in
      let v = (L.generate_visitor_id (bind_account cfg St L account renewed.0 y3).1.world).0 in
      let fresh = resolve_kept_fresh ctx account renewed.0 y3 {r = r} f in
      let known = eq_iff account cfg.password_auth.username in
      (
        v,
        ground (arith, fresh, known),
        ground (
          arith,
          fresh,
          known,
          St.reset_done w2,
          St.load_state_keeps y.world,
          St.load_account_keeps w1,
          St.load_state_reads y.world x l,
        ),
      )

  -- After an expired login that was handled, the store holds the identity that is returned, at the
  -- next epoch: bound to the configured account if the run retries, and none at all if not.
  pub expired_identity :
      (ctx : Ctx) (e : ℕ) (y : Sys W) (x : Expired)
      → (handle_auth_expired cfg St L ctx e y).0 ≡ ok x
      → (x.retried ≡ cfg.retry_on_auth_failure)
        × (x.epoch ≡ next_epoch (now cfg St L y).epoch)
        × (now cfg St L (handle_auth_expired cfg St L ctx e y).1 ≡ record {
          auth = x.state;
          account = (if x.retried then cfg.password_auth.username else "");
          epoch = x.epoch;
        })
        × (x.retried ≡ false → x.state ≡ no_auth)
  unfolding handle_auth_expired reset
  expired_identity ctx e y x h =
      let (r, w) = St.reset_auth_state y.world in
      let y1 : Sys W = record { world = w; calls = Calls.reset ∷ y.calls } in
      ground (arith, St.reset_done y.world, login_again-view cfg St L ctx r.0 y1 {x = x})

  -- If the reset of an expired login fails, that error comes back under its own code, nothing stored
  -- has changed, and no other call is made.
  pub expired_reset_failed :
      (ctx : Ctx) (e : ℕ) (y : Sys W) (q : GoError)
      → (St.reset_auth_state y.world).0.1 ≡ some q
      → let z = handle_auth_expired cfg St L ctx e y in
        (z.0 ≡ err (with_cause refresh_identity_reset_failed q))
        × (now cfg St L z.1 ≡ now cfg St L y)
        × (z.1.calls ≡ Calls.reset ∷ y.calls)
  unfolding handle_auth_expired reset
  expired_reset_failed ctx e y q h = ground (arith, St.reset_failed y.world q)

  -- Without a retry, a reset that goes through is all it takes.
  pub expired_succeeds :
      (ctx : Ctx) (e : ℕ) (y : Sys W)
      → cfg.retry_on_auth_failure ≡ false
      → (St.reset_auth_state y.world).0.1 ≡ none
      → is_ok (handle_auth_expired cfg St L ctx e y).0 ≡ true
  unfolding handle_auth_expired reset
  expired_succeeds ctx e y h d = ground arith
