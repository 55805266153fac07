-- ===== src/Refresh/Auth/Views.antt =====
-- What each step of internal/refresh/auth_manager.go does to the stored identity.
use mtlogin.Prelude.{ℕ, String, true, ◌≡◌, arith, eq_iff, ◌∷◌}
use mtlogin.Errors.{ok}
use mtlogin.Domain.{AuthState, no_auth}
use mtlogin.Store.Contract.{Store, StoreView, next_epoch}
use mtlogin.Context.{Ctx}
use mtlogin.Refresh.Contracts.{LoginClient}
use mtlogin.Refresh.Calls.{Sys, generate}
use mtlogin.Refresh.Auth.{
  AuthConfig, Expired, login_request, save_state, save_account, reset, login_and_save, drop_foreign,
  bind_account, ensure_visitor_id, ensure_login, login_again,
}

module _ {W : Type 0} (cfg : AuthConfig) (St : Store W) (L : LoginClient W St.view) where
  abbrev pub now : Sys W → StoreView
  now y = St.view y.world

  pub save_state-view :
      (s : AuthState) (e : ℕ) (y : Sys W) {u : Unit {0}}
      → (save_state cfg St L s e y).0 ≡ ok u
      → (e ≡ (now y).epoch)
        × (now (save_state cfg St L s e y).1
            ≡ record { auth = s; account = (now y).account; epoch = (now y).epoch })
  unfolding save_state
  save_state-view s e y h = ground (arith, St.save_state_done s e y.world)

  pub save_account-view :
      (a : String) (e : ℕ) (y : Sys W) {u : Unit {0}}
      → (save_account cfg St L a e y).0 ≡ ok u
      → (e ≡ (now y).epoch)
        × (now (save_account cfg St L a e y).1
            ≡ record { auth = (now y).auth; account = a; epoch = (now y).epoch })
  unfolding save_account
  save_account-view a e y h = ground (arith, St.save_account_done a e y.world)

  pub reset-view :
      (y : Sys W) {e : ℕ}
      → (reset cfg St L y).0 ≡ ok e
      → (e ≡ next_epoch (now y).epoch)
        × (now (reset cfg St L y).1 ≡ record { auth = no_auth; account = ""; epoch = e })
  unfolding reset
  reset-view y h = ground (arith, St.reset_done y.world)

  pub login_and_save-view :
      (ctx : Ctx) (v : String) (e : ℕ) (y : Sys W) {s : AuthState}
      → (login_and_save cfg St L ctx v e y).0 ≡ ok s
      → (e ≡ (now y).epoch)
        × (now (login_and_save cfg St L ctx v e y).1
            ≡ record { auth = s; account = (now y).account; epoch = (now y).epoch })
  unfolding login_and_save
  login_and_save-view ctx v e y {s} h =
      let r = login_request cfg St L v in
      ground (arith, L.login_keeps ctx r y.world, St.save_state_done s e (L.login ctx r y.world).1)

  pub drop_foreign-view :
      (y : Sys W) {s : AuthState} {e : ℕ}
      → (drop_foreign cfg St L (now y).account (now y).auth (now y).epoch y).0 ≡ ok (s, e)
      → let v = now (drop_foreign cfg St L (now y).account (now y).auth (now y).epoch y).1 in
        (v.auth ≡ s) × (v.epoch ≡ e) × ((now y).account ≡ cfg.password_auth.username → v ≡ now y)
  unfolding drop_foreign
  drop_foreign-view y h =
      ground (arith, St.reset_done y.world, eq_iff (now y).account cfg.password_auth.username)

  pub bind_account-view :
      (a : String) (e : ℕ) (y : Sys W) {u : Unit {0}}
      → (bind_account cfg St L a e y).0 ≡ ok u
      → (a ≡ cfg.password_auth.username → (now y).account ≡ a)
      → now (bind_account cfg St L a e y).1 ≡ record {
        auth = (now y).auth;
        account = cfg.password_auth.username;
        epoch = (now y).epoch;
      }
  unfolding bind_account
  bind_account-view a e y h k = ground (
    arith,
    St.save_account_done cfg.password_auth.username e y.world,
    eq_iff a cfg.password_auth.username,
  )

  pub ensure_visitor_id-view :
      (e : ℕ) (y : Sys W) {s : AuthState}
      → (ensure_visitor_id cfg St L (now y).auth e y).0 ≡ ok s
      → now (ensure_visitor_id cfg St L (now y).auth e y).1
        ≡ record { auth = s; account = (now y).account; epoch = (now y).epoch }
  unfolding ensure_visitor_id
  ensure_visitor_id-view e y {s} h =
      ground (
        arith,
        L.visitor_id_keeps y.world,
        St.save_state_done s e (L.generate_visitor_id y.world).1,
      )

  pub ensure_login-view :
      (ctx : Ctx) (e : ℕ) (y : Sys W) {s : AuthState}
      → (ensure_login cfg St L ctx (now y).auth e y).0 ≡ ok s
      → now (ensure_login cfg St L ctx (now y).auth e y).1
        ≡ record { auth = s; account = (now y).account; epoch = (now y).epoch }
  unfolding ensure_login
  ensure_login-view ctx e y {s} h =
      ground (arith, login_and_save-view ctx (now y).auth.visitor_id e y {s = s})

  pub login_again-view :
      (ctx : Ctx) (e : ℕ) (y : Sys W) {x : Expired}
      → (login_again cfg St L ctx e y).0 ≡ ok x
      → (x.epoch ≡ e)
        × (e ≡ (now y).epoch)
        × (x.retried ≡ true)
        × (now (login_again cfg St L ctx e y).1
            ≡ record { auth = x.state; account = cfg.password_auth.username; epoch = e })
  unfolding login_again
  login_again-view ctx e y {x} h =
      let (v, w) = L.generate_visitor_id y.world in
      let name = cfg.password_auth.username in
      let blank : AuthState = record { token = ""; did = ""; visitor_id = v } in
      let y1 : Sys W = record { world = w; calls = generate ∷ y.calls } in
      let y2 = (save_account cfg St L name e y1).1 in
      let y3 = (save_state cfg St L blank e y2).1 in
      ground (
        arith,
        L.visitor_id_keeps y.world,
        save_account-view name e y1 {u = tt},
        save_state-view blank e y2 {u = tt},
        login_and_save-view ctx v e y3 {s = x.state},
      )
