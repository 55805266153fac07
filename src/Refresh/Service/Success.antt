-- ===== src/Refresh/Service/Success.antt =====
-- What is stored after a run of internal/refresh/service.go that succeeds in the password mode.
use mtlogin.Prelude.{
  String, ℕ, true, false, ◌≡◌, none, some, ◌∷◌, arith, is_empty, inl, inr, Bool-cases, Option-cases,
}
use mtlogin.Errors.{GoError, ok, Result-cases}
use mtlogin.Domain.{AuthState, LoginRequest, auth_empty, auth_complete}
use mtlogin.Context.{Ctx}
use mtlogin.Store.Contract.{StoreView}
use mtlogin.Refresh.Message.{password_auth_expired_retry}
use mtlogin.Refresh.Calls
use mtlogin.Refresh.Calls.{Sys}
use mtlogin.Refresh.Checks.{run_checks}
use mtlogin.Refresh.Auth.{
  Resolved, Expired, drop_foreign, bind_account, ensure_visitor_id, ensure_login, resolve_kept,
  resolve_stored, resolve, login_again, handle_auth_expired, login_and_save, save_account,
  save_state, reset, login_request,
}
use mtlogin.Refresh.Auth.Identity.{resolve_password_mode, expired_identity}
use mtlogin.Refresh.Service.{
  Service, notify, run_with_session, run_again, handle_password_auth_expired, after_session, run,
  run_ctx, is_auth_failed,
}
use mtlogin.Refresh.Service.Stored.{stored, notify-stored, checked, session_refused, session_stored}

module _ {W S : Type 0} (V : Service W S) where
  -- What the run relies on: a visitor id that is generated is not empty, a login that succeeds gives a
  -- complete identity, and a session that is opened with a complete one ends with a complete one.
  pub record Reliable : Type 0 where
    pub generated : (w : W) → is_empty (V.login.generate_visitor_id w).0 ≡ false
    pub login_complete :
        (c : Ctx) (r : LoginRequest) (w : W) (s : AuthState)
        → (V.login.login c r w).0 ≡ ok s
        → auth_complete s ≡ true
    pub session_complete :
        (rc : Ctx) (a : AuthState) (y : Sys W)
        → auth_complete a ≡ true
        → let (s, w) = V.client.new_session a y.world in
          let after =
            run_checks V.client rc s
              (record { world = w; calls = Calls.new_session a ∷ y.calls }) in
          auth_complete (V.client.snapshot s after.1.world).0 ≡ true

  -- The store has a complete identity of the configured account.
  abbrev pub Bound : StoreView → Type 0
  Bound v = (auth_complete v.auth ≡ true) × (v.account ≡ V.auth.password_auth.username)

  module _ (R : Reliable) where
    login_and_save_complete :
        (ctx : Ctx) (v : String) (e : ℕ) (y : Sys W) (s : AuthState)
        → (login_and_save V.auth V.store V.login ctx v e y).0 ≡ ok s
        → auth_complete s ≡ true
    unfolding login_and_save save_state
    login_and_save_complete ctx v e y s h =
        let r = login_request V.auth V.store V.login v in
        ground (arith, R.login_complete ctx r y.world s)

    ensure_login_complete :
        (ctx : Ctx) (a : AuthState) (e : ℕ) (y : Sys W) (s : AuthState)
        → is_empty a.visitor_id ≡ false
        → (ensure_login V.auth V.store V.login ctx a e y).0 ≡ ok s
        → auth_complete s ≡ true
    unfolding ensure_login auth_complete
    ensure_login_complete ctx a e y s n h =
        ground (arith, login_and_save_complete ctx a.visitor_id e y s)

    ensure_visitor_id_named :
        (a : AuthState) (e : ℕ) (y : Sys W) (s : AuthState)
        → (ensure_visitor_id V.auth V.store V.login a e y).0 ≡ ok s
        → is_empty s.visitor_id ≡ false
    unfolding ensure_visitor_id save_state
    ensure_visitor_id_named a e y s h = ground (arith, R.generated y.world)

    resolve_kept_complete :
        (ctx : Ctx) (account : String) (a : AuthState) (e : ℕ) (y : Sys W) (r : Resolved)
        → (resolve_kept V.auth V.store V.login ctx account (a, e) y).0 ≡ ok r
        → auth_complete r.state ≡ true
    unfolding resolve_kept
    resolve_kept_complete ctx account a e y r h =
        let y1 = (bind_account V.auth V.store V.login account e y).1 in
        let named = ensure_visitor_id V.auth V.store V.login a e y1 in
        elim (Result-cases named.0) [
          | inr (q, k) ↦ ground arith
          | inl (b, k) ↦ ground (
            arith,
            ensure_visitor_id_named a e y1 b,
            ensure_login_complete ctx b e named.1 r.state,
          )
        ]

    resolve_complete :
        (ctx : Ctx) (y : Sys W) (r : Resolved)
        → auth_empty V.auth.token_auth ≡ true
        → (resolve V.auth V.store V.login ctx y).0 ≡ ok r
        → auth_complete r.state ≡ true
    unfolding resolve resolve_stored
    resolve_complete ctx y r t h =
        let (l, w1) = V.store.load_auth_state y.world in
        let (a, w2) = V.store.load_auth_account w1 in
        let y2 : Sys W = record {
          world = w2;
          calls = Calls.load_account ∷ Calls.load_state ∷ y.calls;
        } in
        elim (Result-cases l) [
          | inr (q, k) ↦ ground arith
          | inl (x, k) ↦ elim (Result-cases a) [
            | inr (q, k') ↦ ground arith
            | inl (b, k') ↦
                let dropped = drop_foreign V.auth V.store V.login b x.state x.epoch y2 in
                elim (Result-cases dropped.0) [
                  | inr (q, k'') ↦ ground arith
                  | inl (d, k'') ↦ ground (arith, resolve_kept_complete ctx b d.0 d.1 dropped.1 r)
                ]
          ]
        ]

    -- A session of the password mode that starts from what is stored and returns no error.
    session_Bound :
        (rc ac : Ctx) (a : AuthState) (k : ℕ) (y : Sys W)
        → auth_complete a ≡ true
        → (stored V y).auth ≡ a
        → (stored V y).account ≡ V.auth.password_auth.username
        → (run_with_session V rc ac a k false y).0 ≡ none
        → Bound (stored V (run_with_session V rc ac a k false y).1)
    session_Bound rc ac a k y c h n done =
        let met = R.session_complete rc a y c in
        elim (Bool-cases (is_auth_failed (checked V rc ac a k y).0.1)) [
          | inl f ↦ ground (arith, session_refused V rc ac a k y f)
          | inr f ↦ ground (arith, met, session_stored V rc ac a k y h f)
        ]

    expired_complete :
        (ctx : Ctx) (e : ℕ) (y : Sys W) (x : Expired)
        → (handle_auth_expired V.auth V.store V.login ctx e y).0 ≡ ok x
        → x.retried ≡ true
        → auth_complete x.state ≡ true
    unfolding handle_auth_expired reset login_again save_account save_state
    expired_complete ctx e y x h t =
        let (r, w) = V.store.reset_auth_state y.world in
        let (v, w1) = V.login.generate_visitor_id w in
        let blank : AuthState = record { token = ""; did = ""; visitor_id = v } in
        let name = V.auth.password_auth.username in
        let (b, w2) = V.store.save_auth_account name r.0 w1 in
        let (c, w3) = V.store.save_auth_state blank r.0 w2 in
        let y3 : Sys W = record {
          world = w3;
          calls =
              Calls.save_state blank r.0
              ∷ Calls.save_account name r.0
              ∷ Calls.generate
              ∷ Calls.reset
              ∷ y.calls;
        } in
        ground (arith, login_and_save_complete ctx v r.0 y3 x.state)

    expired_run-Bound :
        (rc ac : Ctx) (k : ℕ) (e : GoError) (y : Sys W)
        → (handle_password_auth_expired V rc ac k e y).0 ≡ none
        → Bound (stored V (handle_password_auth_expired V rc ac k e y).1)
    unfolding handle_password_auth_expired run_again
    expired_run-Bound rc ac k e y h =
        let (r, y1) = handle_auth_expired V.auth V.store V.login rc k y in
        elim (Result-cases r) [
          | inr (q, f) ↦ ground arith
          | inl (x, f) ↦ elim (Bool-cases x.retried) [
            | inr n ↦ ground arith
            | inl t ↦
                let y2 = notify V ac password_auth_expired_retry (some e) none y1 in
                let z = run_with_session V rc ac x.state x.epoch false y2 in
                let same = notify-stored V ac password_auth_expired_retry (some e) none y1 in
                let had = expired_identity V.auth V.store V.login rc k y x f in
                let full = expired_complete rc k y x f t in
                elim (Option-cases z.0) [
                  | inr (q, g) ↦ ground arith
                  | inl g ↦
                      let b =
                        session_Bound rc ac x.state x.epoch y2 full (ground (arith, same, had))
                          (ground (arith, same, had)) g in
                      ground (arith, b)
                ]
          ]
        ]

    -- A run of the password mode that returns no error leaves a complete identity in the store, bound
    -- to the configured account.
    pub run-Bound :
        (ac : Ctx) (y : Sys W)
        → auth_empty V.auth.token_auth ≡ true
        → (run V ac y).0 ≡ none
        → Bound (stored V (run V ac y).1)
    unfolding run after_session
    run-Bound ac y t h =
        let rc = run_ctx V ac in
        let (r, y1) = resolve V.auth V.store V.login rc y in
        elim (Result-cases r) [
          | inr (q, f) ↦ ground arith
          | inl (x, f) ↦
              let had = resolve_password_mode V.auth V.store V.login rc y x t f in
              let full = resolve_complete rc y x t f in
              let z = run_with_session V rc ac x.state x.epoch false y1 in
              elim (Option-cases z.0) [
                | inl g ↦
                    let b =
                      session_Bound rc ac x.state x.epoch y1 full (ground (arith, had))
                        (ground (arith, had)) g in
                    ground (arith, b, had)
                | inr (q, g) ↦ ground (arith, had, expired_run-Bound rc ac x.epoch q z.1)
              ]
        ]
