-- ===== src/Refresh/Service/Stored.antt =====
-- What is stored after the parts of a run of internal/refresh/service.go.
use mtlogin.Prelude.{
  ℕ, Bool, true, false, ◌≡◌, ◌⊎◌, inl, inr, refl, Bool-cases, Option-cases, Option, none, some, ◌∷◌,
  arith, eq_iff,
}
use mtlogin.Errors.{GoError, Result, ok, err, Result-cases}
use mtlogin.Domain.{AuthState, Profile, no_auth, auth_empty}
use mtlogin.Store.Contract.{StoreView, next_epoch}
use mtlogin.Context.{Ctx}
use mtlogin.Refresh.Message.{
  build_message, MessageKind, refresh_failed, refresh_succeeded, identity_changed,
  token_auth_expired, password_auth_expired_next_run,
}
use mtlogin.Refresh.Calls
use mtlogin.Refresh.Calls.{Sys}
use mtlogin.Refresh.Checks.{run_checks}
use mtlogin.Refresh.Checks.Outcome.{run_checks-view}
use mtlogin.Refresh.Auth.{handle_auth_expired, identity_changed_error, incomplete_token_error}
use mtlogin.Refresh.Auth.Identity.{resolve_token_mode, expired_identity, expired_succeeds}
use mtlogin.Refresh.Service.{
  Service, notify, report, persist, run_with_session, handle_password_auth_expired, after_session,
  run, run_ctx, is_auth_failed, same_auth,
}

module _ {W S : Type 0} (V : Service W S) where
  abbrev pub stored : Sys W → StoreView
  stored y = V.store.view y.world

  pub notify-stored :
      (ac : Ctx) (k : MessageKind) (e : Option GoError) (p : Option Profile) (y : Sys W)
      → stored (notify V ac k e p y) ≡ stored y
  unfolding notify
  notify-stored ac k e p y = elim (Option-cases V.notifier) [
    | inl q ↦ ground arith
    | inr (n, q) ↦ ground (arith, n.notify_keeps ac (build_message V.format k e p) y.world)
  ]

  report-stored :
      (ac : Ctx) (t : Bool) (p : Option Profile) (e : Option GoError) (y : Sys W)
      → (stored (report V ac t p e y).1 ≡ stored y) × ((report V ac t p e y).0 ≡ e)
  unfolding report
  report-stored ac t p none y = (notify-stored ac refresh_succeeded none p y, refl)
  report-stored ac t p (some e) y = ground (
    arith,
    notify-stored ac token_auth_expired (some e) none y,
    notify-stored ac refresh_failed (some e) p y,
  )

  module _ (rc ac : Ctx) (a : AuthState) (k : ℕ) (y : Sys W) where
    abbrev opened : S × W
    opened = V.client.new_session a y.world

    abbrev pub checked : (Option Profile × Option GoError) × Sys W
    checked =
        run_checks V.client rc opened.0
          (record { world = opened.1; calls = Calls.new_session a ∷ y.calls })

    -- The identity that the session ends with.
    abbrev pub ended : AuthState × W
    ended = V.client.snapshot opened.0 checked.1.world

    abbrev seen : Sys W
    seen = record { world = ended.1; calls = Calls.snapshot ∷ checked.1.calls }

    abbrev attempt : Sys W
    attempt = record {
      world = (V.store.save_auth_state ended.0 k ended.1).1;
      calls = Calls.save_state ended.0 k ∷ seen.calls;
    }

    seen-stored : stored seen ≡ stored y
    seen-stored = ground (
      arith,
      V.client.new_session_keeps a y.world,
      V.client.snapshot_keeps opened.0 checked.1.world,
      run_checks-view V.client rc opened.0
          (record { world = opened.1; calls = Calls.new_session a ∷ y.calls }),
    )

    -- A session of the password mode whose checks fail by an authentication error writes nothing: the
    -- store is as it was, and the error is returned for the run to handle.
    pub session_refused :
        is_auth_failed checked.0.1 ≡ true
        → let z = run_with_session V rc ac a k false y in
          (stored z.1 ≡ stored y) × (z.0 ≡ checked.0.1)
    unfolding run_with_session
    session_refused h =
        ground (arith, seen-stored, report-stored ac false checked.0.0 checked.0.1 seen)

    abbrev pub save_answer : Result Bool
    save_answer = (V.store.save_auth_state ended.0 k ended.1).0

    -- The store did not take the identity of the session, and the run says why.
    abbrev pub Unsaved : Option GoError → Type 0
    Unsaved e =
        ((x : GoError) × (save_answer ≡ err x) × (e ≡ some x))
        ⊎ (save_answer ≡ ok false) × (e ≡ some identity_changed_error)

    -- A session of the password mode that started from the stored identity, and whose checks pass or
    -- fail by another error than an authentication error, leaves the identity that it ended with in the
    -- store, under the same account and epoch, and returns what the checks returned. Only where the
    -- store fails to save this identity, or answers that it did not save it, the store is as it was, and
    -- the error of the save or the one of a changed identity is returned.
    pub session_stored :
        (stored y).auth ≡ a
        → is_auth_failed checked.0.1 ≡ false
        → let z = run_with_session V rc ac a k false y in
          (stored z.1
              ≡ record { auth = ended.0; account = (stored y).account; epoch = (stored y).epoch })
            × (z.0 ≡ checked.0.1)
          ⊎ (stored z.1 ≡ stored y) × Unsaved z.0
    unfolding run_with_session persist
    session_stored h f =
        let done = V.store.save_state_done ended.0 k ended.1 in
        let refused = V.store.save_state_refused ended.0 k ended.1 in
        let plain = report-stored ac false checked.0.0 checked.0.1 seen in
        let saved = report-stored ac false checked.0.0 checked.0.1 attempt in
        let changed =
          notify-stored ac identity_changed (some identity_changed_error) none attempt in
        let e1 = eq_iff ended.0.token a.token in
        let e2 = eq_iff ended.0.did a.did in
        let e3 = eq_iff ended.0.visitor_id a.visitor_id in
        elim (Bool-cases (same_auth ended.0 a)) [
          | inl s ↦ inl (ground (arith, seen-stored, plain, e1, e2, e3))
          | inr s ↦ elim (Result-cases save_answer) [
            | inr (x, q) ↦
                let failed = V.store.save_state_failed ended.0 k ended.1 x in
                inr (ground (arith, seen-stored, failed), inl (x, q, ground arith))
            | inl (b, q) ↦ elim (Bool-cases b) [
              | inl t ↦ inl (ground (arith, seen-stored, saved, done))
              | inr t ↦ inr (
                ground (arith, seen-stored, changed, refused),
                inr (ground arith, ground (arith, changed)),
              )
            ]
          ]
        ]

  -- With `retry_on_auth_failure` off and a reset that goes through, the handling of an authentication
  -- error in the password mode ends with no identity and no account in the store, at the next epoch,
  -- and returns that error.
  pub expired_run_cleared :
      (rc ac : Ctx) (k : ℕ) (e : GoError) (y : Sys W)
      → V.auth.retry_on_auth_failure ≡ false
      → (V.store.reset_auth_state y.world).0.1 ≡ none
      → let z = handle_password_auth_expired V rc ac k e y in
        (z.0 ≡ some e)
        × (stored z.1
            ≡ record { auth = no_auth; account = ""; epoch = next_epoch (stored y).epoch })
  unfolding handle_password_auth_expired
  expired_run_cleared rc ac k e y h d =
      let (r, y1) = handle_auth_expired V.auth V.store V.login rc k y in
      let told = notify-stored ac password_auth_expired_next_run (some e) none y1 in
      elim (Result-cases r) [
        | inl (x, q) ↦ ground (arith, expired_identity V.auth V.store V.login rc k y x, told)
        | inr (x, q) ↦ ground (arith, expired_succeeds V.auth V.store V.login rc k y h d)
      ]

  -- With a token identity in the configuration the stored identity survives every run.
  pub run_token_mode_stored :
      (ac : Ctx) (y : Sys W)
      → auth_empty V.auth.token_auth ≡ false
      → stored (run V ac y).1 ≡ stored y
  unfolding run after_session run_with_session
  run_token_mode_stored ac y h =
      let rc = run_ctx V ac in
      let t = V.auth.token_auth in
      let c = checked rc ac t 0 y in
      ground (
        arith,
        resolve_token_mode V.auth V.store V.login rc y h,
        seen-stored rc ac t 0 y,
        report-stored ac true c.0.0 c.0.1 (seen rc ac t 0 y),
        notify-stored ac refresh_failed (some incomplete_token_error) none y,
      )
