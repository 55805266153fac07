-- ===== src/Refresh/Service/Notices.antt =====
-- How many notifications a run of internal/refresh/service.go sends.
use mtlogin.Prelude.{
  ℕ, suc, ◌+◌, ◌≤◌, Bool, false, ◌≡◌, ◌≢◌, refl, not, ◌&&◌, Option, none, some, List, [], ◌∷◌,
  arith, inl, inr, if◌then◌else◌,
}
use mtlogin.Errors.{GoError, err, Result-cases}
use mtlogin.Domain.{AuthState, Profile}
use mtlogin.Domain.Codes.{is_code}
use mtlogin.Context.{Ctx}
use mtlogin.Refresh.Contracts.{Notifier}
use mtlogin.Refresh.Message.{
  MessageKind, refresh_failed, refresh_succeeded, identity_changed, token_auth_expired,
  relogin_failed, password_auth_expired_retry, password_auth_expired_next_run,
}
use mtlogin.Refresh.Calls
use mtlogin.Refresh.Calls.{Call, Sys, start}
use mtlogin.Refresh.Checks.{run_checks}
use mtlogin.Refresh.Auth.{Resolved, resolve, handle_auth_expired, identity_changed_error}
use mtlogin.Refresh.Auth.Trace.{IdentityCalls, resolve-Keeps, handle_auth_expired-Keeps}
use mtlogin.Refresh.Service.Trace.{SessionCalls, run_checks-keeps}
use mtlogin.Refresh.Service.{
  Service, notify, report, persist, run_with_session, run_again, handle_password_auth_expired,
  after_session, run, run_ctx, reset_kind, is_auth_failed,
}

-- The notifications among some calls.
abbrev pub notices : List Call → ℕ
notices [] = 0
notices (Call.notify _ _ ∷ cs) = suc (notices cs)
notices (_ ∷ cs) = notices cs

-- An authentication error of the password mode is reported later, by what handles it.
abbrev noticed : Bool → Option GoError → ℕ
noticed t e = if is_auth_failed e && not t then 0 else 1

module _ {W S : Type 0} (V : Service W S) (rc ac : Ctx) (n : Notifier W V.store.view)
    (present : V.notifier ≡ some n) where
  abbrev Same : ℕ → List Call → Type 0
  Same k cs = notices cs ≡ k

  session_calls : (k : ℕ) → SessionCalls (Same k) rc
  session_calls k = record {
    warmup = λ cs h. h;
    profile = λ cs h. h;
    update = λ cs h. h;
    browse = λ cs h. h;
  }

  identity_calls : (k : ℕ) → IdentityCalls (Same k) rc
  identity_calls k = record {
    load_state = λ cs h. h;
    load_account = λ cs h. h;
    reset = λ cs h. h;
    generate = λ cs h. h;
    save_state = λ a e cs h. h;
    save_account = λ a e cs h. h;
    login = λ r cs h. h;
  }

  run_checks-notices :
      (s : S) (y : Sys W) → notices (run_checks V.client rc s y).1.calls ≡ notices y.calls
  run_checks-notices s y = run_checks-keeps V (Same (notices y.calls)) rc (session_calls _) s y refl

  resolve-notices :
      (y : Sys W) → notices (resolve V.auth V.store V.login rc y).1.calls ≡ notices y.calls
  resolve-notices y =
      resolve-Keeps V.auth V.store V.login (Same (notices y.calls)) rc (identity_calls _) y refl

  expired-notices :
      (e : ℕ) (y : Sys W)
      → notices (handle_auth_expired V.auth V.store V.login rc e y).1.calls ≡ notices y.calls
  expired-notices e y =
      handle_auth_expired-Keeps V.auth V.store V.login (Same (notices y.calls)) rc
        (identity_calls _) e y refl

  notify-notices :
      (k : MessageKind) (e : Option GoError) (p : Option Profile) (y : Sys W)
      → notices (notify V ac k e p y).calls ≡ notices y.calls + 1
  unfolding notify
  notify-notices k e p y = ground (arith, present)

  report-notices :
      (t : Bool) (p : Option Profile) (e : Option GoError) (y : Sys W)
      → (notices (report V ac t p e y).1.calls ≡ notices y.calls + noticed t e)
        × ((report V ac t p e y).0 ≡ e)
  unfolding report
  report-notices t p none y = ground (arith, notify-notices refresh_succeeded none p y)
  report-notices t p (some e) y = ground (
    arith,
    notify-notices token_auth_expired (some e) none y,
    notify-notices refresh_failed (some e) p y,
  )

  module _
      (saves : (a : AuthState) (e : ℕ) (w : W) (q : GoError)
        → (V.store.save_auth_state a e w).0 ≢ err q) where
    persist-notices :
        (a : AuthState) (k : ℕ) (p : Option Profile) (e : Option GoError) (y : Sys W)
        → is_auth_failed e ≡ false
        → let z = persist V ac a k false p e y in
          (notices z.1.calls ≡ notices y.calls + 1) × (is_auth_failed z.0 ≡ false)
    unfolding persist is_code
    persist-notices a k p e y h =
        let (r, w) = V.store.save_auth_state a k y.world in
        let y1 : Sys W = record { world = w; calls = Calls.save_state a k ∷ y.calls } in
        elim (Result-cases r) [
          | inl (b, q) ↦ ground (
            arith,
            report-notices false p e y1,
            notify-notices identity_changed (some identity_changed_error) none y1,
          )
          | inr (x, q) ↦ absurd (saves a k y.world x q)
        ]

    run_with_session-notices :
        (a : AuthState) (k : ℕ) (t : Bool) (y : Sys W)
        → let z = run_with_session V rc ac a k t y in
          notices z.1.calls ≡ notices y.calls + noticed t z.0
    unfolding run_with_session
    run_with_session-notices a k t y =
        let (s, w) = V.client.new_session a y.world in
        let y1 : Sys W = record { world = w; calls = Calls.new_session a ∷ y.calls } in
        let (r, y2) = run_checks V.client rc s y1 in
        let (b, w3) = V.client.snapshot s y2.world in
        let y3 : Sys W = record { world = w3; calls = Calls.snapshot ∷ y2.calls } in
        ground (
          arith,
          run_checks-notices s y1,
          report-notices t r.0 r.1 y3,
          persist-notices b k r.0 r.1 y3,
        )

    run_again-notices :
        (a : AuthState) (k : ℕ) (y : Sys W)
        → notices (run_again V rc ac a k y).1.calls ≡ notices y.calls + 1
    unfolding run_again
    run_again-notices a k y =
        let (e, y1) = run_with_session V rc ac a k false y in
        ground
          (arith, run_with_session-notices a k false y, notify-notices relogin_failed e none y1)

    expired_run-notices :
        (k : ℕ) (e : GoError) (y : Sys W)
        → let m = notices (handle_password_auth_expired V rc ac k e y).1.calls in
          (notices y.calls + 1 ≤ m) × (m ≤ notices y.calls + 2)
    unfolding handle_password_auth_expired
    expired_run-notices k e y =
        let (r, y1) = handle_auth_expired V.auth V.store V.login rc k y in
        let same = expired-notices k y in
        let retry = notify V ac password_auth_expired_retry (some e) none y1 in
        elim (Result-cases r) [
          | inl (x, q) ↦ ground (
            arith,
            same,
            notify-notices password_auth_expired_retry (some e) none y1,
            notify-notices password_auth_expired_next_run (some e) none y1,
            run_again-notices x.state x.epoch retry,
          )
          | inr (x, q) ↦ ground (arith, same, notify-notices (reset_kind V x) (some x) none y1)
        ]

    after_session-notices :
        (x : Resolved) (e : Option GoError) (y : Sys W)
        → let m = notices (after_session V rc ac x e y).1.calls + noticed x.token_mode e in
          (notices y.calls + 1 ≤ m) × (m ≤ notices y.calls + 2)
    unfolding after_session
    after_session-notices x none y = ground arith
    after_session-notices x (some e) y = ground (arith, expired_run-notices x.epoch e y)

-- Where a notifier is set and the store's writes of the identity do not fail, every run sends one
-- notification or two, whatever else fails and in either mode.
pub run-notices :
    {W S : Type 0} (V : Service W S) (ac : Ctx) (n : Notifier W V.store.view) (w : W)
    → V.notifier ≡ some n
    → ((a : AuthState) (e : ℕ) (w' : W) (q : GoError) → (V.store.save_auth_state a e w').0 ≢ err q)
    → let m = notices (run V ac (start w)).1.calls in (1 ≤ m) × (m ≤ 2)
unfolding run
run-notices V ac n w present saves =
    let y = start w in
    let rc = run_ctx V ac in
    let (r, y1) = resolve V.auth V.store V.login rc y in
    let same = resolve-notices V rc ac n present y in
    elim (Result-cases r) [
      | inl (x, q) ↦
          let (e, y2) = run_with_session V rc ac x.state x.epoch x.token_mode y1 in
          ground (
            arith,
            same,
            run_with_session-notices V rc ac n present saves x.state x.epoch x.token_mode y1,
            after_session-notices V rc ac n present saves x e y2,
          )
      | inr (x, q) ↦
          ground (arith, same, notify-notices V rc ac n present refresh_failed (some x) none y1)
    ]
