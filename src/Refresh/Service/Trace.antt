-- ===== src/Refresh/Service/Trace.antt =====
-- Which calls internal/refresh/service.go makes: an invariant of the list of calls that each part
-- keeps, given each call that the part may make keeps it.
use mtlogin.Prelude.{ℕ, Bool, false, ◌≡◌, Option, none, some, List, ◌∷◌, arith, inl, inr}
use mtlogin.Errors.{GoError, Result-cases}
use mtlogin.Domain.{AuthState, Profile}
use mtlogin.Refresh.Message.{
  Message, MessageKind, refresh_failed, refresh_succeeded, identity_changed, token_auth_expired,
  relogin_failed, password_auth_expired_retry, password_auth_expired_next_run, build_message,
}
use mtlogin.Context.{Ctx}
use mtlogin.Refresh.Calls
use mtlogin.Refresh.Calls.{Call, Sys}
use mtlogin.Refresh.Checks.{run_checks}
use mtlogin.Refresh.Auth.{Resolved, resolve, handle_auth_expired, identity_changed_error}
use mtlogin.Refresh.Auth.Trace.{IdentityCalls, resolve-Keeps, handle_auth_expired-Keeps}
use mtlogin.Refresh.Service.{
  Service, notify, report, persist, run_with_session, run_again, handle_password_auth_expired,
  after_session, run, run_ctx, reset_kind,
}

abbrev Kept : (List Call → Type 0) → Call → Type 0
Kept Inv c = (cs : List Call) → Inv cs → Inv (c ∷ cs)

-- An invariant of the calls made so far that the requests of a session keep.
pub record SessionCalls (Inv : List Call → Type 0) (rc : Ctx) : Type 0 where
  pub warmup : Kept Inv (Calls.warmup rc)
  pub profile : Kept Inv (Calls.profile rc)
  pub update : Kept Inv (Calls.update rc)
  pub browse : Kept Inv (Calls.browse rc)

module _ {W S : Type 0} (V : Service W S) (Inv : List Call → Type 0) (rc : Ctx)
    (C : SessionCalls Inv rc) where
  pub run_checks-keeps :
      (s : S) (y : Sys W) → Inv y.calls → Inv (run_checks V.client rc s y).1.calls
  unfolding run_checks
  run_checks-keeps s y h =
      let c1 = Calls.warmup rc ∷ y.calls in
      let c2 = Calls.profile rc ∷ c1 in
      let c3 = Calls.warmup rc ∷ c2 in
      ground (
        arith,
        C.warmup y.calls,
        C.profile c1,
        C.warmup c2,
        C.update c3,
        C.browse (Calls.update rc ∷ c3),
      )

-- The same of the other calls around a session.
pub record RunCalls (Inv : List Call → Type 0) (rc ac : Ctx) : Type 0 where
  pub requests : SessionCalls Inv rc
  pub new_session : (a : AuthState) → Kept Inv (Calls.new_session a)
  pub snapshot : Kept Inv Calls.snapshot
  pub notify : (m : Message) → Kept Inv (Calls.notify ac m)

module _ {W S : Type 0} (V : Service W S) (Inv : List Call → Type 0) (rc ac : Ctx)
    (C : RunCalls Inv rc ac) where
  pub notify-keeps :
      (k : MessageKind) (e : Option GoError) (p : Option Profile) (y : Sys W)
      → Inv y.calls
      → Inv (notify V ac k e p y).calls
  unfolding notify
  notify-keeps k e p y h = ground (arith, C.notify (build_message V.format k e p) y.calls)

  report-keeps :
      (t : Bool) (p : Option Profile) (e : Option GoError) (y : Sys W)
      → Inv y.calls
      → Inv (report V ac t p e y).1.calls
  unfolding report
  report-keeps t p none y h = notify-keeps refresh_succeeded none p y h
  report-keeps t p (some e) y h = ground (
    arith,
    notify-keeps token_auth_expired (some e) none y,
    notify-keeps refresh_failed (some e) p y,
  )

  persist-keeps :
      (a : AuthState) (n : ℕ) (t : Bool) (p : Option Profile) (e : Option GoError) (y : Sys W)
      → (Inv y.calls → Inv (Calls.save_state a n ∷ y.calls))
      → Inv y.calls
      → Inv (persist V ac a n t p e y).1.calls
  unfolding persist
  persist-keeps a n t p e y q h =
      let y1 : Sys W = record {
        world = (V.store.save_auth_state a n y.world).1;
        calls = Calls.save_state a n ∷ y.calls;
      } in
      ground (
        arith,
        report-keeps t p e y1,
        notify-keeps identity_changed (some identity_changed_error) none y1,
      )

  pub run_with_session-keeps :
      (a : AuthState) (n : ℕ) (t : Bool) (y : Sys W)
      → (t ≡ false → (b : AuthState) → Kept Inv (Calls.save_state b n))
      → Inv y.calls
      → Inv (run_with_session V rc ac a n t y).1.calls
  unfolding run_with_session
  run_with_session-keeps a n t y q h =
      let (s, w) = V.client.new_session a y.world in
      let y1 : Sys W = record { world = w; calls = Calls.new_session a ∷ y.calls } in
      let (r, y2) = run_checks V.client rc s y1 in
      let (b, w3) = V.client.snapshot s y2.world in
      let y3 : Sys W = record { world = w3; calls = Calls.snapshot ∷ y2.calls } in
      ground (
        arith,
        C.new_session a y.calls,
        C.snapshot y2.calls,
        run_checks-keeps V Inv rc C.requests s y1,
        report-keeps t r.0 r.1 y3,
        persist-keeps b n t r.0 r.1 y3,
        λ (e : t ≡ false). q e b y3.calls,
      )

  module _ (I : IdentityCalls Inv rc) where
    run_again-keeps :
        (a : AuthState) (n : ℕ) (y : Sys W) → Inv y.calls → Inv (run_again V rc ac a n y).1.calls
    unfolding run_again
    run_again-keeps a n y h =
        let (e, y1) = run_with_session V rc ac a n false y in
        ground (
          arith,
          run_with_session-keeps a n false y (λ _ b. I.save_state b n) h,
          notify-keeps relogin_failed e none y1,
        )

    expired-keeps :
        (n : ℕ) (e : GoError) (y : Sys W)
        → Inv y.calls
        → Inv (handle_password_auth_expired V rc ac n e y).1.calls
    unfolding handle_password_auth_expired
    expired-keeps n e y h =
        let (r, y1) = handle_auth_expired V.auth V.store V.login rc n y in
        let kept = handle_auth_expired-Keeps V.auth V.store V.login Inv rc I n y h in
        let retry = notify V ac password_auth_expired_retry (some e) none y1 in
        elim (Result-cases r) [
          | inl (x, q) ↦ ground (
            arith,
            kept,
            notify-keeps password_auth_expired_retry (some e) none y1,
            notify-keeps password_auth_expired_next_run (some e) none y1,
            run_again-keeps x.state x.epoch retry,
          )
          | inr (x, q) ↦ ground (arith, kept, notify-keeps (reset_kind V x) (some x) none y1)
        ]

    after_session-keeps :
        (x : Resolved) (e : Option GoError) (y : Sys W)
        → Inv y.calls
        → Inv (after_session V rc ac x e y).1.calls
    unfolding after_session
    after_session-keeps x none y h = h
    after_session-keeps x (some e) y h = ground (arith, expired-keeps x.epoch e y)

-- A run keeps the invariant, if each call that it may make does.
pub run-keeps :
    {W S : Type 0} (V : Service W S) (Inv : List Call → Type 0) (ac : Ctx)
    → RunCalls Inv (run_ctx V ac) ac
    → IdentityCalls Inv (run_ctx V ac)
    → (y : Sys W) → Inv y.calls
    → Inv (run V ac y).1.calls
unfolding run
run-keeps V Inv ac C I y h =
    let rc = run_ctx V ac in
    let (r, y1) = resolve V.auth V.store V.login rc y in
    let kept = resolve-Keeps V.auth V.store V.login Inv rc I y h in
    elim (Result-cases r) [
      | inl (x, q) ↦
          let (e, y2) = run_with_session V rc ac x.state x.epoch x.token_mode y1 in
          ground (
            arith,
            kept,
            run_with_session-keeps V Inv rc ac C x.state x.epoch x.token_mode y1
                (λ _ b. I.save_state b x.epoch),
            after_session-keeps V Inv rc ac C I x e y2,
          )
      | inr (x, q) ↦
          ground (arith, kept, notify-keeps V Inv rc ac C refresh_failed (some x) none y1)
    ]
