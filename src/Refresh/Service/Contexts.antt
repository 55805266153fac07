-- ===== src/Refresh/Service/Contexts.antt =====
-- Under which context internal/refresh/service.go makes its calls, and which calls it leaves out.
use mathlib.Core.Bool.{false≢true}
use mtlogin.Prelude.{Bool, true, false, ◌≡◌, refl, sym, none, some, All, arith}
use mtlogin.Domain.{auth_empty}
use mtlogin.Context.{Ctx}
use mtlogin.Refresh.Calls.{Call, start}
use mtlogin.Refresh.Auth.{Resolved, incomplete_token_error}
use mtlogin.Refresh.Auth.Identity.{resolve_token_mode}
use mtlogin.Refresh.Message.{refresh_failed}
use mtlogin.Refresh.Service.Trace.{RunCalls, run-keeps, run_with_session-keeps, notify-keeps}
use mtlogin.Refresh.Service.{Service, run, run_ctx, run_with_session, after_session}

-- Requests of the business phase carry `rc`, notifications `ac`.
abbrev pub Proper : Ctx → Ctx → Call → Type 0
Proper rc ac (Call.login c r) = c ≡ rc
Proper rc ac (Call.warmup c) = c ≡ rc
Proper rc ac (Call.profile c) = c ≡ rc
Proper rc ac (Call.browse c) = c ≡ rc
Proper rc ac (Call.update c) = c ≡ rc
Proper rc ac (Call.notify c m) = c ≡ ac
Proper rc ac _ = Unit

-- A call of the store or of the login client.
abbrev pub is_identity_call : Call → Bool
is_identity_call Call.load_state = true
is_identity_call Call.load_account = true
is_identity_call Call.reset = true
is_identity_call (Call.save_state _ _) = true
is_identity_call (Call.save_account _ _) = true
is_identity_call Call.generate = true
is_identity_call (Call.login _ _) = true
is_identity_call _ = false

module _ {W S : Type 0} (V : Service W S) (ac : Ctx) (w : W) where
  -- In every run, whatever fails, the login and the requests of the session go out under the context
  -- with the refresh timeout, if one is set, and every notification under the context of the
  -- process.
  pub run_contexts : All (Proper (run_ctx V ac) ac) (run V ac (start w)).1.calls
  run_contexts =
      let P = Proper (run_ctx V ac) ac in
      run-keeps V (All P) ac
        (record {
          requests = record {
            warmup = λ cs h. (refl, h);
            profile = λ cs h. (refl, h);
            update = λ cs h. (refl, h);
            browse = λ cs h. (refl, h);
          };
          new_session = λ a cs h. (tt, h);
          snapshot = λ cs h. (tt, h);
          notify = λ m cs h. (refl, h);
        })
        (record {
          load_state = λ cs h. (tt, h);
          load_account = λ cs h. (tt, h);
          reset = λ cs h. (tt, h);
          generate = λ cs h. (tt, h);
          save_state = λ a e cs h. (tt, h);
          save_account = λ a e cs h. (tt, h);
          login = λ r cs h. (refl, h);
        })
        (start w) tt

  abbrev Foreign : Call → Type 0
  Foreign c = is_identity_call c ≡ false

  session_calls : RunCalls (All Foreign) (run_ctx V ac) ac
  session_calls = record {
    requests = record {
      warmup = λ cs h. (refl, h);
      profile = λ cs h. (refl, h);
      update = λ cs h. (refl, h);
      browse = λ cs h. (refl, h);
    };
    new_session = λ a cs h. (refl, h);
    snapshot = λ cs h. (refl, h);
    notify = λ m cs h. (refl, h);
  }

  -- With a token identity in the configuration, a run calls neither the store nor the login client,
  -- whatever the server answers.
  pub run_token_mode :
      auth_empty V.auth.token_auth ≡ false → All Foreign (run V ac (start w)).1.calls
  unfolding run after_session
  run_token_mode h =
      let y = start w in
      let rc = run_ctx V ac in
      let t = V.auth.token_auth in
      let x : Resolved = record { state = t; epoch = 0; token_mode = true } in
      let (e, y1) = run_with_session V rc ac t 0 true y in
      let resolved = resolve_token_mode V.auth V.store V.login rc y h in
      let failed =
        notify-keeps V (All Foreign) rc ac session_calls refresh_failed
          (some incomplete_token_error) none y in
      let kept =
        run_with_session-keeps V (All Foreign) rc ac session_calls t 0 true y
          (λ q. absurd (false≢true (sym q))) tt in
      ground (arith, resolved, failed, kept)
