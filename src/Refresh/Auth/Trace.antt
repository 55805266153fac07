-- ===== src/Refresh/Auth/Trace.antt =====
-- Which calls internal/refresh/auth_manager.go makes: an invariant of the list of calls that each
-- part keeps, given each call that the part may make keeps it.
use mtlogin.Prelude.{ℕ, String, List, ◌∷◌, arith, inl, inr}
use mtlogin.Errors.{Result-cases, Act}
use mtlogin.Domain.{AuthState, LoginRequest}
use mtlogin.Store.Contract.{Store}
use mtlogin.Context.{Ctx}
use mtlogin.Refresh.Contracts.{LoginClient}
use mtlogin.Refresh.Calls
use mtlogin.Refresh.Calls.{Call, Sys}
use mtlogin.Refresh.Auth.{
  AuthConfig, login_request, resolve, resolve_stored, resolve_kept, drop_foreign, bind_account,
  ensure_visitor_id, ensure_login, handle_auth_expired, login_again, reset, save_state,
  save_account, login_and_save,
}

-- An invariant of the calls made so far that each call of the authentication manager keeps.
pub record IdentityCalls (Inv : List Call → Type 0) (ctx : Ctx) : Type 0 where
  pub load_state : (cs : List Call) → Inv cs → Inv (Calls.load_state ∷ cs)
  pub load_account : (cs : List Call) → Inv cs → Inv (Calls.load_account ∷ cs)
  pub reset : (cs : List Call) → Inv cs → Inv (Calls.reset ∷ cs)
  pub generate : (cs : List Call) → Inv cs → Inv (Calls.generate ∷ cs)
  pub save_state :
      (a : AuthState) (e : ℕ) (cs : List Call) → Inv cs → Inv (Calls.save_state a e ∷ cs)
  pub save_account :
      (a : String) (e : ℕ) (cs : List Call) → Inv cs → Inv (Calls.save_account a e ∷ cs)
  pub login : (r : LoginRequest) (cs : List Call) → Inv cs → Inv (Calls.login ctx r ∷ cs)

module _ {W : Type 0} (cfg : AuthConfig) (St : Store W) (L : LoginClient W St.view)
    (Inv : List Call → Type 0) (ctx : Ctx) (I : IdentityCalls Inv ctx) where
  abbrev Keeps : {A : Type 0} → Act (Sys W) A → Type 0
  Keeps m = (y : Sys W) → Inv y.calls → Inv (m y).1.calls

  save_state-Keeps : (s : AuthState) (e : ℕ) → Keeps (save_state cfg St L s e)
  unfolding save_state
  save_state-Keeps s e y h = ground (arith, I.save_state s e y.calls)

  save_account-Keeps : (a : String) (e : ℕ) → Keeps (save_account cfg St L a e)
  unfolding save_account
  save_account-Keeps a e y h = ground (arith, I.save_account a e y.calls)

  reset-Keeps : Keeps (reset cfg St L)
  unfolding reset
  reset-Keeps y h = ground (arith, I.reset y.calls)

  login_and_save-Keeps : (v : String) (e : ℕ) → Keeps (login_and_save cfg St L ctx v e)
  unfolding login_and_save
  login_and_save-Keeps v e y h =
      let r = login_request cfg St L v in
      let (logged, w) = L.login ctx r y.world in
      let y1 : Sys W = record { world = w; calls = Calls.login ctx r ∷ y.calls } in
      elim (Result-cases logged) [
        | inl (s, q) ↦ ground (arith, I.login r y.calls, save_state-Keeps s e y1)
        | inr (x, q) ↦ ground (arith, I.login r y.calls)
      ]

  drop_foreign-Keeps : (a : String) (s : AuthState) (e : ℕ) → Keeps (drop_foreign cfg St L a s e)
  unfolding drop_foreign
  drop_foreign-Keeps a s e y h = ground (arith, reset-Keeps y)

  bind_account-Keeps : (a : String) (e : ℕ) → Keeps (bind_account cfg St L a e)
  unfolding bind_account
  bind_account-Keeps a e y h = ground (arith, save_account-Keeps cfg.password_auth.username e y)

  ensure_visitor_id-Keeps : (s : AuthState) (e : ℕ) → Keeps (ensure_visitor_id cfg St L s e)
  unfolding ensure_visitor_id
  ensure_visitor_id-Keeps s e y h =
      let (v, w) = L.generate_visitor_id y.world in
      ground (
        arith,
        I.generate y.calls,
        save_state-Keeps (record s { visitor_id = v }) e
            (record { world = w; calls = Calls.generate ∷ y.calls }),
      )

  ensure_login-Keeps : (s : AuthState) (e : ℕ) → Keeps (ensure_login cfg St L ctx s e)
  unfolding ensure_login
  ensure_login-Keeps s e y h = ground (arith, login_and_save-Keeps s.visitor_id e y)

  resolve_kept-Keeps :
      (a : String) (s : AuthState) (e : ℕ) → Keeps (resolve_kept cfg St L ctx a (s, e))
  unfolding resolve_kept
  resolve_kept-Keeps a s e y h =
      let y1 = (bind_account cfg St L a e y).1 in
      let (visited, y2) = ensure_visitor_id cfg St L s e y1 in
      elim (Result-cases visited) [
        | inl (t, q) ↦ ground (
          arith,
          bind_account-Keeps a e y,
          ensure_visitor_id-Keeps s e y1,
          ensure_login-Keeps t e y2,
        )
        | inr (x, q) ↦ ground (arith, bind_account-Keeps a e y, ensure_visitor_id-Keeps s e y1)
      ]

  resolve_stored-Keeps : Keeps (resolve_stored cfg St L ctx)
  unfolding resolve_stored
  resolve_stored-Keeps y h =
      let (l, w1) = St.load_auth_state y.world in
      let (a, w2) = St.load_auth_account w1 in
      let y2 : Sys W = record {
        world = w2;
        calls = Calls.load_account ∷ Calls.load_state ∷ y.calls;
      } in
      elim (Result-cases l) [
        | inr (x, q) ↦ ground (arith, I.load_state y.calls)
        | inl (x, q) ↦ elim (Result-cases a) [
          | inr (b, q') ↦
              ground (arith, I.load_state y.calls, I.load_account (Calls.load_state ∷ y.calls))
          | inl (b, q') ↦
              let (dropped, y3) = drop_foreign cfg St L b x.state x.epoch y2 in
              let kept = drop_foreign-Keeps b x.state x.epoch y2 in
              elim (Result-cases dropped) [
                | inr (d, q'') ↦
                    ground (
                      arith,
                      I.load_state y.calls,
                      I.load_account (Calls.load_state ∷ y.calls),
                      kept,
                    )
                | inl (d, q'') ↦ ground (
                  arith,
                  I.load_state y.calls,
                  I.load_account (Calls.load_state ∷ y.calls),
                  kept,
                  resolve_kept-Keeps b d.0 d.1 y3,
                )
              ]
        ]
      ]

  pub resolve-Keeps : Keeps (resolve cfg St L ctx)
  unfolding resolve
  resolve-Keeps y h = ground (arith, resolve_stored-Keeps y)

  login_again-Keeps : (e : ℕ) → Keeps (login_again cfg St L ctx e)
  unfolding login_again
  login_again-Keeps e y h =
      let (v, w) = L.generate_visitor_id y.world in
      let name = cfg.password_auth.username in
      let blank : AuthState = record { token = ""; did = ""; visitor_id = v } in
      let y1 : Sys W = record { world = w; calls = Calls.generate ∷ y.calls } in
      let y2 = (save_account cfg St L name e y1).1 in
      let y3 = (save_state cfg St L blank e y2).1 in
      ground (
        arith,
        I.generate y.calls,
        save_account-Keeps name e y1,
        save_state-Keeps blank e y2,
        login_and_save-Keeps v e y3,
      )

  pub handle_auth_expired-Keeps : (e : ℕ) → Keeps (handle_auth_expired cfg St L ctx e)
  unfolding handle_auth_expired
  handle_auth_expired-Keeps e y h =
      let (r, y1) = reset cfg St L y in
      elim (Result-cases r) [
        | inl (n, q) ↦ ground (arith, reset-Keeps y, login_again-Keeps n y1)
        | inr (x, q) ↦ ground (arith, reset-Keeps y)
      ]
