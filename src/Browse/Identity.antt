-- ===== src/Browse/Identity.antt =====
-- What a browsing session of pkg/apikit/apimtbrowse does to its identity while internal/refresh checks
-- an account with it.
use mtlogin.Prelude.{
  ℕ, ◌<◌, String, ◌≡◌, ◌≢◌, [], ◌∷◌, arith, length, length-append, Exec, inl, inr, Bool-cases, ◌==◌,
  is_empty, false,
}
use mtlogin.Domain.{AuthState}
use mtlogin.Context.{Ctx}
use mtlogin.Transport.{Strings, Sessions, snapshot, update_did}
use mtlogin.Transport.Outcome.{nth_state-set_self, nth_state-set_ne, nth_state-last, length-set}
use mtlogin.Protocol.{Library}
use mtlogin.Store.Contract.{StoreView}
use mtlogin.Refresh.Contracts.{Client}
use mtlogin.Refresh.Calls.{Sys}
use mtlogin.Refresh.Checks.{run_checks}
use mtlogin.Browse.{Encoders, Server, ClientConfig, new_session, warmup_endpoints}
use mtlogin.Browse.Keeps.{Closed, warm_up-keeps, profile-keeps, update_last_browse-keeps}
use mtlogin.Browse.Client.{ForumDecoders, Undisturbed, browse_client, adapted_browse_forum-keeps}

-- Session i exists and has the token and the visitor id of this identity, and a DID if that has one.
abbrev pub Holds : {W : Type 0} → ℕ → AuthState → Sessions W → Type 0
Holds i a y =
    (i < length y.states)
    × ((snapshot i y).token ≡ a.token)
    × ((snapshot i y).visitor_id ≡ a.visitor_id)
    × (is_empty a.did ≡ false → is_empty (snapshot i y).did ≡ false)

did-Holds :
    {W : Type 0} (i : ℕ) (a : AuthState) (j : ℕ) (d : String) (y : Sessions W)
    → Holds i a y
    → Holds i a (update_did j d y)
did-Holds i a j d y h =
    let next : AuthState = record (snapshot j y) { did = d } in
    let long = length-set j next y.states in
    elim (Bool-cases (j == i)) [
      | inl e ↦
          let same : j ≡ i = ground arith in
          ground (arith, same, long, nth_state-set_self j next y.states (ground (arith, same, h)))
      | inr e ↦
          let other : j ≢ i = ground arith in
          ground (arith, long, nth_state-set_ne j i next y.states other)
    ]

module _ {W S : Type 0} {view : W → StoreView} (C : Client W view S) (ctx : Ctx) (s : S)
    (P : W → Type 0) where
  pub record MethodsKeep : Type 0 where
    pub warmup : (w : W) → P w → P (C.warmup s ctx w).1
    pub profile : (w : W) → P w → P (C.profile s ctx w).1
    pub browse_forum : (w : W) → P w → P (C.browse_forum s ctx w).1
    pub update : (w : W) → P w → P (C.update_last_browse s ctx w).1

  pub run_checks-keeps : MethodsKeep → (y : Sys W) → P y.world → P (run_checks C ctx s y).1.world
  unfolding run_checks
  run_checks-keeps K y h =
      let w1 = (C.warmup s ctx y.world).1 in
      let w2 = (C.profile s ctx w1).1 in
      let w3 = (C.warmup s ctx w2).1 in
      let w4 = (C.update_last_browse s ctx w3).1 in
      let h1 = K.warmup y.world h in
      let h2 = K.profile w1 h1 in
      let h3 = K.warmup w2 h2 in
      let h4 = K.update w3 h3 in ground (arith, h1, h2, h3, h4, K.browse_forum w4 h4)

module _ {W : Type 0} (G : Library) (T : Strings) (N : Encoders) (D : ForumDecoders) (E : Server W)
    (intn : ℕ → Exec W ℕ) (cfg : ClientConfig) (v : W → StoreView)
    (U : Undisturbed G T N D E intn cfg v) where
  abbrev pub the_client : Client (Sessions W) (λ y. v y.world) ℕ
  the_client = browse_client G T N D E intn cfg v U

  module _ (i : ℕ) (a : AuthState) where
    Holds-Closed : Closed G T N E cfg (Holds i a)
    Holds-Closed = record {
      ctx_err = λ c y h. h;
      unix_milli = λ y h. h;
      unix = λ y h. h;
      multipart = λ ps y h. h;
      round_trip = λ c r y h. h;
      did = did-Holds i a;
    }

    pub Holds-Methods : (ctx : Ctx) → MethodsKeep the_client ctx i (Holds i a)
    Holds-Methods ctx = record {
      warmup = λ y h. warm_up-keeps G T N E cfg (Holds i a) Holds-Closed i ctx warmup_endpoints y h;
      profile = λ y h. profile-keeps G T N E cfg (Holds i a) Holds-Closed i ctx y h;
      browse_forum = λ y h.
          adapted_browse_forum-keeps G T N D E intn cfg (Holds i a) Holds-Closed
            (record { drawn = λ n z k. k }) i ctx y h;
      update = λ y h. update_last_browse-keeps G T N E cfg (Holds i a) Holds-Closed i ctx y h;
    }

  pub new_session-Holds :
      (a : AuthState) (y : Sessions W) → let (i, z) = new_session G T N E cfg a y in Holds i a z
  new_session-Holds a y = ground (arith, nth_state-last a y.states, length-append y.states (a ∷ []))

  -- Whatever the server answers, the session that checks an account ends with the token and the
  -- visitor id that it was opened with, and with a DID if it had one: only the DID may change.
  pub checks_identity :
      (ctx : Ctx) (a : AuthState) (y : Sys (Sessions W))
      → let (i, z) = the_client.new_session a y.world in
        let after = run_checks the_client ctx i (record y { world = z }) in
        let last = (the_client.snapshot i after.1.world).0 in
        (last.token ≡ a.token)
        × (last.visitor_id ≡ a.visitor_id)
        × (is_empty a.did ≡ false → is_empty last.did ≡ false)
  checks_identity ctx a y =
      let (i, z) = the_client.new_session a y.world in
      let kept =
        run_checks-keeps the_client ctx i (Holds i a) (Holds-Methods i a ctx)
          (record y { world = z }) (new_session-Holds a y.world) in
      (kept.1, kept.2, kept.3)
