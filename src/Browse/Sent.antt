-- ===== src/Browse/Sent.antt =====
-- What of a session's request of pkg/apikit/apimtbrowse reaches the transport below the client.
use mtlogin.Prelude.{
  ℕ, String, Exec, true, false, ◌≡◌, arith, str_eq, is_empty, refl, if◌then◌else◌,
}
use mtlogin.Decimal.{decimal}
use mtlogin.Domain.{AuthState}
use mtlogin.Context.{Ctx, proxy_from_context}
use mtlogin.Http.{Headers, lookup, Request}
use mtlogin.Http.Laws.{lookup-set_ne}
use mtlogin.Transport.{
  Strings, Sessions, snapshot, identify, before_ts, after_ts, stamp, take_did, did_of,
  identity_headers, unix_no_auth, common_headers, delete_header,
}
use mtlogin.Transport.Outcome.{
  Own, lookup-before_ts, lookup-after_ts, lookup-identify, spelled, spelled-delete,
  spelled-delete_other,
}
use mtlogin.Protocol.{Library}
use mtlogin.Browse.{Encoders, Server, ClientConfig, base_round_trip, on_world, transmit}

-- The request that carries an identity: to the path of the clock it has none of the headers of a
-- login in any spelling, and to every other path it has the parts that are not empty.
abbrev pub Carries : Strings → AuthState → Request → Type 0
Carries T a out =
    (out.cookie_scope ≡ "mteam")
    × (T.contains out.url "/api/system/unix" ≡ true
        → (spelled T "Authorization" out.headers ≡ false) × (spelled T "Did" out.headers ≡ false))
    × (T.contains out.url "/api/system/unix" ≡ false
        → (is_empty a.token ≡ false → lookup "Authorization" out.headers ≡ a.token)
          × (is_empty a.did ≡ false → lookup "Did" out.headers ≡ a.did)
          × (is_empty a.visitor_id ≡ false → lookup "visitorid" out.headers ≡ a.visitor_id))

-- The headers after the stamp.
abbrev stamped : {W : Type 0} → Exec W ℕ → Headers → W → Headers
stamped unix hs w = (stamp unix hs w).0

lookup-stamped :
    {W : Type 0} (unix : Exec W ℕ) (j : String) (hs : Headers) (w : W)
    → str_eq "Ts" j ≡ false
    → lookup j (stamped unix hs w) ≡ lookup j hs
lookup-stamped unix j hs w h = ground (arith, lookup-set_ne j "Ts" (decimal (unix w).0) hs h)

module _ {W : Type 0} (G : Library) (T : Strings) (N : Encoders) (E : Server W)
    (cfg : ClientConfig) where
  abbrev clock : Exec (Sessions W) ℕ
  clock = on_world G T N E cfg E.unix

  -- the headers before the clock's path is looked at
  abbrev dressed : ℕ → Request → Sessions W → Headers
  dressed i req y =
      after_ts cfg.headers
        (stamped clock (before_ts cfg.headers (identify T (snapshot i y) req.headers)) y)

  abbrev outgoing : ℕ → Ctx → Request → Sessions W → Request
  outgoing i ctx req y = record req {
    proxy = (if is_empty req.proxy then proxy_from_context ctx else req.proxy);
    cookie_scope = "mteam";
    user_agent = (if is_empty req.user_agent then cfg.headers.user_agent else req.user_agent);
    headers =
        (if T.contains req.url "/api/system/unix"
          then delete_header T "Did" (delete_header T "Authorization" (dressed i req y))
          else dressed i req y);
  }

  outgoing-sent :
      (i : ℕ) (ctx : Ctx) (req : Request) (y : Sessions W)
      → let z = (stamp clock (before_ts cfg.headers (identify T (snapshot i y) req.headers)) y).1 in
        let r = base_round_trip G T N E cfg ctx (outgoing i ctx req y) z in
        transmit G T N E cfg i ctx req y ≡ (r.0, take_did T i (did_of T r.0.0) r.1)
  unfolding identity_headers unix_no_auth common_headers
  outgoing-sent i ctx req y = ground arith

  lookup-dressed :
      (i : ℕ) (req : Request) (y : Sessions W) (j : String)
      → Own cfg.headers j
      → lookup j (dressed i req y) ≡ lookup j (identify T (snapshot i y) req.headers)
  lookup-dressed i req y j own =
      let h = identify T (snapshot i y) req.headers in
      let b = before_ts cfg.headers h in
      ground (
        arith,
        lookup-after_ts cfg.headers j (stamped clock b y) own,
        lookup-stamped clock j b y own.2,
        lookup-before_ts cfg.headers j h own,
      )

  outgoing-Carries :
      (i : ℕ) (ctx : Ctx) (req : Request) (y : Sessions W)
      → Carries T (snapshot i y) (outgoing i ctx req y)
  outgoing-Carries i ctx req y =
      let d = dressed i req y in
      let bare = delete_header T "Authorization" d in
      let known = lookup-identify T (snapshot i y) req.headers in
      (
        refl,
        λ u. (
          ground (
            arith,
            spelled-delete T "Authorization" d,
            spelled-delete_other T "Authorization" "Did" bare,
          ),
          ground (arith, spelled-delete T "Did" bare),
        ),
        λ u. (
          λ e. ground (
            arith,
            lookup-dressed i req y "Authorization" (refl, refl, refl, refl, refl),
            known.0 e,
          ),
          λ e.
              ground
                (arith, lookup-dressed i req y "Did" (refl, refl, refl, refl, refl), known.1 e),
          λ e.
              ground (
                arith,
                lookup-dressed i req y "visitorid" (refl, refl, refl, refl, refl),
                known.2 e,
              ),
        ),
      )

  -- A request of a session reaches the transport once, with the states of all sessions as they were,
  -- in the cookie scope "mteam". If its address contains the path of the server's clock, it has no
  -- `Authorization` and no `Did` in any spelling; otherwise it has the token, the DID and the visitor
  -- id of the session, those that are not empty. The reply is the transport's, and a DID in it becomes
  -- the session's.
  pub request_identity :
      (i : ℕ) (ctx : Ctx) (req : Request) (y : Sessions W)
      → (out : Request) × (z : Sessions W) × (let r = base_round_trip G T N E cfg ctx out z in
          transmit G T N E cfg i ctx req y ≡ (r.0, take_did T i (did_of T r.0.0) r.1))
        × (z.states ≡ y.states)
        × Carries T (snapshot i y) out
  request_identity i ctx req y =
      let b = before_ts cfg.headers (identify T (snapshot i y) req.headers) in
      (
        outgoing i ctx req y,
        (stamp clock b y).1,
        outgoing-sent i ctx req y,
        ground arith,
        outgoing-Carries i ctx req y,
      )
