-- ===== src/Browse/Keeps.antt =====
-- A predicate that the calls below a session of pkg/apikit/apimtbrowse keep is kept by all its methods.
use mtlogin.Prelude.{ℕ, String, List, [], ◌∷◌, arith, inl, inr, Option-cases}
use mtlogin.Errors.{Result-cases}
use mtlogin.Context.{Ctx}
use mtlogin.Http.{Request}
use mtlogin.Transport.{
  Strings, Sessions, update_did, identity_headers, unix_no_auth, common_headers,
}
use mtlogin.Protocol.{Library}
use mtlogin.Forum.Phases.{Value}
use mtlogin.Browse.{
  Encoders, Server, ClientConfig, WarmupEndpoint, base_round_trip, on_world, transmit, do_form,
  do_json, common_params, warm_up, profile, update_last_browse, fill_request,
}

module _ {W : Type 0} (G : Library) (T : Strings) (N : Encoders) (E : Server W)
    (cfg : ClientConfig) where
  pub record Closed (P : Sessions W → Type 0) : Type 0 where
    pub ctx_err : (c : Ctx) (y : Sessions W) → P y → P (on_world G T N E cfg (E.ctx_err c) y).1
    pub unix_milli : (y : Sessions W) → P y → P (on_world G T N E cfg E.unix_milli y).1
    pub unix : (y : Sessions W) → P y → P (on_world G T N E cfg E.unix y).1
    pub multipart :
        (ps : List (String × String)) (y : Sessions W)
        → P y
        → P (on_world G T N E cfg (E.multipart_body ps) y).1
    pub round_trip :
        (c : Ctx) (r : Request) (y : Sessions W) → P y → P (base_round_trip G T N E cfg c r y).1
    pub did : (i : ℕ) (d : String) (y : Sessions W) → P y → P (update_did i d y)

  module _ (P : Sessions W → Type 0) (K : Closed P) (i : ℕ) (ctx : Ctx) where
    pub transmit-keeps :
        (req : Request) (y : Sessions W) → P y → P (transmit G T N E cfg i ctx req y).1
    unfolding identity_headers unix_no_auth common_headers
    transmit-keeps req y h = grind (arith, K.unix, K.round_trip, K.did)

    fill_request-keeps :
        (method path : String) (params : List (String × String)) (y : Sessions W)
        → P y
        → P (fill_request G T N E cfg method path params y).1
    fill_request-keeps method path params y h = ground (arith, K.multipart params y h)

    pub do_form-keeps :
        (method path : String) (extra : List (String × String)) (y : Sessions W)
        → P y
        → P (do_form G T N E cfg i ctx method path extra y).1
    unfolding do_form
    do_form-keeps method path extra y h =
        let (e, y1) = on_world G T N E cfg (E.ctx_err ctx) y in
        let (t, y2) = on_world G T N E cfg E.unix_milli y1 in
        let params = common_params G T N E cfg method path extra t in
        let (req, y3) = fill_request G T N E cfg method path params y2 in
        let live = K.ctx_err ctx y h in
        let filled = fill_request-keeps method path params y2 (K.unix_milli y1 live) in
        elim (Option-cases e) [
          | inr (q, eq) ↦ ground (arith, live)
          | inl eq ↦ ground (arith, transmit-keeps req y3 filled)
        ]

    pub do_json-keeps :
        (method path : String) (body : List (String × Value)) (y : Sessions W)
        → P y
        → P (do_json G T N E cfg i ctx method path body y).1
    unfolding do_json
    do_json-keeps method path body y h = grind (arith, K.ctx_err, K.unix_milli, transmit-keeps)

    pub warm_up-keeps :
        (ps : List WarmupEndpoint) (y : Sessions W) → P y → P (warm_up G T N E cfg i ctx ps y).1
    unfolding warm_up
    warm_up-keeps [] y h = h
    warm_up-keeps (p ∷ ps) y h =
        let (e, y1) = on_world G T N E cfg (E.ctx_err ctx) y in
        let (r, y2) = do_form G T N E cfg i ctx p.method p.path p.ext_map y1 in
        let live = K.ctx_err ctx y h in
        let asked = do_form-keeps p.method p.path p.ext_map y1 live in
        elim (Option-cases e) [
          | inr (q, eq) ↦ ground (arith, live)
          | inl eq ↦ elim (Result-cases r) [
            | inr (q, eq') ↦ ground (arith, asked)
            | inl (a, eq') ↦ ground (arith, warm_up-keeps ps y2 asked)
          ]
        ]

    pub profile-keeps : (y : Sessions W) → P y → P (profile G T N E cfg i ctx y).1
    unfolding profile
    profile-keeps y h = do_form-keeps "POST" "/api/member/profile" [] y h

    pub update_last_browse-keeps :
        (y : Sessions W) → P y → P (update_last_browse G T N E cfg i ctx y).1
    unfolding update_last_browse
    update_last_browse-keeps y h = do_form-keeps "POST" "/api/member/updateLastBrowse" [] y h
