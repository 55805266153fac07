-- ===== src/Browse.antt =====
-- pkg/apikit/apimtbrowse: the requests of a session (session.go, body.go, response.go, client.go), its
-- warm-up (system.go), its profile (profile.go) and the update of the last visit (member.go).
pub mod Sent
pub mod Keeps
pub mod Client
pub mod Identity
use mtlogin.Prelude.{
  ℕ, String, ◌<>◌, Bool, true, false, Option, none, some, List, [], ◌∷◌, ◌++◌, map, Exec, ℤ,
  is_empty, length, str_eq, if◌then◌else◌,
}
use mtlogin.Errors.{
  GoError, sentinel, wrapped, browse_business, browse_request_build, Result, ok, err,
}
use mtlogin.Domain.{AuthState, Profile, Float64}
use mtlogin.Context.{Ctx}
use mtlogin.Decimal.{decimal}
use mtlogin.Http.{Headers, Request, Response, Reply, RoundTripper, chain, set, proxy}
use mtlogin.Transport.{
  Strings, Sessions, snapshot, HeadersConfig, identity_headers, unix_no_auth, cookie_scoped,
  common_headers,
}
use mtlogin.Protocol.{
  Library, ApiResponse, Decoded, decoded, undecoded, parse_response, validate_http_response,
  translate_browse,
}
use mtlogin.Forum.Phases.{Value, string}

-- Config, its proxy parsed.
pub record ClientConfig : Type 0 where
  pub api_host : String
  pub headers : HeadersConfig
  pub timeout : ℤ
  pub proxy_url : Option String

-- The profile data of /api/member/profile; what the server leaves out is empty or 0.
pub record ProfileData : Type 0 where
  pub username : String
  pub last_login : String
  pub last_browse : String
  pub bonus : Float64
  pub uploaded : ℤ
  pub downloaded : ℤ

-- The standard library: JSON, the HMAC, `url.Values.Encode` and the text of a `url.URL`.
pub record Encoders : Type 0 where
  pub marshal : List (String × Value) → Decoded String
  pub decode_profile : String → Decoded ProfileData
  pub no_profile : ProfileData
  pub hmac_sha1_base64 : String → String → String
  pub encode_values : List (String × String) → String
  pub url_text : String → String → String → String

-- The context, the clocks, the writer of multipart bodies, which draws a boundary and returns the
-- body with its content type, and the transport below the client.
pub record Server (W : Type 0) : Type 0 where
  pub ctx_err : Ctx → Exec W (Option GoError)
  pub unix_milli : Exec W ℕ
  pub unix : Exec W ℕ
  pub multipart_body : List (String × String) → Exec W (String × String)
  pub round_trip : RoundTripper W

-- params[k] = v for each entry of extra
abbrev pub set_all : List (String × String) → Headers → Headers
set_all [] ps = ps
set_all ((k, v) ∷ es) ps = set_all es (set k v ps)

abbrev pub set_value : String → Value → List (String × Value) → List (String × Value)
set_value key v [] = (key, v) ∷ []
set_value key v ((k, u) ∷ ps) = if str_eq k key then (k, v) ∷ ps else (k, u) ∷ set_value key v ps

abbrev pub set_values : List (String × String) → List (String × Value) → List (String × Value)
set_values [] body = body
set_values ((k, v) ∷ ps) body = set_values ps (set_value k (string v) body)

pub record WarmupEndpoint : Type 0 where
  pub method : String
  pub path : String
  pub ext_map : List (String × String)

abbrev pub get : String → WarmupEndpoint
get path = record { method = "GET"; path = path; ext_map = [] }

abbrev pub post : String → WarmupEndpoint
post path = record { method = "POST"; path = path; ext_map = [] }

abbrev pub warmup_endpoints : List WarmupEndpoint
warmup_endpoints =
    get "/api/system/unix"
    ∷ get "/ping"
    ∷ post "/api/laboratory/funcState"
    ∷ post "/api/fun/first"
    ∷ post "/api/system/state"
    ∷ post "/api/links/view"
    ∷ post "/api/msg/statistic"
    ∷ post "/api/member/profile"
    ∷ post "/api/tracker/myPeerStatus"
    ∷ post "/api/system/sysConf"
    ∷ post "/api/news/list"
    ∷ post "/api/torrent/teamList"
    ∷ post "/api/system/promotion/rules"
    ∷ record {
      method = "POST";
      path = "/api/system/getConf";
      ext_map = ("items", "LeechWarn") ∷ [];
    }
    ∷ post "/api/examine/getMyActiveList"
    ∷ []

module _ {W : Type 0} (G : Library) (T : Strings) (N : Encoders) (E : Server W)
    (cfg : ClientConfig) where
  abbrev pub on_world : {A : Type 0} → Exec W A → Exec (Sessions W) A
  on_world m y = let (a, w) = m y.world in (a, record y { world = w })

  abbrev pub base_round_trip : RoundTripper (Sessions W)
  base_round_trip ctx req = on_world (E.round_trip ctx req)

  -- the round tripper of NewClient; its logging changes nothing
  abbrev pub client_round_trip : RoundTripper (Sessions W)
  client_round_trip =
      chain base_round_trip
        (proxy ∷ cookie_scoped ∷ common_headers (on_world E.unix) cfg.headers ∷ unix_no_auth T ∷ [])

  abbrev pub proxy_text : Option String → String
  proxy_text none = ""
  proxy_text (some p) = p

  -- buildRequest of a session, on the baseRequest of the client
  abbrev pub session_request : Request
  session_request = record {
    server = "mteam";
    url = "";
    method = "";
    headers = ("origin", cfg.headers.referer) ∷ [];
    body = "";
    body_bytes = "";
    timeout = cfg.timeout;
    proxy = proxy_text cfg.proxy_url;
    disable_redirect = true;
    user_agent = "";
    cookie_scope = "";
  }

  -- buildCommonParams at a time in milliseconds
  abbrev pub common_params : String → String → List (String × String) → ℕ → List (String × String)
  common_params method path extra t = set_all extra (
      ("_timestamp", decimal t)
      ∷ ("_sgin", N.hmac_sha1_base64 (method <> "&" <> path <> "&" <> decimal t) "HLkPcWmycL57mfJt")
      ∷ [])

  -- parseResponse
  abbrev pub read_reply : Reply → Result ApiResponse
  read_reply reply = elim (parse_response G reply.0 reply.1) [
    | err e ↦ err (translate_browse G e)
    | ok r ↦ ok r
  ]

  abbrev pub no_data : ApiResponse
  no_data = record { code = ""; message = ""; data_json = "" }

  abbrev pub read_ping : Reply → Result ApiResponse
  read_ping reply = elim (validate_http_response G reply.0 reply.1) [
    | some e ↦ err (translate_browse G e)
    | none ↦ ok no_data
  ]

  -- Chain(s.client.rt, IdentityHeaders(s.state)).RoundTrip
  abbrev pub transmit : ℕ → Ctx → Request → Exec (Sessions W) Reply
  transmit i = chain client_round_trip (identity_headers T i ∷ [])

  -- the request of `do`, with its body or its query
  abbrev pub fill_request : String → String → List (String × String) → Exec (Sessions W) Request
  fill_request method path params y =
      if str_eq method "POST"
      then (let (part, y) = on_world (E.multipart_body params) y in
          (
            record session_request {
              body = part.0;
              headers = set "Content-Type" part.1 session_request.headers;
              url = N.url_text cfg.api_host path "";
              method = method;
            },
            y,
          ))
      else (
        record session_request {
          url = N.url_text cfg.api_host path (N.encode_values params);
          method = method;
        },
        y,
      )

  -- do
  unfoldable pub do_form :
      ℕ → Ctx → String → String → List (String × String) → Exec (Sessions W) (Result ApiResponse)
  do_form i ctx method path extra y =
      let (e, y) = on_world (E.ctx_err ctx) y in
      elim e [
        | some q ↦ (err q, y)
        | none ↦
            let (t, y) = on_world E.unix_milli y in
            let (req, y) = fill_request method path (common_params method path extra t) y in
            let (reply, y) = transmit i ctx req y in
            ((if str_eq path "/ping" then read_ping reply else read_reply reply), y)
      ]

  -- doJSON
  unfoldable pub do_json :
      ℕ → Ctx → String → String → List (String × Value) → Exec (Sessions W) (Result ApiResponse)
  do_json i ctx method path body y =
      let (e, y) = on_world (E.ctx_err ctx) y in
      elim e [
        | some q ↦ (err q, y)
        | none ↦
            let (t, y) = on_world E.unix_milli y in
            elim (N.marshal (set_values (common_params method path [] t) body)) [
              | undecoded q ↦
                  (err (wrapped (": json marshal: " <> q) (sentinel browse_request_build)), y)
              | decoded json ↦
                  let (reply, y) =
                    transmit i ctx
                      (record session_request {
                        body = json;
                        body_bytes = json;
                        headers =
                            set "Content-Type" "application/json; charset=UTF-8"
                              session_request.headers;
                        url = N.url_text cfg.api_host path "";
                        method = method;
                      })
                      y in
                  (read_reply reply, y)
            ]
      ]

  -- Client.NewSession
  abbrev pub new_session : AuthState → Exec (Sessions W) ℕ
  new_session a y = (length y.states, record y { states = y.states ++ (a ∷ []) })

  -- the loop of `Warmup`
  unfoldable pub warm_up : ℕ → Ctx → List WarmupEndpoint → Exec (Sessions W) (Option GoError)
  warm_up i ctx [] y = (none, y)
  warm_up i ctx (p ∷ ps) y =
      let (e, y) = on_world (E.ctx_err ctx) y in
      elim e [
        | some q ↦ (some q, y)
        | none ↦
            let (r, y) = do_form i ctx p.method p.path p.ext_map y in
            elim r [ err q ↦ (some q, y) | ok resp ↦ warm_up i ctx ps y ]
      ]

  -- Warmup
  abbrev pub warmup : ℕ → Ctx → Exec (Sessions W) (Option GoError)
  warmup i ctx = warm_up i ctx warmup_endpoints

  abbrev pub profile_of : ProfileData → Profile
  profile_of d = record {
    username = d.username;
    uploaded_bytes = d.uploaded;
    downloaded_bytes = d.downloaded;
    bonus = d.bonus;
    last_login = d.last_login;
    last_browse = d.last_browse;
  }

  abbrev pub read_profile : ApiResponse → Result Profile
  read_profile resp =
      if is_empty resp.data_json
      then ok (profile_of N.no_profile)
      else elim (N.decode_profile resp.data_json) [
        | undecoded e ↦ err (wrapped (": profile data decode: " <> e) (sentinel browse_business))
        | decoded d ↦ ok (profile_of d)
      ]

  -- Profile
  unfoldable pub profile : ℕ → Ctx → Exec (Sessions W) (Result Profile)
  profile i ctx y =
      let (r, y) = do_form i ctx "POST" "/api/member/profile" [] y in
      (elim r [ err e ↦ err e | ok resp ↦ read_profile resp ], y)

  -- UpdateLastBrowse
  unfoldable pub update_last_browse : ℕ → Ctx → Exec (Sessions W) (Option GoError)
  update_last_browse i ctx y =
      let (r, y) = do_form i ctx "POST" "/api/member/updateLastBrowse" [] y in
      (elim r [ err e ↦ some e | ok resp ↦ none ], y)
