-- ===== src/TlsClient.antt =====
-- pkg/apicore/tlsclient.go: the client that keeps one HTTP client for each kind of request and one
-- cookie jar for each scope. Requests and calls of Close from many goroutines are steps on its state.
pub mod Closing
pub mod Options
pub mod Fits
pub mod Jars
pub mod Exchange
use mtlogin.Prelude.{
  ℕ, suc, ◌-◌, String, Bool, true, false, ◌&&◌, ◌||◌, not, Option, none, some, List, [], ◌∷◌, ◌++◌,
  Exec, ℤ, is_pos, is_empty, str_eq, ◌==◌, ltb, ◌+◌, if◌then◌else◌,
}
use mtlogin.Errors.{GoError, sentinel, text, tls_client_closed, Result, ok, err}
use mtlogin.Context.{Ctx}
use mtlogin.Http.{Headers, Request, Response, Reply, request_body}

-- clientKey
pub record ClientKey : Type 0 where
  pub profile : String
  pub proxy : String
  pub timeout_millis : ℕ
  pub disable_redirect : Bool
  pub cookie_scope : String

abbrev pub key_eq : ClientKey → ClientKey → Bool
key_eq a b =
    str_eq a.profile b.profile
    && (str_eq a.proxy b.proxy
        && (a.timeout_millis == b.timeout_millis
            && ((if a.disable_redirect then b.disable_redirect else not b.disable_redirect)
                && str_eq a.cookie_scope b.cookie_scope)))

-- clientConfig, with a profile as its name
pub record ClientConfig (J : Type 0) : Type 0 where
  pub profile_name : String
  pub proxy : String
  pub timeout : ℤ
  pub disable_redirect : Bool
  pub jar : Option J

-- tlsclient.HttpClientOption
pub data ClientOption (J : Type 0) : Type 0 where
  with_client_profile with_proxy_url : String → ClientOption J
  with_random_tls_extension_order with_not_follow_redirects : ClientOption J
  with_timeout_milliseconds : ℕ → ClientOption J
  with_cookie_jar : J → ClientOption J

-- fhttp.Response, with a body of type `B` that is still to be read
pub record HttpResponse (B : Type 0) : Type 0 where
  pub status_code : ℕ
  pub header : List (String × List String)
  pub body : B

-- The libraries: `strings.ToLower`, `strings.Contains`, `strings.EqualFold`, the number of bytes,
-- `int(math.Ceil(float64(a) / float64(time.Millisecond)))`; the clients, jars, requests and bodies
-- of tls-client and fhttp, over a world `W`.
pub record Library (W H J F B : Type 0) : Type 0 where
  pub to_lower : String → String
  pub contains : String → String → Bool
  pub equal_fold : String → String → Bool
  pub bytes : String → ℕ
  pub ceil_milliseconds : ℤ → ℕ
  pub ctx_err : Ctx → Exec W (Option GoError)
  pub new_http_client : List (ClientOption J) → Exec W (Result H)
  pub new_cookie_jar : Exec W J
  pub new_request : Ctx → String → String → String → Result F
  pub set_header : String → String → F → F
  pub send_request : H → F → Exec W (Result (HttpResponse B))
  pub read_at_most : ℕ → B → Exec W (Result String)
  pub close_body : B → W → W
  pub close_idle : H → W → W

abbrev pub max_response_bytes : ℕ
max_response_bytes = 16777216

abbrev pub default_user_agent : String
default_user_agent =
    "Mozilla/5.0 (Windows NT 10.0; Win64; x64) AppleWebKit/537.36 (KHTML, like Gecko) Chrome/146.0.0.0 Safari/537.36"

-- TLSClient: `inflight` counts the requests, `closing` says that the call of Close that set `closed`
-- has not ended, `done` that closeDone is closed, and `returned` counts the calls of Close that
-- have returned.
pub record Pool (H J : Type 0) : Type 0 where
  pub clients : List (ClientKey × H)
  pub jars : List (String × J)
  pub closed : Bool
  pub closing : Bool
  pub done : Bool
  pub inflight : ℕ
  pub returned : ℕ

-- newTLSClient
abbrev pub new_tls_client : {H J : Type 0} → Pool H J
new_tls_client = record {
  clients = [];
  jars = [];
  closed = false;
  closing = false;
  done = false;
  inflight = 0;
  returned = 0;
}

abbrev pub client_of : {H : Type 0} → ClientKey → List (ClientKey × H) → Option H
client_of key [] = none
client_of key ((k, h) ∷ cs) = if key_eq k key then some h else client_of key cs

abbrev pub jar_of : {J : Type 0} → String → List (String × J) → Option J
jar_of scope [] = none
jar_of scope ((s, j) ∷ js) = if str_eq s scope then some j else jar_of scope js

-- headersToMap
abbrev pub headers_to_map : List (String × List String) → Headers
headers_to_map [] = []
headers_to_map ((key, []) ∷ hs) = headers_to_map hs
headers_to_map ((key, v ∷ vs) ∷ hs) = (key, v) ∷ headers_to_map hs

pub data Action : Type 0 where
  -- a request that comes to acquire, one that ends, and the parts of Close: setting the flag, the
  -- clearing after the wait, and the return
  acquire_call : Request → Action
  request_end close_call clear close_return : Action

module _ {W H J F B : Type 0} (L : Library W H J F B) where
  abbrev first_user_agent : Headers → String
  first_user_agent [] = default_user_agent
  first_user_agent ((key, value) ∷ hs) =
      if L.equal_fold key "User-Agent" && not (is_empty value) then value else first_user_agent hs

  -- effectiveUserAgent
  abbrev pub effective_user_agent : Request → String
  effective_user_agent req =
      if is_empty req.user_agent then first_user_agent req.headers else req.user_agent

  -- profileForUserAgent, the name
  unfoldable pub profile_for_user_agent : String → String
  profile_for_user_agent user_agent =
      let normalized = L.to_lower user_agent in
      if L.contains normalized "firefox/"
      then "firefox_148"
      else if L.contains normalized "safari/"
          && (not (L.contains normalized "chrome/") && not (L.contains normalized "chromium/"))
      then "safari_16_0"
      else if L.contains normalized "chrome/"
          || (L.contains normalized "chromium/" || L.contains normalized "edg/")
      then "chrome_146"
      else "default"

  -- timeoutMilliseconds
  abbrev pub timeout_milliseconds : ℤ → ℕ
  timeout_milliseconds timeout = if is_pos timeout then L.ceil_milliseconds timeout else 0

  abbrev redirect_option : Bool → List (ClientOption J)
  redirect_option true = with_not_follow_redirects ∷ []
  redirect_option false = []

  abbrev jar_option : Option J → List (ClientOption J)
  jar_option none = []
  jar_option (some jar) = with_cookie_jar jar ∷ []

  -- the options of defaultNewClient
  unfoldable pub client_options : ClientConfig J → List (ClientOption J)
  client_options cfg =
      with_client_profile cfg.profile_name
      ∷ with_random_tls_extension_order
      ∷ (redirect_option cfg.disable_redirect
          ++ ((if is_pos cfg.timeout
                then with_timeout_milliseconds (timeout_milliseconds cfg.timeout) ∷ []
                else [])
              ++ ((if is_empty cfg.proxy then [] else with_proxy_url cfg.proxy ∷ [])
                  ++ jar_option cfg.jar)))

  -- defaultNewClient
  abbrev pub new_client : ClientConfig J → Exec W (Result H)
  new_client cfg = L.new_http_client (client_options cfg)

  abbrev pub key_of : Request → ClientKey
  key_of req = record {
    profile = profile_for_user_agent (effective_user_agent req);
    proxy = req.proxy;
    timeout_millis = timeout_milliseconds req.timeout;
    disable_redirect = req.disable_redirect;
    cookie_scope = req.cookie_scope;
  }

  -- the jar of a scope, which is made where there is none
  abbrev pub jar_for : String → List (String × J) → Exec W (Option J × List (String × J))
  jar_for scope jars w = if is_empty scope then ((none, jars), w) else elim (jar_of scope jars) [
    | some j ↦ ((some j, jars), w)
    | none ↦ let (j, w) = L.new_cookie_jar w in ((some j, (scope, j) ∷ jars), w)
  ]

  abbrev pub config_for : Request → Option J → ClientConfig J
  config_for req jar = record {
    profile_name = profile_for_user_agent (effective_user_agent req);
    proxy = req.proxy;
    timeout = req.timeout;
    disable_redirect = req.disable_redirect;
    jar = jar;
  }

  -- acquire, which holds the lock all the time
  unfoldable pub acquire : Request → Pool H J → Exec W (Result H × Pool H J)
  acquire req p w =
      if p.closed
      then ((err (sentinel tls_client_closed), p), w)
      else elim (client_of (key_of req) p.clients) [
        | some h ↦ ((ok h, record p { inflight = suc p.inflight }), w)
        | none ↦
            let ((jar, jars), w) = jar_for req.cookie_scope p.jars w in
            let p = record p { jars = jars } in
            let (r, w) = new_client (config_for req jar) w in
            (
              elim r [
                | err e ↦ (err e, p)
                | ok h ↦ (
                  ok h,
                  record p { clients = (key_of req, h) ∷ p.clients; inflight = suc p.inflight },
                )
              ],
              w,
            )
      ]

  abbrev close_clients : List (ClientKey × H) → W → W
  close_clients [] w = w
  close_clients ((key, h) ∷ cs) w = close_clients cs (L.close_idle h w)

  -- One step of a goroutine; what cannot happen in a state leaves it as it is.
  unfoldable pub advance : Action → Pool H J × W → Pool H J × W
  advance (acquire_call req) (p, w) = let ((r, p), w) = acquire req p w in (p, w)
  advance request_end (p, w) = (record p { inflight = p.inflight - 1 }, w)
  advance close_call (p, w) =
      (if p.closed then p else record p { closed = true; closing = true }, w)
  advance clear (p, w) =
      if p.closing && p.inflight == 0
      then (
        record p { clients = []; jars = []; closing = false; done = true },
        close_clients p.clients w,
      )
      else (p, w)
  advance close_return (p, w) = (if p.done then record p { returned = suc p.returned } else p, w)

  unfoldable pub steps : List Action → Pool H J × W → Pool H J × W
  steps [] y = y
  steps (a ∷ as_) y = steps as_ (advance a y)

  abbrev set_headers : Headers → F → F
  set_headers [] f = f
  set_headers ((key, value) ∷ hs) f = set_headers hs (L.set_header key value f)

  -- buildRequest
  abbrev pub build_request : Ctx → Request → String → Result F
  build_request ctx req user_agent =
      elim (L.new_request ctx req.method req.url (request_body req)) [
        | err e ↦ err e
        | ok f ↦ ok (L.set_header "User-Agent" user_agent (set_headers req.headers f))
      ]

  -- RoundTrip from client.Do on
  abbrev pub exchange : H → F → Exec W (Result Response)
  exchange h f w =
      let (r, w) = L.send_request h f w in
      elim r [
        | err e ↦ (err e, w)
        | ok resp ↦
            let (b, w) = L.read_at_most (suc max_response_bytes) resp.body w in
            let w = L.close_body resp.body w in
            elim b [
              | err e ↦ (err e, w)
              | ok body ↦ (
                if ltb max_response_bytes (L.bytes body)
                    then err (text "response body exceeds 16777216 bytes limit")
                    else ok (record {
                      status = resp.status_code;
                      body = body;
                      headers = headers_to_map resp.header;
                    }),
                w,
              )
            ]
      ]

  -- RoundTrip of a caller that is not interleaved with others
  unfoldable pub round_trip : Ctx → Request → Exec (Pool H J × W) (Result Response)
  round_trip ctx req (p, w) =
      let (e, w) = L.ctx_err ctx w in
      elim e [
        | some q ↦ (err q, (p, w))
        | none ↦
            let ((r, p), w) = acquire req p w in
            elim r [
              | err q ↦ (err q, (p, w))
              | ok h ↦ elim (build_request ctx req (effective_user_agent req)) [
                | err q ↦ (err q, advance request_end (p, w))
                | ok f ↦ let (r, w) = exchange h f w in (r, advance request_end (p, w))
              ]
            ]
      ]
