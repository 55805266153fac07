-- ===== src/Http.antt =====
-- pkg/apicore: requests and responses (types.go), their headers (headers.go), the chain of round
-- trippers, the tripper that sets the proxy (tripper_proxy.go), and the client (client.go).
pub mod Laws
use mtlogin.Prelude.{
  ℕ, String, Bool, true, false, not, Option, none, some, List, [], ◌∷◌, Exec, ℤ, pos, is_empty,
  str_eq, if◌then◌else◌,
}
use mtlogin.Errors.{GoError, text, Result, ok, err}
use mtlogin.Context.{Ctx, proxy_from_context}

-- A `map[string]string` that has each key once, in the order in which Go ranges over it.
abbrev pub Headers : Type 0
Headers = List (String × String)

-- headers[key], which is empty where the key is missing
abbrev pub lookup : String → Headers → String
lookup key [] = ""
lookup key ((k, v) ∷ hs) = if str_eq k key then v else lookup key hs

-- headers[key] = value
abbrev pub set : String → String → Headers → Headers
set key v [] = (key, v) ∷ []
set key v ((k, u) ∷ hs) = if str_eq k key then (k, v) ∷ hs else (k, u) ∷ set key v hs

pub record Request : Type 0 where
  pub server : String
  pub url : String
  pub method : String
  pub headers : Headers
  pub body : String
  pub body_bytes : String
  pub timeout : ℤ
  pub proxy : String
  pub disable_redirect : Bool
  pub user_agent : String
  pub cookie_scope : String

pub record Response : Type 0 where
  pub status : ℕ
  pub body : String
  pub headers : Headers

-- The response and the error of a round trip; either may be nil.
abbrev pub Reply : Type 0
Reply = Option Response × Option GoError

abbrev pub RoundTripper : Type 0 → Type 0
RoundTripper W = Ctx → Request → Exec W Reply

abbrev pub Tripper : Type 0 → Type 0
Tripper W = RoundTripper W → RoundTripper W

-- Chain: the first tripper is the outermost.
abbrev pub chain : {W : Type 0} → RoundTripper W → List (Tripper W) → RoundTripper W
chain base [] = base
chain base (t ∷ ts) = t (chain base ts)

-- Proxy
abbrev pub proxy : {W : Type 0} → Tripper W
proxy next ctx req =
    next ctx (if is_empty req.proxy then record req { proxy = proxy_from_context ctx } else req)

-- RequestBody
abbrev pub request_body : Request → String
request_body req = if is_empty req.body_bytes then req.body else req.body_bytes

-- HeaderValue, for `strings.EqualFold`
abbrev pub header_value : (String → String → Bool) → Headers → String → String
header_value fold [] key = ""
header_value fold ((k, v) ∷ hs) key = if fold k key then v else header_value fold hs key

-- FirstHeaderValue
abbrev pub first_header_value : (String → String → Bool) → Headers → List String → String
first_header_value fold hs [] = ""
first_header_value fold hs (key ∷ keys) =
    if is_empty (header_value fold hs key)
    then first_header_value fold hs keys
    else header_value fold hs key

module _ {W : Type 0} (rt : RoundTripper W) (ctx : Ctx) where
  -- Client.Do
  unfoldable pub do_request : Request → Exec W (Result Response)
  do_request req w =
      let (reply, w) = rt ctx req w in
      (
        elim reply.1 [
          | some e ↦ err e
          | none ↦ elim reply.0 [
            | none ↦ err (text "apicore response is nil")
            | some resp ↦ ok resp
          ]
        ],
        w,
      )

  -- what `Client.do` keeps of the response: the status and the body
  abbrev pub status_and_body : Result Response → Result (ℕ × String)
  status_and_body (err e) = err e
  status_and_body (ok resp) = ok (resp.status, resp.body)

  abbrev pub json_request : String → String → String → Headers → String → Request
  json_request server url method headers body = record {
    server = server;
    url = url;
    method = method;
    headers = headers;
    body = body;
    body_bytes = body;
    timeout = pos 0;
    proxy = "";
    disable_redirect = false;
    user_agent = "";
    cookie_scope = "";
  }

  -- Client.GetJSON
  unfoldable pub get_json : String → String → Headers → Exec W (Result (ℕ × String))
  get_json server url headers w =
      let (r, w) =
        do_request (json_request server url "GET" (set "Accept" "application/json" headers) "") w in
      (status_and_body r, w)

  -- Client.PostJSON
  unfoldable pub post_json : String → String → String → Headers → Exec W (Result (ℕ × String))
  post_json server url body headers w =
      let (r, w) =
        do_request
          (json_request server url "POST" (set "Content-Type" "application/json" headers) body) w in
      (status_and_body r, w)
