-- ===== src/Logging.antt =====
-- pkg/apicore/tripper_logging.go and logging.go: the tripper that logs each exchange, with
-- ToHTTPHeader of headers.go. A request is one object, which the trippers inside write to; the tripper
-- reads it after they have returned.

pub mod Exchange
pub mod Secrecy
use mtlogin.Prelude.{
  ℕ, ◌+◌, ◌-◌, ◌*◌, ◌/◌, String, ◌<>◌, Bool, true, false, Option, none, some, List, [], ◌∷◌, ◌++◌,
  Exec, is_empty, str_eq, if◌then◌else◌,
}
use mtlogin.Errors.{GoError}
use mtlogin.Context.{Ctx, server_from_context}
use mtlogin.Log.{
  Values, Texts, Entry, mask_secret, add_field, entry_text, sanitize_headers, sanitize_text,
  sanitize_url, sanitize_body,
}
use mtlogin.Http.{
  Headers, Request, Response, Reply, RoundTripper, Tripper, request_body, header_value,
  first_header_value,
}

-- LogEvent
pub record LogEvent : Type 0 where
  pub server : String
  pub method : String
  pub url : String
  pub status : ℕ
  pub headers : Headers
  pub response_headers : Headers
  pub input : String
  pub output : String
  pub cost : ℕ
  pub err : Option GoError

-- The map that is the value of the field of the exchange.
pub record HttpField : Type 0 where
  pub server : String
  pub path : String
  pub method : String
  pub status : ℕ
  pub request_header : Values
  pub response_header : Values
  pub input : String
  pub output : String
  pub millisecond : ℕ
  pub duration : ℕ
  pub error : String

-- What pkg/log/sanitize.go takes from the standard library, `strings.EqualFold`, `strings.Title`,
-- `http.CanonicalHeaderKey`, the text of an error, the JSON of a map, and LogID of a context, which is
-- empty for one that is not of pkg/log.
pub record Library : Type 0 where
  pub texts : Texts
  pub equal_fold : String → String → Bool
  pub title : String → String
  pub canonical : String → String
  pub error_text : GoError → String
  pub encode : HttpField → String
  pub log_id : Ctx → String

-- header[key] = values
abbrev pub set_values : String → List String → Values → Values
set_values key vs [] = (key, vs) ∷ []
set_values key vs ((k, us) ∷ rest) =
    if str_eq k key then (k, vs) ∷ rest else (k, us) ∷ set_values key vs rest

-- if server == "" { server = other }
abbrev pub server_or : String → String → String
server_or server other = if is_empty server then other else server

abbrev pub status_of : Option Response → ℕ
status_of none = 0
status_of (some resp) = resp.status

abbrev pub headers_of : Option Response → Headers
headers_of none = []
headers_of (some resp) = resp.headers

abbrev pub output_of : Option Response → String
output_of none = ""
output_of (some resp) = resp.body

-- The world below the tripper, the request object of the exchange, and the lines of the HTTP log.
pub record Logged (W : Type 0) : Type 0 where
  pub world : W
  pub request : Request
  pub lines : List String

-- A round tripper that keeps no log: the object is as the trippers before it have left it.
abbrev pub unlogged : {W : Type 0} → RoundTripper W → RoundTripper (Logged W)
unlogged base ctx req s =
    let (reply, w) = base ctx req s.world in (reply, record s { world = w; request = req })

abbrev pub below : {W A : Type 0} → Exec W A → Exec (Logged W) A
below m s = let (a, w) = m s.world in (a, record s { world = w })

module _ (L : Library) where
  -- the loop of ToHTTPHeader
  abbrev pub set_headers : Headers → Values → Values
  set_headers [] out = out
  set_headers ((k, v) ∷ hs) out = set_headers hs (set_values (L.canonical k) (v ∷ []) out)

  -- ToHTTPHeader
  abbrev pub to_http_header : Headers → Values
  to_http_header hs = set_headers hs []

  -- errorString
  abbrev pub error_string : Option GoError → String
  error_string none = ""
  error_string (some e) = sanitize_text L.texts (L.error_text e)

  -- the event of an exchange that took cost nanoseconds
  abbrev pub log_event : Ctx → Request → Reply → ℕ → LogEvent
  log_event ctx req (resp, e) cost = record {
    server = server_or (server_or req.server (server_from_context ctx)) "unknown";
    method = req.method;
    url = req.url;
    status = status_of resp;
    headers = req.headers;
    response_headers = headers_of resp;
    input = request_body req;
    output = output_of resp;
    cost = cost;
    err = e;
  }

  abbrev pub http_field : LogEvent → HttpField
  http_field e = record {
    server = e.server;
    path = sanitize_url L.texts e.url;
    method = e.method;
    status = e.status;
    request_header = sanitize_headers L.texts (to_http_header e.headers);
    response_header = sanitize_headers L.texts (to_http_header e.response_headers);
    input = sanitize_body L.texts (header_value L.equal_fold e.headers "Content-Type") e.input;
    output =
        sanitize_body L.texts (header_value L.equal_fold e.response_headers "Content-Type")
          e.output;
    millisecond = e.cost / 1000000;
    duration = e.cost;
    error = error_string e.err;
  }

  abbrev pub with_log_id : String → Entry → Entry
  with_log_id id entry = if is_empty id then entry else add_field "logid" id entry

  -- the message of an event
  unfoldable pub http_entry : Ctx → LogEvent → Entry
  http_entry ctx e = add_field ("HTTP_" <> L.title e.server) (L.encode (http_field e)) (
      add_field "visitor_id"
        (mask_secret (first_header_value L.equal_fold e.headers ("Visitor-ID" ∷ "visitorid" ∷ [])))
        (add_field "did" (mask_secret (header_value L.equal_fold e.headers "Did"))
          (with_log_id (L.log_id ctx) (record { kv = []; msg = "" }))))

  -- Logging, for a clock in nanoseconds that never goes back
  unfoldable pub logging : {W : Type 0} → Exec W ℕ → Tripper (Logged W)
  logging now next ctx req s =
      let (start, s) = below now s in
      let (reply, s) = next ctx req (record s { request = req }) in
      let (stop, s) = below now s in
      let line = entry_text (http_entry ctx (log_event ctx s.request reply (stop - start))) in
      (reply, record s { lines = s.lines ++ line ∷ [] })
