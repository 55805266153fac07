-- ===== src/Tests/TlsClientTests.antt =====
-- pkg/apicore/tlsclient.go at concrete inputs: the world counts the jars that were made, and an HTTP
-- client is its configuration.
use mtlogin.Prelude.{
  Exec, ℕ, suc, ◌≤◌, ◌≡◌, String, false, none, List, [], ◌∷◌, pos, arith, str_eq, ℤ, if◌then◌else◌,
}
use mtlogin.Errors.{sentinel, tls_client_closed, ok, err}
use mtlogin.Context.{Ctx, app}
use mtlogin.Http.{Headers, Request, Response, RoundTripper, do_request, status_and_body}
use mtlogin.Transport.{Strings, HeadersConfig}
use mtlogin.Scopes.{auth_round_trip, manager_sender, Gets, SomeJar, NoJar, cookies_apart}
use mtlogin.TlsClient.{
  ClientOption, with_client_profile, with_random_tls_extension_order, with_timeout_milliseconds,
  with_cookie_jar, Library, new_tls_client, Action, acquire_call, request_end, close_call, clear,
  close_return, acquire, advance, steps, round_trip, max_response_bytes,
}
use mtlogin.TlsClient.Closing.{run, close_final}
use mtlogin.TlsClient.Exchange.{round_trip_lem}

abbrev millis : ℤ → ℕ
millis (pos n) = n
millis _ = 0

abbrev pub library : Library ℕ (List (ClientOption ℕ)) ℕ String String
library = record {
  to_lower = λ s. s;
  contains = λ s t. str_eq s t;
  equal_fold = λ s t. str_eq s t;
  bytes = λ s. if str_eq s "huge" then 16777217 else 2;
  ceil_milliseconds = millis;
  ctx_err = λ c w. (none, w);
  new_http_client = λ os w. (ok os, w);
  new_cookie_jar = λ w. (w, suc w);
  new_request = λ c method url body. ok url;
  set_header = λ key value f. f;
  send_request = λ h f w. (ok (record { status_code = 200; header = []; body = f }), w);
  read_at_most = λ n b w. (ok b, w);
  close_body = λ b w. w;
  close_idle = λ h w. w;
}

abbrev request : String → String → Request
request url user_agent = record {
  server = "mteam";
  url = url;
  method = "GET";
  headers = [];
  body = "";
  body_bytes = "";
  timeout = pos 5;
  proxy = "";
  disable_redirect = false;
  user_agent = user_agent;
  cookie_scope = "mteam";
}

abbrev firefox : Request
firefox = request "/a" "firefox/"

abbrev chrome : Request
chrome = request "/b" "chrome/"

-- The two requests use different HTTP clients.
abbrev client : String → List (ClientOption ℕ)
client profile =
    with_client_profile profile
    ∷ with_random_tls_extension_order
    ∷ with_timeout_milliseconds 5
    ∷ with_cookie_jar 7
    ∷ []

-- A request, a Close that waits for it, and what comes after it.
abbrev closed : List Action
closed = acquire_call firefox ∷ close_call ∷ clear ∷ request_end ∷ clear ∷ close_return ∷ []

abbrev later : List Action
later = acquire_call chrome ∷ close_call ∷ close_return ∷ []

close_final_example :
    let y = steps library later (run library closed 0) in
    (y.0.inflight ≡ 0)
    × (y.0.clients ≡ [])
    × ((req : Request)
        → acquire library req y.0 y.1 ≡ ((err (sentinel tls_client_closed), y.0), y.1))
unfolding steps advance acquire
close_final_example = close_final library closed later 0 (omega arith)

-- A response that is too large.
round_trip_lem_example :
    let (r, (q, v)) = round_trip library app (request "huge" "edg/") (new_tls_client, 0) in
    (q.inflight ≡ 0)
    × ((resp : Response) → r ≡ ok resp → library.bytes resp.body ≤ max_response_bytes)
round_trip_lem_example = round_trip_lem library app (request "huge" "edg/") new_tls_client 0

abbrev strings : Strings
strings = record { equal_fold = λ s t. str_eq s t; contains = λ s t. str_eq s t }

abbrev headers : HeadersConfig
headers = record { referer = "r"; user_agent = "chrome/"; version = "1"; web_version = "2" }

-- The world counts the requests.
abbrev counted : RoundTripper ℕ
counted ctx req v = ((none, none), suc v)

abbrev clock : Exec ℕ ℕ
clock v = (5, v)

cookies_apart_example :
    ((ctx : Ctx) (req : Request) (v : ℕ)
      → (out : Request) × (u : ℕ) × (auth_round_trip strings clock headers counted ctx req v
          ≡ counted ctx out u)
        × Gets library (λ c. c) out (SomeJar library (λ c. c)))
    × ((ctx : Ctx) (server url body : String) (hs : Headers) (v : ℕ)
        → (out : Request) × ((manager_sender (λ c w. (none, w)) clock clock counted).post_json ctx
              server url body hs v
            ≡ (
              status_and_body counted ctx (do_request counted ctx out v).0,
              (do_request counted ctx out v).1,
            ))
          × Gets library (λ c. c) out (NoJar library (λ c. c)))
    × ((ctx : Ctx) (server url : String) (hs : Headers) (v : ℕ)
        → (out : Request) × ((manager_sender (λ c w. (none, w)) clock clock counted).get_json ctx
              server url hs v
            ≡ (
              status_and_body counted ctx (do_request counted ctx out v).0,
              (do_request counted ctx out v).1,
            ))
          × Gets library (λ c. c) out (NoJar library (λ c. c)))
cookies_apart_example =
    cookies_apart library (λ c. c) (λ c w h e. ground (arith, e)) strings (λ c w. (none, w)) clock
      clock headers counted
