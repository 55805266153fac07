-- ===== src/Tests/LoggingTests.antt =====
-- pkg/apicore/tripper_logging.go at concrete exchanges.
use mtlogin.Prelude.{
  ℕ, suc, ◌+◌, String, ◌<>◌, ◌≡◌, refl, true, none, some, [], ◌∷◌, Exec, pos, str_eq, eq_iff,
  if◌then◌else◌,
}
use mtlogin.Context.{app}
use mtlogin.Errors.{text}
use mtlogin.Log.{Texts, is_sensitive_key}
use mtlogin.Http.{Request, Response, RoundTripper, chain, proxy}
use mtlogin.Transport.{Strings, HeadersConfig}
use mtlogin.Scopes.{auth_round_trip}
use mtlogin.Logging.{Library, Logged, unlogged, logging, http_entry}
use mtlogin.Logging.Exchange.{LoggedOnce, server_round_trip, notify_round_trip, logging_lem}
use mtlogin.Logging.Secrecy.{Spelling, alike_end, alike_header, alike_response, logging-Alike}
use mtlogin.Tests.NotifyTests

abbrev lower : String → String
lower s =
    if str_eq s "Content-Type"
    then "content-type"
    else if str_eq s "Authorization"
    then "authorization"
    else if str_eq s "Did"
    then "did"
    else s

abbrev texts : Texts
texts = record NotifyTests.texts {
  to_lower = lower;
  dashes_and_dots = λ s.
      if str_eq s "content-type"
      then "content_type"
      else if str_eq s "visitor-id"
      then "visitor_id"
      else s;
}

abbrev library : Library
library = record {
  texts = texts;
  equal_fold = λ s t. str_eq (lower s) (lower t);
  title = λ s. s;
  canonical = λ k. k;
  error_text = λ e. "failed";
  encode = λ f. "{}";
  log_id = λ ctx. "log";
}

spelling : Spelling library
spelling = record {
  canonical_lower = λ k. refl;
  content_type = λ k h. (eq_iff (lower k) "content-type").0 h;
  dashes = refl;
  no_password = refl;
  no_secret = refl;
  no_token = refl;
  no_auth = refl;
  authorization = refl;
  did = refl;
  visitorid = refl;
  visitor_id = refl;
}

-- A clock that each reading moves on by a second.
abbrev clock : Exec ℕ ℕ
clock n = (n, n + 1000000000)

abbrev request : String → String → Request
request token did = record {
  server = "mteam";
  url = "/api/member/profile";
  method = "POST";
  headers =
      ("Authorization", token)
      ∷ ("Content-Type", "text/plain")
      ∷ ("Did", did)
      ∷ ("visitorid", "of " <> did)
      ∷ [];
  body = "a=b";
  body_bytes = "";
  timeout = pos 5;
  proxy = "";
  disable_redirect = true;
  user_agent = "test";
  cookie_scope = "";
}

-- A server that gives a new DID.
abbrev answer : String → Response
answer did = record { status = 200; body = "{}"; headers = ("Did", did) ∷ [] }

abbrev server : String → RoundTripper (Logged ℕ)
server did = unlogged (λ ctx req n. ((some (answer did), none), n))

abbrev begun : Logged ℕ
begun = record { world = 0; request = request "" ""; lines = [] }

logging-Alike_example :
    (logging library clock (server "third") app (request "alice" "first") begun).1.lines
    ≡ (logging library clock (server "fourth") app (request "bob" "second") begun).1.lines
unfolding is_sensitive_key
logging-Alike_example =
    logging-Alike library spelling clock app (server "third") (server "fourth")
      (request "alice" "first") (request "bob" "second") begun begun refl refl
      (
        refl,
        refl,
        refl,
        refl,
        alike_header "Authorization" "alice" "bob" _ _ (λ p h. cc, refl)
            (alike_header "Content-Type" "text/plain" "text/plain" _ _ (λ p h. refl, refl)
              (alike_header "Did" "first" "second" _ _ (λ p h. cc, refl)
                (alike_header "visitorid" "of first" "of second" _ _ (λ p h. cc, refl) alike_end))),
      )
      (alike_response (answer "third") (answer "fourth") none refl refl
        (alike_header "Did" "third" "fourth" _ _ (λ p h. cc, refl) alike_end))
      refl

abbrev strings : Strings
strings = record { equal_fold = λ s t. str_eq s t; contains = λ s t. str_eq s t }

abbrev headers : HeadersConfig
headers = record { referer = "r"; user_agent = "chrome/"; version = "1"; web_version = "2" }

-- A server that fails.
abbrev refused : RoundTripper ℕ
refused ctx req n = ((none, some (text "refused")), suc n)

logging_lem_example :
    let quiet = auth_round_trip strings clock headers refused in
    let loud = server_round_trip library clock strings clock headers refused in
    LoggedOnce library clock refused quiet loud app (request "alice" "first") begun
    × LoggedOnce library clock refused
        (chain refused (proxy ∷ []))
        (notify_round_trip library clock refused)
        app
        (request "alice" "first")
        begun
logging_lem_example =
    logging_lem library clock strings clock headers refused app (request "alice" "first") begun

-- The line of an exchange: the DID and the visitor id are only shown to be there.
line_text :
    (logging library clock (server "third") app (request "alice" "first") begun).1.lines
    ≡ "logid[log] did[[REDACTED]] visitor_id[[REDACTED]] HTTP_mteam[{}] " ∷ []
unfolding logging http_entry
line_text = refl
