-- ===== src/Tests/ServerTests.antt =====
-- What the server answers, the login and the forum, at concrete inputs.
use mtlogin.Prelude.{
  true, is_some, ℕ, zero, suc, String, ◌≡◌, refl, false, none, some, [], ◌∷◌, pos, is_empty,
}
use mtlogin.Errors.{
  GoError, text, wrapped, sentinel, proto_auth_failed, ok, browse_auth_failed, is_sentinel,
}
use mtlogin.Domain.{AuthState, LoginRequest}
use mtlogin.Domain.Codes.{mt_auth_failed, is_code}
use mtlogin.Context.{app}
use mtlogin.Http.{Response}
use mtlogin.Protocol.{
  Library, decoded, parse_response, validate_http_response, unmarshal_json, map_auth_error,
  translate_auth, map_browse_error, translate_browse,
}
use mtlogin.Protocol.Outcome.{refuses, refusal_codes}
use mtlogin.Forum.Phases.{Requests, ForumsData}
use mtlogin.Prelude.{negsuc}
use mtlogin.Protocol.{ApiResponse}
use mtlogin.Forum.{Forums, Session, browse_forum}
use mtlogin.Forum.Outcome.{Told, browse_forum-Told}
use mtlogin.Login.{
  Config, Encoding, Net, Wire, login, login_fuel, random_chars, send, conclude, generate_at,
}
use mtlogin.Login.Outcome.{Posts, coded, uncoded, login_complete, login_requests}

-- A library that takes the whole text of a body for its code.
abbrev go : Library
go = record {
  decode_raw = λ s. decoded (record { code = s; message = ""; data_json = "" });
  decode_string = λ s. decoded s;
  decode_number = λ s. decoded s;
  error_text = λ e. "error";
  trim_prefix = λ s p. s;
}

abbrev answer : String → Response
answer body = record { status = 200; body = body; headers = ("Authorization", "token") ∷ [] }

abbrev refusal : GoError
refusal = wrapped ": code=401" (sentinel proto_auth_failed)

refusal_codes_example :
    (is_code mt_auth_failed (map_auth_error (translate_auth go refusal))
      ≡ refuses go (answer "401"))
    × (is_code mt_auth_failed (map_browse_error (translate_browse go refusal))
        ≡ refuses go (answer "401"))
unfolding parse_response validate_http_response unmarshal_json
refusal_codes_example = refusal_codes go (answer "401") refusal refl

-- A forum in which the second update goes through and the topic then fails by a refusal.
abbrev forum : Session ℕ
forum = record {
  phase_visit_forums = λ c w. (ok (record { fids = pos 3 ∷ []; author_ids = pos 1 ∷ [] }), w);
  phase_resolve_members = λ c ids w. (some (text "no members"), w);
  phase_search_topics =
      λ c fid w. (ok (record { tids = pos 5 ∷ []; author_ids = []; last_post_author_ids = [] }), w);
  phase_view_topic = λ c tid w. (some (sentinel browse_auth_failed), w);
  warmup = λ c w. (none, w);
  update_last_browse = λ c w. (none, suc w);
  intn = λ n w. (0, w);
}

browse_forum-Told_example : Told (browse_forum forum app (record { world = 0; updated = false }))
browse_forum-Told_example = browse_forum-Told forum app 0

abbrev pub strings : Encoding
strings = record {
  trim_space = λ s. s;
  to_upper = λ s. s;
  trim_right = λ s cut. s;
  decode_base32 = λ s. decoded [];
  hmac_sha1 = λ k m. 1 ∷ 2 ∷ 3 ∷ 4 ∷ 0 ∷ [];
  hmac_sha1_base64 = λ m k. "signed";
  encode_values = λ vs. "body";
}

-- A server that asks the first request for a code and accepts the second.
abbrev net : Net ℕ
net = record {
  ctx_err = λ c w. (none, w);
  unix_milli = λ w. (1000, w);
  unix = λ w. (1, w);
  rand_int = λ n w. (ok 0, w);
  round_trip = λ c r n. elim n [
    | zero ↦ ((some (answer "1001"), none), 1)
    | suc k ↦ ((some (answer "0"), none), 2)
  ];
}

abbrev config : Config
config = record { api_host = "api.example"; timeout = pos 60; proxy_url = none }

abbrev request : LoginRequest
request = record { username = "alice"; password = "secret"; totp_secret = "ABCD"; visitor_id = "v" }

abbrev unsent : Wire ℕ
unsent = record { world = 0; sent = [] }

login_requests_example :
    Posts strings net go config app request 1 1 unsent
      (login strings net go config app request unsent).1
    × ((n : ℕ)
        → Posts strings net go config app request 1 1 unsent
            (login_fuel strings net go config app request n false unsent).1)
    × ((n : ℕ)
        → let r = login_fuel strings net go config app request (suc (suc n)) false unsent in
          (r ≡ login_fuel strings net go config app request 2 false unsent) × (is_some r.0 ≡ true))
login_requests_example = login_requests strings net go config app request unsent

abbrev logged_in : AuthState
logged_in = record { token = "token"; did = "11111111111111111111111111111111"; visitor_id = "v" }

-- Against this server a login sends both requests.
login_sent :
    let t = (login strings net go config app request unsent).1.sent in
    (uncoded t ≡ 1) × (coded t ≡ 1)
unfolding login login_fuel send conclude random_chars generate_at parse_response
    validate_http_response unmarshal_json is_sentinel
login_sent = (refl, refl)

login_complete_example :
    ("v" ≡ request.visitor_id)
    × (is_empty request.visitor_id ≡ false)
    × (is_empty (strings.trim_space logged_in.token) ≡ false)
    × (is_empty logged_in.did ≡ false)
unfolding login send conclude random_chars generate_at parse_response validate_http_response
    unmarshal_json is_sentinel
login_complete_example = login_complete strings net go config app request unsent logged_in refl

abbrev posts : ForumsData
posts = record { forums_list = pos 3 ∷ pos 0 ∷ []; last_post = pos 1 ∷ negsuc 0 ∷ pos 1 ∷ [] }

abbrev response : ApiResponse
response = record { code = "0"; message = ""; data_json = "{}" }

abbrev requests : Requests ℕ
requests = record {
  post = λ c path fields w. (ok response, w);
  post_json = λ c path body w. (ok response, w);
  decode_forums = λ s. decoded posts;
  decode_members = λ s. decoded 1;
  decode_topics = λ s. decoded [];
  format_int = λ i. "1";
}

abbrev listed : Forums
listed = record { fids = pos 3 ∷ []; author_ids = pos 1 ∷ [] }
