-- ===== src/Tests/BrowseTests.antt =====
-- pkg/apikit/apimtbrowse at concrete inputs.
use mtlogin.Prelude.{ℕ, suc, ◌≡◌, refl, false, is_empty, none, some, [], ◌∷◌, Exec, pos, str_eq}
use mtlogin.Domain.{AuthState, no_auth}
use mtlogin.Context.{app}
use mtlogin.Http.{Request}
use mtlogin.Protocol.{Library, decoded}
use mtlogin.Store.Contract.{StoreView}
use mtlogin.Refresh.Calls.{start}
use mtlogin.Refresh.Checks.{run_checks}
use mtlogin.Transport.{Strings, Sessions, snapshot, take_did, did_of}
use mtlogin.Browse.{Encoders, Server, ClientConfig, base_round_trip, transmit, session_request}
use mtlogin.Browse.Sent.{Carries, request_identity}
use mtlogin.Browse.Client.{ForumDecoders, Undisturbed}
use mtlogin.Browse.Identity.{the_client, checks_identity}

abbrev pub go : Library
go = record {
  decode_raw = λ s. decoded (record { code = "0"; message = ""; data_json = "" });
  decode_string = λ s. decoded s;
  decode_number = λ s. decoded "0";
  error_text = λ e. "error";
  trim_prefix = λ s p. s;
}

abbrev pub strings : Strings
strings = record { equal_fold = str_eq; contains = str_eq }

abbrev pub encoders : Encoders
encoders = record {
  marshal = λ vs. decoded "{}";
  decode_profile = λ s. decoded (record {
    username = "alice";
    last_login = "";
    last_browse = "";
    bonus = record { bits = 0 };
    uploaded = pos 0;
    downloaded = pos 0;
  });
  no_profile = record {
    username = "";
    last_login = "";
    last_browse = "";
    bonus = record { bits = 0 };
    uploaded = pos 0;
    downloaded = pos 0;
  };
  hmac_sha1_base64 = λ m k. "signed";
  encode_values = λ vs. "query";
  url_text = λ host path query. path;
}

-- A server that counts the requests and gives a new DID each time.
abbrev server : Server ℕ
server = record {
  ctx_err = λ c w. (none, w);
  unix_milli = λ w. (1000, w);
  unix = λ w. (1, w);
  multipart_body = λ ps w. (("body", "multipart/form-data"), w);
  round_trip = λ c r w. (
    (some (record { status = 200; body = "{}"; headers = ("Did", "rotated") ∷ [] }), none),
    suc w,
  );
}

abbrev pub decoders : ForumDecoders
decoders = record {
  decode_forums = λ s. decoded (record { forums_list = pos 3 ∷ []; last_post = [] });
  decode_members = λ s. decoded 0;
  decode_topics = λ s. decoded [];
  format_int = λ n. "3";
}

abbrev intn : ℕ → Exec ℕ ℕ
intn n w = (0, w)

abbrev config : ClientConfig
config = record {
  api_host = "api.example";
  headers = record {
    referer = "https://example";
    user_agent = "test";
    version = "1";
    web_version = "1";
  };
  timeout = pos 60;
  proxy_url = none;
}

abbrev nothing_stored : ℕ → StoreView
nothing_stored w = record { auth = no_auth; account = ""; epoch = 0 }

undisturbed : Undisturbed go strings encoders decoders server intn config nothing_stored
undisturbed = record {
  ctx_err_keeps = λ c w. refl;
  unix_milli_keeps = λ w. refl;
  unix_keeps = λ w. refl;
  multipart_keeps = λ ps w. refl;
  round_trip_keeps = λ c r w. refl;
  intn_keeps = λ n w. refl;
}

abbrev alice : AuthState
alice = record { token = "token"; did = "did"; visitor_id = "v" }

abbrev sessions : Sessions ℕ
sessions = record { world = 0; states = alice ∷ [] }

abbrev clock_request : Request
clock_request = record (session_request go strings encoders server config) {
  url = "/api/system/unix";
  method = "GET";
}

request_identity_example :
    (out : Request) × (z : Sessions ℕ) × (let r =
        base_round_trip go strings encoders server config app out z in
      transmit go strings encoders server config 0 app clock_request sessions
      ≡ (r.0, take_did strings 0 (did_of strings r.0.0) r.1))
    × (z.states ≡ sessions.states)
    × Carries strings (snapshot 0 sessions) out
request_identity_example =
    request_identity go strings encoders server config 0 app clock_request sessions

checks_identity_example :
    let C = the_client go strings encoders decoders server intn config nothing_stored undisturbed in
    let (i, z) = C.new_session alice sessions in
    let after = run_checks C app i (record (start sessions) { world = z }) in
    let last = (C.snapshot i after.1.world).0 in
    (last.token ≡ alice.token)
    × (last.visitor_id ≡ alice.visitor_id)
    × (is_empty alice.did ≡ false → is_empty last.did ≡ false)
checks_identity_example =
    checks_identity go strings encoders decoders server intn config nothing_stored undisturbed app
      alice (start sessions)
