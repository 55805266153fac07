-- ===== src/Tests/AssemblyTests.antt =====
-- The assembled program at a concrete configuration.
use mtlogin.Prelude.{List, ℕ, ◌≡◌, refl, true, false, none, some, [], pos}
use mtlogin.Errors.{ok}
use mtlogin.Domain.{auth_empty, auth_complete}
use mtlogin.Config.{AuthClientConfig, BrowseConfig, refresh_auth_config}
use mtlogin.Context.{app}
use mtlogin.TlsClient.{ClientOption, new_tls_client}
use mtlogin.Refresh.Calls.{start}
use mtlogin.Refresh.Service.{run}
use mtlogin.Notify.Channels as Channels
use mtlogin.Notify.Channels.{Common}
use mtlogin.Notify.Manager.{NotifyConfig}
use mtlogin.Tests.Memory
use mtlogin.Tests.Memory.{Disk, format, blank}
use mtlogin.Tests.BrowseTests
use mtlogin.Tests.ConfigTests
use mtlogin.Tests.NotifyTests
use mtlogin.Tests.ServerTests
use mtlogin.Tests.TlsClientTests.{library}
use mtlogin.App.Assembly.{Net, Machine, Outside, Libraries, assemble}
use mtlogin.App.Success.{built, assemble_lem}

abbrev pub channels : Channels.Library
channels = record {
  is_negative = λ x. false;
  hmac_sha256_base64 = λ m k. "signed";
  base64 = λ s. s;
  encode_values = λ vs. "query";
  contains = λ s t. false;
  marshal = λ j. ok "{}";
  decode_verdict = λ s. ok (record { code = pos 0; message = "" });
  decode_token = λ s. ok "token";
  integer_text = λ n. "1";
  texts = NotifyTests.texts;
}

abbrev libraries : Libraries
libraries = record {
  config = ConfigTests.go;
  protocol = BrowseTests.go;
  strings = BrowseTests.strings;
  encoders = BrowseTests.encoders;
  forum = BrowseTests.decoders;
  login = ServerTests.strings;
  channels = channels;
  format = format;
  parse_url = λ s. ok s;
  log_id = λ c. "log";
}

-- The world counts what was asked of it.
abbrev clocks : Outside ℕ
clocks = record {
  unix = λ n. (n, n);
  unix_milli = λ n. (n, n);
  unix_nano = λ n. (n, n);
  rand_int = λ k n. (ok 0, n);
  intn = λ k n. (0, n);
  multipart_body = λ ps n. (("body", "multipart/form-data"), n);
  notify_info = λ s n. n;
}

abbrev auth : AuthClientConfig
auth = record {
  api_host = "api.example";
  referer = "";
  user_agent = "test";
  version = "1";
  web_version = "1";
  proxy = "";
  timeout = pos 60;
  password_auth = record { username = "alice"; password = "secret"; totp_secret = "ABCD" };
  token_auth = record { auth = ""; did = ""; visitor_id = "" };
}

abbrev browse : BrowseConfig
browse = record {
  api_host = "api.example";
  referer = "";
  user_agent = "test";
  version = "1";
  web_version = "1";
  proxy = "http://proxy";
  timeout = pos 60;
}

abbrev disabled : Common
disabled = record { enabled = false; use_system_proxy = false; timeout = record { bits = 0 } }

abbrev pub notify : NotifyConfig
notify = record {
  timeout = record { bits = 0 };
  qqpush = record { common = disabled; qq = ""; token = "" };
  weixin = record {
    common = disabled;
    corp_id = "";
    agent_secret = "";
    agent_id = pos 0;
    user_id = "";
  };
  dingtalk = record { common = disabled; webhook_token = ""; secret = ""; at_mobiles = none };
  telegram = record { common = disabled; bot_token = ""; chat_id = pos 0; proxy = "" };
  feishu = record { common = disabled; webhook_url = ""; secret = "" };
  ntfy = record {
    common = disabled;
    url = "";
    topic = "";
    username = "";
    password = "";
    token = "";
  };
}

abbrev machine : Machine Disk (Net ℕ (List (ClientOption ℕ)) ℕ)
machine = record { disk = blank; net = record { world = (new_tls_client, 0); states = [] } }

assemble_lem_example :
    let V =
      built libraries library clocks Memory.store
        (λ ms w. ms)
        refl
        ConfigTests.token_app
        auth
        browse
        notify
        none
        (some "http://proxy") in
    let tokens = auth_empty (refresh_auth_config auth ConfigTests.token_app.refresh).token_auth in
    let before = Memory.store.view machine.disk in
    let after = Memory.store.view (run V app (start machine)).1.world.disk in
    (tokens ≡ false → after ≡ before)
    × (tokens ≡ true
        → (run V app (start machine)).0 ≡ none
        → (auth_complete after.auth ≡ true) × (after.account ≡ auth.password_auth.username))
unfolding assemble
assemble_lem_example =
    assemble_lem libraries library clocks Memory.store (λ ms w. ms) refl ConfigTests.token_app auth
      browse notify app (start machine)
      (built libraries library clocks Memory.store (λ ms w. ms) refl ConfigTests.token_app auth
        browse notify none (some "http://proxy"))
      refl
