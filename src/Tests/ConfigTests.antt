-- ===== src/Tests/ConfigTests.antt =====
-- The configuration at concrete inputs.
use mtlogin.Prelude.{ℕ, ◌<>◌, ◌≡◌, ◌⊎◌, refl, true, false, Option, none, some, [], ◌∷◌, pos}
use mtlogin.Errors.{GoError, ok, text, wrapped, sentinel, conf_parse}
use mtlogin.Domain.{Float64, auth_empty}
use mtlogin.Domain.Codes.{code_of}
use mtlogin.Protocol.{decoded, undecoded}
use mtlogin.Context.{app}
use mtlogin.Refresh.Calls.{start}
use mtlogin.Refresh.Auth.{resolve}
use mtlogin.Config.{
  Library, AppConfig, MteamConfig, RefreshConfig, AuthClientConfig, build_mteam_configs,
  validate_auth, validate_browse, auth_config, browse_config, refresh_auth_config, load_app,
  load_toml_with_meta, map_config_error,
}
use mtlogin.Config.Outcome.{accepted_resolves, load_code, load_error_codes}
use mtlogin.Tests.Memory
use mtlogin.Tests.Memory.{login_client, blank}
use mtlogin.App.{Packages, new, execute, closed, store, transport, manager, scheduler, runtime}
use mtlogin.App.Release.{
  begin, assembled, Assembled, Released, new-Assembled, execute-Released, execute_order,
}
use mtlogin.Tests.Scripts.{good}

-- A process whose packages do their work, but where the scheduler is refused or not.
abbrev packages : Option GoError → Packages ℕ
packages e = record {
  load_notify_config = λ w. (none, w);
  open_default = λ w. (ok tt, w);
  new_tls_client = λ w. (ok tt, w);
  new_auth_client = λ c w. (none, w);
  new_browse_client = λ c w. (none, w);
  new_scheduler = λ c w. (e, w);
  close = λ p w. (none, w);
  run_once = λ w. (none, w);
  start = λ w. (none, w);
}

abbrev minute : Float64
minute = record { bits = 60 }

-- A loader that reads every file and parses none.
abbrev pub go : Library
go = record {
  lt = λ a b. false;
  le = λ a b. false;
  nought = record { bits = 0 };
  seconds_duration = λ s. pos s.bits;
  parse_crontab = λ c. none;
  read_file = λ p. decoded "=";
  decode_toml = λ s. undecoded "bad TOML";
  error_text = λ e. "error";
  join = λ l sep. sep;
}

abbrev token_file : MteamConfig
token_file = record {
  proxy = "";
  api_host = "api.example";
  referer = "";
  timeout = minute;
  password_auth = record { username = ""; password = ""; totp_secret = "" };
  token_auth = record { auth = "token"; did = "did"; visitor_id = "v" };
  header = record { version = ""; web_version = ""; user_agent = "" };
}

abbrev refresh : RefreshConfig
refresh = record { timeout = minute; retry_on_auth_failure = false }

abbrev login_config : AuthClientConfig
login_config = auth_config go token_file

accepted_resolves_example :
    let cfg = refresh_auth_config login_config refresh in
    resolve cfg Memory.store (login_client good) app (start blank)
    ≡ (ok (record { state = cfg.token_auth; epoch = 0; token_mode = true }), start blank)
unfolding build_mteam_configs validate_auth validate_browse auth_empty
accepted_resolves_example =
    accepted_resolves go Memory.store (login_client good) app (start blank) token_file login_config
      (browse_config go token_file) refresh refl refl

abbrev unparsed : GoError
unparsed = wrapped (": parse " <> "conf/app.toml" <> ": " <> "bad TOML") (sentinel conf_parse)

load_error_codes_example : code_of (some (map_config_error unparsed)) ≡ load_code go "conf/app.toml"
unfolding load_app load_toml_with_meta
load_error_codes_example = load_error_codes go "conf/app.toml" unparsed refl

abbrev pub token_app : AppConfig
token_app = record {
  system_proxy = "";
  app = record { crontab = "@daily"; min_delay = minute; max_delay = minute };
  refresh = refresh;
  mt = token_file;
}

-- A loader that finds this configuration.
abbrev loader : Library
loader = record go { decode_toml = λ s. decoded (token_app, []) }

abbrev refused_crontab : Option GoError
refused_crontab = some (text "refused")

new-Assembled_example : Assembled (new loader (packages refused_crontab) (begin 0))
new-Assembled_example = new-Assembled loader (packages refused_crontab) 0

execute-Released_example : Released (execute loader (packages none) true (begin 0)).1.events
execute-Released_example = execute-Released loader (packages none) true 0

execute_order_example :
    let z = execute loader (packages none) true (begin 0) in
    (z.0 ≡ 1)
    ⊎ (z.0 ≡ 0)
      × (z.1.events
          ≡ closed store
            ∷ closed transport
            ∷ closed manager
            ∷ closed scheduler
            ∷ closed runtime
            ∷ assembled)
execute_order_example = execute_order loader (packages none) true 0
