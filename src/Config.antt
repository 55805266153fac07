-- ===== src/Config.antt =====
-- The configuration: pkg/conf (loader.go, app.go), the checks of pkg/apikit/apimtauth/config.go and
-- pkg/apikit/apimtbrowse/config.go, and what internal/app/config.go and app.go make of them.
pub mod Outcome
use mtlogin.Prelude.{
  ℕ, String, ◌<>◌, Bool, true, false, ◌&&◌, ◌||◌, not, Option, none, some, List, [], ◌∷◌, ℤ, is_pos,
  is_empty, str_eq, if◌then◌else◌,
}
use mtlogin.Errors.{
  GoError, sentinel, text, wrapped, is_sentinel, Result, ok, err, conf_read, conf_parse,
  conf_invalid,
}
use mtlogin.Domain.{AuthState, Float64}
use mtlogin.Domain.Codes.{config_read_failed, config_parse_failed, config_invalid, with_cause}
use mtlogin.Protocol.{Decoded, decoded, undecoded}
use mtlogin.Refresh.Auth.{AuthConfig, PasswordAuthConfig}

pub record SchedulerConfig : Type 0 where
  pub crontab : String
  pub min_delay : Float64
  pub max_delay : Float64

pub record RefreshConfig : Type 0 where
  pub timeout : Float64
  pub retry_on_auth_failure : Bool

pub record TokenAuthConfig : Type 0 where
  pub auth : String
  pub did : String
  pub visitor_id : String

pub record HeaderConfig : Type 0 where
  pub version : String
  pub web_version : String
  pub user_agent : String

pub record MteamConfig : Type 0 where
  pub proxy : String
  pub api_host : String
  pub referer : String
  pub timeout : Float64
  pub password_auth : PasswordAuthConfig
  pub token_auth : TokenAuthConfig
  pub header : HeaderConfig

pub record AppConfig : Type 0 where
  pub system_proxy : String
  pub app : SchedulerConfig
  pub refresh : RefreshConfig
  pub mt : MteamConfig

-- Config of apimtauth
pub record AuthClientConfig : Type 0 where
  pub api_host : String
  pub referer : String
  pub user_agent : String
  pub version : String
  pub web_version : String
  pub proxy : String
  pub timeout : ℤ
  pub password_auth : PasswordAuthConfig
  pub token_auth : TokenAuthConfig

-- Config of apimtbrowse
pub record BrowseConfig : Type 0 where
  pub api_host : String
  pub referer : String
  pub user_agent : String
  pub version : String
  pub web_version : String
  pub proxy : String
  pub timeout : ℤ

-- The standard library and the libraries of the loader: `<` and `<=` on float64, the float64 zero,
-- a conversion of seconds to a `time.Duration`, the parser of crontabs with the text of its error,
-- the reading of a file, the decoding of TOML with the keys that were not decoded, the text of an
-- error, and `strings.Join`.
pub record Library : Type 0 where
  pub lt : Float64 → Float64 → Bool
  pub le : Float64 → Float64 → Bool
  pub nought : Float64
  pub seconds_duration : Float64 → ℤ
  pub parse_crontab : String → Option GoError
  pub read_file : String → Decoded String
  pub decode_toml : String → Decoded (AppConfig × List String)
  pub error_text : GoError → String
  pub join : List String → String → String

-- apimtauth: Config.Validate
module _ (c : AuthClientConfig) where
  abbrev has_password : Bool
  has_password = not (is_empty c.password_auth.username) && not (is_empty c.password_auth.password)

  abbrev has_password_partial : Bool
  has_password_partial =
      not (is_empty c.password_auth.username)
      || (not (is_empty c.password_auth.password) || not (is_empty c.password_auth.totp_secret))

  abbrev has_token : Bool
  has_token =
      not (is_empty c.token_auth.auth)
      && (not (is_empty c.token_auth.did) && not (is_empty c.token_auth.visitor_id))

  abbrev has_token_partial : Bool
  has_token_partial =
      not (is_empty c.token_auth.auth)
      || (not (is_empty c.token_auth.did) || not (is_empty c.token_auth.visitor_id))

  unfoldable pub validate_auth : Option GoError
  validate_auth =
      if is_empty c.api_host
      then some (text "mt.api_host is required")
      else if not (is_pos c.timeout)
      then some (text "mt.timeout must be > 0")
      else if has_password_partial && not has_password
      then some (
          text
            "mt.password_auth.username and password are required when password_auth is configured")
      else if has_token_partial && not has_token
      then some
          (text "mt.token_auth.auth, did and visitor_id are required when token_auth is configured")
      else if not has_password && not has_token
      then some (
          text
            "either mt.password_auth.username/password or mt.token_auth.auth/did/visitor_id is required")
      else none

-- apimtbrowse: Config.Validate
unfoldable pub validate_browse : BrowseConfig → Option GoError
validate_browse c =
    if is_empty c.api_host
    then some (text "mt.api_host is required")
    else if not (is_pos c.timeout)
    then some (text "mt.timeout must be > 0")
    else none

abbrev pub removed_refresh_key : String → Bool
removed_refresh_key k =
    str_eq k "refresh.normal_clear_token_threshold"
    || (str_eq k "refresh.external_auth_notify_initial"
        || (str_eq k "refresh.external_auth_notify_interval" || str_eq k "refresh.cookie_mode"))

abbrev pub renamed_key : String → Bool
renamed_key k =
    str_eq k "mt.external_auth"
    || (str_eq k "mt.external_auth.auth"
        || (str_eq k "mt.external_auth.did" || str_eq k "mt.external_auth.visitor_id"))

unfoldable pub reject_removed_keys : List String → Option GoError
reject_removed_keys [] = none
reject_removed_keys (k ∷ ks) =
    let rest = reject_removed_keys ks in
    if removed_refresh_key k
    then some (text (k <> " has been removed from refresh config"))
    else if renamed_key k
    then some (text "mt.external_auth has been renamed to mt.token_auth")
    else rest

module _ (G : Library) where
  abbrev pub reject_unknown_keys : List String → Option GoError
  reject_unknown_keys [] = none
  reject_unknown_keys (k ∷ ks) = some (text ("unknown TOML key(s): " <> G.join (k ∷ ks) ", "))

  -- AppConfig.Validate
  unfoldable pub validate_app : AppConfig → Option GoError
  validate_app c = elim (G.parse_crontab c.app.crontab) [
    | some e ↦ some (wrapped "invalid app.crontab: " e)
    | none ↦
        if G.lt c.app.min_delay G.nought || G.lt c.app.max_delay G.nought
        then some (text "app.min_delay and app.max_delay must be >= 0")
        else if G.lt c.app.max_delay c.app.min_delay
        then some (text "app.min_delay must be <= app.max_delay")
        else if G.le c.refresh.timeout G.nought
        then some (text "refresh.timeout must be > 0")
        else none
  ]

  -- LoadTOMLWithMeta
  unfoldable pub load_toml_with_meta : String → Result (AppConfig × List String)
  load_toml_with_meta path = elim (G.read_file path) [
    | undecoded e ↦ err (wrapped (": read " <> path <> ": " <> e) (sentinel conf_read))
    | decoded source ↦ elim (G.decode_toml source) [
      | undecoded e ↦ err (wrapped (": parse " <> path <> ": " <> e) (sentinel conf_parse))
      | decoded loaded ↦ ok loaded
    ]
  ]

  abbrev pub invalid : GoError → GoError
  invalid e = wrapped (": " <> G.error_text e) (sentinel conf_invalid)

  abbrev pub check_loaded : AppConfig × List String → Result AppConfig
  check_loaded (cfg, keys) = elim (reject_removed_keys keys) [
    | some e ↦ err (invalid e)
    | none ↦ elim (reject_unknown_keys keys) [
      | some e ↦ err (invalid e)
      | none ↦ elim (validate_app cfg) [ some e ↦ err (invalid e) | none ↦ ok cfg ]
    ]
  ]

  unfoldable pub load_app : String → Result AppConfig
  load_app path = elim (load_toml_with_meta path) [
    | err e ↦ err e
    | ok loaded ↦ check_loaded loaded
  ]

  abbrev pub auth_config : MteamConfig → AuthClientConfig
  auth_config raw = record {
    api_host = raw.api_host;
    referer = raw.referer;
    user_agent = raw.header.user_agent;
    version = raw.header.version;
    web_version = raw.header.web_version;
    proxy = raw.proxy;
    timeout = G.seconds_duration raw.timeout;
    password_auth = raw.password_auth;
    token_auth = raw.token_auth;
  }

  abbrev pub browse_config : MteamConfig → BrowseConfig
  browse_config raw = record {
    api_host = raw.api_host;
    referer = raw.referer;
    user_agent = raw.header.user_agent;
    version = raw.header.version;
    web_version = raw.header.web_version;
    proxy = raw.proxy;
    timeout = G.seconds_duration raw.timeout;
  }

  -- buildMTeamConfigs
  unfoldable pub build_mteam_configs : MteamConfig → Result (AuthClientConfig × BrowseConfig)
  build_mteam_configs raw = elim (validate_auth (auth_config raw)) [
    | some e ↦ err (with_cause config_invalid (wrapped "validate mt auth config: " e))
    | none ↦ elim (validate_browse (browse_config raw)) [
      | some e ↦ err (with_cause config_invalid (wrapped "validate mt browse config: " e))
      | none ↦ ok (auth_config raw, browse_config raw)
    ]
  ]

unfoldable pub map_config_error : GoError → GoError
unfolding is_sentinel
map_config_error e =
    if is_sentinel conf_read e
    then with_cause config_read_failed e
    else if is_sentinel conf_parse e
    then with_cause config_parse_failed e
    else if is_sentinel conf_invalid e
    then with_cause config_invalid e
    else e

-- The configuration of the refresh that app.New builds from that of the login client.
abbrev pub refresh_auth_config : AuthClientConfig → RefreshConfig → AuthConfig
refresh_auth_config a r = record {
  password_auth = a.password_auth;
  token_auth = record {
    token = a.token_auth.auth;
    did = a.token_auth.did;
    visitor_id = a.token_auth.visitor_id;
  };
  retry_on_auth_failure = r.retry_on_auth_failure;
}
