-- ===== src/Notify/Loading.antt =====
-- pkg/apikit/apinotify/config.go from the file to the configuration, LoadTOML of pkg/conf/loader.go, and
-- what New of internal/app/app.go makes of a failure: which channels the manager then has.
use mtlogin.Prelude.{String, ◌<>◌, false, none, some, List, pos}
use mtlogin.Errors.{wrapped, sentinel, conf_read, conf_parse, Result, ok, err}
use mtlogin.Domain.{Float64}
use mtlogin.Protocol.{Decoded, decoded, undecoded}
use mtlogin.Config as Config
use mtlogin.Config.{reject_removed_keys, reject_unknown_keys, invalid}
use mtlogin.Notify.Channels.{Common, Library}
use mtlogin.Notify.Manager.{NotifyConfig, validate_notify}

module _ (G : Config.Library) (L : Library)
    -- `toml.Decode` into a configuration that has values, with the keys that were not decoded, and 10 s
    (decode : NotifyConfig → String → Decoded (NotifyConfig × List String)) (ten : Float64) where
  abbrev off : Common
  off = record { enabled = false; use_system_proxy = false; timeout = G.nought }

  -- Config{}
  abbrev pub empty_config : NotifyConfig
  empty_config = record {
    timeout = G.nought;
    qqpush = record { common = off; qq = ""; token = "" };
    weixin = record {
      common = off;
      corp_id = "";
      agent_secret = "";
      agent_id = pos 0;
      user_id = "";
    };
    dingtalk = record { common = off; webhook_token = ""; secret = ""; at_mobiles = none };
    telegram = record { common = off; bot_token = ""; chat_id = pos 0; proxy = "" };
    feishu = record { common = off; webhook_url = ""; secret = "" };
    ntfy = record { common = off; url = ""; topic = ""; username = ""; password = ""; token = "" };
  }

  -- LoadTOML behind the decoding
  abbrev pub check_keys : NotifyConfig × List String → Result NotifyConfig
  check_keys (cfg, keys) = elim (reject_removed_keys keys) [
    | some e ↦ err (invalid G e)
    | none ↦ elim (reject_unknown_keys G keys) [ some e ↦ err (invalid G e) | none ↦ ok cfg ]
  ]

  -- LoadTOML, into a configuration
  unfoldable pub load_toml : String → NotifyConfig → Result NotifyConfig
  load_toml path dst = elim (G.read_file path) [
    | undecoded e ↦ err (wrapped (": read " <> path <> ": " <> e) (sentinel conf_read))
    | decoded source ↦ elim (decode dst source) [
      | undecoded e ↦ err (wrapped (": parse " <> path <> ": " <> e) (sentinel conf_parse))
      | decoded loaded ↦ check_keys loaded
    ]
  ]

  abbrev pub validated : NotifyConfig → Result NotifyConfig
  validated c = elim (validate_notify G L c) [
    | some e ↦ err (wrapped "validate notify config: " e)
    | none ↦ ok c
  ]

  -- LoadConfig
  unfoldable pub load_config : String → Result NotifyConfig
  load_config path = elim (load_toml path (record empty_config { timeout = ten })) [
    | err e ↦ err e
    | ok c ↦ validated c
  ]

  -- the `notifyCfg` of New
  abbrev pub notify_config : Result NotifyConfig → NotifyConfig
  notify_config (err e) = empty_config
  notify_config (ok c) = c
