-- ===== src/Notify/Channels.antt =====
-- The notification channels of pkg/apikit/apinotify: dingtalk, feishu, ntfy, qqpush, telegram and weixin,
-- the configuration of each (config.go) with its validation, and the libraries that they use.
use mtlogin.Prelude.{
  ℕ, String, ◌<>◌, Bool, false, ◌&&◌, ◌||◌, Option, none, some, List, Exec, ℤ, pos, negsuc,
  is_empty, ◌==◌, if◌then◌else◌,
}
use mtlogin.Errors.{GoError, text, Result}
use mtlogin.Domain.{Float64}
use mtlogin.Context.{Ctx}
use mtlogin.Http.{Headers}
use mtlogin.Json.{Json}
use mtlogin.Log.{Texts}

-- What every channel's configuration has.
pub record Common : Type 0 where
  pub enabled : Bool
  pub use_system_proxy : Bool
  pub timeout : Float64

pub record DingTalk : Type 0 where
  pub common : Common
  pub webhook_token : String
  pub secret : String
  pub at_mobiles : Option (List String)

pub record Feishu : Type 0 where
  pub common : Common
  pub webhook_url : String
  pub secret : String

pub record Ntfy : Type 0 where
  pub common : Common
  pub url : String
  pub topic : String
  pub username : String
  pub password : String
  pub token : String

pub record QqPush : Type 0 where
  pub common : Common
  pub qq : String
  pub token : String

pub record Telegram : Type 0 where
  pub common : Common
  pub bot_token : String
  pub chat_id : ℤ
  pub proxy : String

pub record Weixin : Type 0 where
  pub common : Common
  pub corp_id : String
  pub agent_secret : String
  pub agent_id : ℤ
  pub user_id : String

-- An errcode and an errmsg.
pub record Verdict : Type 0 where
  pub code : ℤ
  pub message : String

-- The standard library: `< 0` on float64, HMAC-SHA256 of a message under a key in base64, base64,
-- `url.Values.Encode`, `strings.Contains`, JSON, and `%d` of an int64.
pub record Library : Type 0 where
  pub is_negative : Float64 → Bool
  pub hmac_sha256_base64 : String → String → String
  pub base64 : String → String
  pub encode_values : List (String × String) → String
  pub contains : String → String → Bool
  pub marshal : Json → Result String
  pub decode_verdict : String → Result Verdict
  pub decode_token : String → Result String
  pub integer_text : ℤ → String
  pub texts : Texts

-- The sender of a channel, the context, and the clock in seconds and in milliseconds.
pub record Sender (W : Type 0) : Type 0 where
  pub get_json : Ctx → String → String → Headers → Exec W (Result (ℕ × String))
  pub post_json : Ctx → String → String → String → Headers → Exec W (Result (ℕ × String))
  pub ctx_err : Ctx → Exec W (Option GoError)
  pub unix : Exec W ℕ
  pub unix_milli : Exec W ℕ

abbrev pub is_zero : ℤ → Bool
is_zero (pos n) = n == 0
is_zero (negsuc n) = false

module _ (L : Library) where
  -- Config.Validate of each package: the timeout, then what the channel needs where it is enabled
  abbrev pub validate : String → Common → Bool → String → Option GoError
  validate name c missing what =
      if L.is_negative c.timeout
      then some (text (name <> " timeout must be >= 0"))
      else if c.enabled && missing
      then some (text (name <> " " <> what <> " required"))
      else none

  unfoldable pub validate_dingtalk : DingTalk → Option GoError
  validate_dingtalk c = validate "dingtalk" c.common (is_empty c.webhook_token) "webhook_token is"

  unfoldable pub validate_feishu : Feishu → Option GoError
  validate_feishu c = validate "feishu" c.common (is_empty c.webhook_url) "webhook_url is"

  unfoldable pub validate_ntfy : Ntfy → Option GoError
  validate_ntfy c =
      validate "ntfy" c.common (is_empty c.url || is_empty c.topic) "url and topic are"

  unfoldable pub validate_qqpush : QqPush → Option GoError
  validate_qqpush c =
      validate "qqpush" c.common (is_empty c.qq || is_empty c.token) "qq and token are"

  unfoldable pub validate_telegram : Telegram → Option GoError
  validate_telegram c =
      validate "telegram" c.common (is_empty c.bot_token || is_zero c.chat_id)
        "bot_token and chat_id are"

  unfoldable pub validate_weixin : Weixin → Option GoError
  validate_weixin c =
      validate "weixin" c.common (is_empty c.corp_id || is_empty c.agent_secret)
        "corp_id and agent_secret are"
