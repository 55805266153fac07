-- ===== src/Tests/LoadingTests.antt =====
-- The loading of conf/notify.toml for a concrete file: it enables the channel ntfy.
use mtlogin.Prelude.{ℕ, String, ◌≡◌, ◌⊎◌, refl, true, false, none, List, [], ◌∷◌, suc}
use mtlogin.Errors.{GoError, ok, err}
use mtlogin.Context.{Ctx}
use mtlogin.Domain.{Float64}
use mtlogin.Protocol.{Decoded, decoded}
use mtlogin.Config.{reject_removed_keys}
use mtlogin.Notify.Channels.{
  Sender, validate_qqpush, validate_weixin, validate_dingtalk, validate_telegram, validate_feishu,
  validate_ntfy,
}
use mtlogin.Notify.Manager.{NotifyConfig, new_manager, validate_notify}
use mtlogin.Notify.Loading.{load_config, load_toml, notify_config}
use mtlogin.Notify.Enabled.{names, enabled_channels, Valid, loaded_channels}
use mtlogin.Tests.AssemblyTests
use mtlogin.Tests.AssemblyTests.{channels}
use mtlogin.Tests.ConfigTests.{go}

abbrev decode : NotifyConfig → String → Decoded (NotifyConfig × List String)
decode c source = decoded (
  record AssemblyTests.notify {
    timeout = c.timeout;
    ntfy = record {
      common = record { enabled = true; use_system_proxy = false; timeout = c.timeout };
      url = "https://ntfy.example";
      topic = "mt";
      username = "";
      password = "";
      token = "t";
    };
  },
  [],
)

abbrev ten : Float64
ten = record { bits = 10 }

abbrev sender : Sender ℕ
sender = record {
  get_json = λ c server url headers n. (ok (200, "{}"), suc n);
  post_json = λ c server url body headers n. (ok (200, "{}"), suc n);
  ctx_err = λ c n. (none, n);
  unix = λ n. (n, n);
  unix_milli = λ n. (n, n);
}

abbrev log_id : Ctx → String
log_id c = "log"

abbrev unread : String → ℕ → ℕ
unread s n = n

loaded_channels_example :
    let r = load_config go channels decode ten "conf/notify.toml" in
    let m =
      new_manager go channels sender log_id unread (notify_config go channels decode ten r) "" in
    ((e : GoError) × (r ≡ err e) × (names go channels sender log_id unread m ≡ "base" ∷ []))
    ⊎ ((c : NotifyConfig) × (r ≡ ok c)
        × (names go channels sender log_id unread m ≡ "base" ∷ enabled_channels c)
        × Valid go channels c)
loaded_channels_example =
    loaded_channels go channels sender log_id unread decode ten "conf/notify.toml" ""

file_channels :
    names go channels sender log_id unread (
      new_manager go channels sender log_id unread
        (notify_config go channels decode ten
          (load_config go channels decode ten "conf/notify.toml"))
        "")
    ≡ "base" ∷ "ntfy" ∷ []
unfolding new_manager load_config load_toml reject_removed_keys validate_notify validate_qqpush
    validate_weixin validate_dingtalk validate_telegram validate_feishu validate_ntfy
file_channels = refl
