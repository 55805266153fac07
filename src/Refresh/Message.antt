-- ===== src/Refresh/Message.antt =====
-- internal/refresh/message.go: the notifications.
use mtlogin.Prelude.{
  String, ◌<>◌, Bool, true, false, Option, none, some, ℤ, is_empty, if◌then◌else◌,
}
use mtlogin.Errors.{GoError}
use mtlogin.Domain.{Profile, Float64}
use mtlogin.Domain.Codes.{public_message}

pub data MessageLevel : Type 0 where
  success warning error : MessageLevel

pub record Message : Type 0 where
  pub title : String
  pub body : String
  pub level : MessageLevel

pub data MessageKind : Type 0 where
  refresh_failed refresh_succeeded identity_changed token_auth_expired : MessageKind
  password_auth_expired_retry password_auth_expired_next_run : MessageKind
  relogin_failed identity_reset_failed : MessageKind

-- The floating-point parts of `fmt.Sprintf`: a number of bytes as `%.2f` of its share of 2^30, and
-- `%.2f` of a float64.
pub record Format : Type 0 where
  pub gigabytes : ℤ → String
  pub two_places : Float64 → String

abbrev pub with_prefix : String → String → String
with_prefix prefix suffix =
    if is_empty prefix then suffix else if is_empty suffix then prefix else prefix <> "\n" <> suffix

module _ (F : Format) where
  abbrev traffic : Profile → String
  traffic p =
      "\n上传量: "
      <> F.gigabytes p.uploaded_bytes
      <> " Gb\n下载量: "
      <> F.gigabytes p.downloaded_bytes
      <> " Gb\n魔力值: "
      <> F.two_places p.bonus

  unfoldable pub format_profile : Option Profile → Bool → String
  format_profile none _ = ""
  format_profile (some p) true =
      "m-team 账号 "
      <> p.username
      <> " 刷新成功"
      <> traffic p
      <> "\n上次登录时间: "
      <> p.last_login
      <> "\n刷新前上次访问时间: "
      <> p.last_browse
  format_profile (some p) false = "账号: " <> p.username <> traffic p

  unfoldable pub build_message : MessageKind → Option GoError → Option Profile → Message
  unfolding format_profile
  build_message refresh_succeeded e p = record {
    title = "m-team 账号刷新成功";
    body = format_profile p true;
    level = success;
  }
  build_message identity_changed e p = record {
    title = "m-team 刷新已终止";
    body = public_message e;
    level = warning;
  }
  build_message token_auth_expired e p = record {
    title = "m-team 登录保活失败";
    body =
        with_prefix (public_message e)
          "Token 认证信息可能已过期，请更新 conf/app.toml 中的 mt.token_auth.auth、mt.token_auth.did、mt.token_auth.visitor_id 后重启。";
    level = error;
  }
  build_message password_auth_expired_retry e p = record {
    title = "m-team 登录已过期";
    body = with_prefix (public_message e) "账号密码模式登录已过期，本地 token、DID、visitorid 已清除。\n本次将立即重新登录。";
    level = warning;
  }
  build_message password_auth_expired_next_run e p = record {
    title = "m-team 登录已过期";
    body = with_prefix (public_message e) "账号密码模式登录已过期，本地 token、DID、visitorid 已清除。\n下次刷新将重新登录。";
    level = warning;
  }
  build_message relogin_failed e p = record {
    title = "m-team 重新登录失败";
    body =
        with_prefix (public_message e)
          "账号密码模式登录已过期且重新登录失败，请检查账号、密码或 TOTP 配置。\n本地 token、DID、visitorid 已清除，下次刷新将再次尝试登录。";
    level = error;
  }
  build_message identity_reset_failed e p = record {
    title = "m-team 登录状态清理失败";
    body =
        with_prefix (public_message e)
          "账号密码模式登录已过期，但本地 token、DID、visitorid 清理失败，无法确认当前身份状态。请检查本地存储权限后重试。";
    level = error;
  }
  build_message refresh_failed e p = record {
    title = "m-team 登录保活失败";
    body =
        (let body = format_profile p false in
          let e' = public_message e in if is_empty body then e' else with_prefix body e');
    level = error;
  }
