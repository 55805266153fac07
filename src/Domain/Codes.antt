-- ===== src/Domain/Codes.antt =====
-- internal/domain/errno.go and error.go: errors that carry a stable business code.
use mtlogin.Prelude.{ℕ, String, ◌<>◌, Bool, false, ◌||◌, Option, none, some, ◌==◌}
use mtlogin.Decimal.{decimal6}
use mtlogin.Errors.{GoError, sentinel, text, wrapped, coded, caused, joined}

-- A `domain.Error` without its Cause: a template of errno.go.
pub record CodedError : Type 0 where
  pub code : ℕ
  pub message : String

abbrev pub config_read_failed : CodedError
config_read_failed = record { code = 100000; message = "读取配置失败" }

abbrev pub config_parse_failed : CodedError
config_parse_failed = record { code = 100001; message = "解析配置失败" }

abbrev pub config_invalid : CodedError
config_invalid = record { code = 100002; message = "配置无效" }

abbrev pub mt_auth_failed : CodedError
mt_auth_failed = record { code = 200000; message = "M-Team 认证失败" }

abbrev pub mt_http_status : CodedError
mt_http_status = record { code = 200001; message = "M-Team HTTP 状态异常" }

abbrev pub mt_business_failed : CodedError
mt_business_failed = record { code = 200002; message = "M-Team 业务失败" }

abbrev pub mt_request_build_failed : CodedError
mt_request_build_failed = record { code = 200003; message = "M-Team 请求构建失败" }

abbrev pub mt_totp_required : CodedError
mt_totp_required = record { code = 200004; message = "M-Team 需要二次验证码" }

abbrev pub refresh_identity_changed : CodedError
refresh_identity_changed = record { code = 400000; message = "刷新身份已变更" }

abbrev pub refresh_identity_reset_failed : CodedError
refresh_identity_reset_failed = record { code = 400001; message = "刷新身份清理失败" }

abbrev pub scheduler_busy : CodedError
scheduler_busy = record { code = 500000; message = "刷新任务正在运行" }

abbrev pub runtime_service_not_published : CodedError
runtime_service_not_published = record { code = 500001; message = "刷新服务未发布" }

-- The template itself, returned as an error.
abbrev pub plain : CodedError → GoError
plain c = coded c.code c.message

-- Error.WithCause
abbrev pub with_cause : CodedError → GoError → GoError
with_cause c e = caused c.code c.message e

-- errors.Is(err, template): `Error.Is` compares the codes.
unfoldable pub is_code : CodedError → GoError → Bool
is_code c (sentinel _) = false
is_code c (text _) = false
is_code c (wrapped _ e) = is_code c e
is_code c (coded k _) = k == c.code
is_code c (caused k _ e) = k == c.code || is_code c e
is_code c (joined e f) = is_code c e || is_code c f

abbrev pub or_else : Option CodedError → Option CodedError → Option CodedError
or_else none o = o
or_else (some c) o = some c

-- errors.As(err, &target) for a target of type `domain.Error`: the outermost one.
unfoldable pub as_coded : GoError → Option CodedError
as_coded (sentinel _) = none
as_coded (text _) = none
as_coded (wrapped _ e) = as_coded e
as_coded (coded k m) = some (record { code = k; message = m })
as_coded (caused k m e) = some (record { code = k; message = m })
as_coded (joined e f) = or_else (as_coded e) (as_coded f)

-- CodeOf
unfoldable pub code_of : Option GoError → ℕ
unfolding as_coded
code_of none = 0
code_of (some e) = elim (as_coded e) [ none ↦ 0 | some c ↦ c.code ]

abbrev pub shown : Option CodedError → String
shown none = "请求失败，请查看日志"
shown (some c) = (("[" <> decimal6 c.code) <> "] ") <> c.message

-- PublicMessage
unfoldable pub public_message : Option GoError → String
unfolding as_coded decimal6
public_message none = ""
public_message (some e) = shown (as_coded e)
