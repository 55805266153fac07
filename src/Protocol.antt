-- ===== src/Protocol.antt =====
-- pkg/apikit/internal/mtproto/response.go: what a response of the server means. The errors of the
-- packages that use it, pkg/apikit/apimtauth/errors.go and pkg/apikit/apimtbrowse/errors.go, and the
-- business codes that internal/app/mteam_adapter.go gives them.
pub mod Outcome
use mtlogin.Prelude.{
  ℕ, String, ◌<>◌, Bool, true, false, ◌&&◌, ◌||◌, not, Option, none, some, is_empty, str_eq, ◌==◌,
  if◌then◌else◌,
}
use text.Mathlib.Text.{starts_with}
use mtlogin.Http.{Response}
use mtlogin.Decimal.{decimal}
use mtlogin.Errors.{
  GoError, sentinel, wrapped, is_sentinel, Result, ok, err, proto_auth_failed, proto_http_status,
  proto_business, proto_totp_required, auth_auth_failed, auth_http_status, auth_business,
  auth_totp_required, browse_auth_failed, browse_http_status, browse_business, browse_totp_required,
  browse_request_build, Sentinel,
}
use mtlogin.Domain.Codes.{
  with_cause, mt_auth_failed, mt_http_status, mt_business_failed, mt_request_build_failed,
  mt_totp_required,
}

-- What decoding gives, or the text of its error.
pub data Decoded {ℓ} (A : Type ℓ) : Type ℓ where
  decoded : A → Decoded A
  undecoded : String → Decoded A

-- The local `raw` of `UnmarshalJSON`: its code is a JSON value, or empty if there is none.
pub record Raw : Type 0 where
  pub code : String
  pub message : String
  pub data_json : String

pub record ApiResponse : Type 0 where
  pub code : String
  pub message : String
  pub data_json : String

-- The standard library: decoding of JSON, the text of an error, and `strings.TrimPrefix`.
pub record Library : Type 0 where
  pub decode_raw : String → Decoded Raw
  pub decode_string : String → Decoded String
  pub decode_number : String → Decoded String
  pub error_text : GoError → String
  pub trim_prefix : String → String → String

abbrev pub totp_code : String → Bool
totp_code c = str_eq c "1001" || str_eq c "10001"

abbrev pub auth_code : String → Bool
auth_code c =
    str_eq c "401"
    || (str_eq c "NOT_LOGIN"
        || (str_eq c "NEED_LOGIN" || (str_eq c "LOGIN_REQUIRED" || str_eq c "AUTH_EXPIRED")))

module _ (G : Library) where
  abbrev pub decode_code : String → Decoded String
  decode_code c =
      if not (is_empty c) && not (str_eq c "null")
      then (if starts_with c "\"" then G.decode_string c else G.decode_number c)
      else decoded ""

  abbrev pub with_code : Raw → Decoded String → Decoded ApiResponse
  with_code raw (undecoded e) = undecoded e
  with_code raw (decoded c) =
      decoded (record { code = c; message = raw.message; data_json = raw.data_json })

  -- APIResponse.UnmarshalJSON
  unfoldable pub unmarshal_json : String → Decoded ApiResponse
  unmarshal_json data_text = elim (G.decode_raw data_text) [
    | undecoded e ↦ undecoded e
    | decoded raw ↦ with_code raw (decode_code raw.code)
  ]

  unfoldable pub validate_http_response : Option Response → Option GoError → Option GoError
  validate_http_response res (some e) = some e
  validate_http_response none none = some (wrapped ": empty response" (sentinel proto_business))
  validate_http_response (some r) none =
      if r.status == 401
      then some (wrapped (": status=" <> decimal r.status) (sentinel proto_auth_failed))
      else if not (r.status == 200)
      then some (wrapped (": status=" <> decimal r.status) (sentinel proto_http_status))
      else none

  abbrev pub check_code : ApiResponse → Result ApiResponse
  check_code body =
      let detail = ": code=" <> body.code in
      if str_eq body.code "0"
      then ok body
      else if totp_code body.code
      then err (wrapped detail (sentinel proto_totp_required))
      else if auth_code body.code
      then err (wrapped detail (sentinel proto_auth_failed))
      else err (wrapped detail (sentinel proto_business))

  abbrev pub check_decoded : Decoded ApiResponse → Result ApiResponse
  check_decoded (undecoded e) = err (wrapped (": decode response: " <> e) (sentinel proto_business))
  check_decoded (decoded body) = check_code body

  -- The body is read only where the validation went well, and then there is a response.
  abbrev pub body_of : Option Response → String
  body_of none = ""
  body_of (some r) = r.body

  unfoldable pub parse_response : Option Response → Option GoError → Result ApiResponse
  unfolding validate_http_response unmarshal_json
  parse_response res e = elim (validate_http_response res e) [
    | some q ↦ err q
    | none ↦ check_decoded (unmarshal_json (body_of res))
  ]

  -- translateProtocolError of apimtauth
  unfoldable pub translate_auth : GoError → GoError
  unfolding is_sentinel
  translate_auth e =
      let retarget : Sentinel → GoError = λ v. wrapped (": " <> G.error_text e) (sentinel v) in
      if is_sentinel proto_auth_failed e
      then retarget auth_auth_failed
      else if is_sentinel proto_http_status e
      then retarget auth_http_status
      else if is_sentinel proto_totp_required e
      then retarget auth_totp_required
      else if is_sentinel proto_business e
      then retarget auth_business
      else e

  abbrev pub retarget_browse : GoError → Sentinel → Sentinel → GoError
  retarget_browse e target source =
      let detail =
        G.trim_prefix (G.trim_prefix (G.error_text e) (G.error_text (sentinel source))) ": " in
      if is_empty detail then sentinel target else wrapped (": " <> detail) (sentinel target)

  -- translateProtocolError of apimtbrowse
  unfoldable pub translate_browse : GoError → GoError
  unfolding is_sentinel
  translate_browse e =
      if is_sentinel proto_auth_failed e
      then retarget_browse e browse_auth_failed proto_auth_failed
      else if is_sentinel proto_http_status e
      then retarget_browse e browse_http_status proto_http_status
      else if is_sentinel proto_totp_required e
      then retarget_browse e browse_totp_required proto_totp_required
      else if is_sentinel proto_business e
      then retarget_browse e browse_business proto_business
      else e

unfoldable pub map_auth_error : GoError → GoError
unfolding is_sentinel
map_auth_error e =
    if is_sentinel auth_auth_failed e
    then with_cause mt_auth_failed e
    else if is_sentinel auth_http_status e
    then with_cause mt_http_status e
    else if is_sentinel auth_totp_required e
    then with_cause mt_totp_required e
    else if is_sentinel auth_business e
    then with_cause mt_business_failed e
    else e

unfoldable pub map_browse_error : GoError → GoError
unfolding is_sentinel
map_browse_error e =
    if is_sentinel browse_auth_failed e
    then with_cause mt_auth_failed e
    else if is_sentinel browse_http_status e
    then with_cause mt_http_status e
    else if is_sentinel browse_totp_required e
    then with_cause mt_totp_required e
    else if is_sentinel browse_request_build e
    then with_cause mt_request_build_failed e
    else if is_sentinel browse_business e
    then with_cause mt_business_failed e
    else e
