-- ===== src/Protocol/Outcome.antt =====
-- What the business code of an error says of the response that it came from.
use mtlogin.Prelude.{
  String, ◌≡◌, inl, inr, Bool, true, false, ◌==◌, ◌&&◌, ◌||◌, none, some, arith, eq_iff, Bool-cases,
  str_eq, sym, refl,
}
use mathlib.Core.Path.{subst}
use mtlogin.Errors.{GoError, err, is_sentinel}
use mtlogin.Domain.Codes.{mt_auth_failed, is_code}
use mtlogin.Http.{Response}
use mtlogin.Protocol.{
  Library, ApiResponse, Decoded, decoded, undecoded, auth_code, unmarshal_json, parse_response,
  validate_http_response, translate_auth, translate_browse, map_auth_error, map_browse_error,
  totp_code,
}

-- No code is of two kinds.
apart : (c : String) → totp_code c ≡ true → auth_code c ≡ false
apart c h =
    let e = eq_iff c "1001" in
    let f = eq_iff c "10001" in
    elim (Bool-cases (str_eq c "1001")) [
      | inl p ↦ subst (λ d. auth_code d ≡ false) (sym (e.0 p)) refl
      | inr p ↦ subst (λ d. auth_code d ≡ false) (sym (f.0 (ground (arith)))) refl
    ]

module _ (G : Library) where
  abbrev code_in : Decoded ApiResponse → String
  code_in (undecoded e) = ""
  code_in (decoded b) = b.code

  abbrev decoded_code : Decoded ApiResponse → (String → Bool) → Bool
  decoded_code (undecoded e) p = false
  decoded_code (decoded b) p = p b.code

  -- The server refuses the login: status 401, or status 200 with one of five codes in its body.
  abbrev pub refuses : Response → Bool
  refuses r =
      r.status == 401 || (r.status == 200 && decoded_code (unmarshal_json G r.body) auth_code)

  -- Where the parsing of a response that came ends in an error, the business code that the login and
  -- the browsing session report for that error is `MTAuthFailed` exactly if the server refused the
  -- login: by the status 401, or by the status 200 and one of five codes in the body.
  pub refusal_codes :
      (r : Response) (e : GoError)
      → parse_response G (some r) none ≡ err e
      → (is_code mt_auth_failed (map_auth_error (translate_auth G e)) ≡ refuses r)
        × (is_code mt_auth_failed (map_browse_error (translate_browse G e)) ≡ refuses r)
  unfolding parse_response validate_http_response translate_auth translate_browse map_auth_error
      map_browse_error is_sentinel is_code
  refusal_codes r e h =
      let a = apart (code_in (unmarshal_json G r.body)) in (ground (arith, a), ground (arith, a))
