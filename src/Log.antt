-- ===== src/Log.antt =====
-- pkg/log: what is taken out of a text before it is logged (sanitize.go), and the text of an entry
-- (message.go).
pub mod Secrets
pub mod Context
pub mod Distinct
use mtlogin.Prelude.{
  ℕ, String, ◌<>◌, Bool, true, false, ◌&&◌, ◌||◌, not, Option, none, some, List, [], ◌∷◌, map, any,
  is_empty, str_eq, if◌then◌else◌,
}
use mtlogin.Json.{
  Json, null, boolean, integer, string, array, object, Items, nil, cons, Fields, end, field,
}
use mtlogin.Protocol.{Decoded, decoded, undecoded}

abbrev pub redacted : String
redacted = "[REDACTED]"

abbrev pub sensitive_keys : List String
sensitive_keys =
    "access_token" ∷ "agent_secret" ∷ "agentsecret" ∷ "auth" ∷ "authorization" ∷ "bot_token"
    ∷ "corp_secret" ∷ "corpsecret" ∷ "did" ∷ "otp" ∷ "otpcode" ∷ "password" ∷ "proxy_authorization"
    ∷ "secret" ∷ "sign" ∷ "token" ∷ "visitorid" ∷ "visitor_id" ∷ "webhook_token" ∷ "x_api_key"
    ∷ "x_auth_token" ∷ []

-- A header, or a query, with all values of each key.
abbrev pub Values : Type 0
Values = List (String × List String)

-- A parsed address: whether it names a user, its path and its query.
pub record Url : Type 0 where
  pub user : Option String
  pub path : String
  pub query : Values
  pub rest : String

-- The standard library: strings, the two patterns with what they put in the place of a match,
-- addresses, queries and JSON.
pub record Texts : Type 0 where
  pub to_lower : String → String
  pub dashes_and_dots : String → String
  pub contains : String → String → Bool
  pub mask_bot_token : String → String
  pub mask_values : String → String
  pub parse_url : String → Option Url
  pub url_text : Url → String
  pub parse_query : String → Option Values
  pub encode_query : Values → String
  pub unmarshal : String → Option Json
  pub marshal : Json → Option String

-- MaskSecret
abbrev pub mask_secret : String → String
mask_secret value = if is_empty value then "" else redacted

-- Message, with its fields in the order in which they were first added
pub record Entry : Type 0 where
  pub kv : List (String × String)
  pub msg : String

abbrev pub put_field : String → String → List (String × String) → List (String × String)
put_field key value [] = (key, value) ∷ []
put_field key value ((k, v) ∷ kv) =
    if str_eq k key then (k, value) ∷ kv else (k, v) ∷ put_field key value kv

-- Message.AddField, for a value whose text is known
abbrev pub add_field : String → String → Entry → Entry
add_field key value e = record e { kv = put_field key value e.kv }

-- Message.AddMsg
abbrev pub add_msg : String → Entry → Entry
add_msg value e = record e { msg = value }

abbrev pub fields_text : List (String × String) → String
fields_text [] = ""
fields_text ((k, v) ∷ kv) = (k <> "[" <> v <> "] ") <> fields_text kv

-- Message.String
abbrev pub entry_text : Entry → String
entry_text e = fields_text e.kv <> e.msg

module _ (T : Texts) where
  -- isSensitiveKey
  unfoldable pub is_sensitive_key : String → Bool
  is_sensitive_key key =
      let normalized = T.dashes_and_dots (T.to_lower key) in
      any (λ k. str_eq k normalized) sensitive_keys
      || (T.contains normalized "password"
          || (T.contains normalized "secret"
              || (T.contains normalized "token" || T.contains normalized "auth")))

  abbrev pub redact : String × List String → String × List String
  redact (key, values) =
      (key, (if is_sensitive_key key then map (λ v. redacted) values else values))

  -- SanitizeHeaders
  abbrev pub sanitize_headers : Values → Values
  sanitize_headers header = map redact header

  -- SanitizeText
  abbrev pub sanitize_text : String → String
  sanitize_text text = T.mask_values (T.mask_bot_token text)

  abbrev pub mask_user : Option String → Option String
  mask_user none = none
  mask_user (some u) = some redacted

  abbrev pub mask_url : Url → Url
  mask_url u = record u {
    user = mask_user u.user;
    path = T.mask_bot_token u.path;
    query = map redact u.query;
  }

  -- SanitizeURL
  unfoldable pub sanitize_url : String → String
  sanitize_url raw =
      if is_empty raw
      then raw
      else elim (T.parse_url raw) [ none ↦ T.mask_bot_token raw | some u ↦ T.url_text (mask_url u) ]

  unfoldable mutual
    unfolding is_sensitive_key

    -- sanitizeJSONValue
    pub sanitize_json : Json → Json
    sanitize_json null = null
    sanitize_json (boolean b) = boolean b
    sanitize_json (integer n) = integer n
    sanitize_json (string s) = string s
    sanitize_json (array xs) = array (sanitize_items xs)
    sanitize_json (object fs) = object (sanitize_fields fs)

    pub sanitize_items : Items → Items
    sanitize_items nil = nil
    sanitize_items (cons x xs) = cons (sanitize_json x) (sanitize_items xs)

    pub sanitize_fields : Fields → Fields
    sanitize_fields end = end
    sanitize_fields (field k x fs) =
        field k (if is_sensitive_key k then string redacted else sanitize_json x)
          (sanitize_fields fs)

  abbrev pub has_sensitive : Values → Bool
  has_sensitive values = any (λ e. is_sensitive_key e.0) values

  -- the end of `SanitizeBody`: a form, or a text
  abbrev pub sanitize_form : String → Option Values → String
  sanitize_form text none = sanitize_text text
  sanitize_form text (some values) =
      if has_sensitive values then T.encode_query (map redact values) else sanitize_text text

  abbrev pub sanitize_plain : String → String
  sanitize_plain text = sanitize_form text (T.parse_query text)

  -- SanitizeBody
  unfoldable pub sanitize_body : String → String → String
  unfolding sanitize_json
  sanitize_body content_type body =
      if is_empty body
      then body
      else if T.contains (T.to_lower content_type) "json"
      then elim (T.unmarshal body) [
        | none ↦ sanitize_plain body
        | some value ↦ elim (T.marshal (sanitize_json value)) [
          | none ↦ sanitize_plain body
          | some out ↦ out
        ]
      ]
      else sanitize_plain body
