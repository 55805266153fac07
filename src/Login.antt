-- ===== src/Login.antt =====
-- pkg/apikit/apimtauth: the login (client.go, login.go) with its one-time code (totp.go), and the
-- random strings of pkg/util/string.go.
pub mod Outcome
use mtlogin.Prelude.{
  ℕ, zero, suc, ◌+◌, ◌*◌, ◌/◌, ◌%◌, ◌^◌, String, ◌<>◌, Bool, true, false, ◌&&◌, not, Option, none,
  some, List, [], ◌∷◌, Exec, ℤ, is_empty, if◌then◌else◌,
}
use mtlogin.Decimal.{decimal, decimal6}
use mtlogin.Errors.{
  GoError, sentinel, text, wrapped, is_sentinel, Result, ok, err, Act, pure, fail, continue, ◌>>=◌,
  ◌>>◌, proto_totp_required, auth_auth_failed,
}
use mtlogin.Domain.{AuthState, LoginRequest}
use mtlogin.Context.{Ctx}
use mtlogin.Http.{Request, Response, Reply, lookup}
use mtlogin.Protocol.{
  Library, Decoded, decoded, undecoded, ApiResponse, parse_response, translate_auth,
}

-- The configuration of the client, its proxy parsed.
pub record Config : Type 0 where
  pub api_host : String
  pub timeout : ℤ
  pub proxy_url : Option String

-- Standard library: strings, base32 without padding, HMAC-SHA1 with 20 bytes, `url.Values.Encode`.
pub record Encoding : Type 0 where
  pub trim_space : String → String
  pub to_upper : String → String
  pub trim_right : String → String → String
  pub decode_base32 : String → Decoded (List ℕ)
  pub hmac_sha1 : List ℕ → List ℕ → List ℕ
  pub hmac_sha1_base64 : String → String → String
  pub encode_values : List (String × String) → String

-- The context, the clock in milliseconds and in seconds, `rand.Int`, and the round tripper.
pub record Net (W : Type 0) : Type 0 where
  pub ctx_err : Ctx → Exec W (Option GoError)
  pub unix_milli : Exec W ℕ
  pub unix : Exec W ℕ
  pub rand_int : ℕ → Exec W (Result ℕ)
  pub round_trip : Ctx → Request → Exec W Reply

-- A request that was sent, and the `url.Values` that was encoded for it.
pub record Posted : Type 0 where
  pub request : Request
  pub form : List (String × String)

-- The world, and for theorems only the requests sent, the latest first.
pub record Wire (W : Type 0) : Type 0 where
  pub world : W
  pub sent : List Posted

-- digitsAndLowercase
abbrev pub digits_and_lowercase : List String
digits_and_lowercase =
    "1" ∷ "2" ∷ "3" ∷ "4" ∷ "5" ∷ "6" ∷ "7" ∷ "8" ∷ "9" ∷ "0" ∷ "a" ∷ "b" ∷ "c" ∷ "d" ∷ "e" ∷ "f"
    ∷ "g" ∷ "h" ∷ "i" ∷ "j" ∷ "k" ∷ "l" ∷ "m" ∷ "n" ∷ "o" ∷ "p" ∷ "q" ∷ "r" ∷ "s" ∷ "t" ∷ "u" ∷ "v"
    ∷ "w" ∷ "x" ∷ "y" ∷ "z" ∷ []

-- The index is below 36, so the default is never read.
abbrev pub letter : List String → ℕ → String
letter [] n = "?"
letter (c ∷ cs) zero = c
letter (c ∷ cs) (suc n) = letter cs n

-- bytes[i], with 0 out of range, where Go panics; an HMAC-SHA1 has 20 bytes and no index is above 19
abbrev pub byte_at : List ℕ → ℕ → ℕ
byte_at [] n = 0
byte_at (b ∷ bs) zero = b
byte_at (b ∷ bs) (suc n) = byte_at bs n

-- binary.BigEndian.PutUint64
abbrev pub put_uint64 : ℕ → List ℕ
put_uint64 n =
    n / 2 ^ 56 % 256
    ∷ n / 2 ^ 48 % 256
    ∷ n / 2 ^ 40 % 256
    ∷ n / 2 ^ 32 % 256
    ∷ n / 2 ^ 24 % 256
    ∷ n / 2 ^ 16 % 256
    ∷ n / 2 ^ 8 % 256
    ∷ n % 256
    ∷ []

-- binary.BigEndian.Uint32 of the four bytes from i on
abbrev pub uint32_at : List ℕ → ℕ → ℕ
uint32_at bs i =
    byte_at bs i * 2 ^ 24
    + byte_at bs (i + 1) * 2 ^ 16
    + byte_at bs (i + 2) * 2 ^ 8
    + byte_at bs (i + 3)

abbrev pub last_byte : List ℕ → ℕ
last_byte [] = 0
last_byte (b ∷ []) = b
last_byte (b ∷ c ∷ bs) = last_byte (c ∷ bs)

module _ (N : Encoding) where
  -- the end of `generateAt`: the truncation of the sum to six digits
  abbrev pub truncate : List ℕ → String
  truncate sum = decimal6 (uint32_at sum (last_byte sum % 16) % 2 ^ 31 % 1000000)

  -- generateAt
  unfoldable pub generate_at : String → ℕ → Result String
  generate_at secret now =
      elim (N.decode_base32 (N.trim_right (N.to_upper (N.trim_space secret)) "=")) [
        | undecoded e ↦ err (wrapped ("decode totp secret: " <> e) (text e))
        | decoded key ↦ ok (truncate (N.hmac_sha1 key (put_uint64 (now / 30))))
      ]

  module _ {W : Type 0} (E : Net W) where
    abbrev on : {A : Type 0} → Exec W A → Act (Wire W) A
    on m y = let (a, w) = m y.world in (ok a, record y { world = w })

    abbrev try_on : {A : Type 0} → Exec W (Result A) → Act (Wire W) A
    try_on m y = let (r, w) = m y.world in (r, record y { world = w })

    -- the loop of `util.String`
    unfoldable pub random_chars : ℕ → Act (Wire W) String
    random_chars zero = pure ""
    random_chars (suc k) = do
      n ← try_on (E.rand_int 36)
      rest ← random_chars k
      pure (letter digits_and_lowercase n <> rest)

    -- util.String, for a length above 0
    abbrev pub random_string : ℕ → Act (Wire W) String
    random_string length = random_chars length

    abbrev require_live : Option GoError → Act (Wire W) (Unit {0})
    require_live none = pure tt
    require_live (some e) = fail e

    -- if otp { tk, err := Generate(req.TotpSecret) ... }
    abbrev one_time_code : Bool → String → Act (Wire W) (Option String)
    one_time_code false secret = pure none
    one_time_code true secret = do
      now ← on E.unix
      (λ y. (elim (generate_at secret now) [ ok c ↦ ok (some c) | err e ↦ err e ], y))

    -- mtproto.Signature
    abbrev pub signature : String → String → ℕ → String
    signature method path t =
        N.hmac_sha1_base64 (method <> "&" <> path <> "&" <> decimal t) "HLkPcWmycL57mfJt"

    abbrev code_value : Option String → List (String × String)
    code_value none = []
    code_value (some c) = ("otpCode", c) ∷ []

    abbrev pub values : LoginRequest → Option String → ℕ → List (String × String)
    values req code t =
        ("username", req.username)
        ∷ ("password", req.password)
        ∷ ("turnstile", "")
        ∷ ("_timestamp", decimal t)
        ∷ ("_sgin", signature "POST" "/api/login" t)
        ∷ code_value code

    abbrev proxy_of : Option String → String
    proxy_of none = ""
    proxy_of (some p) = p

    abbrev pub build_request : Config → LoginRequest → List (String × String) → String → Request
    build_request cfg req form did = record {
      server = "mteam";
      url = "https://" <> cfg.api_host <> "/api/login";
      method = "POST";
      headers =
          ("Content-Type", "application/x-www-form-urlencoded; charset=UTF-8")
          ∷ ("Did", did)
          ∷ ("visitorid", req.visitor_id)
          ∷ [];
      body = N.encode_values form;
      timeout = cfg.timeout;
      proxy = proxy_of cfg.proxy_url;
      disable_redirect = true;
      body_bytes = "";
      user_agent = "";
      cookie_scope = "";
    }

    -- c.rt.RoundTrip
    abbrev transmit : Ctx → List (String × String) → Request → Act (Wire W) Reply
    transmit ctx form r y =
        let (a, w) = E.round_trip ctx r y.world in
        (ok a, record { world = w; sent = record { request = r; form = form } ∷ y.sent })

    -- One request of a login: the response, what it means, and the random DID that was sent.
    pub record Sent : Type 0 where
      pub response : Option Response
      pub outcome : Result ApiResponse
      pub did : String

    module _ (G : Library) (cfg : Config) (ctx : Ctx) (req : LoginRequest) where
      -- login.go up to the parsing of the response
      unfoldable pub send : Bool → Act (Wire W) Sent
      send otp = do
        e ← on (E.ctx_err ctx)
        require_live e
        t ← on E.unix_milli
        code ← one_time_code otp req.totp_secret
        did ← random_string 32
        let form : List (String × String) = values req code t
        answer ← transmit ctx form (build_request cfg req form did)
        pure (record {
          response = answer.0;
          outcome = parse_response G answer.0 answer.1;
          did = did;
        })

      abbrev header : Option Response → String → String → String
      header none a b = ""
      header (some r) a b =
          if is_empty (lookup a r.headers) then lookup b r.headers else lookup a r.headers

      -- login.go from the error of the response on
      unfoldable pub conclude : Sent → Act (Wire W) AuthState
      conclude x = elim x.outcome [
        | err e ↦ fail (translate_auth G e)
        | ok body ↦
            let did = header x.response "Did" "did" in
            let token = header x.response "Authorization" "authorization" in
            if is_empty (N.trim_space token)
            then fail (
                wrapped ": successful login response missing Authorization header"
                  (sentinel auth_auth_failed))
            else pure (record {
              token = token;
              did = if is_empty did then x.did else did;
              visitor_id = req.visitor_id;
            })
      ]

      abbrev pub totp_required : Result ApiResponse → Bool
      totp_required (ok body) = false
      totp_required (err e) = is_sentinel proto_totp_required e

      -- Client.login, with the number of its calls of itself that it may still make; it calls itself once
      -- at most, and 2 are enough
      unfoldable pub login_fuel : ℕ → Bool → Exec (Wire W) (Option (Result AuthState))
      login_fuel zero otp y = (none, y)
      login_fuel (suc fuel) otp y =
          let (r, y) = send otp y in
          elim r [
            | err e ↦ (some (err e), y)
            | ok x ↦
                let again = login_fuel fuel true y in
                let (a, z) = conclude x y in
                if totp_required x.outcome && not otp then again else (some a, z)
          ]

      abbrev answered : Option (Result AuthState) → Result AuthState
      answered none = err (text "out of fuel")
      answered (some r) = r

      -- Client.Login
      unfoldable pub login : Act (Wire W) AuthState
      unfolding login_fuel
      login =
          if is_empty req.visitor_id
          then fail (text "visitorid is required")
          else (λ y. (let (r, y) = login_fuel 2 false y in (answered r, y)))

    -- GenerateVisitorID, with the clock in nanoseconds
    unfoldable pub generate_visitor_id : Exec W ℕ → Exec W String
    generate_visitor_id unix_nano w =
        let (r, y) = random_string 32 (record { world = w; sent = [] }) in
        elim r [ ok id ↦ (id, y.world) | err e ↦ let (t, w) = unix_nano y.world in (decimal t, w) ]
