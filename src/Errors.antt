-- ===== src/Errors.antt =====
-- Go's `error` values. A nil error is `none` of `Option GoError`; what follows is a non-nil one.
-- `errors.Is` and `errors.As` walk the tree that `Unwrap` spans, in pre-order.
use mtlogin.Prelude.{
  ℕ, String, Bool, true, false, ◌||◌, Option, none, some, ◌==◌, ◌≡◌, refl, ◌⊎◌, inl, inr,
}

-- The error variables of the packages, compared by identity.
pub data Sentinel : Type 0 where
  canceled deadline_exceeded : Sentinel
  proto_auth_failed proto_http_status proto_business proto_totp_required : Sentinel
  auth_auth_failed auth_http_status auth_business auth_totp_required : Sentinel
  browse_auth_failed browse_http_status browse_business browse_totp_required : Sentinel
  browse_request_build : Sentinel
  conf_read conf_parse conf_invalid : Sentinel
  tls_client_closed manager_closed not_supported : Sentinel

-- Two variables are the same exactly if their numbers are.
abbrev pub number : Sentinel → ℕ
number canceled = 0
number deadline_exceeded = 1
number proto_auth_failed = 2
number proto_http_status = 3
number proto_business = 4
number proto_totp_required = 5
number auth_auth_failed = 6
number auth_http_status = 7
number auth_business = 8
number auth_totp_required = 9
number browse_auth_failed = 10
number browse_http_status = 11
number browse_business = 12
number browse_totp_required = 13
number browse_request_build = 14
number conf_read = 15
number conf_parse = 16
number conf_invalid = 17
number tls_client_closed = 18
number manager_closed = 19
number not_supported = 20

-- `text` is an `errors.New` or a `fmt.Errorf` without `%w`, made where it is returned: it equals no
-- other error. `wrapped` is a `fmt.Errorf` with one `%w`. `coded` is a `domain.Error` whose Cause
-- is nil, and `caused` one with a Cause. `joined` is an `errors.Join`.
-- An errors.Join of one error is that error here: its text, errors.Is and errors.As are the same.
pub data GoError : Type 0 where
  sentinel : Sentinel → GoError
  text : String → GoError
  wrapped : String → GoError → GoError
  coded : ℕ → String → GoError
  caused : ℕ → String → GoError → GoError
  joined : GoError → GoError → GoError

-- errors.Is(err, v) for an error variable v
unfoldable pub is_sentinel : Sentinel → GoError → Bool
is_sentinel v (sentinel u) = number u == number v
is_sentinel v (text _) = false
is_sentinel v (wrapped _ e) = is_sentinel v e
is_sentinel v (coded _ _) = false
is_sentinel v (caused _ _ e) = is_sentinel v e
is_sentinel v (joined e f) = is_sentinel v e || is_sentinel v f

-- A Go function that returns a value and an error, the value read only where the error is nil.
pub data Result {ℓ} (A : Type ℓ) : Type ℓ where
  ok : A → Result A
  err : GoError → Result A

abbrev pub error_of {ℓ} : {A : Type ℓ} → Result A → Option GoError
error_of (ok _) = none
error_of (err e) = some e

abbrev pub is_ok {ℓ} : {A : Type ℓ} → Result A → Bool
is_ok (ok _) = true
is_ok (err _) = false

pub Result-cases {ℓ} :
    {A : Type ℓ} (r : Result A) → ((a : A) × (r ≡ ok a)) ⊎ ((e : GoError) × (r ≡ err e))
Result-cases (ok a) = inl (a, refl)
Result-cases (err e) = inr (e, refl)

-- A function that acts on a state and may fail; what it did before the error stays done.
abbrev pub Act : Type 0 → Type 0 → Type 0
Act S A = S → Result A × S

module _ {S A : Type 0} where
  abbrev pub pure : A → Act S A
  pure a s = (ok a, s)

  abbrev pub fail : GoError → Act S A
  fail e s = (err e, s)

module _ {S A B : Type 0} where
  abbrev pub continue : Result A → (A → Act S B) → Act S B
  continue (ok a) f s = f a s
  continue (err e) f s = (err e, s)

  infixl 5 ◌>>=◌ ◌>>◌
  abbrev pub ◌>>=◌ : Act S A → (A → Act S B) → Act S B
  ◌>>=◌ m f s = let (r, s') = m s in continue r f s'

  abbrev pub ◌>>◌ : Act S A → Act S B → Act S B
  m >> n = m >>= λ _. n
