-- ===== src/Decimal.antt =====
-- Numbers in decimal, as `fmt` prints them by `%d` and `%06d`.
use Prim.Native.String.{len}
use text.Mathlib.TextPositions.{len-append}
use mtlogin.Prelude.{
  Bool, true, ◌<◌, eq_iff, refl, ap, Bool-cases, inl, inr, ◌≡◌, false, is_empty, arith, ℕ, zero,
  suc, ◌/◌, ◌%◌, String, ◌<>◌, ◌==◌, ltb, if◌then◌else◌,
}

abbrev pub digit : ℕ → String
digit d =
    if d == 0
    then "0"
    else if d == 1
    then "1"
    else if d == 2
    then "2"
    else if d == 3
    then "3"
    else if d == 4
    then "4"
    else if d == 5
    then "5"
    else if d == 6
    then "6"
    else if d == 7
    then "7"
    else if d == 8
    then "8"
    else "9"

-- The last k digits of n.
unfoldable pub last_digits : ℕ → ℕ → String
last_digits zero n = ""
last_digits (suc k) n = last_digits k (n / 10) <> digit (n % 10)

unfoldable pub decimal_fuel : ℕ → ℕ → String
decimal_fuel zero n = digit n
decimal_fuel (suc f) n =
    let front = decimal_fuel f (n / 10) in if ltb n 10 then digit n else front <> digit (n % 10)

-- `%d`: a number has at most as many digits as its value, so the fuel is enough.
unfoldable pub decimal : ℕ → String
unfolding decimal_fuel
decimal n = decimal_fuel n n

-- `%06d`
unfoldable pub decimal6 : ℕ → String
unfolding last_digits decimal
decimal6 n = if ltb n 1000000 then last_digits 6 n else decimal n

-- A number has a digit.
len-if : (b : Bool) (s t : String) → len s ≡ 1 → len t ≡ 1 → len (if b then s else t) ≡ 1
len-if true s t h k = h
len-if false s t h k = k

len-digit : (d : ℕ) → len (digit d) ≡ 1
len-digit d = len-if (d == 0) _ _ refl (
    len-if (d == 1) _ _ refl (
      len-if (d == 2) _ _ refl (
        len-if (d == 3) _ _ refl (
          len-if (d == 4) _ _ refl (
            len-if (d == 5) _ _ refl (
              len-if (d == 6) _ _ refl
                (len-if (d == 7) _ _ refl (len-if (d == 8) "8" "9" refl refl))))))))

len-decimal_fuel : (f n : ℕ) → 0 < len (decimal_fuel f n)
unfolding decimal_fuel
len-decimal_fuel zero n = omega (arith, len-digit n)
len-decimal_fuel (suc f) n = elim (Bool-cases (ltb n 10)) [
  | inl h ↦ rw (h) (omega (arith, len-digit n))
  | inr h ↦
      rw (h)
        (omega (arith, len-append (decimal_fuel f (n / 10)) (digit (n % 10)), len-digit (n % 10)))
]

len-nothing : len "" ≡ 0
len-nothing = refl

pub is_empty_of_len : (s : String) → 0 < len s → is_empty s ≡ false
is_empty_of_len s h = elim (Bool-cases (is_empty s)) [
  | inr p ↦ p
  | inl p ↦ ground (arith, ap len ((eq_iff s "").0 p), len-nothing)
]

pub is_empty-decimal : (n : ℕ) → is_empty (decimal n) ≡ false
unfolding decimal
is_empty-decimal n = is_empty_of_len (decimal n) (len-decimal_fuel n n)
