-- ===== src/Prelude/Decimal.antt =====
-- Decimal texts: `String(n)` and `BigInt(text)`, and their round trip.
use Prim.Native.Nat.{ℕ, zero, suc, ◌+◌, ◌-◌, ◌*◌, ◌/◌, ◌%◌, ◌^◌, ◌≤◌, ◌<◌}
use mathlib.Core.Path.{◌≡◌, refl, ap}
use mathlib.Core.Bool.{true, false}
use mathlib.Core.List.{List, [], ◌∷◌, ◌++◌}
use mathlib.Core.Logic.{inl, inr}
use native.Mathlib.Nat.{pow-suc, mul-le-mul_right}
use native.Mathlib.Omega.{arith}
use reflo_learning.Prelude.Tests.{ltb, Bool-cases, if◌then◌else◌}
use reflo_learning.Prelude.Lists.{length, replicate, All, All-append, length-append}
use reflo_learning.Prelude.Text.{is_digit}

-- One digit for each unit of fuel; `n + 1` is more than enough for `n`.
digits_from : ℕ → ℕ → List ℕ
digits_from zero n = []
digits_from (suc fuel) n =
    let rest = digits_from fuel (n / 10) in
    if ltb n 10 then (b'0' + n) ∷ [] else rest ++ (b'0' + n % 10) ∷ []

-- `n.toString()`
unfoldable pub to_decimal : ℕ → List ℕ
unfolding digits_from
to_decimal n = digits_from (n + 1) n

unfoldable pub decimal_from : ℕ → List ℕ → ℕ
decimal_from acc [] = acc
decimal_from acc (c ∷ cs) = decimal_from (acc * 10 + (c - b'0')) cs

-- `BigInt(digits)`, and `BigInt("")` is 0.
unfoldable pub of_decimal : List ℕ → ℕ
unfolding decimal_from
of_decimal = decimal_from 0

-- `digits.padStart(width, "0")` and `digits.padEnd(width, "0")`
unfoldable pub pad_start : ℕ → List ℕ → List ℕ
pad_start width cs = replicate (width - length cs) b'0' ++ cs

unfoldable pub pad_end : ℕ → List ℕ → List ℕ
pad_end width cs = cs ++ replicate (width - length cs) b'0'

abbrev pub IsDigits : List ℕ → Type 0
IsDigits = All (λ c. is_digit c ≡ true)

pub decimal_from-append :
    (acc : ℕ) (xs ys : List ℕ) → decimal_from acc (xs ++ ys) ≡ decimal_from (decimal_from acc xs) ys
unfolding decimal_from
decimal_from-append acc [] ys = refl
decimal_from-append acc (x ∷ xs) ys = decimal_from-append (acc * 10 + (x - b'0')) xs ys

decimal_from-digits_from : (fuel n : ℕ) → n < fuel → decimal_from 0 (digits_from fuel n) ≡ n
unfolding digits_from decimal_from
decimal_from-digits_from zero n h = elim h [ ]
decimal_from-digits_from (suc fuel) n h = ground (
  arith,
  decimal_from-digits_from fuel (n / 10),
  decimal_from-append 0 (digits_from fuel (n / 10)) ((b'0' + n % 10) ∷ []),
)

-- Reading a printed number gives it back.
pub of_decimal-to_decimal : (n : ℕ) → of_decimal (to_decimal n) ≡ n
unfolding of_decimal to_decimal
of_decimal-to_decimal n = decimal_from-digits_from (n + 1) n (omega arith)

last_digit : (n : ℕ) → is_digit (b'0' + n % 10) ≡ true
last_digit n = ground arith

digits_from-IsDigits : (fuel n : ℕ) → IsDigits (digits_from fuel n)
unfolding digits_from
digits_from-IsDigits zero n = tt
digits_from-IsDigits (suc fuel) n = elim (Bool-cases (ltb n 10)) [
  | inl small ↦ rw small (ground arith, tt)
  | inr large ↦ rw large (
      All-append _ (digits_from fuel (n / 10)) _ (digits_from-IsDigits fuel (n / 10))
        (last_digit n, tt))
]

pub to_decimal-IsDigits : (n : ℕ) → IsDigits (to_decimal n)
unfolding to_decimal
to_decimal-IsDigits n = digits_from-IsDigits (n + 1) n

length-digits_from : (k fuel n : ℕ) → n < 10 ^ suc k → length (digits_from fuel n) ≤ suc k
unfolding digits_from
length-digits_from k zero n h = omega arith
length-digits_from zero (suc fuel) n h = ground arith
length-digits_from (suc k) (suc fuel) n h = ground (
  arith,
  pow-suc 10 (suc k),
  length-digits_from k fuel (n / 10),
  length-append (digits_from fuel (n / 10)) ((b'0' + n % 10) ∷ []),
)

pub length-to_decimal : (k n : ℕ) → n < 10 ^ suc k → length (to_decimal n) ≤ suc k
unfolding to_decimal
length-to_decimal k n h = length-digits_from k (n + 1) n h

pub decimal_from-zeros : (k : ℕ) → decimal_from 0 (replicate k b'0') ≡ 0
unfolding decimal_from
decimal_from-zeros zero = refl
decimal_from-zeros (suc k) = decimal_from-zeros k

pub of_decimal-pad_start :
    (width : ℕ) (cs : List ℕ) → of_decimal (pad_start width cs) ≡ of_decimal cs
unfolding of_decimal pad_start
of_decimal-pad_start width cs = ground (
  arith,
  decimal_from-append 0 (replicate (width - length cs) b'0') cs,
  decimal_from-zeros (width - length cs),
)

digit_step : (acc c : ℕ) → is_digit c ≡ true → acc * 10 + (c - b'0') + 1 ≤ (acc + 1) * 10
digit_step acc c h = ground arith

-- A text of digits is below the power of ten of its length.
pub decimal_from-lt :
    (acc : ℕ) (cs : List ℕ) → IsDigits cs → decimal_from acc cs < (acc + 1) * 10 ^ length cs
unfolding decimal_from
decimal_from-lt acc [] h = omega arith
decimal_from-lt acc (c ∷ cs) h =
    let step : (acc * 10 + (c - b'0') + 1) * 10 ^ length cs ≤ (acc + 1) * 10 * 10 ^ length cs =
      mul-le-mul_right (10 ^ length cs) (digit_step acc c h.0) in
    omega (
      arith,
      decimal_from-lt (acc * 10 + (c - b'0')) cs h.1,
      step,
      ap (λ (p : ℕ). (acc + 1) * p) (pow-suc 10 (length cs)),
    )

pub of_decimal-lt : (cs : List ℕ) → IsDigits cs → of_decimal cs < 10 ^ length cs
unfolding of_decimal
of_decimal-lt cs h = omega (arith, decimal_from-lt 0 cs h)

pub IsDigits-zeros : (k : ℕ) → IsDigits (replicate k b'0')
IsDigits-zeros zero = tt
IsDigits-zeros (suc k) = (refl, IsDigits-zeros k)

pub length-zeros : (k : ℕ) → length {A = ℕ} (replicate k b'0') ≡ k
length-zeros zero = refl
length-zeros (suc k) = ap suc (length-zeros k)

digits_from-one : (fuel n : ℕ) → n < 10 → digits_from (suc fuel) n ≡ (b'0' + n) ∷ []
unfolding digits_from
digits_from-one fuel n h = let small : ltb n 10 ≡ true = ground arith in rw small refl

digits_from-two :
    (fuel n : ℕ)
    → 10 ≤ n
    → n < 100
    → digits_from (suc (suc fuel)) n ≡ (b'0' + n / 10) ∷ (b'0' + n % 10) ∷ []
unfolding digits_from
digits_from-two fuel n h k =
    let large : ltb n 10 ≡ false = ground arith in
    let one : ltb (n / 10) 10 ≡ true = ground arith in rw (large, one) refl

-- Numbers below 100 have one digit or two.
pub to_decimal-one : (n : ℕ) → n < 10 → to_decimal n ≡ (b'0' + n) ∷ []
unfolding to_decimal
to_decimal-one n h = let e : n + 1 ≡ suc n = omega arith in rw e (digits_from-one n n h)

pub to_decimal-two :
    (n : ℕ) → 10 ≤ n → n < 100 → to_decimal n ≡ (b'0' + n / 10) ∷ (b'0' + n % 10) ∷ []
unfolding to_decimal
to_decimal-two n h k =
    let e : n + 1 ≡ suc (suc (n - 1)) = omega arith in rw e (digits_from-two (n - 1) n h k)
