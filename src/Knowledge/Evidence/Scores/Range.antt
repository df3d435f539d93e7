-- ===== src/Knowledge/Evidence/Scores/Range.antt =====
-- The range of `parseScoreQuanta`.
use mathlib.Core.Path.{subst}
use reflo_learning.Prelude.{
  ℕ, zero, suc, ◌-◌, ◌≤◌, ◌<◌, ◌^◌, ◌≡◌, refl, ◌∙◌, inl, inr, true, some, List, [], ◌∷◌, ◌++◌, ok,
  ◌==◌, span_digits, all, arith, length, replicate, is_digit, All-append, Option-cases, Bool-cases,
  length-append,
}
use reflo_learning.Prelude.Decimal.{
  of_decimal, decimal_from, pad_end, IsDigits, IsDigits-zeros, of_decimal-lt, decimal_from-zeros,
  length-zeros, decimal_from-append,
}
use reflo_learning.Knowledge.Contracts.{score_quanta}
use reflo_learning.Knowledge.Evidence.Scores.{fraction, score_of, parse_score_quanta}

-- What `\d{0,n}` takes: at most `n` digits.
span_digits_lem :
    (n : ℕ) (cs : List ℕ) → IsDigits (span_digits n cs).0 × (length (span_digits n cs).0 ≤ n)
unfolding span_digits
span_digits_lem zero cs = (tt, omega arith)
span_digits_lem (suc n) [] = (tt, omega arith)
span_digits_lem (suc n) (c ∷ cs) = elim (Bool-cases (is_digit c)) [
  | inl e ↦ let (d, l) = span_digits_lem n cs in rw e ((e, d), omega arith)
  | inr e ↦ rw e (tt, omega arith)
]

fraction_lem :
    (cs digits : List ℕ) → fraction cs ≡ some digits → IsDigits digits × (length digits ≤ 5)
unfolding fraction
fraction_lem [] digits h =
    let e : [] ≡ digits = cc in subst (λ ds. IsDigits ds × (length ds ≤ 5)) e (tt, omega arith)
fraction_lem (c ∷ cs) digits h =
    let e : (span_digits 5 cs).0 ≡ digits = ground arith in
    subst (λ ds. IsDigits ds × (length ds ≤ 5)) e (span_digits_lem 5 cs)

pad_end-lt :
    (digits : List ℕ)
    → IsDigits digits
    → length digits ≤ 5
    → of_decimal (pad_end 5 digits) < score_quanta
unfolding pad_end
pad_end-lt digits d l =
    let padding = replicate (5 - length digits) b'0' in
    let size : length (digits ++ padding) ≡ 5 =
      omega (arith, length-append digits padding, length-zeros (5 - length digits)) in
    let below : of_decimal (digits ++ padding) < 10 ^ length (digits ++ padding) =
      of_decimal-lt (digits ++ padding)
        (All-append _ digits padding d (IsDigits-zeros (5 - length digits))) in
    subst (λ (n : ℕ). of_decimal (digits ++ padding) < 10 ^ n) size below

zeros_value : (digits : List ℕ) → all (λ c. c == b'0') digits ≡ true → decimal_from 0 digits ≡ 0
unfolding decimal_from
zeros_value [] h = refl
zeros_value (c ∷ cs) h = ground (arith, zeros_value cs)

padded_zeros :
    (digits : List ℕ) → all (λ c. c == b'0') digits ≡ true → of_decimal (pad_end 5 digits) ≡ 0
unfolding of_decimal pad_end
padded_zeros digits h =
    decimal_from-append 0 digits (replicate (5 - length digits) b'0')
    ∙ (rw (zeros_value digits h) (decimal_from-zeros (5 - length digits)))

-- A score that parses lies between 0 and 1.
pub parse_score_quanta-le : (cs : List ℕ) {q : ℕ} → parse_score_quanta cs ≡ ok q → q ≤ score_quanta
unfolding parse_score_quanta score_of
parse_score_quanta-le [] h = cc
parse_score_quanta-le (w ∷ cs) h = elim (Option-cases (fraction cs)) [
  | inl e ↦ cc
  | inr (digits, e) ↦
      let (d, l) = fraction_lem cs digits e in
      ground (arith, pad_end-lt digits d l, padded_zeros digits)
]
