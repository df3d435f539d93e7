-- ===== src/Knowledge/Replay/Rounding.antt =====
-- `roundRatio` prints the nearest number of five decimals, and its text is a score that parses.
use native.Mathlib.Nat.{div-add-mod, mod-lt, mul-le-mul_right}
use native.Mathlib.Decide.{dec_le}
use mathlib.Core.List.{append-nil}
use reflo_learning.Prelude.{
  ℕ, zero, suc, ◌+◌, ◌*◌, ◌-◌, ◌/◌, ◌%◌, ◌≤◌, ◌<◌, ◌≡◌, refl, ap, ◌∙◌, inl, inr, true, false, some,
  List, [], ◌∷◌, ok, leb, ◌==◌, arith, length, replicate, span_digits, Bool-cases, leb→le,
  All-append, length-append,
}
use reflo_learning.Prelude.Decimal.{
  of_decimal, to_decimal, pad_start, of_decimal-pad_start, of_decimal-to_decimal, IsDigits,
  IsDigits-zeros, length-zeros, to_decimal-IsDigits, length-to_decimal, pad_end,
}
use reflo_learning.Knowledge.Contracts.{score_quanta}
use reflo_learning.Knowledge.Evidence.Scores.{parse_score_quanta, fraction, score_of}
use reflo_learning.Knowledge.Replay.Ratio.{round_ratio, rounded_quanta, five_places}

-- `r` hundred-thousandths are as near to n / d as any, and a half is rounded up.
pub record IsNearest (n d r : ℕ) : Type 0 where
  pub not_above : 2 * (r * d) ≤ 2 * (n * score_quanta) + d
  pub not_below : 2 * (n * score_quanta) < 2 * (r * d) + d

round_up :
    (m d q x : ℕ)
    → leb d (x * 2) ≡ true
    → d * q + x ≡ m
    → x < d
    → (2 * ((q + 1) * d) ≤ 2 * m + d) × (2 * m < 2 * ((q + 1) * d) + d)
round_up m d q x u e l = let u' : d ≤ x * 2 = leb→le d (x * 2) u in omega arith

round_down :
    (m d q x : ℕ)
    → leb d (x * 2) ≡ false
    → d * q + x ≡ m
    → (2 * (q * d) ≤ 2 * m + d) × (2 * m < 2 * (q * d) + d)
round_down m d q x u e = let u' : x * 2 < d = ground arith in omega arith

pub rounded_quanta-IsNearest : (n d : ℕ) → 0 < d → IsNearest n d (rounded_quanta n d)
unfolding rounded_quanta
rounded_quanta-IsNearest n d h =
    let m = n * score_quanta in
    elim (Bool-cases (leb d (m % d * 2))) [
      | inl up ↦
          let (a, b) = round_up m d (m / d) (m % d) up (div-add-mod m d) (mod-lt m h) in
          rw up (record { not_above = a; not_below = b })
      | inr down ↦
          let (a, b) = round_down m d (m / d) (m % d) down (div-add-mod m d) in
          rw down (record { not_above = a; not_below = b })
    ]

-- A ratio of at most 1 is rounded to at most 1.
pub rounded_quanta-le : (n d : ℕ) → 0 < d → n ≤ d → rounded_quanta n d ≤ score_quanta
rounded_quanta-le n d h l =
    let near = rounded_quanta-IsNearest n d h in
    elim (dec_le (rounded_quanta n d) score_quanta) [
      | yes small ↦ small
      | no large ↦
          let over : (score_quanta + 1) * d ≤ rounded_quanta n d * d =
            mul-le-mul_right d (omega arith) in
          absurd (omega (arith, near.not_above, over))
    ]

span_digits_all : (n : ℕ) (fs : List ℕ) → IsDigits fs → length fs ≡ n → span_digits n fs ≡ (fs, [])
unfolding span_digits
span_digits_all zero [] p l = refl
span_digits_all zero (f ∷ fs) p l = absurd (omega arith)
span_digits_all (suc n) [] p l = absurd (omega arith)
span_digits_all (suc n) (f ∷ fs) p l = rw (p.0, span_digits_all n fs p.1 (omega arith))

five_fraction : (fs : List ℕ) → IsDigits fs → length fs ≡ 5 → fraction (b'.' ∷ fs) ≡ some fs
unfolding fraction
five_fraction [] p l = absurd (omega arith)
five_fraction (f ∷ fs) p l = rw (span_digits_all 5 (f ∷ fs) p l)

five_score : (fs : List ℕ) → length fs ≡ 5 → score_of b'0' fs ≡ ok (of_decimal fs)
unfolding score_of pad_end
five_score fs l =
    let none_left : 5 - length fs ≡ 0 = omega arith in
    rw (none_left, append-nil) (ap ok (omega arith))

zero_whole : (fs : List ℕ) → length fs ≡ 5 → five_places (b'0' ∷ fs) ≡ b'0' ∷ b'.' ∷ fs
unfolding five_places
zero_whole fs l = let one : length (b'0' ∷ fs) - 5 ≡ 1 = omega arith in rw one

five_score_text :
    (fs : List ℕ)
    → IsDigits fs
    → length fs ≡ 5
    → parse_score_quanta (b'0' ∷ b'.' ∷ fs) ≡ ok (of_decimal fs)
unfolding parse_score_quanta
five_score_text fs p l = rw (five_fraction fs p l, parse_score_quanta) (five_score fs l)

exactly_one :
    parse_score_quanta (five_places (pad_start 6 (to_decimal score_quanta))) ≡ ok score_quanta
unfolding parse_score_quanta fraction score_of five_places pad_start to_decimal span_digits
    of_decimal pad_end
exactly_one = refl

pad_six :
    (r : ℕ)
    → length (to_decimal r) ≤ 5
    → pad_start 6 (to_decimal r) ≡ b'0' ∷ pad_start 5 (to_decimal r)
unfolding pad_start
pad_six r h =
    let e : 6 - length (to_decimal r) ≡ suc (5 - length (to_decimal r)) = omega arith in rw e

pad_five :
    (cs : List ℕ)
    → IsDigits cs
    → length cs ≤ 5
    → IsDigits (pad_start 5 cs) × (length (pad_start 5 cs) ≡ 5)
unfolding pad_start
pad_five cs p h = (
  All-append _ (replicate (5 - length cs) b'0') cs (IsDigits-zeros (5 - length cs)) p,
  omega (arith, length-append (replicate (5 - length cs) b'0') cs, length-zeros (5 - length cs)),
)

-- A number below 1 is printed as a zero, a point and five digits.
pub five_places-fraction :
    (r : ℕ)
    → r < score_quanta
    → (fs : List ℕ) × (five_places (pad_start 6 (to_decimal r)) ≡ b'0' ∷ b'.' ∷ fs)
      × IsDigits fs
      × (length fs ≡ 5)
      × (of_decimal fs ≡ r)
five_places-fraction r h =
    let fits : length (to_decimal r) ≤ 5 = length-to_decimal 4 r (omega arith) in
    let (p, l) = pad_five (to_decimal r) (to_decimal-IsDigits r) fits in
    (
      pad_start 5 (to_decimal r),
      rw (pad_six r fits) (zero_whole (pad_start 5 (to_decimal r)) l),
      p,
      l,
      of_decimal-pad_start 5 (to_decimal r) ∙ of_decimal-to_decimal r,
    )

-- A number of hundred-thousandths up to 1, printed with five places, parses to itself.
pub parse_score_quanta-five_places :
    (r : ℕ)
    → r ≤ score_quanta
    → parse_score_quanta (five_places (pad_start 6 (to_decimal r))) ≡ ok r
parse_score_quanta-five_places r h = elim (Bool-cases (r == score_quanta)) [
  | inl top ↦ let e : r ≡ score_quanta = ground arith in rw e exactly_one
  | inr small ↦
      let (fs, shape, p, l, value) = five_places-fraction r (ground arith) in
      rw shape (five_score_text fs p l ∙ ap ok value)
]

-- The printed ratio of a number to one that is positive and not smaller, read as a score, is the
-- nearest number of hundred-thousandths.
pub round_ratio-IsNearest :
    (n d : ℕ)
    → 0 < d
    → n ≤ d
    → (r : ℕ) × (parse_score_quanta (round_ratio n d) ≡ ok r) × IsNearest n d r
unfolding round_ratio
round_ratio-IsNearest n d h l = (
  rounded_quanta n d,
  parse_score_quanta-five_places (rounded_quanta n d) (rounded_quanta-le n d h l),
  rounded_quanta-IsNearest n d h,
)
