-- ===== src/Assessment/Threshold.antt =====
-- packages/assessment/src/service.ts: the text of `formatUnit` as `parseExactUnit` reads it, and the
-- confidence that counts.
use reflo_learning.Prelude.{
  ℕ, suc, ◌≤◌, ◌≡◌, refl, ap, ◌∙◌, ◌↔◌, inl, inr, String, true, List, [], ◌∷◌, ok, leb, ◌==◌,
  length, all, arith, Bool-cases, is_digit, units, units_eq,
}
use reflo_learning.Prelude.Decimal.{IsDigits, of_decimal, to_decimal, pad_start}
use reflo_learning.Knowledge.Contracts.{score_quanta}
use reflo_learning.Knowledge.Replay.Ratio.{round_ratio, rounded_quanta, five_places}
use reflo_learning.Knowledge.Replay.Rounding.{
  IsNearest, rounded_quanta-IsNearest, rounded_quanta-le, five_places-fraction,
}
use reflo_learning.Assessment.Contracts.{
  ModelCallProvenance, FrozenGradingPolicy, ShortAnswerRubricInput, ShortAnswerRubricBand, scored,
  ratio, AssessmentEvidenceCandidate,
}
use reflo_learning.Assessment.Rules.{parse_unit, format_unit}
use reflo_learning.Assessment.Judgments.{JudgmentIds, judge, scored_evidence}

all_digits : (fs : List ℕ) → IsDigits fs → all is_digit fs ≡ true
all_digits [] p = refl
all_digits (f ∷ fs) (p, ps) = rw (p, all_digits fs ps) refl

parse_unit-fraction :
    (fs : List ℕ) → IsDigits fs → length fs ≡ 5 → parse_unit (b'0' ∷ b'.' ∷ fs) ≡ ok (of_decimal fs)
unfolding parse_unit
parse_unit-fraction fs p l = rw (l, all_digits fs p) refl

parse_unit-one : parse_unit (five_places (pad_start 6 (to_decimal score_quanta))) ≡ ok score_quanta
unfolding parse_unit five_places pad_start to_decimal units units_eq
parse_unit-one = refl

-- A number of hundred-thousandths up to 1, printed with five places, parses to itself.
parse_unit-five_places :
    (r : ℕ) → r ≤ score_quanta → parse_unit (five_places (pad_start 6 (to_decimal r))) ≡ ok r
parse_unit-five_places r h = elim (Bool-cases (r == score_quanta)) [
  | inl top ↦ let e : r ≡ score_quanta = ground arith in rw e parse_unit-one
  | inr small ↦
      let (fs, shape, p, l, value) = five_places-fraction r (ground arith) in
      rw shape (parse_unit-fraction fs p l ∙ ap ok value)
]

-- A confidence from 0 to 1 always gives evidence, and the evidence counts exactly when the nearest
-- number of hundred-thousandths reaches the threshold.
pub judge-reaches :
    (ids : JudgmentIds) (policy : FrozenGradingPolicy) (provenance : ModelCallProvenance)
    (threshold : ℕ) (r : ShortAnswerRubricInput) (concept : String) (n d : ℕ)
    (band : ShortAnswerRubricBand)
    → n ≤ suc d
    → (e : AssessmentEvidenceCandidate) × (q : ℕ) × (judge ids policy provenance threshold r
          (scored concept (ratio n d) band)
        ≡ ok e)
      × IsNearest n (suc d) q
      × ((e.eligible_for_mastery ≡ true) ↔ (threshold ≤ q))
unfolding judge format_unit round_ratio
judge-reaches ids policy provenance threshold r concept n d band h =
    let q = rounded_quanta n (suc d) in
    let most = rounded_quanta-le n (suc d) (omega arith) h in
    let fits : leb n (suc d) ≡ true = ground arith in
    let e =
      scored_evidence ids policy provenance r (round_ratio n (suc d)) band (leb threshold q) in
    (
      e,
      q,
      rw (fits, parse_unit-five_places q most) refl,
      rounded_quanta-IsNearest n (suc d) (omega arith),
      ground arith,
    )
