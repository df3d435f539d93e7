-- ===== src/Knowledge/Evidence/Soundness.antt =====
-- What holds of evidence that `validateEvidence` accepts, and so of every item of the canonical list.
use reflo_learning.Prelude.{
  ℕ, ◌≤◌, ◌≡◌, ◌≢◌, ◌⊎◌, String, true, false, not, ◌&&◌, Option, none, some, List, [], ◌∷◌, map, ok,
  >>=-eq-ok, ok-injective, All, All-append, arith, ===_iff, units,
}
use mathlib.Core.Path.{subst}
use reflo_learning.Knowledge.Evidence.Merge.{Merged, added, known, observe-ok}
use reflo_learning.Prelude.Sorting.{sort-All}
use reflo_learning.Knowledge.Contracts.{PerConceptEvidence, Instant, score_quanta}
use reflo_learning.Knowledge.Evidence.{
  ValidatedEvidence, Unique, is_some, optional_score, bad_rating, bad_outcome, validate_evidence,
  evidence_identity, observe, observe_all, canonicalize_evidence, compare_evidence,
}
use reflo_learning.Knowledge.Evidence.Scores.Range.{parse_score_quanta-le}

-- Evidence that counts towards mastery is graded, has a score and a rating, and a score is at most 1.
pub record IsSound (v : ValidatedEvidence) : Type 0 where
  pub score_le : (q : ℕ) → v.score_quanta ≡ some q → q ≤ score_quanta
  pub scored : v.evidence.eligible_for_mastery ≡ true → v.score_quanta ≢ none
  pub rated :
      v.evidence.eligible_for_mastery ≡ true
      → (v.evidence.fsrs_rating ≡ some 1) ⊎ (v.evidence.fsrs_rating ≡ some 3)
  pub graded : v.evidence.eligible_for_mastery ≡ true → v.evidence.attempt_outcome ≡ "graded"

optional_score-le :
    (s : Option String) (o : Option ℕ) (q : ℕ)
    → optional_score s ≡ ok o
    → o ≡ some q
    → q ≤ score_quanta
unfolding optional_score
optional_score-le none o q h e = cc
optional_score-le (some s) o q h e = ground (arith, parse_score_quanta-le (units s) {q = q})

rating_lem : (r : Option ℕ) → bad_rating true r ≡ false → (r ≡ some 1) ⊎ (r ≡ some 3)
unfolding bad_rating
rating_lem r h = ground arith

outcome_lem :
    (e : PerConceptEvidence)
    → bad_outcome e ≡ false
    → e.eligible_for_mastery ≡ true
    → e.attempt_outcome ≡ "graded"
unfolding bad_outcome
outcome_lem e h k = ground (arith, ===_iff e.attempt_outcome "graded")

-- What the guards of `validateEvidence` leave.
record IsAccepted (e : PerConceptEvidence) (v : ValidatedEvidence) : Type 0 where
  same : v.evidence ≡ e
  outcome : bad_outcome e ≡ false
  score : optional_score e.score ≡ ok v.score_quanta
  scored : (e.eligible_for_mastery && not (is_some v.score_quanta)) ≡ false
  rating : bad_rating e.eligible_for_mastery e.fsrs_rating ≡ false

module _ (date_parse : List ℕ → Option Instant) where
  validate_evidence-IsAccepted :
      (e : PerConceptEvidence) (v : ValidatedEvidence)
      → validate_evidence date_parse e ≡ ok v
      → IsAccepted e v
  unfolding validate_evidence
  validate_evidence-IsAccepted e v h = ground arith

IsSound-of_IsAccepted :
    (e : PerConceptEvidence) (v : ValidatedEvidence) → IsAccepted e v → IsSound v
IsSound-of_IsAccepted e v a = record {
  score_le = λ q. optional_score-le e.score v.score_quanta q a.score;
  scored = λ k n. ground arith;
  rated = λ k. rating_lem v.evidence.fsrs_rating (ground arith);
  graded = λ k. outcome_lem v.evidence (ground arith) k;
}

abbrev pub AreSound : Unique → Type 0
AreSound = All (λ entry. IsSound entry.1)

Merged-AreSound :
    (m : Unique) (k : List ℕ) (v : ValidatedEvidence) {m' : Unique}
    → IsSound v
    → AreSound m
    → Merged m k v m'
    → AreSound m'
Merged-AreSound m k v s h (added _ e) = subst AreSound e (All-append _ m ((k, v) ∷ []) h (s, tt))
Merged-AreSound m k v s h (known p _ _ e) = subst AreSound e h

values-IsSound : (m : Unique) → AreSound m → All IsSound (map (λ entry. entry.1) m)
values-IsSound [] h = tt
values-IsSound (entry ∷ m) h = (h.0, values-IsSound m h.1)

module _ (date_parse : List ℕ → Option Instant) where
  observe_all-AreSound :
      (m : Unique) (es : List PerConceptEvidence) {m' : Unique}
      → AreSound m
      → observe_all date_parse m es ≡ ok m'
      → AreSound m'
  unfolding observe_all observe
  observe_all-AreSound m [] h e = subst AreSound (ok-injective e) h
  observe_all-AreSound m (x ∷ es) h e =
      let (m₁, seen, rest) = >>=-eq-ok (observe date_parse m x) _ e in
      let (v, valid, merged) = observe-ok date_parse m x seen in
      let s : IsSound v =
        IsSound-of_IsAccepted x v (validate_evidence-IsAccepted date_parse x v valid) in
      observe_all-AreSound m₁ es (Merged-AreSound m (evidence_identity x) v s h merged) rest

  -- Every item of the canonical list has a score of at most 1, and if it counts towards mastery it
  -- is graded and has a score and a rating of 1 or 3.
  pub canonicalize_evidence-IsSound :
      (es : List PerConceptEvidence) {items : List ValidatedEvidence}
      → canonicalize_evidence date_parse es ≡ ok items
      → All IsSound items
  unfolding canonicalize_evidence
  canonicalize_evidence-IsSound es e =
      let (m, seen, sorted) = >>=-eq-ok (observe_all date_parse [] es) _ e in
      subst (All IsSound) (ok-injective sorted) (
        sort-All compare_evidence IsSound _ (values-IsSound m (observe_all-AreSound [] es tt seen)))
