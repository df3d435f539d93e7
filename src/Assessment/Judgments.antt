-- ===== src/Assessment/Judgments.antt =====
-- packages/assessment/src/service.ts: `normalizeJudgments`, the evidence of an attempt that abstains,
-- and `buildReplacementBundle`. UUIDs and digests of canonical JSON are parameters.
use reflo_learning.Prelude.{
  ℕ, String, Bool, true, false, not, ◌&&◌, ◌||◌, Option, none, some, List, [], ◌∷◌, map, ok, err,
  ◌>>=◌, ◌>>◌, throw_if, length, any, find, leb, ◌==◌, ◌===◌, if◌then◌else◌, units, compare_units,
}
use reflo_learning.Prelude.Sorting.{sort}
use reflo_learning.Prelude.TextSets.{has}
use reflo_learning.Assessment.Contracts.{
  ShortAnswerRubricBand, fallback_unavailable, invalid_result, ModelCallProvenance,
  FrozenGradingPolicy, ShortAnswerRubricInput, ShortAnswerQuestion, KeyedMultipleChoiceQuestion,
  ShortAnswerJudgment, scored, unanswerable, EvidenceIneligibilityReason, attempt_abstained,
  below_threshold, semantic_unanswerable, Judged, judged_score, judged_unanswerable,
  AssessmentEvidenceCandidate, ReplacementItemSnapshot, ReplacementBundleSnapshot,
  AuthorizedShortAnswerSnapshot,
}
use reflo_learning.Assessment.Rules.{
  Throws, set_of, parse_unit, format_unit, rating_for, score_for, is_about, concepts_of,
}

pub record JudgmentIds : Type 0 where
  pub rationale_digest : String → Option String → String → String
  pub item_uuid : String → String → String → String
  pub bundle_uuid : List String → String → String → String

abbrev pub concept_of : ShortAnswerJudgment → String
concept_of (scored concept confidence band) = concept
concept_of (unanswerable concept reason) = concept

-- The `Map` `byConcept`: of two judgments of one concept, the later is kept.
unfoldable pub by_concept : String → List ShortAnswerJudgment → Option ShortAnswerJudgment
by_concept concept [] = none
by_concept concept (j ∷ js) = elim (by_concept concept js) [
  | some later ↦ some later
  | none ↦ if concept_of j === concept then some j else none
]

module _ (ids : JudgmentIds) (policy : FrozenGradingPolicy) (provenance : ModelCallProvenance) where
  abbrev pub evidence_of :
      ShortAnswerRubricInput
      → Bool
      → Option ℕ
      → Option EvidenceIneligibilityReason
      → Judged
      → AssessmentEvidenceCandidate
  evidence_of r eligible rating reason judged = record {
    concept_id = r.concept_id;
    eligible_for_mastery = eligible;
    fsrs_rating = rating;
    ineligibility_reason = reason;
    judged = judged;
    rationale_ref =
        ids.rationale_digest r.concept_id provenance.prompt_digest policy.grading_policy_version;
    rubric_id = r.rubric_id;
    rubric_version = r.rubric_version;
  }

  abbrev pub scored_evidence :
      ShortAnswerRubricInput
      → List ℕ
      → ShortAnswerRubricBand
      → (eligible : Bool) → AssessmentEvidenceCandidate
  scored_evidence r text band eligible =
      evidence_of r eligible (if eligible then some (rating_for band) else none)
        (if eligible then none else some below_threshold) (judged_score text band (score_for band))

  -- The evidence of one rubric from its judgment.
  unfoldable pub judge :
      ℕ → ShortAnswerRubricInput → ShortAnswerJudgment → Throws AssessmentEvidenceCandidate
  judge threshold r (unanswerable concept reason) =
      ok (evidence_of r false none (some semantic_unanswerable) (judged_unanswerable reason))
  judge threshold r (scored concept confidence band) = do
    text ← format_unit confidence
    q ← parse_unit text
    ok (scored_evidence r text band (leb threshold q))

  unfoldable pub judge_all :
      ℕ
      → List ShortAnswerJudgment
      → List ShortAnswerRubricInput
      → Throws (List AssessmentEvidenceCandidate)
  judge_all threshold judgments [] = ok []
  judge_all threshold judgments (r ∷ rs) = do
    e ← elim (by_concept r.concept_id judgments) [
      | none ↦ err invalid_result
      | some j ↦ judge threshold r j
    ]
    es ← judge_all threshold judgments rs
    ok (e ∷ es)

  unfoldable pub normalize_judgments :
      ShortAnswerQuestion → List ShortAnswerJudgment → Throws (List AssessmentEvidenceCandidate)
  normalize_judgments question judgments = do
    let expected = set_of [] (concepts_of question.rubrics)
    let answered = map concept_of judgments
    throw_if
        (not (length judgments == length expected)
          || not (length (set_of [] answered) == length expected)
          || any (λ concept. not (has concept expected)) answered)
        invalid_result
    threshold ← parse_unit (units policy.confidence_threshold)
    judge_all threshold judgments question.rubrics

-- `abstained` of `gradeShortAnswer`.
unfoldable pub has_abstained : List AssessmentEvidenceCandidate → Bool
has_abstained = any (λ (e : AssessmentEvidenceCandidate). not e.eligible_for_mastery)

abbrev pub is_scored : Judged → Bool
is_scored (judged_unanswerable reason) = false
is_scored _ = true

unfoldable pub withhold : AssessmentEvidenceCandidate → AssessmentEvidenceCandidate
withhold e =
    if is_scored e.judged && e.eligible_for_mastery
    then record e {
      eligible_for_mastery = false;
      fsrs_rating = none;
      ineligibility_reason = some attempt_abstained;
    }
    else e

-- `finalizedEvidence`.
unfoldable pub finalized_evidence :
    List AssessmentEvidenceCandidate → List AssessmentEvidenceCandidate
finalized_evidence es = if has_abstained es then map withhold es else es

module _ (ids : JudgmentIds) (policy : FrozenGradingPolicy) (attempt_id : String) where
  unfoldable pub replacement_items :
      List KeyedMultipleChoiceQuestion
      → List ShortAnswerRubricInput
      → Throws (List ReplacementItemSnapshot)
  replacement_items candidates [] = ok []
  replacement_items candidates (r ∷ rs) = do
    q ← elim (find (is_about r.concept_id) candidates) [
      | none ↦ err fallback_unavailable
      | some q ↦ ok q
    ]
    items ← replacement_items candidates rs
    ok (
        record {
          concept_id = r.concept_id;
          id = ids.item_uuid r.concept_id attempt_id policy.grading_policy_version;
          question = q;
        }
        ∷ items)

  unfoldable pub build_replacement_bundle :
      AuthorizedShortAnswerSnapshot → Throws ReplacementBundleSnapshot
  build_replacement_bundle snapshot = do
    items ← replacement_items snapshot.fallback_candidates snapshot.question.rubrics
    ok (record {
      id =
          ids.bundle_uuid
            (sort (λ x y. compare_units (units x) (units y))
              (concepts_of snapshot.question.rubrics))
            attempt_id policy.grading_policy_version;
      items = items;
      original_attempt_id = attempt_id;
    })
