-- ===== src/Assessment/Contracts.antt =====
-- packages/assessment/src/contracts.ts and errors.ts, and the rubrics and judgments of the router's
-- contracts.ts. A text that the types fix and no code tests (a version, a kind) is left out, and of a
-- source span only the id is kept. A number that is neither from 0 to 1 nor a fraction is `off_scale`.
use reflo_learning.Prelude.{ℕ, String, Bool, Option, List}

abbrev pub grading_policy_version : String
grading_policy_version = "grading-policy-v1"

abbrev pub rating_mapping_version : String
rating_mapping_version = "rating-mapping-v1"

pub data AssessmentErrorCode : Type 0 where
  authorization_denied conflicting_duplicate fallback_unavailable : AssessmentErrorCode
  grading_unavailable grading_in_progress invalid_configuration invalid_input : AssessmentErrorCode
  invalid_result projection_unavailable question_unavailable : AssessmentErrorCode

-- What a policy expects of a call's provenance; `none` is a key that is missing.
pub record ExpectedProvenance : Type 0 where
  pub effective_model : String
  pub effective_model_version : String
  pub generation_parameters_version : Option String
  pub input_schema_version : String
  pub prompt_definition_digest : Option String
  pub prompt_id : Option String
  pub prompt_version : Option String
  pub result_schema_version : String
  pub route_policy_version : String

-- The keys of `ModelCallProvenance` that are compared, and the prompt's digest.
pub record ModelCallProvenance : Type 0 where
  pub compared : ExpectedProvenance
  pub prompt_digest : Option String

pub record FrozenGradingPolicy : Type 0 where
  pub calibration_evidence_id : String
  pub confidence_threshold : String
  pub expected_model_provenance : ExpectedProvenance
  pub grading_policy_version : String
  pub rating_mapping_version : String

pub data ItemType : Type 0 where
  multiple_choice short_answer concept_linking : ItemType

pub record ShortAnswerRubricInput : Type 0 where
  pub concept_id : String
  pub material_contradictions : List String
  pub required_criteria : List String
  pub rubric_id : String
  pub rubric_version : String
  pub source_span_ids : List String

pub record ShortAnswerQuestion : Type 0 where
  pub concept_ids : List String
  pub course_id : String
  pub id : String
  pub item_type : ItemType
  pub prompt : String
  pub rubrics : List ShortAnswerRubricInput
  pub source_spans : List String

pub record KeyedMultipleChoiceQuestion : Type 0 where
  pub concept_ids : List String
  pub course_id : String
  pub id : String
  pub item_type : ItemType
  pub keyed_answer : String
  pub normalized_prompt_hash : String
  pub prompt : String
  pub response_options : List String
  pub rubric_id : String
  pub rubric_version : String
  pub source_spans : List String

pub data ShortAnswerRubricBand : Type 0 where
  correct incorrect partially_correct : ShortAnswerRubricBand

pub data ShortAnswerUnanswerableReason : Type 0 where
  source_insufficient source_conflict : ShortAnswerUnanswerableReason
  rubric_insufficient rubric_conflict : ShortAnswerUnanswerableReason

-- A number from 0 on as the fraction n / (d + 1), or any other number.
pub data Confidence : Type 0 where
  ratio : (n d : ℕ) → Confidence
  off_scale : Confidence

pub data ShortAnswerJudgment : Type 0 where
  scored : (concept_id : String) → Confidence → ShortAnswerRubricBand → ShortAnswerJudgment
  unanswerable : (concept_id : String) → ShortAnswerUnanswerableReason → ShortAnswerJudgment

pub data EvidenceIneligibilityReason : Type 0 where
  attempt_abstained below_threshold semantic_unanswerable : EvidenceIneligibilityReason

-- The part of the evidence that depends on how it was judged. A confidence is a text, as code units.
pub data Judged : Type 0 where
  judged_score : (grader_confidence : List ℕ) → ShortAnswerRubricBand → (score : String) → Judged
  judged_unanswerable : ShortAnswerUnanswerableReason → Judged
  judged_key : ShortAnswerRubricBand → (score : String) → Judged

pub record AssessmentEvidenceCandidate : Type 0 where
  pub concept_id : String
  pub eligible_for_mastery : Bool
  pub fsrs_rating : Option ℕ
  pub ineligibility_reason : Option EvidenceIneligibilityReason
  pub judged : Judged
  pub rationale_ref : String
  pub rubric_id : String
  pub rubric_version : String

pub record ReplacementItemSnapshot : Type 0 where
  pub concept_id : String
  pub id : String
  pub question : KeyedMultipleChoiceQuestion

pub record ReplacementBundleSnapshot : Type 0 where
  pub id : String
  pub items : List ReplacementItemSnapshot
  pub original_attempt_id : String

pub record AuthorizedShortAnswerSnapshot : Type 0 where
  pub fallback_candidates : List KeyedMultipleChoiceQuestion
  pub question : ShortAnswerQuestion

pub data Outcome : Type 0 where
  abstained graded : Outcome

pub data Status : Type 0 where
  created replayed : Status

pub record AssessmentFinalizationView : Type 0 where
  pub attempt_id : String
  pub evidence : List AssessmentEvidenceCandidate
  pub fallback : Option ReplacementBundleSnapshot
  pub learner_message : String
  pub outcome : Outcome
  pub replacement_for_attempt_id : Option String
  pub request_digest : String
  pub status : Status

pub data ShortAnswerClaim : Type 0 where
  claimed : (claim_token : String) → AuthorizedShortAnswerSnapshot → ShortAnswerClaim
  pending : ShortAnswerClaim
  finalized : AssessmentFinalizationView → ShortAnswerClaim
