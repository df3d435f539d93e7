-- ===== src/Knowledge/Contracts.antt =====
-- packages/knowledge-model/src/contracts.ts: the quanta, the errors and the evidence of an attempt.
use reflo_learning.Prelude.{ℕ, ◌*◌, Bool, String, Option, List}

abbrev pub knowledge_algorithm_version : String
knowledge_algorithm_version = "knowledge-model-v1"

abbrev pub knowledge_configuration_id : String
knowledge_configuration_id = "beta-1-3-unit-mass-score-5dp-v1"

abbrev pub score_quanta : ℕ
score_quanta = 100_000

abbrev pub prior_alpha_quanta : ℕ
prior_alpha_quanta = score_quanta

abbrev pub prior_beta_quanta : ℕ
prior_beta_quanta = 3 * score_quanta

pub data KnowledgeModelErrorCode : Type 0 where
  conflicting_duplicate invalid_evidence invalid_score invalid_timestamp : KnowledgeModelErrorCode
  unsupported_algorithm : KnowledgeModelErrorCode

-- Milliseconds since 1970; `before n` is -(n + 1).
pub data Instant : Type 0 where
  since before : ℕ → Instant

-- `null` is `none`; a value that the types restrict and the code tests again is a plain `String`
-- or `ℕ` here.
pub record PerConceptEvidence : Type 0 where
  pub attempt_created_at : String
  pub attempt_created_at_order : String
  pub attempt_id : String
  pub attempt_outcome : String
  pub concept_id : String
  pub eligible_for_mastery : Bool
  pub fsrs_rating : Option ℕ
  pub grading_policy_version : String
  pub knowledge_algorithm_version : String
  pub knowledge_configuration_id : String
  pub owner_scope_id : String
  pub rating_mapping_version : String
  pub score : Option String
  pub user_id : String

pub data AssessmentStatus : Type 0 where
  unassessed assessed : AssessmentStatus

-- The decimal texts are lists of code units.
pub record ExactKnowledgeState : Type 0 where
  pub algorithm_version : String
  pub alpha_quanta : List ℕ
  pub assessment_status : AssessmentStatus
  pub beta_quanta : List ℕ
  pub confidence : List ℕ
  pub configuration_id : String
  pub evidence_count : ℕ
  pub last_reviewed_at : Option String
  pub mastery : List ℕ
