-- ===== src/Assessment/Actions.antt =====
-- packages/assessment/src/service.ts and ports.ts: the commands, and what the service meets as a record:
-- the answers of the repository and of the router, and what the clock shows. An action keeps the list
-- of the calls that settle a claim, and of the model's.
use reflo_learning.Prelude.{ℕ, String, Bool, Option, List, Number, Result}
use reflo_learning.Prelude.Traced.{Traced, lift_by}
use reflo_learning.Router.Attempts.{RouterErrorCode}
use reflo_learning.Assessment.Contracts.{
  AssessmentErrorCode, ModelCallProvenance, FrozenGradingPolicy, ShortAnswerRubricInput,
  ShortAnswerJudgment, AssessmentEvidenceCandidate, ReplacementItemSnapshot,
  ReplacementBundleSnapshot, Outcome, AssessmentFinalizationView, ShortAnswerClaim,
}
use reflo_learning.Assessment.Rules.{Throws}
use reflo_learning.Assessment.Judgments.{JudgmentIds}

pub record GradeShortAnswerCommand : Type 0 where
  pub actor_id : String
  pub answer : String
  pub deadline_ms : Number
  pub idempotency_key : String
  pub owner_scope_id : String
  pub policy : FrozenGradingPolicy
  pub question_id : String
  pub session_id : String

pub record GradeReplacementCommand : Type 0 where
  pub actor_id : String
  pub answer : String
  pub bundle_id : String
  pub idempotency_key : String
  pub item_id : String
  pub owner_scope_id : String
  pub policy : FrozenGradingPolicy
  pub session_id : String

pub record ShortAnswerFinalization : Type 0 where
  pub answer : String
  pub attempt_id : String
  pub claim_token : String
  pub evidence : List AssessmentEvidenceCandidate
  pub fallback : Option ReplacementBundleSnapshot
  pub idempotency_key : String
  pub learner_message : String
  pub model_provenance : Option ModelCallProvenance
  pub outcome : Outcome
  pub owner_scope_id : String
  pub policy : FrozenGradingPolicy
  pub question_id : String
  pub request_digest : String
  pub session_id : String
  pub user_id : String

pub record ReplacementFinalization : Type 0 where
  pub answer : String
  pub attempt_id : String
  pub bundle_id : String
  pub evidence : AssessmentEvidenceCandidate
  pub idempotency_key : String
  pub item_id : String
  pub owner_scope_id : String
  pub policy : FrozenGradingPolicy
  pub request_digest : String
  pub session_id : String
  pub user_id : String

pub record ReplacementAnswerResolution : Type 0 where
  pub bundle_id : String
  pub is_correct : Bool
  pub item : ReplacementItemSnapshot

pub record ShortAnswerGradingInput : Type 0 where
  pub answer : String
  pub question : String
  pub rubrics : List ShortAnswerRubricInput
  pub source_spans : List String

pub record RoutedJudgments : Type 0 where
  pub judgments : List ShortAnswerJudgment
  pub provenance : ModelCallProvenance

-- What can be thrown: `foreign` is any other error.
pub data Thrown : Type 0 where
  assessment : AssessmentErrorCode → Thrown
  router : RouterErrorCode → Thrown
  foreign : Thrown

-- The clock before a try to claim a question, and what the try returns.
pub record Poll : Type 0 where
  pub now : ℕ
  pub claim : Result Thrown ShortAnswerClaim

pub record Host : Type 0 where
  pub started_at : ℕ
  pub poll : ℕ → Poll
  pub asked_at : ℕ
  pub model : ShortAnswerGradingInput → (deadline_ms : ℕ) → Result Thrown RoutedJudgments
  pub finalize : ShortAnswerFinalization → Result Thrown AssessmentFinalizationView
  pub release : Result Thrown (Unit {0})
  pub load : Result Thrown (Option AssessmentFinalizationView)
  pub resolve : Result Thrown (Option ReplacementAnswerResolution)
  pub finalize_replacement : ReplacementFinalization → Result Thrown AssessmentFinalizationView

-- UUIDs and digests of canonical JSON.
pub record Ids : Type 0 where
  pub judgment : JudgmentIds
  pub attempt_uuid : GradeShortAnswerCommand → (question_id : String) → String
  pub request_digest : GradeShortAnswerCommand → String
  pub replacement_uuid : GradeReplacementCommand → (bundle_id item_id : String) → String
  pub replacement_digest : GradeReplacementCommand → String
  pub key_ref : (question_id : String) → String

pub data Call : Type 0 where
  asked : Call
  finalizing : ShortAnswerFinalization → Call
  released : Call

abbrev pub Action : Type 0 → Type 0
Action = Traced Call Thrown

abbrev pub lift : {A : Type 0} → Throws A → Action A
lift = lift_by assessment
