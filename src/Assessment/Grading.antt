-- ===== src/Assessment/Grading.antt =====
-- packages/assessment/src/service.ts: `gradeShortAnswer`.
pub mod Settles
pub mod Fairness
pub mod Waiting
use reflo_learning.Prelude.{
  ℕ, zero, suc, ◌+◌, ◌-◌, ◌≡◌, max, String, Bool, true, false, not, Option, none, some, List, [],
  ◌∷◌, ◌++◌, Number, natural, other, Result, ok, err, any, ltb, ◌===◌, ◌||◌, if◌then◌else◌,
  is_empty,
}
use reflo_learning.Router.Attempts.{RouterErrorCode}
use reflo_learning.Assessment.Contracts.{
  AssessmentErrorCode, authorization_denied, conflicting_duplicate, grading_unavailable,
  grading_in_progress, invalid_input, ModelCallProvenance, FrozenGradingPolicy,
  ShortAnswerRubricInput, ShortAnswerQuestion, KeyedMultipleChoiceQuestion, ShortAnswerJudgment,
  ShortAnswerRubricBand, correct, incorrect, judged_key, AssessmentEvidenceCandidate,
  ReplacementItemSnapshot, ReplacementBundleSnapshot, AuthorizedShortAnswerSnapshot, Outcome,
  abstained, graded, Status, replayed, AssessmentFinalizationView, ShortAnswerClaim, claimed,
  pending, finalized,
}
use reflo_learning.Assessment.Rules.{
  Throws, validate_policy, validate_identity, validate_snapshot, assert_expected_provenance,
  rating_for, score_for,
}
use reflo_learning.Assessment.Judgments.{
  JudgmentIds, normalize_judgments, has_abstained, finalized_evidence, build_replacement_bundle,
}
use reflo_learning.Prelude.Traced.{calling, raise, ◌>>=◌, ◌>>◌}
use reflo_learning.Assessment.Actions.{
  GradeShortAnswerCommand, GradeReplacementCommand, ShortAnswerFinalization,
  ReplacementFinalization, ReplacementAnswerResolution, ShortAnswerGradingInput, RoutedJudgments,
  Thrown, Poll, Host, Ids, Call, Action, assessment, router, foreign, asked, finalizing, released,
  lift,
}

unfoldable pub validate_command : GradeShortAnswerCommand → Throws (Unit {0})
validate_command c = elim (validate_policy c.policy) [
  | err code ↦ err code
  | ok _ ↦ elim (validate_identity c.idempotency_key) [
    | err code ↦ err code
    | ok _ ↦ elim (validate_identity c.session_id) [
      | err code ↦ err code
      | ok _ ↦ elim (validate_identity c.question_id) [
        | err code ↦ err code
        | ok _ ↦ if is_empty c.answer then err invalid_input else ok tt
      ]
    ]
  ]
]

abbrev pub is_invalid_result : RouterErrorCode → Bool
is_invalid_result RouterErrorCode.invalid_result = true
is_invalid_result _ = false

module _ (ids : Ids) (host : Host) (c : GradeShortAnswerCommand) where
  -- The finalization of an attempt; the message follows from the outcome and from the fallback.
  abbrev pub finalization :
      String
      → ShortAnswerQuestion
      → List AssessmentEvidenceCandidate
      → Option ReplacementBundleSnapshot
      → Option ModelCallProvenance
      → Outcome
      → ShortAnswerFinalization
  finalization token question evidence fallback provenance outcome = record {
    answer = c.answer;
    attempt_id = ids.attempt_uuid c question.id;
    claim_token = token;
    evidence = evidence;
    fallback = fallback;
    idempotency_key = c.idempotency_key;
    learner_message = elim outcome [
      | abstained ↦
          "We could not grade that response reliably. Try the source-backed multiple-choice replacements."
      | graded ↦ "Your response was graded against each concept rubric."
    ];
    model_provenance = provenance;
    outcome = outcome;
    owner_scope_id = c.owner_scope_id;
    policy = c.policy;
    question_id = question.id;
    request_digest = ids.request_digest c;
    session_id = c.session_id;
    user_id = c.actor_id;
  }

  abbrev pub finalize : ShortAnswerFinalization → Action AssessmentFinalizationView
  finalize f = calling (finalizing f) (host.finalize f)

  abbrev pub release : Action (Unit {0})
  release = calling released host.release

  -- The last `try` of `gradeShortAnswer`.
  unfoldable pub grade_routed :
      String
      → ShortAnswerQuestion
      → ReplacementBundleSnapshot
      → RoutedJudgments
      → Action AssessmentFinalizationView
  grade_routed token question fallback routed = do
    lift (assert_expected_provenance c.policy routed.provenance)
    evidence ←
        lift (normalize_judgments ids.judgment c.policy routed.provenance question routed.judgments)
    finalize (
        if has_abstained evidence
        then finalization token question (finalized_evidence evidence) (some fallback)
            (some routed.provenance) abstained
        else finalization token question (finalized_evidence evidence) none (some routed.provenance)
            graded)

  -- From the answer of the router to the end.
  unfoldable pub conclude :
      String
      → ShortAnswerQuestion
      → ReplacementBundleSnapshot
      → Result Thrown RoutedJudgments
      → Action AssessmentFinalizationView
  conclude token question fallback (err (router code)) calls =
      if is_invalid_result code
      then finalize (finalization token question [] (some fallback) none abstained) calls
      else (release >> raise (assessment grading_unavailable)) calls
  conclude token question fallback (err e) calls = (release >> raise e) calls
  conclude token question fallback (ok routed) calls =
      let (r, calls') = grade_routed token question fallback routed calls in
      elim r [ ok view ↦ (ok view, calls') | err e ↦ (release >> raise e) calls' ]

  -- `gradeShortAnswer` once the question is claimed.
  unfoldable pub grade_claimed :
      ℕ → String → AuthorizedShortAnswerSnapshot → Action AssessmentFinalizationView
  grade_claimed deadline_at token snapshot = do
    let question = snapshot.question
    lift (validate_snapshot snapshot)
    fallback ←
        lift
          (build_replacement_bundle ids.judgment c.policy (ids.attempt_uuid c question.id) snapshot)
    let routed =
        host.model
          (record {
            answer = c.answer;
            question = question.prompt;
            rubrics = question.rubrics;
            source_spans = question.source_spans;
          })
          (max 1 (deadline_at - host.asked_at))
    calling asked (ok tt)
    conclude token question fallback routed

  -- `acquireShortAnswerClaim`, from the try `k` on, for at most `fuel` tries.
  unfoldable pub acquire : (deadline_at fuel k : ℕ) → Option (Result Thrown ShortAnswerClaim)
  acquire deadline_at zero k = none
  acquire deadline_at (suc fuel) k =
      let p = host.poll k in
      let rest = acquire deadline_at fuel (suc k) in
      if ltb p.now deadline_at
      then elim p.claim [ ok pending ↦ rest | r ↦ some r ]
      else some (err (assessment grading_in_progress))

  -- What follows the tries; none of them returns a claim that is pending.
  abbrev pub answer_claim :
      (deadline_at : ℕ)
      → Option (Result Thrown ShortAnswerClaim)
      → Option (Result Thrown AssessmentFinalizationView × List Call)
  answer_claim deadline_at none = none
  answer_claim deadline_at (some (err e)) = some (err e, [])
  answer_claim deadline_at (some (ok pending)) = none
  answer_claim deadline_at (some (ok (finalized view))) =
      some (ok (record view { status = replayed }), [])
  answer_claim deadline_at (some (ok (claimed token snapshot))) =
      some (grade_claimed deadline_at token snapshot [])

  unfoldable pub grade_deadline : ℕ → Option (Result Thrown AssessmentFinalizationView × List Call)
  grade_deadline deadline_ms =
      let deadline_at = host.started_at + deadline_ms in
      answer_claim deadline_at (acquire deadline_at (suc deadline_ms) 0)

  -- `none` would be a loop that does not end. A deadline is a whole number of milliseconds.
  unfoldable pub grade_short_answer : Option (Result Thrown AssessmentFinalizationView × List Call)
  grade_short_answer = elim (validate_command c) [
    | err code ↦ some (err (assessment code), [])
    | ok _ ↦ elim c.deadline_ms [
      | other ↦ some (err (assessment invalid_input), [])
      | natural zero ↦ some (err (assessment invalid_input), [])
      | natural (suc n) ↦ grade_deadline (suc n)
    ]
  ]
