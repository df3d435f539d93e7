-- ===== src/Assessment/Replacement.antt =====
-- packages/assessment/src/service.ts: `gradeReplacement`.
pub mod Redelivery
use reflo_learning.Prelude.{
  Bool, true, false, Option, none, some, Result, ok, err, ◌===◌, if◌then◌else◌,
}
use reflo_learning.Assessment.Contracts.{
  authorization_denied, conflicting_duplicate, ShortAnswerRubricBand, correct, incorrect,
  judged_key, AssessmentEvidenceCandidate, replayed, AssessmentFinalizationView,
}
use reflo_learning.Assessment.Rules.{validate_policy, validate_identity, rating_for, score_for}
use reflo_learning.Assessment.Actions.{
  GradeReplacementCommand, ReplacementFinalization, ReplacementAnswerResolution, Thrown, Host, Ids,
  assessment,
}

abbrev pub band_of : Bool → ShortAnswerRubricBand
band_of true = correct
band_of false = incorrect

module _ (ids : Ids) (host : Host) (c : GradeReplacementCommand) where
  abbrev pub key_evidence : ReplacementAnswerResolution → AssessmentEvidenceCandidate
  key_evidence r = record {
    concept_id = r.item.concept_id;
    eligible_for_mastery = true;
    fsrs_rating = some (rating_for (band_of r.is_correct));
    ineligibility_reason = none;
    judged = judged_key (band_of r.is_correct) (score_for (band_of r.is_correct));
    rationale_ref = ids.key_ref r.item.question.id;
    rubric_id = r.item.question.rubric_id;
    rubric_version = r.item.question.rubric_version;
  }

  abbrev pub replacement_finalization : ReplacementAnswerResolution → ReplacementFinalization
  replacement_finalization r = record {
    answer = c.answer;
    attempt_id = ids.replacement_uuid c r.bundle_id r.item.id;
    bundle_id = r.bundle_id;
    evidence = key_evidence r;
    idempotency_key = c.idempotency_key;
    item_id = r.item.id;
    owner_scope_id = c.owner_scope_id;
    policy = c.policy;
    request_digest = ids.replacement_digest c;
    session_id = c.session_id;
    user_id = c.actor_id;
  }

  unfoldable pub resolve_replacement :
      Result Thrown (Option ReplacementAnswerResolution) → Result Thrown AssessmentFinalizationView
  resolve_replacement (err e) = err e
  resolve_replacement (ok none) = err (assessment authorization_denied)
  resolve_replacement (ok (some r)) = host.finalize_replacement (replacement_finalization r)

  -- From the look for an earlier finalization to the end.
  unfoldable pub replay_or_resolve :
      Result Thrown (Option AssessmentFinalizationView) → Result Thrown AssessmentFinalizationView
  replay_or_resolve (err e) = err e
  replay_or_resolve (ok (some view)) =
      if view.request_digest === ids.replacement_digest c
      then ok (record view { status = replayed })
      else err (assessment conflicting_duplicate)
  replay_or_resolve (ok none) = resolve_replacement host.resolve

  unfoldable pub grade_replacement : Result Thrown AssessmentFinalizationView
  grade_replacement = elim (validate_policy c.policy) [
    | err code ↦ err (assessment code)
    | ok _ ↦ elim (validate_identity c.idempotency_key) [
      | err code ↦ err (assessment code)
      | ok _ ↦ elim (validate_identity c.session_id) [
        | err code ↦ err (assessment code)
        | ok _ ↦ replay_or_resolve host.load
      ]
    ]
  ]
