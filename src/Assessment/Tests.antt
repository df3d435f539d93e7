-- ===== src/Assessment/Tests.antt =====
-- packages/assessment: questions and answers on concrete inputs.
use reflo_learning.Prelude.{
  ℕ, zero, suc, ◌+◌, ◌≡◌, ◌≢◌, ◌≤◌, ap, sym, ok-injective, ===_iff, ◌↔◌, refl, String, true, none,
  some, List, [], ◌∷◌, natural, ok, arith, All, units, is_digest, units_eq, compare_units,
}
use reflo_learning.Prelude.Decimal.{of_decimal, to_decimal, pad_start}
use reflo_learning.Prelude.TextSets.{add}
use reflo_learning.Prelude.Sorting.{sort}
use reflo_learning.Knowledge.Replay.Ratio.{round_ratio, rounded_quanta, five_places}
use reflo_learning.Knowledge.Replay.Rounding.{IsNearest}
use reflo_learning.Assessment.Contracts.{
  ExpectedProvenance, ModelCallProvenance, FrozenGradingPolicy, grading_policy_version,
  rating_mapping_version, multiple_choice, short_answer, ShortAnswerRubricInput,
  ShortAnswerQuestion, KeyedMultipleChoiceQuestion, correct, scored, ratio,
  AuthorizedShortAnswerSnapshot, AssessmentEvidenceCandidate, AssessmentFinalizationView, abstained,
  graded, created, replayed, claimed, pending, judged_key,
}
use reflo_learning.Assessment.Rules.{
  validate_snapshot, is_bad_rubric, fits_rubric, is_bad_candidate, valid_replacement, set_of,
  assert_expected_provenance, parse_unit, format_unit, rating_for, score_for, validate_policy,
  is_other_policy, validate_identity,
}
use reflo_learning.Assessment.Judgments.{
  by_concept, judge, judge_all, normalize_judgments, has_abstained, withhold, finalized_evidence,
  replacement_items, build_replacement_bundle,
}
use reflo_learning.Assessment.Threshold.{judge-reaches}
use reflo_learning.Assessment.Actions.{
  GradeShortAnswerCommand, GradeReplacementCommand, ShortAnswerFinalization, Host, Ids, Call, asked,
  finalizing, released,
}
use reflo_learning.Assessment.Grading.{grade_claimed, grade_routed, conclude, grade_short_answer}
use reflo_learning.Assessment.Grading.Settles.{IsSettled, grade_claimed-IsSettled}
use reflo_learning.Assessment.Grading.Fairness.{IsFairCall, grade_claimed-IsFair}
use reflo_learning.Assessment.Grading.Waiting.{IsTicking, grade_short_answer-ends}
use reflo_learning.Assessment.Replacement.{
  grade_replacement, replay_or_resolve, resolve_replacement,
}
use reflo_learning.Assessment.Replacement.Redelivery.{IsRefused, grade_replacement-redelivered}

abbrev digest : String
digest = "0123456789abcdef0123456789abcdef0123456789abcdef0123456789abcdef"

abbrev expected : ExpectedProvenance
expected = record {
  effective_model = "qwen-plus";
  effective_model_version = "2026-01";
  generation_parameters_version = some "grading-generation-parameters-v2";
  input_schema_version = "short-answer-grading-input-v2";
  prompt_definition_digest = some digest;
  prompt_id = some "assessment-grade-short-answer";
  prompt_version = some "3";
  result_schema_version = "short-answer-judgment-result-v2";
  route_policy_version = "route-policy-v6";
}

abbrev policy : FrozenGradingPolicy
policy = record {
  calibration_evidence_id = "calibration-1";
  confidence_threshold = "0.80000";
  expected_model_provenance = expected;
  grading_policy_version = grading_policy_version;
  rating_mapping_version = rating_mapping_version;
}

abbrev provenance : ModelCallProvenance
provenance = record { compared = expected; prompt_digest = some digest }

abbrev photosynthesis : ShortAnswerRubricInput
photosynthesis = record {
  concept_id = "photosynthesis";
  material_contradictions = [];
  required_criteria = "Light becomes chemical energy." ∷ [];
  rubric_id = "rubric-1";
  rubric_version = "1";
  source_span_ids = "span-1" ∷ [];
}

abbrev question : ShortAnswerQuestion
question = record {
  concept_ids = "photosynthesis" ∷ [];
  course_id = "course-1";
  id = "question-1";
  item_type = short_answer;
  prompt = "What does photosynthesis do?";
  rubrics = photosynthesis ∷ [];
  source_spans = "span-1" ∷ [];
}

abbrev choice : KeyedMultipleChoiceQuestion
choice = record {
  concept_ids = "photosynthesis" ∷ [];
  course_id = "course-1";
  id = "question-2";
  item_type = multiple_choice;
  keyed_answer = "It stores energy.";
  normalized_prompt_hash = digest;
  prompt = "Photosynthesis does what?";
  response_options = "It stores energy." ∷ "It burns sugar." ∷ [];
  rubric_id = "rubric-1";
  rubric_version = "1";
  source_spans = "span-1" ∷ [];
}

abbrev snapshot : AuthorizedShortAnswerSnapshot
snapshot = record { fallback_candidates = choice ∷ []; question = question }

abbrev ids : Ids
ids = record {
  judgment = record {
    rationale_digest = λ concept prompt version. concept;
    item_uuid = λ concept attempt version. concept;
    bundle_uuid = λ concepts attempt version. attempt;
  };
  attempt_uuid = λ c id. c.idempotency_key;
  request_digest = λ c. c.answer;
  replacement_uuid = λ c bundle_id item_id. c.idempotency_key;
  replacement_digest = λ c. c.answer;
  key_ref = λ id. id;
}

abbrev view_of : ShortAnswerFinalization → AssessmentFinalizationView
view_of f = record {
  attempt_id = f.attempt_id;
  evidence = f.evidence;
  fallback = f.fallback;
  learner_message = f.learner_message;
  outcome = f.outcome;
  replacement_for_attempt_id = none;
  request_digest = f.request_digest;
  status = created;
}

-- Another process holds the claim at the first try. The model is sure to 0.79.
abbrev host : Host
host = record {
  started_at = 100;
  poll = λ k. record {
    now = 101 + k;
    claim = elim k [ zero ↦ ok pending | suc j ↦ ok (claimed "token-1" snapshot) ];
  };
  asked_at = 110;
  model = λ input deadline_ms. ok (record {
    judgments = scored "photosynthesis" (ratio 79 99) correct ∷ [];
    provenance = provenance;
  });
  finalize = λ f. ok (view_of f);
  release = ok tt;
  load = ok none;
  resolve = ok (
      some (record {
        bundle_id = "bundle-1";
        is_correct = true;
        item = record { concept_id = "photosynthesis"; id = "item-1"; question = choice };
      }));
  finalize_replacement = λ f. ok (record {
    attempt_id = f.attempt_id;
    evidence = f.evidence ∷ [];
    fallback = none;
    learner_message = "";
    outcome = graded;
    replacement_for_attempt_id = none;
    request_digest = f.request_digest;
    status = created;
  });
}

abbrev command : GradeShortAnswerCommand
command = record {
  actor_id = "user-1";
  answer = "It stores light.";
  deadline_ms = natural 50;
  idempotency_key = "key-1";
  owner_scope_id = "owner-1";
  policy = policy;
  question_id = "question-1";
  session_id = "session-1";
}

outcomes_of : List Call → List String
outcomes_of [] = []
outcomes_of (asked ∷ calls) = "asked" ∷ outcomes_of calls
outcomes_of (released ∷ calls) = "released" ∷ outcomes_of calls
outcomes_of (finalizing f ∷ calls) =
    elim f.outcome [ abstained ↦ "abstained" | graded ↦ "graded" ] ∷ outcomes_of calls

doubtful :
    outcomes_of (grade_claimed ids host command 150 "token-1" snapshot []).1
    ≡ "asked" ∷ "abstained" ∷ []
unfolding outcomes_of grade_claimed grade_routed conclude validate_snapshot is_bad_rubric
    fits_rubric is_bad_candidate valid_replacement set_of assert_expected_provenance parse_unit
    format_unit by_concept judge judge_all normalize_judgments has_abstained withhold
    finalized_evidence replacement_items build_replacement_bundle add units is_digest units_eq
    round_ratio rounded_quanta five_places pad_start to_decimal of_decimal sort rating_for score_for
    compare_units
doubtful = refl

grade_claimed-IsSettled_example :
    IsSettled host snapshot
      (grade_claimed ids host command 150 "token-1" snapshot []).1
      (grade_claimed ids host command 150 "token-1" snapshot []).0
grade_claimed-IsSettled_example = grade_claimed-IsSettled ids host command 150 "token-1" snapshot

grade_claimed-IsFair_example :
    All (IsFairCall snapshot) (grade_claimed ids host command 150 "token-1" snapshot []).1
grade_claimed-IsFair_example = grade_claimed-IsFair ids host command 150 "token-1" snapshot

host-IsTicking : IsTicking host
host-IsTicking = record { after_start = omega arith; moves = λ k. omega arith }

grade_short_answer-ends_example : grade_short_answer ids host command ≢ none
grade_short_answer-ends_example = grade_short_answer-ends ids host command host-IsTicking

judge-reaches_example :
    (e : AssessmentEvidenceCandidate) × (q : ℕ) × (judge ids.judgment policy provenance 80_000
        photosynthesis
        (scored "photosynthesis" (ratio 79 99) correct)
      ≡ ok e)
    × IsNearest 79 100 q
    × ((e.eligible_for_mastery ≡ true) ↔ (80_000 ≤ q))
judge-reaches_example =
    judge-reaches ids.judgment policy provenance 80_000 photosynthesis "photosynthesis" 79 99
      correct (omega arith)

abbrev answer : GradeReplacementCommand
answer = record {
  actor_id = "user-1";
  answer = "It stores energy.";
  bundle_id = "bundle-1";
  idempotency_key = "key-2";
  item_id = "item-1";
  owner_scope_id = "owner-1";
  policy = policy;
  session_id = "session-1";
}

abbrev first_view : AssessmentFinalizationView
first_view = record {
  attempt_id = "key-2";
  evidence =
      record {
        concept_id = "photosynthesis";
        eligible_for_mastery = true;
        fsrs_rating = some 3;
        ineligibility_reason = none;
        judged = judged_key correct "1.00000";
        rationale_ref = "question-2";
        rubric_id = "rubric-1";
        rubric_version = "1";
      }
      ∷ [];
  fallback = none;
  learner_message = "";
  outcome = graded;
  replacement_for_attempt_id = none;
  request_digest = "It stores energy.";
  status = created;
}

answered : grade_replacement ids host answer ≡ ok first_view
unfolding grade_replacement replay_or_resolve resolve_replacement validate_policy is_other_policy
    validate_identity parse_unit is_digest units rating_for score_for units_eq of_decimal
answered = refl

abbrev later : Host
later = record host { load = ok (some first_view) }

abbrev other_answer : GradeReplacementCommand
other_answer = record answer { answer = "It burns sugar." }

grade_replacement-redelivered_example :
    (grade_replacement ids later answer ≡ ok (record first_view { status = replayed }))
    × IsRefused (grade_replacement ids later other_answer)
grade_replacement-redelivered_example =
    grade_replacement-redelivered ids host later answer other_answer first_view
      (λ f view h. ap (λ (v : AssessmentFinalizationView). v.request_digest) (sym (ok-injective h)))
      answered refl (λ same. absurd (ground (arith, ===_iff "It stores energy." "It burns sugar.")))
