-- ===== src/Assessment/Rules.antt =====
-- packages/assessment/src/service.ts: the checks of commands, policies and snapshots, and the exact
-- decimals. `toFixed(5)` of a number from 0 to 1 is the nearest text of five decimals, a half rounded
-- up, which is the text of `roundRatio`.
use reflo_learning.Prelude.{
  ℕ, suc, String, Bool, true, false, not, ◌&&◌, ◌||◌, Option, none, some, List, [], ◌∷◌, map,
  Result, ok, err, ◌>>=◌, ◌>>◌, throw_if, length, any, all, ltb, leb, ◌==◌, ◌===◌, if◌then◌else◌,
  units, is_empty, is_digest, is_digit, units_eq,
}
use reflo_learning.Prelude.Decimal.{of_decimal}
use reflo_learning.Prelude.TextSets.{has, add}
use reflo_learning.Knowledge.Replay.Ratio.{round_ratio}
use reflo_learning.Assessment.Contracts.{
  AssessmentErrorCode, invalid_configuration, invalid_input, invalid_result, ModelCallProvenance,
  FrozenGradingPolicy, grading_policy_version, rating_mapping_version, ItemType, multiple_choice,
  short_answer, ShortAnswerRubricInput, ShortAnswerQuestion, KeyedMultipleChoiceQuestion,
  ShortAnswerRubricBand, correct, incorrect, partially_correct, Confidence, ratio, off_scale,
  AuthorizedShortAnswerSnapshot,
}

abbrev pub Throws : Type 0 → Type 0
Throws A = Result AssessmentErrorCode A

abbrev pub is_nil : {A : Type 0} → List A → Bool
is_nil [] = true
is_nil (x ∷ xs) = false

-- `new Set(texts).size === texts.length`
unfoldable pub set_of : List String → List String → List String
set_of seen [] = seen
set_of seen (x ∷ xs) = set_of (add x seen) xs

abbrev pub no_repeats : List String → Bool
no_repeats xs = length (set_of [] xs) == length xs

-- `/^(?:0(?:\.\d{5})|1\.00000)$/`, and the number of hundred-thousandths.
unfoldable pub parse_unit : List ℕ → Throws ℕ
parse_unit (whole ∷ point ∷ digits) =
    if whole == b'0' && point == b'.' && length digits == 5 && all is_digit digits
    then ok (of_decimal digits)
    else if units_eq (whole ∷ point ∷ digits) (units "1.00000")
    then ok 100_000
    else err invalid_configuration
parse_unit _ = err invalid_configuration

unfoldable pub format_unit : Confidence → Throws (List ℕ)
format_unit off_scale = err invalid_result
format_unit (ratio n d) = if leb n (suc d) then ok (round_ratio n (suc d)) else err invalid_result

unfoldable pub rating_for : ShortAnswerRubricBand → ℕ
rating_for correct = 3
rating_for _ = 1

unfoldable pub score_for : ShortAnswerRubricBand → String
score_for correct = "1.00000"
score_for partially_correct = "0.50000"
score_for incorrect = "0.00000"

-- A character's `charCodeAt(0)`: the characters of a string are its code points, and the second unit
-- of a pair is no control character.
is_control : ℕ → Bool
is_control c = leb c 31 || c == 127

unfoldable pub validate_identity : String → Throws (Unit {0})
unfolding is_control
validate_identity value =
    let cs = units value in
    throw_if (ltb (length cs) 1 || ltb 240 (length cs) || any is_control cs) invalid_input

abbrev is_text : Option String → String → Bool
is_text none s = false
is_text (some t) s = t === s

abbrev text_or_empty : Option String → String
text_or_empty none = ""
text_or_empty (some t) = t

-- The test of `validatePolicy`.
unfoldable pub is_other_policy : FrozenGradingPolicy → Bool
is_other_policy policy =
    let p = policy.expected_model_provenance in
    not (policy.grading_policy_version === grading_policy_version)
    || not (policy.rating_mapping_version === rating_mapping_version)
    || is_empty policy.calibration_evidence_id
    || not (p.route_policy_version === "route-policy-v6")
    || not (p.input_schema_version === "short-answer-grading-input-v2")
    || not (is_text p.prompt_id "assessment-grade-short-answer")
    || not (is_text p.prompt_version "3")
    || not (p.result_schema_version === "short-answer-judgment-result-v2")
    || not (is_text p.generation_parameters_version "grading-generation-parameters-v2")
    || not (is_digest (text_or_empty p.prompt_definition_digest))
    || is_empty p.effective_model
    || is_empty p.effective_model_version

unfoldable pub validate_policy : FrozenGradingPolicy → Throws (Unit {0})
validate_policy policy = do
  throw_if (is_other_policy policy) invalid_configuration
  threshold ← parse_unit (units policy.confidence_threshold)
  ok tt

-- One key of `assertExpectedProvenance`: a key that the policy does not have is not compared.
abbrev agrees : Option String → Option String → Bool
agrees none actual = true
agrees (some t) none = false
agrees (some t) (some s) = s === t

unfoldable pub assert_expected_provenance :
    FrozenGradingPolicy → ModelCallProvenance → Throws (Unit {0})
assert_expected_provenance policy actual =
    let p = policy.expected_model_provenance in
    let a = actual.compared in
    throw_if
      (not (
        a.effective_model === p.effective_model
        && a.effective_model_version === p.effective_model_version
        && agrees p.generation_parameters_version a.generation_parameters_version
        && a.input_schema_version === p.input_schema_version
        && agrees p.prompt_definition_digest a.prompt_definition_digest
        && agrees p.prompt_id a.prompt_id
        && agrees p.prompt_version a.prompt_version
        && a.result_schema_version === p.result_schema_version
        && a.route_policy_version === p.route_policy_version))
      invalid_configuration

abbrev is_choice : ItemType → Bool
is_choice multiple_choice = true
is_choice _ = false

abbrev is_short_answer : ItemType → Bool
is_short_answer short_answer = true
is_short_answer _ = false

unfoldable pub valid_replacement : KeyedMultipleChoiceQuestion → Bool
valid_replacement q =
    is_choice q.item_type
    && length q.concept_ids == 1
    && is_digest q.normalized_prompt_hash
    && not (is_nil q.source_spans)
    && leb 2 (length q.response_options)
    && no_repeats q.response_options
    && has q.keyed_answer q.response_options

-- `question.conceptIds[0] === conceptId`
abbrev pub is_about : String → KeyedMultipleChoiceQuestion → Bool
is_about concept_id q = elim q.concept_ids [ [] ↦ false | c ∷ cs ↦ c === concept_id ]

unfoldable pub is_bad_rubric : List String → List String → ShortAnswerRubricInput → Bool
is_bad_rubric concept_ids span_ids r =
    not (has r.concept_id concept_ids)
    || is_empty r.rubric_id
    || is_empty r.rubric_version
    || is_nil r.required_criteria
    || any is_empty r.required_criteria
    || any is_empty r.material_contradictions
    || is_nil r.source_span_ids
    || any (λ id. not (has id span_ids)) r.source_span_ids

unfoldable pub fits_rubric : KeyedMultipleChoiceQuestion → ShortAnswerRubricInput → Bool
fits_rubric q r =
    is_about r.concept_id q
    && r.rubric_id === q.rubric_id
    && r.rubric_version === q.rubric_version
    && all (λ id. has id r.source_span_ids) q.source_spans

unfoldable pub is_bad_candidate : ShortAnswerQuestion → KeyedMultipleChoiceQuestion → Bool
is_bad_candidate question q =
    not (valid_replacement q)
    || not (q.course_id === question.course_id)
    || not (any (fits_rubric q) question.rubrics)

abbrev pub concepts_of : List ShortAnswerRubricInput → List String
concepts_of = map (λ (r : ShortAnswerRubricInput). r.concept_id)

unfoldable pub validate_snapshot : AuthorizedShortAnswerSnapshot → Throws (Unit {0})
validate_snapshot snapshot = do
  let question = snapshot.question
  throw_if
      (not (is_short_answer question.item_type)
        || is_nil question.rubrics
        || not (length question.concept_ids == length question.rubrics))
      invalid_input
  throw_if
      (not (no_repeats question.concept_ids)
        || not (no_repeats question.source_spans)
        || any (is_bad_rubric question.concept_ids question.source_spans) question.rubrics
        || not (no_repeats (concepts_of question.rubrics))
        || not (length snapshot.fallback_candidates == length question.rubrics)
        || any (is_bad_candidate question) snapshot.fallback_candidates
        || not (
            no_repeats (
              map (λ (q : KeyedMultipleChoiceQuestion). q.normalized_prompt_hash)
                snapshot.fallback_candidates)))
      invalid_input
