-- ===== src/Assessment/Selection.antt =====
-- packages/assessment/src/service.ts: `selectAdaptiveQuestions`. `Date.parse` is a parameter: a time is
-- the number of milliseconds since the earliest that a date can have, `none` is not a number. A time
-- that is due at no time is `none`, the source's infinity.
pub mod States
pub mod Ranks
pub mod Order
pub mod Priority
mod Tests
use reflo_learning.Prelude.{
  ℕ, ◌-◌, ◌+◌, min, String, Bool, true, false, not, ◌&&◌, ◌||◌, Option, none, some, List, [], ◌∷◌,
  map, Number, natural, other, Result, ok, err, ◌>>=◌, ◌>>◌, throw_if, length, filter_map, ltb, leb,
  ◌==◌, ◌===◌, if◌then◌else◌, units, is_empty, compare_units,
}
use Prim.Native.Nat.{Ordering, compare}
use reflo_learning.Prelude.Sorting.{sort}
use reflo_learning.Prelude.TextSets.{has}
use reflo_learning.Prelude.Selections.{collect}
use reflo_learning.Assessment.Contracts.{invalid_input}
use reflo_learning.Assessment.Rules.{Throws, parse_unit, set_of}

pub record SelectableAssessmentQuestion : Type 0 where
  pub concept_ids : List String
  pub difficulty : ℕ
  pub id : String
  pub normalized_prompt_hash : String

pub record ConceptSelectionState : Type 0 where
  pub concept_id : String
  pub due_at : Option String
  pub mastery : String

pub record AdaptiveSelectionInput : Type 0 where
  pub concept_states : List ConceptSelectionState
  pub limit : Number
  pub now : String
  pub questions : List SelectableAssessmentQuestion
  pub seen_prompt_hashes : List String

pub record ConceptState : Type 0 where
  pub due_at : Option ℕ
  pub mastery : ℕ

pub record Candidate : Type 0 where
  pub difficulty_distance : ℕ
  pub due_at : Option ℕ
  pub due_rank : ℕ
  pub question : SelectableAssessmentQuestion
  pub weakest_mastery : ℕ

-- `Number.isSafeInteger`, and at least one.
unfoldable pub limit_of : Number → Throws ℕ
limit_of other = err invalid_input
limit_of (natural n) = if leb 1 n && leb n 9_007_199_254_740_991 then ok n else err invalid_input

abbrev pub or_invalid : {A : Type 0} → Option A → Throws A
or_invalid none = err invalid_input
or_invalid (some a) = ok a

module _ (parse_date : String → Option ℕ) where
  unfoldable pub parse_due : Option String → Throws (Option ℕ)
  parse_due none = ok none
  parse_due (some text) = do at ← or_invalid (parse_date text); ok (some at)

  unfoldable pub parse_states : List ConceptSelectionState → Throws (List (String × ConceptState))
  parse_states [] = ok []
  parse_states (s ∷ ss) = do
    mastery ← parse_unit (units s.mastery)
    due_at ← parse_due s.due_at
    throw_if (is_empty s.concept_id) invalid_input
    states ← parse_states ss
    ok ((s.concept_id, record { due_at = due_at; mastery = mastery }) ∷ states)

-- `states.get`; no key is there twice.
unfoldable pub state_of : String → List (String × ConceptState) → Option ConceptState
state_of concept [] = none
state_of concept ((key, state) ∷ states) =
    if key === concept then some state else state_of concept states

unfoldable pub target_states : List (String × ConceptState) → List String → List ConceptState
target_states states = filter_map (λ concept. state_of concept states)

abbrev pub weakest : ConceptState → List ConceptState → ℕ
weakest s [] = s.mastery
weakest s (t ∷ ts) = min s.mastery (weakest t ts)

abbrev pub earlier : Option ℕ → Option ℕ → Option ℕ
earlier none b = b
earlier (some a) none = some a
earlier (some a) (some b) = some (min a b)

abbrev pub earliest : ConceptState → List ConceptState → Option ℕ
earliest s [] = s.due_at
earliest s (t ∷ ts) = earlier s.due_at (earliest t ts)

unfoldable pub due_rank_of : (now : ℕ) → Option ℕ → ℕ
due_rank_of now none = 1
due_rank_of now (some at) = if leb at now then 0 else 1

unfoldable pub desired_difficulty : ℕ → ℕ
desired_difficulty mastery = if ltb mastery 40_000 then 1 else if ltb mastery 70_000 then 3 else 5

module _ (now : ℕ) (seen : List String) where
  -- The bodies of the `filter` and of the `map` that follows, from a question's target states.
  unfoldable pub candidate_from :
      SelectableAssessmentQuestion → List ConceptState → Option Candidate
  candidate_from question [] = none
  candidate_from question (s ∷ ss) =
      if has question.normalized_prompt_hash seen
      then none
      else some (record {
        difficulty_distance =
            let desired = desired_difficulty (weakest s ss) in
            (question.difficulty - desired) + (desired - question.difficulty);
        due_at = earliest s ss;
        due_rank = due_rank_of now (earliest s ss);
        question = question;
        weakest_mastery = weakest s ss;
      })

  unfoldable pub candidates :
      List (String × ConceptState) → List SelectableAssessmentQuestion → List Candidate
  candidates states =
      filter_map (λ question. candidate_from question (target_states states question.concept_ids))

-- `a || b` of two comparisons.
abbrev pub then_by : Ordering → Ordering → Ordering
then_by Ordering.eq second = second
then_by first second = first

abbrev pub compare_due : Option ℕ → Option ℕ → Ordering
compare_due none none = Ordering.eq
compare_due none (some b) = Ordering.gt
compare_due (some a) none = Ordering.lt
compare_due (some a) (some b) = compare a b

unfoldable pub compare_candidates : Candidate → Candidate → Ordering
compare_candidates left right = then_by (compare left.due_rank right.due_rank) (
    then_by (compare left.weakest_mastery right.weakest_mastery) (
      then_by (compare_due left.due_at right.due_at) (
        then_by (compare left.difficulty_distance right.difficulty_distance)
          (compare_units (units left.question.id) (units right.question.id)))))

abbrev pub hash_of : Candidate → String
hash_of c = c.question.normalized_prompt_hash

abbrev pub selected_candidates :
    (now limit : ℕ) → List (String × ConceptState) → AdaptiveSelectionInput → List Candidate
selected_candidates now limit states input =
    collect hash_of limit input.seen_prompt_hashes []
      (sort compare_candidates (candidates now input.seen_prompt_hashes states input.questions))

unfoldable pub select_adaptive_questions :
    (parse_date : String → Option ℕ)
    → AdaptiveSelectionInput
    → Throws (List SelectableAssessmentQuestion)
select_adaptive_questions parse_date input = do
  limit ← limit_of input.limit
  now ← or_invalid (parse_date input.now)
  states ← parse_states parse_date input.concept_states
  throw_if (not (length (set_of [] (map (λ s. s.0) states)) == length input.concept_states))
      invalid_input
  ok (map (λ (c : Candidate). c.question) (selected_candidates now limit states input))
