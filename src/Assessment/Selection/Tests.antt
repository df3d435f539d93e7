-- ===== src/Assessment/Selection/Tests.antt =====
-- packages/assessment: a selection of questions.
use reflo_learning.Prelude.{
  ℕ, ◌≡◌, refl, String, Option, none, some, [], ◌∷◌, natural, ok, units, compare_units,
}
use reflo_learning.Prelude.Decimal.{of_decimal}
use reflo_learning.Prelude.TextSets.{add}
use reflo_learning.Prelude.Sorting.{sort}
use reflo_learning.Prelude.Selections.{collect}
use reflo_learning.Assessment.Rules.{set_of, parse_unit}
use reflo_learning.Assessment.Selection.{
  SelectableAssessmentQuestion, AdaptiveSelectionInput, select_adaptive_questions, limit_of,
  parse_due, parse_states, state_of, target_states, due_rank_of, desired_difficulty, candidate_from,
  candidates, compare_candidates,
}
use reflo_learning.Assessment.Selection.Priority.{IsBest, select_adaptive_questions-IsBest}

abbrev offered : String → String → ℕ → SelectableAssessmentQuestion
offered concept id difficulty = record {
  concept_ids = concept ∷ [];
  difficulty = difficulty;
  id = id;
  normalized_prompt_hash = id;
}

-- "osmosis" is due, "mitosis" is weak and not due, and there is no state for "meiosis".
abbrev selection_input : AdaptiveSelectionInput
selection_input = record {
  concept_states =
      record { concept_id = "osmosis"; due_at = some "5"; mastery = "0.90000" }
      ∷ record { concept_id = "mitosis"; due_at = none; mastery = "0.10000" }
      ∷ [];
  limit = natural 2;
  now = "7";
  questions =
      offered "mitosis" "q-1" 1
      ∷ offered "osmosis" "q-2" 3
      ∷ offered "osmosis" "q-3" 5
      ∷ offered "meiosis" "q-4" 1
      ∷ [];
  seen_prompt_hashes = [];
}

abbrev parse_date : String → Option ℕ
parse_date text = some (of_decimal (units text))

selected_due :
    select_adaptive_questions parse_date selection_input
    ≡ ok (offered "osmosis" "q-3" 5 ∷ offered "osmosis" "q-2" 3 ∷ [])
unfolding select_adaptive_questions limit_of parse_due parse_states state_of target_states
    due_rank_of desired_difficulty candidate_from candidates compare_candidates sort collect add
    units of_decimal parse_unit set_of compare_units
selected_due = refl

select_adaptive_questions-IsBest_example :
    IsBest parse_date selection_input (offered "osmosis" "q-3" 5 ∷ offered "osmosis" "q-2" 3 ∷ [])
select_adaptive_questions-IsBest_example =
    select_adaptive_questions-IsBest parse_date selection_input
      (offered "osmosis" "q-3" 5 ∷ offered "osmosis" "q-2" 3 ∷ []) selected_due
