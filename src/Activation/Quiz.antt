-- ===== src/Activation/Quiz.antt =====
-- packages/activation/src/service.ts: `selectUnseenQuizItems` and `fallbackResponseOptions`, over the
-- items of contracts.ts. A rubric and the difficulty of an item are left out: nothing here reads them.
pub mod Selection
pub mod Options
use reflo_learning.Prelude.{
  ℕ, zero, suc, String, Bool, true, false, not, ◌&&◌, List, [], ◌∷◌, ◌++◌, Number, natural, other,
  Result, ok, err, length, any, ◌==◌, ◌===◌, if◌then◌else◌, units, trim,
}
use reflo_learning.Prelude.TextSets.{add}
use reflo_learning.Prelude.Selections.{collect}

pub data ActivationGenerationErrorCode : Type 0 where
  authorization_denied content_out_of_bounds invalid_configuration : ActivationGenerationErrorCode
  invalid_result operation_unavailable regeneration_cooldown : ActivationGenerationErrorCode

pub record GeneratedQuizItem : Type 0 where
  pub concept_ids : List String
  pub id : String
  pub item_order : ℕ
  pub keyed_answer : String
  pub normalized_prompt_hash : String
  pub prompt : String
  pub source_span_ids : List String

abbrev pub hash_of : GeneratedQuizItem → String
hash_of item = item.normalized_prompt_hash

unfoldable pub select_unseen_quiz_items :
    List GeneratedQuizItem
    → List String
    → Number
    → Result ActivationGenerationErrorCode (List GeneratedQuizItem)
select_unseen_quiz_items items attempted other = err invalid_configuration
select_unseen_quiz_items items attempted (natural zero) = err invalid_configuration
select_unseen_quiz_items items attempted (natural (suc n)) =
    ok (collect hash_of (suc n) attempted [] items)

abbrev is_blank : List ℕ → Bool
is_blank [] = true
is_blank (c ∷ cs) = false

unfoldable pub is_offered : GeneratedQuizItem → GeneratedQuizItem → Bool
is_offered short_answer item =
    not (item.id === short_answer.id) && not (is_blank (trim (units item.keyed_answer)))

-- The loop of `fallbackResponseOptions`.
unfoldable pub add_options : GeneratedQuizItem → List String → List GeneratedQuizItem → List String
add_options short_answer options [] = options
add_options short_answer options (item ∷ items) =
    let options' =
      if is_offered short_answer item then add item.keyed_answer options else options in
    let rest = add_options short_answer options' items in
    if length options' == 4 then options' else rest

abbrev pub no_answer : String
no_answer = "The course material does not provide a supported answer."

unfoldable pub fallback_response_options : GeneratedQuizItem → List GeneratedQuizItem → List String
fallback_response_options short_answer items =
    let options = add_options short_answer (short_answer.keyed_answer ∷ []) items in
    if length options == 1 then add no_answer options else options
