-- ===== src/Activation/Tests.antt =====
-- packages/activation: a selection and an offer of options from a few items.
use reflo_learning.Prelude.{
  ◌≤◌, ◌≡◌, refl, String, some, List, [], ◌∷◌, natural, ok, length, get_elem?, units, trim,
  is_space,
}
use reflo_learning.Prelude.TextSets.{add, AreDistinct}
use reflo_learning.Prelude.Selections.{collect}
use reflo_learning.Activation.Quiz.{
  GeneratedQuizItem, select_unseen_quiz_items, is_offered, add_options, fallback_response_options,
}
use reflo_learning.Activation.Quiz.Options.{fallback_response_options-AreDistinct}

abbrev item : String → String → String → GeneratedQuizItem
item id hash answer = record {
  concept_ids = "c1" ∷ [];
  id = id;
  item_order = 0;
  keyed_answer = answer;
  normalized_prompt_hash = hash;
  prompt = "What is it?";
  source_span_ids = "s1" ∷ [];
}

abbrev four_items : List GeneratedQuizItem
four_items =
    item "i1" "h1" "heat" ∷ item "i2" "h2" " " ∷ item "i3" "h1" "work" ∷ item "i4" "h3" "heat" ∷ []

-- The prompt of the third item is that of the first one.
two_selected :
    select_unseen_quiz_items four_items ("h2" ∷ []) (natural 3)
    ≡ ok (item "i1" "h1" "heat" ∷ item "i4" "h3" "heat" ∷ [])
unfolding select_unseen_quiz_items collect add
two_selected = refl

two_options : fallback_response_options (item "i1" "h1" "heat") four_items ≡ "heat" ∷ "work" ∷ []
unfolding fallback_response_options add_options is_offered add units trim is_space
two_options = refl

fallback_response_options-AreDistinct_example :
    (get_elem? (fallback_response_options (item "i1" "h1" "heat") four_items) 0 ≡ some "heat")
    × AreDistinct (fallback_response_options (item "i1" "h1" "heat") four_items)
    × (2 ≤ length (fallback_response_options (item "i1" "h1" "heat") four_items))
    × (length (fallback_response_options (item "i1" "h1" "heat") four_items) ≤ 4)
fallback_response_options-AreDistinct_example =
    fallback_response_options-AreDistinct (item "i1" "h1" "heat") four_items (λ e. cc)
