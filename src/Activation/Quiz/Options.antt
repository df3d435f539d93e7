-- ===== src/Activation/Quiz/Options.antt =====
-- packages/activation/src/service.ts: what `fallbackResponseOptions` offers.
use reflo_learning.Prelude.{
  ◌≤◌, ◌<◌, ◌≡◌, ◌≢◌, refl, inl, inr, String, true, false, some, List, [], ◌∷◌, ◌++◌, length,
  length-append, get_elem?, ◌==◌, ◌===◌, ===_iff, arith, Bool-cases,
}
use reflo_learning.Prelude.TextSets.{has, add, AreDistinct, ne_of_absent, append-AreDistinct}
use reflo_learning.Activation.Quiz.{
  GeneratedQuizItem, is_offered, add_options, no_answer, fallback_response_options,
}

-- From one to four options: the first is the keyed answer, and no two are the same.
record IsOffer (keyed : String) (options : List String) : Type 0 where
  first : get_elem? options 0 ≡ some keyed
  distinct : AreDistinct options
  few : length options ≤ 4

add-IsOffer :
    (keyed s : String) (options : List String)
    → IsOffer keyed options
    → length options < 4
    → IsOffer keyed (add s options)
unfolding add
add-IsOffer keyed s options o room = elim (Bool-cases (has s options)) [
  | inl known ↦ rw known o
  | inr new ↦ rw new (record {
    first = first_kept options o.first;
    distinct = append-AreDistinct s options (ne_of_absent s options new) o.distinct;
    few = omega (arith, length-append options (s ∷ []));
  })
]
  where
    first_kept :
        (xs : List String) → get_elem? xs 0 ≡ some keyed → get_elem? (xs ++ (s ∷ [])) 0 ≡ some keyed
    first_kept [] e = absurd (cc)
    first_kept (x ∷ xs) e = e

add_options-IsOffer :
    (short : GeneratedQuizItem) (options : List String) (items : List GeneratedQuizItem)
    → IsOffer short.keyed_answer options
    → length options < 4
    → IsOffer short.keyed_answer (add_options short options items)
unfolding add_options
add_options-IsOffer short options [] o room = o
add_options-IsOffer short options (item ∷ items) o room =
    elim (Bool-cases (is_offered short item)) [
      | inl yes_offered ↦
          let o' = add-IsOffer short.keyed_answer item.keyed_answer options o room in
          elim (Bool-cases (length (add item.keyed_answer options) == 4)) [
            | inl full ↦ rw (yes_offered, full) o'
            | inr more ↦
                rw (yes_offered, more)
                  (add_options-IsOffer short (add item.keyed_answer options) items o'
                    (ground (arith, o'.few)))
          ]
      | inr passed ↦ elim (Bool-cases (length options == 4)) [
        | inl full ↦ absurd (ground arith)
        | inr more ↦ rw (passed, more) (add_options-IsOffer short options items o room)
      ]
    ]

two_of_one :
    (keyed : String) (options : List String)
    → IsOffer keyed options
    → keyed ≢ no_answer
    → (length options == 1) ≡ true
    → 2 ≤ length (add no_answer options)
unfolding add
two_of_one keyed [] o n one = absurd (ground arith)
two_of_one keyed (x ∷ []) o n one =
    let new : (x === no_answer) ≡ false = ground (arith, ===_iff x no_answer, o.first) in
    rw new (omega arith)
two_of_one keyed (x ∷ y ∷ ys) o n one = absurd (ground arith)

-- Unless the keyed answer is the sentence for lack of any other option, the options are two to four,
-- the keyed answer is the first, and no two are the same.
pub fallback_response_options-AreDistinct :
    (short : GeneratedQuizItem) (items : List GeneratedQuizItem)
    → short.keyed_answer ≢ no_answer
    → (get_elem? (fallback_response_options short items) 0 ≡ some short.keyed_answer)
      × AreDistinct (fallback_response_options short items)
      × (2 ≤ length (fallback_response_options short items))
      × (length (fallback_response_options short items) ≤ 4)
unfolding fallback_response_options
fallback_response_options-AreDistinct short items n =
    let options = add_options short (short.keyed_answer ∷ []) items in
    let o : IsOffer short.keyed_answer options =
      add_options-IsOffer short (short.keyed_answer ∷ []) items
        (record { first = refl; distinct = (tt, tt); few = omega arith }) (omega arith) in
    elim (Bool-cases (length options == 1)) [
      | inl one ↦
          let o' = add-IsOffer short.keyed_answer no_answer options o (ground arith) in
          rw one (o'.first, o'.distinct, two_of_one short.keyed_answer options o n one, o'.few)
      | inr more ↦ rw more (o.first, o.distinct, at_least_two options o.first more, o.few)
    ]
  where
    at_least_two :
        (xs : List String)
        → get_elem? xs 0 ≡ some short.keyed_answer
        → (length xs == 1) ≡ false
        → 2 ≤ length xs
    at_least_two [] e h = absurd (cc)
    at_least_two (x ∷ []) e h = absurd (ground arith)
    at_least_two (x ∷ y ∷ ys) e h = omega arith
