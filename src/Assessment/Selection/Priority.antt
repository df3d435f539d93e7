-- ===== src/Assessment/Selection/Priority.antt =====
-- packages/assessment/src/service.ts: what `selectAdaptiveQuestions` selects, and in which order.
use mathlib.Core.List.{Memᴰ}
use mathlib.Core.Path.{subst}
use reflo_learning.Prelude.{
  ℕ, ◌≡◌, sym, filter_map-All, ◌⊎◌, inl, inr, ◌<◌, ◌≤◌, String, true, false, Option, some, List, [],
  ◌∷◌, map, ok, Number, natural, other, not, length, All, bind_ok, ok-injective, throw_if, ltb,
  ◌==◌, ==_iff, arith, Bool-cases, filter_map-All-back, All-map, throw_if-ok,
}
use reflo_learning.Prelude.Sorting.{sort, sort-All, sort-All-back, IsOrdered, sort-IsOrdered}
use reflo_learning.Prelude.TextSets.{has, AreDistinct}
use reflo_learning.Prelude.Selections.{
  collect-All, IsCovered, IsSelection, collect-IsSelection, none_taken,
}
use reflo_learning.Prelude.Selections.Priority.{IsPassed, collect-IsOrdered}
use reflo_learning.Assessment.Contracts.{invalid_input}
use reflo_learning.Assessment.Rules.{set_of}
use reflo_learning.Assessment.Selection.{
  AdaptiveSelectionInput, SelectableAssessmentQuestion, ConceptState, Candidate, limit_of,
  or_invalid, parse_states, candidate_from, target_states, candidates, compare_candidates, hash_of,
  selected_candidates, select_adaptive_questions,
}
use reflo_learning.Assessment.Selection.States.{
  AreStates, key_of, or_invalid-some, parse_states-AreStates, all_new-AreDistinct,
}
use reflo_learning.Assessment.Selection.Ranks.{
  IsRanked, candidate_from-IsRanked, candidate_from-none,
}
use reflo_learning.Assessment.Selection.Order.{Before, Before-trans, compare_candidates-Decides}

-- Of a candidate: its prompt is selected, or there is no room, and it is not before any that is
-- selected.
abbrev pub IsPassedOver : ℕ → List Candidate → Candidate → Type 0
IsPassedOver limit chosen c =
    (has (hash_of c) (map hash_of chosen) ≡ true)
    ⊎ ((length chosen ≡ limit) × All (λ s. Before s c) chosen)

-- A selected candidate is of a question that is offered, with a new prompt, and its rank is the question's.
abbrev pub IsOffered :
    (now : ℕ)
    → (seen : List String) → List (String × ConceptState)
    → List SelectableAssessmentQuestion
    → Candidate
    → Type 0
IsOffered now seen states questions c =
    Memᴰ c.question questions × (has (hash_of c) seen ≡ false) × IsRanked now states c

-- Of every question: its prompt was seen, or none of its concepts has a state, or its candidate, with the
-- question's rank, is passed over.
abbrev pub IsAccountedFor :
    (now limit : ℕ)
    → (seen : List String) → List (String × ConceptState)
    → List Candidate
    → SelectableAssessmentQuestion
    → Type 0
IsAccountedFor now limit seen states chosen q =
    (has q.normalized_prompt_hash seen ≡ true)
    ⊎ All (λ (p : String × ConceptState). has p.0 q.concept_ids ≡ false) states
    ⊎ ((c : Candidate) × (c.question ≡ q) × IsRanked now states c × IsPassedOver limit chosen c)

-- A candidate is what is computed for a question that is offered and is new.
module _ (now : ℕ) (seen : List String) (states : List (String × ConceptState)) where
  abbrev IsMade : List SelectableAssessmentQuestion → Candidate → Type 0
  IsMade questions c =
      Memᴰ c.question questions
      × (candidate_from now seen c.question (target_states states c.question.concept_ids) ≡ some c)
      × (has (hash_of c) seen ≡ false)

  candidate_from-question :
      (q : SelectableAssessmentQuestion) (targets : List ConceptState) (c : Candidate)
      → candidate_from now seen q targets ≡ some c
      → (c.question ≡ q) × (has q.normalized_prompt_hash seen ≡ false)
  unfolding candidate_from
  candidate_from-question q [] c h = absurd (cc)
  candidate_from-question q (s ∷ ss) c h = elim (Bool-cases (has q.normalized_prompt_hash seen)) [
    | inl old ↦ absurd (ground arith)
    | inr new ↦ (ground arith, new)
  ]

  candidates-IsMade :
      (questions : List SelectableAssessmentQuestion)
      → All (IsMade questions) (candidates now seen states questions)
  unfolding candidates
  candidates-IsMade questions = filter_map-All _ (IsMade questions) questions λ q c member made.
      let (its, new) = candidate_from-question q _ c made in
      (
        subst (λ x. Memᴰ x questions) (sym its) member,
        subst (λ x. candidate_from now seen x (target_states states x.concept_ids) ≡ some c)
            (sym its) made,
        rw its new,
      )

-- What is right about a selection.
pub record IsBest (parse_date : String → Option ℕ) (input : AdaptiveSelectionInput)
    (selected : List SelectableAssessmentQuestion) : Type 0 where
  pub now : ℕ
  pub limit : ℕ
  pub states : List (String × ConceptState)
  pub chosen : List Candidate
  pub has_time : parse_date input.now ≡ some now
  pub has_limit : (input.limit ≡ natural limit) × (0 < limit)
  pub has_states : AreStates parse_date input.concept_states states
  pub own_states : AreDistinct (map key_of states)
  pub is_chosen : selected ≡ map (λ (c : Candidate). c.question) chosen
  pub offered : All (IsOffered now input.seen_prompt_hashes states input.questions) chosen
  pub distinct : AreDistinct (map hash_of chosen)
  pub few : length chosen ≤ limit
  pub ordered : IsOrdered Before chosen
  pub passed_over :
      All (IsAccountedFor now limit input.seen_prompt_hashes states chosen) input.questions

limit_of-natural : (x : Number) {n : ℕ} → limit_of x ≡ ok n → (x ≡ natural n) × (0 < n)
unfolding limit_of
limit_of-natural other h = absurd (cc)
limit_of-natural (natural m) h = (ground arith, ground arith)

module _ (now limit : ℕ) (states : List (String × ConceptState)) (input : AdaptiveSelectionInput)
    (room : 0 < limit) where
  abbrev seen : List String
  seen = input.seen_prompt_hashes

  abbrev all_candidates : List Candidate
  all_candidates = candidates now seen states input.questions

  abbrev sorted : List Candidate
  sorted = sort compare_candidates all_candidates

  abbrev chosen : List Candidate
  chosen = selected_candidates now limit states input

  chosen-IsSelection : IsSelection hash_of limit seen sorted chosen
  chosen-IsSelection =
      (collect-IsSelection hash_of seen limit seen [] sorted (none_taken hash_of seen) room).0

  chosen-IsOrdered : IsOrdered Before chosen × All (IsPassed hash_of Before seen chosen) sorted
  chosen-IsOrdered =
      collect-IsOrdered hash_of Before seen limit seen [] sorted (none_taken hash_of seen)
        (sort-IsOrdered compare_candidates Before Before-trans compare_candidates-Decides
          all_candidates)
        tt tt

  chosen-IsMade : All (IsMade now seen states input.questions) chosen
  chosen-IsMade =
      collect-All hash_of (IsMade now seen states input.questions) limit seen [] sorted tt (
        sort-All compare_candidates (IsMade now seen states input.questions) all_candidates
          (candidates-IsMade now seen states input.questions))

  pass_over :
      (c : Candidate)
      → has (hash_of c) seen ≡ false
      → IsPassed hash_of Before seen chosen c
      → (length chosen < limit → IsCovered hash_of seen chosen c)
      → IsPassedOver limit chosen c
  pass_over c new (inl covered) complete = inl (ground arith)
  pass_over c new (inr after) complete = elim (Bool-cases (ltb (length chosen) limit)) [
    | inl few ↦ inl (ground (arith, complete (ground arith)))
    | inr full ↦ inr ((ground (arith, chosen-IsSelection.few)), after)
  ]

  pass_over_all :
      (cs : List Candidate)
      → All (IsMade now seen states input.questions) cs
      → All (IsPassed hash_of Before seen chosen) cs
      → (length chosen < limit → All (IsCovered hash_of seen chosen) cs)
      → All (IsPassedOver limit chosen) cs
  pass_over_all [] o p complete = tt
  pass_over_all (c ∷ cs) (o, os) (p, ps) complete =
      (pass_over c o.2 p (λ l. (complete l).0), pass_over_all cs os ps (λ l. (complete l).1))

  chosen-passed : All (IsPassedOver limit chosen) all_candidates
  chosen-passed = sort-All-back compare_candidates (IsPassedOver limit chosen) all_candidates (
      pass_over_all sorted
        (sort-All compare_candidates (IsMade now seen states input.questions) all_candidates
          (candidates-IsMade now seen states input.questions))
        chosen-IsOrdered.1 chosen-IsSelection.complete)

  -- The same of the questions, by the ranks of their candidates.
  module _ (distinct : AreDistinct (map key_of states)) where
    made-IsOffered :
        (c : Candidate)
        → IsMade now seen states input.questions c
        → IsOffered now seen states input.questions c
    made-IsOffered c (member, made, new) =
        (member, new, (candidate_from-IsRanked now seen states distinct c.question made).1)

    all-IsAccountedFor : All (IsAccountedFor now limit seen states chosen) input.questions
    unfolding candidates
    all-IsAccountedFor =
        All-map _ (IsAccountedFor now limit seen states chosen)
          (λ q each. elim each [
            | inl nothing ↦ elim (candidate_from-none now seen states distinct q nothing) [
              | inl old ↦ inl old
              | inr stateless ↦ inr (inl stateless)
            ]
            | inr (c, made, passed) ↦
                let (its, rank) = candidate_from-IsRanked now seen states distinct q made in
                inr (inr (c, its, rank, passed))
          ])
          input.questions
          (filter_map-All-back
            (λ question.
              candidate_from now seen question (target_states states question.concept_ids))
            (IsPassedOver limit chosen) input.questions chosen-passed)

-- When `selectAdaptiveQuestions` returns a selection, the states were read for distinct concepts; its
-- questions were offered, have a concept with a state, and have prompts that were not seen and are not
-- the same; there are at most `limit`, which is positive. They stand in order: first those with a concept
-- whose state is due by `now`, and then by the least mastery of the states of their concepts. Any other
-- question was seen, has no concept with a state, or has the prompt of a selected one, or the selection
-- is full and no selected question comes after it in that order.
pub select_adaptive_questions-IsBest :
    (parse_date : String → Option ℕ) (input : AdaptiveSelectionInput)
    (selected : List SelectableAssessmentQuestion)
    → select_adaptive_questions parse_date input ≡ ok selected
    → IsBest parse_date input selected
unfolding select_adaptive_questions
select_adaptive_questions-IsBest parse_date input selected h =
    bind_ok (limit_of input.limit) _ h λ limit has_limit h₁.
      bind_ok (or_invalid (parse_date input.now)) _ h₁ λ now has_now h₂.
        bind_ok (parse_states parse_date input.concept_states) _ h₂ λ states has_states h₃.
          bind_ok
            (throw_if
              (not (length (set_of [] (map (λ s. s.0) states)) == length input.concept_states))
              invalid_input)
            _ h₃
            λ u unique h₄.
              let (is_limit, room) = limit_of-natural input.limit has_limit in
              let (are_states, size) =
                parse_states-AreStates parse_date input.concept_states has_states in
              let distinct = all_new-AreDistinct (map key_of states) (
                ground (
                  arith,
                  throw_if-ok _ _ unique,
                  ==_iff (length (set_of [] (map key_of states))) (length input.concept_states),
                  size,
                )) in
              record {
                now = now;
                limit = limit;
                states = states;
                chosen = selected_candidates now limit states input;
                has_time = or_invalid-some _ has_now;
                has_limit = (is_limit, room);
                has_states = are_states;
                own_states = distinct;
                is_chosen = sym (ok-injective h₄);
                offered =
                    All-map _ (IsOffered now input.seen_prompt_hashes states input.questions)
                      (made-IsOffered now limit states input room distinct)
                      (selected_candidates now limit states input)
                      (chosen-IsMade now limit states input room);
                distinct = (chosen-IsSelection now limit states input room).distinct;
                few = (chosen-IsSelection now limit states input room).few;
                ordered = (chosen-IsOrdered now limit states input room).0;
                passed_over = all-IsAccountedFor now limit states input room distinct;
              }
