-- ===== src/Assessment/Selection/Ranks.antt =====
-- packages/assessment/src/service.ts: what a candidate's rank says of its question and of the states.
use mathlib.Core.List.{Memᴰ}
use mathlib.Core.Path.{subst}
use reflo_learning.Prelude.{
  ℕ, ◌≤◌, ◌<◌, ◌≡◌, refl, sym, ap, ◌∙◌, ◌⊎◌, inl, inr, String, true, false, Option, none, some,
  List, [], ◌∷◌, map, All, All-map, All-lookup, All-members, filter_map-All, filter_map-Memᴰ, arith,
  Bool-cases, min, leb,
}
use reflo_learning.Prelude.TextSets.{has, has-Memᴰ, Memᴰ-has, AreDistinct}
use reflo_learning.Assessment.Selection.{
  SelectableAssessmentQuestion, ConceptState, Candidate, state_of, target_states, weakest, earlier,
  earliest, due_rank_of, candidate_from,
}
use reflo_learning.Assessment.Selection.States.{key_of, state_of-Memᴰ, Memᴰ-state_of}

abbrev pub IsDueAt : (now : ℕ) → Option ℕ → Type 0
IsDueAt now none = ⊥
IsDueAt now (some t) = t ≤ now

abbrev pub IsLaterAt : (now : ℕ) → Option ℕ → Type 0
IsLaterAt now none = Unit
IsLaterAt now (some t) = now < t

-- One of the states is of a concept of the question.
pub record IsTracked (states : List (String × ConceptState)) (concepts : List String)
    (p : String × ConceptState) : Type 0 where
  pub known : Memᴰ p states
  pub of_concept : has p.0 concepts ≡ true

-- A question is due if one of the states of its concepts is due by now, and its mastery is the least of
-- the states of its concepts.
pub record IsRanked (now : ℕ) (states : List (String × ConceptState)) (c : Candidate) : Type 0 where
  pub weak : String × ConceptState
  pub weak-IsTracked : IsTracked states c.question.concept_ids weak
  pub mastery : c.weakest_mastery ≡ weak.1.mastery
  pub least :
      All
        (λ (p : String × ConceptState).
          (has p.0 c.question.concept_ids ≡ false) ⊎ (c.weakest_mastery ≤ p.1.mastery))
        states
  pub due :
      ((c.due_rank ≡ 0)
        × ((p : String × ConceptState) × IsTracked states c.question.concept_ids p
            × IsDueAt now p.1.due_at))
      ⊎ ((c.due_rank ≡ 1)
          × All
              (λ (p : String × ConceptState).
                (has p.0 c.question.concept_ids ≡ false) ⊎ IsLaterAt now p.1.due_at)
              states)

weakest-All :
    (s : ConceptState) (ss : List ConceptState)
    → All (λ (t : ConceptState). weakest s ss ≤ t.mastery) (s ∷ ss)
weakest-All s [] = (omega arith, tt)
weakest-All s (t ∷ ts) = (
  omega arith,
  All-map _ (λ (x : ConceptState). min s.mastery (weakest t ts) ≤ x.mastery)
      (λ x le. omega (arith, le)) (t ∷ ts) (weakest-All t ts),
)

weakest-Memᴰ :
    (s : ConceptState) (ss : List ConceptState)
    → (t : ConceptState) × Memᴰ t (s ∷ ss) × (weakest s ss ≡ t.mastery)
weakest-Memᴰ s [] = (s, Memᴰ.head refl, refl)
weakest-Memᴰ s (t ∷ ts) =
    let (x, member, e) = weakest-Memᴰ t ts in
    elim (Bool-cases (leb s.mastery (weakest t ts))) [
      | inl first ↦ (s, Memᴰ.head refl, ground arith)
      | inr later ↦ (x, Memᴰ.tail member, ground (arith, e))
    ]

module _ (now : ℕ) where
  earlier-IsDueAt : (a b : Option ℕ) → IsDueAt now (earlier a b) → IsDueAt now a ⊎ IsDueAt now b
  earlier-IsDueAt none b h = inr h
  earlier-IsDueAt (some a) none h = inl h
  earlier-IsDueAt (some a) (some b) h = elim (Bool-cases (leb a b)) [
    | inl first ↦ inl (ground arith)
    | inr second ↦ inr (ground arith)
  ]

  earlier-IsLaterAt :
      (a b : Option ℕ) → IsLaterAt now (earlier a b) → IsLaterAt now a × IsLaterAt now b
  earlier-IsLaterAt none b h = (tt, h)
  earlier-IsLaterAt (some a) none h = (h, tt)
  earlier-IsLaterAt (some a) (some b) h = (omega (arith, h), omega (arith, h))

  earliest-IsDueAt :
      (s : ConceptState) (ss : List ConceptState)
      → IsDueAt now (earliest s ss)
      → (t : ConceptState) × Memᴰ t (s ∷ ss) × IsDueAt now t.due_at
  earliest-IsDueAt s [] h = (s, Memᴰ.head refl, h)
  earliest-IsDueAt s (t ∷ ts) h = elim (earlier-IsDueAt s.due_at (earliest t ts) h) [
    | inl here ↦ (s, Memᴰ.head refl, here)
    | inr later ↦ let (x, member, due) = earliest-IsDueAt t ts later in (x, Memᴰ.tail member, due)
  ]

  earliest-IsLaterAt :
      (s : ConceptState) (ss : List ConceptState)
      → IsLaterAt now (earliest s ss)
      → All (λ (t : ConceptState). IsLaterAt now t.due_at) (s ∷ ss)
  earliest-IsLaterAt s [] h = (h, tt)
  earliest-IsLaterAt s (t ∷ ts) h =
      let (here, later) = earlier-IsLaterAt s.due_at (earliest t ts) h in
      (here, earliest-IsLaterAt t ts later)

  due_rank_of_cases :
      (o : Option ℕ)
      → ((due_rank_of now o ≡ 0) × IsDueAt now o) ⊎ ((due_rank_of now o ≡ 1) × IsLaterAt now o)
  unfolding due_rank_of
  due_rank_of_cases none = inr (refl, tt)
  due_rank_of_cases (some t) = elim (Bool-cases (leb t now)) [
    | inl due ↦ inl (ground arith, ground arith)
    | inr later ↦ inr (ground arith, ground arith)
  ]

module _ (states : List (String × ConceptState)) (distinct : AreDistinct (map key_of states))
    (concepts : List String) where
  target-IsTracked :
      All
        (λ (t : ConceptState).
          (p : String × ConceptState) × IsTracked states concepts p × (p.1 ≡ t))
        (target_states states concepts)
  unfolding target_states
  target-IsTracked =
      filter_map-All (λ concept. state_of concept states) _ concepts
        λ concept t member found. (
          (concept, t),
          record {
            known = state_of-Memᴰ concept states found;
            of_concept = has-Memᴰ concept concepts member;
          },
          refl,
        )

  target-Memᴰ :
      (p : String × ConceptState)
      → Memᴰ p states
      → has p.0 concepts ≡ true
      → Memᴰ p.1 (target_states states concepts)
  unfolding target_states
  target-Memᴰ p member h =
      filter_map-Memᴰ (λ concept. state_of concept states) concepts (Memᴰ-has p.0 concepts h)
        (Memᴰ-state_of p states distinct member)

  -- What holds of the targets holds of every state that is of one of the concepts.
  pub tracked_all :
      (P : ConceptState → Type 0)
      → All P (target_states states concepts)
      → All (λ (p : String × ConceptState). (has p.0 concepts ≡ false) ⊎ P p.1) states
  tracked_all P h =
      All-map _ (λ (p : String × ConceptState). (has p.0 concepts ≡ false) ⊎ P p.1)
        (λ p member. elim (Bool-cases (has p.0 concepts)) [
          | inl of_it ↦ inr (All-lookup P _ h (target-Memᴰ p member of_it))
          | inr other ↦ inl other
        ])
        states (All-members states)

module _ (now : ℕ) (seen : List String) (states : List (String × ConceptState))
    (distinct : AreDistinct (map key_of states)) (q : SelectableAssessmentQuestion) where
  ranked :
      (targets : List ConceptState) {c : Candidate}
      → target_states states q.concept_ids ≡ targets
      → candidate_from now seen q targets ≡ some c
      → (c.question ≡ q) × IsRanked now states c
  unfolding candidate_from
  ranked [] e h = absurd (cc)
  ranked (s ∷ ss) {c} e h = elim (Bool-cases (has q.normalized_prompt_hash seen)) [
    | inl old ↦ absurd (ground arith)
    | inr new ↦
        let concepts = q.concept_ids in
        let tracked =
          subst
            (All (λ (t : ConceptState).
              (p : String × ConceptState) × IsTracked states concepts p × (p.1 ≡ t)))
            e (target-IsTracked states distinct concepts) in
        let every : (P : ConceptState → Type 0)
            → All P (s ∷ ss)
            → All (λ (p : String × ConceptState). (has p.0 concepts ≡ false) ⊎ P p.1) states =
          λ P h. tracked_all states distinct concepts P (subst (All P) (sym e) h) in
        let (t, member, weak_at) = weakest-Memᴰ s ss in
        let (p, p-IsTracked, its) = All-lookup _ (s ∷ ss) tracked member in
        subst (λ (c : Candidate). (c.question ≡ q) × IsRanked now states c)
          (some-injective (rw new at h))
          (
            refl,
            record {
              weak = p;
              weak-IsTracked = p-IsTracked;
              mastery = weak_at ∙ ap (λ (x : ConceptState). x.mastery) (sym its);
              least = every (λ t. weakest s ss ≤ t.mastery) (weakest-All s ss);
              due = elim (due_rank_of_cases now (earliest s ss)) [
                | inl (rank, due) ↦
                    let (x, member, due_then) = earliest-IsDueAt now s ss due in
                    let (p, p-IsTracked, its) = All-lookup _ (s ∷ ss) tracked member in
                    inl (
                      rank,
                      (
                        p,
                        p-IsTracked,
                        subst (λ (y : ConceptState). IsDueAt now y.due_at) (sym its) due_then,
                      ),
                    )
                | inr (rank, later) ↦
                    inr (
                      rank,
                      every (λ t. IsLaterAt now t.due_at) (earliest-IsLaterAt now s ss later),
                    )
              ];
            },
          )
  ]
    where
      some-injective : {a b : Candidate} → some a ≡ some b → a ≡ b
      some-injective e = cc

  pub candidate_from-IsRanked :
      {c : Candidate}
      → candidate_from now seen q (target_states states q.concept_ids) ≡ some c
      → (c.question ≡ q) × IsRanked now states c
  candidate_from-IsRanked h = ranked (target_states states q.concept_ids) refl h

  untracked :
      (targets : List ConceptState)
      → target_states states q.concept_ids ≡ targets
      → candidate_from now seen q targets ≡ none
      → (has q.normalized_prompt_hash seen ≡ true)
        ⊎ All (λ (p : String × ConceptState). has p.0 q.concept_ids ≡ false) states
  unfolding candidate_from
  untracked [] e h = inr (
      All-map _ _ (λ (p : String × ConceptState) c. elim c [ inl f ↦ f | inr never ↦ absurd never ])
        states
        (tracked_all states distinct q.concept_ids (λ t. ⊥)
          (subst (All (λ (t : ConceptState). ⊥)) (sym e) tt)))
  untracked (s ∷ ss) e h = inl (ground arith)

  -- A question without a candidate has a prompt that was seen, or no concept with a state.
  pub candidate_from-none :
      candidate_from now seen q (target_states states q.concept_ids) ≡ none
      → (has q.normalized_prompt_hash seen ≡ true)
        ⊎ All (λ (p : String × ConceptState). has p.0 q.concept_ids ≡ false) states
  candidate_from-none h = untracked (target_states states q.concept_ids) refl h
