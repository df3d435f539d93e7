-- ===== src/Knowledge/Replay/Totals.antt =====
-- What the replay adds up.
use reflo_learning.Prelude.{
  ℕ, ◌+◌, ◌*◌, ◌-◌, ◌≤◌, ◌≡◌, refl, inl, inr, String, Option, none, some, List, [], ◌∷◌, ok,
  if◌then◌else◌, arith, All, Bool-cases, Option-cases,
}
use reflo_learning.Prelude.Decimal.{of_decimal, of_decimal-to_decimal}
use reflo_learning.Knowledge.Contracts.{
  PerConceptEvidence, Instant, ExactKnowledgeState, score_quanta,
}
use reflo_learning.Knowledge.Evidence.{ValidatedEvidence, canonicalize_evidence}
use reflo_learning.Knowledge.Evidence.Soundness.{IsSound, canonicalize_evidence-IsSound}
use reflo_learning.Knowledge.Replay.{
  Tally, prior, count_item, count_items, project_state, replay_knowledge_state,
}

-- The number of items that are eligible for mastery, and the sum of their scores.
abbrev pub eligible_count : List ValidatedEvidence → ℕ
eligible_count [] = 0
eligible_count (v ∷ vs) =
    let rest = eligible_count vs in if v.evidence.eligible_for_mastery then rest + 1 else rest

abbrev pub quanta_of : Option ℕ → ℕ
quanta_of none = 0
quanta_of (some q) = q

abbrev pub eligible_quanta : List ValidatedEvidence → ℕ
eligible_quanta [] = 0
eligible_quanta (v ∷ vs) =
    let rest = eligible_quanta vs in
    if v.evidence.eligible_for_mastery then rest + quanta_of v.score_quanta else rest

record IsAddedUp (t t' : Tally) (items : List ValidatedEvidence) : Type 0 where
  count : t'.evidence_count ≡ t.evidence_count + eligible_count items
  alpha : t'.alpha_quanta ≡ t.alpha_quanta + eligible_quanta items
  mass :
      t'.alpha_quanta + t'.beta_quanta
      ≡ t.alpha_quanta + t.beta_quanta + score_quanta * eligible_count items
  grows : t.beta_quanta ≤ t'.beta_quanta

module _ (to_iso : Instant → String) where
  -- A sound item is never refused.
  count_item-IsAddedUp :
      (t : Tally) (v : ValidatedEvidence)
      → IsSound v
      → (t' : Tally) × (count_item to_iso t v ≡ ok t') × IsAddedUp t t' (v ∷ [])
  unfolding count_item
  count_item-IsAddedUp t v s = elim (Bool-cases v.evidence.eligible_for_mastery) [
    | inl e ↦ elim (Option-cases v.score_quanta) [
      | inl n ↦ absurd (s.scored e n)
      | inr (q, p) ↦ (
        record {
          alpha_quanta = t.alpha_quanta + q;
          beta_quanta = t.beta_quanta + (score_quanta - q);
          evidence_count = t.evidence_count + 1;
          last_reviewed_at = some (to_iso v.occurred_at_ms);
        },
        rw (e, p),
        ground (arith, s.score_le q p),
      )
    ]
    | inr e ↦ (t, rw e, ground arith)
  ]

  count_items-IsAddedUp :
      (t : Tally) (items : List ValidatedEvidence)
      → All IsSound items
      → (t' : Tally) × (count_items to_iso t items ≡ ok t') × IsAddedUp t t' items
  unfolding count_items
  count_items-IsAddedUp t [] h = (t, refl, omega arith)
  count_items-IsAddedUp t (v ∷ vs) h =
      let (t₁, e₁, a₁) = count_item-IsAddedUp t v h.0 in
      let (t₂, e₂, a₂) = count_items-IsAddedUp t₁ vs h.1 in (t₂, rw e₁ e₂, ground (arith, a₁, a₂))

module _ (date_parse : List ℕ → Option Instant) (to_iso : Instant → String) where
  -- When the evidence has a canonical list, the replay returns, the posterior's first parameter is
  -- the prior's with the scores of the eligible items, and the two together have the prior's four
  -- units and one for each eligible item.
  pub replay_knowledge_state-totals :
      (es : List PerConceptEvidence) {items : List ValidatedEvidence}
      → canonicalize_evidence date_parse es ≡ ok items
      → (s : ExactKnowledgeState) × (replay_knowledge_state date_parse to_iso es ≡ ok s)
        × (s.evidence_count ≡ eligible_count items)
        × (of_decimal s.alpha_quanta ≡ score_quanta + eligible_quanta items)
        × (of_decimal s.alpha_quanta + of_decimal s.beta_quanta
            ≡ score_quanta * (4 + s.evidence_count))
  unfolding replay_knowledge_state project_state
  replay_knowledge_state-totals es {items} h =
      let (t, e, a) =
        count_items-IsAddedUp to_iso prior items (canonicalize_evidence-IsSound date_parse es h) in
      (
        project_state t,
        rw h (rw e),
        omega (arith, a.count),
        omega (arith, a.alpha, of_decimal-to_decimal t.alpha_quanta),
        omega (
          arith,
          a.count,
          a.mass,
          of_decimal-to_decimal t.alpha_quanta,
          of_decimal-to_decimal t.beta_quanta,
        ),
      )
