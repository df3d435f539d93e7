-- ===== src/Knowledge/Replay/Mastery.antt =====
-- What the learner sees: the mastery and the confidence that the replay prints.
use reflo_learning.Prelude.{
  ℕ, ◌+◌, ◌<◌, ◌≡◌, String, Option, List, ok, >>=-eq-ok, ok-injective, arith, ap, ◌∙◌, sym,
}
use mathlib.Core.Path.{subst}
use reflo_learning.Prelude.Decimal.{of_decimal, of_decimal-to_decimal}
use reflo_learning.Knowledge.Contracts.{
  PerConceptEvidence, Instant, ExactKnowledgeState, score_quanta,
}
use reflo_learning.Knowledge.Evidence.{ValidatedEvidence, canonicalize_evidence}
use reflo_learning.Knowledge.Evidence.Scores.{parse_score_quanta}
use reflo_learning.Knowledge.Replay.{
  Tally, prior, count_items, project_state, replay_knowledge_state,
}
use reflo_learning.Knowledge.Replay.Totals.{eligible_quanta, replay_knowledge_state-totals}
use reflo_learning.Knowledge.Replay.Rounding.{IsNearest, round_ratio-IsNearest}

-- A text is a score that parses, the nearest to n / d of five decimals.
pub record Prints (text : List ℕ) (n d : ℕ) : Type 0 where
  pub quanta : ℕ
  pub parses : parse_score_quanta text ≡ ok quanta
  pub nearest : IsNearest n d quanta

project_state-Prints :
    (t : Tally)
    → 0 < t.alpha_quanta
    → Prints
        (project_state t).mastery
        (of_decimal (project_state t).alpha_quanta)
        (of_decimal (project_state t).alpha_quanta + of_decimal (project_state t).beta_quanta)
unfolding project_state
project_state-Prints t h =
    let (r, p, n) =
      round_ratio-IsNearest t.alpha_quanta (t.alpha_quanta + t.beta_quanta) (omega arith)
        (omega arith) in
    rw (of_decimal-to_decimal t.alpha_quanta, of_decimal-to_decimal t.beta_quanta)
      (record { quanta = r; parses = p; nearest = n })

project_state-confidence :
    (t : Tally)
    → Prints
        (project_state t).confidence
        (project_state t).evidence_count
        ((project_state t).evidence_count + 4)
unfolding project_state
project_state-confidence t =
    let (r, p, n) =
      round_ratio-IsNearest t.evidence_count (t.evidence_count + 4) (omega arith) (omega arith) in
    record { quanta = r; parses = p; nearest = n }

positive_alpha :
    (t : Tally) (n : ℕ)
    → of_decimal (project_state t).alpha_quanta ≡ score_quanta + n
    → 0 < t.alpha_quanta
unfolding project_state
positive_alpha t n h = omega (arith, of_decimal-to_decimal t.alpha_quanta)

module _ (date_parse : List ℕ → Option Instant) (to_iso : Instant → String) where
  replayed :
      (es : List PerConceptEvidence) {s : ExactKnowledgeState}
      → replay_knowledge_state date_parse to_iso es ≡ ok s
      → (items : List ValidatedEvidence) × (canonicalize_evidence date_parse es ≡ ok items)
        × (t : Tally) × (project_state t ≡ s)
  unfolding replay_knowledge_state
  replayed es h =
      let (items, c, rest) = >>=-eq-ok (canonicalize_evidence date_parse es) _ h in
      let (t, _, e) = >>=-eq-ok (count_items to_iso prior items) _ rest in
      (items, c, t, ok-injective e)

  -- The mastery that a replay prints is the posterior mean alpha / (alpha + beta), and its
  -- confidence n / (n + 4) for n counted items, each rounded to the nearest of five decimals.
  pub replay_knowledge_state-Prints :
      (es : List PerConceptEvidence) {s : ExactKnowledgeState}
      → replay_knowledge_state date_parse to_iso es ≡ ok s
      → Prints s.mastery
          (of_decimal s.alpha_quanta)
          (of_decimal s.alpha_quanta + of_decimal s.beta_quanta)
        × Prints s.confidence s.evidence_count (s.evidence_count + 4)
  replay_knowledge_state-Prints es {s} h =
      let (items, c, t, e) = replayed es h in
      let (s', r, _, alpha, _) = replay_knowledge_state-totals date_parse to_iso es c in
      let same : s' ≡ s = ok-injective (sym r ∙ h) in
      let positive : 0 < t.alpha_quanta =
        positive_alpha t (eligible_quanta items)
          (ap (λ x. of_decimal x.alpha_quanta) (e ∙ sym same) ∙ alpha) in
      subst
        (λ x.
          Prints x.mastery (of_decimal x.alpha_quanta)
            (of_decimal x.alpha_quanta + of_decimal x.beta_quanta)
          × Prints x.confidence x.evidence_count (x.evidence_count + 4))
        e (project_state-Prints t positive, project_state-confidence t)
