-- ===== src/Knowledge/Replay.antt =====
-- packages/knowledge-model/src/knowledge-model.ts: `replayKnowledgeState`, `projectState` and
-- `roundRatio`. `Date.parse` and `toISOString` are the parameters `date_parse` and `to_iso`.
pub mod Ratio
pub mod Totals
pub mod Rounding
pub mod Mastery
use reflo_learning.Prelude.{
  ℕ, suc, ◌+◌, ◌-◌, ◌≡◌, String, Bool, Option, none, some, List, [], ◌∷◌, Result, ok, err, ◌>>=◌,
  ◌==◌, if◌then◌else◌,
}
use reflo_learning.Prelude.Decimal.{to_decimal}
use reflo_learning.Knowledge.Contracts.{
  PerConceptEvidence, Instant, ExactKnowledgeState, AssessmentStatus, unassessed, assessed,
  score_quanta, knowledge_algorithm_version, knowledge_configuration_id, prior_alpha_quanta,
  prior_beta_quanta, invalid_evidence,
}
use reflo_learning.Knowledge.Evidence.{Throws, ValidatedEvidence, canonicalize_evidence}
use Ratio.{round_ratio}

-- The variables of the loop.
pub record Tally : Type 0 where
  pub alpha_quanta : ℕ
  pub beta_quanta : ℕ
  pub evidence_count : ℕ
  pub last_reviewed_at : Option String

abbrev pub prior : Tally
prior = record {
  alpha_quanta = prior_alpha_quanta;
  beta_quanta = prior_beta_quanta;
  evidence_count = 0;
  last_reviewed_at = none;
}

unfoldable pub project_state : Tally → ExactKnowledgeState
project_state t = record {
  algorithm_version = knowledge_algorithm_version;
  alpha_quanta = to_decimal t.alpha_quanta;
  assessment_status = if t.evidence_count == 0 then unassessed else assessed;
  beta_quanta = to_decimal t.beta_quanta;
  confidence = round_ratio t.evidence_count (t.evidence_count + 4);
  configuration_id = knowledge_configuration_id;
  evidence_count = t.evidence_count;
  last_reviewed_at = t.last_reviewed_at;
  mastery = round_ratio t.alpha_quanta (t.alpha_quanta + t.beta_quanta);
}

module _ (to_iso : Instant → String) where
  -- One round of the loop: evidence that is not eligible is passed over.
  unfoldable pub count_item : Tally → ValidatedEvidence → Throws Tally
  count_item t item =
      if item.evidence.eligible_for_mastery
      then elim item.score_quanta [
        | none ↦ err invalid_evidence
        | some q ↦ ok (record {
          alpha_quanta = t.alpha_quanta + q;
          beta_quanta = t.beta_quanta + (score_quanta - q);
          evidence_count = t.evidence_count + 1;
          last_reviewed_at = some (to_iso item.occurred_at_ms);
        })
      ]
      else ok t

  unfoldable pub count_items : Tally → List ValidatedEvidence → Throws Tally
  count_items t [] = ok t
  count_items t (item ∷ items) = do t' ← count_item t item; count_items t' items

module _ (date_parse : List ℕ → Option Instant) (to_iso : Instant → String) where
  unfoldable pub replay_knowledge_state : List PerConceptEvidence → Throws ExactKnowledgeState
  replay_knowledge_state es = do
    canonical ← canonicalize_evidence date_parse es
    t ← count_items to_iso prior canonical
    ok (project_state t)
