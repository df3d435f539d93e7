-- ===== src/Knowledge/Tests.antt =====
-- packages/knowledge-model: the replay on concrete evidence.
use mathlib.Core.List.{Memᴰ}
use reflo_learning.Prelude.{
  ℕ, ◌+◌, ◌*◌, ◌≡◌, refl, true, String, Option, some, List, [], ◌∷◌, ◌++◌, ok, All, arith, units,
  units_eq, compare_units, eat_digits, eat, span_digits,
}
use reflo_learning.Prelude.Decimal.{of_decimal, to_decimal, pad_start, pad_end}
use reflo_learning.Prelude.Sorting.{sort}
use reflo_learning.Knowledge.Contracts.{
  PerConceptEvidence, Instant, since, ExactKnowledgeState, score_quanta,
}
use reflo_learning.Knowledge.Evidence.{
  ValidatedEvidence, canonicalize_evidence, observe, observe_all, merge, get_unique, same_evidence,
  evidence_identity, validate_evidence, has_empty_field, bad_outcome, bad_rating, optional_score,
  parse_trusted_timestamp, is_parsed_as, compare_evidence,
}
use reflo_learning.Knowledge.Evidence.Scores.{parse_score_quanta, fraction, score_of}
use reflo_learning.Knowledge.Evidence.Timestamps.{is_trusted_timestamp, normalize_timestamp_order}
use reflo_learning.Knowledge.Evidence.Canonical.{canonicalize_evidence-redelivered}
use reflo_learning.Knowledge.Evidence.Soundness.{IsSound, canonicalize_evidence-IsSound}
use reflo_learning.Knowledge.Replay.{replay_knowledge_state, count_item, count_items, project_state}
use reflo_learning.Knowledge.Replay.Ratio.{round_ratio, rounded_quanta, five_places}
use reflo_learning.Knowledge.Replay.Totals.{
  eligible_count, eligible_quanta, replay_knowledge_state-totals,
}
use reflo_learning.Knowledge.Replay.Rounding.{
  IsNearest, round_ratio-IsNearest, parse_score_quanta-five_places,
}
use reflo_learning.Knowledge.Replay.Mastery.{Prints, replay_knowledge_state-Prints}

-- The instants of one timestamp; no other is asked for below.
abbrev at_noon : List ℕ → Option Instant
at_noon cs = some (since 1_767_268_800_000)

abbrev noon_text : Instant → String
noon_text t = "2026-01-01T12:00:00.000Z"

abbrev graded : String → PerConceptEvidence
graded attempt = record {
  attempt_created_at = "2026-01-01T12:00:00.000Z";
  attempt_created_at_order = "2026-01-01T12:00:00.000000Z";
  attempt_id = attempt;
  attempt_outcome = "graded";
  concept_id = "c1";
  eligible_for_mastery = true;
  fsrs_rating = some 3;
  grading_policy_version = "g1";
  knowledge_algorithm_version = "knowledge-model-v1";
  knowledge_configuration_id = "beta-1-3-unit-mass-score-5dp-v1";
  owner_scope_id = "o1";
  rating_mapping_version = "r1";
  score = some "0.75000";
  user_id = "u1";
}

abbrev validated : String → ValidatedEvidence
validated attempt = record {
  evidence = graded attempt;
  occurred_at_ms = since 1_767_268_800_000;
  timestamp_order = units "2026-01-01T12:00:00.000000Z";
  score_quanta = some 75_000;
}

abbrev two_attempts : List PerConceptEvidence
two_attempts = graded "a2" ∷ graded "a1" ∷ []

abbrev two_items : List ValidatedEvidence
two_items = validated "a1" ∷ validated "a2" ∷ []

two_canonical : canonicalize_evidence at_noon two_attempts ≡ ok two_items
unfolding canonicalize_evidence observe observe_all merge get_unique same_evidence evidence_identity
    validate_evidence has_empty_field bad_outcome bad_rating optional_score parse_trusted_timestamp
    is_parsed_as compare_evidence parse_score_quanta fraction score_of is_trusted_timestamp
    normalize_timestamp_order sort units units_eq compare_units eat_digits eat span_digits
    of_decimal pad_end
two_canonical = refl

canonicalize_evidence-redelivered_example :
    canonicalize_evidence at_noon (two_attempts ++ (graded "a1" ∷ [])) ≡ ok two_items
canonicalize_evidence-redelivered_example =
    canonicalize_evidence-redelivered at_noon two_attempts (graded "a1" ∷ []) two_canonical
      (Memᴰ.tail (Memᴰ.head refl), tt)

canonicalize_evidence-IsSound_example : All IsSound two_items
canonicalize_evidence-IsSound_example =
    canonicalize_evidence-IsSound at_noon two_attempts two_canonical

replay_knowledge_state-totals_example :
    (s : ExactKnowledgeState) × (replay_knowledge_state at_noon noon_text two_attempts ≡ ok s)
    × (s.evidence_count ≡ eligible_count two_items)
    × (of_decimal s.alpha_quanta ≡ score_quanta + eligible_quanta two_items)
    × (of_decimal s.alpha_quanta + of_decimal s.beta_quanta ≡ score_quanta * (4 + s.evidence_count))
replay_knowledge_state-totals_example =
    replay_knowledge_state-totals at_noon noon_text two_attempts two_canonical

-- Two scores of 0.75 on top of the prior: 2.5 of 6 units.
abbrev two_state : ExactKnowledgeState
two_state = project_state (record {
  alpha_quanta = 250_000;
  beta_quanta = 350_000;
  evidence_count = 2;
  last_reviewed_at = some "2026-01-01T12:00:00.000Z";
})

two_replayed : replay_knowledge_state at_noon noon_text two_attempts ≡ ok two_state
unfolding replay_knowledge_state count_items count_item
two_replayed = rw two_canonical refl

replay_knowledge_state-Prints_example :
    Prints two_state.mastery
      (of_decimal two_state.alpha_quanta)
      (of_decimal two_state.alpha_quanta + of_decimal two_state.beta_quanta)
    × Prints two_state.confidence two_state.evidence_count (two_state.evidence_count + 4)
replay_knowledge_state-Prints_example =
    replay_knowledge_state-Prints at_noon noon_text two_attempts two_replayed

two_mastery : (two_state.mastery ≡ units "0.41667") × (two_state.confidence ≡ units "0.33333")
unfolding project_state round_ratio rounded_quanta five_places pad_start to_decimal units
two_mastery = (refl, refl)

round_ratio-IsNearest_example :
    (r : ℕ) × (parse_score_quanta (round_ratio 1 8) ≡ ok r) × IsNearest 1 8 r
round_ratio-IsNearest_example = round_ratio-IsNearest 1 8 (omega arith) (omega arith)

parse_score_quanta-five_places_example :
    parse_score_quanta (five_places (pad_start 6 (to_decimal 12_500))) ≡ ok 12_500
parse_score_quanta-five_places_example = parse_score_quanta-five_places 12_500 (omega arith)
