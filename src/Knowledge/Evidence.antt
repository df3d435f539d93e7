-- ===== src/Knowledge/Evidence.antt =====
-- packages/knowledge-model/src/knowledge-model.ts: `canonicalizeEvidence` and what it calls.
-- `Date.parse` is the parameter `date_parse`: on fractions of more than three digits and on
-- offsets it is the engine's.
pub mod Scores
pub mod Timestamps
pub mod Canonical
pub mod Soundness
pub mod Merge
use reflo_learning.Prelude.{
  ℕ, String, Bool, true, false, not, ◌&&◌, ◌||◌, Option, none, some, List, [], ◌∷◌, ◌++◌, map,
  Result, ok, err, ◌>>=◌, ◌>>◌, throw_if, ◌==◌, ◌===◌, if◌then◌else◌, units, is_empty, units_eq,
  compare_units, Ordering, find,
}
use reflo_learning.Prelude.Sorting.{sort}
use reflo_learning.Knowledge.Contracts.{
  PerConceptEvidence, Instant, since, before, knowledge_algorithm_version,
  knowledge_configuration_id, KnowledgeModelErrorCode, conflicting_duplicate, invalid_evidence,
  invalid_timestamp, unsupported_algorithm,
}
use Scores.{parse_score_quanta}
use Timestamps.{is_trusted_timestamp, normalize_timestamp_order}

abbrev pub Throws : Type 0 → Type 0
Throws A = Result KnowledgeModelErrorCode A

pub record ValidatedEvidence : Type 0 where
  pub evidence : PerConceptEvidence
  pub occurred_at_ms : Instant
  pub timestamp_order : List ℕ
  pub score_quanta : Option ℕ

abbrev pub instant_eq : Instant → Instant → Bool
instant_eq (since a) (since b) = a == b
instant_eq (before a) (before b) = a == b
instant_eq _ _ = false

abbrev pub option_eq : Option ℕ → Option ℕ → Bool
option_eq none none = true
option_eq (some a) (some b) = a == b
option_eq _ _ = false

abbrev pub bool_eq : Bool → Bool → Bool
bool_eq true b = b
bool_eq false b = not b

abbrev pub is_some {ℓ} : {A : Type ℓ} → Option A → Bool
is_some none = false
is_some (some a) = true

-- `[ownerScopeId, attemptId, conceptId].join("/")`
unfoldable pub evidence_identity : PerConceptEvidence → List ℕ
evidence_identity e =
    units e.owner_scope_id ++ (b'/' ∷ (units e.attempt_id ++ (b'/' ∷ units e.concept_id)))

unfoldable pub same_evidence : ValidatedEvidence → ValidatedEvidence → Bool
same_evidence left right =
    instant_eq left.occurred_at_ms right.occurred_at_ms
    && units_eq left.timestamp_order right.timestamp_order
    && option_eq left.score_quanta right.score_quanta
    && left.evidence.user_id === right.evidence.user_id
    && left.evidence.attempt_outcome === right.evidence.attempt_outcome
    && bool_eq left.evidence.eligible_for_mastery right.evidence.eligible_for_mastery
    && option_eq left.evidence.fsrs_rating right.evidence.fsrs_rating
    && left.evidence.grading_policy_version === right.evidence.grading_policy_version
    && left.evidence.rating_mapping_version === right.evidence.rating_mapping_version
    && left.evidence.knowledge_algorithm_version === right.evidence.knowledge_algorithm_version
    && left.evidence.knowledge_configuration_id === right.evidence.knowledge_configuration_id

-- `a || b` on the numbers that `compareAscii` returns.
abbrev pub or_else : Ordering → Ordering → Ordering
or_else Ordering.eq o = o
or_else o _ = o

unfoldable pub compare_evidence : ValidatedEvidence → ValidatedEvidence → Ordering
compare_evidence left right = or_else (compare_units left.timestamp_order right.timestamp_order) (
    or_else (compare_units (units left.evidence.attempt_id) (units right.evidence.attempt_id))
      (compare_units (units left.evidence.concept_id) (units right.evidence.concept_id)))

unfoldable pub has_empty_field : PerConceptEvidence → Bool
has_empty_field e =
    is_empty e.owner_scope_id
    || is_empty e.user_id
    || is_empty e.attempt_id
    || is_empty e.concept_id
    || is_empty e.grading_policy_version
    || is_empty e.rating_mapping_version

unfoldable pub bad_outcome : PerConceptEvidence → Bool
bad_outcome e =
    not (
      e.attempt_outcome === "abstained"
      || e.attempt_outcome === "graded"
      || e.attempt_outcome === "superseded")
    || (e.eligible_for_mastery && not (e.attempt_outcome === "graded"))

unfoldable pub bad_rating : Bool → Option ℕ → Bool
bad_rating eligible none = eligible
bad_rating eligible (some r) = not eligible || (not (r == 1) && not (r == 3))

unfoldable pub optional_score : Option String → Throws (Option ℕ)
optional_score none = ok none
optional_score (some score) = do q ← parse_score_quanta (units score); ok (some q)

module _ (date_parse : List ℕ → Option Instant) where
  unfoldable pub parse_trusted_timestamp : String → Throws Instant
  parse_trusted_timestamp value =
      if is_trusted_timestamp (units value)
      then elim (date_parse (units value)) [ none ↦ err invalid_timestamp | some t ↦ ok t ]
      else err invalid_timestamp

  unfoldable pub is_parsed_as : List ℕ → Instant → Bool
  is_parsed_as order t = elim (date_parse order) [ none ↦ false | some t' ↦ instant_eq t' t ]

  unfoldable pub validate_evidence : PerConceptEvidence → Throws ValidatedEvidence
  validate_evidence e = do
    throw_if
        (not (e.knowledge_algorithm_version === knowledge_algorithm_version)
          || not (e.knowledge_configuration_id === knowledge_configuration_id))
        unsupported_algorithm
    throw_if (has_empty_field e) invalid_evidence
    throw_if (bad_outcome e) invalid_evidence
    t ← parse_trusted_timestamp e.attempt_created_at
    order ← normalize_timestamp_order (units e.attempt_created_at_order)
    throw_if (not (is_parsed_as order t)) invalid_timestamp
    q ← optional_score e.score
    throw_if (e.eligible_for_mastery && not (is_some q)) invalid_evidence
    throw_if (bad_rating e.eligible_for_mastery e.fsrs_rating) invalid_evidence
    ok (record { evidence = e; occurred_at_ms = t; timestamp_order = order; score_quanta = q })

-- The `Map` of `canonicalizeEvidence`, in insertion order.
abbrev pub Unique : Type 0
Unique = List (List ℕ × ValidatedEvidence)

unfoldable pub get_unique : List ℕ → Unique → Option ValidatedEvidence
get_unique k [] = none
get_unique k ((j, v) ∷ m) = if units_eq j k then some v else get_unique k m

-- A validated candidate meets what is stored under its identity.
unfoldable pub merge : Unique → List ℕ → ValidatedEvidence → Throws Unique
merge m k v = elim (get_unique k m) [
  | none ↦ ok (m ++ ((k, v) ∷ []))
  | some previous ↦ if same_evidence previous v then ok m else err conflicting_duplicate
]

module _ (date_parse : List ℕ → Option Instant) where
  -- One round of the loop of `canonicalizeEvidence`.
  unfoldable pub observe : Unique → PerConceptEvidence → Throws Unique
  observe m e = do v ← validate_evidence date_parse e; merge m (evidence_identity e) v

  unfoldable pub observe_all : Unique → List PerConceptEvidence → Throws Unique
  observe_all m [] = ok m
  observe_all m (e ∷ es) = do m' ← observe m e; observe_all m' es

  unfoldable pub canonicalize_evidence : List PerConceptEvidence → Throws (List ValidatedEvidence)
  unfolding observe observe_all
  canonicalize_evidence es = do
    m ← observe_all [] es
    ok (sort compare_evidence (map (λ entry. entry.1) m))
