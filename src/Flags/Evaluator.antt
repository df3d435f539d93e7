-- ===== src/Flags/Evaluator.antt =====
-- packages/feature-flags/src/evaluator.ts. An evaluation has two parts: `begin`, up to the first
-- `await`, and `complete`, which ends it with the answers of the sources and the cache as it is then;
-- other calls may run in between. Times are whole milliseconds.
pub mod Gates
pub mod Begin
pub mod Freshness
pub mod Ceiling
use mathlib.Core.Logic.{ite}
use mathlib.Core.Bool.{decide}
use reflo_learning.Prelude.{
  Number, natural, other, ℕ, zero, suc, ◌+◌, ◌≤◌, ◌≡◌, min, String, Bool, true, false, not, ◌&&◌,
  ◌||◌, Option, none, some, List, [], ◌∷◌, Result, ok, err, ◌>>=◌, ◌>>◌, throw_if, ltb, leb, ◌==◌,
  ◌===◌, if◌then◌else◌, units, trim, all, any,
}
use reflo_learning.Flags.Registry.{
  P1FlagKey, media_video, P1FlagKey-discrete, VideoOperationKind, PrerequisitePolicyDefinition,
  P1FlagDefinition, ResourceAdmissionPolicy, isolated_mode, shared_mode, p1_flag_registry,
  as_p1_flag_key,
}

abbrev pub max_p1_true_snapshot_ms : ℕ
max_p1_true_snapshot_ms = 30_000

pub data Reply (A : Type 0) : Type 0 where
  answered : A → Reply A
  thrown : Reply A

pub record RequestedFlagState : Type 0 where
  pub requested_enabled : Bool
  pub revision : Number

pub record PrerequisiteVerdict : Type 0 where
  pub evidence_refs : List String
  pub policy_id : String
  pub policy_version : String
  pub satisfied : Bool
  pub valid_until_ms : Number

pub data CeilingStatus : Type 0 where
  ceiling_invalid ceiling_missing ceiling_valid : CeilingStatus

pub record DeploymentCeiling : Type 0 where
  pub allowed : List P1FlagKey
  pub status : CeilingStatus

pub data FlagDisabledReason : Type 0 where
  admission_denied deployment_ceiling_denied deployment_ceiling_invalid : FlagDisabledReason
  deployment_ceiling_missing prerequisite_missing_or_stale : FlagDisabledReason
  requested_state_missing_or_disabled source_unavailable unknown_flag : FlagDisabledReason
  video_operation_invalid : FlagDisabledReason

pub data FlagEvaluation : Type 0 where
  disabled : FlagDisabledReason → FlagEvaluation
  enabled : (evaluated_at_ms requested_revision : ℕ) → FlagEvaluation

pub record Snapshot : Type 0 where
  pub evaluated_at_ms : ℕ
  pub requested_revision : ℕ
  pub expires_at_ms : ℕ

-- `${key}:${videoOperationKind ?? "default"}`; no key holds a colon.
pub record CacheKey : Type 0 where
  pub key : P1FlagKey
  pub kind : Option VideoOperationKind

unfoldable pub CacheKey-discrete : Discrete CacheKey
CacheKey-discrete = hlevel

-- The `Map` `trueSnapshots`.
abbrev pub Snapshots : Type 0
Snapshots = CacheKey → Option Snapshot

unfoldable pub store : Snapshots → CacheKey → Option Snapshot → Snapshots
store m k s j = ite (CacheKey-discrete k j) s (m j)

-- `maxTrueSnapshotMs ?? MAX_P1_TRUE_SNAPSHOT_MS` and its check; `none` is the error thrown.
unfoldable pub max_true_snapshot : Option Number → Option ℕ
max_true_snapshot none = some max_p1_true_snapshot_ms
max_true_snapshot (some other) = none
max_true_snapshot (some (natural n)) =
    if ltb n 1 || ltb max_p1_true_snapshot_ms n then none else some n

pub data OperationPolicy : Type 0 where
  invalid_operation no_operation : OperationPolicy
  operation : PrerequisitePolicyDefinition → OperationPolicy

unfoldable pub get_operation_policy : P1FlagKey → Option VideoOperationKind → OperationPolicy
get_operation_policy media_video none = invalid_operation
get_operation_policy media_video (some kind) =
    elim ((p1_flag_registry media_video).video_operation_policies kind) [
      | none ↦ invalid_operation
      | some policy ↦ operation policy
    ]
get_operation_policy _ none = no_operation
get_operation_policy _ (some kind) = invalid_operation

-- An evaluation that waits for its sources.
pub record Pending : Type 0 where
  pub key : P1FlagKey
  pub kind : Option VideoOperationKind
  pub operation_policy : OperationPolicy
  pub evaluated_at_ms : ℕ

pub data Begun : Type 0 where
  settled : FlagEvaluation → Begun
  awaiting : Pending → Begun

unfoldable pub allows : List P1FlagKey → P1FlagKey → Bool
allows keys key = any (λ k. decide (P1FlagKey-discrete k key)) keys

unfoldable pub check_ceiling : DeploymentCeiling → P1FlagKey → Option FlagDisabledReason
check_ceiling ceiling key = elim ceiling.status [
  | ceiling_missing ↦ some deployment_ceiling_missing
  | ceiling_invalid ↦ some deployment_ceiling_invalid
  | ceiling_valid ↦ if allows ceiling.allowed key then none else some deployment_ceiling_denied
]

-- From the look at the cache to the first `await`.
unfoldable pub consult : Snapshots → Pending → Begun × Snapshots
consult m p =
    let ck : CacheKey = record { key = p.key; kind = p.kind } in
    let miss : Begun × Snapshots = (awaiting p, store m ck none) in
    elim (m ck) [
      | none ↦ miss
      | some s ↦
          if ltb p.evaluated_at_ms s.expires_at_ms
          then (settled (enabled s.evaluated_at_ms s.requested_revision), m)
          else miss
    ]

unfoldable pub begin_key :
    DeploymentCeiling → Snapshots → P1FlagKey → Option VideoOperationKind → ℕ → Begun × Snapshots
begin_key ceiling m key kind now =
    if (p1_flag_registry key).default
    then (settled (disabled source_unavailable), m)
    else elim (check_ceiling ceiling key) [
      | some reason ↦ (settled (disabled reason), m)
      | none ↦ elim (get_operation_policy key kind) [
        | invalid_operation ↦ (settled (disabled video_operation_invalid), m)
        | policy ↦
            consult m
              (record { key = key; kind = kind; operation_policy = policy; evaluated_at_ms = now })
      ]
    ]

unfoldable pub begin :
    DeploymentCeiling → Snapshots → String → Option VideoOperationKind → ℕ → Begun × Snapshots
begin ceiling m text kind now = elim (as_p1_flag_key (units text)) [
  | none ↦ (settled (disabled unknown_flag), m)
  | some key ↦ begin_key ceiling m key kind now
]

-- What the sources answer to one evaluation, and the clock when they have.
pub record Answers : Type 0 where
  pub requested : Reply (Option RequestedFlagState)
  pub verdict : PrerequisitePolicyDefinition → Reply (Option PrerequisiteVerdict)
  pub admits : Reply Bool
  pub completed_at_ms : ℕ

abbrev pub Decides : Type 0 → Type 0
Decides A = Result FlagDisabledReason A

abbrev pub is_nil {ℓ} : {A : Type ℓ} → List A → Bool
is_nil [] = true
is_nil (x ∷ xs) = false

-- A source that throws ends in the `catch`.
abbrev pub caught : {A : Type 0} → Reply A → Decides A
caught (answered a) = ok a
caught thrown = err source_unavailable

unfoldable pub has_text : String → Bool
has_text s = not (is_nil (trim (units s)))

-- `current` of `prerequisiteValidUntil`.
unfoldable pub is_current : PrerequisitePolicyDefinition → ℕ → PrerequisiteVerdict → ℕ → Bool
is_current policy at verdict until =
    verdict.satisfied
    && verdict.policy_id === policy.id
    && verdict.policy_version === policy.version
    && ltb at until
    && not (is_nil verdict.evidence_refs)
    && all has_text verdict.evidence_refs

unfoldable pub valid_until_of :
    PrerequisitePolicyDefinition → ℕ → Option PrerequisiteVerdict → Decides ℕ
valid_until_of policy at none = err prerequisite_missing_or_stale
valid_until_of policy at (some verdict) = elim verdict.valid_until_ms [
  | other ↦ err prerequisite_missing_or_stale
  | natural until ↦
      if is_current policy at verdict until then ok until else err prerequisite_missing_or_stale
]

-- `prerequisiteValidUntil`, and the refusal that follows a `null`.
unfoldable pub prerequisite_valid_until : Answers → PrerequisitePolicyDefinition → ℕ → Decides ℕ
prerequisite_valid_until answers policy at = do
  verdict ← caught (answers.verdict policy)
  valid_until_of policy at verdict

-- `none` is `Number.POSITIVE_INFINITY`.
unfoldable pub operation_valid_until : Answers → OperationPolicy → ℕ → Decides (Option ℕ)
operation_valid_until answers (operation policy) at = do
  until ← prerequisite_valid_until answers policy at
  ok (some until)
operation_valid_until answers _ at = ok none

unfoldable pub requested_revision : Option RequestedFlagState → Decides ℕ
requested_revision none = err requested_state_missing_or_disabled
requested_revision (some state) =
    if state.requested_enabled
    then elim state.revision [ natural n ↦ ok n | other ↦ err source_unavailable ]
    else err requested_state_missing_or_disabled

unfoldable pub admission : Answers → ResourceAdmissionPolicy → Decides Unit
admission answers (isolated_mode _ _) = ok tt
admission answers (shared_mode _ _ _ _) = do
  admitted ← caught answers.admits
  throw_if (not admitted) admission_denied

abbrev pub has_passed : Option ℕ → ℕ → Bool
has_passed none now = false
has_passed (some until) now = leb until now

abbrev pub earliest : ℕ → Option ℕ → ℕ
earliest a none = a
earliest a (some b) = min a b

-- The body of the `try`.
unfoldable pub decide_enabled : ℕ → Pending → Answers → Decides Snapshot
decide_enabled max_ms p answers = do
  state ← caught answers.requested
  revision ← requested_revision state
  base ←
      prerequisite_valid_until answers (p1_flag_registry p.key).prerequisite_policy
        p.evaluated_at_ms
  op ← operation_valid_until answers p.operation_policy p.evaluated_at_ms
  admission answers (p1_flag_registry p.key).resource_admission_policy
  let now = answers.completed_at_ms
  throw_if (leb base now || has_passed op now) prerequisite_missing_or_stale
  ok (record {
    evaluated_at_ms = now;
    requested_revision = revision;
    expires_at_ms = earliest (min (now + max_ms) base) op;
  })

unfoldable pub complete : ℕ → Pending → Answers → Snapshots → FlagEvaluation × Snapshots
complete max_ms p answers m = elim (decide_enabled max_ms p answers) [
  | err reason ↦ (disabled reason, m)
  | ok s ↦ (
    enabled s.evaluated_at_ms s.requested_revision,
    store m (record { key = p.key; kind = p.kind }) (some s),
  )
]

-- `evaluate` with no other call in between.
unfoldable pub evaluate :
    ℕ
    → DeploymentCeiling
    → Snapshots
    → String
    → Option VideoOperationKind
    → ℕ
    → Answers
    → FlagEvaluation × Snapshots
evaluate max_ms ceiling m text kind now answers =
    let (begun, m') = begin ceiling m text kind now in
    elim begun [ settled e ↦ (e, m') | awaiting p ↦ complete max_ms p answers m' ]

-- `invalidate`, of every flag or of one.
unfoldable pub invalidate : Option P1FlagKey → Snapshots → Snapshots
invalidate none m ck = none
invalidate (some key) m ck = ite (P1FlagKey-discrete key ck.key) none (m ck)
