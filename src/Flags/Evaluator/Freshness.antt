-- ===== src/Flags/Evaluator/Freshness.antt =====
-- The cache of positive evaluations, under calls that interleave at their `await`s.
use mathlib.Core.List.{Memᴰ}
use mathlib.Core.Path.{subst}
use reflo_learning.Prelude.{
  ℕ, ◌+◌, ◌<◌, ◌≡◌, sym, ap, ◌∙◌, ◌⊎◌, inl, inr, String, Option, none, some, List, [], ◌∷◌, ok,
  arith, All, All-lookup, Result-cases,
}
use reflo_learning.Flags.Registry.{P1FlagKey, VideoOperationKind, key_text}
use reflo_learning.Flags.Evaluator.{
  Snapshot, Snapshots, CacheKey, CacheKey-discrete, Pending, settled, awaiting, FlagEvaluation,
  enabled, Answers, DeploymentCeiling, begin, complete, invalidate, store, decide_enabled,
}
use reflo_learning.Flags.Evaluator.Gates.{IsOpen, decide_enabled-IsOpen}
use reflo_learning.Flags.Evaluator.Begin.{
  IsCleared, begin-less, begin-IsCleared, begin_of_key_text, begin_key_hit,
}

-- The calls that may come, in any order: a call begins, one that waits is completed, or a flag
-- is invalidated.
pub data Reach (max_ms : ℕ) (ceiling : DeploymentCeiling) : Snapshots → List Pending → Type 0 where
  start : Reach max_ms ceiling (λ ck. none) []
  began :
      {m m' : Snapshots} {ps : List Pending}
      → Reach max_ms ceiling m ps
      → (text : String) (kind : Option VideoOperationKind) (now : ℕ) (p : Pending)
      → begin ceiling m text kind now ≡ (awaiting p, m')
      → Reach max_ms ceiling m' (p ∷ ps)
  ended :
      {m m' : Snapshots} {ps : List Pending}
      → Reach max_ms ceiling m ps
      → (text : String) (kind : Option VideoOperationKind) (now : ℕ) (e : FlagEvaluation)
      → begin ceiling m text kind now ≡ (settled e, m')
      → Reach max_ms ceiling m' ps
  completed :
      {m m' : Snapshots} {ps : List Pending}
      → Reach max_ms ceiling m ps
      → (p : Pending) (answers : Answers) → Memᴰ p ps
      → (complete max_ms p answers m).1 ≡ m'
      → Reach max_ms ceiling m' ps
  invalidated :
      {m m' : Snapshots} {ps : List Pending}
      → Reach max_ms ceiling m ps
      → (key : Option P1FlagKey) → invalidate key m ≡ m'
      → Reach max_ms ceiling m' ps

-- A snapshot was stored by an evaluation of its own flag that passed every gate.
pub record IsEarned (max_ms : ℕ) (ceiling : DeploymentCeiling) (ck : CacheKey) (s : Snapshot)
    : Type 0 where
  pub pending : Pending
  pub answers : Answers
  pub cleared : IsCleared ceiling pending
  pub open_gates : IsOpen max_ms pending answers s
  pub same_key : pending.key ≡ ck.key
  pub same_kind : pending.kind ≡ ck.kind

abbrev AreEarned : ℕ → DeploymentCeiling → Snapshots → Type 0
AreEarned max_ms ceiling m =
    (ck : CacheKey) (s : Snapshot) → m ck ≡ some s → IsEarned max_ms ceiling ck s

module _ (max_ms : ℕ) (ceiling : DeploymentCeiling) where
  complete_cases :
      (m : Snapshots) (p : Pending) (answers : Answers) (ck : CacheKey) (s : Snapshot)
      → (complete max_ms p answers m).1 ck ≡ some s
      → (m ck ≡ some s)
        ⊎ ((decide_enabled max_ms p answers ≡ ok s) × (p.key ≡ ck.key) × (p.kind ≡ ck.kind))
  unfolding complete store
  complete_cases m p answers ck s h = elim (Result-cases (decide_enabled max_ms p answers)) [
    | inr (e, d) ↦ inl (ground arith)
    | inl (s', d) ↦ elim (CacheKey-discrete (record { key = p.key; kind = p.kind }) ck) [
      | no q ↦ inl (ground arith)
      | yes q ↦ inr (ground arith, ap (λ (k : CacheKey). k.key) q, ap (λ (k : CacheKey). k.kind) q)
    ]
  ]

  complete-AreEarned :
      (m : Snapshots) (p : Pending) (answers : Answers)
      → AreEarned max_ms ceiling m
      → IsCleared ceiling p
      → AreEarned max_ms ceiling (complete max_ms p answers m).1
  complete-AreEarned m p answers earned cleared ck s h = elim (complete_cases m p answers ck s h) [
    | inl old ↦ earned ck s old
    | inr (d, key, kind) ↦ record {
      pending = p;
      answers = answers;
      cleared = cleared;
      open_gates = decide_enabled-IsOpen max_ms p answers d;
      same_key = key;
      same_kind = kind;
    }
  ]

  invalidate-AreEarned :
      (m : Snapshots) (key : Option P1FlagKey)
      → AreEarned max_ms ceiling m
      → AreEarned max_ms ceiling (invalidate key m)
  unfolding invalidate
  invalidate-AreEarned m none earned ck s h = absurd (cc)
  invalidate-AreEarned m (some key) earned ck s h = earned ck s (ground arith)

  -- However the calls interleave, every snapshot in the cache was earned.
  Reach-AreEarned :
      {m : Snapshots} {ps : List Pending}
      → Reach max_ms ceiling m ps
      → AreEarned max_ms ceiling m × All (IsCleared ceiling) ps
  Reach-AreEarned start = ((λ ck s h. absurd (cc)), tt)
  Reach-AreEarned (began {m} r text kind now p e) =
      let (earned, cleared) = Reach-AreEarned r in
      (
        (λ ck s h. earned ck s (begin-less ceiling m text kind now ck s (rw e h))),
        (begin-IsCleared ceiling m text kind now p (ap (λ r. r.0) e), cleared),
      )
  Reach-AreEarned (ended {m} r text kind now _ e) =
      let (earned, cleared) = Reach-AreEarned r in
      ((λ ck s h. earned ck s (begin-less ceiling m text kind now ck s (rw e h))), cleared)
  Reach-AreEarned (completed {m} {ps = ps} r p answers member e) =
      let (earned, cleared) = Reach-AreEarned r in
      (
        subst (AreEarned max_ms ceiling) e
            (complete-AreEarned m p answers earned (All-lookup _ ps cleared member)),
        cleared,
      )
  Reach-AreEarned (invalidated {m} r key e) =
      let (earned, cleared) = Reach-AreEarned r in
      (subst (AreEarned max_ms ceiling) e (invalidate-AreEarned m key earned), cleared)

  -- A flag that `evaluate` finds on in its cache, after any interleaving of calls, was found on at
  -- the time that it reports by an evaluation of the same flag and operation that passed every gate
  -- of the ceiling and the sources; the longest time allowed has not passed since, and the
  -- prerequisite verdict of that evaluation is still valid.
  pub begin-fresh :
      {m : Snapshots} {ps : List Pending}
      → Reach max_ms ceiling m ps
      → (key : P1FlagKey) (kind : Option VideoOperationKind) (now : ℕ) {t revision : ℕ}
      → (begin ceiling m (key_text key) kind now).0 ≡ settled (enabled t revision)
      → (s : Snapshot) × (e : IsEarned max_ms ceiling (record { key = key; kind = kind }) s)
        × (s.evaluated_at_ms ≡ t)
        × (s.requested_revision ≡ revision)
        × (now < t + max_ms)
        × (now < e.open_gates.base_until)
  begin-fresh {m} r key kind now h =
      let (s, held, live, at, number) =
        begin_key_hit ceiling m key kind now
          (ap (λ r. r.0) (sym (begin_of_key_text ceiling m key kind now)) ∙ h) in
      let earned = (Reach-AreEarned r).0 (record { key = key; kind = kind }) s held in
      let gates = earned.open_gates in
      (s, earned, at, number, omega (arith, gates.within_max), omega (arith, gates.within_base))
