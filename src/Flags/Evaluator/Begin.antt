-- ===== src/Flags/Evaluator/Begin.antt =====
-- How a call begins: it is refused, or it is cleared and looks at the cache.
use mathlib.Core.Path.{subst}
use reflo_learning.Prelude.{
  ℕ, ◌<◌, ◌≡◌, ◌≢◌, refl, sym, ap, ◌∙◌, ◌⊎◌, inl, inr, String, true, false, Option, none, some,
  arith, Option-cases, Bool-cases, units,
}
use reflo_learning.Flags.Registry.{
  P1FlagKey, VideoOperationKind, key_text, p1_flag_registry, as_p1_flag_key,
  as_p1_flag_key-key_text,
}
use reflo_learning.Flags.Evaluator.{
  FlagDisabledReason, unknown_flag, source_unavailable, video_operation_invalid, Snapshot,
  Snapshots, CacheKey, Pending, Begun, settled, awaiting, enabled, disabled, DeploymentCeiling,
  ceiling_valid, OperationPolicy, invalid_operation, allows, check_ceiling, consult,
  get_operation_policy, begin_key, begin, store,
}

-- What `begin` has checked of a call that waits.
pub record IsCleared (ceiling : DeploymentCeiling) (p : Pending) : Type 0 where
  pub configured : ceiling.status ≡ ceiling_valid
  pub allowed : allows ceiling.allowed p.key ≡ true
  pub policy : get_operation_policy p.key p.kind ≡ p.operation_policy
  pub is_operation : p.operation_policy ≢ invalid_operation

module _ (ceiling : DeploymentCeiling) (m : Snapshots) where
  ceiling_facts :
      (key : P1FlagKey)
      → check_ceiling ceiling key ≡ none
      → (ceiling.status ≡ ceiling_valid) × (allows ceiling.allowed key ≡ true)
  unfolding check_ceiling
  ceiling_facts key h = ground arith

  store-less : (k ck : CacheKey) {s : Snapshot} → store m k none ck ≡ some s → m ck ≡ some s
  unfolding store
  store-less k ck h = ground arith

  consult-less :
      (p : Pending) (ck : CacheKey) {s : Snapshot} → (consult m p).1 ck ≡ some s → m ck ≡ some s
  unfolding consult
  consult-less p ck {s} h =
      ground (arith, store-less (record { key = p.key; kind = p.kind }) ck {s = s})

  consult_facts : (p q : Pending) → (consult m p).0 ≡ awaiting q → p ≡ q
  unfolding consult
  consult_facts p q h = ground arith

  consult_hit :
      (p : Pending) {t r : ℕ}
      → (consult m p).0 ≡ settled (enabled t r)
      → (s : Snapshot) × (m (record { key = p.key; kind = p.kind }) ≡ some s)
        × (p.evaluated_at_ms < s.expires_at_ms)
        × (s.evaluated_at_ms ≡ t)
        × (s.requested_revision ≡ r)
  unfolding consult
  consult_hit p h = elim (Option-cases (m (record { key = p.key; kind = p.kind }))) [
    | inl e ↦ absurd (ground arith)
    | inr (s, e) ↦ (s, e, ground arith, ground arith, ground arith)
  ]

-- A call is refused with the cache as it was, or it looks at the cache for a cleared evaluation.
data Begins (ceiling : DeploymentCeiling) (m : Snapshots) (key : P1FlagKey)
    (kind : Option VideoOperationKind) (now : ℕ) (result : Begun × Snapshots) : Type 0 where
  refused :
      (reason : FlagDisabledReason)
      → (settled (disabled reason), m) ≡ result
      → Begins ceiling m key kind now result
  consulted :
      (p : Pending)
      → IsCleared ceiling p
      → p.key ≡ key
      → p.kind ≡ kind
      → p.evaluated_at_ms ≡ now
      → consult m p ≡ result
      → Begins ceiling m key kind now result

module _ (ceiling : DeploymentCeiling) (m : Snapshots) (kind : Option VideoOperationKind)
    (now : ℕ) where
  policy_Begins :
      (key : P1FlagKey) (policy : OperationPolicy)
      → (p1_flag_registry key).default ≡ false
      → check_ceiling ceiling key ≡ none
      → get_operation_policy key kind ≡ policy
      → Begins ceiling m key kind now (begin_key ceiling m key kind now)
  unfolding begin_key
  policy_Begins key invalid_operation d c e = refused video_operation_invalid (rw (d, c, e))
  policy_Begins key policy d c e =
      let (v, a) = ceiling_facts ceiling m key c in
      consulted
        (record { key = key; kind = kind; operation_policy = policy; evaluated_at_ms = now })
        (record { configured = v; allowed = a; policy = e; is_operation = λ n. cc }) refl refl refl
        (rw (d, c, e))

  begin_key-Begins :
      (key : P1FlagKey) → Begins ceiling m key kind now (begin_key ceiling m key kind now)
  unfolding begin_key
  begin_key-Begins key = elim (Bool-cases (p1_flag_registry key).default) [
    | inl d ↦ refused source_unavailable (rw d)
    | inr d ↦ elim (Option-cases (check_ceiling ceiling key)) [
      | inl c ↦ policy_Begins key (get_operation_policy key kind) d c refl
      | inr (reason, c) ↦ refused reason (rw (d, c))
    ]
  ]

  begin-Begins :
      (text : String)
      → (begin ceiling m text kind now ≡ (settled (disabled unknown_flag), m))
        ⊎ ((key : P1FlagKey) × (as_p1_flag_key (units text) ≡ some key)
            × Begins ceiling m key kind now (begin ceiling m text kind now))
  unfolding begin
  begin-Begins text = elim (Option-cases (as_p1_flag_key (units text))) [
    | inl e ↦ inl (rw (e, begin))
    | inr (key, e) ↦ inr (key, e, rw (e, begin) (begin_key-Begins key))
  ]

module _ (ceiling : DeploymentCeiling) (m : Snapshots) where
  Begins-less :
      (key : P1FlagKey) (kind : Option VideoOperationKind) (now : ℕ) (result : Begun × Snapshots)
      → Begins ceiling m key kind now result
      → (ck : CacheKey) (s : Snapshot) → result.1 ck ≡ some s
      → m ck ≡ some s
  Begins-less key kind now result (refused reason e) ck s h = subst (λ r. r.1 ck ≡ some s) (sym e) h
  Begins-less key kind now result (consulted p _ _ _ _ e) ck s h =
      consult-less ceiling m p ck (subst (λ r. r.1 ck ≡ some s) (sym e) h)

  pub begin-less :
      (text : String) (kind : Option VideoOperationKind) (now : ℕ) (ck : CacheKey) (s : Snapshot)
      → (begin ceiling m text kind now).1 ck ≡ some s
      → m ck ≡ some s
  begin-less text kind now ck s h = elim (begin-Begins ceiling m kind now text) [
    | inl e ↦ subst (λ r. r.1 ck ≡ some s) e h
    | inr (key, e, b) ↦ Begins-less key kind now _ b ck s h
  ]

  pub begin-IsCleared :
      (text : String) (kind : Option VideoOperationKind) (now : ℕ) (p : Pending)
      → (begin ceiling m text kind now).0 ≡ awaiting p
      → IsCleared ceiling p
  begin-IsCleared text kind now p h = elim (begin-Begins ceiling m kind now text) [
    | inl e ↦ absurd (cc (ap (λ r. r.0) e))
    | inr (key, e, refused reason q) ↦ absurd (cc (ap (λ r. r.0) q))
    | inr (key, e, consulted c cleared _ _ _ q) ↦
        subst (IsCleared ceiling) (consult_facts ceiling m c p (ap (λ r. r.0) q ∙ h)) cleared
  ]

  pub begin_of_key_text :
      (key : P1FlagKey) (kind : Option VideoOperationKind) (now : ℕ)
      → begin ceiling m (key_text key) kind now ≡ begin_key ceiling m key kind now
  unfolding begin
  begin_of_key_text key kind now = rw (as_p1_flag_key-key_text key, begin)

  -- A call that ends at once with the flag on has found a snapshot that is still live.
  pub begin_key_hit :
      (key : P1FlagKey) (kind : Option VideoOperationKind) (now : ℕ) {t revision : ℕ}
      → (begin_key ceiling m key kind now).0 ≡ settled (enabled t revision)
      → (s : Snapshot) × (m (record { key = key; kind = kind }) ≡ some s)
        × (now < s.expires_at_ms)
        × (s.evaluated_at_ms ≡ t)
        × (s.requested_revision ≡ revision)
  begin_key_hit key kind now {t} {revision} h = from (begin_key-Begins ceiling m kind now key)
    where
      from :
          Begins ceiling m key kind now (begin_key ceiling m key kind now)
          → (s : Snapshot) × (m (record { key = key; kind = kind }) ≡ some s)
            × (now < s.expires_at_ms)
            × (s.evaluated_at_ms ≡ t)
            × (s.requested_revision ≡ revision)
      from (refused reason e) = absurd (cc (ap (λ r. r.0) e))
      from (consulted p cleared k q n e) =
          let (s, held, live, at, number) = consult_hit ceiling m p (ap (λ r. r.0) e ∙ h) in
          let same : ◌≡◌ {A = CacheKey} (record { key = p.key; kind = p.kind })
              (record { key = key; kind = kind }) =
            λ i. record { key = k i; kind = q i } in
          (s, subst (λ ck. m ck ≡ some s) same held, omega arith, at, number)
