-- ===== src/Flags/Evaluator/Gates.antt =====
-- A flag is on only behind every gate: the deployment ceiling, the requested state, the
-- prerequisites of the flag and of the operation, and the admission of a shared resource.
use mathlib.Core.Path.{subst}
use reflo_learning.Prelude.{
  natural, ℕ, ◌+◌, ◌≤◌, ◌<◌, ◌≡◌, ◌≢◌, refl, ap, min, String, true, false, ◌||◌, Option, none, some,
  List, [], ◌∷◌, ok, >>=-eq-ok, ok-injective, bind_ok, ◌∙◌, throw_if, throw_if-ok, leb, ===_iff,
  arith, all, ◌⊎◌, inl, inr, sym, Bool-cases,
}
use reflo_learning.Flags.Registry.{
  PrerequisitePolicyDefinition, ResourceAdmissionPolicy, isolated_mode, shared_mode,
  p1_flag_registry,
}
use reflo_learning.Flags.Evaluator.{
  Reply, answered, thrown, RequestedFlagState, PrerequisiteVerdict, Snapshot, Pending,
  OperationPolicy, operation, no_operation, invalid_operation, Answers, caught, is_nil, has_text,
  is_current, valid_until_of, prerequisite_valid_until, operation_valid_until, requested_revision,
  admission, has_passed, earliest, decide_enabled,
}

-- The sources answer with a verdict for the policy that is satisfied, names the policy, rests on
-- evidence, and is still valid at `now`, until `until`.
pub record IsSatisfied (answers : Answers) (policy : PrerequisitePolicyDefinition) (now until : ℕ)
    : Type 0 where
  pub verdict : PrerequisiteVerdict
  pub answered_so : answers.verdict policy ≡ answered (some verdict)
  pub satisfied : verdict.satisfied ≡ true
  pub same_policy : verdict.policy_id ≡ policy.id
  pub same_version : verdict.policy_version ≡ policy.version
  pub has_evidence : verdict.evidence_refs ≢ []
  pub has_texts : all has_text verdict.evidence_refs ≡ true
  pub valid_until : verdict.valid_until_ms ≡ natural until
  pub not_passed : now < until

-- The operation's policy is satisfied until the time, or there is no policy and no time.
abbrev pub IsOperationSatisfied : Answers → OperationPolicy → ℕ → Option ℕ → Type 0
IsOperationSatisfied answers (operation policy) now (some until) =
    IsSatisfied answers policy now until
IsOperationSatisfied answers (operation policy) now none = ⊥
IsOperationSatisfied answers _ now (some until) = ⊥
IsOperationSatisfied answers _ now none = Unit

abbrev pub IsWithin : ℕ → Option ℕ → Type 0
IsWithin expires none = Unit
IsWithin expires (some until) = expires ≤ until

abbrev pub IsAdmitted : Answers → ResourceAdmissionPolicy → Type 0
IsAdmitted answers (isolated_mode _ _) = Unit
IsAdmitted answers (shared_mode _ _ _ _) = answers.admits ≡ answered true

pub record IsOpen (max_ms : ℕ) (p : Pending) (answers : Answers) (s : Snapshot) : Type 0 where
  pub state : RequestedFlagState
  pub requested : answers.requested ≡ answered (some state)
  pub requested_on : state.requested_enabled ≡ true
  pub revision : state.revision ≡ natural s.requested_revision
  pub evaluated_at : s.evaluated_at_ms ≡ answers.completed_at_ms
  pub base_until : ℕ
  pub base :
      IsSatisfied answers (p1_flag_registry p.key).prerequisite_policy s.evaluated_at_ms base_until
  pub operation_until : Option ℕ
  pub operation : IsOperationSatisfied answers p.operation_policy s.evaluated_at_ms operation_until
  pub admitted : IsAdmitted answers (p1_flag_registry p.key).resource_admission_policy
  pub within_max : s.expires_at_ms ≤ s.evaluated_at_ms + max_ms
  pub within_base : s.expires_at_ms ≤ base_until
  pub within_operation : IsWithin s.expires_at_ms operation_until
  pub reached :
      (s.expires_at_ms ≡ s.evaluated_at_ms + max_ms)
      ⊎ (s.expires_at_ms ≡ base_until)
      ⊎ (operation_until ≡ some s.expires_at_ms)

valid_until_facts :
    (policy : PrerequisitePolicyDefinition) (at : ℕ) (v : PrerequisiteVerdict) (until : ℕ)
    → valid_until_of policy at (some v) ≡ ok until
    → (v.valid_until_ms ≡ natural until) × (is_current policy at v until ≡ true)
unfolding valid_until_of
valid_until_facts policy at v until h = ground arith

current_facts :
    (policy : PrerequisitePolicyDefinition) (at : ℕ) (v : PrerequisiteVerdict) (until : ℕ)
    → is_current policy at v until ≡ true
    → (v.satisfied ≡ true)
      × (v.policy_id ≡ policy.id)
      × (v.policy_version ≡ policy.version)
      × (is_nil v.evidence_refs ≡ false)
      × (all has_text v.evidence_refs ≡ true)
unfolding is_current
current_facts policy at v until h =
    ground (arith, ===_iff v.policy_id policy.id, ===_iff v.policy_version policy.version)

ne_nil : (refs : List String) → is_nil refs ≡ false → refs ≢ []
ne_nil [] h e = cc
ne_nil (x ∷ xs) h e = cc

caught_eq : {A : Type 0} (r : Reply A) (a : A) → caught r ≡ ok a → r ≡ answered a
caught_eq (answered x) a h = ap answered (ok-injective h)
caught_eq thrown a h = cc

no_verdict :
    (policy : PrerequisitePolicyDefinition) (at : ℕ) {until : ℕ}
    → valid_until_of policy at none ≡ ok until
    → ⊥
unfolding valid_until_of
no_verdict policy at h = cc

prerequisite_valid_until-IsSatisfied :
    (answers : Answers) (policy : PrerequisitePolicyDefinition) (at now : ℕ) {until : ℕ}
    → prerequisite_valid_until answers policy at ≡ ok until
    → now < until
    → IsSatisfied answers policy now until
unfolding prerequisite_valid_until
prerequisite_valid_until-IsSatisfied answers policy at now {until} h l =
    let (verdict, c, v) = >>=-eq-ok (caught (answers.verdict policy)) _ h in
    from verdict (caught_eq (answers.verdict policy) verdict c) v
  where
    from :
        (verdict : Option PrerequisiteVerdict)
        → answers.verdict policy ≡ answered verdict
        → valid_until_of policy at verdict ≡ ok until
        → IsSatisfied answers policy now until
    from none c v = absurd (no_verdict policy at v)
    from (some w) c v =
        let (natural_until, current) = valid_until_facts policy at w until v in
        let (on, id, version, evidence, texts) = current_facts policy at w until current in
        record {
          verdict = w;
          answered_so = c;
          satisfied = on;
          same_policy = id;
          same_version = version;
          has_evidence = ne_nil w.evidence_refs evidence;
          has_texts = texts;
          valid_until = natural_until;
          not_passed = l;
        }

operation_IsSatisfied :
    (answers : Answers) (op : OperationPolicy) (at now : ℕ) {until : Option ℕ}
    → operation_valid_until answers op at ≡ ok until
    → has_passed until now ≡ false
    → IsOperationSatisfied answers op now until
unfolding operation_valid_until
operation_IsSatisfied answers (operation policy) at now {until} h l =
    let (t, c, v) = >>=-eq-ok (prerequisite_valid_until answers policy at) _ h in
    let its : some t ≡ until = ok-injective v in
    subst (IsOperationSatisfied answers (operation policy) now) its (
      prerequisite_valid_until-IsSatisfied answers policy at now c (not_late t (rw (sym its) at l)))
  where
    not_late : (t : ℕ) → has_passed (some t) now ≡ false → now < t
    not_late t l = ground arith
operation_IsSatisfied answers no_operation at now h l =
    subst (IsOperationSatisfied answers no_operation now) (ok-injective h) tt
operation_IsSatisfied answers invalid_operation at now h l =
    subst (IsOperationSatisfied answers invalid_operation now) (ok-injective h) tt

earliest-IsWithin : (a : ℕ) (b : Option ℕ) → (earliest a b ≤ a) × IsWithin (earliest a b) b
earliest-IsWithin a none = (omega arith, tt)
earliest-IsWithin a (some b) = (omega arith, omega arith)

earliest-reached :
    (a base : ℕ) (b : Option ℕ)
    → (earliest (min a base) b ≡ a)
      ⊎ (earliest (min a base) b ≡ base)
      ⊎ (b ≡ some (earliest (min a base) b))
earliest-reached a base none = ground arith
earliest-reached a base (some b) = elim (Bool-cases (leb b (min a base))) [
  | inl first ↦ let e : b ≡ earliest (min a base) (some b) = ground arith in inr (inr (ap some e))
  | inr later ↦ elim (Bool-cases (leb a base)) [
    | inl short ↦ inl (ground arith)
    | inr long ↦ inr (inl (ground arith))
  ]
]

admission-IsAdmitted :
    (answers : Answers) (policy : ResourceAdmissionPolicy) {u : Unit {0}}
    → admission answers policy ≡ ok u
    → IsAdmitted answers policy
unfolding admission
admission-IsAdmitted answers (isolated_mode _ _) h = tt
admission-IsAdmitted answers (shared_mode _ _ _ _) h = ground arith

revision_facts :
    (state : Option RequestedFlagState) {n : ℕ}
    → requested_revision state ≡ ok n
    → (r : RequestedFlagState) × (state ≡ some r)
      × (r.requested_enabled ≡ true)
      × (r.revision ≡ natural n)
unfolding requested_revision
revision_facts none h = cc
revision_facts (some r) h = (r, refl, ground arith, ground arith)

-- The body of the `try` ends with a snapshot only if every gate is open, and the snapshot expires at
-- the earliest of three times: the longest time allowed after the evaluation, the end of the flag's
-- verdict, and, for a video operation, the end of the operation's verdict.
pub decide_enabled-IsOpen :
    (max_ms : ℕ) (p : Pending) (answers : Answers) {s : Snapshot}
    → decide_enabled max_ms p answers ≡ ok s
    → IsOpen max_ms p answers s
unfolding decide_enabled
decide_enabled-IsOpen max_ms p answers {s} h = bind_ok (caught answers.requested) _ h λ state c₁ h₁.
    bind_ok (requested_revision state) _ h₁ λ revision c₂ h₂.
      bind_ok (prerequisite_valid_until answers _ p.evaluated_at_ms) _ h₂ λ base c₃ h₃.
        bind_ok (operation_valid_until answers p.operation_policy _) _ h₃ λ op c₄ h₄.
          bind_ok (admission answers _) _ h₄ λ u c₅ h₅.
            bind_ok (throw_if (leb base answers.completed_at_ms || _) _) _ h₅ λ v c₆ h₆.
              opened state revision base op c₁ c₂ c₃ c₄ c₅ (throw_if-ok _ _ c₆) (ok-injective h₆)
  where
    opened :
        (state : Option RequestedFlagState) (revision base : ℕ) (op : Option ℕ) {u : Unit {0}}
        → caught answers.requested ≡ ok state
        → requested_revision state ≡ ok revision
        → prerequisite_valid_until answers
            (p1_flag_registry p.key).prerequisite_policy
            p.evaluated_at_ms
          ≡ ok base
        → operation_valid_until answers p.operation_policy p.evaluated_at_ms ≡ ok op
        → admission answers (p1_flag_registry p.key).resource_admission_policy ≡ ok u
        → (leb base answers.completed_at_ms || has_passed op answers.completed_at_ms) ≡ false
        → record {
          evaluated_at_ms = answers.completed_at_ms;
          requested_revision = revision;
          expires_at_ms = earliest (min (answers.completed_at_ms + max_ms) base) op;
        }
          ≡ s
        → IsOpen max_ms p answers s
    opened state revision base op c₁ c₂ c₃ c₄ c₅ c₆ e =
        let (r, known, on, number) = revision_facts state c₂ in
        let within = earliest-IsWithin (min (answers.completed_at_ms + max_ms) base) op in
        subst (IsOpen max_ms p answers) e (record {
          state = r;
          requested = caught_eq answers.requested state c₁ ∙ ap answered known;
          requested_on = on;
          revision = number;
          evaluated_at = refl;
          base_until = base;
          base =
              prerequisite_valid_until-IsSatisfied answers _ p.evaluated_at_ms _ c₃ (ground arith);
          operation_until = op;
          operation =
              operation_IsSatisfied answers p.operation_policy p.evaluated_at_ms _ c₄
                (ground arith);
          admitted = admission-IsAdmitted answers _ c₅;
          within_max = omega (arith, within.0);
          within_base = omega (arith, within.0);
          within_operation = within.1;
          reached = earliest-reached (answers.completed_at_ms + max_ms) base op;
        })
