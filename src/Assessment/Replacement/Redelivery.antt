-- ===== src/Assessment/Replacement/Redelivery.antt =====
-- packages/assessment/src/service.ts: `gradeReplacement` when a command comes again.
use mathlib.Core.Path.{subst}
use reflo_learning.Prelude.{
  ◌≡◌, ◌≢◌, refl, sym, ◌∙◌, inl, inr, Option, none, some, Result, ok, err, Result-cases, Bool-cases,
  Option-cases, ◌===◌, ===_iff, arith,
}
use reflo_learning.Assessment.Contracts.{AssessmentFinalizationView, replayed}
use reflo_learning.Assessment.Rules.{validate_policy, validate_identity}
use reflo_learning.Assessment.Actions.{
  GradeReplacementCommand, ReplacementFinalization, Thrown, Host, Ids,
}
use reflo_learning.Assessment.Replacement.{
  replacement_finalization, resolve_replacement, replay_or_resolve, grade_replacement,
}

-- The repository answers with the digest that it is given.
abbrev pub KeepsDigest : Host → Type 0
KeepsDigest host =
    (f : ReplacementFinalization) (view : AssessmentFinalizationView)
    → host.finalize_replacement f ≡ ok view
    → view.request_digest ≡ f.request_digest

abbrev pub IsRefused : Result Thrown AssessmentFinalizationView → Type 0
IsRefused r = (e : Thrown) × (r ≡ err e)

module _ (ids : Ids) (host : Host) (c : GradeReplacementCommand) where
  -- A command that is valid goes on to the look for an earlier finalization.
  grade_replacement-ok :
      (view : AssessmentFinalizationView)
      → grade_replacement ids host c ≡ ok view
      → (validate_policy c.policy ≡ ok tt)
        × (validate_identity c.idempotency_key ≡ ok tt)
        × (validate_identity c.session_id ≡ ok tt)
        × (replay_or_resolve ids host c host.load ≡ ok view)
  unfolding grade_replacement
  grade_replacement-ok view h = elim (Result-cases (validate_policy c.policy)) [
    | inr (code, bad) ↦ absurd (ground arith)
    | inl (u, valid) ↦ elim (Result-cases (validate_identity c.idempotency_key)) [
      | inr (code, bad) ↦ absurd (ground arith)
      | inl (u₁, valid₁) ↦ elim (Result-cases (validate_identity c.session_id)) [
        | inr (code, bad) ↦ absurd (ground arith)
        | inl (u₂, valid₂) ↦ (valid, valid₁, valid₂, ground arith)
      ]
    ]
  ]

  replay_or_resolve-digest :
      (loaded : Result Thrown (Option AssessmentFinalizationView))
      (view : AssessmentFinalizationView)
      → KeepsDigest host
      → replay_or_resolve ids host c loaded ≡ ok view
      → view.request_digest ≡ ids.replacement_digest c
  unfolding replay_or_resolve resolve_replacement
  replay_or_resolve-digest (err e) view keeps h = absurd (cc)
  replay_or_resolve-digest (ok (some old)) view keeps h =
      elim (Bool-cases (old.request_digest === ids.replacement_digest c)) [
        | inl same ↦ ground (arith, ===_iff old.request_digest (ids.replacement_digest c))
        | inr other ↦ absurd (ground arith)
      ]
  replay_or_resolve-digest (ok none) view keeps h = elim (Result-cases host.resolve) [
    | inr (e, failed) ↦ absurd (ground arith)
    | inl (found, resolved) ↦ elim (Option-cases found) [
      | inl nothing ↦ absurd (ground arith)
      | inr (r, something) ↦ keeps (replacement_finalization ids host c r) view (ground arith)
    ]
  ]

  replayed_lem :
      (view : AssessmentFinalizationView)
      → host.load ≡ ok (some view)
      → view.request_digest ≡ ids.replacement_digest c
      → (validate_policy c.policy ≡ ok tt)
        × (validate_identity c.idempotency_key ≡ ok tt)
        × (validate_identity c.session_id ≡ ok tt)
      → grade_replacement ids host c ≡ ok (record view { status = replayed })
  unfolding grade_replacement replay_or_resolve
  replayed_lem view load digest (valid, valid₁, valid₂) =
      let same = (===_iff view.request_digest (ids.replacement_digest c)).1 digest in
      rw (valid, grade_replacement)
        (rw (valid₁) (rw (valid₂) (rw (load) (rw (same, replay_or_resolve) refl))))

  no_answer :
      (view answer : AssessmentFinalizationView)
      → view.request_digest ≢ ids.replacement_digest c
      → replay_or_resolve ids host c (ok (some view)) ≢ ok answer
  unfolding replay_or_resolve
  no_answer view answer differ h =
      elim (Bool-cases (view.request_digest === ids.replacement_digest c)) [
        | inl same ↦ differ ((===_iff view.request_digest (ids.replacement_digest c)).0 same)
        | inr other ↦ absurd (ground arith)
      ]

  refused_lem :
      (view : AssessmentFinalizationView)
      → host.load ≡ ok (some view)
      → view.request_digest ≢ ids.replacement_digest c
      → IsRefused (grade_replacement ids host c)
  refused_lem view load digest = elim (Result-cases (grade_replacement ids host c)) [
    | inr refused ↦ refused
    | inl (answer, done) ↦
        let (v, v₁, v₂, h) = grade_replacement-ok answer done in
        absurd (
          no_answer view answer digest
            (subst (λ x. replay_or_resolve ids host c x ≡ ok answer) load h))
  ]

-- Once a command's answer is kept, the same command gets it again, marked as replayed, and another
-- command under its key, one with another digest, is refused. The repository keeps the digest that it
-- is given.
pub grade_replacement-redelivered :
    (ids : Ids) (host later : Host) (c other : GradeReplacementCommand)
    (view : AssessmentFinalizationView)
    → KeepsDigest host
    → grade_replacement ids host c ≡ ok view
    → later.load ≡ ok (some view)
    → ids.replacement_digest c ≢ ids.replacement_digest other
    → (grade_replacement ids later c ≡ ok (record view { status = replayed }))
      × IsRefused (grade_replacement ids later other)
grade_replacement-redelivered ids host later c other view keeps first load differ =
    let (v, v₁, v₂, h) = grade_replacement-ok ids host c view first in
    let digest = replay_or_resolve-digest ids host c host.load view keeps h in
    (
      replayed_lem ids later c view load digest (v, v₁, v₂),
      refused_lem ids later other view load (λ same. differ (sym digest ∙ same)),
    )
