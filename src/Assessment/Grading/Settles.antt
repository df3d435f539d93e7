-- ===== src/Assessment/Grading/Settles.antt =====
-- packages/assessment/src/service.ts: how the calls for a claimed question end.
use reflo_learning.Prelude.{
  ℕ, ◌≡◌, refl, sym, ap, ◌⊎◌, inl, inr, String, none, List, [], ◌∷◌, ◌++◌, Result, ok, err,
  Result-cases, Bool-cases, All,
}
use reflo_learning.Assessment.Contracts.{
  AssessmentErrorCode, AuthorizedShortAnswerSnapshot, AssessmentFinalizationView,
  ShortAnswerQuestion, ReplacementBundleSnapshot, grading_unavailable, fallback_unavailable,
}
use reflo_learning.Assessment.Rules.{validate_snapshot, assert_expected_provenance}
use reflo_learning.Assessment.Judgments.{normalize_judgments, build_replacement_bundle}
use reflo_learning.Assessment.Fallbacks.{
  IsCovered, LacksFallback, build_replacement_bundle-IsCovered,
  build_replacement_bundle-LacksFallback,
}
use reflo_learning.Prelude.Traced.{raise, ◌>>◌}
use reflo_learning.Assessment.Actions.{
  GradeShortAnswerCommand, ShortAnswerFinalization, RoutedJudgments, Thrown, assessment, router,
  foreign, Host, Ids, Call, asked, finalizing, released,
}
use reflo_learning.Assessment.Grading.{
  grade_routed, conclude, grade_claimed, is_invalid_result, release,
}

abbrev pub Throws : Type 0
Throws = Result Thrown AssessmentFinalizationView

-- The snapshot passes `validateSnapshot`, and each of its rubrics has a candidate to fall back on.
pub record IsGradable (snapshot : AuthorizedShortAnswerSnapshot) : Type 0 where
  valid : validate_snapshot snapshot ≡ ok tt
  covered : All (IsCovered snapshot.fallback_candidates) snapshot.question.rubrics

-- The error is that of `validateSnapshot`, or a rubric has no candidate.
abbrev pub IsUngradable : AuthorizedShortAnswerSnapshot → AssessmentErrorCode → Type 0
IsUngradable snapshot e =
    (validate_snapshot snapshot ≡ err e)
    ⊎ ((validate_snapshot snapshot ≡ ok tt)
        × (e ≡ fallback_unavailable)
        × LacksFallback snapshot.fallback_candidates snapshot.question.rubrics)

-- How the calls after the claim end. `asked` stands for the model's call.
pub data IsSettled (host : Host) (snapshot : AuthorizedShortAnswerSnapshot) (calls : List Call)
    (r : Throws) : Type 0 where
  -- The claim's data were refused before the model was asked.
  refused :
      (e : AssessmentErrorCode)
      → IsUngradable snapshot e
      → r ≡ err (assessment e)
      → calls ≡ []
      → IsSettled host snapshot calls r
  -- The attempt was finalized, and this is the answer. An error of a finalization that has no
  -- provenance is passed on.
  settled :
      (f : ShortAnswerFinalization)
      → IsGradable snapshot
      → r ≡ host.finalize f
      → (f.model_provenance ≡ none) ⊎ ((view : AssessmentFinalizationView) × (r ≡ ok view))
      → calls ≡ asked ∷ finalizing f ∷ []
      → IsSettled host snapshot calls r
  -- The claim was given back, and the answer is an error.
  given_back :
      (e : Thrown)
      → IsGradable snapshot
      → r ≡ err e
      → (calls ≡ asked ∷ released ∷ [])
        ⊎ ((f : ShortAnswerFinalization) × (calls ≡ asked ∷ finalizing f ∷ released ∷ []))
      → IsSettled host snapshot calls r

module _ (ids : Ids) (host : Host) (c : GradeShortAnswerCommand)
    (snapshot : AuthorizedShortAnswerSnapshot) (gradable : IsGradable snapshot) where
  abbrev Settled : Throws × List Call → Type 0
  Settled (r, calls) = IsSettled host snapshot calls r

  -- A claim that is given back, whether or not the release itself fails.
  given_back_after :
      (calls : List Call) (e : Thrown)
      → (calls ≡ asked ∷ []) ⊎ ((f : ShortAnswerFinalization) × (calls ≡ asked ∷ finalizing f ∷ []))
      → Settled ((release ids host c >> raise e) calls)
  given_back_after calls e shape = elim (Result-cases host.release) [
    | inl (u, fine) ↦ rw fine (given_back e gradable refl (shape_lem shape))
    | inr (e', failed) ↦ rw failed (given_back e' gradable refl (shape_lem shape))
  ]
    where
      shape_lem :
          (calls ≡ asked ∷ [])
            ⊎ ((f : ShortAnswerFinalization) × (calls ≡ asked ∷ finalizing f ∷ []))
          → (calls ++ (released ∷ []) ≡ asked ∷ released ∷ [])
            ⊎ ((f : ShortAnswerFinalization) × (calls ++ (released ∷ [])
                  ≡ asked ∷ finalizing f ∷ released ∷ []))
      shape_lem (inl q) = inl (ap (λ x. x ++ (released ∷ [])) q)
      shape_lem (inr (f, q)) = inr (f, ap (λ x. x ++ (released ∷ [])) q)

  -- What the last `try` leaves behind.
  abbrev IsTried : Throws × List Call → Type 0
  IsTried (ok view, calls) =
      (f : ShortAnswerFinalization) × (ok view ≡ host.finalize f)
      × (calls ≡ asked ∷ finalizing f ∷ [])
  IsTried (err e, calls) =
      (calls ≡ asked ∷ []) ⊎ ((f : ShortAnswerFinalization) × (calls ≡ asked ∷ finalizing f ∷ []))

  finalize-IsTried :
      (f : ShortAnswerFinalization) → IsTried (host.finalize f, asked ∷ finalizing f ∷ [])
  finalize-IsTried f = elim (Result-cases (host.finalize f)) [
    | inl (view, fine) ↦ rw fine (f, sym fine, refl)
    | inr (e, failed) ↦ rw failed (inr (f, refl))
  ]

  grade_routed-IsTried :
      (token : String) (question : ShortAnswerQuestion) (fallback : ReplacementBundleSnapshot)
      (routed : RoutedJudgments)
      → IsTried (grade_routed ids host c token question fallback routed (asked ∷ []))
  unfolding grade_routed
  grade_routed-IsTried token question fallback routed =
      elim (Result-cases (assert_expected_provenance c.policy routed.provenance)) [
        | inr (code, other) ↦ rw other (inl refl)
        | inl (u, expected) ↦
            elim (Result-cases (
              normalize_judgments ids.judgment c.policy routed.provenance question
                routed.judgments)) [
                  | inr (code, bad) ↦ rw (expected, bad) (inl refl)
                  | inl (evidence, good) ↦ rw (expected, good) (finalize-IsTried _)
                ]
      ]

  after_try :
      (tried : Throws × List Call)
      → IsTried tried
      → Settled (elim tried.0 [
        | ok view ↦ (ok view, tried.1)
        | err e ↦ (release ids host c >> raise e) tried.1
      ])
  after_try (ok view, calls) (f, done, q) = settled f gradable done (inr (view, refl)) q
  after_try (err e, calls) shape = given_back_after calls e shape

  conclude-Settled :
      (token : String) (question : ShortAnswerQuestion) (fallback : ReplacementBundleSnapshot)
      (routed : Result Thrown RoutedJudgments)
      → Settled (conclude ids host c token question fallback routed (asked ∷ []))
  unfolding conclude
  conclude-Settled token question fallback (err (router code)) =
      elim (Bool-cases (is_invalid_result code)) [
        | inl invalid ↦ rw invalid (settled _ gradable refl (inl refl) refl)
        | inr unavailable ↦
            rw unavailable
              (given_back_after (asked ∷ []) (assessment grading_unavailable) (inl refl))
      ]
  conclude-Settled token question fallback (err (assessment code)) =
      given_back_after (asked ∷ []) (assessment code) (inl refl)
  conclude-Settled token question fallback (err foreign) =
      given_back_after (asked ∷ []) foreign (inl refl)
  conclude-Settled token question fallback (ok routed) =
      after_try (grade_routed ids host c token question fallback routed (asked ∷ []))
        (grade_routed-IsTried token question fallback routed)

module _ (ids : Ids) (host : Host) (c : GradeShortAnswerCommand) where
  -- Whatever the router and the repository answer, a claimed question is finalized or given back after
  -- the model was asked if its data pass `validateSnapshot` and each rubric's concept is the first of some
  -- candidate to fall back on: the answer is the finalization's, or it is an error and the last call is
  -- the release. The one error that leaves the claim as it is comes from the finalization of an attempt
  -- that the model could not judge. Other data are refused before any call: with the error of
  -- `validateSnapshot`, or as without a fallback if a rubric's concept is the first of no candidate.
  pub grade_claimed-IsSettled :
      (deadline_at : ℕ) (token : String) (snapshot : AuthorizedShortAnswerSnapshot)
      → let (r, calls) = grade_claimed ids host c deadline_at token snapshot [] in
        IsSettled host snapshot calls r
  unfolding grade_claimed
  grade_claimed-IsSettled deadline_at token snapshot =
      elim (Result-cases (validate_snapshot snapshot)) [
        | inr (code, bad) ↦ rw bad (refused code (inl bad) refl refl)
        | inl (u, valid) ↦
            elim (Result-cases (
              build_replacement_bundle ids.judgment c.policy
                (ids.attempt_uuid c snapshot.question.id) snapshot)) [
                  | inr (code, none_left) ↦
                      let (unavailable, lacks) =
                        build_replacement_bundle-LacksFallback ids.judgment c.policy
                          (ids.attempt_uuid c snapshot.question.id) snapshot none_left in
                      rw (valid, none_left)
                        (refused code (inr (valid, unavailable, lacks)) refl refl)
                  | inl (fallback, built) ↦
                      let gradable : IsGradable snapshot = record {
                        valid = valid;
                        covered =
                            build_replacement_bundle-IsCovered ids.judgment c.policy
                              (ids.attempt_uuid c snapshot.question.id) snapshot built;
                      } in
                      rw (valid, built)
                        (conclude-Settled ids host c snapshot gradable token snapshot.question
                          fallback _)
                ]
      ]
