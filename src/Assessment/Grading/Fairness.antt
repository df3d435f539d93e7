-- ===== src/Assessment/Grading/Fairness.antt =====
-- packages/assessment/src/service.ts: what is handed to the repository as the outcome of an attempt.
use reflo_learning.Prelude.{
  ℕ, ◌≡◌, refl, inl, inr, String, none, some, List, [], ◌∷◌, Result, ok, err, Result-cases,
  Bool-cases, All, All-append,
}
use reflo_learning.Assessment.Contracts.{
  AuthorizedShortAnswerSnapshot, AssessmentFinalizationView, ReplacementBundleSnapshot, abstained,
  graded, grading_unavailable,
}
use reflo_learning.Assessment.Rules.{validate_snapshot, assert_expected_provenance, concepts_of}
use reflo_learning.Assessment.Judgments.{
  normalize_judgments, has_abstained, finalized_evidence, build_replacement_bundle,
}
use reflo_learning.Prelude.Traced.{raise, ◌>>◌}
use reflo_learning.Assessment.Actions.{
  GradeShortAnswerCommand, ShortAnswerFinalization, RoutedJudgments, Thrown, assessment, router,
  foreign, Host, Ids, Call, asked, finalizing, released,
}
use reflo_learning.Assessment.Grading.{
  grade_routed, conclude, grade_claimed, is_invalid_result, release,
}
use reflo_learning.Assessment.Evidence.{
  judged_concepts, replaced_concepts, IsAsked, Counts, IsLeftOut, normalize_judgments-IsFormed,
  all_count, withhold_all, build_replacement_bundle-concepts,
}

-- What is handed over as the outcome of an attempt fits it.
pub data IsFair (snapshot : AuthorizedShortAnswerSnapshot) (f : ShortAnswerFinalization)
    : Type 0 where
  -- Every rubric has its evidence, each counts and has a rating, and there is nothing to answer again.
  of_grades :
      f.outcome ≡ graded
      → f.fallback ≡ none
      → judged_concepts f.evidence ≡ concepts_of snapshot.question.rubrics
      → All Counts f.evidence
      → IsFair snapshot f
  -- No evidence counts, and every rubric's concept has an item to answer instead, which asks one of the
  -- snapshot's candidates whose first concept that is.
  of_doubt :
      (bundle : ReplacementBundleSnapshot)
      → f.outcome ≡ abstained
      → f.fallback ≡ some bundle
      → replaced_concepts bundle.items ≡ concepts_of snapshot.question.rubrics
      → All (IsAsked snapshot.fallback_candidates) bundle.items
      → All IsLeftOut f.evidence
      → IsFair snapshot f

abbrev pub IsFairCall : AuthorizedShortAnswerSnapshot → Call → Type 0
IsFairCall snapshot asked = Unit
IsFairCall snapshot (finalizing f) = IsFair snapshot f
IsFairCall snapshot released = Unit

module _ (ids : Ids) (host : Host) (c : GradeShortAnswerCommand) (token : String)
    (snapshot : AuthorizedShortAnswerSnapshot) (fallback : ReplacementBundleSnapshot)
    (covers : replaced_concepts fallback.items ≡ concepts_of snapshot.question.rubrics)
    (asks : All (IsAsked snapshot.fallback_candidates) fallback.items) where
  FairCalls : Result Thrown AssessmentFinalizationView × List Call → Type 0
  FairCalls (r, calls) = All (IsFairCall snapshot) calls

  released-FairCalls :
      (e : Thrown) (calls : List Call)
      → All (IsFairCall snapshot) calls
      → FairCalls ((release ids host c >> raise e) calls)
  unfolding FairCalls
  released-FairCalls e calls fair =
      let fair' = All-append (IsFairCall snapshot) calls (released ∷ []) fair (tt, tt) in
      elim (Result-cases host.release) [
        | inl (u, fine) ↦ rw fine fair'
        | inr (e', failed) ↦ rw failed fair'
      ]

  grade_routed-FairCalls :
      (routed : RoutedJudgments)
      → FairCalls (grade_routed ids host c token snapshot.question fallback routed (asked ∷ []))
  unfolding FairCalls grade_routed finalized_evidence
  grade_routed-FairCalls routed =
      elim (Result-cases (assert_expected_provenance c.policy routed.provenance)) [
        | inr (code, other) ↦ rw other (tt, tt)
        | inl (u, expected) ↦
            elim (Result-cases (
              normalize_judgments ids.judgment c.policy routed.provenance snapshot.question
                routed.judgments)) [
                  | inr (code, bad) ↦ rw (expected, bad) (tt, tt)
                  | inl (evidence, good) ↦
                      let (formed, same) =
                        normalize_judgments-IsFormed ids.judgment c.policy routed.provenance
                          snapshot.question routed.judgments good in
                      elim (Bool-cases (has_abstained evidence)) [
                        | inl doubt ↦
                            rw (expected, good, doubt)
                              (
                                tt,
                                (
                                  of_doubt fallback refl refl covers asks
                                      (withhold_all evidence formed).0,
                                  tt,
                                ),
                              )
                        | inr sure ↦
                            rw (expected, good, sure)
                              (tt, (of_grades refl refl same (all_count evidence sure formed), tt))
                      ]
                ]
      ]

  after_try :
      (tried : Result Thrown AssessmentFinalizationView × List Call)
      → FairCalls tried
      → FairCalls (elim tried.0 [
        | ok view ↦ (ok view, tried.1)
        | err e ↦ (release ids host c >> raise e) tried.1
      ])
  unfolding FairCalls
  after_try (ok view, calls) fair = fair
  after_try (err e, calls) fair = released-FairCalls e calls fair

  conclude-FairCalls :
      (routed : Result Thrown RoutedJudgments)
      → FairCalls (conclude ids host c token snapshot.question fallback routed (asked ∷ []))
  unfolding FairCalls conclude
  conclude-FairCalls (err (router code)) = elim (Bool-cases (is_invalid_result code)) [
    | inl invalid ↦ rw invalid (tt, (of_doubt fallback refl refl covers asks tt, tt))
    | inr unavailable ↦
        rw unavailable (released-FairCalls (assessment grading_unavailable) (asked ∷ []) (tt, tt))
  ]
  conclude-FairCalls (err (assessment code)) =
      released-FairCalls (assessment code) (asked ∷ []) (tt, tt)
  conclude-FairCalls (err foreign) = released-FairCalls foreign (asked ∷ []) (tt, tt)
  conclude-FairCalls (ok routed) =
      after_try (grade_routed ids host c token snapshot.question fallback routed (asked ∷ []))
        (grade_routed-FairCalls routed)

-- Whatever the model answers, what is handed over for a claimed question is one of two: graded, with
-- evidence for the rubrics' concepts in their order that all counts and has ratings, and no fallback;
-- or abstained, with no evidence that counts or has a rating, and a fallback whose items are for the
-- rubrics' concepts in their order, each with one of the snapshot's candidates whose first concept it
-- is.
pub grade_claimed-IsFair :
    (ids : Ids) (host : Host) (c : GradeShortAnswerCommand) (deadline_at : ℕ) (token : String)
    (snapshot : AuthorizedShortAnswerSnapshot)
    → All (IsFairCall snapshot) (grade_claimed ids host c deadline_at token snapshot []).1
unfolding grade_claimed FairCalls
grade_claimed-IsFair ids host c deadline_at token snapshot =
    elim (Result-cases (validate_snapshot snapshot)) [
      | inr (code, bad) ↦ rw bad tt
      | inl (u, valid) ↦
          let attempt_id = ids.attempt_uuid c snapshot.question.id in
          elim (Result-cases (build_replacement_bundle ids.judgment c.policy attempt_id snapshot)) [
            | inr (code, none_left) ↦ rw (valid, none_left) tt
            | inl (fallback, built) ↦
                let (covers, asks) =
                  build_replacement_bundle-concepts ids.judgment c.policy attempt_id snapshot
                    built in
                rw (valid, built)
                  (conclude-FairCalls ids host c token snapshot fallback covers asks _)
          ]
    ]
