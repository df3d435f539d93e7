-- ===== src/Assessment/Fallbacks.antt =====
-- packages/assessment/src/service.ts: when `buildReplacementBundle` finds a question for every concept.
use mathlib.Core.List.{Memᴰ}
use reflo_learning.Prelude.{
  ◌≡◌, ◌≢◌, refl, sym, inl, inr, String, true, false, List, [], ◌∷◌, ok, err, find, find-ok,
  find-none, Option-cases, Result-cases, All, ===_iff, arith, Bool, bind_ok, err-injective,
}
use reflo_learning.Assessment.Contracts.{
  AssessmentErrorCode, fallback_unavailable, AuthorizedShortAnswerSnapshot, ShortAnswerRubricInput,
  KeyedMultipleChoiceQuestion, ReplacementBundleSnapshot, ReplacementItemSnapshot,
  FrozenGradingPolicy,
}
use reflo_learning.Assessment.Rules.{is_about}
use reflo_learning.Assessment.Judgments.{JudgmentIds, replacement_items, build_replacement_bundle}
use reflo_learning.Assessment.Evidence.{is_about-first}

-- The first of the concepts of some candidate is the rubric's.
pub record IsCovered (candidates : List KeyedMultipleChoiceQuestion) (r : ShortAnswerRubricInput)
    : Type 0 where
  question : KeyedMultipleChoiceQuestion
  candidate : Memᴰ question candidates
  further : List String
  first : question.concept_ids ≡ r.concept_id ∷ further

-- A rubric whose concept is the first of no candidate.
pub record LacksFallback (candidates : List KeyedMultipleChoiceQuestion)
    (rs : List ShortAnswerRubricInput) : Type 0 where
  rubric : ShortAnswerRubricInput
  among : Memᴰ rubric rs
  nowhere :
      All
        (λ (q : KeyedMultipleChoiceQuestion).
          (further : List String) → q.concept_ids ≢ rubric.concept_id ∷ further)
        candidates

is_about_itself :
    (concept_id : String) (q : KeyedMultipleChoiceQuestion) (further : List String)
    → q.concept_ids ≡ concept_id ∷ further
    → is_about concept_id q ≡ true
is_about_itself concept_id q further e = rw e ((===_iff concept_id concept_id).1 refl)

nobody_first :
    (concept_id : String) (qs : List KeyedMultipleChoiceQuestion)
    → All (λ q. is_about concept_id q ≡ false) qs
    → All
        (λ (q : KeyedMultipleChoiceQuestion).
          (further : List String) → q.concept_ids ≢ concept_id ∷ further)
        qs
nobody_first concept_id [] h = tt
nobody_first concept_id (q ∷ qs) (h, hs) = (
  (λ further e. differ (is_about concept_id q) (is_about_itself concept_id q further e) h),
  nobody_first concept_id qs hs,
)
  where
    differ : (b : Bool) → b ≡ true → b ≡ false → ⊥
    differ b yes_it no_it = cc

module _ (ids : JudgmentIds) (policy : FrozenGradingPolicy) (attempt_id : String)
    (candidates : List KeyedMultipleChoiceQuestion) where
  replacement_items-IsCovered :
      (rs : List ShortAnswerRubricInput) {items : List ReplacementItemSnapshot}
      → replacement_items ids policy attempt_id candidates rs ≡ ok items
      → All (IsCovered candidates) rs
  unfolding replacement_items
  replacement_items-IsCovered [] h = tt
  replacement_items-IsCovered (r ∷ rs) h =
      elim (Option-cases (find (is_about r.concept_id) candidates)) [
        | inl absent ↦ absurd (ground arith)
        | inr (q, found) ↦
            let h' = rw found at h in
            bind_ok (replacement_items ids policy attempt_id candidates rs) _ h' λ items rest h₁.
              let (member, about) = find-ok (is_about r.concept_id) candidates found in
              let (further, first) = is_about-first r.concept_id q.concept_ids q refl about in
              (
                record { question = q; candidate = member; further = further; first = first },
                replacement_items-IsCovered rs rest,
              )
      ]

  replacement_items-LacksFallback :
      (rs : List ShortAnswerRubricInput) {e : AssessmentErrorCode}
      → replacement_items ids policy attempt_id candidates rs ≡ err e
      → (e ≡ fallback_unavailable) × LacksFallback candidates rs
  unfolding replacement_items
  replacement_items-LacksFallback [] h = absurd (cc)
  replacement_items-LacksFallback (r ∷ rs) h =
      elim (Option-cases (find (is_about r.concept_id) candidates)) [
        | inl absent ↦ (
          sym (err-injective (rw absent at h)),
          record {
            rubric = r;
            among = Memᴰ.head refl;
            nowhere = nobody_first r.concept_id candidates (find-none _ candidates absent);
          },
        )
        | inr (q, found) ↦
            let h' = rw found at h in
            elim (Result-cases (replacement_items ids policy attempt_id candidates rs)) [
              | inl (items, rest) ↦ absurd (ground arith)
              | inr (e', rest) ↦
                  let (code, lacks) = replacement_items-LacksFallback rs rest in
                  (
                    ground arith,
                    record {
                      rubric = lacks.rubric;
                      among = Memᴰ.tail lacks.among;
                      nowhere = lacks.nowhere;
                    },
                  )
            ]
      ]

module _ (ids : JudgmentIds) (policy : FrozenGradingPolicy) (attempt_id : String)
    (snapshot : AuthorizedShortAnswerSnapshot) where
  pub build_replacement_bundle-IsCovered :
      {bundle : ReplacementBundleSnapshot}
      → build_replacement_bundle ids policy attempt_id snapshot ≡ ok bundle
      → All (IsCovered snapshot.fallback_candidates) snapshot.question.rubrics
  unfolding build_replacement_bundle
  build_replacement_bundle-IsCovered h =
      bind_ok
        (replacement_items ids policy attempt_id snapshot.fallback_candidates
          snapshot.question.rubrics)
        _ h
        λ items found h₁.
          replacement_items-IsCovered ids policy attempt_id snapshot.fallback_candidates
            snapshot.question.rubrics found

  pub build_replacement_bundle-LacksFallback :
      {e : AssessmentErrorCode}
      → build_replacement_bundle ids policy attempt_id snapshot ≡ err e
      → (e ≡ fallback_unavailable)
        × LacksFallback snapshot.fallback_candidates snapshot.question.rubrics
  unfolding build_replacement_bundle
  build_replacement_bundle-LacksFallback h =
      elim (Result-cases (
        replacement_items ids policy attempt_id snapshot.fallback_candidates
          snapshot.question.rubrics)) [
            | inl (items, found) ↦ absurd (ground arith)
            | inr (e', lacking) ↦
                let (code, lacks) =
                  replacement_items-LacksFallback ids policy attempt_id snapshot.fallback_candidates
                    snapshot.question.rubrics lacking in
                (ground arith, lacks)
          ]
