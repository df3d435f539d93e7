-- ===== src/Assessment/Evidence.antt =====
-- packages/assessment/src/service.ts: the evidence of an attempt, and the concepts of what replaces it.
use mathlib.Core.Path.{subst}
use mathlib.Core.List.{Memᴰ}
use reflo_learning.Prelude.{
  ℕ, ◌≡◌, ◌≢◌, refl, inl, inr, String, true, false, none, List, [], ◌∷◌, map, ok, Bool-cases,
  Option-cases, arith, All, bind_ok, ok-injective, find, throw_if, units, find-ok, ===_iff, ap, ◌∙◌,
}
use reflo_learning.Assessment.Contracts.{
  invalid_result, AssessmentEvidenceCandidate, AuthorizedShortAnswerSnapshot, ShortAnswerQuestion,
  ShortAnswerRubricInput, ShortAnswerJudgment, scored, unanswerable, KeyedMultipleChoiceQuestion,
  ReplacementItemSnapshot, ReplacementBundleSnapshot, FrozenGradingPolicy, ModelCallProvenance,
}
use reflo_learning.Assessment.Rules.{concepts_of, format_unit, parse_unit, is_about}
use reflo_learning.Assessment.Judgments.{
  JudgmentIds, by_concept, judge, judge_all, normalize_judgments, is_scored, has_abstained,
  withhold, replacement_items, build_replacement_bundle,
}

abbrev pub judged_concepts : List AssessmentEvidenceCandidate → List String
judged_concepts = map (λ (e : AssessmentEvidenceCandidate). e.concept_id)

-- Evidence from a judgment: it counts and has a rating, or it does not and has none.
pub record IsFormed (e : AssessmentEvidenceCandidate) : Type 0 where
  counted : e.eligible_for_mastery ≡ true → (e.fsrs_rating ≢ none) × (is_scored e.judged ≡ true)
  left_out : e.eligible_for_mastery ≡ false → e.fsrs_rating ≡ none

module _ (ids : JudgmentIds) (policy : FrozenGradingPolicy) (provenance : ModelCallProvenance) where
  judge-IsFormed :
      (threshold : ℕ) (r : ShortAnswerRubricInput) (j : ShortAnswerJudgment)
      {e : AssessmentEvidenceCandidate}
      → judge ids policy provenance threshold r j ≡ ok e
      → IsFormed e × (e.concept_id ≡ r.concept_id)
  unfolding judge
  judge-IsFormed threshold r (unanswerable concept reason) h =
      subst (λ x. IsFormed x × (x.concept_id ≡ r.concept_id)) (ok-injective h)
        (record { counted = λ q. cc; left_out = λ q. refl }, refl)
  judge-IsFormed threshold r (scored concept confidence band) h =
      bind_ok (format_unit confidence) _ h λ text c₁ h₁. bind_ok (parse_unit text) _ h₁ λ q c₂ h₂.
        subst (λ x. IsFormed x × (x.concept_id ≡ r.concept_id)) (ok-injective h₂)
          (
            record { counted = λ k. ((λ n. ground arith), refl); left_out = λ k. ground arith },
            refl,
          )

  judge_all-IsFormed :
      (threshold : ℕ) (js : List ShortAnswerJudgment) (rs : List ShortAnswerRubricInput)
      {es : List AssessmentEvidenceCandidate}
      → judge_all ids policy provenance threshold js rs ≡ ok es
      → All IsFormed es × (judged_concepts es ≡ concepts_of rs)
  unfolding judge_all
  judge_all-IsFormed threshold js [] h =
      subst (λ x. All IsFormed x × (judged_concepts x ≡ [])) (ok-injective h) (tt, refl)
  judge_all-IsFormed threshold js (r ∷ rs) h = elim (Option-cases (by_concept r.concept_id js)) [
    | inl absent ↦ absurd (ground arith)
    | inr (j, found) ↦
        let h' = rw (found) at h in
        bind_ok (judge ids policy provenance threshold r j) _ h' λ e one h₁.
          bind_ok (judge_all ids policy provenance threshold js rs) _ h₁ λ es rest h₂.
            let (formed, same) = judge-IsFormed threshold r j one in
            let (all_formed, all_same) = judge_all-IsFormed threshold js rs rest in
            subst (λ x. All IsFormed x × (judged_concepts x ≡ concepts_of (r ∷ rs)))
              (ok-injective h₂) ((formed, all_formed), ground arith)
  ]

  pub normalize_judgments-IsFormed :
      (question : ShortAnswerQuestion) (js : List ShortAnswerJudgment)
      {es : List AssessmentEvidenceCandidate}
      → normalize_judgments ids policy provenance question js ≡ ok es
      → All IsFormed es × (judged_concepts es ≡ concepts_of question.rubrics)
  unfolding normalize_judgments
  normalize_judgments-IsFormed question js h = bind_ok (throw_if _ invalid_result) _ h λ u c₁ h₁.
      bind_ok (parse_unit (units policy.confidence_threshold)) _ h₁
        λ threshold c₂ h₂. judge_all-IsFormed threshold js question.rubrics h₂

abbrev pub Counts : AssessmentEvidenceCandidate → Type 0
Counts e = (e.eligible_for_mastery ≡ true) × (e.fsrs_rating ≢ none)

abbrev pub IsLeftOut : AssessmentEvidenceCandidate → Type 0
IsLeftOut e = (e.eligible_for_mastery ≡ false) × (e.fsrs_rating ≡ none)

pub all_count :
    (es : List AssessmentEvidenceCandidate)
    → has_abstained es ≡ false
    → All IsFormed es
    → All Counts es
unfolding has_abstained
all_count [] h f = tt
all_count (e ∷ es) h (f, fs) =
    let one : e.eligible_for_mastery ≡ true = ground arith in
    ((one, (f.counted one).0), all_count es (ground arith) fs)

withhold-IsLeftOut : (e : AssessmentEvidenceCandidate) → IsFormed e → IsLeftOut (withhold e)
unfolding withhold
withhold-IsLeftOut e f = elim (Bool-cases e.eligible_for_mastery) [
  | inl counts ↦ rw (counts, (f.counted counts).1) (refl, refl)
  | inr out ↦ ground (arith, f.left_out out)
]

pub withhold_all :
    (es : List AssessmentEvidenceCandidate)
    → All IsFormed es
    → All IsLeftOut (map withhold es) × (judged_concepts (map withhold es) ≡ judged_concepts es)
unfolding withhold
withhold_all [] f = (tt, refl)
withhold_all (e ∷ es) (f, fs) =
    let (out, same) = withhold_all es fs in ((withhold-IsLeftOut e f, out), ground arith)

abbrev pub replaced_concepts : List ReplacementItemSnapshot → List String
replaced_concepts = map (λ (i : ReplacementItemSnapshot). i.concept_id)

-- An item asks a question among `candidates` whose first concept is the item's.
pub record IsAsked (candidates : List KeyedMultipleChoiceQuestion) (i : ReplacementItemSnapshot)
    : Type 0 where
  candidate : Memᴰ i.question candidates
  further : List String
  first : i.question.concept_ids ≡ i.concept_id ∷ further

pub is_about-first :
    (concept_id : String) (concepts : List String) (q : KeyedMultipleChoiceQuestion)
    → q.concept_ids ≡ concepts
    → is_about concept_id q ≡ true
    → (further : List String) × (q.concept_ids ≡ concept_id ∷ further)
is_about-first concept_id [] q e h = absurd (absurd_nil (rw e at h))
  where
    absurd_nil : false ≡ true → ⊥
    absurd_nil h = cc
is_about-first concept_id (c ∷ cs) q e h =
    (cs, e ∙ ap (λ x. x ∷ cs) ((===_iff c concept_id).0 (rw e at h)))

-- The items that replace a question are about its rubrics' concepts, in their order.
module _ (ids : JudgmentIds) (policy : FrozenGradingPolicy) (attempt_id : String) where
  replacement_items-concepts :
      (candidates : List KeyedMultipleChoiceQuestion) (rs : List ShortAnswerRubricInput)
      {items : List ReplacementItemSnapshot}
      → replacement_items ids policy attempt_id candidates rs ≡ ok items
      → (replaced_concepts items ≡ concepts_of rs) × All (IsAsked candidates) items
  unfolding replacement_items
  replacement_items-concepts candidates [] h =
      subst (λ x. (replaced_concepts x ≡ []) × All (IsAsked candidates) x) (ok-injective h)
        (refl, tt)
  replacement_items-concepts candidates (r ∷ rs) h =
      elim (Option-cases (find (is_about r.concept_id) candidates)) [
        | inl absent ↦ absurd (ground arith)
        | inr (q, found) ↦
            let h' = rw found at h in
            bind_ok (replacement_items ids policy attempt_id candidates rs) _ h' λ items rest h₁.
              let (same, all_asked) = replacement_items-concepts candidates rs rest in
              let (member, about) = find-ok (is_about r.concept_id) candidates found in
              let (further, first) = is_about-first r.concept_id q.concept_ids q refl about in
              subst (λ x. (replaced_concepts x ≡ concepts_of (r ∷ rs)) × All (IsAsked candidates) x)
                (ok-injective h₁)
                (
                  ap (λ x. r.concept_id ∷ x) same,
                  (record { candidate = member; further = further; first = first }, all_asked),
                )
      ]

  pub build_replacement_bundle-concepts :
      (snapshot : AuthorizedShortAnswerSnapshot) {bundle : ReplacementBundleSnapshot}
      → build_replacement_bundle ids policy attempt_id snapshot ≡ ok bundle
      → (replaced_concepts bundle.items ≡ concepts_of snapshot.question.rubrics)
        × All (IsAsked snapshot.fallback_candidates) bundle.items
  unfolding build_replacement_bundle
  build_replacement_bundle-concepts snapshot h =
      bind_ok
        (replacement_items ids policy attempt_id snapshot.fallback_candidates
          snapshot.question.rubrics)
        _ h
        λ items found h₁.
          let both =
            replacement_items-concepts snapshot.fallback_candidates snapshot.question.rubrics
              found in
          subst
            (λ (x : ReplacementBundleSnapshot).
              (replaced_concepts x.items ≡ concepts_of snapshot.question.rubrics)
              × All (IsAsked snapshot.fallback_candidates) x.items)
            (ok-injective h₁) both
