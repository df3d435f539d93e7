-- ===== src/Retrieval/Partition/Groups.antt =====
-- packages/retrieval/src/curriculum.ts: the groups that the loop of `partitionCurriculumSource` makes.
use mathlib.Core.Path.{subst}
use mathlib.Core.List.{append-nil, append_assoc}
use reflo_learning.Prelude.{
  ℕ, ◌+◌, ◌≤◌, ◌<◌, ◌⊎◌, ◌≡◌, ◌≢◌, refl, sym, ap, ◌∙◌, inl, inr, String, true, false, some, List,
  [], ◌∷◌, ◌++◌, ok, throw_if, throw_if-ok, >>=-eq-ok, length, length-append, get_elem?, All,
  All-append, ltb, arith, Bool-cases,
}
use reflo_learning.Retrieval.Contracts.{
  SourceSpanRecord, invalid_chunk, curriculum_segment_max_source_tokens,
}
use reflo_learning.Retrieval.Partition.{
  Segment, same_section_path, path_of, starts_new, segment_of, extend, place, group_spans,
}
use reflo_learning.Retrieval.Partition.Sections.{
  HasSection, same_section_path-eq, HasSection-eq, section_of, same_section_path_refl,
}

unfoldable pub spans_of : List Segment → List SourceSpanRecord
spans_of [] = []
spans_of (g ∷ gs) = g.spans ++ spans_of gs

module _ (count : String → ℕ) where
  pub total : List SourceSpanRecord → ℕ
  total [] = 0
  total (s ∷ ss) = count s.canonical_text + total ss

  total-append : (ss ts : List SourceSpanRecord) → total (ss ++ ts) ≡ total ss + total ts
  unfolding total
  total-append [] ts = omega arith
  total-append (s ∷ ss) ts = omega (arith, total-append ss ts)

  -- A segment that fits one call: some spans of one section, within the limits.
  pub record IsFitting (g : Segment) : Type 0 where
    pub has_span : g.spans ≢ []
    pub few : length g.spans ≤ 12
    pub counted : g.source_token_count ≡ total g.spans
    pub light : total g.spans ≤ 8_000
    pub one_section :
        All (λ (s : SourceSpanRecord). HasSection g.section_path s.section_path) g.spans

  -- A span is of another section than a segment's, or the segment has twelve spans, or there would be
  -- more than 8,000 tokens with it.
  abbrev pub IsApart : Segment → SourceSpanRecord → Type 0
  IsApart g s =
      (HasSection g.section_path s.section_path → ⊥)
      ⊎ (length g.spans ≡ 12)
      ⊎ (8_000 < total g.spans + count s.canonical_text)

  -- The first span of the second segment could not have been put into the first.
  pub record IsSplit (g h : Segment) : Type 0 where
    pub span : SourceSpanRecord
    pub first : get_elem? h.spans 0 ≡ some span
    pub apart : IsApart g span

  abbrev pub AreSplit : List Segment → Type 0
  AreSplit [] = Unit
  AreSplit (g ∷ []) = Unit
  AreSplit (g ∷ h ∷ gs) = IsSplit g h × AreSplit (h ∷ gs)

  abbrev pub IsLight : SourceSpanRecord → Type 0
  IsLight s = count s.canonical_text ≤ 8_000

  segment_of-IsFitting : (s : SourceSpanRecord) → IsLight s → IsFitting (segment_of count s)
  unfolding total
  segment_of-IsFitting s h = record {
    has_span = λ n. cc;
    few = omega arith;
    counted = omega arith;
    light = omega (arith, h);
    one_section = (section_of (path_of s) s.section_path refl, tt);
  }

  extend-IsFitting :
      (g : Segment) (s : SourceSpanRecord)
      → IsFitting g
      → starts_new count g s ≡ false
      → IsFitting (extend count g s)
  unfolding starts_new total
  extend-IsFitting g s f h = record {
    has_span = append_ne g.spans s;
    few = ground (arith, length-append g.spans (s ∷ []));
    counted = omega (arith, f.counted, total-append g.spans (s ∷ []));
    light = ground (arith, f.counted, total-append g.spans (s ∷ []));
    one_section = All-append _ g.spans (s ∷ []) f.one_section (
      section_of g.section_path s.section_path
          (same_section_path-eq g.section_path (path_of s) (ground arith)),
      tt,
    );
  }
    where
      append_ne : (ss : List SourceSpanRecord) (s : SourceSpanRecord) → (ss ++ (s ∷ [])) ≢ []
      append_ne [] s e = cc
      append_ne (x ∷ xs) s e = cc

  place-AreFitting :
      (gs : List Segment) (s : SourceSpanRecord)
      → IsLight s
      → All IsFitting gs
      → All IsFitting (place count gs s)
  unfolding place
  place-AreFitting [] s l h = (segment_of-IsFitting s l, tt)
  place-AreFitting (g ∷ []) s l h = elim (Bool-cases (starts_new count g s)) [
    | inl apart ↦ rw apart (h.0, (segment_of-IsFitting s l, tt))
    | inr fits ↦ rw fits (extend-IsFitting g s h.0 fits, tt)
  ]
  place-AreFitting (g ∷ h ∷ gs) s l f = (f.0, place-AreFitting (h ∷ gs) s l f.1)

  spans_of-place :
      (gs : List Segment) (s : SourceSpanRecord)
      → spans_of (place count gs s) ≡ spans_of gs ++ (s ∷ [])
  unfolding place spans_of
  spans_of-place [] s = refl
  spans_of-place (g ∷ []) s = elim (Bool-cases (starts_new count g s)) [
    | inl apart ↦ rw (apart, append-nil g.spans) refl
    | inr fits ↦ rw (fits, append-nil g.spans, append-nil (g.spans ++ (s ∷ []))) refl
  ]
  spans_of-place (g ∷ h ∷ gs) s =
      rw (spans_of-place (h ∷ gs) s) (sym (append_assoc g.spans (spans_of (h ∷ gs)) (s ∷ [])))

  place-first :
      (h : Segment) (gs : List Segment) (s : SourceSpanRecord)
      → (h' : Segment) × (rest : List Segment) × (place count (h ∷ gs) s ≡ h' ∷ rest)
        × ((span : SourceSpanRecord)
            → get_elem? h.spans 0 ≡ some span
            → get_elem? h'.spans 0 ≡ some span)
  unfolding place
  place-first h [] s = elim (Bool-cases (starts_new count h s)) [
    | inl apart ↦ (h, segment_of count s ∷ [], rw apart refl, (λ span e. e))
    | inr fits ↦ (extend count h s, [], rw fits refl, (λ span e. first_kept h.spans span e))
  ]
    where
      first_kept :
          (ss : List SourceSpanRecord) (span : SourceSpanRecord)
          → get_elem? ss 0 ≡ some span
          → get_elem? (ss ++ (s ∷ [])) 0 ≡ some span
      first_kept [] span e = absurd (cc)
      first_kept (x ∷ xs) span e = e
  place-first h (g ∷ gs) s = (h, place count (g ∷ gs) s, refl, (λ span e. e))

  starts_new-IsApart :
      (g : Segment) (s : SourceSpanRecord) → IsFitting g → starts_new count g s ≡ true → IsApart g s
  unfolding starts_new
  starts_new-IsApart g s f h = elim (Bool-cases (same_section_path g.section_path (path_of s))) [
    | inl same ↦ inr (
        let over : (length g.spans ≡ 12) ⊎ (8_000 < g.source_token_count + count s.canonical_text) =
          ground (arith, f.few) in
        elim over [ inl full ↦ inl full | inr heavy ↦ inr (omega (arith, heavy, f.counted)) ])
    | inr differ ↦ inl (λ own. contradiction own differ)
  ]
    where
      contradiction :
          HasSection g.section_path s.section_path
          → same_section_path g.section_path (path_of s) ≡ false
          → ⊥
      contradiction own differ =
          let e : g.section_path ≡ path_of s = HasSection-eq g.section_path s.section_path own in
          let same : same_section_path g.section_path (path_of s) ≡ true =
            subst (λ q. same_section_path g.section_path q ≡ true) e
              (same_section_path_refl g.section_path) in
          ground arith

  place-AreSplit :
      (gs : List Segment) (s : SourceSpanRecord)
      → All IsFitting gs
      → AreSplit gs
      → AreSplit (place count gs s)
  unfolding place
  place-AreSplit [] s f h = tt
  place-AreSplit (g ∷ []) s f h = elim (Bool-cases (starts_new count g s)) [
    | inl apart ↦
        rw apart (record { span = s; first = refl; apart = starts_new-IsApart g s f.0 apart }, tt)
    | inr fits ↦ rw fits tt
  ]
  place-AreSplit (g ∷ h ∷ gs) s f (split, apart) =
      let (h', rest, e, kept) = place-first h gs s in
      let later : AreSplit (h' ∷ rest) = subst AreSplit e (place-AreSplit (h ∷ gs) s f.1 apart) in
      subst (λ x. AreSplit (g ∷ x)) (sym e)
        (
          record { span = split.span; first = kept split.span split.first; apart = split.apart },
          later,
        )

  -- What the loop keeps: the groups hold the spans so far, in order.
  pub record IsPartition (spans : List SourceSpanRecord) (gs : List Segment) : Type 0 where
    pub whole : spans_of gs ≡ spans
    pub fitting : All IsFitting gs
    pub split : AreSplit gs

  place-IsPartition :
      (spans : List SourceSpanRecord) (gs : List Segment) (s : SourceSpanRecord)
      → IsLight s
      → IsPartition spans gs
      → IsPartition (spans ++ (s ∷ [])) (place count gs s)
  place-IsPartition spans gs s l p = record {
    whole = spans_of-place gs s ∙ ap (λ x. x ++ (s ∷ [])) p.whole;
    fitting = place-AreFitting gs s l p.fitting;
    split = place-AreSplit gs s p.fitting p.split;
  }

  -- If no span alone has more than 8,000 tokens, the loop, begun with segments of the spans before that
  -- are as follows, returns, and its segments hold all spans in their order. Each segment has one to
  -- twelve spans, which have at most 8,000 tokens together, their number is the segment's count, and all
  -- are of the segment's section. The first span of the next segment is of another section, or the
  -- segment before has twelve spans, or that span would make it exceed 8,000 tokens.
  pub group_spans-IsPartition :
      (spans before : List SourceSpanRecord) (gs : List Segment)
      → All IsLight spans
      → IsPartition before gs
      → (gs' : List Segment) × (group_spans count gs spans ≡ ok gs')
        × IsPartition (before ++ spans) gs'
  unfolding group_spans
  group_spans-IsPartition [] before gs l p =
      (gs, refl, subst (λ x. IsPartition x gs) (sym (append-nil before)) p)
  group_spans-IsPartition (s ∷ spans) before gs l p =
      let (gs', e, q) =
        group_spans-IsPartition spans (before ++ (s ∷ [])) (place count gs s) l.1
          (place-IsPartition before gs s l.0 p) in
      let light : ltb curriculum_segment_max_source_tokens (count s.canonical_text) ≡ false =
        ground (arith, l.0) in
      (gs', rw light e, subst (λ x. IsPartition x gs') (append_assoc before (s ∷ []) spans) q)

  -- Conversely, a loop that returns has met no span over the limit.
  pub group_spans-AreLight :
      (spans : List SourceSpanRecord) (gs : List Segment) {gs' : List Segment}
      → group_spans count gs spans ≡ ok gs'
      → All IsLight spans
  unfolding group_spans
  group_spans-AreLight [] gs e = tt
  group_spans-AreLight (s ∷ spans) gs e =
      let (u, allowed, rest) =
        >>=-eq-ok
          (throw_if (ltb curriculum_segment_max_source_tokens (count s.canonical_text))
            invalid_chunk)
          _ e in
      let light = throw_if-ok _ _ allowed in
      (ground arith, group_spans-AreLight spans (place count gs s) rest)
