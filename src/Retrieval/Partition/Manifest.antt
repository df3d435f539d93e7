-- ===== src/Retrieval/Partition/Manifest.antt =====
-- packages/retrieval/src/curriculum.ts: the manifest that `partitionCurriculumSource` returns.
use mathlib.Core.Path.{subst}
use reflo_learning.Prelude.{
  ℕ, suc, ◌+◌, ◌≤◌, ◌<◌, ◌≡◌, refl, sym, ap, ◌∙◌, String, false, ◌||◌, some, List, [], ◌∷◌, ◌++◌,
  map, ok, length, get_elem?, All, is_empty, ==_iff, throw_if, throw_if-ok, bind_ok, arith,
}
use reflo_learning.Retrieval.Contracts.{
  AuthorizedSourceAccess, authorization_denied, invalid_chunk, SourceSpanRecord,
  CurriculumSegmentManifestEntry, CurriculumPartitionManifest,
}
use reflo_learning.Retrieval.Partition.{
  Segment, Hashes, input_of, entry_of, is_foreign, is_inconsistent, check_span, check_spans,
  validate_partition_input, last_of, segment_manifest_entry, segment_entries,
  partition_curriculum_source, generation_identity, manifest_of, is_nil,
}
use reflo_learning.Retrieval.Partition.Sections.{HasSection}
use reflo_learning.Retrieval.Partition.Groups.{
  spans_of, total, IsFitting, IsLight, group_spans-IsPartition,
}

-- The spans carry their places, from `n`.
abbrev pub IsNumbered : ℕ → List SourceSpanRecord → Type 0
IsNumbered n [] = Unit
IsNumbered n (s ∷ ss) = (s.chunk_order ≡ n) × IsNumbered (n + 1) ss

order_lem :
    (seen : List SourceSpanRecord) (n : ℕ) (s : SourceSpanRecord)
    → is_inconsistent seen n s ≡ false
    → s.chunk_order ≡ n
unfolding is_inconsistent
order_lem seen n s h = ground (arith, ==_iff s.chunk_order n)

check_span-order :
    (access : AuthorizedSourceAccess) (seen : List SourceSpanRecord) (n : ℕ) (s : SourceSpanRecord)
    {u : Unit {0}}
    → check_span access seen n s ≡ ok u
    → s.chunk_order ≡ n
unfolding check_span
check_span-order access seen n s h =
    bind_ok (throw_if (is_foreign access s) authorization_denied) _ h
      λ v allowed rest. order_lem seen n s (throw_if-ok _ _ rest)

check_spans-IsNumbered :
    (access : AuthorizedSourceAccess) (seen : List SourceSpanRecord) (n : ℕ)
    (spans : List SourceSpanRecord) {u : Unit {0}}
    → check_spans access seen n spans ≡ ok u
    → IsNumbered n spans
unfolding check_spans
check_spans-IsNumbered access seen n [] h = tt
check_spans-IsNumbered access seen n (s ∷ spans) h =
    bind_ok (check_span access seen n s) _ h λ v one rest. (
      check_span-order access seen n s one,
      check_spans-IsNumbered access (s ∷ seen) (n + 1) spans rest,
    )

validated_order :
    (access : AuthorizedSourceAccess) (generation_id : String) (spans : List SourceSpanRecord)
    {u : Unit {0}}
    → validate_partition_input access generation_id spans ≡ ok u
    → IsNumbered 0 spans
unfolding validate_partition_input
validated_order access generation_id spans h =
    bind_ok (throw_if (is_empty generation_id || is_nil spans) invalid_chunk) _ h
      λ v some_spans rest. check_spans-IsNumbered access [] 0 spans rest

IsNumbered-right :
    (n : ℕ) (ss ts : List SourceSpanRecord)
    → IsNumbered n (ss ++ ts)
    → IsNumbered (n + length ss) ts
IsNumbered-right n [] ts h = subst (λ k. IsNumbered k ts) (omega arith) h
IsNumbered-right n (s ∷ ss) ts h =
    subst (λ k. IsNumbered k ts) (omega arith) (IsNumbered-right (n + 1) ss ts h.1)

last_of-order :
    (n : ℕ) (s : SourceSpanRecord) (ss ts : List SourceSpanRecord)
    → IsNumbered n (s ∷ (ss ++ ts))
    → (last : SourceSpanRecord) × (last_of (s ∷ ss) ≡ some last)
      × (last.chunk_order ≡ n + length ss)
unfolding last_of
last_of-order n s [] ts h = (s, refl, omega (arith, h.0))
last_of-order n s (x ∷ xs) ts h =
    let (last, e, o) = last_of-order (n + 1) x xs ts h.1 in (last, e, omega (arith, o))

abbrev id_of : SourceSpanRecord → String
id_of s = s.id

-- The entry at `ordinal` is of these spans, which begin at place `n`.
pub record IsTile (count : String → ℕ) (ordinal n : ℕ) (ss : List SourceSpanRecord)
    (e : CurriculumSegmentManifestEntry) : Type 0 where
  pub numbered : e.input.ordinal ≡ ordinal
  pub begins : e.input.first_source_order ≡ n
  pub ends : e.input.last_source_order + 1 ≡ n + length ss
  pub named : e.input.source_span_ids ≡ map id_of ss
  pub has_span : 0 < length ss
  pub few : length ss ≤ 12
  pub counted : e.input.source_token_count ≡ total count ss
  pub light : total count ss ≤ 8_000
  pub one_section :
      All (λ (s : SourceSpanRecord). HasSection e.input.section_path s.section_path) ss

-- Entries that follow each other without a gap, for all these spans from place `n`.
abbrev pub AreTiles :
    (String → ℕ)
    → (ordinal n : ℕ) → List CurriculumSegmentManifestEntry
    → List SourceSpanRecord
    → Type 0
AreTiles count ordinal n [] spans = spans ≡ []
AreTiles count ordinal n (e ∷ es) spans =
    (ss : List SourceSpanRecord) × (rest : List SourceSpanRecord) × (spans ≡ ss ++ rest)
    × IsTile count ordinal n ss e
    × AreTiles count (ordinal + 1) (n + length ss) es rest

pub ids_of : List CurriculumSegmentManifestEntry → List String
ids_of [] = []
ids_of (e ∷ es) = e.input.source_span_ids ++ ids_of es

ids-append : (ss ts : List SourceSpanRecord) → map id_of (ss ++ ts) ≡ map id_of ss ++ map id_of ts
ids-append [] ts = refl
ids-append (s ∷ ss) ts = ap (λ x. s.id ∷ x) (ids-append ss ts)

module _ (hashes : Hashes) (count : String → ℕ) (title parent : String) where
  entry_of_fitting :
      (ordinal n : ℕ) (g : Segment) (rest : List SourceSpanRecord)
      → IsFitting count g
      → IsNumbered n (g.spans ++ rest)
      → (e : CurriculumSegmentManifestEntry) × (segment_manifest_entry hashes title parent ordinal g
          ≡ ok e)
        × IsTile count ordinal n g.spans e
        × (e.input.source_span_ids ≡ map id_of g.spans)
  unfolding segment_manifest_entry
  entry_of_fitting ordinal n g rest f h = go g.spans refl
    where
      go :
          (ss : List SourceSpanRecord)
          → g.spans ≡ ss
          → (e : CurriculumSegmentManifestEntry) × (segment_manifest_entry hashes title parent
                ordinal g
              ≡ ok e)
            × IsTile count ordinal n g.spans e
            × (e.input.source_span_ids ≡ map id_of g.spans)
      go [] q = absurd (f.has_span q)
      go (s ∷ ss) q =
          let numbered : IsNumbered n (s ∷ (ss ++ rest)) =
            subst (λ x. IsNumbered n (x ++ rest)) q h in
          let (last, e, o) = last_of-order n s ss rest numbered in
          let first : get_elem? g.spans 0 ≡ some s = ap (λ x. get_elem? x 0) q in
          let end : last_of g.spans ≡ some last = ap last_of q ∙ e in
          let size : length g.spans ≡ suc (length ss) = ap length q in
          (
            entry_of hashes title (input_of hashes parent ordinal g s last) g,
            rw (first, end) refl,
            record {
              numbered = refl;
              begins = numbered.0;
              ends = omega (arith, o, size);
              named = refl;
              has_span = omega (arith, size);
              few = f.few;
              counted = f.counted;
              light = f.light;
              one_section = f.one_section;
            },
            refl,
          )

  entries_of_fitting :
      (ordinal n : ℕ) (gs : List Segment)
      → All (IsFitting count) gs
      → IsNumbered n (spans_of gs)
      → (es : List CurriculumSegmentManifestEntry) × (segment_entries hashes title parent ordinal gs
          ≡ ok es)
        × AreTiles count ordinal n es (spans_of gs)
        × (ids_of es ≡ map id_of (spans_of gs))
  unfolding segment_entries spans_of ids_of
  entries_of_fitting ordinal n [] f h = ([], refl, refl, refl)
  entries_of_fitting ordinal n (g ∷ gs) f h =
      let (e, made, tile, ids) = entry_of_fitting ordinal n g (spans_of gs) f.0 h in
      let (es, rest, tiles, more) =
        entries_of_fitting (ordinal + 1) (n + length g.spans) gs f.1
          (IsNumbered-right n g.spans (spans_of gs) h) in
      (
        e ∷ es,
        rw (made, rest) refl,
        (g.spans, spans_of gs, refl, tile, tiles),
        ap (λ x. x ++ ids_of es) ids
            ∙ ap (λ x. map id_of g.spans ++ x) more
            ∙ sym (ids-append g.spans (spans_of gs)),
      )

module _ (hashes : Hashes) (count : String → ℕ) where
  -- For valid spans of which none alone has more than 8,000 tokens, the partition returns a manifest.
  -- Its entries are numbered from 0 and follow each other without a gap, each for the next spans: it has
  -- the places of the first and the last of them, their ids in order and the number of their tokens;
  -- there are between one and twelve, with at most 8,000 tokens together, all of the entry's section.
  -- Together they are all the spans, and name all their ids.
  pub partition_curriculum_source-AreTiles :
      (access : AuthorizedSourceAccess) (generation_id : String) (spans : List SourceSpanRecord)
      {u : Unit {0}}
      → validate_partition_input access generation_id spans ≡ ok u
      → All (IsLight count) spans
      → (m : CurriculumPartitionManifest) × (partition_curriculum_source hashes count access
            generation_id spans
          ≡ ok m)
        × AreTiles count 0 0 m.body.segments spans
        × (ids_of m.body.segments ≡ map id_of spans)
  unfolding partition_curriculum_source spans_of
  partition_curriculum_source-AreTiles access generation_id spans valid light =
      let numbered = validated_order access generation_id spans valid in
      let (gs, grouped, p) =
        group_spans-IsPartition count spans [] [] light
          (record { whole = refl; fitting = tt; split = tt }) in
      let parent = hashes.generation_uuid (generation_identity hashes access generation_id spans) in
      let (es, made, tiles, ids) =
        entries_of_fitting hashes count access.course_title parent 0 0 gs p.fitting
          (subst (IsNumbered 0) (sym p.whole) numbered) in
      (
        manifest_of hashes access generation_id parent es,
        rw (valid, grouped) (rw made refl),
        subst (AreTiles count 0 0 es) p.whole tiles,
        ids ∙ ap (map id_of) p.whole,
      )
