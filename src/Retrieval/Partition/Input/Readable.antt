-- ===== src/Retrieval/Partition/Input/Readable.antt =====
-- packages/retrieval/src/curriculum.ts: the segments of a manifest can be read back.
use mathlib.Core.List.{Memᴰ}
use mathlib.Core.Path.{subst}
use reflo_learning.Prelude.{
  ℕ, suc, ◌+◌, ◌≡◌, ◌≢◌, refl, sym, ap, ◌∙◌, String, true, false, none, some, List, [], ◌∷◌, map,
  ok, throw_if, bind_ok, ok-injective, get_elem?, is_empty, ◌||◌, All, All-members, All-both,
  All-append-left, All-append-right, All-lookup, ◌===◌, ===_iff, arith,
}
use reflo_learning.Retrieval.Contracts.{
  AuthorizedSourceAccess, invalid_chunk, SourceSpanRecord, CurriculumSegmentManifestEntry,
  SegmentSourceSpan, CurriculumSegmentInput, CurriculumPartitionManifest,
}
use reflo_learning.Retrieval.Partition.{
  Segment, Hashes, validate_partition_input, group_spans, segment_manifest_entry, segment_entries,
  partition_curriculum_source, input_of, entry_of, last_of, required, is_nil, generation_identity,
}
use reflo_learning.Retrieval.Partition.Groups.{
  spans_of, group_spans-IsPartition, group_spans-AreLight,
}
use reflo_learning.Retrieval.Partition.Input.{
  by_id, selected_index, source_of, select_span, select_spans, segment_input,
  curriculum_segment_input,
}
use reflo_learning.Retrieval.Partition.Input.Unique.{
  AreUnique, check_spans-AreUnique, AreUnique-left, AreUnique-right,
}

by_id_absent :
    (id : String) (ss : List SourceSpanRecord) → All (λ s. s.id ≢ id) ss → by_id id ss ≡ none
unfolding by_id
by_id_absent id [] h = refl
by_id_absent id (s ∷ ss) h =
    let other : (s.id === id) ≡ false = ground (arith, ===_iff s.id id, h.0) in
    rw (by_id_absent id ss h.1) (rw other refl)

by_id_found :
    (s : SourceSpanRecord) (ss : List SourceSpanRecord)
    → AreUnique ss
    → Memᴰ s ss
    → by_id s.id ss ≡ some s
unfolding by_id
by_id_found s [] u m = elim m [ ]
by_id_found s (x ∷ ss) u (Memᴰ.head e) =
    let same : (x.id === x.id) ≡ true = ground (arith, ===_iff x.id x.id) in
    subst (λ y. by_id y.id (x ∷ ss) ≡ some y) (sym e)
      (rw (by_id_absent x.id ss u.0, same, by_id) refl)
by_id_found s (x ∷ ss) u (Memᴰ.tail m) = rw (by_id_found s ss u.1 m, by_id) refl

abbrev id_of : SourceSpanRecord → String
id_of s = s.id

abbrev digest_of : SourceSpanRecord → String
digest_of s = s.embedding_input_hash

index_found :
    (s : SourceSpanRecord) (ss : List SourceSpanRecord)
    → AreUnique ss
    → Memᴰ s ss
    → (i : ℕ) × (selected_index (map id_of ss) s.id ≡ ok i)
      × (get_elem? (map digest_of ss) i ≡ some (digest_of s))
unfolding selected_index
index_found s [] u m = elim m [ ]
index_found s (x ∷ ss) u (Memᴰ.head e) =
    let same : (x.id === s.id) ≡ true = ground (arith, ===_iff x.id s.id, ap id_of e) in
    (0, rw same refl, ap (λ y. some (digest_of y)) (sym e))
index_found s (x ∷ ss) u (Memᴰ.tail m) =
    let (i, found, hash) = index_found s ss u.1 m in
    let other : (x.id === s.id) ≡ false =
      ground (arith, ===_iff x.id s.id, All-lookup (λ t. t.id ≢ x.id) ss u.0 m) in
    (suc i, rw (other, found) refl, hash)

select_span_found :
    (group spans : List SourceSpanRecord) (s : SourceSpanRecord)
    → AreUnique group
    → AreUnique spans
    → Memᴰ s group
    → Memᴰ s spans
    → select_span (map id_of group) (map digest_of group) spans s.id ≡ ok (source_of s)
unfolding select_span
select_span_found group spans s u v m n =
    let (i, found, hash) = index_found s group u m in
    let same : (digest_of s === digest_of s) ≡ true =
      ground (arith, ===_iff (digest_of s) (digest_of s)) in
    rw (by_id_found s spans v n, select_span) (rw found (rw hash (rw same refl)))

select_spans_found :
    (group spans ss : List SourceSpanRecord)
    → AreUnique group
    → AreUnique spans
    → All (λ s. Memᴰ s group × Memᴰ s spans) ss
    → select_spans (map id_of group) (map digest_of group) spans (map id_of ss)
      ≡ ok (map source_of ss)
unfolding select_spans
select_spans_found group spans [] u v h = refl
select_spans_found group spans (s ∷ ss) u v h =
    rw (select_span_found group spans s u v h.0.0 h.0.1)
      (rw (select_spans_found group spans ss u v h.1) refl)

module _ (hashes : Hashes) (title : String) (spans : List SourceSpanRecord) where
  -- The segment's input can be read again, and names the segment's spans.
  abbrev pub IsReadable : CurriculumSegmentManifestEntry → Type 0
  IsReadable e =
      (input : CurriculumSegmentInput) × (curriculum_segment_input hashes title e spans ≡ ok input)
      × (map (λ (s : SegmentSourceSpan). s.id) input.source_spans ≡ e.input.source_span_ids)

module _ (hashes : Hashes) (title parent : String) (spans : List SourceSpanRecord)
    (unique : AreUnique spans) where
  ids_of_sources :
      (ss : List SourceSpanRecord)
      → map (λ (s : SegmentSourceSpan). s.id) (map source_of ss) ≡ map id_of ss
  ids_of_sources [] = refl
  ids_of_sources (s ∷ ss) = ap (λ x. s.id ∷ x) (ids_of_sources ss)

  entry-IsReadable :
      (ordinal : ℕ) (g : Segment) {e : CurriculumSegmentManifestEntry}
      → AreUnique g.spans
      → All (λ s. Memᴰ s spans) g.spans
      → segment_manifest_entry hashes title parent ordinal g ≡ ok e
      → IsReadable hashes title spans e
  unfolding segment_manifest_entry curriculum_segment_input
  entry-IsReadable ordinal g {e} u m h = bind_ok (required (get_elem? g.spans 0)) _ h λ first c₁ h₁.
      bind_ok (required (last_of g.spans)) _ h₁
        λ last c₂ h₂. subst (IsReadable hashes title spans) (ok-injective h₂) (read_back first last)
    where
      read_back :
          (first last : SourceSpanRecord)
          → IsReadable hashes title spans
              (entry_of hashes title (input_of hashes parent ordinal g first last) g)
      read_back first last =
          let entry = entry_of hashes title (input_of hashes parent ordinal g first last) g in
          let input = segment_input hashes title entry (map source_of g.spans) in
          let same : (hashes.input_digest input === hashes.input_digest input) ≡ true =
            ground (arith, ===_iff (hashes.input_digest input) (hashes.input_digest input)) in
          (
            input,
            rw
                (select_spans_found g.spans spans g.spans u unique
                  (All-both _ _ g.spans (All-members g.spans) m))
                (rw same refl),
            ids_of_sources g.spans,
          )

  entries-IsReadable :
      (ordinal : ℕ) (gs : List Segment) {es : List CurriculumSegmentManifestEntry}
      → AreUnique (spans_of gs)
      → All (λ s. Memᴰ s spans) (spans_of gs)
      → segment_entries hashes title parent ordinal gs ≡ ok es
      → All (IsReadable hashes title spans) es
  unfolding segment_entries spans_of
  entries-IsReadable ordinal [] u m h =
      subst (All (IsReadable hashes title spans)) (ok-injective h) tt
  entries-IsReadable ordinal (g ∷ gs) u m h =
      bind_ok (segment_manifest_entry hashes title parent ordinal g) _ h λ e made h₁.
        bind_ok (segment_entries hashes title parent (ordinal + 1) gs) _ h₁ λ es rest h₂.
          subst (All (IsReadable hashes title spans)) (ok-injective h₂) (
            entry-IsReadable ordinal g (AreUnique-left g.spans (spans_of gs) u)
                (All-append-left _ g.spans (spans_of gs) m) made,
            entries-IsReadable (ordinal + 1) gs (AreUnique-right g.spans (spans_of gs) u)
                (All-append-right _ g.spans (spans_of gs) m) rest,
          )

module _ (hashes : Hashes) (count : String → ℕ) where
  -- Every segment of a manifest that the partition returns can be read back from the same spans: the
  -- input is found, its hash is the segment's, and it names the segment's spans in their order.
  pub partition_curriculum_source-IsReadable :
      (access : AuthorizedSourceAccess) (generation_id : String) (spans : List SourceSpanRecord)
      {m : CurriculumPartitionManifest}
      → partition_curriculum_source hashes count access generation_id spans ≡ ok m
      → All (IsReadable hashes access.course_title spans) m.body.segments
  unfolding partition_curriculum_source validate_partition_input spans_of
  partition_curriculum_source-IsReadable access generation_id spans h =
      let parent = hashes.generation_uuid (generation_identity hashes access generation_id spans) in
      bind_ok (validate_partition_input access generation_id spans) _ h λ v valid h₁.
        bind_ok (throw_if (is_empty generation_id || is_nil spans) invalid_chunk) _ valid
          λ w some_spans checked. bind_ok (group_spans count [] spans) _ h₁ λ gs grouped h₂.
            bind_ok (segment_entries hashes access.course_title parent 0 gs) _ h₂ λ es made h₃.
              let unique = (check_spans-AreUnique access [] 0 spans checked).1 in
              let (gs', again, p) =
                group_spans-IsPartition count spans [] []
                  (group_spans-AreLight count spans [] grouped)
                  (record { whole = refl; fitting = tt; split = tt }) in
              let whole : spans_of gs ≡ spans =
                ap spans_of (ok-injective (sym grouped ∙ again)) ∙ p.whole in
              subst (λ x. All (IsReadable hashes access.course_title spans) x.body.segments)
                (ok-injective h₃)
                (entries-IsReadable hashes access.course_title parent spans unique 0 gs
                  (subst AreUnique (sym whole) unique)
                  (subst (All (λ s. Memᴰ s spans)) (sym whole) (All-members spans)) made)
