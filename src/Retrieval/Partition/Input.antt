-- ===== src/Retrieval/Partition/Input.antt =====
-- packages/retrieval/src/curriculum.ts: `curriculumSegmentInput`, which reads the spans of a segment
-- again before it is sent to a model.
pub mod Unique
pub mod Readable
use mathlib.Core.List.{Memᴰ}
use mathlib.Core.Path.{subst}
use reflo_learning.Prelude.{
  ℕ, zero, suc, ◌+◌, ◌≡◌, ◌≢◌, refl, sym, ap, ◌∙◌, String, Bool, true, false, not, Option, none,
  some, List, [], ◌∷◌, ◌++◌, map, Result, ok, err, ◌>>=◌, ◌>>◌, throw_if, throw_if-ok, bind_ok,
  >>=-eq-ok, ok-injective, get_elem?, any, All, All-append-left, All-append-right, All-map,
  All-lookup, ◌===◌, ===_iff, if◌then◌else◌, arith, Bool-cases,
}
use reflo_learning.Retrieval.Contracts.{
  AuthorizedSourceAccess, authorization_denied, invalid_chunk, SourceSpanRecord,
  CurriculumSegmentManifestEntry, SegmentSourceSpan, CurriculumSegmentInput,
  CurriculumPartitionManifest,
}
use reflo_learning.Retrieval.Partition.{
  Throws, Segment, Hashes, is_foreign, is_inconsistent, check_span, check_spans,
  validate_partition_input, group_spans, segment_manifest_entry, segment_entries,
  partition_curriculum_source, input_of, entry_of, last_of, required, is_nil, generation_identity,
  manifest_of,
}
use reflo_learning.Retrieval.Partition.Groups.{
  spans_of, IsLight, IsPartition, group_spans-IsPartition,
}

-- The `Map` from ids to spans: of two spans with one id, the later is kept.
unfoldable pub by_id : String → List SourceSpanRecord → Option SourceSpanRecord
by_id id [] = none
by_id id (s ∷ ss) = elim (by_id id ss) [
  | some t ↦ some t
  | none ↦ if s.id === id then some s else none
]

unfoldable pub selected_index : List String → String → Throws ℕ
selected_index [] id = err invalid_chunk
selected_index (x ∷ xs) id =
    let rest = selected_index xs id in if x === id then ok 0 else (rest >>= λ i. ok (suc i))

abbrev is_text : String → Option String → Bool
is_text s none = false
is_text s (some t) = s === t

abbrev pub source_of : SourceSpanRecord → SegmentSourceSpan
source_of s = record {
  id = s.id;
  input_hash = s.embedding_input_hash;
  source_order = s.chunk_order;
  text = s.canonical_text;
}

unfoldable pub select_span :
    List String → List String → List SourceSpanRecord → String → Throws SegmentSourceSpan
select_span ids hashes spans id = elim (by_id id spans) [
  | none ↦ err invalid_chunk
  | some s ↦ do
    i ← selected_index ids id
    throw_if (not (is_text s.embedding_input_hash (get_elem? hashes i))) invalid_chunk
    ok (source_of s)
]

unfoldable pub select_spans :
    List String
    → List String
    → List SourceSpanRecord
    → List String
    → Throws (List SegmentSourceSpan)
select_spans ids hashes spans [] = ok []
select_spans ids hashes spans (id ∷ rest) = do
  s ← select_span ids hashes spans id
  ss ← select_spans ids hashes spans rest
  ok (s ∷ ss)

module _ (hashes : Hashes) where
  abbrev pub segment_input :
      String → CurriculumSegmentManifestEntry → List SegmentSourceSpan → CurriculumSegmentInput
  segment_input course_title segment selected = record {
    course_title = course_title;
    section_path = segment.input.section_path;
    segment_id = segment.id;
    segment_ordinal = segment.input.ordinal;
    source_order_end = segment.input.last_source_order;
    source_order_start = segment.input.first_source_order;
    source_spans = selected;
  }

  unfoldable pub curriculum_segment_input :
      String
      → CurriculumSegmentManifestEntry
      → List SourceSpanRecord
      → Throws CurriculumSegmentInput
  curriculum_segment_input course_title segment spans = do
    selected ←
        select_spans segment.input.source_span_ids segment.input.source_span_input_hashes spans
          segment.input.source_span_ids
    let input = segment_input course_title segment selected
    throw_if (not (hashes.input_digest input === segment.input_hash)) invalid_chunk
    ok input
