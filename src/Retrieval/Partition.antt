-- ===== src/Retrieval/Partition.antt =====
-- packages/retrieval/src/curriculum.ts: `partitionCurriculumSource`. The tokenizer's count of a text
-- (a Unicode pattern of the engine) and the hashes of identity.ts, which are UUIDs and digests of
-- canonical JSON, are parameters.
pub mod Sections
pub mod Groups
pub mod Manifest
pub mod Input
use reflo_learning.Prelude.{
  ℕ, zero, suc, ◌+◌, String, Bool, true, false, not, ◌&&◌, ◌||◌, Option, none, some, List, [], ◌∷◌,
  map, ◌++◌, Result, ok, err, ◌>>=◌, ◌>>◌, throw_if, length, get_elem?, any, ltb, leb, ◌==◌, ◌===◌,
  if◌then◌else◌, is_empty, is_digest,
}
use reflo_learning.Retrieval.Contracts.{
  RetrievalErrorCode, authorization_denied, invalid_chunk, invalid_model_result,
  AuthorizedSourceAccess, SourceSpanRecord, ImmutableInput, CurriculumSegmentManifestEntry,
  SegmentSourceSpan, CurriculumSegmentInput, ManifestBody, GenerationSpan, GenerationIdentity,
  CurriculumPartitionManifest, tokenizer_version, curriculum_segment_generation_version,
  curriculum_partition_version, curriculum_composition_version, curriculum_segment_task_version,
  curriculum_segment_max_spans, curriculum_segment_max_source_tokens,
}

abbrev pub Throws : Type 0 → Type 0
Throws A = Result RetrievalErrorCode A

abbrev pub is_nil : {A : Type 0} → List A → Bool
is_nil [] = true
is_nil (x ∷ xs) = false

-- `MutableSegment`.
pub record Segment : Type 0 where
  pub section_path : Option (List String)
  pub spans : List SourceSpanRecord
  pub source_token_count : ℕ

-- The two tests that the loop of `validatePartitionInput` makes of a span; `seen` has the spans
-- before it.
unfoldable pub is_foreign : AuthorizedSourceAccess → SourceSpanRecord → Bool
is_foreign access span =
    not (span.owner_scope_id === access.owner_scope_id)
    || not (span.source_document_id === access.source_document_id)

unfoldable pub is_inconsistent : List SourceSpanRecord → ℕ → SourceSpanRecord → Bool
is_inconsistent seen index span =
    not (span.contract_version === "source-span-v1")
    || not (span.chunker_version === "chunk-v1")
    || not (span.tokenizer_version === tokenizer_version)
    || not (span.chunk_order == index)
    || any (λ (s : SourceSpanRecord). s.id === span.id) seen
    || any (λ (s : SourceSpanRecord). s.chunk_order == span.chunk_order) seen
    || not (is_digest span.embedding_input_hash)

unfoldable pub check_span :
    AuthorizedSourceAccess → List SourceSpanRecord → ℕ → SourceSpanRecord → Throws (Unit {0})
check_span access seen index span = do
  throw_if (is_foreign access span) authorization_denied
  throw_if (is_inconsistent seen index span) invalid_chunk

unfoldable pub check_spans :
    AuthorizedSourceAccess → List SourceSpanRecord → ℕ → List SourceSpanRecord → Throws (Unit {0})
check_spans access seen index [] = ok tt
check_spans access seen index (span ∷ spans) = do
  check_span access seen index span
  check_spans access (span ∷ seen) (index + 1) spans

unfoldable pub validate_partition_input :
    AuthorizedSourceAccess → String → List SourceSpanRecord → Throws (Unit {0})
validate_partition_input access generation_id spans = do
  throw_if (is_empty generation_id || is_nil spans) invalid_chunk
  check_spans access [] 0 spans

unfoldable pub same_path : List String → List String → Bool
same_path [] [] = true
same_path (x ∷ xs) (y ∷ ys) = x === y && same_path xs ys
same_path _ _ = false

abbrev pub same_section_path : Option (List String) → Option (List String) → Bool
same_section_path none none = true
same_section_path (some xs) (some ys) = same_path xs ys
same_section_path _ _ = false

abbrev pub path_of : SourceSpanRecord → Option (List String)
path_of span = if is_nil span.section_path then none else some span.section_path

module _ (count : String → ℕ) where
  -- Whether the span starts a new segment after this one.
  unfoldable pub starts_new : Segment → SourceSpanRecord → Bool
  starts_new current span =
      not (same_section_path current.section_path (path_of span))
      || leb curriculum_segment_max_spans (length current.spans)
      || ltb curriculum_segment_max_source_tokens
          (current.source_token_count + count span.canonical_text)

  abbrev pub segment_of : SourceSpanRecord → Segment
  segment_of span = record {
    section_path = path_of span;
    spans = span ∷ [];
    source_token_count = count span.canonical_text;
  }

  abbrev pub extend : Segment → SourceSpanRecord → Segment
  extend g span = record {
    section_path = g.section_path;
    spans = g.spans ++ (span ∷ []);
    source_token_count = g.source_token_count + count span.canonical_text;
  }

  -- One round of the loop over the spans: the last segment takes the span, or a new one does.
  unfoldable pub place : List Segment → SourceSpanRecord → List Segment
  place [] span = segment_of span ∷ []
  place (g ∷ []) span = if starts_new g span then g ∷ segment_of span ∷ [] else extend g span ∷ []
  place (g ∷ h ∷ gs) span = g ∷ place (h ∷ gs) span

  unfoldable pub group_spans : List Segment → List SourceSpanRecord → Throws (List Segment)
  group_spans gs [] = ok gs
  group_spans gs (span ∷ spans) = do
    throw_if (ltb curriculum_segment_max_source_tokens (count span.canonical_text)) invalid_chunk
    group_spans (place gs span) spans

-- `array.at(-1)`.
unfoldable pub last_of : {A : Type 0} → List A → Option A
last_of [] = none
last_of (x ∷ []) = some x
last_of (x ∷ y ∷ ys) = last_of (y ∷ ys)

abbrev pub required : {A : Type 0} → Option A → Throws A
required none = err invalid_model_result
required (some a) = ok a

-- The UUIDs and digests of the canonical JSON of what is hashed.
pub record Hashes : Type 0 where
  pub generation_uuid : GenerationIdentity → String
  pub segment_uuid : ImmutableInput → String
  pub input_digest : CurriculumSegmentInput → String
  pub manifest_digest : ManifestBody → String

module _ (hashes : Hashes) where
  abbrev pub input_of : String → ℕ → Segment → SourceSpanRecord → SourceSpanRecord → ImmutableInput
  input_of parent_generation_id ordinal group first last = record {
    first_source_order = first.chunk_order;
    last_source_order = last.chunk_order;
    ordinal = ordinal;
    parent_generation_id = parent_generation_id;
    partition_version = curriculum_partition_version;
    section_path = group.section_path;
    source_span_ids = map (λ (s : SourceSpanRecord). s.id) group.spans;
    source_span_input_hashes = map (λ (s : SourceSpanRecord). s.embedding_input_hash) group.spans;
    source_token_count = group.source_token_count;
    task_version = curriculum_segment_task_version;
  }

  -- What `segmentManifestEntry` returns for a group with these first and last spans.
  abbrev pub entry_of : String → ImmutableInput → Segment → CurriculumSegmentManifestEntry
  entry_of course_title input group =
      let id = hashes.segment_uuid input in
      record {
        id = id;
        input_hash = hashes.input_digest (record {
          course_title = course_title;
          section_path = group.section_path;
          segment_id = id;
          segment_ordinal = input.ordinal;
          source_order_end = input.last_source_order;
          source_order_start = input.first_source_order;
          source_spans =
              map
                (λ (s : SourceSpanRecord). record {
                  id = s.id;
                  input_hash = s.embedding_input_hash;
                  source_order = s.chunk_order;
                  text = s.canonical_text;
                })
                group.spans;
        });
        input = input;
      }

  unfoldable pub segment_manifest_entry :
      String → String → ℕ → Segment → Throws CurriculumSegmentManifestEntry
  segment_manifest_entry course_title parent_generation_id ordinal group = do
    first ← required (get_elem? group.spans 0)
    last ← required (last_of group.spans)
    ok (entry_of course_title (input_of parent_generation_id ordinal group first last) group)

  unfoldable pub segment_entries :
      String → String → ℕ → List Segment → Throws (List CurriculumSegmentManifestEntry)
  segment_entries course_title parent ordinal [] = ok []
  segment_entries course_title parent ordinal (g ∷ gs) = do
    entry ← segment_manifest_entry course_title parent ordinal g
    entries ← segment_entries course_title parent (ordinal + 1) gs
    ok (entry ∷ entries)

  generation_identity : AuthorizedSourceAccess → String → List SourceSpanRecord → GenerationIdentity
  generation_identity access generation_id spans = record {
    composition_version = curriculum_composition_version;
    course_id = access.course_id;
    embedding_generation_id = generation_id;
    generation_version = curriculum_segment_generation_version;
    owner_scope_id = access.owner_scope_id;
    partition_version = curriculum_partition_version;
    source_document_id = access.source_document_id;
    spans =
        map
          (λ (s : SourceSpanRecord). record {
            chunk_order = s.chunk_order;
            embedding_input_hash = s.embedding_input_hash;
            id = s.id;
            section_path = s.section_path;
          })
          spans;
    tokenizer_version = tokenizer_version;
  }

  manifest_of :
      AuthorizedSourceAccess
      → String
      → String
      → List CurriculumSegmentManifestEntry
      → CurriculumPartitionManifest
  manifest_of access generation_id parent segments =
      let body : ManifestBody = record {
        composition_version = curriculum_composition_version;
        course_id = access.course_id;
        embedding_generation_id = generation_id;
        generation_version = curriculum_segment_generation_version;
        owner_scope_id = access.owner_scope_id;
        parent_generation_id = parent;
        partition_version = curriculum_partition_version;
        segments = segments;
        source_document_id = access.source_document_id;
        tokenizer_version = tokenizer_version;
      } in
      record { body = body; manifest_hash = hashes.manifest_digest body }

  unfoldable pub partition_curriculum_source :
      (String → ℕ)
      → AuthorizedSourceAccess
      → String
      → List SourceSpanRecord
      → Throws CurriculumPartitionManifest
  unfolding generation_identity manifest_of
  partition_curriculum_source count access generation_id spans = do
    validate_partition_input access generation_id spans
    let parent = hashes.generation_uuid (generation_identity access generation_id spans)
    groups ← group_spans count [] spans
    segments ← segment_entries access.course_title parent 0 groups
    ok (manifest_of access generation_id parent segments)
