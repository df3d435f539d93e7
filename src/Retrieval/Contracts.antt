-- ===== src/Retrieval/Contracts.antt =====
-- packages/retrieval/src/contracts.ts and errors.ts: spans of a source, segments and their manifest.
-- The fields of a span that the partition does not read are left out.
use reflo_learning.Prelude.{ℕ, String, Option, List}

abbrev pub tokenizer_version : String
tokenizer_version = "reflo-unicode-tokenizer-v1"

abbrev pub curriculum_segment_generation_version : String
curriculum_segment_generation_version = "curriculum-v2"

abbrev pub curriculum_partition_version : String
curriculum_partition_version = "curriculum-partition-v1"

abbrev pub curriculum_composition_version : String
curriculum_composition_version = "curriculum-compose-v1"

abbrev pub curriculum_segment_task_version : String
curriculum_segment_task_version = "curriculum.segment.v1"

abbrev pub curriculum_segment_max_spans : ℕ
curriculum_segment_max_spans = 12

abbrev pub curriculum_segment_max_source_tokens : ℕ
curriculum_segment_max_source_tokens = 8_000

pub data RetrievalErrorCode : Type 0 where
  authorization_denied deadline_exceeded invalid_chunk : RetrievalErrorCode
  invalid_configuration invalid_model_result invalid_vector_result : RetrievalErrorCode
  persistence_failure : RetrievalErrorCode

pub record AuthorizedSourceAccess : Type 0 where
  pub actor_id : String
  pub authorization_id : String
  pub course_id : String
  pub course_title : String
  pub owner_scope_id : String
  pub source_document_id : String

pub record SourceSpanRecord : Type 0 where
  pub canonical_text : String
  pub chunk_order : ℕ
  pub chunker_version : String
  pub contract_version : String
  pub embedding_input_hash : String
  pub id : String
  pub owner_scope_id : String
  pub section_path : List String
  pub source_document_id : String
  pub tokenizer_version : String

-- `immutableInput` of `segmentManifestEntry`: an entry without its own id and hash.
pub record ImmutableInput : Type 0 where
  pub first_source_order : ℕ
  pub last_source_order : ℕ
  pub ordinal : ℕ
  pub parent_generation_id : String
  pub partition_version : String
  pub section_path : Option (List String)
  pub source_span_ids : List String
  pub source_span_input_hashes : List String
  pub source_token_count : ℕ
  pub task_version : String

pub record CurriculumSegmentManifestEntry : Type 0 where
  pub id : String
  pub input_hash : String
  pub input : ImmutableInput

pub record SegmentSourceSpan : Type 0 where
  pub id : String
  pub input_hash : String
  pub source_order : ℕ
  pub text : String

pub record CurriculumSegmentInput : Type 0 where
  pub course_title : String
  pub section_path : Option (List String)
  pub segment_id : String
  pub segment_ordinal : ℕ
  pub source_order_end : ℕ
  pub source_order_start : ℕ
  pub source_spans : List SegmentSourceSpan

-- `manifestWithoutHash`.
pub record ManifestBody : Type 0 where
  pub composition_version : String
  pub course_id : String
  pub embedding_generation_id : String
  pub generation_version : String
  pub owner_scope_id : String
  pub parent_generation_id : String
  pub partition_version : String
  pub segments : List CurriculumSegmentManifestEntry
  pub source_document_id : String
  pub tokenizer_version : String

pub record CurriculumPartitionManifest : Type 0 where
  pub body : ManifestBody
  pub manifest_hash : String

-- What `parentGenerationId` is the UUID of.
pub record GenerationSpan : Type 0 where
  pub chunk_order : ℕ
  pub embedding_input_hash : String
  pub id : String
  pub section_path : List String

pub record GenerationIdentity : Type 0 where
  pub composition_version : String
  pub course_id : String
  pub embedding_generation_id : String
  pub generation_version : String
  pub owner_scope_id : String
  pub partition_version : String
  pub source_document_id : String
  pub spans : List GenerationSpan
  pub tokenizer_version : String
