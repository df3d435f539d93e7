-- ===== src/Retrieval/Tests.antt =====
-- packages/retrieval: the partition of a small source.
use reflo_learning.Prelude.{
  ℕ, ◌≡◌, refl, String, Option, some, none, List, [], ◌∷◌, ok, err, All, arith, length, units,
  is_digest, String,
}
use reflo_learning.Retrieval.Contracts.{
  AuthorizedSourceAccess, SourceSpanRecord, CurriculumPartitionManifest,
}
use reflo_learning.Retrieval.Partition.{
  Segment, Hashes, is_foreign, is_inconsistent, check_span, check_spans, validate_partition_input,
  partition_curriculum_source, group_spans, place, starts_new, same_path,
}
use reflo_learning.Retrieval.Partition.Groups.{
  IsLight, IsPartition, group_spans-IsPartition, spans_of,
}
use reflo_learning.Retrieval.Partition.Input.Readable.{
  IsReadable, partition_curriculum_source-IsReadable,
}
use reflo_learning.Retrieval.Partition.Manifest.{
  AreTiles, ids_of, partition_curriculum_source-AreTiles,
}

abbrev span : ℕ → String → List String → SourceSpanRecord
span n id path = record {
  canonical_text = id;
  chunk_order = n;
  chunker_version = "chunk-v1";
  contract_version = "source-span-v1";
  embedding_input_hash = "0123456789abcdef0123456789abcdef0123456789abcdef0123456789abcdef";
  id = id;
  owner_scope_id = "o1";
  section_path = path;
  source_document_id = "d1";
  tokenizer_version = "reflo-unicode-tokenizer-v1";
}

abbrev access : AuthorizedSourceAccess
access = record {
  actor_id = "a1";
  authorization_id = "z1";
  course_id = "c1";
  course_title = "Course";
  owner_scope_id = "o1";
  source_document_id = "d1";
}

-- Three spans of two sections, each of 3,000 tokens, then one more of the second section.
abbrev four_spans : List SourceSpanRecord
four_spans =
    span 0 "s0" ("1" ∷ [])
    ∷ span 1 "s1" ("2" ∷ [])
    ∷ span 2 "s2" ("2" ∷ [])
    ∷ span 3 "s3" ("2" ∷ [])
    ∷ []

abbrev three_thousand : String → ℕ
three_thousand text = 3_000

abbrev hashes : Hashes
hashes = record {
  generation_uuid = λ g. "g";
  segment_uuid = λ i. "u";
  input_digest = λ i. "i";
  manifest_digest = λ m. "m";
}

sizes : List Segment → List ℕ
sizes [] = []
sizes (g ∷ gs) = length g.spans ∷ sizes gs

grouped : Option (List ℕ)
unfolding sizes group_spans place starts_new same_path
grouped = elim (group_spans three_thousand [] four_spans) [ ok gs ↦ some (sizes gs) | err e ↦ none ]

three_groups : grouped ≡ some (1 ∷ 2 ∷ 1 ∷ [])
unfolding grouped
three_groups = refl

four_valid : validate_partition_input access "g1" four_spans ≡ ok tt
unfolding validate_partition_input check_spans check_span is_foreign is_inconsistent is_digest units
four_valid = refl

four-IsLight : All (IsLight three_thousand) four_spans
four-IsLight = (omega arith, (omega arith, (omega arith, (omega arith, tt))))

partition_curriculum_source-AreTiles_example :
    (m : CurriculumPartitionManifest) × (partition_curriculum_source hashes three_thousand access
        "g1" four_spans
      ≡ ok m)
    × AreTiles three_thousand 0 0 m.body.segments four_spans
    × (ids_of m.body.segments ≡ "s0" ∷ "s1" ∷ "s2" ∷ "s3" ∷ [])
partition_curriculum_source-AreTiles_example =
    partition_curriculum_source-AreTiles hashes three_thousand access "g1" four_spans four_valid
      four-IsLight

none_yet : spans_of [] ≡ []
unfolding spans_of
none_yet = refl

group_spans-IsPartition_example :
    (gs : List Segment) × (group_spans three_thousand [] four_spans ≡ ok gs)
    × IsPartition three_thousand four_spans gs
group_spans-IsPartition_example =
    group_spans-IsPartition three_thousand four_spans [] [] four-IsLight
      (record { whole = none_yet; fitting = tt; split = tt })

-- The manifest of the four spans, and that it is what the partition returns.
abbrev four_manifest : CurriculumPartitionManifest
four_manifest =
    (partition_curriculum_source-AreTiles hashes three_thousand access "g1" four_spans four_valid
      four-IsLight).0

four_partitioned :
    partition_curriculum_source hashes three_thousand access "g1" four_spans ≡ ok four_manifest
four_partitioned =
    (partition_curriculum_source-AreTiles hashes three_thousand access "g1" four_spans four_valid
      four-IsLight).1

partition_curriculum_source-IsReadable_example :
    All (IsReadable hashes "Course" four_spans) four_manifest.body.segments
partition_curriculum_source-IsReadable_example =
    partition_curriculum_source-IsReadable hashes three_thousand access "g1" four_spans
      four_partitioned
