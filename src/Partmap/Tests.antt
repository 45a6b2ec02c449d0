-- ===== src/Partmap/Tests.antt =====
-- partmap/partitionmapping.go at concrete inputs.
use rudder_go_kit.Prelude.{ℕ, ◌≡◌, refl, List, [], ◌∷◌, none, some, ℕ_discrete, arith}
use rudder_go_kit.Prelude.Maps.{lookup, insert, Keyed}
use rudder_go_kit.Partmap.{
  Mapping, ok, write_u32, write_u16, read_u32, read_u16, write_entries, Gzip, marshal, read_entries,
  unmarshal, window, at_zero, index_entries, to_partition_index_mapping,
  to_partition_index_mapping_with, range_entries, to_partition_mapping_with, to_partition_mapping,
  to_partition_range_start, to_partition_index,
}
use rudder_go_kit.Partmap.Wire.{unmarshal-marshal}
use rudder_go_kit.Partmap.Convert.{index_mapping-partition_mapping}

program : Unit {0}
unfolding write_u32 write_u16 read_u32 read_u16 write_entries marshal read_entries unmarshal window
    at_zero index_entries to_partition_index_mapping to_partition_index_mapping_with range_entries
    to_partition_mapping_with to_partition_mapping to_partition_range_start to_partition_index
    lookup insert ℕ_discrete
program = tt

-- A gzip that stores its input behind one byte.
abbrev stored : Gzip
stored = record {
  compress = λ payload. some (31 ∷ payload);
  decompress = λ bytes. elim bytes [ [] ↦ none | b ∷ payload ↦ some payload ];
}

abbrev halves_indices : Mapping
halves_indices = (0, 0) ∷ (1, 1) ∷ []

halves_indices-Keyed : Keyed ℕ_discrete halves_indices
unfolding lookup ℕ_discrete
halves_indices-Keyed = (refl, (refl, tt))

stored_inverse :
    (payload compressed : List ℕ)
    → stored.compress payload ≡ some compressed
    → stored.decompress compressed ≡ some payload
stored_inverse payload [] e = absurd (ground arith)
stored_inverse payload (b ∷ compressed) e = ground arith

-- Four partitions on two nodes.
abbrev four : Mapping
four = (0, 0) ∷ (0x4000_0000, 1) ∷ (0x8000_0000, 0) ∷ (0xC000_0000, 1) ∷ []

abbrev four_indices : Mapping
four_indices = (0, 0) ∷ (1, 1) ∷ (2, 0) ∷ (3, 1) ∷ []

four_converted : to_partition_index_mapping four ≡ ok four_indices
unfolding program
four_converted = refl

three_starts :
    to_partition_mapping ((0, 0) ∷ (1, 1) ∷ (2, 0) ∷ [])
    ≡ ok ((0, 0) ∷ (0x5555_5555, 1) ∷ (0xAAAA_AAAA, 0) ∷ [])
unfolding program
three_starts = refl

abbrev two_bytes : List ℕ
two_bytes = 31 ∷ 0 ∷ 0 ∷ 0 ∷ 2 ∷ 0 ∷ 0 ∷ 0 ∷ 0 ∷ 0 ∷ 0 ∷ 128 ∷ 0 ∷ 0 ∷ 0 ∷ 0 ∷ 1 ∷ []

abbrev halves : Mapping
halves = (0, 0) ∷ (0x8000_0000, 1) ∷ []

halves-Keyed : Keyed ℕ_discrete halves
unfolding program
halves-Keyed = (refl, (refl, tt))

unmarshal-marshal_example : unmarshal stored two_bytes [] ≡ (halves, none)
unfolding program
unmarshal-marshal_example =
    unmarshal-marshal stored halves [] stored_inverse (omega arith) halves-Keyed (omega arith) refl

index_mapping-partition_mapping_example :
    (pm : Mapping) × (to_partition_mapping_with halves_indices 2 ≡ ok pm)
    × (to_partition_index_mapping_with pm 2 ≡ ok halves_indices)
index_mapping-partition_mapping_example =
    index_mapping-partition_mapping 2 halves_indices (omega arith) (omega arith)
      halves_indices-Keyed (omega arith)
