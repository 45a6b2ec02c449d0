-- ===== src/Partmap.antt =====
-- partmap/partitionmapping.go: the map from partitions to nodes, its wire format, and the two ways
-- to name a partition. A Go map is the list of its entries in the order of its `range`.
pub mod Wire
pub mod Index
pub mod Convert
mod Tests
use rudder_go_kit.Prelude.{
  ℕ, zero, suc, ◌+◌, ◌*◌, ◌/◌, ◌%◌, ◌^◌, List, [], ◌∷◌, ◌++◌, Option, none, some, if◌then◌else◌,
  ◌==◌, ltb, length, ℕ_discrete,
}
use rudder_go_kit.Prelude.Maps.{lookup, insert}

abbrev pub u32 : ℕ
u32 = 2 ^ 32

abbrev pub u16 : ℕ
u16 = 2 ^ 16

-- `PartitionMapping` and `PartitionIndexMapping`.
abbrev pub Mapping : Type 0
Mapping = List (ℕ × ℕ)

pub data Error : Type 0 where
  creating_reader reading_length reading_int reading_short : Error
  no_partitions not_single not_aligned out_of_range : Error

pub data Result (A : Type 0) : Type 0 where
  ok : A → Result A
  err : Error → Result A

-- `binary.Write` and `binary.Read` of a `uint32` and a `uint16`, `binary.BigEndian`.
unfoldable pub write_u32 : ℕ → List ℕ
write_u32 x = x / 2 ^ 24 % 256 ∷ x / 2 ^ 16 % 256 ∷ x / 2 ^ 8 % 256 ∷ x % 256 ∷ []

unfoldable pub write_u16 : ℕ → List ℕ
write_u16 x = x / 2 ^ 8 % 256 ∷ x % 256 ∷ []

unfoldable pub read_u32 : List ℕ → Option (ℕ × List ℕ)
read_u32 (a ∷ b ∷ c ∷ d ∷ rest) = some (a * 2 ^ 24 + b * 2 ^ 16 + c * 2 ^ 8 + d, rest)
read_u32 _ = none

unfoldable pub read_u16 : List ℕ → Option (ℕ × List ℕ)
read_u16 (a ∷ b ∷ rest) = some (a * 2 ^ 8 + b, rest)
read_u16 _ = none

-- The loop of `Marshal`.
unfoldable pub write_entries : Mapping → List ℕ
unfolding write_u32 write_u16
write_entries [] = []
write_entries ((partition, node) ∷ pm) = write_u32 partition ++ (write_u16 node ++ write_entries pm)

-- The package compress/gzip: the bytes that a writer gives at its `Close` (`none`: an error), and
-- those that a reader yields before its end or its error (`none`: no reader).
pub record Gzip : Type 0 where
  pub compress : List ℕ → Option (List ℕ)
  pub decompress : List ℕ → Option (List ℕ)

unfoldable pub marshal : Gzip → Mapping → Option (List ℕ)
unfolding write_u32 write_entries
marshal gzip pm = gzip.compress (write_u32 (length pm % u32) ++ write_entries pm)

-- The loop of `Unmarshal`: the map so far, and the error that stops it.
unfoldable pub read_entries : ℕ → List ℕ → Mapping → Mapping × Option Error
unfolding read_u32 read_u16
read_entries zero bytes pm = (pm, none)
read_entries (suc n) bytes pm = elim (read_u32 bytes) [
  | none ↦ (pm, some reading_int)
  | some (partition, bytes') ↦ elim (read_u16 bytes') [
    | none ↦ (pm, some reading_short)
    | some (node, rest) ↦ read_entries n rest (insert ℕ_discrete partition node pm)
  ]
]

-- The receiver is left as it was only if the error comes before the length is read.
unfoldable pub unmarshal : Gzip → List ℕ → Mapping → Mapping × Option Error
unfolding read_u32 read_entries
unmarshal gzip bytes pm = elim (gzip.decompress bytes) [
  | none ↦ (pm, some creating_reader)
  | some payload ↦ elim (read_u32 payload) [
    | none ↦ (pm, some reading_length)
    | some (n, rest) ↦ read_entries n rest []
  ]
]

-- `uint32((1 << 32) / int(numPartitions))`
unfoldable pub window : ℕ → ℕ
window n = u32 / n % u32

-- `m[0]`, the zero value if it is missing.
unfoldable pub at_zero : Mapping → ℕ
at_zero m = elim (lookup ℕ_discrete 0 m) [ none ↦ 0 | some node ↦ node ]

unfoldable pub index_entries : ℕ → Mapping → Mapping → Result Mapping
index_entries w [] result = ok result
index_entries w ((start, node) ∷ pm) result =
    let rest = index_entries w pm (insert ℕ_discrete (start / w % u16) node result) in
    if start % w == 0 then rest else err not_aligned

unfoldable pub to_partition_index_mapping_with : Mapping → ℕ → Result Mapping
unfolding at_zero index_entries
to_partition_index_mapping_with pm n =
    if n == 0
    then err no_partitions
    else if n == 1
    then (if length pm == 1 then ok ((0, at_zero pm) ∷ []) else err not_single)
    else index_entries (window n) pm []

unfoldable pub to_partition_index_mapping : Mapping → Result Mapping
unfolding to_partition_index_mapping_with
to_partition_index_mapping pm = to_partition_index_mapping_with pm (length pm % u32)

unfoldable pub range_entries : ℕ → Mapping → Mapping → Mapping
range_entries w [] result = result
range_entries w ((index, node) ∷ pim) result =
    range_entries w pim (insert ℕ_discrete (index * w % u32) node result)

unfoldable pub to_partition_mapping_with : Mapping → ℕ → Result Mapping
unfolding at_zero range_entries
to_partition_mapping_with pim n =
    if n == 0
    then err no_partitions
    else if n == 1
    then (if length pim == 1 then ok ((0, at_zero pim) ∷ []) else err not_single)
    else ok (range_entries (window n) pim [])

unfoldable pub to_partition_mapping : Mapping → Result Mapping
unfolding to_partition_mapping_with
to_partition_mapping pim = to_partition_mapping_with pim (length pim % u32)

-- `PartitionIndex.ToPartitionRangeStart`
unfoldable pub to_partition_range_start : ℕ → ℕ → Result ℕ
to_partition_range_start index n =
    if n == 0
    then err no_partitions
    else if n == 1
    then ok 0
    else if ltb index (n % u16)
    then ok (index * window n % u32)
    else err out_of_range

-- `PartitionRangeStart.ToPartitionIndex`
unfoldable pub to_partition_index : ℕ → ℕ → Result ℕ
to_partition_index start n =
    if n == 0 then err no_partitions else if n == 1 then ok 0 else ok (start / window n % u16)
