-- ===== src/Partmap/Convert.antt =====
-- partmap/partitionmapping.go: the two mappings converted into one another.
use native.Mathlib.Nat.{mul-mod_left, mul-div_cancel, mod-eq_of_lt}
use mathlib.Core.List.{append-nil, append_assoc}
use rudder_go_kit.Prelude.{
  ℕ, ◌*◌, ◌/◌, ◌%◌, ◌≤◌, ◌<◌, ◌≡◌, refl, sym, ap, ◌∙◌, ◌↔◌, ◌≢◌, inl, inr, [], ◌∷◌, ◌++◌, map, All,
  All-map, ℕ_discrete, arith, Bool-cases, ◌==◌, ==_iff, if_pos, if_neg,
}
use rudder_go_kit.Prelude.Maps.{lookup, insert, Keyed, insert_absent, lookup-front}
use rudder_go_kit.Partmap.{
  u32, u16, Mapping, ok, window, index_entries, to_partition_index_mapping,
  to_partition_index_mapping_with, range_entries, to_partition_mapping_with,
}
use rudder_go_kit.Partmap.Index.{window-pos, start-lt}

-- The entries under the starts of their ranges.
shift : ℕ → Mapping → Mapping
shift w = map (λ e. (e.0 * w, e.1))

mul_cancel : (w i j : ℕ) → 0 < w → i * w ≡ j * w → i ≡ j
mul_cancel w i j pos e = sym (mul-div_cancel i pos) ∙ ap (λ x. x / w) e ∙ mul-div_cancel j pos

lookup-shift :
    (w i : ℕ) (es : Mapping)
    → 0 < w
    → lookup ℕ_discrete (i * w) (shift w es) ≡ lookup ℕ_discrete i es
unfolding shift lookup
lookup-shift w i [] pos = refl
lookup-shift w i ((j, v) ∷ es) pos = elim (ℕ_discrete j i) [
  | yes p ↦ rw (if_pos _ p, if_pos _ (ap (λ x. x * w) p))
  | no p ↦ rw (if_neg _ p, if_neg _ (λ e. p (mul_cancel w j i pos e))) (lookup-shift w i es pos)
]

Keyed-shift : (w : ℕ) (es : Mapping) → 0 < w → Keyed ℕ_discrete es → Keyed ℕ_discrete (shift w es)
unfolding shift
Keyed-shift w [] pos k = tt
Keyed-shift w ((i, v) ∷ es) pos k = (lookup-shift w i es pos ∙ k.0, Keyed-shift w es pos k.1)

range_entries-shift :
    (w : ℕ) (es acc : Mapping)
    → All (λ e. e.0 * w < u32) es
    → Keyed ℕ_discrete (acc ++ shift w es)
    → range_entries w es acc ≡ acc ++ shift w es
unfolding range_entries shift
range_entries-shift w [] acc small k = sym (append-nil acc)
range_entries-shift w ((i, v) ∷ es) acc small k =
    let same = append_assoc acc ((i * w, v) ∷ []) (shift w es) in
    rw
      (
        mod-eq_of_lt small.0,
        insert_absent ℕ_discrete (i * w) v acc (lookup-front ℕ_discrete (i * w) v acc _ k),
      )
      (range_entries-shift w es _ small.1 (rw same k) ∙ same)

index_entries-shift :
    (w : ℕ) (es acc : Mapping)
    → 0 < w
    → All (λ e. e.0 < u16) es
    → Keyed ℕ_discrete (acc ++ es)
    → index_entries w (shift w es) acc ≡ ok (acc ++ es)
unfolding index_entries shift
index_entries-shift w [] acc pos small k = ap ok (sym (append-nil acc))
index_entries-shift w ((i, v) ∷ es) acc pos small k =
    let same = append_assoc acc ((i, v) ∷ []) es in
    rw
      (
        mul-mod_left i w,
        mul-div_cancel i pos,
        mod-eq_of_lt small.0,
        insert_absent ℕ_discrete i v acc (lookup-front ℕ_discrete i v acc es k),
      )
      (index_entries-shift w es _ pos small.1 (rw same k) ∙ ap ok same)

partition_mapping-eq :
    (n : ℕ) (pim : Mapping)
    → 2 ≤ n
    → to_partition_mapping_with pim n ≡ ok (range_entries (window n) pim [])
unfolding to_partition_mapping_with
partition_mapping-eq n pim lo = ground arith

index_mapping-eq :
    (n : ℕ) (pm : Mapping)
    → 2 ≤ n
    → to_partition_index_mapping_with pm n ≡ index_entries (window n) pm []
unfolding to_partition_index_mapping_with
index_mapping-eq n pm lo = ground arith

index_entries_iff :
    (w : ℕ) (pm acc : Mapping)
    → ((r : Mapping) × (index_entries w pm acc ≡ ok r)) ↔ All (λ e. e.0 % w ≡ 0) pm
unfolding index_entries
index_entries_iff w [] acc = (λ r. tt, λ h. (acc, refl))
index_entries_iff w ((s, v) ∷ pm) acc =
    let ih = index_entries_iff w pm (insert ℕ_discrete (s / w % u16) v acc) in
    elim (Bool-cases (s % w == 0)) [
      | inl e ↦ (
        λ (r, h). ((==_iff _ _).0 e, ih.0 (r, rw e at h)),
        λ h. let (r, p) = ih.1 h.1 in (r, rw e p),
      )
      | inr e ↦ (λ (r, h). absurd (ground arith), λ h. absurd (ground arith))
    ]

-- From indices to ranges and back: for a number of partitions from 2 to 2^16, every mapping of distinct
-- indices below that number comes back entry for entry.
pub index_mapping-partition_mapping :
    (n : ℕ) (pim : Mapping)
    → 2 ≤ n
    → n ≤ u16
    → Keyed ℕ_discrete pim
    → All (λ e. e.0 < n) pim
    → (pm : Mapping) × (to_partition_mapping_with pim n ≡ ok pm)
      × (to_partition_index_mapping_with pm n ≡ ok pim)
index_mapping-partition_mapping n pim lo hi k below =
    let w = window n in
    let pos = window-pos n lo (omega arith) in
    let fits : All (λ e. e.0 * w < u32) pim =
      All-map _ _ pim (λ e h. start-lt n e.0 lo (omega arith) h) below in
    let small : All (λ e. e.0 < u16) pim = All-map _ _ pim (λ e h. omega arith) below in
    (
      shift w pim,
      partition_mapping-eq n pim lo
          ∙ ap ok (range_entries-shift w pim [] fits (Keyed-shift w pim pos k)),
      index_mapping-eq n (shift w pim) lo ∙ index_entries-shift w pim [] pos small k,
    )

-- The conversion to indices succeeds exactly when every start is a multiple of the window.
pub index_mapping_ok_iff :
    (n : ℕ) (pm : Mapping)
    → 2 ≤ n
    → ((r : Mapping) × (to_partition_index_mapping_with pm n ≡ ok r))
      ↔ All (λ e. e.0 % window n ≡ 0) pm
index_mapping_ok_iff n pm lo = rw (index_mapping-eq n pm lo) (index_entries_iff (window n) pm [])

-- A mapping with one range that does not start at 0 is converted without an error, to node 0 whatever
-- node it names.
single_range_lost :
    (start node : ℕ)
    → start ≢ 0
    → to_partition_index_mapping ((start, node) ∷ []) ≡ ok ((0, 0) ∷ [])
unfolding to_partition_index_mapping lookup
single_range_lost start node h = ground arith
