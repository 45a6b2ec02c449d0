-- ===== src/Partmap/Index.antt =====
-- partmap/partitionmapping.go: partition indices against the starts of their ranges.
use native.Mathlib.Nat.{
  mul-div-le, mul-le-mul_right, div-lt_self, div-eq_of_lt-le, div-add-mod, lt-mul-div-succ,
  mul-div_cancel, le-div_iff_mul-le, div-lt_iff_lt-mul, mod-eq_of_lt,
}
use rudder_go_kit.Prelude.{ℕ, ◌+◌, ◌*◌, ◌/◌, ◌%◌, ◌≤◌, ◌<◌, ◌≡◌, refl, ap, ◌∙◌, ℕ_discrete, arith}
use rudder_go_kit.Partmap.{
  u32, u16, ok, err, out_of_range, window, to_partition_range_start, to_partition_index,
}

-- The window of two or more partitions: the division of the source, not 0 while there are no more
-- partitions than there are numbers, and all windows fit into the 32-bit space.
window-eq-div : (n : ℕ) → 2 ≤ n → window n ≡ u32 / n
unfolding window
window-eq-div n lo = mod-eq_of_lt (div-lt_self {n = u32} {k = n} (omega arith) lo)

pub window-pos : (n : ℕ) → 2 ≤ n → n ≤ u32 → 0 < window n
window-pos n lo hi =
    rw (window-eq-div n lo)
      ((le-div_iff_mul-le {k = n} {x = 1} {y = u32} (omega arith)).1 (omega arith))

mul-window-le : (n : ℕ) → 2 ≤ n → n * window n ≤ u32
mul-window-le n lo = rw (window-eq-div n lo) (mul-div-le u32 n)

pub start-lt : (n i : ℕ) → 2 ≤ n → n ≤ u32 → i < n → i * window n < u32
start-lt n i lo hi h =
    let w = window-pos n lo hi in
    let below = mul-le-mul_right {m = i + 1} {n = n} (window n) (omega arith) in
    omega (arith, mul-window-le n lo, below)

-- The tail behind the windows is shorter than a window.
window_wide : (n : ℕ) → 2 ≤ n → n < u16 → u32 < n * window n + window n
window_wide n lo hi =
    let wide = (le-div_iff_mul-le {k = n} {x = u16} {y = u32} (omega arith)).1 (omega arith) in
    rw (window-eq-div n lo) (omega (arith, lt-mul-div-succ u32 {b = n} (omega arith), wide))

start-div : (n i : ℕ) → 2 ≤ n → n ≤ u32 → i * window n / window n ≡ i
start-div n i lo hi = mul-div_cancel i (window-pos n lo hi)

range_start-eq :
    (n i : ℕ) → 2 ≤ n → n < u16 → i < n → to_partition_range_start i n ≡ ok (i * window n)
unfolding to_partition_range_start
range_start-eq n i lo hi h =
    let fits = mod-eq_of_lt (start-lt n i lo (omega arith) h) in ground (arith, fits)

index-eq : (n start : ℕ) → 2 ≤ n → to_partition_index start n ≡ ok (start / window n % u16)
unfolding to_partition_index
index-eq n start lo = ground arith

-- The start of a partition's range leads back to its index, for every number of partitions that a
-- `PartitionIndex` can hold.
pub to_partition_index-range_start :
    (n i : ℕ)
    → 0 < n
    → n < u16
    → i < n
    → (start : ℕ) × (to_partition_range_start i n ≡ ok start) × (to_partition_index start n ≡ ok i)
unfolding to_partition_range_start to_partition_index
to_partition_index-range_start n i pos hi h = elim (ℕ_discrete n 1) [
  | yes one ↦ rw one (0, refl, ap ok (omega arith))
  | no more ↦
      let lo : 2 ≤ n = omega arith in
      let index : i * window n / window n % u16 ≡ i =
        ap (λ x. x % u16) (start-div n i lo (omega arith)) ∙ mod-eq_of_lt (omega arith) in
      (i * window n, range_start-eq n i lo hi h, index-eq n _ lo ∙ ap ok index)
]

-- With a multiple of 2^16 for the number of partitions no index is accepted: the bound is taken as a
-- `uint16`, and so is 0.
range_start_rejects :
    (n i : ℕ) → 0 < n → n % u16 ≡ 0 → to_partition_range_start i n ≡ err out_of_range
unfolding to_partition_range_start
range_start_rejects n i pos h = ground arith

-- A start in the tail that the windows leave at the end of the 32-bit space, which is there whenever
-- the number of partitions does not divide 2^32, gets the number of partitions for an index.
index_of_tail :
    (n start : ℕ)
    → 2 ≤ n
    → n < u16
    → n * window n ≤ start
    → start < u32
    → to_partition_index start n ≡ ok n
index_of_tail n start lo hi tail h =
    let below : start < (n + 1) * window n = omega (arith, window_wide n lo hi) in
    let index = div-eq_of_lt-le {k = n} (window n) {m = start} tail below in
    index-eq n start lo ∙ ap ok (ap (λ x. x % u16) index ∙ mod-eq_of_lt hi)

-- If the number of partitions divides 2^32 every start gets an index below it.
index_bound :
    (n start : ℕ)
    → 2 ≤ n
    → n ≤ u16
    → u32 % n ≡ 0
    → start < u32
    → (i : ℕ) × (to_partition_index start n ≡ ok i) × (i < n)
index_bound n start lo hi divides h =
    let all : n * window n ≡ u32 = rw (window-eq-div n lo) (omega (arith, div-add-mod u32 n)) in
    let small : start / window n < n =
      (div-lt_iff_lt-mul {k = window n} (window-pos n lo (omega arith))).1 (omega (arith, all)) in
    (start / window n, index-eq n start lo ∙ ap ok (mod-eq_of_lt (omega arith)), small)
