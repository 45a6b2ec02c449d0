-- ===== src/Percentile.antt =====
-- stats/metric/percentile.go: the tracker of percentiles. Time is in nanoseconds, a `float64` is the
-- type `F`, and `sort`, `math` and the operations of `float64` are the parameter `Floats`.
pub mod Ring
pub mod Window
mod Tests
use rudder_go_kit.Prelude.{
  ℕ, zero, suc, ◌+◌, ◌-◌, Bool, true, false, not, ◌||◌, List, [], ◌∷◌, Option, none, some, ◌==◌,
  ltb, leb, length, if◌then◌else◌,
}
use rudder_go_kit.Prelude.Int.{ℤ, pos, negsuc}
use rudder_go_kit.Prelude.Positions.{get_at, set_at}

-- The comparison and the arithmetic of `float64`, `math.IsNaN`, `math.Ceil`, the conversions between
-- `int` and `float64`, and `sort.Float64s` with the list that it leaves.
pub record Floats (F : Type 0) : Type 0 where
  pub float_less : F → F → Bool
  pub is_nan : F → Bool
  pub hundred : F
  pub divide : F → F → F
  pub multiply : F → F → F
  pub ceil : F → F
  pub of_length : ℕ → F
  pub to_int : F → ℤ
  pub sort : List F → List F
  pub float_zero : F

-- `percentileTracker`, without its clock: each reading is an argument.
pub record Tracker (F : Type 0) : Type 0 where
  pub capacity : ℕ
  pub times : List ℕ
  pub values : List F
  pub next : ℕ
  pub size : ℕ

-- `make`, of a slice whose elements are all zero values.
unfoldable pub make : {A : Type 0} → A → ℕ → List A
make a zero = []
make a (suc n) = a ∷ make a n

-- The capacity that `NewPercentileTracker` takes.
abbrev pub capacity_of : ℤ → ℕ
capacity_of (pos zero) = 512
capacity_of (pos (suc n)) = suc n
capacity_of (negsuc n) = 512

-- The loop of `Percentile` over the first slots, whose stamps and values it reads; `window` is what
-- the stamps are compared by. Both slices have `capacity` elements, so no slot is missing.
unfoldable pub gather : {F : Type 0} → (ℕ → Bool) → ℕ → List ℕ → List F → List F
gather recent zero ts vs = []
gather recent (suc n) (t ∷ ts) (v ∷ vs) =
    let rest = gather recent n ts vs in if recent t then v ∷ rest else rest
gather recent (suc n) _ _ = []

-- `!t.Before(now.Add(-window))`
abbrev pub is_recent : ℕ → ℕ → ℕ → Bool
is_recent now window t = not (ltb (t + window) now)

-- `max(i - 1, 0)`
abbrev pub rank_of : ℤ → ℕ
rank_of (pos (suc i)) = i
rank_of _ = 0

-- `rank` once it is less than the length, which is not 0.
abbrev pub clamp : ℕ → ℕ → ℕ
clamp rank n = if leb n rank then n - 1 else rank

-- `Observe`, at the time `now`
unfoldable pub observe : {F : Type 0} → ℕ → F → Tracker F → Tracker F
observe now value t = record t {
  times = set_at t.next now t.times;
  values = set_at t.next value t.values;
  next = if suc t.next == t.capacity then 0 else suc t.next;
  size = if ltb t.size t.capacity then suc t.size else t.size;
}

-- A value with the flag that there is one.
abbrev pub flagged : {F : Type 0} → Option F → Option (F × Bool)
flagged none = none
flagged (some x) = some (x, true)

module _ {F : Type 0} (fl : Floats F) where
  -- `NewPercentileTracker`
  unfoldable pub new_percentile_tracker : ℤ → Tracker F
  new_percentile_tracker capacity = record {
    capacity = capacity_of capacity;
    times = make 0 (capacity_of capacity);
    values = make fl.float_zero (capacity_of capacity);
    next = 0;
    size = 0;
  }

  -- `nearestRankPercentile`; `none` is an index out of range.
  unfoldable pub nearest_rank_percentile : List F → F → Option F
  nearest_rank_percentile values p =
      let n = length values in
      let rank =
        rank_of (fl.to_int (fl.ceil (fl.multiply (fl.divide p fl.hundred) (fl.of_length n)))) in
      get_at (clamp rank n) (fl.sort values)

  abbrev pub is_invalid : F → Bool
  is_invalid p = fl.float_less p fl.float_zero || fl.float_less fl.hundred p || fl.is_nan p

  -- The value and the flag that `Percentile` returns for the values in the window; `none` is a panic.
  unfoldable pub answer : List F → F → Option (F × Bool)
  answer [] p = some (fl.float_zero, false)
  answer (v ∷ vs) p = flagged (nearest_rank_percentile (v ∷ vs) p)

  -- `Percentile`, at the time `now`
  unfoldable pub percentile : F → ℤ → ℕ → Tracker F → Option (F × Bool)
  percentile p (negsuc w) now t = some (fl.float_zero, false)
  percentile p (pos zero) now t = some (fl.float_zero, false)
  percentile p (pos (suc w)) now t =
      if is_invalid p
      then some (fl.float_zero, false)
      else answer (gather (is_recent now (suc w)) t.size t.times t.values) p
