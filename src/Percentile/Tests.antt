-- ===== src/Percentile/Tests.antt =====
-- stats/metric/percentile.go at concrete inputs: natural numbers for floats, a hundredth apart while a
-- rank is computed.
use mathlib.Core.List.{Permᴰ}
use rudder_go_kit.Prelude.{
  ℕ, suc, ◌+◌, ◌*◌, ◌/◌, ◌≡◌, refl, true, false, List, [], ◌∷◌, some, length, ltb, leb,
  if◌then◌else◌, arith,
}
use rudder_go_kit.Prelude.Int.{pos}
use rudder_go_kit.Prelude.Positions.{get_at, set_at}
use rudder_go_kit.Percentile.{
  Floats, make, new_percentile_tracker, observe, gather, answer, nearest_rank_percentile,
  percentile,
}
use rudder_go_kit.Percentile.Ring.{Slot, take, observe_all}
use rudder_go_kit.Percentile.Window.{recent_values, percentile_recent}

insert_sorted : ℕ → List ℕ → List ℕ
insert_sorted x [] = x ∷ []
insert_sorted x (y ∷ ys) = let rest = insert_sorted x ys in if leb x y then x ∷ y ∷ ys else y ∷ rest

insertion_sort : List ℕ → List ℕ
insertion_sort [] = []
insertion_sort (x ∷ xs) = insert_sorted x (insertion_sort xs)

abbrev numbers : Floats ℕ
numbers = record {
  float_less = ltb;
  is_nan = λ x. false;
  hundred = 100;
  divide = λ a b. a;
  multiply = λ a b. a * b;
  ceil = λ a. (a + 99) / 100;
  of_length = λ n. n;
  to_int = pos;
  sort = insertion_sort;
  float_zero = 0;
}

-- The last one first, for a tracker of three: the first is overwritten.
abbrev seen : List (Slot ℕ)
seen = (40, 5) ∷ (30, 9) ∷ (20, 7) ∷ (10, 1) ∷ []

program : Unit {0}
unfolding get_at set_at make new_percentile_tracker observe gather answer nearest_rank_percentile
    percentile take observe_all recent_values insert_sorted insertion_sort
program = tt

median : percentile numbers 50 (pos 100) 45 (observe_all numbers (pos 3) seen) ≡ some (7, true)
unfolding program
median = refl

smallest : percentile numbers 0 (pos 16) 45 (observe_all numbers (pos 3) seen) ≡ some (5, true)
unfolding program
smallest = refl

too_late : percentile numbers 50 (pos 5) 100 (observe_all numbers (pos 3) seen) ≡ some (0, false)
unfolding program
too_late = refl

length-insert_sorted : (x : ℕ) (xs : List ℕ) → length (insert_sorted x xs) ≡ suc (length xs)
unfolding insert_sorted
length-insert_sorted x [] = refl
length-insert_sorted x (y ∷ ys) = ground (arith, length-insert_sorted x ys)

length-insertion_sort : (xs : List ℕ) → length (insertion_sort xs) ≡ length xs
unfolding insertion_sort
length-insertion_sort [] = refl
length-insertion_sort (x ∷ xs) =
    omega (arith, length-insert_sorted x (insertion_sort xs), length-insertion_sort xs)

percentile_recent_example :
    (vs : List ℕ) × Permᴰ vs (5 ∷ 9 ∷ 7 ∷ [])
    × (percentile numbers 50 (pos 100) 45 (observe_all numbers (pos 3) seen) ≡ answer numbers vs 50)
unfolding program
percentile_recent_example = percentile_recent numbers (pos 3) seen 50 99 45
