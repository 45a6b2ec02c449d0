-- ===== src/Lcs/Tests.antt =====
-- lcs/lcs.go at concrete inputs.
use rudder_go_kit.Prelude.{
  ℕ, ◌≤◌, ◌≡◌, ◌≢◌, refl, List, [], ◌∷◌, length, if◌then◌else◌, ◌==◌, ℕ_discrete, arith,
}
use mathlib.Core.List.{Sublistᴰ}
use rudder_go_kit.Lcs.{cell, fill_row, fill, last, longest_common_subsequence, similarity}
use rudder_go_kit.Lcs.Optimal.{longest_common_subsequence_optimal}

text_discrete : Discrete (List ℕ)
text_discrete = hlevel ℕ_discrete

-- Every byte that is no space is a word.
fields : List ℕ → List (List ℕ)
fields [] = []
fields (b ∷ bs) = if b == b' ' then fields bs else (b ∷ []) ∷ fields bs

program : Unit {0}
unfolding cell fill_row fill last longest_common_subsequence similarity fields text_discrete
    ℕ_discrete
program = tt

abbrev first : List ℕ
first = 1 ∷ 2 ∷ 3 ∷ 2 ∷ 4 ∷ []

abbrev second : List ℕ
second = 2 ∷ 4 ∷ 3 ∷ 1 ∷ 2 ∷ 1 ∷ []

three : longest_common_subsequence ℕ_discrete first second ≡ 3
unfolding program
three = refl

longest_common_subsequence_optimal_example :
    ((zs : List ℕ) × Sublistᴰ zs first
      × Sublistᴰ zs second
      × (length zs ≡ longest_common_subsequence ℕ_discrete first second))
    × ((zs : List ℕ)
        → Sublistᴰ zs first
        → Sublistᴰ zs second
        → length zs ≤ longest_common_subsequence ℕ_discrete first second)
longest_common_subsequence_optimal_example =
    longest_common_subsequence_optimal ℕ_discrete first second

abbrev text_a : List ℕ
text_a = b'a' ∷ b' ' ∷ b'b' ∷ []

abbrev text_b : List ℕ
text_b = b'a' ∷ b' ' ∷ b'c' ∷ []

abbrev blank : List ℕ
blank = b' ' ∷ []

abbrev blanks : List ℕ
blanks = b' ' ∷ b' ' ∷ []

blank_differ : blank ≢ blanks
blank_differ e = ground arith
