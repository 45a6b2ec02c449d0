-- ===== src/Lcs.antt =====
-- lcs/lcs.go: the length of a longest common subsequence by dynamic programming, and the similarity
-- of two texts. The rows of `dp` are lists, each made from the one above it, as in the two loops.
pub mod Reference
pub mod Optimal
pub mod Similarity
mod Tests
use rudder_go_kit.Prelude.{
  ℕ, zero, suc, ◌+◌, ◌*◌, Bool, true, false, List, [], ◌∷◌, Option, none, some, if◌then◌else◌, ◌==◌,
  leb, ite, length,
}

module _ {A : Type 0} (dec : Discrete A) where
  -- `dp[i][j]` from `dp[i-1][j-1]`, `dp[i-1][j]` and `dp[i][j-1]`.
  unfoldable pub cell : A → A → ℕ → ℕ → ℕ → ℕ
  cell x y diagonal above left =
      ite (dec x y) (diagonal + 1) (if leb left above then above else left)

  -- The inner loop over `seq2` from the entries `dp[i-1][j-1] ∷ dp[i-1][j] ∷ …` of the row above and
  -- the entry `left` on the left: the rest of the row.
  unfoldable pub fill_row : A → List A → List ℕ → ℕ → List ℕ
  fill_row x (y ∷ ys) (diagonal ∷ above ∷ row) left =
      let value = cell x y diagonal above left in value ∷ fill_row x ys (above ∷ row) value
  fill_row x _ _ left = []

  -- The outer loop over `seq1`: the last row. Each row begins with its 0.
  unfoldable pub fill : List A → List A → List ℕ → List ℕ
  fill [] ys row = row
  fill (x ∷ xs) ys row = fill xs ys (0 ∷ fill_row x ys row 0)

abbrev pub zeros : ℕ → List ℕ
zeros zero = []
zeros (suc n) = 0 ∷ zeros n

-- `dp[m][n]`: the last entry of a row.
unfoldable pub last : List ℕ → ℕ
last [] = 0
last (v ∷ []) = v
last (v ∷ w ∷ vs) = last (w ∷ vs)

module _ {A : Type 0} (dec : Discrete A) where
  unfoldable pub longest_common_subsequence : List A → List A → ℕ
  longest_common_subsequence [] seq2 = 0
  longest_common_subsequence (x ∷ seq1) [] = 0
  longest_common_subsequence (x ∷ seq1) (y ∷ seq2) =
      last (fill dec (x ∷ seq1) (y ∷ seq2) (zeros (suc (length (y ∷ seq2)))))

-- The quotient of two numbers, for the `float64` that the source makes of it.
pub record Ratio : Type 0 where
  pub numerator : ℕ
  pub denominator : ℕ

abbrev pub is_empty : List ℕ → Bool
is_empty [] = true
is_empty (b ∷ bs) = false

-- Texts are lists of bytes; `fields` is `strings.Fields`.
module _ (fields : List ℕ → List (List ℕ)) (text_eq : Discrete (List ℕ)) where
  unfoldable pub similarity : List ℕ → List ℕ → Ratio
  similarity str1 str2 =
      ite (text_eq str1 str2) (record { numerator = 1; denominator = 1 })
        (if is_empty str1
          then record { numerator = 0; denominator = 1 }
          else if is_empty str2
          then record { numerator = 0; denominator = 1 }
          else record {
            numerator = 2 * longest_common_subsequence text_eq (fields str1) (fields str2);
            denominator = length (fields str1) + length (fields str2);
          })
