-- ===== src/Lcs/Reference.antt =====
-- lcs/lcs.go: the table against the recursion that it tabulates, over the reversed sequences.
use mathlib.Core.List.{reverse, reverse-cons, append_assoc, append-nil}
use rudder_go_kit.Prelude.{ℕ, ◌≡◌, refl, sym, ap, ◌∙◌, List, [], ◌∷◌, ◌++◌, length}
use rudder_go_kit.Lcs.{cell, fill_row, fill, zeros, last, longest_common_subsequence}

module _ {A : Type 0} (dec : Discrete A) where
  unfoldable pub reference : List A → List A → ℕ
  reference [] ys = 0
  reference (x ∷ xs) [] = 0
  reference (x ∷ xs) (y ∷ ys) =
      cell dec x y (reference xs ys) (reference xs (y ∷ ys)) (reference (x ∷ xs) ys)

  pub reference-nil : (xs : List A) → reference xs [] ≡ 0
  unfolding reference
  reference-nil [] = refl
  reference-nil (x ∷ xs) = refl

  reference-empty : (ys : List A) → reference [] ys ≡ 0
  unfolding reference
  reference-empty ys = refl

  -- The entries of a row: the values at the reversed prefix `p` of one sequence and at the prefixes of
  -- the other, which has `ys` left behind the reversed prefix `q`.
  entries : List A → List A → List A → List ℕ
  entries p q [] = []
  entries p q (y ∷ ys) = reference p (y ∷ q) ∷ entries p (y ∷ q) ys

  fill_row-entries :
      (x : A) (p q ys : List A)
      → fill_row dec x ys (reference p q ∷ entries p q ys) (reference (x ∷ p) q)
        ≡ entries (x ∷ p) q ys
  unfolding fill_row entries reference
  fill_row-entries x p q [] = refl
  fill_row-entries x p q (y ∷ ys) =
      ap (◌∷◌ (reference (x ∷ p) (y ∷ q))) (fill_row-entries x p (y ∷ q) ys)

  fill_row-first :
      (x : A) (p ys : List A) → fill_row dec x ys (0 ∷ entries p [] ys) 0 ≡ entries (x ∷ p) [] ys
  unfolding reference
  fill_row-first x [] ys = fill_row-entries x [] [] ys
  fill_row-first x (a ∷ p) ys = fill_row-entries x (a ∷ p) [] ys

  entries-zeros : (q ys : List A) → entries [] q ys ≡ zeros (length ys)
  unfolding entries reference
  entries-zeros q [] = refl
  entries-zeros q (y ∷ ys) = ap (◌∷◌ 0) (entries-zeros (y ∷ q) ys)

  fill-entries :
      (xs p ys : List A)
      → fill dec xs ys (0 ∷ entries p [] ys) ≡ 0 ∷ entries (reverse xs ++ p) [] ys
  unfolding fill
  fill-entries [] p ys = refl
  fill-entries (x ∷ xs) p ys =
      let same : reverse (x ∷ xs) ++ p ≡ reverse xs ++ (x ∷ p) =
        ap (λ l. l ++ p) (reverse-cons x xs) ∙ append_assoc (reverse xs) (x ∷ []) p in
      ap (λ l. fill dec xs ys (0 ∷ l)) (fill_row-first x p ys)
      ∙ fill-entries xs (x ∷ p) ys
      ∙ ap (λ l. 0 ∷ entries l [] ys) (sym same)

  last-entries :
      (p q ys : List A) (v : ℕ)
      → v ≡ reference p q
      → last (v ∷ entries p q ys) ≡ reference p (reverse ys ++ q)
  unfolding last entries
  last-entries p q [] v e = e
  last-entries p q (y ∷ ys) v e =
      last-entries p (y ∷ q) ys (reference p (y ∷ q)) refl
      ∙ ap (reference p)
          (sym (append_assoc (reverse ys) (y ∷ []) q) ∙ ap (λ l. l ++ q) (sym (reverse-cons y ys)))

  -- The program computes the recursion on the reversed sequences.
  pub longest_common_subsequence-reference :
      (seq1 seq2 : List A)
      → longest_common_subsequence dec seq1 seq2 ≡ reference (reverse seq1) (reverse seq2)
  unfolding longest_common_subsequence
  longest_common_subsequence-reference [] seq2 = sym (reference-empty (reverse seq2))
  longest_common_subsequence-reference (x ∷ seq1) [] = sym (reference-nil (reverse (x ∷ seq1)))
  longest_common_subsequence-reference (x ∷ seq1) (y ∷ seq2) =
      let xs = x ∷ seq1 in
      let ys = y ∷ seq2 in
      ap (λ l. last (fill dec xs ys (0 ∷ l))) (sym (entries-zeros [] ys))
      ∙ ap last (fill-entries xs [] ys)
      ∙ last-entries (reverse xs ++ []) [] ys 0 (sym (reference-nil (reverse xs ++ [])))
      ∙ rw (append-nil, append-nil)
