-- ===== src/Lcs/Similarity.antt =====
-- lcs/lcs.go: the range of `Similarity`, its symmetry, and texts without a word.
use mathlib.Core.List.{Sublistᴰ}
use rudder_go_kit.Prelude.{
  ℕ, ◌+◌, ◌*◌, ◌≤◌, ◌≡◌, ◌≢◌, refl, sym, ◌∙◌, List, [], ◌∷◌, if◌then◌else◌, if_pos, if_neg, length,
  arith,
}
use rudder_go_kit.Lcs.{longest_common_subsequence, similarity, Ratio, is_empty}
use rudder_go_kit.Lcs.Optimal.{longest_common_subsequence_optimal}

length-Sublistᴰ : {A : Type 0} {zs xs : List A} → Sublistᴰ zs xs → length zs ≤ length xs
length-Sublistᴰ Sublistᴰ.slnil = omega arith
length-Sublistᴰ (Sublistᴰ.cons s) = omega (arith, length-Sublistᴰ s)
length-Sublistᴰ (Sublistᴰ.cons-cons e s) = omega (arith, length-Sublistᴰ s)

module _ {A : Type 0} (dec : Discrete A) where
  longest_common_subsequence-le :
      (xs ys : List A)
      → (longest_common_subsequence dec xs ys ≤ length xs)
        × (longest_common_subsequence dec xs ys ≤ length ys)
  longest_common_subsequence-le xs ys =
      let (zs, s, t, e) = (longest_common_subsequence_optimal dec xs ys).0 in
      (omega (arith, e, length-Sublistᴰ s), omega (arith, e, length-Sublistᴰ t))

  swap-le :
      (xs ys : List A) → longest_common_subsequence dec xs ys ≤ longest_common_subsequence dec ys xs
  swap-le xs ys =
      let (zs, s, t, e) = (longest_common_subsequence_optimal dec xs ys).0 in
      omega (arith, e, (longest_common_subsequence_optimal dec ys xs).1 zs t s)

  longest_common_subsequence_comm :
      (xs ys : List A) → longest_common_subsequence dec xs ys ≡ longest_common_subsequence dec ys xs
  longest_common_subsequence_comm xs ys = omega (arith, swap-le xs ys, swap-le ys xs)

module _ (fields : List ℕ → List (List ℕ)) (text_eq : Discrete (List ℕ)) where
  ratio : List ℕ → List ℕ → Ratio
  ratio s t =
      if is_empty s
      then record { numerator = 0; denominator = 1 }
      else if is_empty t
      then record { numerator = 0; denominator = 1 }
      else record {
        numerator = 2 * longest_common_subsequence text_eq (fields s) (fields t);
        denominator = length (fields s) + length (fields t);
      }

  below : (s t : List ℕ) → (ratio s t).numerator ≤ (ratio s t).denominator
  unfolding ratio
  below [] t = omega arith
  below (a ∷ s) [] = omega arith
  below (a ∷ s) (b ∷ t) =
      omega (arith, longest_common_subsequence-le text_eq (fields (a ∷ s)) (fields (b ∷ t)))

  same : (s t : List ℕ) → ratio s t ≡ ratio t s
  unfolding ratio
  same [] [] = refl
  same [] (b ∷ t) = refl
  same (a ∷ s) [] = refl
  same (a ∷ s) (b ∷ t) =
      let comm = longest_common_subsequence_comm text_eq (fields (a ∷ s)) (fields (b ∷ t)) in
      ground (arith, comm)

  similarity_eq :
      (s t : List ℕ)
      → s ≡ t
      → similarity fields text_eq s t ≡ record { numerator = 1; denominator = 1 }
  unfolding similarity
  similarity_eq s t p = if_pos (text_eq s t) p _ _

  similarity_ne : (s t : List ℕ) → s ≢ t → similarity fields text_eq s t ≡ ratio s t
  unfolding similarity ratio
  similarity_ne s t p = if_neg (text_eq s t) p _ _

  -- The similarity is at most 1, and does not depend on the order of the texts.
  similarity_range :
      (s t : List ℕ)
      → ((similarity fields text_eq s t).numerator ≤ (similarity fields text_eq s t).denominator)
        × (similarity fields text_eq s t ≡ similarity fields text_eq t s)
  similarity_range s t = elim (text_eq s t) [
    | yes p ↦ (rw (similarity_eq s t p) (omega arith), rw p)
    | no p ↦ (
      rw (similarity_ne s t p) (below s t),
      similarity_ne s t p ∙ same s t ∙ sym (similarity_ne t s (λ e. p (sym e))),
    )
  ]

  -- Two different texts that are not empty but hold no word are compared as 0 / 0.
  similarity_blank :
      (a b : ℕ) (s t : List ℕ)
      → (a ∷ s) ≢ (b ∷ t)
      → fields (a ∷ s) ≡ []
      → fields (b ∷ t) ≡ []
      → similarity fields text_eq (a ∷ s) (b ∷ t) ≡ record { numerator = 0; denominator = 0 }
  unfolding similarity longest_common_subsequence
  similarity_blank a b s t differ blank_s blank_t = rw (if_neg _ differ, blank_s, blank_t)
