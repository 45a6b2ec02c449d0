-- ===== src/Lcs/Optimal.antt =====
-- lcs/lcs.go: the result is the length of a longest common subsequence.
use mathlib.Core.List.{append-nil, reverse, reverse-cons, reverse-reverse, Sublistᴰ}
use mathlib.Core.Path.{subst}
use rudder_go_kit.Prelude.{
  ◌+◌, ◌≤◌, ◌≡◌, refl, sym, ap, ◌∙◌, inl, inr, List, [], ◌∷◌, ◌++◌, leb, if_pos, if_neg, length,
  length-append, arith, Bool-cases,
}
use rudder_go_kit.Lcs.{cell, longest_common_subsequence}
use rudder_go_kit.Lcs.Reference.{reference, reference-nil, longest_common_subsequence-reference}

module _ {A : Type 0} (dec : Discrete A) where
  -- One more element on either side never lowers the value, nor raises it by more than one.
  record Bounds (xs ys : List A) : Type 0 where
    le-left : (x : A) → reference dec xs ys ≤ reference dec (x ∷ xs) ys
    le-right : (y : A) → reference dec xs ys ≤ reference dec xs (y ∷ ys)
    left-le : (x : A) → reference dec (x ∷ xs) ys ≤ reference dec xs ys + 1
    right-le : (y : A) → reference dec xs (y ∷ ys) ≤ reference dec xs ys + 1

  reference-Bounds : (xs ys : List A) → Bounds xs ys
  unfolding reference cell
  reference-Bounds [] [] = record {
    le-left = λ x. omega arith;
    le-right = λ y. omega arith;
    left-le = λ x. omega arith;
    right-le = λ y. omega arith;
  }
  reference-Bounds [] (y ∷ ys) =
      let b = reference-Bounds [] ys in
      record {
        le-left = λ x. omega arith;
        le-right = λ y'. omega arith;
        left-le = λ x. ground (arith, b.left-le x);
        right-le = λ y'. omega arith;
      }
  reference-Bounds (x ∷ xs) [] =
      let b = reference-Bounds xs [] in
      record {
        le-left = λ x'. omega arith;
        le-right = λ y. omega arith;
        left-le = λ x'. omega arith;
        right-le = λ y. ground (arith, b.right-le y, reference-nil dec xs);
      }
  reference-Bounds (x ∷ xs) (y ∷ ys) =
      let b = reference-Bounds (x ∷ xs) ys in
      let c = reference-Bounds xs (y ∷ ys) in
      record {
        le-left = λ x'. ground (arith, b.right-le y);
        le-right = λ y'. ground (arith, c.left-le x);
        left-le = λ x'. ground (arith, b.le-right y, b.left-le x');
        right-le = λ y'. ground (arith, c.le-left x, c.right-le y');
      }

  -- No common sublist is longer.
  upper : (xs ys zs : List A) → Sublistᴰ zs xs → Sublistᴰ zs ys → length zs ≤ reference dec xs ys
  unfolding reference cell
  upper xs ys [] s t = omega arith
  upper [] ys (z ∷ zs) s t = elim s [ ]
  upper (x ∷ xs) ys (z ∷ zs) (Sublistᴰ.cons s) t =
      omega (arith, upper xs ys (z ∷ zs) s t, (reference-Bounds xs ys).le-left x)
  upper (x ∷ xs) [] (z ∷ zs) (Sublistᴰ.cons-cons e s) t = elim t [ ]
  upper (x ∷ xs) (y ∷ ys) (z ∷ zs) (Sublistᴰ.cons-cons e s) (Sublistᴰ.cons t) = omega (
    arith,
    upper (x ∷ xs) ys (z ∷ zs) (Sublistᴰ.cons-cons e s) t,
    (reference-Bounds (x ∷ xs) ys).le-right y,
  )
  upper (x ∷ xs) (y ∷ ys) (z ∷ zs) (Sublistᴰ.cons-cons e s) (Sublistᴰ.cons-cons d t) =
      rw (if_pos (dec x y) (sym e ∙ d)) (omega (arith, upper xs ys zs s t))

  nil-Sublistᴰ : (xs : List A) → Sublistᴰ [] xs
  nil-Sublistᴰ [] = Sublistᴰ.slnil
  nil-Sublistᴰ (x ∷ xs) = Sublistᴰ.cons (nil-Sublistᴰ xs)

  -- A common sublist of that length.
  witness :
      (xs ys : List A)
      → (zs : List A) × Sublistᴰ zs xs × Sublistᴰ zs ys × (length zs ≡ reference dec xs ys)
  unfolding reference cell
  witness [] ys = ([], Sublistᴰ.slnil, nil-Sublistᴰ ys, refl)
  witness (x ∷ xs) [] = ([], nil-Sublistᴰ (x ∷ xs), Sublistᴰ.slnil, refl)
  witness (x ∷ xs) (y ∷ ys) = elim (dec x y) [
    | yes p ↦
        let (zs, s, t, e) = witness xs ys in
        (
          x ∷ zs,
          Sublistᴰ.cons-cons refl s,
          Sublistᴰ.cons-cons p t,
          rw (if_pos _ p) (omega (arith, e)),
        )
    | no p ↦ elim (Bool-cases (leb (reference dec (x ∷ xs) ys) (reference dec xs (y ∷ ys)))) [
      | inl h ↦
          let (zs, s, t, e) = witness xs (y ∷ ys) in (zs, Sublistᴰ.cons s, t, rw (if_neg _ p, h) e)
      | inr h ↦
          let (zs, s, t, e) = witness (x ∷ xs) ys in (zs, s, Sublistᴰ.cons t, rw (if_neg _ p, h) e)
    ]
  ]

  append-Sublistᴰ :
      {zs xs ws ys : List A} → Sublistᴰ zs xs → Sublistᴰ ws ys → Sublistᴰ (zs ++ ws) (xs ++ ys)
  append-Sublistᴰ Sublistᴰ.slnil t = t
  append-Sublistᴰ (Sublistᴰ.cons s) t = Sublistᴰ.cons (append-Sublistᴰ s t)
  append-Sublistᴰ (Sublistᴰ.cons-cons e s) t = Sublistᴰ.cons-cons e (append-Sublistᴰ s t)

  reverse-Sublistᴰ : {zs xs : List A} → Sublistᴰ zs xs → Sublistᴰ (reverse zs) (reverse xs)
  reverse-Sublistᴰ Sublistᴰ.slnil = Sublistᴰ.slnil
  reverse-Sublistᴰ {zs} (Sublistᴰ.cons {a = x} {l₂ = xs} s) = rw (reverse-cons x xs) (
      let r = append-Sublistᴰ (reverse-Sublistᴰ s) (Sublistᴰ.cons {a = x} Sublistᴰ.slnil) in
      rw append-nil at r)
  reverse-Sublistᴰ (Sublistᴰ.cons-cons {a = z} {b = x} {l₁ = zs} {l₂ = xs} e s) =
      rw (reverse-cons z zs, reverse-cons x xs)
        (append-Sublistᴰ (reverse-Sublistᴰ s) (Sublistᴰ.cons-cons e Sublistᴰ.slnil))

  unreverse : {zs : List A} (xs : List A) → Sublistᴰ zs (reverse (reverse xs)) → Sublistᴰ zs xs
  unreverse {zs} xs s = subst (λ l. Sublistᴰ zs l) (reverse-reverse xs) s

  length-reverse : (xs : List A) → length (reverse xs) ≡ length xs
  length-reverse [] = refl
  length-reverse (x ∷ xs) =
      ap length (reverse-cons x xs)
      ∙ omega (arith, length-append (reverse xs) (x ∷ []), length-reverse xs)

  -- The result is the length of a common subsequence of the two sequences, and no common subsequence
  -- is longer.
  pub longest_common_subsequence_optimal :
      (seq1 seq2 : List A)
      → ((zs : List A) × Sublistᴰ zs seq1
          × Sublistᴰ zs seq2
          × (length zs ≡ longest_common_subsequence dec seq1 seq2))
        × ((zs : List A)
            → Sublistᴰ zs seq1
            → Sublistᴰ zs seq2
            → length zs ≤ longest_common_subsequence dec seq1 seq2)
  longest_common_subsequence_optimal seq1 seq2 =
      let same = longest_common_subsequence-reference dec seq1 seq2 in
      let (zs, s, t, e) = witness (reverse seq1) (reverse seq2) in
      (
        (
          reverse zs,
          unreverse seq1 (reverse-Sublistᴰ s),
          unreverse seq2 (reverse-Sublistᴰ t),
          length-reverse zs ∙ e ∙ sym same,
        ),
        λ zs s t. rw same (
            omega (
              arith,
              length-reverse zs,
              upper (reverse seq1) (reverse seq2) (reverse zs) (reverse-Sublistᴰ s)
                  (reverse-Sublistᴰ t),
            )),
      )
