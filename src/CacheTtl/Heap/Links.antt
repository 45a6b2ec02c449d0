-- ===== src/CacheTtl/Heap/Links.antt =====
-- cachettl/cachettl.go: chains of nodes that point at each other.
use rudder_go_kit.Prelude.{ℕ, ◌≡◌, ◌≢◌, sym, ◌∙◌, List, [], ◌∷◌, ◌++◌, Option, some, arith}
use rudder_go_kit.CacheTtl.Heap.{write}

-- The address is not in the list.
abbrev pub Absent : ℕ → List ℕ → Type 0
Absent a [] = Unit
Absent a (x ∷ xs) = (a ≢ x) × Absent a xs

abbrev pub Distinct : List ℕ → Type 0
Distinct [] = Unit
Distinct (x ∷ xs) = Absent x xs × Distinct xs

pub write_self : {A : Type 0} (f : ℕ → A) (a : ℕ) (v : A) → write f a v a ≡ v
unfolding write
write_self f a v = ground arith

pub write_ne : {A : Type 0} (f : ℕ → A) (a b : ℕ) (v : A) → a ≢ b → write f a v b ≡ f b
unfolding write
write_ne f a b v n = ground arith

-- The last address of a chain before its end.
abbrev pub last_of : ℕ → List ℕ → ℕ
last_of p [] = p
last_of p (x ∷ xs) = last_of x xs

-- The addresses of `xs` follow `p` one after the other by `next` up to `q`, and `prev` leads back.
abbrev pub Chain : (ℕ → Option ℕ) → (ℕ → Option ℕ) → ℕ → List ℕ → ℕ → Type 0
Chain next prev p [] q = (next p ≡ some q) × (prev q ≡ some p)
Chain next prev p (x ∷ xs) q = (next p ≡ some x) × (prev x ≡ some p) × Chain next prev x xs q

-- The first address of a chain that ends in `q`.
abbrev pub first_of : List ℕ → ℕ → ℕ
first_of [] q = q
first_of (y ∷ ys) q = y

pub Absent-last_of : (a p : ℕ) (xs : List ℕ) → Absent a (p ∷ xs) → last_of p xs ≢ a
Absent-last_of a p [] n = λ e. n.0 (sym e)
Absent-last_of a p (x ∷ xs) n = Absent-last_of a x xs n.1

Absent-first_of : (a : ℕ) (xs ys : List ℕ) (q : ℕ) → Absent a (xs ++ ys) → a ≢ q → first_of ys q ≢ a
Absent-first_of a [] [] q n m = λ e. m (sym e)
Absent-first_of a [] (y ∷ ys) q n m = λ e. n.0 (sym e)
Absent-first_of a (x ∷ xs) ys q n m = Absent-first_of a xs ys q n.1 m

Absent-prefix : (a : ℕ) (xs ys : List ℕ) → Absent a (xs ++ ys) → Absent a xs
Absent-prefix a [] ys n = tt
Absent-prefix a (x ∷ xs) ys n = (n.0, Absent-prefix a xs ys n.1)

pub Absent-without :
    (a : ℕ) (xs : List ℕ) (y : ℕ) (ys : List ℕ) → Absent a (xs ++ y ∷ ys) → Absent a (xs ++ ys)
Absent-without a [] y ys n = n.1
Absent-without a (x ∷ xs) y ys n = (n.0, Absent-without a xs y ys n.1)

module _ (next prev : ℕ → Option ℕ) where
  -- A write to `next` at an address that the chain does not go on from.
  Chain-write_next :
      (a : ℕ) (v : Option ℕ) (p : ℕ) (xs : List ℕ) (q : ℕ)
      → Absent a (p ∷ xs)
      → Chain next prev p xs q
      → Chain (write next a v) prev p xs q
  Chain-write_next a v p [] q n c = (write_ne next a p v n.0 ∙ c.0, c.1)
  Chain-write_next a v p (x ∷ xs) q n c =
      (write_ne next a p v n.0 ∙ c.0, c.1, Chain-write_next a v x xs q n.1 c.2)

  -- A write to `prev` at an address that the chain does not come to.
  Chain-write_prev :
      (a : ℕ) (v : Option ℕ) (p : ℕ) (xs : List ℕ) (q : ℕ)
      → Absent a xs
      → a ≢ q
      → Chain next prev p xs q
      → Chain next (write prev a v) p xs q
  Chain-write_prev a v p [] q n m c = (c.0, write_ne prev a q v m ∙ c.1)
  Chain-write_prev a v p (x ∷ xs) q n m c =
      (c.0, write_ne prev a x v n.0 ∙ c.1, Chain-write_prev a v x xs q n.1 m c.2)

  pub Chain-next :
      (p : ℕ) (xs ys : List ℕ) (q : ℕ)
      → Chain next prev p (xs ++ ys) q
      → next (last_of p xs) ≡ some (first_of ys q)
  Chain-next p [] [] q c = c.0
  Chain-next p [] (y ∷ ys) q c = c.0
  Chain-next p (x ∷ xs) ys q c = Chain-next x xs ys q c.2

  pub Chain-end :
      (p : ℕ) (xs : List ℕ) (q : ℕ) → Chain next prev p xs q → prev q ≡ some (last_of p xs)
  Chain-end p [] q c = c.1
  Chain-end p (x ∷ xs) q c = Chain-end x xs q c.2

  -- The two pointers of an address in a chain.
  pub Chain-neighbours :
      (p : ℕ) (xs : List ℕ) (a : ℕ) (ys : List ℕ) (q : ℕ)
      → Chain next prev p (xs ++ a ∷ ys) q
      → (prev a ≡ some (last_of p xs)) × (next a ≡ some (first_of ys q))
  Chain-neighbours p [] a ys q c = (c.1, Chain-next a [] ys q c.2)
  Chain-neighbours p (x ∷ xs) a ys q c = Chain-neighbours x xs a ys q c.2

-- The two writes of `remove` take an address out of a chain.
module _ (next prev : ℕ → Option ℕ) where
  pub Chain-remove :
      (p : ℕ) (xs : List ℕ) (a : ℕ) (ys : List ℕ) (q : ℕ)
      → Distinct (p ∷ xs ++ a ∷ ys)
      → Absent q (xs ++ a ∷ ys)
      → Chain next prev p (xs ++ a ∷ ys) q
      → Chain
          (write next (last_of p xs) (some (first_of ys q)))
          (write prev (first_of ys q) (some (last_of p xs)))
          p
          (xs ++ ys)
          q
  Chain-remove p [] a [] q d n c = (write_self next p (some q), write_self prev q (some p))
  Chain-remove p [] a (y ∷ ys) q d n c = (
    write_self next p (some y),
    write_self prev y (some p),
    Chain-write_next next (write prev y (some p)) p (some y) y ys q d.0.1
        (Chain-write_prev next prev y (some p) y ys q d.1.1.0 (λ e. n.1.0 (sym e)) c.2.2),
  )
  Chain-remove p (x ∷ xs) a ys q d n c = (
    write_ne next (last_of x xs) p _ (Absent-last_of p x xs (Absent-prefix p (x ∷ xs) (a ∷ ys) d.0))
        ∙ c.0,
    write_ne prev (first_of ys q) x _
          (Absent-first_of x xs ys q (Absent-without x xs a ys d.1.0) (λ e. n.0 (sym e)))
        ∙ c.1,
    Chain-remove x xs a ys q d.1 n.1 c.2,
  )

-- The four writes of `add` put an address into a chain.
module _ (next prev : ℕ → Option ℕ) (a : ℕ) where
  pub Chain-insert :
      (p : ℕ) (xs ys : List ℕ) (q : ℕ)
      → Distinct (p ∷ xs ++ ys)
      → Absent q (xs ++ ys)
      → Absent a (p ∷ xs ++ ys)
      → a ≢ q
      → Chain next prev p (xs ++ ys) q
      → Chain
          (write (write next (last_of p xs) (some a)) a (some (first_of ys q)))
          (write (write prev a (some (last_of p xs))) (first_of ys q) (some a))
          p
          (xs ++ a ∷ ys)
          q
  Chain-insert p [] [] q d n m k c = (
    write_ne (write next p (some a)) a p (some q) m.0 ∙ write_self next p (some a),
    write_ne (write prev a (some p)) q a (some a) (λ e. k (sym e)) ∙ write_self prev a (some p),
    (write_self (write next p (some a)) a (some q), write_self (write prev a (some p)) q (some a)),
  )
  Chain-insert p [] (y ∷ ys) q d n m k c =
      let next' = write next p (some a) in
      let prev' = write prev a (some p) in
      (
        write_ne next' a p (some y) m.0 ∙ write_self next p (some a),
        write_ne prev' y a (some a) (λ e. m.1.0 (sym e)) ∙ write_self prev a (some p),
        (
          write_self next' a (some y),
          write_self prev' y (some a),
          Chain-write_next next' (write prev' y (some a)) a (some y) y ys q m.1 (
              Chain-write_next next (write prev' y (some a)) p (some a) y ys q d.0 (
                Chain-write_prev next prev' y (some a) y ys q d.1.0 (λ e. n.0 (sym e))
                  (Chain-write_prev next prev a (some p) y ys q m.1.1 k c.2))),
        ),
      )
  Chain-insert p (x ∷ xs) ys q d n m k c = (
    write_ne _ a p _ m.0
        ∙ write_ne next (last_of x xs) p _ (Absent-last_of p x xs (Absent-prefix p (x ∷ xs) ys d.0))
        ∙ c.0,
    write_ne _ (first_of ys q) x _ (Absent-first_of x xs ys q d.1.0 (λ e. n.0 (sym e)))
        ∙ write_ne prev a x _ m.1.0
        ∙ c.1,
    Chain-insert x xs ys q d.1 n.1 m.1 k c.2,
  )
