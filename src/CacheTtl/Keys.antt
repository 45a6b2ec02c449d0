-- ===== src/CacheTtl/Keys.antt =====
-- cachettl/cachettl.go: the nodes of the ring by their keys, and the keys of the map.
use rudder_go_kit.Prelude.{
  ◌≡◌, refl, ◌≢◌, List, [], ◌∷◌, ◌++◌, none, some, false, if_pos, if_neg, is_some, arith,
  if◌then◌else◌, All,
}
use rudder_go_kit.CacheTtl.{Node, contains, delete, find, remove, delete_all}

module _ {K : Type 0} (dec : Discrete K) where
  contains-delete_self : (k : K) (js : List K) → contains dec k (delete dec k js) ≡ false
  unfolding contains delete
  contains-delete_self k [] = refl
  contains-delete_self k (j ∷ js) = ground (arith, contains-delete_self k js)

  contains-delete_ne :
      (k i : K) (js : List K) → k ≢ i → contains dec i (delete dec k js) ≡ contains dec i js
  unfolding contains delete
  contains-delete_ne k i [] h = refl
  contains-delete_ne k i (j ∷ js) h = ground (arith, contains-delete_ne k i js)

module _ {K V : Type 0} (dec : Discrete K) where
  -- No key stands in the ring twice.
  abbrev pub Distinct : List (Node K V) → Type 0
  Distinct [] = Unit
  Distinct (n ∷ ns) = (find dec n.key ns ≡ none) × Distinct ns

  pub find-key : (k : K) (ns : List (Node K V)) (n : Node K V) → find dec k ns ≡ some n → n.key ≡ k
  unfolding find
  find-key k [] n h = absurd (ground arith)
  find-key k (m ∷ ns) n h = ground (arith, find-key k ns n)

  find-append_front :
      (k : K) (xs ys : List (Node K V))
      → find dec k xs ≢ none
      → find dec k (xs ++ ys) ≡ find dec k xs
  unfolding find
  find-append_front k [] ys h = absurd (h refl)
  find-append_front k (x ∷ xs) ys h = ground (arith, find-append_front k xs ys)

  pub find-append_back :
      (k : K) (xs ys : List (Node K V))
      → find dec k xs ≡ none
      → find dec k (xs ++ ys) ≡ find dec k ys
  unfolding find
  find-append_back k [] ys h = refl
  find-append_back k (x ∷ xs) ys h = ground (arith, find-append_back k xs ys)

  find-append_none :
      (k : K) (xs ys : List (Node K V))
      → find dec k (xs ++ ys) ≡ none
      → (find dec k xs ≡ none) × (find dec k ys ≡ none)
  unfolding find
  find-append_none k [] ys h = (refl, h)
  find-append_none k (x ∷ xs) ys h = ground (arith, find-append_none k xs ys)

  pub find-insert_ne :
      (k : K) (n : Node K V) (xs ys : List (Node K V))
      → n.key ≢ k
      → find dec k (xs ++ (n ∷ ys)) ≡ find dec k (xs ++ ys)
  unfolding find
  find-insert_ne k n [] ys h = rw (if_neg _ h)
  find-insert_ne k n (x ∷ xs) ys h = ground (arith, find-insert_ne k n xs ys)

  pub find-insert_self :
      (n : Node K V) (xs ys : List (Node K V))
      → find dec n.key (xs ++ ys) ≡ none
      → find dec n.key (xs ++ (n ∷ ys)) ≡ some n
  unfolding find
  find-insert_self n [] ys h = rw (if_pos _ refl)
  find-insert_self n (x ∷ xs) ys h = ground (arith, find-insert_self n xs ys)

  pub Distinct-insert :
      (n : Node K V) (xs ys : List (Node K V))
      → Distinct (xs ++ ys)
      → find dec n.key (xs ++ ys) ≡ none
      → Distinct (xs ++ (n ∷ ys))
  unfolding find
  Distinct-insert n [] ys d h = (h, d)
  Distinct-insert n (x ∷ xs) ys d h =
      (ground (arith, find-insert_ne x.key n xs ys), Distinct-insert n xs ys d.1 (ground arith))

  pub Distinct-back : (xs ys : List (Node K V)) → Distinct (xs ++ ys) → Distinct ys
  Distinct-back [] ys d = d
  Distinct-back (x ∷ xs) ys d = Distinct-back xs ys d.1

  pub find-remove_ne :
      (k j : K) (ns : List (Node K V)) → k ≢ j → find dec j (remove dec k ns) ≡ find dec j ns
  unfolding find remove
  find-remove_ne k j [] h = refl
  find-remove_ne k j (n ∷ ns) h = ground (arith, find-remove_ne k j ns)

  pub find-remove_self :
      (k : K) (ns : List (Node K V)) → Distinct ns → find dec k (remove dec k ns) ≡ none
  unfolding find remove
  find-remove_self k [] d = refl
  find-remove_self k (n ∷ ns) d = ground (arith, find-remove_self k ns)

  pub Distinct-remove : (k : K) (ns : List (Node K V)) → Distinct ns → Distinct (remove dec k ns)
  unfolding remove
  Distinct-remove k [] d = tt
  Distinct-remove k (n ∷ ns) d = elim (dec n.key k) [
    | yes p ↦ rw (if_pos _ p) d.1
    | no p ↦ rw (if_neg _ p) (ground (arith, find-remove_ne k n.key ns), Distinct-remove k ns d.1)
  ]

  pub All-remove :
      (P : Node K V → Type 0) (k : K) (ns : List (Node K V)) → All P ns → All P (remove dec k ns)
  unfolding remove
  All-remove P k [] h = tt
  All-remove P k (n ∷ ns) h = elim (dec n.key k) [
    | yes p ↦ rw (if_pos _ p) h.1
    | no p ↦ rw (if_neg _ p) (h.0, All-remove P k ns h.1)
  ]

  -- Every key of the first part is not one of the second.
  pub find-back_of_front :
      (k : K) (xs ys : List (Node K V))
      → Distinct (xs ++ ys)
      → find dec k xs ≢ none
      → find dec k ys ≡ none
  unfolding find
  find-back_of_front k [] ys d h = absurd (h refl)
  find-back_of_front k (x ∷ xs) ys d h = elim (dec x.key k) [
    | yes p ↦ rw (← p) ((find-append_none x.key xs ys d.0).1)
    | no p ↦ find-back_of_front k xs ys d.1 (rw (if_neg _ p) at h)
  ]

  -- The map loses the keys of the evicted nodes, and no others.
  pub contains-delete_all :
      (k : K) (gone : List (Node K V)) (js : List K)
      → contains dec k (delete_all dec gone js)
        ≡ (if is_some (find dec k gone) then false else contains dec k js)
  unfolding delete_all find
  contains-delete_all k [] js = refl
  contains-delete_all k (n ∷ gone) js = ground (
    arith,
    contains-delete_all k gone (delete dec n.key js),
    contains-delete_self dec k js,
    contains-delete_ne dec n.key k js,
  )
