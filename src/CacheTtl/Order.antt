-- ===== src/CacheTtl/Order.antt =====
-- cachettl/cachettl.go: where `add` puts a node, and the order of the ring.
use mathlib.Core.List.{reverse, reverse-cons, reverse-append, reverse-reverse, append_assoc}
use rudder_go_kit.Prelude.{
  ◌≤◌, ◌<◌, ◌≡◌, refl, ap, sym, ◌∙◌, inl, inr, List, [], ◌∷◌, ◌++◌, All, All-append, All-map,
  All-reverse, arith, leb, Bool-cases,
}
use rudder_go_kit.CacheTtl.{Node, add_back, add}

module _ {K V : Type 0} where
  abbrev pub Before : Node K V → Node K V → Type 0
  Before n m = n.expiration ≤ m.expiration

  -- Ascending, from the head.
  abbrev pub IsSorted : List (Node K V) → Type 0
  IsSorted [] = Unit
  IsSorted (n ∷ ns) = All (Before n) ns × IsSorted ns

  -- Descending: the ring from its tail.
  abbrev Descends : List (Node K V) → Type 0
  Descends [] = Unit
  Descends (n ∷ ns) = All (λ m. Before m n) ns × Descends ns

  Descends-snoc :
      (ns : List (Node K V)) (n : Node K V)
      → Descends ns
      → All (Before n) ns
      → Descends (ns ++ n ∷ [])
  Descends-snoc [] n d h = (tt, tt)
  Descends-snoc (m ∷ ns) n d h =
      (All-append _ ns (n ∷ []) d.0 (h.0, tt), Descends-snoc ns n d.1 h.1)

  Descends-reverse : (ns : List (Node K V)) → IsSorted ns → Descends (reverse ns)
  Descends-reverse [] s = tt
  Descends-reverse (n ∷ ns) s =
      rw (reverse-cons n ns)
        (Descends-snoc (reverse ns) n (Descends-reverse ns s.1) (All-reverse _ ns s.0))

  -- `add` splits the ring: what stands before the node expires no later, what stands behind it later.
  pub record Insertion (n : Node K V) (ring ring' : List (Node K V)) : Type 0 where
    pub front : List (Node K V)
    pub back : List (Node K V)
    pub before : ring ≡ front ++ back
    pub after : ring' ≡ front ++ (n ∷ back)
    pub earlier : All (λ m. m.expiration ≤ n.expiration) front
    pub later : All (λ m. n.expiration < m.expiration) back

  record BackSplit (n : Node K V) (back back' : List (Node K V)) : Type 0 where
    late : List (Node K V)
    early : List (Node K V)
    before : back ≡ late ++ early
    after : back' ≡ late ++ (n ∷ early)
    later : All (λ m. n.expiration < m.expiration) late
    earlier : All (λ m. m.expiration ≤ n.expiration) early

  add_back-BackSplit :
      (n : Node K V) (ns : List (Node K V)) → Descends ns → BackSplit n ns (add_back n ns)
  unfolding add_back
  add_back-BackSplit n [] d = record {
    late = [];
    early = [];
    before = refl;
    after = refl;
    later = tt;
    earlier = tt;
  }
  add_back-BackSplit n (m ∷ ns) d = elim (Bool-cases (leb m.expiration n.expiration)) [
    | inl h ↦ record {
      late = [];
      early = m ∷ ns;
      before = refl;
      after = rw h;
      later = tt;
      earlier = (ground arith, All-map _ _ ns (λ x p. ground arith) d.0);
    }
    | inr h ↦
        let r = add_back-BackSplit n ns d.1 in
        record {
          late = m ∷ r.late;
          early = r.early;
          before = ap (◌∷◌ m) r.before;
          after = rw h (ap (◌∷◌ m) r.after);
          later = (ground arith, r.later);
          earlier = r.earlier;
        }
  ]

  pub add-Insertion :
      (n : Node K V) (ring : List (Node K V)) → IsSorted ring → Insertion n ring (add n ring)
  unfolding add
  add-Insertion n ring s =
      let r = add_back-BackSplit n (reverse ring) (Descends-reverse ring s) in
      record {
        front = reverse r.early;
        back = reverse r.late;
        before = sym (reverse-reverse ring) ∙ ap reverse r.before ∙ reverse-append r.late r.early;
        after =
            ap reverse r.after
            ∙ reverse-append r.late (n ∷ r.early)
            ∙ rw (reverse-cons n r.early)
                (append_assoc (reverse r.early) (n ∷ []) (reverse r.late));
        earlier = All-reverse _ r.early r.earlier;
        later = All-reverse _ r.late r.later;
      }

  IsSorted-insert :
      (n : Node K V) (front back : List (Node K V))
      → IsSorted (front ++ back)
      → All (λ m. m.expiration ≤ n.expiration) front
      → All (λ m. n.expiration < m.expiration) back
      → IsSorted (front ++ (n ∷ back))
  IsSorted-insert n [] back s e l = (All-map _ _ back (λ x p. omega arith) l, s)
  IsSorted-insert n (m ∷ front) back s e l =
      (All_insert front back s.0 e.0, IsSorted-insert n front back s.1 e.1 l)
    where
      All_insert :
          (xs ys : List (Node K V))
          → All (Before m) (xs ++ ys)
          → Before m n
          → All (Before m) (xs ++ (n ∷ ys))
      All_insert [] ys h p = (p, h)
      All_insert (x ∷ xs) ys h p = (h.0, All_insert xs ys h.1 p)

  -- `add` keeps the ring in the order of expiration.
  pub add-IsSorted : (n : Node K V) (ring : List (Node K V)) → IsSorted ring → IsSorted (add n ring)
  add-IsSorted n ring s =
      let r = add-Insertion n ring s in
      rw r.after (IsSorted-insert n r.front r.back (rw r.before at s) r.earlier r.later)
