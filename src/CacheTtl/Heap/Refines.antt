-- ===== src/CacheTtl/Heap/Refines.antt =====
-- cachettl/cachettl.go: `add` and `remove` on pointers beside the list of the nodes.
use rudder_go_kit.Prelude.{
  ℕ, zero, suc, ◌≡◌, refl, sym, ap, ◌∙◌, List, [], ◌∷◌, ◌++◌, Option, none, some, length, true,
  false, leb, arith, Bool-cases, inl, inr, ◌<◌, ◌+◌,
}
use mathlib.Core.List.{reverse, reverse_aux, reverse-reverse}
use rudder_go_kit.CacheTtl as Nodes
use rudder_go_kit.CacheTtl.Heap.{Heap, root, add, add_loop, insert_after, expiration_at, remove}
use rudder_go_kit.CacheTtl.Heap.Links.{Absent, Chain, Chain-end, Chain-neighbours, last_of}
use rudder_go_kit.CacheTtl.Heap.Rewire.{Ring, insert_after-Relinked, remove-Relinked}

module _ {A : Type 0} where
  reverse_aux-append : (bs xs ys : List A) → reverse_aux bs (xs ++ ys) ≡ reverse_aux bs xs ++ ys
  reverse_aux-append [] xs ys = refl
  reverse_aux-append (b ∷ bs) xs ys = reverse_aux-append bs (b ∷ xs) ys

leb_zero : (n : ℕ) → leb 0 n ≡ true
leb_zero n = ground arith

length-reverse_aux :
    {A : Type 0} (xs ys : List A) → length (reverse_aux xs ys) ≡ length xs + length ys
length-reverse_aux [] ys = omega arith
length-reverse_aux (x ∷ xs) ys = length-reverse_aux xs (x ∷ ys) ∙ omega arith

-- The address at which the loop of `add` stands, when `bs` is left behind it.
abbrev tail_of : List ℕ → ℕ
tail_of [] = root
tail_of (b ∷ bs) = b

last_of-snoc : (p : ℕ) (xs : List ℕ) (b : ℕ) (ys : List ℕ) → last_of p (xs ++ b ∷ ys) ≡ last_of b ys
last_of-snoc p [] b ys = refl
last_of-snoc p (x ∷ xs) b ys = last_of-snoc x xs b ys

last_of-reverse : (bs : List ℕ) → last_of root (reverse bs) ≡ tail_of bs
last_of-reverse [] = refl
last_of-reverse (b ∷ bs) =
    rw (reverse_aux-append bs [] (b ∷ [])) (last_of-snoc root (reverse bs) b [])

module _ {K V : Type 0} where
  -- The nodes at the addresses, in order.
  abbrev pub Holds : (ℕ → Option (Nodes.Node K V)) → List ℕ → List (Nodes.Node K V) → Type 0
  Holds contents [] [] = Unit
  Holds contents (x ∷ xs) (n ∷ ns) = (contents x ≡ some n) × Holds contents xs ns
  Holds contents [] (n ∷ ns) = ⊥
  Holds contents (x ∷ xs) [] = ⊥

  Holds-reverse_aux :
      (contents : ℕ → Option (Nodes.Node K V)) (bs cs : List ℕ) (nbs nas : List (Nodes.Node K V))
      → Holds contents bs nbs
      → Holds contents cs nas
      → Holds contents (reverse_aux bs cs) (reverse_aux nbs nas)
  Holds-reverse_aux contents [] cs [] nas u v = v
  Holds-reverse_aux contents [] cs (n ∷ nbs) nas u v = absurd u
  Holds-reverse_aux contents (b ∷ bs) cs [] nas u v = absurd u
  Holds-reverse_aux contents (b ∷ bs) cs (n ∷ nbs) nas u v =
      Holds-reverse_aux contents bs (b ∷ cs) nbs (n ∷ nas) u.1 (u.0, v)

  -- The heap is a ring of `root` and the addresses, and they hold the nodes.
  pub record Represents (h : Heap K V) (xs : List ℕ) (ns : List (Nodes.Node K V)) : Type 0 where
    pub ring : Ring h xs
    pub holds : Holds h.contents xs ns

  -- A call that returns a heap which represents the nodes.
  pub record Refines (result : Option (Heap K V)) (ns : List (Nodes.Node K V)) : Type 0 where
    pub after : Heap K V
    pub addresses : List ℕ
    pub returns : result ≡ some after
    pub represents : Represents after addresses ns

  insert-Refines :
      (h : Heap K V) (bs cs : List ℕ) (nbs nas : List (Nodes.Node K V)) (a : ℕ) (n : Nodes.Node K V)
      → Ring h (reverse_aux bs cs)
      → Holds h.contents bs nbs
      → Holds h.contents cs nas
      → Absent a (root ∷ reverse_aux bs cs)
      → h.contents a ≡ some n
      → Refines (insert_after a (tail_of bs) h) (reverse_aux nbs (n ∷ nas))
  insert-Refines h bs cs nbs nas a n r u v m e =
      let same = reverse_aux-append bs [] cs in
      let l = insert_after-Relinked h (reverse bs) cs a (rw (sym same) r) (rw (sym same) m) in
      record {
        after = l.after;
        addresses = reverse_aux bs (a ∷ cs);
        returns = ap (λ c. insert_after a c h) (sym (last_of-reverse bs)) ∙ l.returns;
        represents = record {
          ring = rw (reverse_aux-append bs [] (a ∷ cs)) l.ring;
          holds = rw l.same (Holds-reverse_aux h.contents bs (a ∷ cs) nbs (n ∷ nas) u (e, v));
        };
      }

  add_loop_here :
      (fuel a c : ℕ) (h : Heap K V)
      → leb (expiration_at h c) (expiration_at h a) ≡ true
      → add_loop (suc fuel) a (some c) h ≡ insert_after a c h
  unfolding add_loop
  add_loop_here fuel a c h e = rw e refl

  add_loop_next :
      (fuel a c : ℕ) (h : Heap K V)
      → leb (expiration_at h c) (expiration_at h a) ≡ false
      → add_loop (suc fuel) a (some c) h ≡ add_loop fuel a (h.prev c) h
  unfolding add_loop
  add_loop_next fuel a c h e = rw e refl

  expiration_at-some :
      (h : Heap K V) (x : ℕ) (n : Nodes.Node K V)
      → h.contents x ≡ some n
      → expiration_at h x ≡ n.expiration
  unfolding expiration_at
  expiration_at-some h x n e = rw (e, expiration_at) refl

  expiration_at-none : (h : Heap K V) (x : ℕ) → h.contents x ≡ none → expiration_at h x ≡ 0
  unfolding expiration_at
  expiration_at-none h x e = rw (e, expiration_at) refl

  prev_tail :
      (h : Heap K V) (bs : List ℕ) (b : ℕ) (cs : List ℕ)
      → Ring h (reverse_aux bs (b ∷ cs))
      → h.prev b ≡ some (tail_of bs)
  unfolding Ring
  prev_tail h bs b cs r =
      let c : Chain h.next h.prev root (reverse bs ++ b ∷ cs) root =
        rw (sym (reverse_aux-append bs [] (b ∷ cs))) r.0 in
      (Chain-neighbours h.next h.prev root (reverse bs) b cs root c).0
      ∙ ap some (last_of-reverse bs)

  module _ (h : Heap K V) (a : ℕ) (n : Nodes.Node K V) (e : h.contents a ≡ some n) where
    add_loop-Refines :
        (fuel : ℕ) (bs cs : List ℕ) (nbs ncs : List (Nodes.Node K V))
        → Ring h (reverse_aux bs cs)
        → Holds h.contents bs nbs
        → Holds h.contents cs ncs
        → Absent a (root ∷ reverse_aux bs cs)
        → length bs < fuel
        → h.contents root ≡ none
        → Refines (add_loop fuel a (some (tail_of bs)) h) (reverse_aux (Nodes.add_back n nbs) ncs)
    unfolding Nodes.add_back
    add_loop-Refines zero bs cs nbs ncs r u v m f z = absurd (omega arith)
    add_loop-Refines (suc fuel) [] cs [] ncs r u v m f z =
        rw
          (add_loop_here fuel a root h
            (rw (expiration_at-none h root z) (leb_zero (expiration_at h a))))
          (insert-Refines h [] cs [] ncs a n r u v m e)
    add_loop-Refines (suc fuel) [] cs (nb ∷ nbs) ncs r u v m f z = absurd u
    add_loop-Refines (suc fuel) (b ∷ bs) cs [] ncs r u v m f z = absurd u
    add_loop-Refines (suc fuel) (b ∷ bs) cs (nb ∷ nbs) ncs r u v m f z =
        elim (Bool-cases (leb nb.expiration n.expiration)) [
          | inl t ↦
              rw
                (add_loop_here fuel a b h
                  (rw (expiration_at-some h b nb u.0) (rw (expiration_at-some h a n e) t)))
                (rw t (insert-Refines h (b ∷ bs) cs (nb ∷ nbs) ncs a n r u v m e))
          | inr t ↦
              rw
                (add_loop_next fuel a b h
                  (rw (expiration_at-some h b nb u.0) (rw (expiration_at-some h a n e) t)))
                (rw t (
                  rw (prev_tail h bs b cs r) (
                    add_loop-Refines fuel bs (b ∷ cs) nbs (nb ∷ ncs) r u.1 (u.0, v) m (omega arith)
                      z)))
        ]

  Ring-end : (h : Heap K V) (xs : List ℕ) → Ring h xs → h.prev root ≡ some (tail_of (reverse xs))
  unfolding Ring
  Ring-end h xs r =
      Chain-end h.next h.prev root xs root r.0
      ∙ ap some (ap (last_of root) (sym (reverse-reverse xs)) ∙ last_of-reverse (reverse xs))

  -- On a heap that represents the nodes of a ring, the pointer loop of `add` with fuel above the
  -- length of the ring returns, for a node outside the ring, a heap that represents the list
  -- which `add` makes of them.
  pub add-Refines :
      (fuel : ℕ) (h : Heap K V) (xs : List ℕ) (ns : List (Nodes.Node K V)) (a : ℕ)
      (n : Nodes.Node K V)
      → Represents h xs ns
      → h.contents a ≡ some n
      → h.contents root ≡ none
      → Absent a (root ∷ xs)
      → length xs < fuel
      → Refines (add fuel a h) (Nodes.add n ns)
  unfolding add Nodes.add
  add-Refines fuel h xs ns a n r e z m f = rw (Ring-end h xs r.ring) (
      add_loop-Refines h a n e fuel (reverse xs) [] (reverse ns) [] (rw (reverse-reverse xs) r.ring)
        (Holds-reverse_aux h.contents xs [] ns [] r.holds tt) tt (rw (reverse-reverse xs) m)
        (rw (length-reverse_aux xs []) (omega (arith, f))) z)

  Holds-without :
      (contents : ℕ → Option (Nodes.Node K V)) (xs : List ℕ) (a : ℕ) (ys : List ℕ)
      (ns : List (Nodes.Node K V)) (n : Nodes.Node K V) (ms : List (Nodes.Node K V))
      → length xs ≡ length ns
      → Holds contents (xs ++ a ∷ ys) (ns ++ n ∷ ms)
      → Holds contents (xs ++ ys) (ns ++ ms)
  Holds-without contents [] a ys [] n ms e u = u.1
  Holds-without contents [] a ys (k ∷ ns) n ms e u = absurd (omega arith)
  Holds-without contents (x ∷ xs) a ys [] n ms e u = absurd (omega arith)
  Holds-without contents (x ∷ xs) a ys (k ∷ ns) n ms e u =
      (u.0, Holds-without contents xs a ys ns n ms (omega arith) u.1)

  -- On a heap that represents the nodes of a ring, `remove` of an address in the ring returns a
  -- heap that represents the nodes without the one at that address.
  pub remove-Refines :
      (h : Heap K V) (xs : List ℕ) (a : ℕ) (ys : List ℕ) (ns : List (Nodes.Node K V))
      (n : Nodes.Node K V) (ms : List (Nodes.Node K V))
      → length xs ≡ length ns
      → Represents h (xs ++ a ∷ ys) (ns ++ n ∷ ms)
      → Refines (remove a h) (ns ++ ms)
  remove-Refines h xs a ys ns n ms e r =
      let l = remove-Relinked h xs a ys r.ring in
      record {
        after = l.after;
        addresses = xs ++ ys;
        returns = l.returns;
        represents = record {
          ring = l.ring;
          holds = rw l.same (Holds-without h.contents xs a ys ns n ms e r.holds);
        };
      }
