-- ===== src/CacheTtl/Heap/Rewire.antt =====
-- cachettl/cachettl.go: the pointer writes of `remove` and `add` on a ring of nodes.
use rudder_go_kit.Prelude.{ℕ, ◌≡◌, ◌≢◌, refl, sym, List, [], ◌∷◌, ◌++◌, Option, some}
use rudder_go_kit.CacheTtl.Heap.{
  Heap, write, root, remove, remove_between, set_next_prev, insert_after, set_save_prev,
}
use rudder_go_kit.CacheTtl.Heap.Links.{
  Absent, Distinct, Chain, Chain-neighbours, Chain-next, Chain-remove, Chain-insert, last_of,
  first_of, Absent-last_of, Absent-without, write_ne,
}

Distinct-without :
    (xs : List ℕ) (a : ℕ) (ys : List ℕ) → Distinct (xs ++ a ∷ ys) → Distinct (xs ++ ys)
Distinct-without [] a ys d = d.1
Distinct-without (x ∷ xs) a ys d = (Absent-without x xs a ys d.0, Distinct-without xs a ys d.1)

Absent-at : (a : ℕ) (xs : List ℕ) (b : ℕ) (ys : List ℕ) → Absent a (xs ++ b ∷ ys) → b ≢ a
Absent-at a [] b ys n = λ e. n.0 (sym e)
Absent-at a (x ∷ xs) b ys n = Absent-at a xs b ys n.1

Absent-middle : (xs : List ℕ) (a : ℕ) (ys : List ℕ) → Distinct (xs ++ a ∷ ys) → Absent a xs
Absent-middle [] a ys d = tt
Absent-middle (x ∷ xs) a ys d = (Absent-at x xs a ys d.0, Absent-middle xs a ys d.1)

Absent-with :
    (b : ℕ) (xs : List ℕ) (a : ℕ) (ys : List ℕ)
    → b ≢ a
    → Absent b (xs ++ ys)
    → Absent b (xs ++ a ∷ ys)
Absent-with b [] a ys n m = (n, m)
Absent-with b (x ∷ xs) a ys n m = (m.0, Absent-with b xs a ys n m.1)

Distinct-with :
    (xs : List ℕ) (a : ℕ) (ys : List ℕ)
    → Absent a (xs ++ ys)
    → Distinct (xs ++ ys)
    → Distinct (xs ++ a ∷ ys)
Distinct-with [] a ys n d = (n, d)
Distinct-with (x ∷ xs) a ys n d =
    (Absent-with x xs a ys (λ e. n.0 (sym e)) d.0, Distinct-with xs a ys n.1 d.1)

module _ {K V : Type 0} where
  -- The pointers of the heap link `root` and the addresses of the list into one ring.
  unfoldable pub Ring : Heap K V → List ℕ → Type 0
  Ring h xs = Chain h.next h.prev root xs root × Distinct (root ∷ xs)

  -- What an operation that only writes pointers leaves behind.
  pub record Relinked (result : Option (Heap K V)) (h : Heap K V) (xs : List ℕ) : Type 0 where
    pub after : Heap K V
    pub returns : result ≡ some after
    pub ring : Ring after xs
    pub same : after.contents ≡ h.contents

  pub remove-Relinked :
      (h : Heap K V) (xs : List ℕ) (a : ℕ) (ys : List ℕ)
      → Ring h (xs ++ a ∷ ys)
      → Relinked (remove a h) h (xs ++ ys)
  unfolding Ring remove remove_between set_next_prev
  remove-Relinked h xs a ys r =
      let (p, n) = Chain-neighbours h.next h.prev root xs a ys root r.0 in
      let p' = last_of root xs in
      let q' = first_of ys root in
      record {
        after = record h { next = write h.next p' (some q'); prev = write h.prev q' (some p') };
        returns = rw p (
            rw
              (write_ne h.next p' a (h.next a)
                (Absent-last_of a root xs (Absent-middle (root ∷ xs) a ys r.1)))
              (rw n refl));
        ring = (
          Chain-remove h.next h.prev root xs a ys root r.1 r.1.0 r.0,
          Distinct-without (root ∷ xs) a ys r.1,
        );
        same = refl;
      }

  pub insert_after-Relinked :
      (h : Heap K V) (xs ys : List ℕ) (n : ℕ)
      → Ring h (xs ++ ys)
      → Absent n (root ∷ xs ++ ys)
      → Relinked (insert_after n (last_of root xs) h) h (xs ++ n ∷ ys)
  unfolding Ring insert_after set_save_prev
  insert_after-Relinked h xs ys n r m =
      let save = Chain-next h.next h.prev root xs ys root r.0 in
      let p' = last_of root xs in
      let q' = first_of ys root in
      record {
        after = record h {
          next = write (write h.next p' (some n)) n (some q');
          prev = write (write h.prev n (some p')) q' (some n);
        };
        returns = rw save refl;
        ring = (
          Chain-insert h.next h.prev n root xs ys root r.1 r.1.0 m m.0 r.0,
          Distinct-with (root ∷ xs) n ys m r.1,
        );
        same = refl;
      }
