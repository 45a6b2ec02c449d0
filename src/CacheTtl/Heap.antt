-- ===== src/CacheTtl/Heap.antt =====
-- cachettl/cachettl.go: the ring of nodes as the pointers that it is. A node is its address, `root` the
-- address 0; `none` is `nil`. A function that the source would end by a panic on a nil pointer gives
-- `none`, and so does a loop that runs out of fuel.
pub mod Links
pub mod Rewire
pub mod Refines
mod Tests
use rudder_go_kit.Prelude.{
  ℕ, zero, suc, ◌+◌, ◌≡◌, Bool, true, false, List, [], ◌∷◌, Option, none, some, leb, ltb, ◌==◌,
  if◌then◌else◌,
}
use rudder_go_kit.CacheTtl.{Node}

-- The pointers of all nodes, and what else a node holds; `root` holds nothing.
pub record Heap (K V : Type 0) : Type 0 where
  pub prev : ℕ → Option ℕ
  pub next : ℕ → Option ℕ
  pub contents : ℕ → Option (Node K V)

abbrev pub root : ℕ
root = 0

-- A write to one address.
unfoldable pub write : {A : Type 0} → (ℕ → A) → ℕ → A → ℕ → A
write f a v b = if a == b then v else f b

module _ {K V : Type 0} where
  -- The zero time for `root`.
  unfoldable pub expiration_at : Heap K V → ℕ → ℕ
  expiration_at h a = elim (h.contents a) [ none ↦ 0 | some n ↦ n.expiration ]

  -- `n.next.prev = n.prev`, behind the first write of `remove`.
  unfoldable pub set_next_prev : ℕ → Option ℕ → Heap K V → Option (Heap K V)
  set_next_prev p none h = none
  set_next_prev p (some q) h = some (record h { prev = write h.prev q (some p) })

  -- `n.prev.next = n.next`
  unfoldable pub remove_between : ℕ → Option ℕ → Heap K V → Option (Heap K V)
  remove_between a none h = none
  remove_between a (some p) h =
      let h' = record h { next = write h.next p (h.next a) } in set_next_prev p (h'.next a) h'

  -- `node.remove`
  unfoldable pub remove : ℕ → Heap K V → Option (Heap K V)
  remove a h = remove_between a (h.prev a) h

  -- `save.prev = n`
  unfoldable pub set_save_prev : ℕ → Option ℕ → Heap K V → Option (Heap K V)
  set_save_prev n none h = none
  set_save_prev n (some save) h = some (record h { prev = write h.prev save (some n) })

  -- `n` is inserted after `cn`.
  unfoldable pub insert_after : ℕ → ℕ → Heap K V → Option (Heap K V)
  insert_after n cn h =
      let save = h.next cn in
      set_save_prev n save (record h {
        next = write (write h.next cn (some n)) n save;
        prev = write h.prev n (some cn);
      })

  -- The loop of `add`, on fuel.
  unfoldable pub add_loop : ℕ → ℕ → Option ℕ → Heap K V → Option (Heap K V)
  add_loop fuel n none h = some h
  add_loop zero n (some cn) h = none
  add_loop (suc fuel) n (some cn) h =
      let rest = add_loop fuel n (h.prev cn) h in
      if leb (expiration_at h cn) (expiration_at h n) then insert_after n cn h else rest

  -- `add`
  unfoldable pub add : ℕ → ℕ → Heap K V → Option (Heap K V)
  add fuel n h = add_loop fuel n (h.prev root) h
