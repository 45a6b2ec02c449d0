-- ===== src/CacheTtl/Invariant.antt =====
-- cachettl/cachettl.go: the invariant of the cache, which every operation keeps.
use rudder_go_kit.Prelude.{
  ℕ, suc, ◌≡◌, refl, sym, ap, ◌∙◌, ◌≢◌, inl, inr, List, [], ◌∷◌, ◌++◌, none, some, Bool, true,
  false, if_neg, if_pos, is_some, arith, if◌then◌else◌, Bool-cases, Option-cases, ltb,
}
use rudder_go_kit.Prelude.Int.{ℤ}
use rudder_go_kit.CacheTtl.{
  Node, Cache, Readings, new, contains, find, remove, add, add_duration, node_of, sweep, cleanup,
  touch, read, get, put,
}
use rudder_go_kit.CacheTtl.Order.{IsSorted, add-IsSorted, add-Insertion}
use rudder_go_kit.CacheTtl.Keys.{
  Distinct, All-remove, Distinct-back, Distinct-insert, Distinct-remove, contains-delete_all,
  find-append_back, find-back_of_front, find-insert_ne, find-insert_self, find-key, find-remove_ne,
  find-remove_self,
}

-- The loop of `Get` takes a first part of the ring away, whatever the clock says.
module _ {K V : Type 0} where
  sweep-append :
      (now : ℕ → ℕ) (i : ℕ) (ring : List (Node K V))
      → (sweep now i ring).1 ++ (sweep now i ring).0 ≡ ring
  unfolding sweep
  sweep-append now i [] = refl
  sweep-append now i (n ∷ ns) = ground (arith, sweep-append now (suc i) ns)

  IsSorted-back : (xs ys : List (Node K V)) → IsSorted (xs ++ ys) → IsSorted ys
  IsSorted-back [] ys s = s
  IsSorted-back (x ∷ xs) ys s = IsSorted-back xs ys s.1

module _ {K V : Type 0} (dec : Discrete K) where
  -- The ring is in the order of expiration, holds a key once, and the map has just its keys.
  pub record IsValid (c : Cache K V) : Type 0 where
    pub sorted : IsSorted c.ring
    pub distinct : Distinct dec c.ring
    pub agree : (k : K) → contains dec k c.index ≡ is_some (find dec k c.ring)

  pub IsSorted-remove : (k : K) (ns : List (Node K V)) → IsSorted ns → IsSorted (remove dec k ns)
  unfolding remove
  IsSorted-remove k [] s = tt
  IsSorted-remove k (n ∷ ns) s = elim (dec n.key k) [
    | yes p ↦ rw (if_pos _ p) s.1
    | no p ↦ rw (if_neg _ p) (All-remove dec _ k ns s.0, IsSorted-remove k ns s.1)
  ]

  -- `m[key]` is the node of the key in the ring.
  pub node_of-find : (c : Cache K V) (k : K) → IsValid c → node_of dec c k ≡ find dec k c.ring
  unfolding node_of
  node_of-find c k v = ground (arith, v.agree k)

  module _ (n : Node K V) (ring : List (Node K V)) (s : IsSorted ring) where
    pub find-add_ne : (k : K) → n.key ≢ k → find dec k (add n ring) ≡ find dec k ring
    find-add_ne k h =
        let r = add-Insertion n ring s in
        rw (r.after, r.before) (find-insert_ne dec k n r.front r.back h)

    module _ (fresh : find dec n.key ring ≡ none) where
      pub find-add_self : find dec n.key (add n ring) ≡ some n
      find-add_self =
          let r = add-Insertion n ring s in
          rw r.after (find-insert_self dec n r.front r.back (rw r.before at fresh))

      Distinct-add : Distinct dec ring → Distinct dec (add n ring)
      Distinct-add d =
          let r = add-Insertion n ring s in
          rw r.after
            (Distinct-insert dec n r.front r.back (rw r.before at d) (rw r.before at fresh))

  pub new-IsValid : (refresh : Bool) → IsValid (new refresh)
  unfolding new contains find
  new-IsValid refresh = record { sorted = tt; distinct = tt; agree = λ k. refl }

  -- A node of the cache taken out and put back with another value and expiration.
  move-IsValid :
      (c : Cache K V) (n : Node K V)
      → IsValid c
      → contains dec n.key c.index ≡ true
      → IsValid (record c { ring = add n (remove dec n.key c.ring) })
  move-IsValid c n v h =
      let s = IsSorted-remove n.key c.ring v.sorted in
      let fresh = find-remove_self dec n.key c.ring v.distinct in
      record {
        sorted = add-IsSorted n _ s;
        distinct = Distinct-add n _ s fresh (Distinct-remove dec n.key c.ring v.distinct);
        agree = λ k. elim (dec n.key k) [
          | yes p ↦ rw (← p) (h ∙ sym (ap is_some (find-add_self n _ s fresh)))
          | no p ↦
              v.agree k
              ∙ ap is_some (sym (find-add_ne n _ s k p ∙ find-remove_ne dec n.key k c.ring p))
        ];
      }

  -- A node of a new key.
  insert-IsValid :
      (c : Cache K V) (n : Node K V)
      → IsValid c
      → find dec n.key c.ring ≡ none
      → IsValid (record c { ring = add n c.ring; index = n.key ∷ c.index })
  unfolding contains
  insert-IsValid c n v absent = record {
    sorted = add-IsSorted n c.ring v.sorted;
    distinct = Distinct-add n c.ring v.sorted absent v.distinct;
    agree = λ k. elim (dec n.key k) [
      | yes p ↦ rw (if_pos _ p, ← p) (sym (ap is_some (find-add_self n c.ring v.sorted absent)))
      | no p ↦ rw (if_neg _ p, find-add_ne n c.ring v.sorted k p) (v.agree k)
    ];
  }

  contains-node_of :
      (c : Cache K V) (k : K) (n : Node K V)
      → node_of dec c k ≡ some n
      → (contains dec k c.index ≡ true) × (n.key ≡ k)
  unfolding node_of
  contains-node_of c k n h = ground (arith, find-key dec k c.ring n)

  -- `Put` keeps the invariant, for a new key and for one that is there.
  pub put-IsValid :
      (c : Cache K V) (k : K) (v : V) (ttl : ℤ) (now : ℕ)
      → IsValid c
      → IsValid (put dec k v ttl now c)
  unfolding put
  put-IsValid c k x ttl now v = elim (Option-cases (node_of dec c k)) [
    | inl e ↦
        let absent : find dec k c.ring ≡ none = sym (node_of-find c k v) ∙ e in
        rw (e, put) (insert-IsValid c _ v absent)
    | inr (n, e) ↦
        let (h, p) = contains-node_of c k n e in
        rw (e, put, ← p) (move-IsValid c _ v (rw (← p) at h))
  ]

  touch-IsValid :
      (c : Cache K V) (now : ℕ) (n : Node K V)
      → IsValid c
      → contains dec n.key c.index ≡ true
      → IsValid (touch dec now n c)
  unfolding touch
  touch-IsValid c now n v h =
      let n' : Node K V = record n { expiration = add_duration now n.ttl } in
      elim c.refresh_ttl
        as (λ b. IsValid (if b then record c { ring = add n' (remove dec n.key c.ring) } else c)) [
          | true ↦ move-IsValid c n' v h
          | false ↦ v
        ]

  pub read-IsValid :
      (zero_value : V) (c : Cache K V) (k : K) (r : Readings)
      → IsValid c
      → IsValid (read dec zero_value k r c).0
  unfolding read
  read-IsValid zero_value c k r v = elim (Option-cases (node_of dec c k)) [
    | inl e ↦ rw (e, read) v
    | inr (n, e) ↦
        let (h, p) = contains-node_of c k n e in
        elim (Bool-cases (ltb r.check n.expiration)) [
          | inl live ↦ rw (e, read, live) (touch-IsValid c r.refresh n v (rw (← p) at h))
          | inr over ↦ rw (e, read, over) v
        ]
  ]

  cleanup-IsValid : (now : ℕ → ℕ) (c : Cache K V) → IsValid c → IsValid (cleanup dec now c).0
  unfolding cleanup
  cleanup-IsValid now c v =
      let kept = (sweep now 0 c.ring).0 in
      let gone = (sweep now 0 c.ring).1 in
      let all = sweep-append now 0 c.ring in
      let distinct : Distinct dec (gone ++ kept) = rw all v.distinct in
      record {
        sorted = IsSorted-back gone kept (rw all v.sorted);
        distinct = Distinct-back dec gone kept distinct;
        agree = λ k. ground (
          arith,
          contains-delete_all dec k gone c.index,
          v.agree k,
          all,
          find-append_back dec k gone kept,
          find-back_of_front dec k gone kept distinct,
        );
      }

  -- `Get` keeps the invariant, whatever the clock says during the call.
  pub get-IsValid :
      (zero_value : V) (c : Cache K V) (k : K) (r : Readings)
      → IsValid c
      → IsValid (get dec zero_value k r c).0
  unfolding get
  get-IsValid zero_value c k r v = cleanup-IsValid r.sweep _ (read-IsValid zero_value c k r v)
