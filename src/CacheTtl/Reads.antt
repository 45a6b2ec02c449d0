-- ===== src/CacheTtl/Reads.antt =====
-- cachettl/cachettl.go: what a later `Get` reads, and what `Get` evicts.
use rudder_go_kit.Prelude.{
  ℕ, suc, ◌≤◌, ◌<◌, ◌≡◌, refl, ap, ◌∙◌, ◌≢◌, inl, inr, List, [], ◌∷◌, map, none, some, true, false,
  arith, if◌then◌else◌, All, Bool-cases, Option-cases, ltb, leb, lt→ltb,
}
use rudder_go_kit.Prelude.Int.{ℤ}
use rudder_go_kit.CacheTtl.{
  Node, Cache, Readings, find, add_duration, sweep, cleanup, touch, read, get, put,
}
use rudder_go_kit.CacheTtl.Order.{IsSorted, Before}
use rudder_go_kit.CacheTtl.Keys.{Distinct, find-key, find-remove_ne, find-remove_self}
use rudder_go_kit.CacheTtl.Invariant.{
  IsValid, IsSorted-remove, read-IsValid, find-add_ne, find-add_self, node_of-find, put-IsValid,
}

-- The nodes whose expiration is not before `t`, and the others.
unfoldable pub live : {K V : Type 0} → ℕ → List (Node K V) → List (Node K V)
live t [] = []
live t (n ∷ ns) = if leb t n.expiration then n ∷ live t ns else live t ns

unfoldable pub expired : {K V : Type 0} → ℕ → List (Node K V) → List (Node K V)
expired t [] = []
expired t (n ∷ ns) = if ltb n.expiration t then n ∷ expired t ns else expired t ns

module _ {K V : Type 0} where
  live-All : (t : ℕ) (ns : List (Node K V)) → All (λ n. t ≤ n.expiration) ns → live t ns ≡ ns
  unfolding live
  live-All t [] h = refl
  live-All t (n ∷ ns) h = ground (arith, live-All t ns h.1)

  expired_none : (t : ℕ) (ns : List (Node K V)) → All (λ n. t ≤ n.expiration) ns → expired t ns ≡ []
  unfolding expired
  expired_none t [] h = refl
  expired_none t (n ∷ ns) h = ground (arith, expired_none t ns h.1)

  All-later :
      (t : ℕ) (n : Node K V) (ns : List (Node K V))
      → t ≤ n.expiration
      → All (Before n) ns
      → All (λ m. t ≤ m.expiration) ns
  All-later t n [] h a = tt
  All-later t n (m ∷ ns) h a = (omega arith, All-later t n ns h a.1)

  -- With a clock that stands still during the sweep, the loop that stops at the first node that has
  -- not expired finds every expired node, since the ring is sorted.
  sweep-live :
      (t i : ℕ) (ring : List (Node K V))
      → IsSorted ring
      → sweep (λ _. t) i ring ≡ (live t ring, expired t ring)
  unfolding sweep live expired
  sweep-live t i [] s = refl
  sweep-live t i (n ∷ ns) s = elim (Bool-cases (ltb n.expiration t)) [
    | inl over ↦ ground (arith, sweep-live t (suc i) ns s.1)
    | inr fine ↦
        let later = All-later t n ns (ground arith) s.0 in
        ground (arith, live-All t ns later, expired_none t ns later)
  ]

-- A clock that stands at `t` during the sweep.
abbrev pub steady : ℕ → ℕ → ℕ → Readings
steady check refresh t = record { check = check; refresh = refresh; sweep = λ _. t }

module _ {K V : Type 0} (dec : Discrete K) where
  -- The value of the node of a key that expires after `t`.
  unfoldable pub value_at : V → K → ℕ → Cache K V → V
  value_at zero_value k t c = elim (find dec k c.ring) [
    | none ↦ zero_value
    | some n ↦ if ltb t n.expiration then n.value else zero_value
  ]

  -- `Get` returns the value of the key's node if that expires after the first clock reading, and the
  -- zero value otherwise: neither the refresh nor the sweep changes the answer.
  get-value_at :
      (zero_value : V) (c : Cache K V) (k : K) (r : Readings)
      → IsValid dec c
      → (get dec zero_value k r c).1 ≡ value_at zero_value k r.check c
  unfolding get read value_at
  get-value_at zero_value c k r v = ground (arith, node_of-find dec c k v)

  -- The `ttl` of the node after a `Put` of the key: a node that is there keeps its own.
  unfoldable pub kept_ttl : K → ℤ → Cache K V → ℤ
  kept_ttl k ttl c = elim (find dec k c.ring) [ none ↦ ttl | some n ↦ n.ttl ]

  -- After `Put` the key's node has the new value and expires `ttl` after `now`, and its own `ttl` is
  -- the new one only if the key was not there before.
  find-put :
      (c : Cache K V) (k : K) (x : V) (ttl : ℤ) (now : ℕ)
      → IsValid dec c
      → find dec k (put dec k x ttl now c).ring
        ≡ some (record {
          key = k;
          value = x;
          ttl = kept_ttl k ttl c;
          expiration = add_duration now ttl;
        })
  unfolding put kept_ttl
  find-put c k x ttl now v = elim (Option-cases (find dec k c.ring)) [
    | inl e ↦ rw (node_of-find dec c k v, e, put, kept_ttl) (find-add_self dec _ c.ring v.sorted e)
    | inr (n, e) ↦
        let p = find-key dec k c.ring n e in
        rw (node_of-find dec c k v, e, put, kept_ttl, ← p)
          (find-add_self dec _ _ (IsSorted-remove dec n.key c.ring v.sorted)
            (find-remove_self dec n.key c.ring v.distinct))
  ]

  -- `Put` leaves every other key's node as it is.
  find-put_ne :
      (c : Cache K V) (k j : K) (x : V) (ttl : ℤ) (now : ℕ)
      → IsValid dec c
      → k ≢ j
      → find dec j (put dec k x ttl now c).ring ≡ find dec j c.ring
  unfolding put
  find-put_ne c k j x ttl now v h = elim (Option-cases (find dec k c.ring)) [
    | inl e ↦ rw (node_of-find dec c k v, e, put) (find-add_ne dec _ c.ring v.sorted j h)
    | inr (n, e) ↦
        let p = find-key dec k c.ring n e in
        rw (node_of-find dec c k v, e, put)
          (find-add_ne dec _ _ (IsSorted-remove dec k c.ring v.sorted) j (rw p h)
            ∙ find-remove_ne dec k j c.ring h)
  ]

  -- A `Get` after a `Put` of the same key returns the value as long as the `ttl` has not run out, and
  -- the zero value from then on; a `Get` of another key returns what it would without the `Put`.
  pub get-put :
      (zero_value : V) (c : Cache K V) (k j : K) (x : V) (ttl : ℤ) (now : ℕ) (r : Readings)
      → IsValid dec c
      → ((get dec zero_value k r (put dec k x ttl now c)).1
          ≡ (if ltb r.check (add_duration now ttl) then x else zero_value))
        × (k ≢ j
            → (get dec zero_value j r (put dec k x ttl now c)).1 ≡ value_at zero_value j r.check c)
  unfolding value_at
  get-put zero_value c k j x ttl now r v =
      let w = put-IsValid dec c k x ttl now v in
      (
        get-value_at zero_value _ k r w ∙ rw (find-put c k x ttl now v, value_at),
        λ h. get-value_at zero_value _ j r w ∙ rw (find-put_ne c k j x ttl now v h, value_at),
      )

  find-live :
      (t : ℕ) (k : K) (ns : List (Node K V)) (n : Node K V)
      → find dec k ns ≡ some n
      → t ≤ n.expiration
      → find dec k (live t ns) ≡ some n
  unfolding find live
  find-live t k [] n e h = e
  find-live t k (m ∷ ns) n e h = ground (arith, find-live t k ns n)

  -- With a clock that stands at `t` during the sweep, `Get` leaves just the nodes that expire at `t`
  -- or later, and calls `onEvicted` for all others, the earliest expiration first.
  pub get-evicts :
      (zero_value : V) (c : Cache K V) (k : K) (check refresh t : ℕ)
      → IsValid dec c
      → let c' = (read dec zero_value k (steady check refresh t) c).0 in
        ((get dec zero_value k (steady check refresh t) c).0.ring ≡ live t c'.ring)
        × ((get dec zero_value k (steady check refresh t) c).2
            ≡ map (λ n. (n.key, n.value)) (expired t c'.ring))
  unfolding get cleanup
  get-evicts zero_value c k check refresh t v =
      let s = (read-IsValid dec zero_value c k (steady check refresh t) v).sorted in
      let e = sweep-live t 0 _ s in (ap (λ p. p.0) e, ap (λ p. map (λ n. (n.key, n.value)) p.1) e)

  put-refresh_ttl :
      (c : Cache K V) (k : K) (x : V) (ttl : ℤ) (now : ℕ)
      → (put dec k x ttl now c).refresh_ttl ≡ c.refresh_ttl
  unfolding put
  put-refresh_ttl c k x ttl now = ground arith

  -- A hit that refreshes leaves the node under its key, with a new expiration.
  find-read_hit :
      (zero_value : V) (c : Cache K V) (k : K) (n : Node K V) (r : Readings)
      → IsValid dec c
      → c.refresh_ttl ≡ true
      → find dec k c.ring ≡ some n
      → r.check < n.expiration
      → find dec k (read dec zero_value k r c).0.ring
        ≡ some (record n { expiration = add_duration r.refresh n.ttl })
  unfolding read touch
  find-read_hit zero_value c k n r v hr e hit =
      let p = find-key dec k c.ring n e in
      rw (node_of-find dec c k v, e, read, lt→ltb _ _ hit, hr, ← p)
        (find-add_self dec _ _ (IsSorted-remove dec n.key c.ring v.sorted)
          (find-remove_self dec n.key c.ring v.distinct))

  read_hit :
      (zero_value : V) (c : Cache K V) (k : K) (n : Node K V) (r : Readings)
      → IsValid dec c
      → c.refresh_ttl ≡ false
      → find dec k c.ring ≡ some n
      → r.check < n.expiration
      → (read dec zero_value k r c).0 ≡ c
  unfolding read touch
  read_hit zero_value c k n r v hr e hit = ground (arith, node_of-find dec c k v)

  find-live-none :
      (t : ℕ) (k : K) (ns : List (Node K V)) → find dec k ns ≡ none → find dec k (live t ns) ≡ none
  unfolding find live
  find-live-none t k [] e = refl
  find-live-none t k (m ∷ ns) e = ground (arith, find-live-none t k ns)

  find-live_over :
      (t : ℕ) (k : K) (ns : List (Node K V)) (n : Node K V)
      → Distinct dec ns
      → find dec k ns ≡ some n
      → n.expiration < t
      → find dec k (live t ns) ≡ none
  unfolding find live
  find-live_over t k [] n d e h = absurd (ground arith)
  find-live_over t k (m ∷ ns) n d e h =
      ground (arith, find-live_over t k ns n d.1, find-live-none t k ns)

  -- A hit moves the expiration of the node by the node's own `ttl`, so a `Put` with another `ttl` for
  -- a key that is there counts only until the next `Get`: that one goes back to the first `ttl`.
  pub get-put_first_ttl :
      (zero_value : V) (c : Cache K V) (k : K) (n : Node K V) (x : V) (ttl : ℤ)
      (now check refresh t : ℕ)
      → IsValid dec c
      → c.refresh_ttl ≡ true
      → find dec k c.ring ≡ some n
      → check < add_duration now ttl
      → t ≤ add_duration refresh n.ttl
      → find dec k (get dec zero_value k (steady check refresh t) (put dec k x ttl now c)).0.ring
        ≡ some (record { key = k; value = x; ttl = n.ttl; expiration = add_duration refresh n.ttl })
  unfolding read touch kept_ttl
  get-put_first_ttl zero_value c k n x ttl now check refresh t v hr e hit fits =
      let w = put-IsValid dec c k x ttl now v in
      let found = find-put c k x ttl now v in
      let moved =
        find-read_hit zero_value _ k _ (steady check refresh t) w
          (put-refresh_ttl c k x ttl now ∙ hr) found hit in
      let kept : kept_ttl k ttl c ≡ n.ttl = rw (e, kept_ttl) in
      rw ((get-evicts zero_value _ k check refresh t w).0, ← kept)
        (find-live t k _ _ moved (rw kept fits))

  -- Without the refresh, a `Get` whose clock passes the expiration between its check and its sweep
  -- returns the value and evicts the same node.
  get_evicts_hit :
      (zero_value : V) (c : Cache K V) (k : K) (n : Node K V) (check refresh t : ℕ)
      → IsValid dec c
      → c.refresh_ttl ≡ false
      → find dec k c.ring ≡ some n
      → check < n.expiration
      → n.expiration < t
      → ((get dec zero_value k (steady check refresh t) c).1 ≡ n.value)
        × (find dec k (get dec zero_value k (steady check refresh t) c).0.ring ≡ none)
  unfolding value_at
  get_evicts_hit zero_value c k n check refresh t v hr e hit over = (
    get-value_at zero_value c k (steady check refresh t) v ∙ rw (e, value_at, lt→ltb _ _ hit),
    rw
        (
          (get-evicts zero_value c k check refresh t v).0,
          read_hit zero_value c k n (steady check refresh t) v hr e hit,
        )
        (find-live_over t k c.ring n v.distinct e over),
  )
