-- ===== src/ResourceTtl/Counts.antt =====
-- resourcettl/cache.go: the counters of `checkouts` against the checkins that are still to come.
use rudder_go_kit.Prelude.{
  ℕ, zero, suc, ◌+◌, ◌≡◌, refl, ◌∙◌, inl, inr, List, [], ◌∷◌, Option, none, some, if◌then◌else◌,
  ◌==◌, ℕ_discrete, arith, Bool-cases,
}
use rudder_go_kit.Prelude.Int.{pos}
use rudder_go_kit.Prelude.Maps.{
  insert, lookup-insert_self, lookup-insert_ne, lookup-delete_self, lookup-delete_ne,
}
use rudder_go_kit.CacheTtl.{Readings}
use rudder_go_kit.ResourceTtl.{
  Cache, Checkin, increment, decrement, count, on_evicted, on_evicted_all, ttl_get, hand_out,
  resource_of, new_resource, checkout, invalidate, release, checkin,
}

-- The checkins of an ID that have not run.
unfoldable pub pending : {R : Type 0} → ℕ → List (Checkin R) → ℕ
pending id [] = 0
pending id (h ∷ hs) =
    if h.id == id then (if h.done then pending id hs else suc (pending id hs)) else pending id hs

-- A cache with the functions that its checkouts returned, the latest first.
pub record System (K R : Type 0) : Type 0 where
  pub cache : Cache K R
  pub handles : List (Checkin R)

pub data Call (K R : Type 0) : Type 0 where
  checkouts : K → Option R → ℕ → Readings → ℕ → Call K R
  checkins : ℕ → Call K R
  invalidates : K → Readings → ℕ → Call K R

-- Every counter is the number of pending checkins.
abbrev pub Counted : {K R : Type 0} → System K R → Type 0
Counted s = (id : ℕ) → count s.cache.checkouts id ≡ pos (pending id s.handles)

module _ {K R : Type 0} (dec : Discrete K) (zero_resource : R) where
  -- The call of the `i`-th function.
  unfoldable pub checkin_at : ℕ → List (Checkin R) → Cache K R → Cache K R × List (Checkin R)
  checkin_at i [] c = (c, [])
  checkin_at zero (h ∷ hs) c = let (c', h') = checkin dec zero_resource h c in (c', h' ∷ hs)
  checkin_at (suc i) (h ∷ hs) c = let (c', hs') = checkin_at i hs c in (c', h ∷ hs')

  abbrev add_handle : List (Checkin R) → Option (Checkin R) → List (Checkin R)
  add_handle hs none = hs
  add_handle hs (some h) = h ∷ hs

  unfoldable pub step : Call K R → System K R → System K R
  step (checkouts key created fresh r now) s =
      let (c, h) = checkout dec zero_resource key created fresh r now s.cache in
      record { cache = c; handles = add_handle s.handles h }
  step (checkins i) s =
      let (c, hs) = checkin_at i s.handles s.cache in record { cache = c; handles = hs }
  step (invalidates key r now) s = record s {
    cache = invalidate dec zero_resource key r now s.cache;
  }

  unfoldable pub run : List (Call K R) → System K R → System K R
  run [] s = s
  run (call ∷ calls) s = run calls (step call s)

  pub count-on_evicted :
      (i : ℕ) (c : Cache K R) (id : ℕ)
      → count (on_evicted dec zero_resource i c).checkouts id ≡ count c.checkouts id
  unfolding on_evicted count
  count-on_evicted i c id = ground (
    arith,
    lookup-delete_self ℕ_discrete i c.checkouts,
    lookup-delete_ne ℕ_discrete i id c.checkouts,
  )

  count-on_evicted_all :
      (evicted : List (K × ℕ)) (c : Cache K R) (id : ℕ)
      → count (on_evicted_all dec zero_resource evicted c).checkouts id ≡ count c.checkouts id
  unfolding on_evicted_all
  count-on_evicted_all [] c id = refl
  count-on_evicted_all ((k, i) ∷ evicted) c id =
      count-on_evicted_all evicted (on_evicted dec zero_resource i c) id ∙ count-on_evicted i c id

  -- A `Get` of the ttl cache changes no counter, evictions included.
  pub count-ttl_get :
      (key : K) (r : Readings) (c : Cache K R) (id : ℕ)
      → count (ttl_get dec zero_resource key r c).0.checkouts id ≡ count c.checkouts id
  unfolding ttl_get
  count-ttl_get key r c id = count-on_evicted_all _ _ id

  count-hand_out :
      (x : R) (i : ℕ) (c : Cache K R) (id : ℕ)
      → count (hand_out dec zero_resource x i c).0.checkouts id
        ≡ (if i == id then increment (count c.checkouts id) else count c.checkouts id)
  unfolding hand_out
  count-hand_out x i c id = ground (
    arith,
    lookup-insert_self ℕ_discrete i (increment (count c.checkouts i)) c.checkouts,
    lookup-insert_ne ℕ_discrete i id (increment (count c.checkouts i)) c.checkouts,
  )

  count-release :
      (x : R) (i : ℕ) (c : Cache K R) (id : ℕ)
      → count (release dec zero_resource x i c).checkouts id
        ≡ (if i == id then decrement (count c.checkouts id) else count c.checkouts id)
  unfolding release
  count-release x i c id = ground (
    arith,
    lookup-insert_self ℕ_discrete i (decrement (count c.checkouts i)) c.checkouts,
    lookup-insert_ne ℕ_discrete i id (decrement (count c.checkouts i)) c.checkouts,
  )

  counted-hand_out :
      (x : R) (i : ℕ) (c : Cache K R) (hs : List (Checkin R)) (id : ℕ)
      → count c.checkouts id ≡ pos (pending id hs)
      → let r = hand_out dec zero_resource x i c in
        count r.0.checkouts id ≡ pos (pending id (r.1 ∷ hs))
  unfolding hand_out pending increment
  counted-hand_out x i c hs id e = ground (arith, count-hand_out x i c id)

  count-new_resource :
      (key : K) (created : Option R) (fresh now : ℕ) (c : Cache K R) (hs : List (Checkin R))
      (id : ℕ)
      → count c.checkouts id ≡ pos (pending id hs)
      → let r = new_resource dec zero_resource key created fresh now c in
        count r.0.checkouts id ≡ pos (pending id (add_handle hs r.1))
  unfolding new_resource
  count-new_resource key none fresh now c hs id e = e
  count-new_resource key (some x) fresh now c hs id e =
      let c' = record c { resources = insert ℕ_discrete fresh x c.resources } in
      counted-hand_out x fresh c' hs id e

  count-checkout :
      (key : K) (created : Option R) (fresh now : ℕ) (r : Readings) (c : Cache K R)
      (hs : List (Checkin R)) (id : ℕ)
      → count c.checkouts id ≡ pos (pending id hs)
      → let r = checkout dec zero_resource key created fresh r now c in
        count r.0.checkouts id ≡ pos (pending id (add_handle hs r.1))
  unfolding checkout
  count-checkout key created fresh now r c hs id e =
      let c' = (ttl_get dec zero_resource key r c).0 in
      let i = (ttl_get dec zero_resource key r c).1 in
      let e' = count-ttl_get key r c id ∙ e in
      elim (Bool-cases (i == 0)) [
        | inl none_yet ↦ rw none_yet (count-new_resource key created fresh now c' hs id e')
        | inr shared ↦
            rw shared (counted-hand_out (resource_of dec zero_resource c' i) i c' hs id e')
      ]

  count-checkin_at :
      (i : ℕ) (hs : List (Checkin R)) (c : Cache K R) (id m : ℕ)
      → count c.checkouts id ≡ pos (m + pending id hs)
      → let r = checkin_at i hs c in count r.0.checkouts id ≡ pos (m + pending id r.1)
  unfolding checkin_at checkin pending decrement
  count-checkin_at i [] c id m e = e
  count-checkin_at zero (h ∷ hs) c id m e = ground (arith, count-release h.resource h.id c id)
  count-checkin_at (suc i) (h ∷ hs) c id m e =
      ground (arith, count-checkin_at i hs c id m, count-checkin_at i hs c id (suc m))

  count-invalidate :
      (key : K) (r : Readings) (now : ℕ) (c : Cache K R) (id : ℕ)
      → count (invalidate dec zero_resource key r now c).checkouts id ≡ count c.checkouts id
  unfolding invalidate
  count-invalidate key r now c id =
      let c' = (ttl_get dec zero_resource key r c).0 in
      let i = (ttl_get dec zero_resource key r c).1 in
      elim (Bool-cases (i == 0)) [
        | inl absent ↦ rw absent (count-ttl_get key r c id)
        | inr there ↦ rw there (count-on_evicted i _ id ∙ count-ttl_get key r c id)
      ]

  -- Every call keeps each counter equal to the number of its pending checkins.
  pub step-Counted : (call : Call K R) (s : System K R) → Counted s → Counted (step call s)
  unfolding step
  step-Counted (checkouts key created fresh r now) s h =
      λ id. count-checkout key created fresh now r s.cache s.handles id (h id)
  step-Counted (checkins i) s h =
      λ id. ground (arith, count-checkin_at i s.handles s.cache id 0 (ground (arith, h id)))
  step-Counted (invalidates key r now) s h = λ id. count-invalidate key r now s.cache id ∙ h id

  -- If the counter of each ID is the number of its checkouts whose checkin is still to come, it is so
  -- after any sequence of calls, however the clock runs.
  pub run-Counted : (calls : List (Call K R)) (s : System K R) → Counted s → Counted (run calls s)
  unfolding run
  run-Counted [] s h = h
  run-Counted (call ∷ calls) s h = run-Counted calls (step call s) (step-Counted call s h)
