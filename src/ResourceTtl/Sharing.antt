-- ===== src/ResourceTtl/Sharing.antt =====
-- resourcettl/cache.go: what a checkout hands out, and what the last checkin leaves behind.
use rudder_go_kit.Prelude.{
  ℕ, ◌≡◌, refl, ap, ◌∙◌, ◌≢◌, inl, inr, false, List, [], ◌∷◌, Option, none, some, ◌==◌, ==_iff,
  ℕ_discrete, arith, Bool-cases, All,
}
use rudder_go_kit.Prelude.Int.{pos}
use rudder_go_kit.Prelude.Maps.{lookup, lookup-insert_self, lookup-delete_self, lookup-delete_ne}
use mathlib.Core.Option
use rudder_go_kit.CacheTtl
use rudder_go_kit.CacheTtl.{Readings, Node}
use rudder_go_kit.ResourceTtl.{
  Cache, Checkin, decrement, resource_of, on_evicted, on_evicted_all, ttl_get, hand_out,
  new_resource, checkout, release, checkin,
}

module _ {K R : Type 0} (dec : Discrete K) (zero_resource : R) where
  -- The function of a checkout works once: the second call changes nothing.
  checkin_twice :
      (h : Checkin R) (c : Cache K R)
      → let r = checkin dec zero_resource h c in checkin dec zero_resource r.1 r.0 ≡ r
  unfolding checkin
  checkin_twice h c = ground arith

  resource_of-on_evicted_ne :
      (i id : ℕ) (c : Cache K R)
      → i ≢ id
      → resource_of dec zero_resource (on_evicted dec zero_resource i c) id
        ≡ resource_of dec zero_resource c id
  unfolding resource_of on_evicted
  resource_of-on_evicted_ne i id c h = ground (arith, lookup-delete_ne ℕ_discrete i id c.resources)

  resource_of-on_evicted_all :
      (evicted : List (K × ℕ)) (id : ℕ) (c : Cache K R)
      → All (λ e. e.1 ≢ id) evicted
      → resource_of dec zero_resource (on_evicted_all dec zero_resource evicted c) id
        ≡ resource_of dec zero_resource c id
  unfolding on_evicted_all
  resource_of-on_evicted_all [] id c h = refl
  resource_of-on_evicted_all ((k, i) ∷ evicted) id c h =
      resource_of-on_evicted_all evicted id (on_evicted dec zero_resource i c) h.1
      ∙ resource_of-on_evicted_ne i id c h.0

  -- A checkout of a key that the ttl cache knows hands out the stored resource, without a call of the
  -- caller's function, as long as the `Get` does not evict its ID.
  pub checkout_shares :
      (key : K) (created : Option R) (fresh : ℕ) (r : Readings) (now : ℕ) (c : Cache K R)
      → let got = CacheTtl.get dec 0 key r c.ttlcache in
        got.1 ≢ 0
        → All (λ e. e.1 ≢ got.1) got.2
        → (checkout dec zero_resource key created fresh r now c).1
          ≡ some (record {
            resource = resource_of dec zero_resource c got.1;
            id = got.1;
            done = false;
          })
  unfolding checkout ttl_get hand_out resource_of CacheTtl.get
  checkout_shares key created fresh r now c there kept =
      let got = CacheTtl.get dec 0 key r c.ttlcache in
      let same = resource_of-on_evicted_all got.2 got.1 (record c { ttlcache = got.0 }) kept in
      elim (Bool-cases (got.1 == 0)) [
        | inl e ↦ absurd (there ((==_iff _ _).0 e))
        | inr e ↦ rw (e, same)
      ]

  -- A checkout of a new key returns what the caller's function made, or nothing if that failed.
  checkout_creates :
      (key : K) (created : Option R) (fresh : ℕ) (r : Readings) (now : ℕ) (c : Cache K R)
      → (CacheTtl.get dec 0 key r c.ttlcache).1 ≡ 0
      → (checkout dec zero_resource key created fresh r now c).1
        ≡ Option.map (λ x. record { resource = x; id = fresh; done = false }) created
  unfolding checkout ttl_get new_resource hand_out
  checkout_creates key none fresh r now c absent = rw absent
  checkout_creates key (some x) fresh r now c absent = rw absent

  -- The last checkin of a resource that has expired cleans it up, and leaves its entries in
  -- `resources` and in `checkouts`, the latter at 0; an eviction with no checkouts deletes both.
  release_keeps_entries :
      (x : R) (id : ℕ) (c : Cache K R)
      → lookup ℕ_discrete id c.expiries ≡ some tt
      → lookup ℕ_discrete id c.resources ≡ some x
      → lookup ℕ_discrete id c.checkouts ≡ some (pos 1)
      → let c' = release dec zero_resource x id c in
        (c'.cleaned ≡ (id, x) ∷ c.cleaned)
        × (lookup ℕ_discrete id c'.resources ≡ some x)
        × (lookup ℕ_discrete id c'.checkouts ≡ some (pos 0))
  unfolding release decrement
  release_keeps_entries x id c expired stored counted =
      ground (arith, lookup-insert_self ℕ_discrete id (pos 0) c.checkouts)

  ttl_get_evicts :
      (key : K) (x : R) (r : Readings) (c : Cache K R)
      → let got = CacheTtl.get dec 0 key r c.ttlcache in
        got.2 ≡ (key, got.1) ∷ []
        → lookup ℕ_discrete got.1 c.resources ≡ some x
        → lookup ℕ_discrete got.1 c.checkouts ≡ some (pos 0)
        → let s = ttl_get dec zero_resource key r c in
          (resource_of dec zero_resource s.0 got.1 ≡ zero_resource)
          × (s.0.cleaned ≡ (got.1, x) ∷ c.cleaned)
  unfolding ttl_get on_evicted_all on_evicted resource_of
  ttl_get_evicts key x r c gone stored idle =
      let got = CacheTtl.get dec 0 key r c.ttlcache in
      rw (gone, idle, on_evicted)
        (
          rw (lookup-delete_self ℕ_discrete got.1 c.resources, resource_of),
          rw (stored, resource_of),
        )

  -- If the `Get` of a checkout evicts the ID that it returns, an idle resource is cleaned up and the
  -- checkout hands out the zero value in its place (`CacheTtl.Reads.get_evicts_hit` is such a `Get`).
  checkout_cleaned :
      (key : K) (x : R) (created : Option R) (fresh now : ℕ) (r : Readings) (c : Cache K R)
      → let got = CacheTtl.get dec 0 key r c.ttlcache in
        got.1 ≢ 0
        → got.2 ≡ (key, got.1) ∷ []
        → lookup ℕ_discrete got.1 c.resources ≡ some x
        → lookup ℕ_discrete got.1 c.checkouts ≡ some (pos 0)
        → let s = checkout dec zero_resource key created fresh r now c in
          (s.1 ≡ some (record { resource = zero_resource; id = got.1; done = false }))
          × (s.0.cleaned ≡ (got.1, x) ∷ c.cleaned)
  unfolding checkout ttl_get hand_out
  checkout_cleaned key x created fresh now r c there gone stored idle =
      let got = CacheTtl.get dec 0 key r c.ttlcache in
      let evicted = ttl_get_evicts key x r c gone stored idle in
      elim (Bool-cases (got.1 == 0)) [
        | inl e ↦ absurd (there ((==_iff _ _).0 e))
        | inr e ↦ rw e (
          ap (λ z. some (record { resource = z; id = got.1; done = false })) evicted.0,
          evicted.1,
        )
      ]
