-- ===== src/ResourceTtl.antt =====
-- resourcettl/cache.go: resources that are shared between checkouts and cleaned up after their ttl.
-- A resource ID is a number, 0 for the empty string; `uuid.NewString` is a parameter of `checkout`.
-- A call runs as one step: two calls for one key exclude each other by `keyMu`, and the maps change
-- under `mu`. `cleaned` records the calls of `go c.cleanup(r)`, each with the ID of its resource.

pub mod Counts
pub mod Safety
pub mod Sharing
mod Tests
use rudder_go_kit.Prelude.{
  ℕ, zero, suc, ◌+◌, Bool, true, false, List, [], ◌∷◌, Option, none, some, if◌then◌else◌, ◌==◌,
  ℕ_discrete,
}
use rudder_go_kit.Prelude.Int.{ℤ, pos, negsuc}
use rudder_go_kit.Prelude.Maps.{lookup, insert, delete}
use rudder_go_kit.CacheTtl
use rudder_go_kit.CacheTtl.{Readings}

-- `n++` and `n--` on an `int`.
unfoldable pub increment : ℤ → ℤ
increment (pos n) = pos (suc n)
increment (negsuc zero) = pos zero
increment (negsuc (suc n)) = negsuc n

unfoldable pub decrement : ℤ → ℤ
decrement (pos zero) = negsuc zero
decrement (pos (suc n)) = pos n
decrement (negsuc n) = negsuc (suc n)

pub record Cache (K R : Type 0) : Type 0 where
  pub resources : List (ℕ × R)
  pub checkouts : List (ℕ × ℤ)
  pub expiries : List (ℕ × Unit {0})
  pub ttl : ℤ
  pub ttlcache : CacheTtl.Cache K ℕ
  pub cleaned : List (ℕ × R)

-- The function that `checkinFunc` returns, and whether its `once` is done.
pub record Checkin (R : Type 0) : Type 0 where
  pub resource : R
  pub id : ℕ
  pub done : Bool

unfoldable pub new_cache : {K R : Type 0} → ℤ → Bool → Cache K R
unfolding CacheTtl.new
new_cache ttl refresh_ttl = record {
  resources = [];
  checkouts = [];
  expiries = [];
  ttl = ttl;
  ttlcache = CacheTtl.new refresh_ttl;
  cleaned = [];
}

-- `c.checkouts[id]`: the zero value where the key is missing.
unfoldable pub count : List (ℕ × ℤ) → ℕ → ℤ
count m id = elim (lookup ℕ_discrete id m) [ none ↦ pos 0 | some n ↦ n ]

unfoldable pub set_count : {K R : Type 0} → ℕ → ℤ → Cache K R → Cache K R
set_count id n c = record c { checkouts = insert ℕ_discrete id n c.checkouts }

unfoldable pub cleanup : {K R : Type 0} → ℕ → R → Cache K R → Cache K R
cleanup id r c = record c { cleaned = (id, r) ∷ c.cleaned }

abbrev pub is_zero : ℤ → Bool
is_zero (pos zero) = true
is_zero (pos (suc n)) = false
is_zero (negsuc n) = false

module _ {K R : Type 0} (dec : Discrete K) (zero_resource : R) where
  -- `c.resources[id]`
  unfoldable pub resource_of : Cache K R → ℕ → R
  resource_of c id = elim (lookup ℕ_discrete id c.resources) [ none ↦ zero_resource | some r ↦ r ]

  unfoldable pub on_evicted : ℕ → Cache K R → Cache K R
  unfolding cleanup
  on_evicted id c = elim (lookup ℕ_discrete id c.checkouts) [
    | none ↦ c
    | some n ↦
        if is_zero n
        then cleanup id (resource_of c id) (record c {
          resources = delete ℕ_discrete id c.resources;
          checkouts = delete ℕ_discrete id c.checkouts;
        })
        else record c { expiries = insert ℕ_discrete id tt c.expiries }
  ]

  -- The calls of the callback that a `Get` of the ttl cache makes.
  unfoldable pub on_evicted_all : List (K × ℕ) → Cache K R → Cache K R
  on_evicted_all [] c = c
  on_evicted_all ((k, id) ∷ evicted) c = on_evicted_all evicted (on_evicted id c)

  -- `c.ttlcache.Get(key)`
  unfoldable pub ttl_get : K → Readings → Cache K R → Cache K R × ℕ
  ttl_get key r c =
      let (ttlcache, id, evicted) = CacheTtl.get dec 0 key r c.ttlcache in
      (on_evicted_all evicted (record c { ttlcache = ttlcache }), id)

  -- `c.checkouts[id]++` and `c.checkinFunc(r, id)`
  unfoldable pub hand_out : R → ℕ → Cache K R → Cache K R × Checkin R
  unfolding count set_count
  hand_out r id c = (
    set_count id (increment (count c.checkouts id)) c,
    record { resource = r; id = id; done = false },
  )

  -- `newResource`, where `created` is what the caller's function returns (`none` is its error).
  unfoldable pub new_resource : K → Option R → ℕ → ℕ → Cache K R → Cache K R × Option (Checkin R)
  new_resource key none fresh now c = (c, none)
  new_resource key (some r) fresh now c =
      let (c', checkin) =
        hand_out r fresh (record c { resources = insert ℕ_discrete fresh r c.resources }) in
      (record c' { ttlcache = CacheTtl.put dec key fresh c.ttl now c'.ttlcache }, some checkin)

  unfoldable pub checkout :
      K → Option R → ℕ → Readings → ℕ → Cache K R → Cache K R × Option (Checkin R)
  checkout key created fresh r now c =
      let (c', id) = ttl_get key r c in
      if id == 0
      then new_resource key created fresh now c'
      else let (c'', checkin) = hand_out (resource_of c' id) id c' in (c'', some checkin)

  unfoldable pub invalidate : K → Readings → ℕ → Cache K R → Cache K R
  invalidate key r now c =
      let (c', id) = ttl_get key r c in
      if id == 0
      then c'
      else on_evicted id
          (record c' { ttlcache = CacheTtl.put dec key 0 (negsuc 0) now c'.ttlcache })

  -- What the returned function does, the first time.
  unfoldable pub release : R → ℕ → Cache K R → Cache K R
  unfolding count set_count cleanup
  release r id c =
      let c' = set_count id (decrement (count c.checkouts id)) c in
      elim (lookup ℕ_discrete id c'.expiries) [
        | none ↦ c'
        | some _ ↦
            if is_zero (count c'.checkouts id)
            then cleanup id r (record c' { expiries = delete ℕ_discrete id c'.expiries })
            else c'
      ]

  unfoldable pub checkin : Checkin R → Cache K R → Cache K R × Checkin R
  checkin h c = if h.done then (c, h) else (release h.resource h.id c, record h { done = true })
