-- ===== src/CacheTtl.antt =====
-- cachettl/cachettl.go: a cache whose nodes stand in a ring by ascending expiration.
-- The ring is the list of its nodes from `root.next` to `root.prev`; a node is found in it by its
-- key, since the map `m` holds one node for each key (`CacheTtl.Invariant`). `index` is the key set
-- of `m`. Times are nanoseconds after Go's zero time, the expiration of `root`; the clock is not
-- before it.
pub mod Order
pub mod Keys
pub mod Invariant
pub mod Heap
pub mod Reads
mod Tests
use rudder_go_kit.Prelude.{
  ℕ, suc, ◌+◌, ◌-◌, Bool, true, false, List, [], ◌∷◌, map, Option, none, some, ite, leb, ltb,
  if◌then◌else◌,
}
use rudder_go_kit.Prelude.Int.{ℤ, pos, negsuc}
use mathlib.Core.List.{reverse}

-- `t.Add(d)`: a time before the zero time is the zero time here.
unfoldable pub add_duration : ℕ → ℤ → ℕ
add_duration t (pos d) = t + d
add_duration t (negsuc d) = t - suc d

pub record Node (K V : Type 0) : Type 0 where
  pub key : K
  pub value : V
  pub ttl : ℤ
  pub expiration : ℕ

pub record Cache (K V : Type 0) : Type 0 where
  pub ring : List (Node K V)
  pub index : List K
  pub refresh_ttl : Bool

-- What the calls of `config.now` answer during one `Get`: at the test of the node, at its refresh,
-- and in each round of the deferred loop.
pub record Readings : Type 0 where
  pub check : ℕ
  pub refresh : ℕ
  pub sweep : ℕ → ℕ

unfoldable pub new : {K V : Type 0} → Bool → Cache K V
new refresh_ttl = record { ring = []; index = []; refresh_ttl = refresh_ttl }

module _ {K V : Type 0} where
  -- `add` from the tail: the list is the ring from its tail to its head, and the node goes behind
  -- (here: before) the first one that expires no later, or next to the root.
  unfoldable pub add_back : Node K V → List (Node K V) → List (Node K V)
  add_back n [] = n ∷ []
  add_back n (cn ∷ rest) =
      if leb cn.expiration n.expiration then n ∷ cn ∷ rest else cn ∷ add_back n rest

  -- The deferred loop of `Get`, from the head: what stays, and what is evicted, in order.
  unfoldable pub sweep : (ℕ → ℕ) → ℕ → List (Node K V) → List (Node K V) × List (Node K V)
  sweep now i [] = ([], [])
  sweep now i (cn ∷ rest) =
      let (kept, gone) = sweep now (suc i) rest in
      if ltb cn.expiration (now i) then (kept, cn ∷ gone) else (cn ∷ rest, [])

  -- `add`: the loop starts at `root.prev`.
  unfoldable pub add : Node K V → List (Node K V) → List (Node K V)
  add n ring = reverse (add_back n (reverse ring))

module _ {K : Type 0} (dec : Discrete K) where
  unfoldable pub contains : K → List K → Bool
  contains k [] = false
  contains k (j ∷ js) = ite (dec j k) true (contains k js)

  -- `delete(m, key)`
  unfoldable pub delete : K → List K → List K
  delete k [] = []
  delete k (j ∷ js) = ite (dec j k) (delete k js) (j ∷ delete k js)

module _ {K V : Type 0} (dec : Discrete K) where
  unfoldable pub find : K → List (Node K V) → Option (Node K V)
  find k [] = none
  find k (n ∷ ns) = ite (dec n.key k) (some n) (find k ns)

  -- `n.remove()`, for the node of a key.
  unfoldable pub remove : K → List (Node K V) → List (Node K V)
  remove k [] = []
  remove k (n ∷ ns) = ite (dec n.key k) ns (n ∷ remove k ns)

  -- `n, ok := c.m[key]`
  unfoldable pub node_of : Cache K V → K → Option (Node K V)
  node_of c k = if contains dec k c.index then find k c.ring else none

  unfoldable pub delete_all : List (Node K V) → List K → List K
  delete_all [] index = index
  delete_all (n ∷ ns) index = delete_all ns (delete dec n.key index)

  -- The deferred function of `Get`: the cache without its expired nodes, and the calls of
  -- `onEvicted`.
  unfoldable pub cleanup : (ℕ → ℕ) → Cache K V → Cache K V × List (K × V)
  cleanup now c =
      let (kept, gone) = sweep now 0 c.ring in
      (record c { ring = kept; index = delete_all gone c.index }, map (λ n. (n.key, n.value)) gone)

  -- `n.remove()`, a new expiration, `c.add(n)`.
  unfoldable pub touch : ℕ → Node K V → Cache K V → Cache K V
  touch now n c =
      if c.refresh_ttl
      then record c {
        ring = add (record n { expiration = add_duration now n.ttl }) (remove n.key c.ring);
      }
      else c

  -- The body of `Get` before its deferred function, and the value that it returns.
  unfoldable pub read : V → K → Readings → Cache K V → Cache K V × V
  read zero_value k r c = elim (node_of c k) [
    | none ↦ (c, zero_value)
    | some n ↦ if ltb r.check n.expiration then (touch r.refresh n c, n.value) else (c, zero_value)
  ]

  -- `Get`: the new cache, the value, and the calls of `onEvicted`.
  unfoldable pub get : V → K → Readings → Cache K V → Cache K V × V × List (K × V)
  get zero_value k r c =
      let (c', v) = read zero_value k r c in
      let (c'', evicted) = cleanup r.sweep c' in (c'', v, evicted)

  -- `Put`, at the time `now`. A node that is there keeps its `ttl`.
  unfoldable pub put : K → V → ℤ → ℕ → Cache K V → Cache K V
  put k v ttl now c = elim (node_of c k) [
    | none ↦ record c {
      ring =
          add (record { key = k; value = v; ttl = ttl; expiration = add_duration now ttl }) c.ring;
      index = k ∷ c.index;
    }
    | some n ↦ record c {
      ring = add (record n { value = v; expiration = add_duration now ttl }) (remove k c.ring);
    }
  ]

  -- `slice`
  unfoldable pub slice : Cache K V → List V
  slice c = map (λ n. n.value) c.ring
