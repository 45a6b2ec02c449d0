-- ===== src/Limiter/Phases.antt =====
-- sync/limiter.go: who waits and who holds a slot, and how a change of phase changes it.
use rudder_go_kit.Prelude.{
  ℕ, ◌+◌, ◌≤◌, ◌≡◌, ◌≢◌, refl, sym, ap, ◌∙◌, Bool, true, false, List, [], ◌∷◌, Option, none, some,
  ◌==◌, arith, All, ℕ_discrete,
}
use rudder_go_kit.Prelude.Positions.{
  get_at, set_at, bit, count, count-set_at, get-set_at_self, get-set_at_ne,
}
use rudder_go_kit.Limiter.{
  Item, Heap, Phase, waiting, granted, working, Execution, Limiter, set_phase, less,
}

-- What container/heap promises: no item is lost or made up, and it keeps the queue `Ordered`, in which
-- case `heap.Pop` gives an item that comes before all that stay. `heap.Fix` repairs a queue in which
-- one item was changed.
pub record KeepsItems (heap : Heap) (Ordered : List Item → Type 0) : Type 0 where
  pub push_keeps :
      (x : Item) (ws : List Item) (test : Item → Bool)
      → count test (heap.push x ws) ≡ bit (test x) + count test ws
  pub pop_keeps :
      (w : Item) (ws : List Item) (test : Item → Bool)
      → count test (w ∷ ws) ≡ bit (test (heap.pop w ws).0) + count test (heap.pop w ws).1
  pub fix_keeps :
      (j : ℕ) (ws : List Item) (test : Item → Bool) → count test (heap.fix j ws) ≡ count test ws
  pub new_ordered : Ordered []
  pub push_ordered : (x : Item) (ws : List Item) → Ordered ws → Ordered (heap.push x ws)
  pub pop_ordered : (w : Item) (ws : List Item) → Ordered (w ∷ ws) → Ordered (heap.pop w ws).1
  pub fix_ordered :
      (j : ℕ) (w : Item) (ws : List Item) → Ordered ws → Ordered (heap.fix j (set_at j w ws))
  pub pop_first :
      (w : Item) (ws : List Item)
      → Ordered (w ∷ ws)
      → All (λ x. less (heap.pop w ws).0 x ≡ true) (heap.pop w ws).1

abbrev pub is_waiting : Phase → Bool
is_waiting waiting = true
is_waiting _ = false

-- An execution has its slot from the pop of its item on.
abbrev pub holds_slot : Phase → Bool
holds_slot granted = true
holds_slot working = true
holds_slot _ = false

abbrev pub waits : Option Execution → Bool
waits none = false
waits (some e) = is_waiting e.phase

abbrev pub waits_at : ℕ → List Execution → Bool
waits_at v xs = waits (get_at v xs)

unfoldable pub holders : List Execution → ℕ
holders xs = count (λ e. holds_slot e.phase) xs

abbrev pub has : ℕ → Item → Bool
has v w = w.value == v

-- `extra` slots are about to be given back; the limits that `wait` loads are between `low` and `top`.
pub record IsValid (Ordered : List Item → Type 0) (extra low top : ℕ) (l : Limiter) : Type 0 where
  pub slots : l.count ≡ extra + holders l.executions
  pub queued : (v : ℕ) → count (has v) l.wait_list ≡ bit (waits_at v l.executions)
  pub bounded : l.count ≤ top
  pub ordered : Ordered l.wait_list
  pub full : l.wait_list ≢ [] → low ≤ l.count

pub set_phase-get :
    (i : ℕ) (ph : Phase) (e : Execution) (xs : List Execution)
    → get_at i xs ≡ some e
    → set_phase i ph xs ≡ set_at i (record e { phase = ph }) xs
unfolding set_phase
set_phase-get i ph e xs g = rw (g, set_phase) refl

pub holders-set_phase :
    (i : ℕ) (ph : Phase) (e : Execution) (xs : List Execution)
    → get_at i xs ≡ some e
    → holders (set_phase i ph xs) + bit (holds_slot e.phase) ≡ holders xs + bit (holds_slot ph)
unfolding holders
holders-set_phase i ph e xs g =
    rw (set_phase-get i ph e xs g) (count-set_at _ i (record e { phase = ph }) e xs g)

pub waits_at-set_phase_self :
    (i : ℕ) (ph : Phase) (e : Execution) (xs : List Execution)
    → get_at i xs ≡ some e
    → waits_at i (set_phase i ph xs) ≡ is_waiting ph
waits_at-set_phase_self i ph e xs g =
    rw (set_phase-get i ph e xs g) (ap waits (get-set_at_self i _ e xs g))

pub waits_at-set_phase_ne :
    (i v : ℕ) (ph : Phase) (e : Execution) (xs : List Execution)
    → get_at i xs ≡ some e
    → v ≢ i
    → waits_at v (set_phase i ph xs) ≡ waits_at v xs
waits_at-set_phase_ne i v ph e xs g n =
    rw (set_phase-get i ph e xs g) (ap waits (get-set_at_ne i v _ xs n))

-- A phase that waits as much as the one before changes no waiter.
pub waits_at-set_phase :
    (i v : ℕ) (ph : Phase) (e : Execution) (xs : List Execution)
    → get_at i xs ≡ some e
    → is_waiting e.phase ≡ is_waiting ph
    → waits_at v (set_phase i ph xs) ≡ waits_at v xs
waits_at-set_phase i v ph e xs g same = elim (ℕ_discrete v i) [
  | yes k ↦ rw (k, waits_at-set_phase_self i ph e xs g) (sym same ∙ sym (ap waits g))
  | no n ↦ waits_at-set_phase_ne i v ph e xs g n
]

-- A change of the phases that keeps who waits and how many slots are held.
pub IsValid-set_phase :
    {Ordered : List Item → Type 0}
    → (extra extra' low top i : ℕ) (ph : Phase) (e : Execution) (l : Limiter)
    → IsValid Ordered extra low top l
    → get_at i l.executions ≡ some e
    → is_waiting e.phase ≡ is_waiting ph
    → extra' + bit (holds_slot ph) ≡ extra + bit (holds_slot e.phase)
    → IsValid Ordered extra' low top (record l { executions = set_phase i ph l.executions })
IsValid-set_phase extra extra' low top i ph e l v g same slots = record {
  slots = omega (arith, v.slots, holders-set_phase i ph e l.executions g);
  queued = λ x. v.queued x ∙ ap bit (sym (waits_at-set_phase i x ph e l.executions g same));
  bounded = v.bounded;
  ordered = v.ordered;
  full = v.full;
}
