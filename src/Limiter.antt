-- ===== src/Limiter.antt =====
-- sync/limiter.go, with the items of queue/priorityQueue.go. An execution is known by its position in
-- `executions`, which is also the channel that its item in the wait list carries; `heap.Push`, `heap.Pop`
-- and `heap.Fix` of container/heap are the parameter `Heap`. What runs under `l.mu` is one step.
pub mod Phases
pub mod Slots
pub mod Steps
pub mod Runs
mod Tests
use rudder_go_kit.Prelude.{
  ℕ, zero, suc, ◌+◌, ◌-◌, Bool, true, false, not, ◌&&◌, List, [], ◌∷◌, ◌++◌, Option, none, some,
  if◌then◌else◌, ◌==◌, ltb, leb, length,
}
use rudder_go_kit.Prelude.Positions.{get_at, set_at}

-- `queue.Item`; its `index` is its place in the wait list, and -1 once `heap.Pop` took it out.
pub record Item : Type 0 where
  pub value : ℕ
  pub priority : ℕ
  pub time_stamp : ℕ

-- `PriorityQueue.Less`, of two items.
unfoldable pub less : Item → Item → Bool
less a b =
    if a.priority == b.priority then leb a.time_stamp b.time_stamp else ltb b.priority a.priority

-- `heap.Push`, `heap.Pop` of a queue that is not empty, by its first item and the rest, and `heap.Fix`.
pub record Heap : Type 0 where
  pub push : Item → List Item → List Item
  pub pop : Item → List Item → Item × List Item
  pub fix : ℕ → List Item → List Item

-- `LimiterPriorityValueHigh`
abbrev pub high : ℕ
high = 4

-- An execution is `idle` before its first wait and during a sleep, `waiting` while its item is in the
-- wait list, `granted` when `end` has popped its item, and `working` when it has received from its
-- channel or has not had to wait.
pub data Phase : Type 0 where
  idle waiting granted working ended : Phase

pub record Execution : Type 0 where
  pub p : ℕ
  pub phase : Phase

-- `limiter`; `dynamic` is whether `dynamicPeriod` is not 0.
pub record Limiter : Type 0 where
  pub dynamic : Bool
  pub count : ℕ
  pub wait_list : List Item
  pub executions : List Execution

unfoldable pub new_limiter : Bool → Limiter
new_limiter dynamic = record { dynamic = dynamic; count = 0; wait_list = []; executions = [] }

unfoldable pub set_phase : ℕ → Phase → List Execution → List Execution
set_phase i ph xs = elim (get_at i xs) [
  | none ↦ xs
  | some e ↦ set_at i (record e { phase = ph }) xs
]

-- The place of the item with channel `i`; `none` for -1.
unfoldable pub index_of : ℕ → List Item → Option ℕ
index_of i [] = none
index_of i (w ∷ ws) =
    let rest = index_of i ws in
    if w.value == i then some 0 else elim rest [ none ↦ none | some j ↦ some (suc j) ]

module _ (heap : Heap) where
  -- `PriorityQueue.Push` under `heap.Push`: `now` is the time stamp.
  unfoldable pub enqueue : ℕ → ℕ → ℕ → List Item → List Item
  enqueue now i p ws = heap.push (record { value = i; priority = p; time_stamp = now }) ws

  -- `PriorityQueue.Update` of the item at an index.
  unfoldable pub update : ℕ → ℕ → List Item → List Item
  update j p ws = elim (get_at j ws) [
    | none ↦ ws
    | some w ↦ heap.fix j (set_at j (record w { priority = p }) ws)
  ]

  -- `wait` up to the receive, with the limit that it loads; `none` is the panic.
  unfoldable pub wait : ℕ → ℕ → ℕ → ℕ → Limiter → Option Limiter
  wait limit now i p l =
      if limit == 0
      then none
      else if ltb l.count limit
      then some (record l { count = l.count + 1; executions = set_phase i working l.executions })
      else some (record l {
        wait_list = enqueue now i p l.wait_list;
        executions = set_phase i waiting l.executions;
      })

  -- `end`
  unfoldable pub finish : Limiter → Limiter
  finish l = elim l.wait_list [
    | [] ↦ record l { count = l.count - 1 }
    | w ∷ ws ↦
        let (next, rest) = heap.pop w ws in
        record l {
          count = (l.count - 1) + 1;
          wait_list = rest;
          executions = set_phase next.value granted l.executions;
        }
  ]

  -- `BeginWithSleepAndPriority` up to the receive.
  unfoldable pub begin : ℕ → ℕ → ℕ → Limiter → Option Limiter
  begin limit now p l =
      wait limit now (length l.executions) p
        (record l { executions = l.executions ++ record { p = p; phase = idle } ∷ [] })

  -- The receive `<-w.Value` of the execution at `i`.
  unfoldable pub receive : ℕ → Limiter → Limiter
  receive i l = elim (get_at i l.executions) [
    | none ↦ l
    | some e ↦ elim e.phase [
      | granted ↦ record l { executions = set_phase i working l.executions }
      | _ ↦ l
    ]
  ]

  -- The ticker of `wait` fires: `w.Priority` goes up by one, if `w` is still in the wait list.
  unfoldable pub bump : ℕ → Limiter → Limiter
  bump i l = elim (index_of i l.wait_list) [
    | none ↦ l
    | some j ↦ elim (get_at j l.wait_list) [
      | none ↦ l
      | some w ↦
          if ltb w.priority high
          then record l { wait_list = update j (w.priority + 1) l.wait_list }
          else l
    ]
  ]

  -- There is no ticker for a fixed or the highest priority.
  unfoldable pub tick : ℕ → Limiter → Limiter
  tick i l = elim (get_at i l.executions) [
    | none ↦ l
    | some e ↦ if l.dynamic && not (e.p == high) then bump i l else l
  ]

  -- `End` and the first part of `Sleep`: an execution that works gives its slot back. An ended one
  -- does nothing in `End`, by its `sync.Once`, and gets an error from `Sleep`.
  unfoldable pub stop : Phase → ℕ → Limiter → Limiter
  stop ph i l = elim (get_at i l.executions) [
    | none ↦ l
    | some e ↦ elim e.phase [
      | working ↦ finish (record l { executions = set_phase i ph l.executions })
      | _ ↦ l
    ]
  ]

  unfoldable pub end_execution : ℕ → Limiter → Limiter
  end_execution i l = stop ended i l

  unfoldable pub sleep : ℕ → Limiter → Limiter
  sleep i l = stop idle i l

  -- The deferred part of `Sleep`.
  unfoldable pub wake : ℕ → ℕ → ℕ → Limiter → Option Limiter
  wake limit now i l = elim (get_at i l.executions) [
    | none ↦ some l
    | some e ↦ elim e.phase [ idle ↦ wait limit now i e.p l | _ ↦ some l ]
  ]
