-- ===== src/Limiter/Runs.antt =====
-- sync/limiter.go: any schedule of executions over a limiter.
use mathlib.Core.Path.{subst}
use mathlib.Core.Option.{some-injective}
use rudder_go_kit.Prelude.{
  ℕ, ◌≤◌, ◌<◌, ◌≡◌, ◌≢◌, refl, sym, ap, ◌∙◌, Bool, true, List, [], ◌∷◌, Option, none, some, arith,
  All,
}
use rudder_go_kit.Prelude.Positions.{get_at, bit, count, get-set_at_self}
use rudder_go_kit.Limiter.{
  Item, Heap, idle, granted, working, ended, Execution, Limiter, set_phase, finish, begin, receive,
  tick, stop,
}
use rudder_go_kit.Limiter.Phases.{
  KeepsItems, is_waiting, waits_at, holders, has, IsValid, set_phase-get, IsValid-set_phase,
}
use rudder_go_kit.Limiter.{less, new_limiter, end_execution, sleep, wake}
use rudder_go_kit.Limiter.Slots.{popped_waits}
use rudder_go_kit.Limiter.Steps.{
  begin-IsValid, receive-IsValid, tick-IsValid, stop-IsValid, wake-IsValid,
}

-- What one goroutine or the clock does; `begins` and `wakes` carry the limit that `wait` loads and the
-- time stamp of its item.
pub data Event : Type 0 where
  begins : ℕ → ℕ → ℕ → Event
  receives ticks ends sleeps : ℕ → Event
  wakes : ℕ → ℕ → ℕ → Event

-- The limits that are loaded are not 0, and they lie between two bounds.
abbrev pub Within : ℕ → ℕ → Event → Type 0
Within low top (begins limit now p) = (0 < limit) × (low ≤ limit) × (limit ≤ top)
Within low top (wakes limit now i) = (0 < limit) × (low ≤ limit) × (limit ≤ top)
Within low top _ = Unit

module _ (heap : Heap) where
  unfoldable pub step : Event → Limiter → Option Limiter
  step (begins limit now p) l = begin heap limit now p l
  step (receives i) l = some (receive heap i l)
  step (ticks i) l = some (tick heap i l)
  step (ends i) l = some (end_execution heap i l)
  step (sleeps i) l = some (sleep heap i l)
  step (wakes limit now i) l = wake heap limit now i l

  -- `none` if some `wait` panics.
  unfoldable pub run_events : List Event → Limiter → Option Limiter
  run_events [] l = some l
  run_events (ev ∷ evs) l = elim (step ev l) [ none ↦ none | some m ↦ run_events evs m ]

pub new_limiter-IsValid :
    {Ordered : List Item → Type 0} (low top : ℕ) (dynamic : Bool)
    → Ordered []
    → IsValid Ordered 0 low top (new_limiter dynamic)
unfolding new_limiter holders get_at count
new_limiter-IsValid low top dynamic o = record {
  slots = refl;
  queued = λ x. refl;
  bounded = omega arith;
  ordered = o;
  full = λ n. absurd (n refl);
}

module _ {Ordered : List Item → Type 0} (heap : Heap) (keeps : KeepsItems heap Ordered)
    (low top : ℕ) where
  step-IsValid :
      (ev : Event) (l : Limiter)
      → Within low top ev
      → IsValid Ordered 0 low top l
      → (m : Limiter) × (step heap ev l ≡ some m) × IsValid Ordered 0 low top m
  unfolding step end_execution sleep
  step-IsValid (begins limit now p) l (pos, lo, hi) v =
      begin-IsValid heap keeps low top limit now pos lo hi p l v
  step-IsValid (receives i) l w v = (_, refl, receive-IsValid heap keeps low top i l v)
  step-IsValid (ticks i) l w v = (_, refl, tick-IsValid heap keeps low top i l v)
  step-IsValid (ends i) l w v = (_, refl, stop-IsValid heap keeps low top ended i l v refl refl)
  step-IsValid (sleeps i) l w v = (_, refl, stop-IsValid heap keeps low top idle i l v refl refl)
  step-IsValid (wakes limit now i) l (pos, lo, hi) v =
      wake-IsValid heap keeps low top limit now pos lo hi i l v

  -- From a valid state no schedule of executions panics as long as the limits that are loaded are not
  -- 0, and after it the state is valid: the count is the number of executions that hold a slot and at
  -- most the greatest limit, exactly the waiting executions are queued, each once, the queue is in
  -- order, and there are waiters only while at least as many slots are taken as the least limit.
  pub run_events-IsValid :
      (evs : List Event) (l : Limiter)
      → All (Within low top) evs
      → IsValid Ordered 0 low top l
      → (m : Limiter) × (run_events heap evs l ≡ some m) × IsValid Ordered 0 low top m
  unfolding run_events
  run_events-IsValid [] l w v = (l, refl, v)
  run_events-IsValid (ev ∷ evs) l w v =
      let (m, e, u) = step-IsValid ev l w.0 v in
      let (n, f, x) = run_events-IsValid evs m w.1 u in (n, rw (e, run_events) f, x)

waiter_full_valid :
    {Ordered : List Item → Type 0}
    → (limit i : ℕ) (l : Limiter) → IsValid Ordered 0 limit limit l
    → waits_at i l.executions ≡ true
    → holders l.executions ≡ limit
unfolding count
waiter_full_valid limit i l v w =
    let queued : l.wait_list ≢ [] =
      λ e. absurd (ground (arith, v.queued i ∙ ap bit w, ap (count (has i)) e)) in
    omega (arith, v.slots, v.bounded, v.full queued)

-- Over a heap that keeps its items, from a new limiter and with one limit, not 0, that never changes:
-- after any schedule, whenever an execution waits, exactly as many executions as the limit hold a
-- slot. So no slot is lost while somebody waits, however executions end, sleep and wake.
pub waiter_full :
    {Ordered : List Item → Type 0} (heap : Heap)
    → KeepsItems heap Ordered
    → (limit : ℕ) (dynamic : Bool) (evs : List Event) (l : Limiter) (i : ℕ)
    → All (Within limit limit) evs
    → run_events heap evs (new_limiter dynamic) ≡ some l
    → waits_at i l.executions ≡ true
    → holders l.executions ≡ limit
waiter_full {Ordered = Ordered} heap keeps limit dynamic evs l i within reached w =
    let start = new_limiter-IsValid {Ordered = Ordered} limit limit dynamic keeps.new_ordered in
    let (m, e, v) =
      run_events-IsValid heap keeps limit limit evs (new_limiter dynamic) within start in
    waiter_full_valid limit i l
      (subst (IsValid Ordered 0 limit limit) (some-injective m l (sym e ∙ reached)) v) w

-- When, in a valid state, an execution that works ends and others wait, the item that `heap.Pop` gives
-- leaves the queue, the execution of its channel is granted the slot, and no item that stays has a
-- higher priority, or an equal one and an earlier time stamp.
pub end_hands_over :
    {Ordered : List Item → Type 0} (heap : Heap)
    → KeepsItems heap Ordered
    → (low top i : ℕ) (e : Execution) (w : Item) (ws : List Item) (l : Limiter)
    → IsValid Ordered 0 low top l
    → get_at i l.executions ≡ some e
    → e.phase ≡ working
    → l.wait_list ≡ w ∷ ws
    → ((end_execution heap i l).wait_list ≡ (heap.pop w ws).1)
      × ((x : Execution) × (get_at (heap.pop w ws).0.value (end_execution heap i l).executions
            ≡ some x)
          × (x.phase ≡ granted))
      × All (λ x. less (heap.pop w ws).0 x ≡ true) (heap.pop w ws).1
unfolding end_execution stop finish
end_hands_over {Ordered = Ordered} heap keeps low top i e w ws l v g ph listed =
    let next = (heap.pop w ws).0.value in
    let u = IsValid-set_phase 0 1 low top i ended e l v g (ap is_waiting ph) (ground (arith, ph)) in
    let (x, h, _) = popped_waits heap keeps w ws _ (λ y.
      subst (λ ws. count (has y) ws ≡ bit (waits_at y (set_phase i ended l.executions))) listed
        (u.queued y)) in
    (
      rw (g, ph, stop, listed, finish) refl,
      (
        record x { phase = granted },
        rw (g, ph, stop, listed, finish)
            (rw (set_phase-get next granted x (set_phase i ended l.executions) h)
              (get-set_at_self next _ x _ h)),
        refl,
      ),
      keeps.pop_first w ws (subst Ordered listed v.ordered),
    )
