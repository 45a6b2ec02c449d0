-- ===== src/Limiter/Tests.antt =====
-- sync/limiter.go at concrete inputs, over a queue that is searched for its first item.
use rudder_go_kit.Prelude.{
  ◌+◌, ◌≡◌, ◌<◌, ◌≤◌, refl, inl, inr, Bool, true, false, List, [], ◌∷◌, Option, none, some,
  if◌then◌else◌, arith, All, All-map, Bool-cases,
}
use rudder_go_kit.Prelude.Positions.{get_at, set_at, bit, count}
use rudder_go_kit.Limiter.{
  Item, less, Heap, waiting, granted, ended, Limiter, new_limiter, set_phase, index_of, enqueue,
  update, wait, finish, begin, receive, bump, tick, stop, end_execution, sleep, wake,
}
use rudder_go_kit.Limiter.Phases.{KeepsItems, holders, IsValid}
use rudder_go_kit.Limiter.Runs.{
  Event, begins, ticks, Within, step, run_events, new_limiter-IsValid, run_events-IsValid,
  waiter_full,
}

less_trans : (a b c : Item) → less a b ≡ true → less b c ≡ true → less a c ≡ true
unfolding less
less_trans a b c h k = ground arith

less_total : (a b : Item) → less a b ≡ false → less b a ≡ true
unfolding less
less_total a b h = ground arith

-- The first item of a queue and the others.
unfoldable select : Item → List Item → Item × List Item
select w [] = (w, [])
select w (x ∷ ws) = let (m, rest) = select x ws in if less w m then (w, m ∷ rest) else (m, w ∷ rest)

select_keeps :
    (w : Item) (ws : List Item) (test : Item → Bool)
    → count test (w ∷ ws) ≡ bit (test (select w ws).0) + count test (select w ws).1
unfolding select count
select_keeps w [] test = refl
select_keeps w (x ∷ ws) test = elim (Bool-cases (less w (select x ws).0)) [
  | inl h ↦ rw h (omega (arith, select_keeps x ws test))
  | inr h ↦ rw h (omega (arith, select_keeps x ws test))
]

select_first :
    (w : Item) (ws : List Item) → All (λ x. less (select w ws).0 x ≡ true) (select w ws).1
unfolding select
select_first w [] = tt
select_first w (x ∷ ws) = elim (Bool-cases (less w (select x ws).0)) [
  | inl h ↦ rw h (
    h,
    All-map _ _ (select x ws).1 (λ z k. less_trans w (select x ws).0 z h k) (select_first x ws),
  )
  | inr h ↦ rw h (less_total w (select x ws).0 h, select_first x ws)
]

abbrev list_heap : Heap
list_heap = record { push = λ x ws. x ∷ ws; pop = select; fix = λ j ws. ws }

abbrev AnyOrder : List Item → Type 0
AnyOrder ws = Unit

list_heap-keeps : KeepsItems list_heap AnyOrder
unfolding count
list_heap-keeps = record {
  push_keeps = λ x ws test. refl;
  pop_keeps = select_keeps;
  fix_keeps = λ j ws test. refl;
  new_ordered = tt;
  push_ordered = λ x ws o. tt;
  pop_ordered = λ w ws o. tt;
  fix_ordered = λ j w ws o. tt;
  pop_first = λ w ws o. select_first w ws;
}

program : Unit {0}
unfolding new_limiter set_phase index_of less enqueue update wait finish begin receive bump tick
    stop end_execution sleep wake step run_events get_at set_at count select holders
program = tt

state_of : Option Limiter → Limiter
state_of none = new_limiter true
state_of (some l) = l

-- One slot: the first execution works, the second and the third wait, and the ticker of the second
-- fires twice.
abbrev two_wait : List Event
two_wait = begins 1 10 1 ∷ begins 1 20 1 ∷ begins 1 30 2 ∷ ticks 1 ∷ ticks 1 ∷ []

abbrev crowded : Limiter
crowded = state_of (run_events list_heap two_wait (new_limiter true))

abbrev second : Item
second = record { value = 1; priority = 3; time_stamp = 20 }

abbrev third : Item
third = record { value = 2; priority = 2; time_stamp = 30 }

crowded_queue : crowded.wait_list ≡ third ∷ second ∷ []
unfolding program state_of
crowded_queue = refl

next_is_second :
    (end_execution list_heap 0 crowded).executions
    ≡ record { p = 1; phase = ended }
      ∷ record { p = 1; phase = granted }
      ∷ record { p = 2; phase = waiting }
      ∷ []
unfolding program state_of
next_is_second = refl

two_wait-Within : All (Within 1 1) two_wait
two_wait-Within =
    let one : (0 < 1) × (1 ≤ 1) × (1 ≤ 1) = (omega arith, omega arith, omega arith) in
    (one, (one, (one, (tt, (tt, tt)))))

run_events-IsValid_example :
    (m : Limiter) × (run_events list_heap two_wait (new_limiter true) ≡ some m)
    × IsValid AnyOrder 0 1 1 m
run_events-IsValid_example =
    run_events-IsValid list_heap list_heap-keeps 1 1 two_wait (new_limiter true) two_wait-Within
      (new_limiter-IsValid 1 1 true tt)

crowded_reached : run_events list_heap two_wait (new_limiter true) ≡ some crowded
unfolding program state_of
crowded_reached = refl

waiter_full_example : holders crowded.executions ≡ 1
unfolding program state_of
waiter_full_example =
    waiter_full list_heap list_heap-keeps 1 true two_wait crowded 1 two_wait-Within crowded_reached
      refl
