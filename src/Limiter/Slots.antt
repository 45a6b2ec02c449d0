-- ===== src/Limiter/Slots.antt =====
-- sync/limiter.go: `wait` and `end` keep the count of the slots and the queue of the waiters.
use mathlib.Core.Path.{subst}
use rudder_go_kit.Prelude.{
  ℕ, ◌+◌, ◌-◌, ◌≤◌, ◌<◌, ◌≡◌, refl, sym, ap, ◌∙◌, inl, inr, true, false, List, [], ◌∷◌, some, ◌==◌,
  arith, ℕ_discrete, Bool-cases, Option-cases, ltb,
}
use rudder_go_kit.Prelude.Positions.{get_at, bit, count}
use rudder_go_kit.Limiter.{
  Item, Heap, Phase, idle, waiting, granted, working, ended, Execution, Limiter, set_phase, enqueue,
  wait, finish,
}
use rudder_go_kit.Limiter.Phases.{
  KeepsItems, is_waiting, waits, waits_at, has, IsValid, holders-set_phase, waits_at-set_phase_self,
  waits_at-set_phase_ne, waits_at-set_phase,
}

-- A free slot is taken.
take-IsValid :
    {Ordered : List Item → Type 0}
    → (low top limit i : ℕ) (e : Execution) (l : Limiter) → IsValid Ordered 0 low top l
    → get_at i l.executions ≡ some e
    → e.phase ≡ idle
    → l.count < limit
    → limit ≤ top
    → IsValid Ordered 0 low top
        (record l { count = l.count + 1; executions = set_phase i working l.executions })
take-IsValid low top limit i e l v g ph free hi = record {
  slots = ground (arith, v.slots, ph, holders-set_phase i working e l.executions g);
  queued = λ x.
      v.queued x
      ∙ ap bit (sym (waits_at-set_phase i x working e l.executions g (ap is_waiting ph)));
  bounded = omega arith;
  ordered = v.ordered;
  full = λ n. omega (arith, v.full n);
}

-- With no free slot an item is queued.
enqueue-IsValid :
    {Ordered : List Item → Type 0}
    → (heap : Heap) → KeepsItems heap Ordered
    → (low top limit now i p : ℕ) (e : Execution) (l : Limiter) → IsValid Ordered 0 low top l
    → get_at i l.executions ≡ some e
    → e.phase ≡ idle
    → limit ≤ l.count
    → low ≤ limit
    → IsValid Ordered 0 low top (record l {
      wait_list = enqueue heap now i p l.wait_list;
      executions = set_phase i waiting l.executions;
    })
unfolding enqueue
enqueue-IsValid heap keeps low top limit now i p e l v g ph busy lo =
    let w : Item = record { value = i; priority = p; time_stamp = now } in
    record {
      slots = ground (arith, v.slots, ph, holders-set_phase i waiting e l.executions g);
      queued = λ x. elim (ℕ_discrete x i) [
        | yes k ↦
            rw (k, waits_at-set_phase_self i waiting e l.executions g)
              (ground (
                arith,
                keeps.push_keeps w l.wait_list (has i),
                v.queued i,
                ap waits g,
                ap is_waiting ph,
              ))
        | no n ↦
            rw (waits_at-set_phase_ne i x waiting e l.executions g n)
              (ground (arith, keeps.push_keeps w l.wait_list (has x), v.queued x))
      ];
      bounded = v.bounded;
      ordered = keeps.push_ordered w l.wait_list v.ordered;
      full = λ n. omega arith;
    }

-- `wait` of an execution that is idle keeps the invariant, if the limit is not 0.
pub wait-IsValid :
    {Ordered : List Item → Type 0}
    → (heap : Heap) → KeepsItems heap Ordered
    → (low top limit now i p : ℕ) (e : Execution) (l : Limiter) → IsValid Ordered 0 low top l
    → get_at i l.executions ≡ some e
    → e.phase ≡ idle
    → 0 < limit
    → low ≤ limit
    → limit ≤ top
    → (m : Limiter) × (wait heap limit now i p l ≡ some m) × IsValid Ordered 0 low top m
unfolding wait
wait-IsValid heap keeps low top limit now i p e l v g ph pos lo hi =
    let nz : (limit == 0) ≡ false = ground arith in
    elim (Bool-cases (ltb l.count limit)) [
      | inl free ↦
          (_, rw (nz, free) refl, take-IsValid low top limit i e l v g ph (ground arith) hi)
      | inr busy ↦ (
        _,
        rw (nz, busy) refl,
        enqueue-IsValid heap keeps low top limit now i p e l v g ph (ground arith) lo,
      )
    ]

waiting_cases : (ph : Phase) → is_waiting ph ≡ true → ph ≡ waiting
waiting_cases idle h = absurd (ground arith)
waiting_cases waiting h = refl
waiting_cases granted h = absurd (ground arith)
waiting_cases working h = absurd (ground arith)
waiting_cases ended h = absurd (ground arith)

-- Whoever is popped waits.
pub popped_waits :
    {Ordered : List Item → Type 0}
    → (heap : Heap) → KeepsItems heap Ordered
    → (w : Item) (ws : List Item) (xs : List Execution)
    → ((v : ℕ) → count (has v) (w ∷ ws) ≡ bit (waits_at v xs))
    → (e : Execution) × (get_at (heap.pop w ws).0.value xs ≡ some e) × (e.phase ≡ waiting)
popped_waits heap keeps w ws xs queued =
    let next = (heap.pop w ws).0.value in
    let there : waits_at next xs ≡ true =
      ground (arith, keeps.pop_keeps w ws (has next), queued next) in
    elim (Option-cases (get_at next xs)) [
      | inl e ↦ absurd (ground (arith, there, ap waits e))
      | inr (e, g) ↦ (e, g, waiting_cases e.phase (sym (ap waits g) ∙ there))
    ]

-- The slot that is given back goes to the waiter that is popped.
hand_over-IsValid :
    {Ordered : List Item → Type 0}
    → (heap : Heap) → KeepsItems heap Ordered
    → (low top : ℕ) (w : Item) (ws : List Item) (l : Limiter) → IsValid Ordered 1 low top l
    → l.wait_list ≡ w ∷ ws
    → IsValid Ordered 0 low top (record l {
      count = (l.count - 1) + 1;
      wait_list = (heap.pop w ws).1;
      executions = set_phase (heap.pop w ws).0.value granted l.executions;
    })
hand_over-IsValid {Ordered = Ordered} heap keeps low top w ws l v listed =
    let queued : (x : ℕ) → count (has x) (w ∷ ws) ≡ bit (waits_at x l.executions) =
      λ x. subst (λ ws. count (has x) ws ≡ bit (waits_at x l.executions)) listed (v.queued x) in
    let (e, g, ph) = popped_waits heap keeps w ws l.executions queued in
    let next = (heap.pop w ws).0.value in
    record {
      slots = ground (arith, v.slots, ph, holders-set_phase next granted e l.executions g);
      queued = λ x. elim (ℕ_discrete x next) [
        | yes k ↦
            rw (k, waits_at-set_phase_self next granted e l.executions g)
              (ground
                (arith, keeps.pop_keeps w ws (has next), queued next, ap waits g, ap is_waiting ph))
        | no n ↦
            rw (waits_at-set_phase_ne next x granted e l.executions g n)
              (ground (arith, keeps.pop_keeps w ws (has x), queued x))
      ];
      bounded = omega (arith, v.slots, v.bounded);
      ordered = keeps.pop_ordered w ws (subst Ordered listed v.ordered);
      full = λ n.
          omega (arith, v.slots, v.full (λ none_left. absurd (ground (arith, listed, none_left))));
    }

-- `end` gives one slot back or hands it to the waiter that it pops.
pub finish-IsValid :
    {Ordered : List Item → Type 0}
    → (heap : Heap) → KeepsItems heap Ordered
    → (low top : ℕ) (l : Limiter) → IsValid Ordered 1 low top l
    → IsValid Ordered 0 low top (finish heap l)
unfolding finish
finish-IsValid {Ordered = Ordered} heap keeps low top l v = go l.wait_list refl
  where
    go : (ws : List Item) → l.wait_list ≡ ws → IsValid Ordered 0 low top (finish heap l)
    go [] e =
        rw (e, finish)
          record {
            slots = omega (arith, v.slots);
            queued = λ x. v.queued x;
            bounded = omega (arith, v.bounded);
            ordered = v.ordered;
            full = λ n. absurd (n e);
          }
    go (w ∷ ws) e = rw (e, finish) (hand_over-IsValid heap keeps low top w ws l v e)
