-- ===== src/Limiter/Steps.antt =====
-- sync/limiter.go: each step keeps the invariant.
use rudder_go_kit.Prelude.{
  ℕ, ◌+◌, ◌≤◌, ◌<◌, ◌≡◌, refl, sym, ap, ◌∙◌, inl, inr, false, not, ◌&&◌, List, [], ◌∷◌, ◌++◌, some,
  ◌==◌, arith, length, ℕ_discrete, Bool-cases, Option-cases, ltb,
}
use rudder_go_kit.Prelude.Positions.{
  get_at, bit, count, count-set_at, get-append_last, get-append_ne, get-past, count-append_last,
}
use rudder_go_kit.Limiter.{
  Item, Heap, Phase, idle, waiting, granted, working, ended, Execution, Limiter, begin, receive,
  update, bump, tick, index_of, stop,
}
use rudder_go_kit.Limiter.Phases.{
  KeepsItems, is_waiting, holds_slot, waits, holders, has, IsValid, IsValid-set_phase,
}
use rudder_go_kit.Limiter.Slots.{wait-IsValid, finish-IsValid}
use rudder_go_kit.Limiter.{high, wake}

module _ {Ordered : List Item → Type 0} (heap : Heap) (keeps : KeepsItems heap Ordered)
    (low top : ℕ) where
  receive-phase :
      (i : ℕ) (e : Execution) (ph : Phase) (l : Limiter)
      → IsValid Ordered 0 low top l
      → get_at i l.executions ≡ some e
      → e.phase ≡ ph
      → IsValid Ordered 0 low top (receive heap i l)
  unfolding receive
  receive-phase i e idle l v g h = rw (g, h, receive) v
  receive-phase i e waiting l v g h = rw (g, h, receive) v
  receive-phase i e granted l v g h =
      rw (g, h, receive)
        (IsValid-set_phase 0 0 low top i working e l v g (ap is_waiting h) (ground (arith, h)))
  receive-phase i e working l v g h = rw (g, h, receive) v
  receive-phase i e ended l v g h = rw (g, h, receive) v

  pub receive-IsValid :
      (i : ℕ) (l : Limiter)
      → IsValid Ordered 0 low top l
      → IsValid Ordered 0 low top (receive heap i l)
  unfolding receive
  receive-IsValid i l v = elim (Option-cases (get_at i l.executions)) [
    | inl g ↦ rw (g, receive) v
    | inr (e, g) ↦ receive-phase i e e.phase l v g refl
  ]

  stop-phase :
      (to : Phase) (i : ℕ) (e : Execution) (ph : Phase) (l : Limiter)
      → IsValid Ordered 0 low top l
      → is_waiting to ≡ false
      → holds_slot to ≡ false
      → get_at i l.executions ≡ some e
      → e.phase ≡ ph
      → IsValid Ordered 0 low top (stop heap to i l)
  unfolding stop
  stop-phase to i e idle l v r s g h = rw (g, h, stop) v
  stop-phase to i e waiting l v r s g h = rw (g, h, stop) v
  stop-phase to i e granted l v r s g h = rw (g, h, stop) v
  stop-phase to i e working l v r s g h =
      rw (g, h, stop)
        (finish-IsValid heap keeps low top _ (
          IsValid-set_phase 0 1 low top i to e l v g (ap is_waiting h ∙ sym r)
            (ground (arith, h, s))))
  stop-phase to i e ended l v r s g h = rw (g, h, stop) v

  pub stop-IsValid :
      (to : Phase) (i : ℕ) (l : Limiter)
      → IsValid Ordered 0 low top l
      → is_waiting to ≡ false
      → holds_slot to ≡ false
      → IsValid Ordered 0 low top (stop heap to i l)
  unfolding stop
  stop-IsValid to i l v r s = elim (Option-cases (get_at i l.executions)) [
    | inl g ↦ rw (g, stop) v
    | inr (e, g) ↦ stop-phase to i e e.phase l v r s g refl
  ]

  -- A new priority moves items about, and keeps which channels wait.
  update-has :
      (x j p : ℕ) (w : Item) (ws : List Item)
      → get_at j ws ≡ some w
      → count (has x) (update heap j p ws) ≡ count (has x) ws
  unfolding update
  update-has x j p w ws g =
      rw (g, update)
        (keeps.fix_keeps j _ (has x)
          ∙ ground (arith, count-set_at (has x) j (record w { priority = p }) w ws g))

  update-ordered :
      (j p : ℕ) (w : Item) (ws : List Item)
      → get_at j ws ≡ some w
      → Ordered ws
      → Ordered (update heap j p ws)
  unfolding update
  update-ordered j p w ws g o =
      rw (g, update) (keeps.fix_ordered j (record w { priority = p }) ws o)

  update-IsValid :
      (j p : ℕ) (w : Item) (l : Limiter)
      → IsValid Ordered 0 low top l
      → get_at j l.wait_list ≡ some w
      → IsValid Ordered 0 low top (record l { wait_list = update heap j p l.wait_list })
  unfolding get_at
  update-IsValid j p w l v g = record {
    slots = v.slots;
    queued = λ x. update-has x j p w l.wait_list g ∙ v.queued x;
    bounded = v.bounded;
    ordered = update-ordered j p w l.wait_list g v.ordered;
    full = λ n. v.full (λ e. absurd (ground (arith, sym g ∙ ap (get_at j) e)));
  }

  bump-IsValid :
      (i : ℕ) (l : Limiter)
      → IsValid Ordered 0 low top l
      → IsValid Ordered 0 low top (bump heap i l)
  unfolding bump
  bump-IsValid i l v = elim (Option-cases (index_of i l.wait_list)) [
    | inl e ↦ rw (e, bump) v
    | inr (j, e) ↦ elim (Option-cases (get_at j l.wait_list)) [
      | inl g ↦ rw (e, g, bump) v
      | inr (w, g) ↦ elim (Bool-cases (ltb w.priority high)) [
        | inl h ↦ rw (e, g, h, bump) (update-IsValid j (w.priority + 1) w l v g)
        | inr h ↦ rw (e, g, h, bump) v
      ]
    ]
  ]

  pub tick-IsValid :
      (i : ℕ) (l : Limiter)
      → IsValid Ordered 0 low top l
      → IsValid Ordered 0 low top (tick heap i l)
  unfolding tick
  tick-IsValid i l v = elim (Option-cases (get_at i l.executions)) [
    | inl g ↦ rw (g, tick) v
    | inr (e, g) ↦ elim (Bool-cases (l.dynamic && not (e.p == high))) [
      | inl h ↦ rw (g, h, tick) (bump-IsValid i l v)
      | inr h ↦ rw (g, h, tick) v
    ]
  ]

  -- A new execution is idle.
  append-IsValid :
      (p : ℕ) (l : Limiter)
      → IsValid Ordered 0 low top l
      → IsValid Ordered 0 low top
          (record l { executions = l.executions ++ record { p = p; phase = idle } ∷ [] })
  unfolding holders
  append-IsValid p l v =
      let new : Execution = record { p = p; phase = idle } in
      record {
        slots =
            ground (arith, v.slots, count-append_last (λ e. holds_slot e.phase) new l.executions);
        queued = λ x. elim (ℕ_discrete x (length l.executions)) [
          | yes k ↦
              v.queued x
              ∙ ap bit (
                  rw k (
                    ap waits (get-past l.executions)
                    ∙ sym (ap waits (get-append_last new l.executions))))
          | no n ↦ v.queued x ∙ ap bit (sym (ap waits (get-append_ne new x l.executions n)))
        ];
        bounded = v.bounded;
        ordered = v.ordered;
        full = v.full;
      }

  module _ (limit now : ℕ) (pos : 0 < limit) (lo : low ≤ limit) (hi : limit ≤ top) where
    pub begin-IsValid :
        (p : ℕ) (l : Limiter)
        → IsValid Ordered 0 low top l
        → (m : Limiter) × (begin heap limit now p l ≡ some m) × IsValid Ordered 0 low top m
    unfolding begin
    begin-IsValid p l v =
        wait-IsValid heap keeps low top limit now (length l.executions) p
          (record { p = p; phase = idle }) _ (append-IsValid p l v) (get-append_last _ l.executions)
          refl pos lo hi

    wake-phase :
        (i : ℕ) (e : Execution) (ph : Phase) (l : Limiter)
        → IsValid Ordered 0 low top l
        → get_at i l.executions ≡ some e
        → e.phase ≡ ph
        → (m : Limiter) × (wake heap limit now i l ≡ some m) × IsValid Ordered 0 low top m
    unfolding wake
    wake-phase i e idle l v g h =
        rw (g, h, wake) (wait-IsValid heap keeps low top limit now i e.p e l v g h pos lo hi)
    wake-phase i e waiting l v g h = (l, rw (g, h, wake) refl, v)
    wake-phase i e granted l v g h = (l, rw (g, h, wake) refl, v)
    wake-phase i e working l v g h = (l, rw (g, h, wake) refl, v)
    wake-phase i e ended l v g h = (l, rw (g, h, wake) refl, v)

    pub wake-IsValid :
        (i : ℕ) (l : Limiter)
        → IsValid Ordered 0 low top l
        → (m : Limiter) × (wake heap limit now i l ≡ some m) × IsValid Ordered 0 low top m
    unfolding wake
    wake-IsValid i l v = elim (Option-cases (get_at i l.executions)) [
      | inl g ↦ (l, rw (g, wake) refl, v)
      | inr (e, g) ↦ wake-phase i e e.phase l v g refl
    ]
