-- ===== src/EagerGroup/Limit.antt =====
-- sync/eagergroup.go: no more functions run at once than the limit of the group.
use rudder_go_kit.Prelude.{
  ℕ, suc, ◌<◌, ◌≤◌, ◌≡◌, refl, ap, ◌∙◌, Bool, true, false, List, [], ◌∷◌, ◌++◌, Option, none, some,
  ◌==◌, ltb, ltb→lt, if◌then◌else◌, arith,
}
use rudder_go_kit.Prelude.Int.{ℤ}
use rudder_go_kit.Prelude.Positions.{get_at, bit, count, count-set_at, count-append_last}
use rudder_go_kit.EagerGroup.{
  Phase, waiting, refused, started, running, releasing, ended, returned, Group, Event, call,
  acquire, give_up, test_context, return, record_error, release, cancel_parent, limit_of,
  new_eager_group, set_phase, set_error, record_result, go_with, go, acquire_at, give_up_with,
  give_up_at, test_context_with, test_context_at, return_at, record_at, release_at, step, run,
  is_active,
}
use rudder_go_kit.EagerGroup.Once.{at_task-cases}

-- The channel of a group with a limit has an element for each goroutine.
record Within {E : Type 0} (limit : ℕ) (g : Group E) : Type 0 where
  pub same_limit : g.limit ≡ limit
  pub counted : g.used ≡ count is_active g.tasks
  pub bounded : g.used ≤ limit

unfoldable pub is_running : {E : Type 0} → Phase E → Bool
is_running running = true
is_running _ = false

module _ {E : Type 0} where
  running_le-active : (ps : List (Phase E)) → count is_running ps ≤ count is_active ps
  unfolding count is_running
  running_le-active [] = omega arith
  running_le-active (running ∷ ps) = omega (arith, running_le-active ps)
  running_le-active (waiting ∷ ps) = omega (arith, running_le-active ps)
  running_le-active (refused ∷ ps) = omega (arith, running_le-active ps)
  running_le-active (started ∷ ps) = omega (arith, running_le-active ps)
  running_le-active (releasing ∷ ps) = omega (arith, running_le-active ps)
  running_le-active (ended ∷ ps) = omega (arith, running_le-active ps)
  running_le-active (returned r ∷ ps) = omega (arith, running_le-active ps)

module _ {E : Type 0} (canceled : E) (n : ℕ) (positive : 0 < n) where
  Within-if :
      (b : Bool) (g h : Group E)
      → (b ≡ true → Within n g)
      → (b ≡ false → Within n h)
      → Within n (if b then g else h)
  Within-if true g h k l = k refl
  Within-if false g h k l = l refl

  -- A task moves to a phase with as much of a goroutine.
  Within-set_phase :
      (i : ℕ) (p q : Phase E) (g : Group E)
      → is_active p ≡ is_active q
      → get_at i g.tasks ≡ some p
      → Within n g
      → Within n (set_phase i q g)
  Within-set_phase i p q g same at v = record {
    same_limit = v.same_limit;
    counted =
        let moved = count-set_at is_active i q p g.tasks at in
        let bits : bit (is_active p) ≡ bit (is_active q) = ap bit same in
        omega (arith, v.counted, moved, bits);
    bounded = v.bounded;
  }

  Within-set_error : (e : E) (g : Group E) → Within n g → Within n (set_error canceled e g)
  unfolding set_error
  Within-set_error e g v =
      Within-if g.once g _ (λ h. v)
        (λ h. record { same_limit = v.same_limit; counted = v.counted; bounded = v.bounded })

  tasks-if : (b : Bool) (g h : Group E) → h.tasks ≡ g.tasks → (if b then g else h).tasks ≡ g.tasks
  tasks-if true g h e = refl
  tasks-if false g h e = e

  tasks-set_error : (e : E) (g : Group E) → (set_error canceled e g).tasks ≡ g.tasks
  unfolding set_error
  tasks-set_error e g = tasks-if g.once g _ refl

  -- A task moves while an error is recorded.
  Within-set_error_phase :
      (e : E) (i : ℕ) (p q : Phase E) (g : Group E)
      → is_active p ≡ is_active q
      → get_at i g.tasks ≡ some p
      → Within n g
      → Within n (set_phase i q (set_error canceled e g))
  Within-set_error_phase e i p q g same at v =
      Within-set_phase i p q (set_error canceled e g) same
        (ap (get_at i) (tasks-set_error e g) ∙ at) (Within-set_error e g v)

  Within-append :
      (p : Phase E) (g : Group E)
      → is_active p ≡ false
      → Within n g
      → Within n (record g { tasks = g.tasks ++ p ∷ [] })
  Within-append p g idle v = record {
    same_limit = v.same_limit;
    counted =
        let more = count-append_last is_active p g.tasks in
        let none_more : bit (is_active p) ≡ 0 = ap bit idle in
        omega (arith, v.counted, more, none_more);
    bounded = v.bounded;
  }

  Within-go_with : (o : Option E) (g : Group E) → Within n g → Within n (go_with canceled o g)
  unfolding go_with
  Within-go_with none g v =
      let limited : (g.limit == 0) ≡ false = ground (arith, v.same_limit, positive) in
      Within-append (if g.limit == 0 then started else waiting) g
        (ap (λ (b : Bool). is_active {E = E} (if b then started else waiting)) limited) v
  Within-go_with (some e) g v =
      Within-append refused (set_error canceled e g) refl (Within-set_error e g v)

  Within-acquire :
      (i : ℕ) (p : Phase E) (g : Group E)
      → get_at i g.tasks ≡ some p
      → Within n g
      → Within n (acquire_at canceled i p g)
  unfolding acquire_at
  Within-acquire i waiting g at v =
      Within-if (ltb g.used g.limit) _ g
        (λ h. record {
          same_limit = v.same_limit;
          counted = omega (arith, v.counted, count-set_at is_active i started waiting g.tasks at);
          bounded = omega (arith, ltb→lt g.used g.limit h, v.same_limit);
        })
        (λ h. v)
  Within-acquire i _ g at v = v

  Within-release :
      (i : ℕ) (p : Phase E) (g : Group E)
      → get_at i g.tasks ≡ some p
      → Within n g
      → Within n (release_at canceled i p g)
  unfolding release_at
  Within-release i releasing g at v =
      Within-if (g.limit == 0) _ _ (λ h. absurd (ground (arith, h, v.same_limit, positive)))
        (λ h. record {
          same_limit = v.same_limit;
          counted = omega (arith, v.counted, count-set_at is_active i ended releasing g.tasks at);
          bounded = omega (arith, v.bounded);
        })
  Within-release i _ g at v = v

  Within-give_up_with :
      (o : Option E) (i : ℕ) (g : Group E)
      → get_at i g.tasks ≡ some waiting
      → Within n g
      → Within n (give_up_with canceled o i g)
  unfolding give_up_with
  Within-give_up_with none i g at v = v
  Within-give_up_with (some e) i g at v = Within-set_error_phase e i waiting refused g refl at v

  Within-give_up :
      (i : ℕ) (p : Phase E) (g : Group E)
      → get_at i g.tasks ≡ some p
      → Within n g
      → Within n (give_up_at canceled i p g)
  unfolding give_up_at
  Within-give_up i waiting g at v = Within-give_up_with g.ctx_err i g at v
  Within-give_up i _ g at v = v

  Within-test_context_with :
      (o : Option E) (i : ℕ) (g : Group E)
      → get_at i g.tasks ≡ some started
      → Within n g
      → Within n (test_context_with canceled o i g)
  unfolding test_context_with
  Within-test_context_with none i g at v =
      Within-set_phase i started running (record g { calls = suc g.calls }) refl at
        (record { same_limit = v.same_limit; counted = v.counted; bounded = v.bounded })
  Within-test_context_with (some e) i g at v =
      Within-set_phase i started (returned (some e)) g refl at v

  Within-test_context :
      (i : ℕ) (p : Phase E) (g : Group E)
      → get_at i g.tasks ≡ some p
      → Within n g
      → Within n (test_context_at canceled i p g)
  unfolding test_context_at
  Within-test_context i started g at v = Within-test_context_with g.ctx_err i g at v
  Within-test_context i _ g at v = v

  Within-return :
      (i : ℕ) (r : Option E) (p : Phase E) (g : Group E)
      → get_at i g.tasks ≡ some p
      → Within n g
      → Within n (return_at canceled i r p g)
  unfolding return_at
  Within-return i r running g at v = Within-set_phase i running (returned r) g refl at v
  Within-return i r _ g at v = v

  Within-record :
      (i : ℕ) (p : Phase E) (g : Group E)
      → get_at i g.tasks ≡ some p
      → Within n g
      → Within n (record_at canceled i p g)
  unfolding record_at record_result
  Within-record i (returned none) g at v = Within-set_phase i (returned none) releasing g refl at v
  Within-record i (returned (some e)) g at v =
      Within-set_error_phase e i (returned (some e)) releasing g refl at v
  Within-record i _ g at v = v

  step-Within : (e : Event E) (g : Group E) → Within n g → Within n (step canceled e g)
  unfolding step go
  step-Within call g v = Within-go_with g.ctx_err g v
  step-Within (acquire i) g v =
      at_task-cases canceled (Within n) i _ g v (λ p at. Within-acquire i p g at v)
  step-Within (give_up i) g v =
      at_task-cases canceled (Within n) i _ g v (λ p at. Within-give_up i p g at v)
  step-Within (test_context i) g v =
      at_task-cases canceled (Within n) i _ g v (λ p at. Within-test_context i p g at v)
  step-Within (return i r) g v =
      at_task-cases canceled (Within n) i _ g v (λ p at. Within-return i r p g at v)
  step-Within (record_error i) g v =
      at_task-cases canceled (Within n) i _ g v (λ p at. Within-record i p g at v)
  step-Within (release i) g v =
      at_task-cases canceled (Within n) i _ g v (λ p at. Within-release i p g at v)
  step-Within (cancel_parent d) g v = record {
    same_limit = v.same_limit;
    counted = v.counted;
    bounded = v.bounded;
  }

  run-Within : (es : List (Event E)) (g : Group E) → Within n g → Within n (run canceled es g)
  unfolding run
  run-Within [] g v = v
  run-Within (e ∷ es) g v = run-Within es (step canceled e g) (step-Within e g v)

module _ {E : Type 0} (canceled : E) where
  -- In a group with a limit, no schedule makes more functions run at once than the limit.
  pub run-running_le :
      (ctx_err : Option E) (limit : ℤ) (es : List (Event E))
      → 0 < limit_of limit
      → count is_running (run canceled es (new_eager_group ctx_err limit)).tasks ≤ limit_of limit
  unfolding new_eager_group count
  run-running_le ctx_err limit es positive =
      let v =
        run-Within canceled (limit_of limit) positive es (new_eager_group ctx_err limit)
          (record { same_limit = refl; counted = refl; bounded = omega arith }) in
      omega (
        arith,
        running_le-active (run canceled es (new_eager_group ctx_err limit)).tasks,
        v.counted,
        v.bounded,
      )
