-- ===== src/EagerGroup.antt =====
-- sync/eagergroup.go. A call of `Go`, and the goroutine that it starts, is known by its position in
-- `tasks`; a schedule is a list of steps of any of them, and what cannot happen leaves the state as it
-- is. `limit` 0 stands for no semaphore. The functions that are given to `Go`, the context that the
-- group is derived from, and its errors are parameters.
pub mod Once
pub mod Limit
mod Tests
use rudder_go_kit.Prelude.{
  ℕ, zero, suc, ◌-◌, ◌+◌, Bool, true, false, List, [], ◌∷◌, ◌++◌, Option, none, some, ◌==◌, ltb,
  if◌then◌else◌,
}
use rudder_go_kit.Prelude.Int.{ℤ, pos, negsuc}
use rudder_go_kit.Prelude.Positions.{get_at, set_at}

-- Where a call of `Go` and its goroutine stand: at the semaphore; returned without a goroutine; in the
-- goroutine before its test of the context; inside the function; with the error to be recorded; before
-- the release of the semaphore; ended.
pub data Phase (E : Type 0) : Type 0 where
  waiting refused started running releasing ended : Phase E
  returned : Option E → Phase E

-- `EagerGroup`: `ctx_err` is what `ctx.Err()` returns, `used` the length of the channel `sem`, `once`
-- whether `errOnce` was done, and `calls` how many functions were called so far, from the moment at
-- which the context is tested for them.
pub record Group (E : Type 0) : Type 0 where
  pub ctx_err : Option E
  pub limit : ℕ
  pub used : ℕ
  pub once : Bool
  pub err : Option E
  pub tasks : List (Phase E)
  pub calls : ℕ

-- A step of the schedule.
pub data Event (E : Type 0) : Type 0 where
  call : Event E
  acquire give_up test_context record_error release : ℕ → Event E
  return : ℕ → Option E → Event E
  cancel_parent : E → Event E

-- The capacity of the channel, and 0 without one.
abbrev pub limit_of : ℤ → ℕ
limit_of (pos n) = n
limit_of (negsuc n) = 0

-- `NewEagerGroup`, with the error of the context that it gets
unfoldable pub new_eager_group : {E : Type 0} → Option E → ℤ → Group E
new_eager_group ctx_err limit = record {
  ctx_err = ctx_err;
  limit = limit_of limit;
  used = 0;
  once = false;
  err = none;
  tasks = [];
  calls = 0;
}

-- A cancelled context keeps its error.
abbrev pub cancelled : {E : Type 0} → E → Option E → Option E
cancelled e (some d) = some d
cancelled e none = some e

abbrev pub set_phase : {E : Type 0} → ℕ → Phase E → Group E → Group E
set_phase i p g = record g { tasks = set_at i p g.tasks }

-- Whether the goroutine of a task runs, as the `WaitGroup` counts it.
abbrev pub is_active : {E : Type 0} → Phase E → Bool
is_active waiting = false
is_active refused = false
is_active ended = false
is_active _ = true

unfoldable pub none_active : {E : Type 0} → List (Phase E) → Bool
none_active [] = true
none_active (p ∷ ps) = let rest = none_active ps in if is_active p then false else rest

-- `canceled` is `context.Canceled`.
module _ {E : Type 0} (canceled : E) where
  -- `errOnce.Do`, which writes the error and cancels the context
  unfoldable pub set_error : E → Group E → Group E
  set_error e g =
      if g.once
      then g
      else record g { once = true; err = some e; ctx_err = cancelled canceled g.ctx_err }

  unfoldable pub record_result : Option E → Group E → Group E
  record_result none g = g
  record_result (some e) g = set_error e g

  -- `Go` up to the semaphore, by what `ctx.Err()` returns
  unfoldable pub go_with : Option E → Group E → Group E
  go_with (some e) g = record (set_error e g) { tasks = (set_error e g).tasks ++ refused ∷ [] }
  go_with none g = record g { tasks = g.tasks ++ (if g.limit == 0 then started else waiting) ∷ [] }

  unfoldable pub go : Group E → Group E
  go g = go_with g.ctx_err g

  -- The two cases of `select`
  unfoldable pub acquire_at : ℕ → Phase E → Group E → Group E
  acquire_at i waiting g =
      if ltb g.used g.limit then set_phase i started (record g { used = suc g.used }) else g
  acquire_at i _ g = g

  unfoldable pub give_up_with : Option E → ℕ → Group E → Group E
  give_up_with none i g = g
  give_up_with (some e) i g = set_phase i refused (set_error e g)

  unfoldable pub give_up_at : ℕ → Phase E → Group E → Group E
  give_up_at i waiting g = give_up_with g.ctx_err i g
  give_up_at i _ g = g

  -- The goroutine: the test of the context, the return of `f`, `errOnce`, and the receive from `sem`
  unfoldable pub test_context_with : Option E → ℕ → Group E → Group E
  test_context_with none i g = set_phase i running (record g { calls = suc g.calls })
  test_context_with (some e) i g = set_phase i (returned (some e)) g

  unfoldable pub test_context_at : ℕ → Phase E → Group E → Group E
  test_context_at i started g = test_context_with g.ctx_err i g
  test_context_at i _ g = g

  unfoldable pub return_at : ℕ → Option E → Phase E → Group E → Group E
  return_at i result running g = set_phase i (returned result) g
  return_at i result _ g = g

  unfoldable pub record_at : ℕ → Phase E → Group E → Group E
  record_at i (returned result) g = set_phase i releasing (record_result result g)
  record_at i _ g = g

  unfoldable pub release_at : ℕ → Phase E → Group E → Group E
  release_at i releasing g =
      if g.limit == 0
      then set_phase i ended g
      else set_phase i ended (record g { used = g.used - 1 })
  release_at i _ g = g

  -- One step of the task at a position, if there is one
  unfoldable pub at_task : ℕ → (Phase E → Group E → Group E) → Group E → Group E
  at_task i f g = elim (get_at i g.tasks) [ none ↦ g | some p ↦ f p g ]

  unfoldable pub step : Event E → Group E → Group E
  step call g = go g
  step (acquire i) g = at_task i (acquire_at i) g
  step (give_up i) g = at_task i (give_up_at i) g
  step (test_context i) g = at_task i (test_context_at i) g
  step (return i result) g = at_task i (return_at i result) g
  step (record_error i) g = at_task i (record_at i) g
  step (release i) g = at_task i (release_at i) g
  step (cancel_parent e) g = record g { ctx_err = cancelled e g.ctx_err }

  unfoldable pub run : List (Event E) → Group E → Group E
  run [] g = g
  run (e ∷ es) g = run es (step e g)

  -- `Wait`, once the `WaitGroup` lets it through; `none` while it waits.
  unfoldable pub wait : Group E → Option (Group E × Option E)
  wait g =
      if none_active g.tasks
      then some (record g { ctx_err = cancelled canceled g.ctx_err }, g.err)
      else none
