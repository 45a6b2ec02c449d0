-- ===== src/EagerGroup/Tests.antt =====
-- sync/eagergroup.go at concrete schedules: a limit of one, and two calls of `Go`.
use rudder_go_kit.Prelude.{ℕ, ◌≤◌, ◌≡◌, refl, List, [], ◌∷◌, ◌++◌, none, some, arith}
use rudder_go_kit.Prelude.Int.{pos}
use rudder_go_kit.Prelude.Positions.{get_at, set_at, count}
use rudder_go_kit.EagerGroup.{
  Group, Event, call, acquire, give_up, test_context, return, record_error, release,
  new_eager_group, set_error, record_result, go_with, go, acquire_at, give_up_with, give_up_at,
  test_context_with, test_context_at, return_at, record_at, release_at, at_task, step, run,
  none_active, wait,
}
use rudder_go_kit.EagerGroup.Once.{wait-first_error}
use rudder_go_kit.EagerGroup.Limit.{is_running, run-running_le}

abbrev two_calls : List (Event ℕ)
two_calls = call ∷ call ∷ acquire 0 ∷ acquire 1 ∷ test_context 0 ∷ test_context 1 ∷ []

-- The error 7 is about to be recorded.
abbrev failed : Group ℕ
failed = run 0 (two_calls ++ return 0 (some 7) ∷ []) (new_eager_group none (pos 1))

-- The second call gives up, or fails with another error.
abbrev later : List (Event ℕ)
later = give_up 1 ∷ release 0 ∷ call ∷ []

program : Unit {0}
unfolding get_at set_at count new_eager_group set_error record_result go_with go acquire_at
    give_up_with give_up_at test_context_with test_context_at return_at record_at release_at at_task
    step run none_active wait is_running
program = tt

called_once : (run 0 two_calls (new_eager_group none (pos 1))).calls ≡ 1
unfolding program
called_once = refl

still_running : wait 0 (run 0 two_calls (new_eager_group none (pos 1))) ≡ none
unfolding program
still_running = refl

wait-first_error_example :
    (h : Group ℕ) × (wait 0 (run 0 later (step 0 (record_error 0) failed)) ≡ some (h, some 7))
unfolding program
wait-first_error_example = wait-first_error 0 0 7 later failed refl refl refl

run-running_le_example : count is_running (run 0 two_calls (new_eager_group none (pos 1))).tasks ≤ 1
run-running_le_example = run-running_le 0 none (pos 1) two_calls (omega arith)
