-- ===== src/SingleSender/Tests.antt =====
-- async/single_sender.go at concrete schedules.
use mathlib.Core.List.{Sublistᴰ}
use rudder_go_kit.Prelude.{ℕ, ◌≡◌, refl, true, false, List, [], ◌∷◌}
use rudder_go_kit.SingleSender.{
  Step, send, receive, give_up, leave, close, begin, start_send, take_value, abandon, close_channel,
  step, run, close_steps,
}
use rudder_go_kit.SingleSender.Safety.{IsValid, run_steps-IsValid, IsShut, run-close_steps}
use rudder_go_kit.SingleSender.Order.{offered, received-offered}

-- Two values, of which the second is given up; nothing is sent after that.
abbrev left : List (Step ℕ)
left =
    send 1
    ∷ receive
    ∷ send 2
    ∷ close
    ∷ leave
    ∷ receive
    ∷ send 3
    ∷ give_up
    ∷ close
    ∷ send 4
    ∷ close
    ∷ []

abbrev gone : List (Step ℕ)
gone = send 1 ∷ receive ∷ send 2 ∷ leave ∷ give_up ∷ close ∷ send 4 ∷ close ∷ []

program : Unit {0}
unfolding begin start_send take_value abandon close_channel step run offered
program = tt

one_received : (run gone (begin false)).received ≡ 1 ∷ []
unfolding program
one_received = refl

stopped : (run gone (begin false)).ctx_cancelled ≡ true
unfolding program
stopped = refl

closed_once : (run left (begin false)).closes ≡ 1
unfolding program
closed_once = refl

run_steps-IsValid_example : IsValid (run gone (begin false))
run_steps-IsValid_example = run_steps-IsValid gone false

run-close_steps_example : IsShut {T = ℕ} (run close_steps (run (send 1 ∷ []) (begin false)))
run-close_steps_example = run-close_steps (run (send 1 ∷ []) (begin false))

received-offered_example : Sublistᴰ {A = ℕ} (1 ∷ []) (1 ∷ 2 ∷ 4 ∷ [])
unfolding program
received-offered_example = received-offered gone false
