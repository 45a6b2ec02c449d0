-- ===== src/SingleSender.antt =====
-- async/single_sender.go. `Send` holds `closedMu` while it waits in its `select`, so at most one value is
-- waiting; it is `sending`. A schedule is a list of steps of the goroutines that send, receive, leave
-- and close, in any order; what cannot happen leaves the state as it is.
pub mod Safety
pub mod Order
mod Tests
use rudder_go_kit.Prelude.{
  ℕ, zero, suc, Bool, true, false, List, [], ◌∷◌, ◌++◌, Option, none, some, if◌then◌else◌,
}

-- `SingleSender`, with whether its contexts are cancelled, what was received from the channel, and how
-- often the channel was closed.
pub record Sender (T : Type 0) : Type 0 where
  pub ctx_cancelled : Bool
  pub send_cancelled : Bool
  pub closed : Bool
  pub sending : Option T
  pub received : List T
  pub closes : ℕ

-- `send` is a `Send` up to its `select`, `receive` and `give_up` are its two cases, `leave` is the
-- function that `Begin` returns, `cancel` the cancellation of the context for the sending goroutine,
-- by its parent or by `Close`, and `close` is `Close` from its lock on.
pub data Step (T : Type 0) : Type 0 where
  send : T → Step T
  receive give_up leave cancel close : Step T

module _ {T : Type 0} where
  -- `Begin`, in a parent context that is cancelled or not
  unfoldable pub begin : Bool → Sender T
  begin cancelled = record {
    ctx_cancelled = cancelled;
    send_cancelled = false;
    closed = false;
    sending = none;
    received = [];
    closes = 0;
  }

  -- `Send`, where `closedMu` is free
  unfoldable pub start_send : T → Option T → Sender T → Sender T
  start_send v none s = if s.closed then s else record s { sending = some v }
  start_send v (some w) s = s

  -- `case s.ch <- value`
  unfoldable pub take_value : Option T → Sender T → Sender T
  take_value none s = s
  take_value (some v) s = record s { sending = none; received = s.received ++ v ∷ [] }

  -- `case <-s.sendCtx.Done()`
  unfoldable pub abandon : Option T → Sender T → Sender T
  abandon none s = s
  abandon (some v) s =
      if s.send_cancelled then record s { sending = none; ctx_cancelled = true } else s

  -- `Close`, where `closedMu` is free
  unfoldable pub close_channel : Option T → Sender T → Sender T
  close_channel none s = if s.closed then s else record s { closed = true; closes = suc s.closes }
  close_channel (some v) s = s

  unfoldable pub step : Step T → Sender T → Sender T
  step (send v) s = start_send v s.sending s
  step receive s = take_value s.sending s
  step give_up s = abandon s.sending s
  step leave s = record s { send_cancelled = true }
  step cancel s = record s { ctx_cancelled = true }
  step close s = close_channel s.sending s

  unfoldable pub run : List (Step T) → Sender T → Sender T
  run [] s = s
  run (e ∷ es) s = run es (step e s)

  -- `Close`, with what a goroutine that waits in `Send` does when its context is cancelled
  abbrev pub close_steps : List (Step T)
  close_steps = cancel ∷ leave ∷ give_up ∷ close ∷ []
