-- ===== src/SingleSender/Safety.antt =====
-- async/single_sender.go: the channel is closed once at most, and nothing is sent on it afterwards.
use rudder_go_kit.Prelude.{
  suc, ◌≡◌, refl, sym, ap, ◌∙◌, Bool, true, false, List, [], ◌∷◌, Option, none, some, if◌then◌else◌,
  arith,
}
use rudder_go_kit.SingleSender.{
  Sender, Step, send, receive, give_up, leave, cancel, close, begin, start_send, take_value,
  abandon, close_channel, step, run, close_steps,
}

-- A closed channel was closed once, and no value waits to be sent on it.
pub record IsValid {T : Type 0} (s : Sender T) : Type 0 where
  pub idle_closed : s.closed ≡ true → s.sending ≡ none
  pub closed_once : s.closes ≡ (if s.closed then 1 else 0)

module _ {T : Type 0} where
  IsValid-start_send :
      (v : T) (o : Option T) (s : Sender T) → s.sending ≡ o → IsValid s → IsValid (start_send v o s)
  unfolding start_send
  IsValid-start_send v none s e h = by_test s.closed refl
    where
      by_test : (b : Bool) → s.closed ≡ b → IsValid (if b then s else record s { sending = some v })
      by_test true c = h
      by_test false c = record {
        idle_closed = λ d. absurd (ground (arith, sym d ∙ c));
        closed_once = h.closed_once;
      }
  IsValid-start_send v (some w) s e h = h

  IsValid-take_value : (o : Option T) (s : Sender T) → IsValid s → IsValid (take_value o s)
  unfolding take_value
  IsValid-take_value none s h = h
  IsValid-take_value (some v) s h = record { idle_closed = λ d. refl; closed_once = h.closed_once }

  IsValid-abandon : (o : Option T) (s : Sender T) → IsValid s → IsValid (abandon o s)
  unfolding abandon
  IsValid-abandon none s h = h
  IsValid-abandon (some v) s h = by_test s.send_cancelled
    where
      by_test :
          (b : Bool) → IsValid (if b then record s { sending = none; ctx_cancelled = true } else s)
      by_test true = record { idle_closed = λ d. refl; closed_once = h.closed_once }
      by_test false = h

  IsValid-close_channel :
      (o : Option T) (s : Sender T) → s.sending ≡ o → IsValid s → IsValid (close_channel o s)
  unfolding close_channel
  IsValid-close_channel none s e h = by_test s.closed refl
    where
      by_test :
          (b : Bool)
          → s.closed ≡ b
          → IsValid (if b then s else record s { closed = true; closes = suc s.closes })
      by_test true c = h
      by_test false c = record {
        idle_closed = λ d. e;
        closed_once = ap suc (h.closed_once ∙ ap (λ (b : Bool). if b then 1 else 0) c);
      }
  IsValid-close_channel (some v) s e h = h

  step-IsValid : (e : Step T) (s : Sender T) → IsValid s → IsValid (step e s)
  unfolding step
  step-IsValid (send v) s h = IsValid-start_send v s.sending s refl h
  step-IsValid receive s h = IsValid-take_value s.sending s h
  step-IsValid give_up s h = IsValid-abandon s.sending s h
  step-IsValid leave s h = record { idle_closed = h.idle_closed; closed_once = h.closed_once }
  step-IsValid cancel s h = record { idle_closed = h.idle_closed; closed_once = h.closed_once }
  step-IsValid close s h = IsValid-close_channel s.sending s refl h

  run_keeps-IsValid : (es : List (Step T)) (s : Sender T) → IsValid s → IsValid (run es s)
  unfolding run
  run_keeps-IsValid [] s h = h
  run_keeps-IsValid (e ∷ es) s h = run_keeps-IsValid es (step e s) (step-IsValid e s h)

  -- Under any schedule the channel is closed once at most, and no `Send` waits on it when it is closed.
  pub run_steps-IsValid :
      (es : List (Step T)) (cancelled : Bool) → IsValid (run es (begin cancelled))
  unfolding begin
  run_steps-IsValid es cancelled =
      run_keeps-IsValid es (begin cancelled)
        (record { idle_closed = λ d. absurd (cc); closed_once = refl })

  -- The channel is closed, no `Send` waits, and the sending goroutine is told to stop.
  abbrev pub IsShut : Sender T → Type 0
  IsShut s = (s.closed ≡ true) × (s.sending ≡ none) × (s.ctx_cancelled ≡ true)

  close_channel-IsShut :
      (o : Option T) (s : Sender T)
      → o ≡ none
      → s.sending ≡ none
      → s.ctx_cancelled ≡ true
      → IsShut (close_channel o s)
  unfolding close_channel
  close_channel-IsShut none s e n c = by_test s.closed refl
    where
      by_test :
          (b : Bool)
          → s.closed ≡ b
          → IsShut (if b then s else record s { closed = true; closes = suc s.closes })
      by_test true d = (d, n, c)
      by_test false d = (refl, n, c)
  close_channel-IsShut (some v) s e n c = absurd (cc)

  abandoned :
      (o : Option T) (s : Sender T)
      → s.sending ≡ o
      → s.send_cancelled ≡ true
      → s.ctx_cancelled ≡ true
      → ((abandon o s).sending ≡ none) × ((abandon o s).ctx_cancelled ≡ true)
  unfolding abandon
  abandoned none s e d c = (e, c)
  abandoned (some v) s e d c = by_test s.send_cancelled d
    where
      by_test :
          (b : Bool)
          → b ≡ true
          → ((if b then record s { sending = none; ctx_cancelled = true } else s).sending ≡ none)
            × ((if b then record s { sending = none; ctx_cancelled = true } else s).ctx_cancelled
                ≡ true)
      by_test true p = (refl, refl)
      by_test false p = absurd (cc)

  -- `Close` does not wait for the receiver: in any state its cancellations let a `Send` that waits give
  -- up, and then the channel is closed, nothing waits, and the sending goroutine is told to stop.
  pub run-close_steps : (s : Sender T) → IsShut (run close_steps s)
  unfolding run step
  run-close_steps s =
      let t : Sender T = record s { ctx_cancelled = true; send_cancelled = true } in
      let (n, c) = abandoned s.sending t refl refl refl in
      close_channel-IsShut (abandon s.sending t).sending (abandon s.sending t) n n c
