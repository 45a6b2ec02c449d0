-- ===== src/SingleSender/Order.antt =====
-- async/single_sender.go: what is received against what was given to `Send`.
use mathlib.Core.List.{Sublistᴰ, append-nil, append_assoc}
use mathlib.Core.List.Sublistᴰ
use mathlib.Core.Path.{subst}
use rudder_go_kit.Prelude.{
  suc, ◌≡◌, refl, sym, ap, ◌∙◌, Bool, true, false, List, [], ◌∷◌, ◌++◌, Option, none, some,
  if◌then◌else◌,
}
use rudder_go_kit.SingleSender.{
  Sender, Step, send, receive, give_up, leave, cancel, close, begin, start_send, take_value,
  abandon, close_channel, step, run,
}

module _ {T : Type 0} where
  -- The values that `Send` was called with, where `closedMu` was free.
  unfoldable pub offered : List (Step T) → List T
  offered [] = []
  offered (send v ∷ es) = v ∷ offered es
  offered (receive ∷ es) = offered es
  offered (give_up ∷ es) = offered es
  offered (leave ∷ es) = offered es
  offered (cancel ∷ es) = offered es
  offered (close ∷ es) = offered es

  abbrev waiting : Option T → List T
  waiting none = []
  waiting (some v) = v ∷ []

  -- What was received, and what waits to be.
  abbrev flow : Sender T → List T
  flow s = s.received ++ waiting s.sending

  flow_sub : (r : List T) (o : Option T) → Sublistᴰ r (r ++ waiting o)
  flow_sub r none = subst (Sublistᴰ r) (sym (append-nil r)) (Sublistᴰ.refl r)
  flow_sub r (some v) =
      subst (λ l. Sublistᴰ l (r ++ v ∷ [])) (append-nil r)
        (Sublistᴰ.append (Sublistᴰ.refl r) (Sublistᴰ.nil-sublist (v ∷ [])))

  start_send-flow :
      (v : T) (o : Option T) (s : Sender T)
      → s.sending ≡ o
      → Sublistᴰ (flow (start_send v o s)) (flow s ++ v ∷ [])
  unfolding start_send
  start_send-flow v none s e = by_test s.closed
    where
      by_test :
          (b : Bool)
          → Sublistᴰ (flow (if b then s else record s { sending = some v })) (flow s ++ v ∷ [])
      by_test true = flow_sub (flow s) (some v)
      by_test false =
          subst (λ o. Sublistᴰ (s.received ++ v ∷ []) ((s.received ++ waiting o) ++ v ∷ [])) (sym e)
            (subst (λ l. Sublistᴰ (s.received ++ v ∷ []) (l ++ v ∷ []))
              (sym (append-nil s.received)) (Sublistᴰ.refl (s.received ++ v ∷ [])))
  start_send-flow v (some w) s e = flow_sub (flow s) (some v)

  take_value-flow : (o : Option T) (s : Sender T) → s.sending ≡ o → flow (take_value o s) ≡ flow s
  unfolding take_value
  take_value-flow none s e = refl
  take_value-flow (some v) s e =
      append-nil (s.received ++ v ∷ []) ∙ ap (λ o. s.received ++ waiting o) (sym e)

  abandon-flow : (o : Option T) (s : Sender T) → Sublistᴰ (flow (abandon o s)) (flow s)
  unfolding abandon
  abandon-flow none s = Sublistᴰ.refl (flow s)
  abandon-flow (some v) s = by_test s.send_cancelled
    where
      by_test :
          (b : Bool)
          → Sublistᴰ
              (flow (if b then record s { sending = none; ctx_cancelled = true } else s))
              (flow s)
      by_test true =
          subst (λ l. Sublistᴰ l (flow s)) (sym (append-nil s.received))
            (flow_sub s.received s.sending)
      by_test false = Sublistᴰ.refl (flow s)

  close_channel-flow : (o : Option T) (s : Sender T) → flow (close_channel o s) ≡ flow s
  unfolding close_channel
  close_channel-flow none s = by_test s.closed
    where
      by_test :
          (b : Bool)
          → flow (if b then s else record s { closed = true; closes = suc s.closes }) ≡ flow s
      by_test true = refl
      by_test false = refl
  close_channel-flow (some v) s = refl

  step-flow : (e : Step T) (s : Sender T) → Sublistᴰ (flow (step e s)) (flow s ++ offered (e ∷ []))
  unfolding step offered
  step-flow (send v) s = start_send-flow v s.sending s refl
  step-flow receive s =
      subst (λ l. Sublistᴰ l (flow s ++ [])) (sym (take_value-flow s.sending s refl))
        (flow_sub (flow s) none)
  step-flow give_up s = Sublistᴰ.trans (abandon-flow s.sending s) (flow_sub (flow s) none)
  step-flow leave s = flow_sub (flow s) none
  step-flow cancel s = flow_sub (flow s) none
  step-flow close s =
      subst (λ l. Sublistᴰ l (flow s ++ [])) (sym (close_channel-flow s.sending s))
        (flow_sub (flow s) none)

  offered-cons :
      (e : Step T) (es : List (Step T)) → offered (e ∷ es) ≡ offered (e ∷ []) ++ offered es
  unfolding offered
  offered-cons (send v) es = refl
  offered-cons receive es = refl
  offered-cons give_up es = refl
  offered-cons leave es = refl
  offered-cons cancel es = refl
  offered-cons close es = refl

  run-flow : (es : List (Step T)) (s : Sender T) → Sublistᴰ (flow (run es s)) (flow s ++ offered es)
  unfolding run offered
  run-flow [] s = flow_sub (flow s) none
  run-flow (e ∷ es) s = Sublistᴰ.trans (run-flow es (step e s)) (
      subst (Sublistᴰ (flow (step e s) ++ offered es))
        (append_assoc (flow s) (offered (e ∷ [])) (offered es)
          ∙ ap (λ l. flow s ++ l) (sym (offered-cons e es)))
        (Sublistᴰ.append (step-flow e s) (Sublistᴰ.refl (offered es))))

  -- Under any schedule the receiver gets values that were given to `Send`, each at most as often and in
  -- the same order.
  pub received-offered :
      (es : List (Step T)) (cancelled : Bool)
      → Sublistᴰ (run es (begin cancelled)).received (offered es)
  unfolding begin
  received-offered es cancelled =
      let s = run es (begin cancelled) in
      Sublistᴰ.trans (flow_sub s.received s.sending) (run-flow es (begin cancelled))
