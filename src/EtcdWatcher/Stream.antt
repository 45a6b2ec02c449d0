-- ===== src/EtcdWatcher/Stream.antt =====
-- etcdwatcher/etcdwatcher.go: what every event on the channel satisfies, and which events come there.
use rudder_go_kit.Prelude.{
  ℕ, suc, ◌≡◌, refl, Bool, true, false, List, [], ◌∷◌, ◌++◌, Option, none, some, ◌⊎◌, inl, inr,
  if◌then◌else◌,
}
use rudder_go_kit.EtcdWatcher.{
  Event, put_event, delete_event, KeyValue, plain, gate_unmarshal, Result, ok, error, TxnResponse,
  txn_error, not_succeeded, succeeded, WatchResponse, watch_error, watch_events, Config, Answers,
  EventOrError, event, failure, passes, should_process, put_of, delete_of, if_passes, gate_answer,
  apply_txn_gate, gated, process_put, process, is_once, contains, send_event, watch_event,
  watch_batch, continue_with, watch_responses, initial_keys, watch,
}

module _ {K T B C E : Type 0} (c : Config K T B C E) where
  -- An event that the configuration asks for: of a wanted type, and let through by the filter.
  abbrev pub Wanted : Event K T → Type 0
  Wanted e = (should_process c e.event_type ≡ true) × (passes c e ≡ true)

  -- Wanted events, and an error at most as the last message.
  abbrev pub IsStream : List (EventOrError K T E) → Type 0
  IsStream [] = Unit
  IsStream (event e ∷ s) = Wanted e × IsStream s
  IsStream (failure e ∷ s) = s ≡ []

  -- A result that is an error or an event with the property.
  abbrev Yields : Result E (Option (Event K T)) → Type 0
  Yields (error e) = Unit
  Yields (ok none) = Unit
  Yields (ok (some e)) = Wanted e

  Yields-if :
      (b : Bool) (e : Event K T)
      → should_process c e.event_type ≡ true
      → passes c e ≡ b
      → Yields (ok (if b then some e else none))
  Yields-if true e t p = (t, p)
  Yields-if false e t p = tt

  Yields-when :
      (b : Bool) (r : Result E (Option (Event K T)))
      → (b ≡ true → Yields r)
      → Yields (if b then r else ok none)
  Yields-when true r h = h refl
  Yields-when false r h = tt

  module _ (wanted : should_process c put_event ≡ true) where
    Yields-gate_answer : (r : TxnResponse K B E) → Yields (gate_answer c r)
    unfolding gate_answer
    Yields-gate_answer (txn_error e) = tt
    Yields-gate_answer not_succeeded = tt
    Yields-gate_answer (succeeded []) = tt
    Yields-gate_answer (succeeded (kv ∷ kvs)) =
        elim (c.unmarshal_value kv.bytes)
          as (λ u. Yields (elim u [
            | inl e ↦ error (gate_unmarshal e)
            | inr v ↦ ok (if_passes c (put_of c kv v))
          ])) [
            | inl e ↦ tt
            | inr v ↦ Yields-if (passes c (put_of c kv v)) (put_of c kv v) wanted refl
          ]

    Yields-gated :
        (answer : List C → K → TxnResponse K B E) (e : Event K T)
        → Wanted e
        → Yields (gated c answer e)
    unfolding gated apply_txn_gate
    Yields-gated answer e h = by_gate c.txn_gate
      where
        by_gate :
            (g : Option (T → List C))
            → Yields (elim g [ none ↦ ok (some e) | some gate ↦ apply_txn_gate c gate answer e ])
        by_gate none = h
        by_gate (some gate) = by_conditions (gate e.value)
          where
            by_conditions :
                (l : List C)
                → Yields (elim l [
                  | [] ↦ ok (some e)
                  | cmp ∷ cmps ↦ gate_answer c (answer (cmp ∷ cmps) e.key)
                ])
            by_conditions [] = h
            by_conditions (cmp ∷ cmps) = Yields-gate_answer (answer (cmp ∷ cmps) e.key)

    Yields-process_put :
        (answer : List C → K → TxnResponse K B E) (kv : KeyValue K B)
        → Yields (process_put c answer kv)
    unfolding process_put
    Yields-process_put answer kv = by_value (c.unmarshal_value kv.bytes)
      where
        by_value :
            (u : E ⊎ T)
            → Yields (elim u [
              | inl e ↦ error (plain e)
              | inr v ↦ if passes c (put_of c kv v) then gated c answer (put_of c kv v) else ok none
            ])
        by_value (inl e) = tt
        by_value (inr v) =
            Yields-when (passes c (put_of c kv v)) (gated c answer (put_of c kv v))
              (λ p. Yields-gated answer (put_of c kv v) (wanted, p))

  Yields-process :
      (answer : List C → K → TxnResponse K B E) (ev : Bool × KeyValue K B)
      → Yields (process c answer ev)
  unfolding process
  Yields-process answer (true, kv) =
      Yields-when (should_process c delete_event) (ok (if_passes c (delete_of c kv)))
        (λ t. Yields-if (passes c (delete_of c kv)) (delete_of c kv) t refl)
  Yields-process answer (false, kv) =
      Yields-when (should_process c put_event) (process_put c answer kv)
        (λ t. Yields-process_put t answer kv)

module _ {K T B C E : Type 0} (dec : Discrete K) (c : Config K T B C E) where
  -- A batch that does not end the watch has events only.
  record BatchStream (r : List (EventOrError K T E) × Option (List K)) : Type 0 where
    stream : IsStream c r.0
    more :
        (after : List K) (s : List (EventOrError K T E))
        → r.1 ≡ some after
        → IsStream c s
        → IsStream c (r.0 ++ s)

  send_event-BatchStream :
      (o d : Bool) (e : Event K T) (r : List (EventOrError K T E) × Option (List K))
      → Wanted c e
      → BatchStream r
      → BatchStream (send_event dec c o d e r)
  send_event-BatchStream true true e r w b = b
  send_event-BatchStream true false e r w b = record {
    stream = (w, b.stream);
    more = λ after s h g. (w, b.more after s h g);
  }
  send_event-BatchStream false d e r w b = record {
    stream = (w, b.stream);
    more = λ after s h g. (w, b.more after s h g);
  }

  watch_event-BatchStream :
      (result : Result E (Option (Event K T))) (emitted : List K)
      (rest : List K → List (EventOrError K T E) × Option (List K))
      → Yields c result
      → ((after : List K) → BatchStream (rest after))
      → BatchStream (watch_event dec c result emitted rest)
  unfolding watch_event
  watch_event-BatchStream (error e) emitted rest y h = record {
    stream = refl;
    more = λ after s g i. absurd (cc);
  }
  watch_event-BatchStream (ok none) emitted rest y h = h emitted
  watch_event-BatchStream (ok (some e)) emitted rest y h =
      send_event-BatchStream (is_once dec c c.mode) (contains dec c e.key emitted) e _ y (h _)

  watch_batch-BatchStream :
      (answers : Answers K B C E) (i : ℕ) (emitted : List K) (evs : List (Bool × KeyValue K B))
      → BatchStream (watch_batch dec c answers i emitted evs)
  unfolding watch_batch
  watch_batch-BatchStream answers i emitted [] = record { stream = tt; more = λ after s g h. h }
  watch_batch-BatchStream answers i emitted (ev ∷ evs) =
      watch_event-BatchStream (process c (answers i) ev) emitted
        (λ after. watch_batch dec c answers (suc i) after evs) (Yields-process c (answers i) ev)
        (λ after. watch_batch-BatchStream answers (suc i) after evs)

  watch_responses-IsStream :
      (answers : ℕ → Answers K B C E) (r : ℕ) (emitted : List K) (rs : List (WatchResponse K B E))
      → IsStream c (watch_responses dec c answers r emitted rs)
  unfolding watch_responses
  watch_responses-IsStream answers r emitted [] = tt
  watch_responses-IsStream answers r emitted (watch_error e ∷ rs) = refl
  watch_responses-IsStream answers r emitted (watch_events evs ∷ rs) =
      continued (watch_batch dec c (answers r) 0 emitted evs)
        (watch_batch-BatchStream (answers r) 0 emitted evs)
        (λ after. watch_responses-IsStream answers (suc r) after rs)
    where
      continued :
          (b : List (EventOrError K T E) × Option (List K))
          → BatchStream b
          → ((after : List K) → IsStream c (watch_responses dec c answers (suc r) after rs))
          → IsStream c
              (continue_with dec c b (λ after. watch_responses dec c answers (suc r) after rs))
      continued (sent, none) b h = b.stream
      continued (sent, some after) b h = b.more after _ refl (h after)

  -- Every event that `watch` sends is of a type that the configuration asks for and passes its filter,
  -- behind the gate of transactions too, and nothing is sent after an error.
  pub watch-IsStream :
      (answers : ℕ → Answers K B C E) (channel : ℕ → List (WatchResponse K B E))
      (initial : List (Event K T)) (revision : ℕ)
      → IsStream c (watch dec c answers channel initial revision)
  unfolding watch
  watch-IsStream answers channel initial revision =
      watch_responses-IsStream answers 0 (initial_keys dec c initial) (channel (suc revision))
