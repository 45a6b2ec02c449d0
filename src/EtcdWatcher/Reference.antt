-- ===== src/EtcdWatcher/Reference.antt =====
-- etcdwatcher/etcdwatcher.go: a watch in `AllMode` against the events that the configuration selects.
use mathlib.Core.List.{append_assoc}
use rudder_go_kit.Prelude.{
  ℕ, suc, ◌≡◌, refl, sym, ap, ◌∙◌, Bool, true, false, ◌&&◌, List, [], ◌∷◌, ◌++◌, map, Option, none,
  some, ◌⊎◌, inl, inr, if◌then◌else◌, arith,
}
use rudder_go_kit.EtcdWatcher.{
  Event, put_event, delete_event, KeyValue, plain, Result, ok, error, TxnResponse, WatchResponse,
  watch_error, watch_events, failure, Config, all_mode, Answers, EventOrError, event, passes,
  should_process, put_of, delete_of, if_passes, apply_txn_gate, gated, process_put, process,
  is_once, contains, marked, send_event, watch_event, watch_batch, continue_with, watch_responses,
  initial_keys, watch,
}

unfoldable pub select : {A : Type 0} → (A → Bool) → List A → List A
select test [] = []
select test (x ∷ xs) = let rest = select test xs in if test x then x ∷ rest else rest

select-append :
    {A : Type 0} (test : A → Bool) (xs ys : List A)
    → select test (xs ++ ys) ≡ select test xs ++ select test ys
unfolding select
select-append test [] ys = refl
select-append test (x ∷ xs) ys = ground (arith, select-append test xs ys)

map-append : {A B : Type 0} (f : A → B) (xs ys : List A) → map f (xs ++ ys) ≡ map f xs ++ map f ys
map-append f [] ys = refl
map-append f (x ∷ xs) ys = ap (λ l. f x ∷ l) (map-append f xs ys)

-- The changes of all responses before the first one that is an error, and what is sent for that one.
abbrev pub changes_before :
    {K B E : Type 0} → List (WatchResponse K B E) → List (Bool × KeyValue K B)
changes_before [] = []
changes_before (watch_error e ∷ responses) = []
changes_before (watch_events evs ∷ responses) = evs ++ changes_before responses

abbrev pub first_failure :
    {K T B E : Type 0} → List (WatchResponse K B E) → List (EventOrError K T E)
first_failure [] = []
first_failure (watch_error e ∷ responses) = failure (plain e) ∷ []
first_failure (watch_events evs ∷ responses) = first_failure responses

module _ {K T B C E : Type 0} (dec : Discrete K) (c : Config K T B C E) (decode : B → T) where
  -- The event of a change, and whether the configuration asks for it.
  abbrev pub event_of : Bool × KeyValue K B → Event K T
  event_of (true, kv) = delete_of c kv
  event_of (false, kv) = put_of c kv (decode kv.bytes)

  abbrev pub is_wanted : Event K T → Bool
  is_wanted e = should_process c e.event_type && passes c e

  module _ (mode : c.mode ≡ all_mode) (no_gate : c.txn_gate ≡ none)
      (decodes : (b : B) → c.unmarshal_value b ≡ inr (decode b)) where
    if_and :
        (a b : Bool) (e : Event K T)
        → ◌≡◌ {A = Result E (Option (Event K T))}
            (if a then ok (if b then some e else none) else ok none)
            (ok (if a && b then some e else none))
    if_and true b e = refl
    if_and false b e = refl

    gated-ungated :
        (answer : List C → K → TxnResponse K B E) (e : Event K T) → gated c answer e ≡ ok (some e)
    unfolding gated
    gated-ungated answer e =
        ap
          (λ (g : Option (T → List C)). elim g as (λ x. Result E (Option (Event K T))) [
            | none ↦ ok (some e)
            | some gate ↦ apply_txn_gate c gate answer e
          ])
          no_gate

    process_put-decoded :
        (answer : List C → K → TxnResponse K B E) (kv : KeyValue K B)
        → process_put c answer kv ≡ ok (if_passes c (put_of c kv (decode kv.bytes)))
    unfolding process_put
    process_put-decoded answer kv =
        ap
          (λ (u : E ⊎ T). elim u as (λ x. Result E (Option (Event K T))) [
            | inl e ↦ error (plain e)
            | inr v ↦ if passes c (put_of c kv v) then gated c answer (put_of c kv v) else ok none
          ])
          (decodes kv.bytes)
        ∙ when_passes (passes c (put_of c kv (decode kv.bytes)))
      where
        when_passes :
            (b : Bool)
            → (if b then gated c answer (put_of c kv (decode kv.bytes)) else ok none)
              ≡ ok (if b then some (put_of c kv (decode kv.bytes)) else none)
        when_passes true = gated-ungated answer (put_of c kv (decode kv.bytes))
        when_passes false = refl

    process-wanted :
        (answer : List C → K → TxnResponse K B E) (ev : Bool × KeyValue K B)
        → process c answer ev ≡ ok (if is_wanted (event_of ev) then some (event_of ev) else none)
    unfolding process
    process-wanted answer (true, kv) =
        if_and (should_process c delete_event) (passes c (delete_of c kv)) (delete_of c kv)
    process-wanted answer (false, kv) =
        ap (λ r. if should_process c put_event then r else ok none) (process_put-decoded answer kv)
        ∙ if_and (should_process c put_event) (passes c (put_of c kv (decode kv.bytes)))
            (put_of c kv (decode kv.bytes))

    not_once : is_once dec c c.mode ≡ false
    not_once = ap (is_once dec c) mode

    watch_event-wanted :
        (b : Bool) (e : Event K T) (emitted : List K)
        (rest : List K → List (EventOrError K T E) × Option (List K))
        → watch_event dec c (ok (if b then some e else none)) emitted rest
          ≡ (if b then event e ∷ (rest emitted).0 else (rest emitted).0, (rest emitted).1)
    unfolding watch_event
    watch_event-wanted true e emitted rest =
        ap
          (λ (o : Bool).
            send_event dec c o (contains dec c e.key emitted) e
              (rest (marked dec c o (contains dec c e.key emitted) e.key emitted)))
          not_once
    watch_event-wanted false e emitted rest = refl

    watch_batch-wanted :
        (answers : Answers K B C E) (i : ℕ) (emitted : List K) (evs : List (Bool × KeyValue K B))
        → watch_batch dec c answers i emitted evs
          ≡ (map event (select is_wanted (map event_of evs)), some emitted)
    unfolding watch_batch select
    watch_batch-wanted answers i emitted [] = refl
    watch_batch-wanted answers i emitted (ev ∷ evs) =
        ap (λ r. watch_event dec c r emitted (λ after. watch_batch dec c answers (suc i) after evs))
          (process-wanted (answers i) ev)
        ∙ watch_event-wanted (is_wanted (event_of ev)) (event_of ev) emitted
            (λ after. watch_batch dec c answers (suc i) after evs)
        ∙ rw (watch_batch-wanted answers (suc i) emitted evs) (by_test (is_wanted (event_of ev)))
      where
        by_test :
            (b : Bool)
            → ◌≡◌ {A = List (EventOrError K T E) × Option (List K)}
                (
                  if b
                      then event (event_of ev) ∷ map event (select is_wanted (map event_of evs))
                      else map event (select is_wanted (map event_of evs)),
                  some emitted,
                )
                (
                  map event (
                      if b
                      then event_of ev ∷ select is_wanted (map event_of evs)
                      else select is_wanted (map event_of evs)),
                  some emitted,
                )
        by_test true = refl
        by_test false = refl

    watch_responses-wanted :
        (answers : ℕ → Answers K B C E) (r : ℕ) (emitted : List K)
        (responses : List (WatchResponse K B E))
        → watch_responses dec c answers r emitted responses
          ≡ map event (select is_wanted (map event_of (changes_before responses)))
            ++ first_failure responses
    unfolding watch_responses select
    watch_responses-wanted answers r emitted [] = refl
    watch_responses-wanted answers r emitted (watch_error e ∷ responses) = refl
    watch_responses-wanted answers r emitted (watch_events evs ∷ responses) =
        let rest = changes_before responses in
        ap
          (λ b.
            continue_with dec c b (λ after. watch_responses dec c answers (suc r) after responses))
          (watch_batch-wanted (answers r) 0 emitted evs)
        ∙ rw
            (
              watch_responses-wanted answers (suc r) emitted responses,
              map-append event_of evs rest,
              select-append is_wanted (map event_of evs) (map event_of rest),
            )
            (sym (
              ap (λ sent. sent ++ first_failure responses)
                (map-append event (select is_wanted (map event_of evs))
                  (select is_wanted (map event_of rest)))
              ∙ append_assoc (map event (select is_wanted (map event_of evs))) _ _))

    -- In `AllMode`, without a gate and where every value can be read, `watch` sends just the events of
    -- the responses from the revision after the initial one that the configuration asks for, each once
    -- and in the order of etcd, up to the first response that is an error; then it sends that error,
    -- and nothing after it.
    pub watch-wanted :
        (answers : ℕ → Answers K B C E) (channel : ℕ → List (WatchResponse K B E))
        (initial : List (Event K T)) (revision : ℕ)
        → watch dec c answers channel initial revision
          ≡ map event (select is_wanted (map event_of (changes_before (channel (suc revision)))))
            ++ first_failure (channel (suc revision))
    unfolding watch
    watch-wanted answers channel initial revision =
        watch_responses-wanted answers 0 (initial_keys dec c initial) (channel (suc revision))
