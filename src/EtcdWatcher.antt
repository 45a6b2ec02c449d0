-- ===== src/EtcdWatcher.antt =====
-- etcdwatcher/etcdwatcher.go. What etcd answers is an argument: the response of `Get`, the responses of
-- the watch channel in order, until it is closed, and, for each key value that is looked at, what a
-- transaction for it answers. What goes to the channel of the watcher is the list of the values that
-- are passed to `eventSender.Send`.
pub mod Once
pub mod Reference
pub mod Stream
mod Tests
use rudder_go_kit.Prelude.{
  ◌⊎◌, inl, inr, ℕ, zero, suc, ◌+◌, Bool, true, false, not, ◌&&◌, map, List, [], ◌∷◌, ◌++◌, Option,
  none, some, length, ite, if◌then◌else◌,
}

pub data EventType : Type 0 where
  put_event delete_event : EventType

pub data WatchMode : Type 0 where
  all_mode once_mode none_mode : WatchMode

pub data WatchEventType : Type 0 where
  put_watch delete_watch all_watch : WatchEventType

-- `Event`
pub record Event (K T : Type 0) : Type 0 where
  pub key : K
  pub event_type : EventType
  pub value : T
  pub revision : ℕ
  pub version : ℕ

-- A `KeyValue` of etcd, with the revision of its last change
pub record KeyValue (K B : Type 0) : Type 0 where
  pub key : K
  pub bytes : B
  pub mod_revision : ℕ
  pub version : ℕ

-- What can go wrong, with the error of etcd or of `unmarshalValue`: as it is, or wrapped.
pub data Error (E : Type 0) : Type 0 where
  plain failed_unmarshal gate_error gate_unmarshal : E → Error E
  once_needs_prefix : Error E

pub data Result (E A : Type 0) : Type 0 where
  ok : A → Result E A
  error : Error E → Result E A

-- What a transaction answers: an error, that its conditions do not hold, or the key values of the `Get`.
pub data TxnResponse (K B E : Type 0) : Type 0 where
  txn_error : E → TxnResponse K B E
  not_succeeded : TxnResponse K B E
  succeeded : List (KeyValue K B) → TxnResponse K B E

-- A response of the watch channel: an error, or events with whether they are deletions.
pub data WatchResponse (K B E : Type 0) : Type 0 where
  watch_error : E → WatchResponse K B E
  watch_events : List (Bool × KeyValue K B) → WatchResponse K B E

-- `config`, with the type `C` of the conditions of a transaction. `unmarshal_value` has an error or a
-- value; `zero_value` is the value of a deletion.
pub record Config (K T B C E : Type 0) : Type 0 where
  pub event_types : WatchEventType
  pub mode : WatchMode
  pub filter : Option (Event K T → Bool)
  pub unmarshal_value : B → E ⊎ T
  pub is_prefix : Bool
  pub txn_gate : Option (T → List C)
  pub zero_value : T

-- `NewBuilder`, with the unmarshaller for the type of values
unfoldable pub new_builder : {K T B C E : Type 0} → (B → E ⊎ T) → T → Config K T B C E
new_builder unmarshal zero_value = record {
  event_types = all_watch;
  mode = all_mode;
  filter = none;
  unmarshal_value = unmarshal;
  is_prefix = false;
  txn_gate = none;
  zero_value = zero_value;
}

module _ {K T B C E : Type 0} where
  unfoldable pub with_prefix : Config K T B C E → Config K T B C E
  with_prefix c = record c { is_prefix = true }

  unfoldable pub with_watch_event_type : WatchEventType → Config K T B C E → Config K T B C E
  with_watch_event_type t c = record c { event_types = t }

  unfoldable pub with_watch_mode : WatchMode → Config K T B C E → Config K T B C E
  with_watch_mode m c = record c { mode = m }

  unfoldable pub with_filter : (Event K T → Bool) → Config K T B C E → Config K T B C E
  with_filter f c = record c { filter = some f }

  unfoldable pub with_txn_gate : (T → List C) → Config K T B C E → Config K T B C E
  with_txn_gate gate c = record c { txn_gate = some gate }

  unfoldable pub with_value_unmarshaller : (B → E ⊎ T) → Config K T B C E → Config K T B C E
  with_value_unmarshaller unmarshal c = record c { unmarshal_value = unmarshal }

-- `Build`
unfoldable pub build : {K T B C E : Type 0} → Config K T B C E → Result E (Config K T B C E)
build c = elim c.mode [
  | once_mode ↦ if c.is_prefix then ok c else error once_needs_prefix
  | other ↦ ok c
]

-- An event goes before the rest of the loop, unless there is an error.
unfoldable pub keep : {E A : Type 0} → Result E (Option A) → Result E (List A) → Result E (List A)
keep (error e) rest = error e
keep (ok none) rest = rest
keep (ok (some a)) (error d) = error d
keep (ok (some a)) (ok rest) = ok (a ∷ rest)

abbrev pub with_revision : {E A : Type 0} → ℕ → Result E A → Result E (A × ℕ)
with_revision revision (error e) = error e
with_revision revision (ok a) = ok (a, revision)

-- What the transactions answer, by the place of the key value that they are for.
abbrev pub Answers : Type 0 → Type 0 → Type 0 → Type 0 → Type 0
Answers K B C E = ℕ → List C → K → TxnResponse K B E

-- `EventOrError`
pub data EventOrError (K T E : Type 0) : Type 0 where
  event : Event K T → EventOrError K T E
  failure : Error E → EventOrError K T E

module _ {K T B C E : Type 0} (c : Config K T B C E) where
  -- The event passes the filter, if there is one.
  unfoldable pub passes : Event K T → Bool
  passes e = elim c.filter [ none ↦ true | some f ↦ f e ]

  unfoldable pub should_process : EventType → Bool
  should_process t = elim c.event_types [
    | put_watch ↦ elim t [ put_event ↦ true | delete_event ↦ false ]
    | delete_watch ↦ elim t [ put_event ↦ false | delete_event ↦ true ]
    | all_watch ↦ true
  ]

  abbrev pub put_of : KeyValue K B → T → Event K T
  put_of kv v = record {
    key = kv.key;
    event_type = put_event;
    value = v;
    revision = kv.mod_revision;
    version = kv.version;
  }

  -- The event again, if it passes the filter.
  abbrev pub if_passes : Event K T → Option (Event K T)
  if_passes e = if passes e then some e else none

  -- `applyTxnGate` on the answer of its transaction
  unfoldable pub gate_answer : TxnResponse K B E → Result E (Option (Event K T))
  gate_answer (txn_error e) = error (gate_error e)
  gate_answer not_succeeded = ok none
  gate_answer (succeeded []) = ok none
  gate_answer (succeeded (kv ∷ kvs)) = elim (c.unmarshal_value kv.bytes) [
    | inl e ↦ error (gate_unmarshal e)
    | inr v ↦ ok (if_passes (put_of kv v))
  ]

  -- `applyTxnGate`
  unfoldable pub apply_txn_gate :
      (T → List C) → (List C → K → TxnResponse K B E) → Event K T → Result E (Option (Event K T))
  apply_txn_gate gate answer e = elim (gate e.value) [
    | [] ↦ ok (some e)
    | cmp ∷ cmps ↦ gate_answer (answer (cmp ∷ cmps) e.key)
  ]

  -- The event behind the gate, if there is one.
  unfoldable pub gated :
      (List C → K → TxnResponse K B E) → Event K T → Result E (Option (Event K T))
  gated answer e = elim c.txn_gate [ none ↦ ok (some e) | some gate ↦ apply_txn_gate gate answer e ]

  -- The loop of `loadInitialData`, from the key value at a place on.
  unfoldable pub load_kvs : Answers K B C E → ℕ → List (KeyValue K B) → Result E (List (Event K T))
  load_kvs answers i [] = ok []
  load_kvs answers i (kv ∷ kvs) =
      let rest = load_kvs answers (suc i) kvs in
      elim (c.unmarshal_value kv.bytes) [
        | inl e ↦ error (failed_unmarshal e)
        | inr v ↦ if passes (put_of kv v) then keep (gated (answers i) (put_of kv v)) rest else rest
      ]

  -- `loadInitialData` on the response of `Get`: the events, and the revision of the response.
  unfoldable pub load_initial_data :
      Answers K B C E → E ⊎ (List (KeyValue K B) × ℕ) → Result E (List (Event K T) × ℕ)
  load_initial_data answers (inl e) = error (plain e)
  load_initial_data answers (inr (kvs, revision)) = elim c.event_types [
    | delete_watch ↦ ok ([], revision)
    | other ↦ with_revision revision (load_kvs answers 0 kvs)
  ]

  -- The event for a key value that was put, or an error: the filter, then the gate.
  unfoldable pub process_put :
      (List C → K → TxnResponse K B E) → KeyValue K B → Result E (Option (Event K T))
  process_put answer kv = elim (c.unmarshal_value kv.bytes) [
    | inl e ↦ error (plain e)
    | inr v ↦ if passes (put_of kv v) then gated answer (put_of kv v) else ok none
  ]

  abbrev pub delete_of : KeyValue K B → Event K T
  delete_of kv = record {
    key = kv.key;
    event_type = delete_event;
    value = c.zero_value;
    revision = kv.mod_revision;
    version = kv.version;
  }

  -- A round of the loop of `watch` up to the test of `OnceMode`.
  unfoldable pub process :
      (List C → K → TxnResponse K B E) → Bool × KeyValue K B → Result E (Option (Event K T))
  process answer (true, kv) =
      if should_process delete_event then ok (if_passes (delete_of kv)) else ok none
  process answer (false, kv) = if should_process put_event then process_put answer kv else ok none

module _ {K T B C E : Type 0} (dec : Discrete K) (c : Config K T B C E) where
  unfoldable pub contains : K → List K → Bool
  contains k [] = false
  contains k (j ∷ js) = ite (dec j k) true (contains k js)

  abbrev pub is_once : WatchMode → Bool
  is_once once_mode = true
  is_once _ = false

  -- The emitted keys behind an event, by whether the mode is `OnceMode` and the key was emitted.
  abbrev pub marked : Bool → Bool → K → List K → List K
  marked true false k emitted = k ∷ emitted
  marked _ _ k emitted = emitted

  -- What is sent with an event, which `OnceMode` skips if its key was emitted.
  abbrev pub send_event :
      Bool
      → Bool
      → Event K T
      → List (EventOrError K T E) × Option (List K)
      → List (EventOrError K T E) × Option (List K)
  send_event true true e rest = rest
  send_event _ _ e rest = (event e ∷ rest.0, rest.1)

  -- A round of the loop of `watch` from its event on, and the rounds after it.
  unfoldable pub watch_event :
      Result E (Option (Event K T))
      → List K
      → (List K → List (EventOrError K T E) × Option (List K))
      → List (EventOrError K T E) × Option (List K)
  watch_event (error e) emitted rest = (failure e ∷ [], none)
  watch_event (ok none) emitted rest = rest emitted
  watch_event (ok (some e)) emitted rest =
      let repeated = contains e.key emitted in
      send_event (is_once c.mode) repeated e (rest (marked (is_once c.mode) repeated e.key emitted))

  -- The events of a response: what is sent, and the emitted keys, unless `watch` returns.
  unfoldable pub watch_batch :
      Answers K B C E
      → ℕ
      → List K
      → List (Bool × KeyValue K B)
      → List (EventOrError K T E) × Option (List K)
  watch_batch answers i emitted [] = ([], some emitted)
  watch_batch answers i emitted (ev ∷ evs) =
      watch_event (process c (answers i) ev) emitted
        (λ after. watch_batch answers (suc i) after evs)

  -- What is sent for a response, and then for the ones after it, unless `watch` returns.
  abbrev pub continue_with :
      List (EventOrError K T E) × Option (List K)
      → (List K → List (EventOrError K T E))
      → List (EventOrError K T E)
  continue_with (sent, none) rest = sent
  continue_with (sent, some emitted) rest = sent ++ rest emitted

  -- The loop over the watch channel
  unfoldable pub watch_responses :
      (ℕ → Answers K B C E) → ℕ → List K → List (WatchResponse K B E) → List (EventOrError K T E)
  watch_responses answers r emitted [] = []
  watch_responses answers r emitted (watch_error e ∷ rs) = failure (plain e) ∷ []
  watch_responses answers r emitted (watch_events evs ∷ rs) =
      continue_with (watch_batch (answers r) 0 emitted evs)
        (λ after. watch_responses answers (suc r) after rs)

  abbrev pub initial_keys : List (Event K T) → List K
  initial_keys es = if is_once c.mode then map (λ (e : Event K T). e.key) es else []

  -- `watch`, on the channel that etcd gives from a revision on: what is sent before it closes.
  unfoldable pub watch :
      (ℕ → Answers K B C E)
      → (ℕ → List (WatchResponse K B E))
      → List (Event K T)
      → ℕ
      → List (EventOrError K T E)
  watch answers channel initial revision =
      watch_responses answers 0 (initial_keys initial) (channel (suc revision))

  abbrev pub is_none : WatchMode → Bool
  is_none none_mode = true
  is_none _ = false

  -- `LoadAndWatch`: the initial events, and what is sent afterwards.
  unfoldable pub load_and_watch :
      Answers K B C E
      → (ℕ → Answers K B C E)
      → E ⊎ (List (KeyValue K B) × ℕ)
      → (ℕ → List (WatchResponse K B E))
      → Result E (List (Event K T)) × List (EventOrError K T E)
  load_and_watch at_load answers response channel = elim (load_initial_data c at_load response) [
    | error e ↦ (error e, [])
    | ok (events, revision) ↦
        (ok events, if is_none c.mode then [] else watch answers channel events revision)
  ]

  -- `Watch`: what is sent.
  unfoldable pub watch_all :
      Answers K B C E
      → (ℕ → Answers K B C E)
      → E ⊎ (List (KeyValue K B) × ℕ)
      → (ℕ → List (WatchResponse K B E))
      → List (EventOrError K T E)
  watch_all at_load answers response channel = elim (load_initial_data c at_load response) [
    | error e ↦ failure e ∷ []
    | ok (events, revision) ↦
        map event events ++ (if is_none c.mode then [] else watch answers channel events revision)
  ]
