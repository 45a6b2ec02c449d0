-- ===== src/EtcdWatcher/Tests.antt =====
-- etcdwatcher/etcdwatcher.go at concrete inputs: keys, bytes, values and errors are numbers.
use rudder_go_kit.Prelude.{
  ℕ, ◌≡◌, refl, Bool, true, false, List, [], ◌∷◌, none, some, inl, inr, ◌==◌, ltb, ℕ_discrete,
  if◌then◌else◌,
}
use rudder_go_kit.EtcdWatcher.{
  Event, put_event, delete_event, KeyValue, plain, once_needs_prefix, ok, error, TxnResponse,
  not_succeeded, succeeded, WatchResponse, watch_events, watch_error, Config, all_mode, once_mode,
  all_watch, new_builder, with_prefix, with_watch_mode, with_filter, with_value_unmarshaller, build,
  keep, Answers, event, failure, passes, should_process, gate_answer, apply_txn_gate, gated,
  load_kvs, load_initial_data, process_put, process, contains, watch_event, watch_batch,
  watch_responses, watch, load_and_watch, watch_all,
}
use rudder_go_kit.EtcdWatcher.Once.{sent_keys, Fresh, watch-Fresh}
use rudder_go_kit.EtcdWatcher.Stream.{IsStream, watch-IsStream}
use rudder_go_kit.EtcdWatcher.Reference.{select, watch-wanted}

-- Values below 100 are put and pass the filter.
abbrev small : Event ℕ ℕ → Bool
small e = ltb e.value 100

abbrev once : Config ℕ ℕ ℕ ℕ ℕ
once = record {
  event_types = all_watch;
  mode = once_mode;
  filter = some small;
  unmarshal_value = λ b. if b == 255 then inl 1 else inr b;
  is_prefix = true;
  txn_gate = none;
  zero_value = 0;
}

abbrev ungated : Config ℕ ℕ ℕ ℕ ℕ
ungated = record once { mode = all_mode; unmarshal_value = λ b. inr b }

abbrev gate : Config ℕ ℕ ℕ ℕ ℕ
gate = record once { txn_gate = some (λ v. v ∷ []) }

abbrev kv : ℕ → ℕ → ℕ → KeyValue ℕ ℕ
kv k b r = record { key = k; bytes = b; mod_revision = r; version = 1 }

-- A transaction holds for the condition 7 only, and gives 8 for the key.
abbrev answers : Answers ℕ ℕ ℕ ℕ
answers i cmps k = holds cmps
  where
    holds : List ℕ → TxnResponse ℕ ℕ ℕ
    holds [] = not_succeeded
    holds (c ∷ cmps) = if c == 7 then succeeded (kv k 8 9 ∷ []) else not_succeeded

abbrev put : ℕ → ℕ → ℕ → Event ℕ ℕ
put k v r = record { key = k; event_type = put_event; value = v; revision = r; version = 1 }

abbrev changes : List (Bool × KeyValue ℕ ℕ)
changes = (false, kv 1 5 11) ∷ (false, kv 2 6 12) ∷ (false, kv 2 200 13) ∷ (true, kv 2 0 14) ∷ []

abbrev channel : ℕ → List (WatchResponse ℕ ℕ ℕ)
channel from =
    watch_events changes ∷ watch_events ((false, kv 3 255 15) ∷ (false, kv 4 1 16) ∷ []) ∷ []

program : Unit {0}
unfolding ℕ_discrete new_builder with_prefix with_watch_mode with_filter with_value_unmarshaller
    build keep passes should_process gate_answer apply_txn_gate gated load_kvs load_initial_data
    process_put process contains watch_event watch_batch watch_responses watch load_and_watch
    watch_all sent_keys select
program = tt

built :
    with_value_unmarshaller
      (λ b. if b == 255 then inl 1 else inr b)
      (with_filter small (with_watch_mode once_mode (with_prefix (new_builder (λ b. inr b) 0))))
    ≡ once
unfolding program
built = refl

needs_prefix : build (record once { is_prefix = false }) ≡ error once_needs_prefix
unfolding program
needs_prefix = refl

loaded :
    load_and_watch ℕ_discrete once answers (λ r. answers) (inr (kv 1 4 3 ∷ [], 10)) channel
    ≡ (ok (put 1 4 3 ∷ []), event (put 2 6 12) ∷ failure (plain 1) ∷ [])
unfolding program
loaded = refl

behind_gate :
    watch ℕ_discrete gate
      (λ r. answers)
      (λ from. watch_events ((false, kv 1 7 3) ∷ (false, kv 2 6 4) ∷ []) ∷ [])
      []
      2
    ≡ event (put 1 8 9) ∷ []
unfolding program
behind_gate = refl

watch-Fresh_example : Fresh ℕ_discrete once (1 ∷ []) (2 ∷ [])
unfolding program
watch-Fresh_example = watch-Fresh ℕ_discrete once (λ r. answers) channel (put 1 4 3 ∷ []) 10 refl

watch-IsStream_example : IsStream once (event (put 2 6 12) ∷ failure (plain 1) ∷ [])
unfolding program
watch-IsStream_example = watch-IsStream ℕ_discrete once (λ r. answers) channel (put 1 4 3 ∷ []) 10

watch-wanted_example :
    watch ℕ_discrete ungated
      (λ r. answers)
      (λ from. watch_events changes ∷ watch_error 9 ∷ watch_events changes ∷ [])
      []
      10
    ≡ event (put 1 5 11)
      ∷ event (put 2 6 12)
      ∷ event (record (put 2 0 14) { event_type = delete_event })
      ∷ failure (plain 9)
      ∷ []
unfolding program
watch-wanted_example =
    watch-wanted ℕ_discrete ungated (λ b. b) refl refl (λ b. refl) (λ r. answers)
      (λ from. watch_events changes ∷ watch_error 9 ∷ watch_events changes ∷ []) [] 10
