-- ===== src/EtcdWatcher/Once.antt =====
-- etcdwatcher/etcdwatcher.go: what `OnceMode` sends.
use mathlib.Core.Path.{subst}
use rudder_go_kit.Prelude.{
  ℕ, suc, ◌≡◌, refl, sym, ap, Bool, true, false, List, [], ◌∷◌, ◌++◌, map, Option, none, some,
  if◌then◌else◌, arith,
}
use rudder_go_kit.EtcdWatcher.{
  Event, KeyValue, Result, ok, error, WatchResponse, watch_error, watch_events, Config, once_mode,
  Answers, EventOrError, event, failure, process, contains, is_once, marked, send_event,
  watch_event, watch_batch, continue_with, initial_keys, watch_responses, watch,
}

module _ {K T E : Type 0} where
  -- The keys of the events that are sent.
  unfoldable pub sent_keys : List (EventOrError K T E) → List K
  sent_keys [] = []
  sent_keys (event e ∷ s) = e.key ∷ sent_keys s
  sent_keys (failure e ∷ s) = sent_keys s

  sent_keys-append :
      (s r : List (EventOrError K T E)) → sent_keys (s ++ r) ≡ sent_keys s ++ sent_keys r
  unfolding sent_keys
  sent_keys-append [] r = refl
  sent_keys-append (event e ∷ s) r = ap (λ l. e.key ∷ l) (sent_keys-append s r)
  sent_keys-append (failure e ∷ s) r = sent_keys-append s r

module _ {K T B C E : Type 0} (dec : Discrete K) (c : Config K T B C E) where
  -- No key stands twice, and none is among the emitted ones.
  abbrev pub Fresh : List K → List K → Type 0
  Fresh emitted [] = Unit
  Fresh emitted (k ∷ ks) = (contains dec c k emitted ≡ false) × Fresh (k ∷ emitted) ks

  -- The emitted keys after more keys.
  unfoldable push : List K → List K → List K
  push [] emitted = emitted
  push (k ∷ ks) emitted = push ks (k ∷ emitted)

  Fresh-append :
      (emitted xs ys : List K)
      → Fresh emitted xs
      → Fresh (push xs emitted) ys
      → Fresh emitted (xs ++ ys)
  unfolding push
  Fresh-append emitted [] ys h g = g
  Fresh-append emitted (x ∷ xs) ys h g = (h.0, Fresh-append (x ∷ emitted) xs ys h.1 g)

  -- What a response leaves: fresh keys, which are the ones that are added to the emitted ones.
  record BatchOnce (emitted : List K) (r : List (EventOrError K T E) × Option (List K))
      : Type 0 where
    fresh : Fresh emitted (sent_keys r.0)
    added : (after : List K) → r.1 ≡ some after → after ≡ push (sent_keys r.0) emitted

  send_event-BatchOnce :
      (o d : Bool) (e : Event K T) (emitted : List K)
      (rest : List K → List (EventOrError K T E) × Option (List K))
      → o ≡ true
      → contains dec c e.key emitted ≡ d
      → ((after : List K) → BatchOnce after (rest after))
      → BatchOnce emitted (send_event dec c o d e (rest (marked dec c o d e.key emitted)))
  unfolding sent_keys push
  send_event-BatchOnce false d e emitted rest o p h = absurd (cc)
  send_event-BatchOnce true true e emitted rest o p h = h emitted
  send_event-BatchOnce true false e emitted rest o p h =
      let r = h (e.key ∷ emitted) in record { fresh = (p, r.fresh); added = r.added }

  watch_event-BatchOnce :
      (result : Result E (Option (Event K T))) (emitted : List K)
      (rest : List K → List (EventOrError K T E) × Option (List K))
      → is_once dec c c.mode ≡ true
      → ((after : List K) → BatchOnce after (rest after))
      → BatchOnce emitted (watch_event dec c result emitted rest)
  unfolding watch_event sent_keys
  watch_event-BatchOnce (error e) emitted rest o h = record {
    fresh = tt;
    added = λ after g. absurd (cc);
  }
  watch_event-BatchOnce (ok none) emitted rest o h = h emitted
  watch_event-BatchOnce (ok (some e)) emitted rest o h =
      send_event-BatchOnce (is_once dec c c.mode) (contains dec c e.key emitted) e emitted rest o
        refl h

  watch_batch-BatchOnce :
      (answers : Answers K B C E) (i : ℕ) (emitted : List K) (evs : List (Bool × KeyValue K B))
      → is_once dec c c.mode ≡ true
      → BatchOnce emitted (watch_batch dec c answers i emitted evs)
  unfolding watch_batch sent_keys push
  watch_batch-BatchOnce answers i emitted [] o = record {
    fresh = tt;
    added = λ after g. ground (arith, g);
  }
  watch_batch-BatchOnce answers i emitted (ev ∷ evs) o =
      watch_event-BatchOnce (process c (answers i) ev) emitted
        (λ after. watch_batch dec c answers (suc i) after evs) o
        (λ after. watch_batch-BatchOnce answers (suc i) after evs o)

  continue_with-Fresh :
      (emitted : List K) (r : List (EventOrError K T E) × Option (List K))
      (rest : List K → List (EventOrError K T E))
      → BatchOnce emitted r
      → ((after : List K) → Fresh after (sent_keys (rest after)))
      → Fresh emitted (sent_keys (continue_with dec c r rest))
  continue_with-Fresh emitted (sent, none) rest b h = b.fresh
  continue_with-Fresh emitted (sent, some after) rest b h =
      rw (sent_keys-append sent (rest after)) (
        Fresh-append emitted (sent_keys sent) (sent_keys (rest after)) b.fresh
          (rw (sym (b.added after refl)) (h after)))

  watch_responses-Fresh :
      (answers : ℕ → Answers K B C E) (r : ℕ) (emitted : List K) (rs : List (WatchResponse K B E))
      → is_once dec c c.mode ≡ true
      → Fresh emitted (sent_keys (watch_responses dec c answers r emitted rs))
  unfolding watch_responses sent_keys
  watch_responses-Fresh answers r emitted [] o = tt
  watch_responses-Fresh answers r emitted (watch_error e ∷ rs) o = tt
  watch_responses-Fresh answers r emitted (watch_events evs ∷ rs) o =
      continue_with-Fresh emitted (watch_batch dec c (answers r) 0 emitted evs)
        (λ after. watch_responses dec c answers (suc r) after rs)
        (watch_batch-BatchOnce (answers r) 0 emitted evs o)
        (λ after. watch_responses-Fresh answers (suc r) after rs o)

  -- In `OnceMode` no two of the events that `watch` sends have one key, and none has the key of an
  -- initial event, whatever etcd and the transactions answer.
  pub watch-Fresh :
      (answers : ℕ → Answers K B C E) (channel : ℕ → List (WatchResponse K B E))
      (initial : List (Event K T)) (revision : ℕ)
      → c.mode ≡ once_mode
      → Fresh
          (map (λ (e : Event K T). e.key) initial)
          (sent_keys (watch dec c answers channel initial revision))
  unfolding watch
  watch-Fresh answers channel initial revision once =
      let o : is_once dec c c.mode ≡ true = ap (is_once dec c) once in
      let keys : initial_keys dec c initial ≡ map (λ (e : Event K T). e.key) initial =
        ap (λ (b : Bool). if b then map (λ (e : Event K T). e.key) initial else []) o in
      subst
        (λ ks. Fresh ks (
          sent_keys (
            watch_responses dec c answers 0 (initial_keys dec c initial) (channel (suc revision)))))
        keys
        (watch_responses-Fresh answers 0 (initial_keys dec c initial) (channel (suc revision)) o)
