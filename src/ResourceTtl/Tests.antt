-- ===== src/ResourceTtl/Tests.antt =====
-- resourcettl/cache.go at concrete inputs.
use rudder_go_kit.Prelude.{ℕ, ◌≡◌, refl, [], ◌∷◌, some, true, false, ℕ_discrete}
use rudder_go_kit.Prelude.Int.{pos}
use rudder_go_kit.Prelude.Maps.{lookup, insert, delete}
use rudder_go_kit.CacheTtl
use rudder_go_kit.CacheTtl.Reads.{steady}
use rudder_go_kit.ResourceTtl.{
  Cache, Checkin, new_cache, increment, decrement, set_count, resource_of, on_evicted,
  on_evicted_all, ttl_get, hand_out, new_resource, checkout, invalidate, release, checkin, cleanup,
}
use rudder_go_kit.ResourceTtl.Counts.{
  System, checkouts, checkins, invalidates, Counted, pending, checkin_at, step, run, run-Counted,
}
use rudder_go_kit.ResourceTtl.Safety.{Cleans, IsDue, step-Cleans}

program : Unit {0}
unfolding CacheTtl.new CacheTtl.contains CacheTtl.delete CacheTtl.find CacheTtl.remove CacheTtl.add
    CacheTtl.add_back CacheTtl.add_duration CacheTtl.node_of CacheTtl.sweep CacheTtl.cleanup
    CacheTtl.delete_all CacheTtl.touch CacheTtl.read CacheTtl.get CacheTtl.put lookup insert delete
    new_cache increment decrement set_count resource_of on_evicted on_evicted_all ttl_get hand_out
    new_resource checkout invalidate release checkin cleanup pending checkin_at step run ℕ_discrete
program = tt

-- The resources are numbers, the zero value is 0.
abbrev start : System ℕ ℕ
start = record { cache = new_cache (pos 50) true; handles = [] }

-- Two checkouts of key 7 at 100 and 120 share resource 70 of ID 1.
abbrev shared : System ℕ ℕ
shared =
    run ℕ_discrete 0
      (checkouts 7 (some 70) 1 (steady 100 100 100) 100
        ∷ checkouts 7 (some 71) 2 (steady 120 120 120) 120
        ∷ [])
      start

shared_once : pending 1 shared.handles ≡ 2
unfolding program
shared_once = refl

-- Invalidated while in use: cleaned up by the last checkin, and only then.
cleaned_late :
    (run ℕ_discrete 0
      (invalidates 7 (steady 130 130 130) 130 ∷ checkins 0 ∷ [])
      shared).cache.cleaned
    ≡ []
unfolding program
cleaned_late = refl

cleaned_last :
    (run ℕ_discrete 0
      (invalidates 7 (steady 130 130 130) 130 ∷ checkins 0 ∷ checkins 1 ∷ [])
      shared).cache.cleaned
    ≡ (1, 70) ∷ []
unfolding program
cleaned_last = refl

start-Counted : Counted start
unfolding program
start-Counted = λ id. refl

run-Counted_example : Counted (
    run ℕ_discrete 0
      (checkouts 7 (some 70) 1 (steady 100 100 100) 100 ∷ checkins 0 ∷ checkins 0 ∷ [])
      start)
run-Counted_example =
    run-Counted ℕ_discrete 0
      (checkouts 7 (some 70) 1 (steady 100 100 100) 100 ∷ checkins 0 ∷ checkins 0 ∷ []) start
      start-Counted

-- Resource 70 of ID 1 is checked out and in again; the invalidation cleans it up.
abbrev returned : System ℕ ℕ
returned =
    run ℕ_discrete 0 (checkouts 7 (some 70) 1 (steady 100 100 100) 100 ∷ checkins 0 ∷ []) start

returned-Counted : Counted returned
returned-Counted =
    run-Counted ℕ_discrete 0 (checkouts 7 (some 70) 1 (steady 100 100 100) 100 ∷ checkins 0 ∷ [])
      start start-Counted

cleaned_at_once :
    (step ℕ_discrete 0 (invalidates 7 (steady 130 130 130) 130) returned).cache.cleaned
    ≡ (1, 70) ∷ []
unfolding program
cleaned_at_once = refl

step-Cleans_example :
    Cleans ℕ_discrete 0
      (IsDue ℕ_discrete 0 (invalidates 7 (steady 130 130 130) 130) returned)
      returned.cache
      (step ℕ_discrete 0 (invalidates 7 (steady 130 130 130) 130) returned).cache
step-Cleans_example =
    step-Cleans ℕ_discrete 0 (invalidates 7 (steady 130 130 130) 130) returned returned-Counted

abbrev once : Checkin ℕ
once = record { resource = 70; id = 1; done = false }

-- Resource 70 of ID 1 under key 7 until 150, with `n` checkouts.
abbrev held : ℕ → Cache ℕ ℕ
held n = record {
  resources = (1, 70) ∷ [];
  checkouts = (1, pos n) ∷ [];
  expiries = [];
  ttl = pos 50;
  ttlcache = record {
    ring = record { key = 7; value = 1; ttl = pos 50; expiration = 150 } ∷ [];
    index = 7 ∷ [];
    refresh_ttl = false;
  };
  cleaned = [];
}
