-- ===== src/Throttling/Tests.antt =====
-- throttling/ at concrete inputs: a text of a number is its last digit, limiter 0 is at its limit.
use rudder_go_kit.Prelude.{◌+◌, ◌%◌, ◌≡◌, refl, true, false, [], ◌∷◌, none, some, ◌==◌, ℕ_discrete}
use rudder_go_kit.Prelude.Int.{pos}
use rudder_go_kit.Config.Types.{Text, text_discrete}
use rudder_go_kit.CacheTtl.{
  new, add_duration, contains, delete, find, remove, add, add_back, node_of, sweep, cleanup,
  delete_all, touch, read, get, put,
}
use rudder_go_kit.CacheTtl.Invariant.{new-IsValid}
use rudder_go_kit.CacheTtl.Reads.{steady}
use rudder_go_kit.Throttling.{
  Throttled, Answer, ok, error, rate_error, key_error, new_gcra, signed64, cache_time, cache_key,
  limiter_or_new, get_limiter, limited, gcra_limit, allow,
}
use rudder_go_kit.Throttling.Caching.{get_limiter-created}

abbrev answer : Answer
answer limiter cost = some (limiter == 0, pos 7)

abbrev external : Throttled
external = record { format_int = λ n. (b'0' + n % 10) ∷ []; creates = λ rate period burst. true }

program : Unit {0}
unfolding ℕ_discrete text_discrete new add_duration contains delete find remove add add_back node_of
    sweep cleanup delete_all touch read get put new_gcra signed64 cache_time cache_key
    limiter_or_new get_limiter limited gcra_limit allow
program = tt

abbrev key : Text
key = b'k' ∷ []

over_limit :
    (allow external answer 0 (pos 1) (pos 5) (pos 1) key (steady 10 10 10) 10 new_gcra).1
    ≡ ok (false, pos 7)
unfolding program
over_limit = refl

no_rate :
    (allow external answer 0 (pos 1) (pos 0) (pos 1) key (steady 10 10 10) 10 new_gcra).1
    ≡ error rate_error
unfolding program
no_rate = refl

no_key :
    (allow external answer 0 (pos 1) (pos 5) (pos 1) [] (steady 10 10 10) 10 new_gcra).1
    ≡ error key_error
unfolding program
no_key = refl

get_limiter-created_example :
    (get_limiter external key 5 5 1
      (steady 20 20 20)
      20
      (limiter_or_new external key 5 5 1 10 none new_gcra).0).1
    ≡ ok 0
unfolding program
get_limiter-created_example =
    get_limiter-created external key 5 5 1 10 20 (steady 20 20 20) new_gcra
      (new-IsValid text_discrete true) refl
