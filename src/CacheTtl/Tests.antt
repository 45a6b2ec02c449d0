-- ===== src/CacheTtl/Tests.antt =====
-- cachettl/cachettl.go at concrete inputs: the cases of cachettl_test.go and the theorems' instances.
use rudder_go_kit.Prelude.{ℕ, ◌≡◌, refl, [], ◌∷◌, true, false, ℕ_discrete}
use rudder_go_kit.Prelude.Int.{pos}
use rudder_go_kit.CacheTtl.{
  Cache, new, contains, delete, find, remove, add, add_back, add_duration, node_of, sweep, cleanup,
  delete_all, touch, read, get, put, slice,
}
use rudder_go_kit.CacheTtl.Invariant.{IsValid, new-IsValid, put-IsValid, get-IsValid}
use rudder_go_kit.CacheTtl.Reads.{live, expired, steady, value_at, kept_ttl, get-put, get-evicts}

program : Unit {0}
unfolding new contains delete find remove add add_back add_duration node_of sweep cleanup delete_all
    touch read get put slice live expired value_at kept_ttl ℕ_discrete
program = tt

-- Keys 1 and 2 with values 10 and 20, put at time 100 for 50 and for 20.
abbrev two : Cache ℕ ℕ
two = record {
  ring =
      record { key = 2; value = 20; ttl = pos 20; expiration = 120 }
      ∷ record { key = 1; value = 10; ttl = pos 50; expiration = 150 }
      ∷ [];
  index = 2 ∷ 1 ∷ [];
  refresh_ttl = true;
}

abbrev fixed : Cache ℕ ℕ
fixed = record two { refresh_ttl = false }

put_twice : put ℕ_discrete 2 20 (pos 20) 100 (put ℕ_discrete 1 10 (pos 50) 100 (new true)) ≡ two
unfolding program
put_twice = refl

get_refreshes : slice ℕ_discrete (get ℕ_discrete 0 2 (steady 110 140 141) two).0 ≡ 10 ∷ 20 ∷ []
unfolding program
get_refreshes = refl

two-IsValid : IsValid ℕ_discrete two
unfolding new contains delete find remove add add_back add_duration node_of put ℕ_discrete
two-IsValid =
    put-IsValid ℕ_discrete (put ℕ_discrete 1 10 (pos 50) 100 (new true)) 2 20 (pos 20) 100
      (put-IsValid ℕ_discrete (new true) 1 10 (pos 50) 100 (new-IsValid ℕ_discrete true))

fixed-IsValid : IsValid ℕ_discrete fixed
fixed-IsValid = record {
  sorted = two-IsValid.sorted;
  distinct = two-IsValid.distinct;
  agree = two-IsValid.agree;
}

put-IsValid_example : IsValid ℕ_discrete (put ℕ_discrete 2 21 (pos 90) 110 two)
put-IsValid_example = put-IsValid ℕ_discrete two 2 21 (pos 90) 110 two-IsValid

get-IsValid_example : IsValid ℕ_discrete (get ℕ_discrete 0 1 (steady 130 130 131) two).0
get-IsValid_example = get-IsValid ℕ_discrete 0 two 1 (steady 130 130 131) two-IsValid

get-put_example :
    (get ℕ_discrete 0 2 (steady 150 150 151) (put ℕ_discrete 2 21 (pos 90) 110 two)).1 ≡ 21
unfolding program
get-put_example = (get-put ℕ_discrete 0 two 2 1 21 (pos 90) 110 (steady 150 150 151) two-IsValid).0

get-evicts_example : (get ℕ_discrete 0 1 (steady 130 130 131) two).2 ≡ (2, 20) ∷ []
unfolding program
get-evicts_example = (get-evicts ℕ_discrete 0 two 1 130 130 131 two-IsValid).1
