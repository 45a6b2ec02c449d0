-- ===== src/Cgroup/Tests.antt =====
-- mem/internal/cgroup at concrete inputs, and the theorem's instance.
use rudder_go_kit.Prelude.{List, [], ◌∷◌, ◌++◌, ◌==◌, some, arith, length}
use rudder_go_kit.Prelude.Int.{pos}
use rudder_go_kit.Config.Types.{Text, codes}
use rudder_go_kit.Cgroup.{Host, get_memory_limit}
use rudder_go_kit.Cgroup.Limit.{IsLimit, get_memory_limit-IsLimit}

abbrev joined : List Text → Text
joined [] = []
joined (p ∷ ps) = p ++ joined ps

-- A host on which every file holds one line, whose number is its length.
abbrev one_file : Host
one_file = record {
  read_file = λ path. some (codes "12345");
  join_path = joined;
  parse_int = λ s. some (pos (length s));
  is_space = λ c. c == b' ';
}

get_memory_limit-IsLimit_example : IsLimit one_file [] 100 (get_memory_limit one_file [] (pos 100))
get_memory_limit-IsLimit_example = get_memory_limit-IsLimit one_file [] 100 (omega arith)
