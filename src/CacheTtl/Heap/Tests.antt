-- ===== src/CacheTtl/Heap/Tests.antt =====
-- cachettl/cachettl.go: the ring of pointers at concrete inputs.
use rudder_go_kit.Prelude.{ℕ, zero, suc, refl, [], ◌∷◌, Option, none, some, arith}
use rudder_go_kit.Prelude.Int.{pos}
use rudder_go_kit.CacheTtl as Nodes
use rudder_go_kit.CacheTtl.Heap.{Heap, add, remove}
use rudder_go_kit.CacheTtl.Heap.Rewire.{Ring}
use rudder_go_kit.CacheTtl.Heap.Refines.{Represents, Refines, add-Refines, remove-Refines}

abbrev link : ℕ → ℕ → ℕ → ℕ → Option ℕ
link back first second zero = some back
link back first second (suc zero) = some first
link back first second (suc (suc zero)) = some second
link back first second (suc (suc (suc a))) = none

abbrev early : Nodes.Node ℕ ℕ
early = record { key = 10; value = 1; ttl = pos 5; expiration = 100 }

abbrev late : Nodes.Node ℕ ℕ
late = record { key = 20; value = 2; ttl = pos 5; expiration = 200 }

abbrev between : Nodes.Node ℕ ℕ
between = record { key = 30; value = 3; ttl = pos 5; expiration = 150 }

abbrev holding : ℕ → Option (Nodes.Node ℕ ℕ)
holding zero = none
holding (suc zero) = some early
holding (suc (suc zero)) = some late
holding (suc (suc (suc a))) = some between

-- The ring 0, 1, 2 with a node at 3 that is not in it.
abbrev two_nodes : Heap ℕ ℕ
two_nodes = record { prev = link 2 0 1; next = link 1 2 0; contents = holding }

two_nodes-Represents : Represents two_nodes (1 ∷ 2 ∷ []) (early ∷ late ∷ [])
unfolding Ring
two_nodes-Represents = record {
  ring = (
    (refl, refl, (refl, refl, (refl, refl))),
    ((omega arith, (omega arith, tt)), ((omega arith, tt), (tt, tt))),
  );
  holds = (refl, (refl, tt));
}

add-Refines_example : Refines (add 3 3 two_nodes) (Nodes.add between (early ∷ late ∷ []))
add-Refines_example =
    add-Refines 3 two_nodes (1 ∷ 2 ∷ []) (early ∷ late ∷ []) 3 between two_nodes-Represents refl
      refl (omega arith, (omega arith, (omega arith, tt))) (omega arith)

remove-Refines_example : Refines (remove 1 two_nodes) (late ∷ [])
remove-Refines_example =
    remove-Refines two_nodes [] 1 (2 ∷ []) [] early (late ∷ []) refl two_nodes-Represents
