-- ===== src/Trie.antt =====
-- trie/trie.go: a prefix tree. A Go string is the list of its runes, in the order of a `range`.
-- `is_space` stands for `unicode.IsSpace`, by which `strings.TrimSpace` cuts.
pub mod Words
pub mod Prefix
mod Tests
use mathlib.Core.List.{reverse}
use rudder_go_kit.Prelude.{
  ℕ, Bool, true, false, List, [], ◌∷◌, ◌++◌, Option, none, some, if◌then◌else◌, ◌==◌,
}

mutual
  pub data Node : Type 0 where
    node : Children → Bool → Node

  -- `map[rune]*Node`
  pub data Children : Type 0 where
    no_child : Children
    child : ℕ → Node → Children → Children

abbrev pub children : Node → Children
children (node cs e) = cs

abbrev pub is_end_of_word : Node → Bool
is_end_of_word (node cs e) = e

abbrev pub empty_node : Node
empty_node = node no_child false

-- `node.children[r]`, `none` for the nil node.
unfoldable pub get_child : ℕ → Children → Option Node
get_child r no_child = none
get_child r (child q n cs) = if q == r then some n else get_child r cs

unfoldable pub set_child : ℕ → Node → Children → Children
set_child r m no_child = child r m no_child
set_child r m (child q n cs) = if q == r then child r m cs else child q n (set_child r m cs)

abbrev child_or_new : Option Node → Node
child_or_new none = empty_node
child_or_new (some n) = n

-- The loop of `Insert` below a node: the children on the way are made as needed, and the last node is
-- marked.
unfoldable pub insert_runes : List ℕ → Node → Node
insert_runes [] n = node (children n) true
insert_runes (r ∷ rs) n =
    node (set_child r (insert_runes rs (child_or_new (get_child r (children n)))) (children n))
      (is_end_of_word n)

unfoldable pub new_trie : Node
new_trie = empty_node

-- The loop of `traverse`: the node, the flag `buildString`, and the string built so far.
unfoldable pub traverse_from : List ℕ → Node → Bool → List ℕ → Bool × List ℕ
traverse_from [] n build matched = (false, [])
traverse_from (r ∷ rs) n build matched = elim (get_child r (children n)) [
  | none ↦ (false, [])
  | some m ↦
      let matched' = if build then matched ++ (r ∷ []) else matched in
      let rest = traverse_from rs m build matched' in
      if is_end_of_word m then (true, if build then matched' else []) else rest
]

unfoldable pub traverse : Node → List ℕ → Bool → Bool × List ℕ
traverse root input build = traverse_from input root build []

unfoldable pub get_matched_prefix_word : Node → List ℕ → Bool × List ℕ
get_matched_prefix_word root input = traverse root input true

unfoldable pub has_matched_prefix_words : Node → List ℕ → Bool
has_matched_prefix_words root input = let (matched, _) = traverse root input false in matched

module _ (is_space : ℕ → Bool) where
  unfoldable pub trim_left : List ℕ → List ℕ
  trim_left [] = []
  trim_left (r ∷ rs) = let rest = trim_left rs in if is_space r then rest else r ∷ rs

  unfoldable pub trim_space : List ℕ → List ℕ
  unfolding trim_left
  trim_space s = reverse (trim_left (reverse (trim_left s)))

  unfoldable pub insert : Node → List ℕ → Node
  insert root word = elim (trim_space word) [ [] ↦ root | r ∷ rs ↦ insert_runes (r ∷ rs) root ]

  -- The words put in one after the other.
  unfoldable pub insert_all : Node → List (List ℕ) → Node
  insert_all root [] = root
  insert_all root (w ∷ ws) = insert_all (insert root w) ws
