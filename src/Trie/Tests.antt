-- ===== src/Trie/Tests.antt =====
-- trie/trie.go at concrete inputs.
use Prim.Native.Char.{code}
use Prim.Native.String.{String}
use rudder_go_kit.Prelude.{ℕ, ◌≡◌, refl, Bool, true, false, List, [], ◌∷◌, ◌==◌}
use rudder_go_kit.Trie.{
  get_child, set_child, insert_runes, new_trie, traverse_from, traverse, get_matched_prefix_word,
  has_matched_prefix_words, trim_left, trim_space, insert, insert_all,
}
use rudder_go_kit.Trie.Words.{runes_eq, has_word, stored}
use rudder_go_kit.Trie.Prefix.{first_prefix, lookups-first_prefix}

program : Unit {0}
unfolding get_child set_child insert_runes new_trie traverse_from traverse get_matched_prefix_word
    has_matched_prefix_words trim_left trim_space insert insert_all runes_eq has_word stored
    first_prefix
program = tt

abbrev runes : String → List ℕ
runes String.[] = []
runes (String.◌∷◌ c s) = code c ∷ runes s

abbrev space : ℕ → Bool
space r = r == b' '

-- "car", "cart" and "dog", the last with spaces round it.
abbrev words : List (List ℕ)
words = runes "cart" ∷ runes "car" ∷ runes " dog  " ∷ []

carton :
    get_matched_prefix_word (insert_all space new_trie words) (runes "carton") ≡ (true, runes "car")
unfolding program
carton = refl

cat : get_matched_prefix_word (insert_all space new_trie words) (runes "cat") ≡ (false, [])
unfolding program
cat = refl

dogs : has_matched_prefix_words (insert_all space new_trie words) (runes "dogs") ≡ true
unfolding program
dogs = refl

lookups-first_prefix_example :
    (get_matched_prefix_word (insert_all space new_trie words) (runes "carton")
      ≡ (true, runes "car"))
    × (has_matched_prefix_words (insert_all space new_trie words) (runes "carton") ≡ true)
unfolding program
lookups-first_prefix_example = lookups-first_prefix space words (runes "carton")

dog_stored : stored space words (runes "dog") ≡ true
unfolding program
dog_stored = refl
