-- ===== src/Trie/Words.antt =====
-- trie/trie.go: the words that a node stands for.
use rudder_go_kit.Prelude.{
  ℕ, ◌≡◌, ◌↔◌, refl, Bool, true, false, not, ◌&&◌, ◌||◌, List, [], ◌∷◌, none, some, if◌then◌else◌,
  ◌==◌, arith,
}
use rudder_go_kit.Trie.{
  Node, Children, no_child, child, children, is_end_of_word, empty_node, get_child, set_child,
  insert_runes, new_trie, trim_space, insert, insert_all, child_or_new,
}

unfoldable pub runes_eq : List ℕ → List ℕ → Bool
runes_eq [] [] = true
runes_eq (a ∷ v) (b ∷ w) = if a == b then runes_eq v w else false
runes_eq _ _ = false

-- Whether the path from the node spells the word and ends at a mark.
unfoldable pub has_word : List ℕ → Node → Bool
has_word [] n = is_end_of_word n
has_word (r ∷ rs) n = elim (get_child r (children n)) [ none ↦ false | some m ↦ has_word rs m ]

get_child-set_child :
    (r q : ℕ) (m : Node) (cs : Children)
    → get_child q (set_child r m cs) ≡ (if r == q then some m else get_child q cs)
unfolding get_child set_child
get_child-set_child r q m no_child = refl
get_child-set_child r q m (child p n cs) = ground (arith, get_child-set_child r q m cs)

has_word-empty : (w : List ℕ) → has_word w empty_node ≡ false
unfolding has_word get_child
has_word-empty [] = refl
has_word-empty (r ∷ rs) = refl

has_word-insert_runes :
    (v w : List ℕ) (n : Node) → has_word w (insert_runes v n) ≡ (runes_eq v w || has_word w n)
unfolding has_word insert_runes runes_eq
has_word-insert_runes [] [] n = refl
has_word-insert_runes [] (q ∷ w) n = refl
has_word-insert_runes (r ∷ v) [] n = ground arith
has_word-insert_runes (r ∷ v) (q ∷ w) n = ground (
  arith,
  get_child-set_child r q (insert_runes v (child_or_new (get_child r (children n)))) (children n),
  has_word-insert_runes v w (child_or_new (get_child r (children n))),
  has_word-empty w,
)

runes_eq_iff : (v w : List ℕ) → (runes_eq v w ≡ true) ↔ (v ≡ w)
unfolding runes_eq
runes_eq_iff [] [] = (λ e. refl, λ e. refl)
runes_eq_iff [] (b ∷ w) = (λ e. absurd (ground arith), λ e. absurd (ground arith))
runes_eq_iff (a ∷ v) [] = (λ e. absurd (ground arith), λ e. absurd (ground arith))
runes_eq_iff (a ∷ v) (b ∷ w) =
    let ih = runes_eq_iff v w in (λ e. ground (arith, ih.0), λ e. ground (arith, ih.1))

abbrev is_empty : List ℕ → Bool
is_empty [] = true
is_empty (r ∷ rs) = false

module _ (is_space : ℕ → Bool) where
  -- Whether the string is one of the words, cut at the spaces round it and not empty then.
  unfoldable pub stored : List (List ℕ) → List ℕ → Bool
  stored [] p = false
  stored (w ∷ ws) p =
      (not (is_empty (trim_space is_space w)) && runes_eq (trim_space is_space w) p) || stored ws p

  has_word-insert :
      (root : Node) (w p : List ℕ)
      → has_word p (insert is_space root w) ≡ (
          (not (is_empty (trim_space is_space w)) && runes_eq (trim_space is_space w) p)
          || has_word p root)
  unfolding insert
  has_word-insert root w p = by_word (trim_space is_space w)
    where
      by_word :
          (t : List ℕ)
          → has_word p (elim t [ [] ↦ root | r ∷ rs ↦ insert_runes (r ∷ rs) root ])
            ≡ ((not (is_empty t) && runes_eq t p) || has_word p root)
      by_word [] = refl
      by_word (r ∷ rs) = has_word-insert_runes (r ∷ rs) p root

  has_word-insert_all :
      (root : Node) (ws : List (List ℕ)) (p : List ℕ)
      → has_word p (insert_all is_space root ws) ≡ (stored ws p || has_word p root)
  unfolding insert_all stored
  has_word-insert_all root [] p = refl
  has_word-insert_all root (w ∷ ws) p =
      ground (arith, has_word-insert_all (insert is_space root w) ws p, has_word-insert root w p)

  pub has_word-stored :
      (ws : List (List ℕ)) (p : List ℕ) → has_word p (insert_all is_space new_trie ws) ≡ stored ws p
  unfolding new_trie
  has_word-stored ws p = ground (arith, has_word-insert_all empty_node ws p, has_word-empty p)
