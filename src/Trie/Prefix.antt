-- ===== src/Trie/Prefix.antt =====
-- trie/trie.go: `GetMatchedPrefixWord` and `HasMatchedPrefixWords` against the list of the words.
use mathlib.Core.List.{append_assoc}
use rudder_go_kit.Prelude.{
  ℕ, suc, ◌+◌, ◌≤◌, ◌≡◌, refl, sym, ap, ◌∙◌, inl, inr, Bool, true, false, List, [], ◌∷◌, ◌++◌,
  Option, none, some, if◌then◌else◌, Bool-cases, Option-cases, length, length-append, is_some,
  arith,
}
use rudder_go_kit.Trie.{
  Node, children, is_end_of_word, get_child, new_trie, traverse_from, traverse,
  get_matched_prefix_word, has_matched_prefix_words, insert_all,
}
use rudder_go_kit.Trie.Words.{has_word, has_word-stored, stored}

-- The shortest of `done ++ r ∷ []`, `done ++ r ∷ q ∷ []`, … that passes the test, for `r ∷ q ∷ …` the
-- string.
unfoldable pub first_prefix : (List ℕ → Bool) → List ℕ → List ℕ → Option (List ℕ)
first_prefix test done [] = none
first_prefix test done (r ∷ rs) =
    let rest = first_prefix test (done ++ (r ∷ [])) rs in
    if test (done ++ (r ∷ [])) then some (done ++ (r ∷ [])) else rest

first_prefix-none :
    (test : List ℕ → Bool) (done : List ℕ) (r : ℕ) (rs : List ℕ)
    → ((q : List ℕ) → test (done ++ (r ∷ q)) ≡ false)
    → first_prefix test done (r ∷ rs) ≡ none
unfolding first_prefix
first_prefix-none test done r [] h = rw (h [])
first_prefix-none test done r (q ∷ rs) h = rw (h []) (
    first_prefix-none test (done ++ (r ∷ [])) q rs
      (λ w. rw (append_assoc done (r ∷ []) (q ∷ w)) (h (q ∷ w))))

-- What the two lookups make of the shortest prefix.
abbrev answer : Bool → Option (List ℕ) → Bool × List ℕ
answer build none = (false, [])
answer build (some p) = (true, if build then p else [])

extend_matched :
    (build : Bool) (done matched : List ℕ) (r : ℕ)
    → matched ≡ (if build then done else [])
    → (if build then matched ++ (r ∷ []) else matched) ≡ (if build then done ++ (r ∷ []) else [])
extend_matched true done matched r e = ap (λ l. l ++ (r ∷ [])) e
extend_matched false done matched r e = e

step-answer :
    (build stop : Bool) (p matched : List ℕ) (rest : Bool × List ℕ) (found : Option (List ℕ))
    → matched ≡ (if build then p else [])
    → rest ≡ answer build found
    → (if stop then (true, if build then matched else []) else rest)
      ≡ answer build (if stop then some p else found)
step-answer true true p matched rest found e h = ap (λ l. (true, l)) e
step-answer false true p matched rest found e h = refl
step-answer build false p matched rest found e h = h

-- A node reached by `done` whose paths spell the words that extend `done`.
traverse_from-first_prefix :
    (test : List ℕ → Bool) (rs done matched : List ℕ) (n : Node) (build : Bool)
    → ((r : ℕ) (q : List ℕ) → has_word (r ∷ q) n ≡ test (done ++ (r ∷ q)))
    → matched ≡ (if build then done else [])
    → traverse_from rs n build matched ≡ answer build (first_prefix test done rs)
unfolding traverse_from first_prefix has_word
traverse_from-first_prefix test [] done matched n build h b = refl
traverse_from-first_prefix test (r ∷ rs) done matched n build h b =
    elim (Option-cases (get_child r (children n))) [
      | inl e ↦
          let dead : (q : List ℕ) → test (done ++ (r ∷ q)) ≡ false =
            λ q. sym (h r q) ∙ rw (e, has_word) in
          rw (e, traverse_from) (sym (ap (answer build) (first_prefix-none test done r rs dead)))
      | inr (m, e) ↦
          let mark : test (done ++ (r ∷ [])) ≡ is_end_of_word m = sym (h r []) ∙ rw (e, has_word) in
          let extended = extend_matched build done matched r b in
          let below =
            traverse_from-first_prefix test rs (done ++ (r ∷ [])) _ m build
              (λ q w. rw (append_assoc done (r ∷ []) (q ∷ w)) (rw (e, has_word) at (h r (q ∷ w))))
              extended in
          rw (e, traverse_from, mark) (step-answer build (is_end_of_word m) _ _ _ _ extended below)
    ]

first_prefix-cases :
    (test : List ℕ → Bool) (done rs : List ℕ) (p : List ℕ)
    → first_prefix test done rs ≡ some p
    → (test p ≡ true) × (t : List ℕ) × (done ++ rs ≡ p ++ t)
unfolding first_prefix
first_prefix-cases test done [] p e = absurd (ground arith)
first_prefix-cases test done (r ∷ rs) p e = elim (Bool-cases (test (done ++ (r ∷ [])))) [
  | inl pass ↦
      let e' : some (done ++ (r ∷ [])) ≡ some p = rw pass at e in
      let same : done ++ (r ∷ []) ≡ p = cc in
      (rw (← same) pass, rs, rw (← same) (sym (append_assoc done (r ∷ []) rs)))
  | inr fail ↦
      let (pass, t, whole) = first_prefix-cases test (done ++ (r ∷ [])) rs p (rw fail at e) in
      (pass, t, sym (append_assoc done (r ∷ []) rs) ∙ whole)
]

-- Nothing shorter that extends `done` along the string passes the test.
first_prefix-shortest :
    (test : List ℕ → Bool) (done : List ℕ) (r : ℕ) (q u p : List ℕ)
    → first_prefix test done (r ∷ (q ++ u)) ≡ some p
    → test (done ++ (r ∷ q)) ≡ true
    → length p ≤ length done + suc (length q)
unfolding first_prefix
first_prefix-shortest test done r [] u p e pass =
    let e' : some (done ++ (r ∷ [])) ≡ some p = rw pass at e in
    let same : p ≡ done ++ (r ∷ []) = cc in rw same (omega (arith, length-append done (r ∷ [])))
first_prefix-shortest test done r (s ∷ q) u p e pass = elim (Bool-cases (test (done ++ (r ∷ [])))) [
  | inl here ↦
      let e' : some (done ++ (r ∷ [])) ≡ some p = rw here at e in
      let same : p ≡ done ++ (r ∷ []) = cc in rw same (omega (arith, length-append done (r ∷ [])))
  | inr later ↦
      let pass' : test ((done ++ (r ∷ [])) ++ (s ∷ q)) ≡ true =
        rw (append_assoc done (r ∷ []) (s ∷ q)) pass in
      omega (
        arith,
        length-append done (r ∷ []),
        first_prefix-shortest test (done ++ (r ∷ [])) s q u p (rw later at e) pass',
      )
]

answer-eq : (found : Option (List ℕ)) (p : List ℕ) → answer true found ≡ (true, p) → found ≡ some p
answer-eq none p e = absurd (ground arith)
answer-eq (some q) p e = ap (λ x. some x.1) e

first_prefix-found :
    (test : List ℕ → Bool) (done : List ℕ) (r : ℕ) (q u : List ℕ)
    → test (done ++ (r ∷ q)) ≡ true
    → is_some (first_prefix test done (r ∷ (q ++ u))) ≡ true
unfolding first_prefix
first_prefix-found test done r [] u pass = rw pass
first_prefix-found test done r (s ∷ q) u pass = elim (Bool-cases (test (done ++ (r ∷ [])))) [
  | inl here ↦ rw here
  | inr later ↦ rw later (
      first_prefix-found test (done ++ (r ∷ [])) s q u
        (rw (append_assoc done (r ∷ []) (s ∷ q)) pass))
]

answer-is_some : (found : Option (List ℕ)) → (answer false found).0 ≡ is_some found
answer-is_some none = refl
answer-is_some (some p) = refl

module _ (is_space : ℕ → Bool) where
  -- After any insertions, `GetMatchedPrefixWord` gives the shortest prefix of the input that is one of
  -- the words, as they are when cut at the spaces round them, and (false, "") if there is none;
  -- `HasMatchedPrefixWords` tells whether there is one.
  pub lookups-first_prefix :
      (ws : List (List ℕ)) (input : List ℕ)
      → let root = insert_all is_space new_trie ws in
        let found = first_prefix (stored is_space ws) [] input in
        (get_matched_prefix_word root input ≡ answer true found)
        × (has_matched_prefix_words root input ≡ is_some found)
  unfolding get_matched_prefix_word has_matched_prefix_words traverse
  lookups-first_prefix ws input =
      let found = first_prefix (stored is_space ws) [] input in
      let go = λ (build : Bool).
        traverse_from-first_prefix (stored is_space ws) input [] []
          (insert_all is_space new_trie ws) build (λ r q. has_word-stored is_space ws (r ∷ q)) in
      (go true refl, ap (λ x. x.0) (go false refl) ∙ answer-is_some found)

  -- A word that `GetMatchedPrefixWord` returns is one of the words and a prefix of the input, and no
  -- longer than any other such word that is not empty.
  get_matched_shortest :
      (ws : List (List ℕ)) (input p : List ℕ)
      → get_matched_prefix_word (insert_all is_space new_trie ws) input ≡ (true, p)
      → (stored is_space ws p ≡ true)
        × ((t : List ℕ) × (input ≡ p ++ t))
        × ((r : ℕ) (q u : List ℕ)
            → input ≡ (r ∷ q) ++ u
            → stored is_space ws (r ∷ q) ≡ true
            → length p ≤ suc (length q))
  get_matched_shortest ws input p e =
      let found : first_prefix (stored is_space ws) [] input ≡ some p =
        answer-eq _ p (sym (lookups-first_prefix ws input).0 ∙ e) in
      let (pass, t, whole) = first_prefix-cases (stored is_space ws) [] input p found in
      (
        pass,
        (t, whole),
        λ r q u split mem.
            omega (
              arith,
              first_prefix-shortest (stored is_space ws) [] r q u p (rw split at found) mem,
            ),
      )

  -- A word that is a prefix of the input is always noticed.
  has_matched_complete :
      (ws : List (List ℕ)) (r : ℕ) (q u : List ℕ)
      → stored is_space ws (r ∷ q) ≡ true
      → has_matched_prefix_words (insert_all is_space new_trie ws) ((r ∷ q) ++ u) ≡ true
  has_matched_complete ws r q u mem =
      (lookups-first_prefix ws ((r ∷ q) ++ u)).1
      ∙ first_prefix-found (stored is_space ws) [] r q u mem
