-- ===== src/IabParser/Scan.antt =====
-- iabparser/iabparser.go: what the scan of the lines gives, and which line it blames.
use mathlib.Core.List.{append_assoc, append-nil}
use rudder_go_kit.Prelude.{
  ℕ, ◌+◌, ◌≡◌, ◌⊎◌, refl, sym, ap, ◌∙◌, inl, inr, Bool, true, false, List, [], ◌∷◌, ◌++◌, Option,
  none, some, if◌then◌else◌, arith, All, length, Bool-cases,
}
use rudder_go_kit.IabParser.{
  Texts, Result, ok, err, LineError, ScanError, at_line, should_skip_line, scan_from, scan_lines,
  parse_lines, validate_lines,
}

abbrev pub error_of : {E A : Type 0} → Result E A → Option E
error_of (ok x) = none
error_of (err e) = some e

Result-cases : {E A : Type 0} (r : Result E A) → ((e : E) × (r ≡ err e)) ⊎ ((x : A) × (r ≡ ok x))
Result-cases (ok x) = inr (x, refl)
Result-cases (err e) = inl (e, refl)

module _ (texts : Texts) {T : Type 0} (read_error : Bool) (parse_line : List ℕ → Result LineError T)
    (collect : Bool) (n : ℕ) (xs : List T) (l : List ℕ) (ls : List (List ℕ)) where
  scan-skip :
      should_skip_line texts l ≡ true
      → scan_from texts read_error parse_line collect n xs (l ∷ ls)
        ≡ scan_from texts read_error parse_line collect (n + 1) xs ls
  unfolding scan_from
  scan-skip h = rw (h, scan_from) refl

  scan-fail :
      (e : LineError)
      → should_skip_line texts l ≡ false
      → parse_line l ≡ err e
      → scan_from texts read_error parse_line collect n xs (l ∷ ls) ≡ err (at_line (n + 1) e)
  unfolding scan_from
  scan-fail e h g = rw (h, g, scan_from) refl

  scan-entry :
      (x : T)
      → should_skip_line texts l ≡ false
      → parse_line l ≡ ok x
      → scan_from texts read_error parse_line collect n xs (l ∷ ls)
        ≡ scan_from texts read_error parse_line collect
            (n + 1)
            (if collect then xs ++ x ∷ [] else xs)
            ls
  unfolding scan_from
  scan-entry x h g = rw (h, g, scan_from) refl

module _ (texts : Texts) {T : Type 0} (read_error : Bool)
    (parse_line : List ℕ → Result LineError T) where
  scan-errors :
      (n : ℕ) (xs ys : List T) (lines : List (List ℕ))
      → error_of (scan_from texts read_error parse_line false n xs lines)
        ≡ error_of (scan_from texts read_error parse_line true n ys lines)
  unfolding scan_from
  scan-errors n xs ys [] = elim (Bool-cases read_error) [ inl h ↦ rw h refl | inr h ↦ rw h refl ]
  scan-errors n xs ys (l ∷ ls) = elim (Bool-cases (should_skip_line texts l)) [
    | inl h ↦
        ap error_of (scan-skip texts read_error parse_line false n xs l ls h)
        ∙ scan-errors (n + 1) xs ys ls
        ∙ sym (ap error_of (scan-skip texts read_error parse_line true n ys l ls h))
    | inr h ↦ elim (Result-cases (parse_line l)) [
      | inl (e, g) ↦
          ap error_of (scan-fail texts read_error parse_line false n xs l ls e h g)
          ∙ sym (ap error_of (scan-fail texts read_error parse_line true n ys l ls e h g))
      | inr (x, g) ↦
          ap error_of (scan-entry texts read_error parse_line false n xs l ls x h g)
          ∙ scan-errors (n + 1) xs (ys ++ x ∷ []) ls
          ∙ sym (ap error_of (scan-entry texts read_error parse_line true n ys l ls x h g))
    ]
  ]

  -- A validation reports exactly the error that a parse of the same lines reports, or none.
  pub validate_lines-parse_lines :
      (lines : List (List ℕ))
      → validate_lines texts read_error parse_line lines
        ≡ error_of (parse_lines texts read_error parse_line lines)
  unfolding validate_lines parse_lines scan_lines
  validate_lines-parse_lines lines =
      errors (scan_from texts read_error parse_line false 0 [] lines) ∙ scan-errors 0 [] [] lines
    where
      errors :
          (r : Result ScanError (List T)) → (elim r [ ok xs ↦ none | err e ↦ some e ]) ≡ error_of r
      errors (ok xs) = refl
      errors (err e) = refl

module _ (texts : Texts) {T : Type 0} (parse_line : List ℕ → Result LineError T) where
  -- A line that is skipped or parsed.
  abbrev pub Good : List ℕ → Type 0
  Good l = (should_skip_line texts l ≡ true) ⊎ ((x : T) × (parse_line l ≡ ok x))

  -- The entries of the lines that are not skipped, in their order.
  unfoldable pub entries_of : List (List ℕ) → List T
  entries_of [] = []
  entries_of (l ∷ ls) =
      let rest = entries_of ls in
      if should_skip_line texts l
      then rest
      else elim (parse_line l) [ ok x ↦ x ∷ rest | err e ↦ rest ]

  -- The first line of a text that is neither skipped nor parsed.
  pub record FirstBad (lines : List (List ℕ)) (e : LineError) (before : List (List ℕ))
      : Type 0 where
    pub line : List ℕ
    pub after : List (List ℕ)
    pub splits : lines ≡ before ++ line ∷ after
    pub good_before : All Good before
    pub kept : should_skip_line texts line ≡ false
    pub fails : parse_line line ≡ err e

  abbrev Outcome : ℕ → List T → List (List ℕ) → Type 0
  Outcome n xs lines =
      (All Good lines
        × (scan_from texts false parse_line true n xs lines ≡ ok (xs ++ entries_of lines)))
      ⊎ ((e : LineError) × (before : List (List ℕ)) × FirstBad lines e before
          × (scan_from texts false parse_line true n xs lines
              ≡ err (at_line (n + length before + 1) e)))

  entries-skip :
      (l : List ℕ) (ls : List (List ℕ))
      → should_skip_line texts l ≡ true
      → entries_of (l ∷ ls) ≡ entries_of ls
  unfolding entries_of
  entries-skip l ls h = rw (h, entries_of) refl

  entries-entry :
      (l : List ℕ) (ls : List (List ℕ)) (x : T)
      → should_skip_line texts l ≡ false
      → parse_line l ≡ ok x
      → entries_of (l ∷ ls) ≡ x ∷ entries_of ls
  unfolding entries_of
  entries-entry l ls x h g = rw (h, g, entries_of) refl

  -- A good line before the others moves the number of the line that is blamed by one.
  Outcome-Good :
      (n : ℕ) (xs ys : List T) (l : List ℕ) (ls : List (List ℕ))
      → Good l
      → scan_from texts false parse_line true n xs (l ∷ ls)
        ≡ scan_from texts false parse_line true (n + 1) ys ls
      → ys ++ entries_of ls ≡ xs ++ entries_of (l ∷ ls)
      → Outcome (n + 1) ys ls
      → Outcome n xs (l ∷ ls)
  Outcome-Good n xs ys l ls good step same (inl (all, e)) = inl ((good, all), step ∙ e ∙ ap ok same)
  Outcome-Good n xs ys l ls good step same (inr (e, before, bad, result)) = inr (
    e,
    l ∷ before,
    record {
      line = bad.line;
      after = bad.after;
      splits = ap (λ t. l ∷ t) bad.splits;
      good_before = (good, bad.good_before);
      kept = bad.kept;
      fails = bad.fails;
    },
    step ∙ result ∙ ap (λ k. err (at_line k e)) (omega arith),
  )

  outcome : (n : ℕ) (xs : List T) (lines : List (List ℕ)) → Outcome n xs lines
  unfolding scan_from entries_of
  outcome n xs [] = inl (tt, ap ok (sym (append-nil xs)))
  outcome n xs (l ∷ ls) = elim (Bool-cases (should_skip_line texts l)) [
    | inl h ↦
        Outcome-Good n xs xs l ls (inl h) (scan-skip texts false parse_line true n xs l ls h)
          (ap (λ t. xs ++ t) (sym (entries-skip l ls h))) (outcome (n + 1) xs ls)
    | inr h ↦ elim (Result-cases (parse_line l)) [
      | inl (e, g) ↦ inr (
        e,
        [],
        record { line = l; after = ls; splits = refl; good_before = tt; kept = h; fails = g },
        scan-fail texts false parse_line true n xs l ls e h g
            ∙ ap (λ k. err (at_line k e)) (omega arith),
      )
      | inr (x, g) ↦
          Outcome-Good n xs (xs ++ x ∷ []) l ls (inr (x, g))
            (scan-entry texts false parse_line true n xs l ls x h g)
            (append_assoc xs (x ∷ []) (entries_of ls)
              ∙ ap (λ t. xs ++ t) (sym (entries-entry l ls x h g)))
            (outcome (n + 1) (xs ++ x ∷ []) ls)
    ]
  ]

  -- With no read error, a parse either gives the entries of all lines that are not skipped, in their
  -- order, and every line was skipped or parsed, or it blames the first line that was neither, by its
  -- number from 1, with the error of that line.
  pub parse_lines_complete :
      (lines : List (List ℕ))
      → (All Good lines × (parse_lines texts false parse_line lines ≡ ok (entries_of lines)))
        ⊎ ((e : LineError) × (before : List (List ℕ)) × FirstBad lines e before
            × (parse_lines texts false parse_line lines ≡ err (at_line (length before + 1) e)))
  unfolding parse_lines scan_lines
  parse_lines_complete lines = elim (outcome 0 [] lines) [
    | inl good ↦ inl good
    | inr (e, before, bad, result) ↦
        inr (e, before, bad, result ∙ ap (λ k. err (at_line k e)) (omega arith))
  ]
