-- ===== src/IabParser/Lines.antt =====
-- iabparser/iabparser.go: what an entry that was parsed looks like.
use mathlib.Core.Path.{subst}
use rudder_go_kit.Prelude.{ℕ, ◌≤◌, ◌≡◌, ◌≢◌, refl, ap, Bool, true, false, List, [], ◌∷◌, arith}
use rudder_go_kit.IabParser.{
  Texts, Result, ok, err, BlacklistEntry, and_then, parse_binary_flag, parse_dual_pass_flag,
  parse_impact_type, parse_inactive_date, blacklist_entry, blacklist_fields, parse_blacklist_line,
}

abbrev value_or : {E A : Type 0} → A → Result E A → A
value_or y (ok x) = x
value_or y (err e) = y

abbrev is_ok : {E A : Type 0} → Result E A → Bool
is_ok (ok x) = true
is_ok (err e) = false

-- A chain that succeeds has a first step that does.
and_then-ok :
    {E A B : Type 0} (r : Result E A) (f : A → Result E B) (y : B)
    → and_then r f ≡ ok y
    → (x : A) × (r ≡ ok x) × (f x ≡ ok y)
unfolding and_then
and_then-ok (ok x) f y h = (x, refl, h)
and_then-ok (err e) f y h = absurd (ground (arith, ap is_ok h))

parse_dual_pass_flag-bound : (s : List ℕ) (n : ℕ) → parse_dual_pass_flag s ≡ ok n → n ≤ 1
unfolding parse_dual_pass_flag
parse_dual_pass_flag-bound [] n h = absurd (ground arith)
parse_dual_pass_flag-bound (c ∷ []) n h = ground arith
parse_dual_pass_flag-bound (c ∷ d ∷ s) n h = absurd (ground arith)

parse_impact_type-bound : (s : List ℕ) (n : ℕ) → parse_impact_type s ≡ ok n → n ≤ 2
unfolding parse_impact_type
parse_impact_type-bound [] n h = absurd (ground arith)
parse_impact_type-bound (c ∷ []) n h = ground arith
parse_impact_type-bound (c ∷ d ∷ s) n h = absurd (ground arith)

-- An entry whose flags are in range, with a pattern that is the first field.
abbrev pub InRange : List (List ℕ) → BlacklistEntry → Type 0
InRange fields x =
    (x.dual_pass_flag ≤ 1)
    × (x.impact_type ≤ 2)
    × (x.pattern_text ≢ [])
    × (rest : List (List ℕ)) × (fields ≡ x.pattern_text ∷ rest)

module _ (texts : Texts) (x : BlacklistEntry) where
  blacklist_entry-InRange :
      (f1 f2 f3 f4 f5 f6 f7 : List ℕ) (rest : List (List ℕ))
      → blacklist_entry texts f1 f2 f3 f4 f5 f6 f7 ≡ ok x
      → InRange (f1 ∷ rest) x
  unfolding blacklist_entry
  blacklist_entry-InRange [] f2 f3 f4 f5 f6 f7 rest h = absurd (ground (arith, ap is_ok h))
  blacklist_entry-InRange (c ∷ s) f2 f3 f4 f5 f6 f7 rest h =
      let (active, _, h2) = and_then-ok (parse_binary_flag 2 f2) _ x h in
      let (dual, d, h4) = and_then-ok (parse_dual_pass_flag f4) _ x h2 in
      let (impact, i, h5) = and_then-ok (parse_impact_type f5) _ x h4 in
      let (start, _, h6) = and_then-ok (parse_binary_flag 6 f6) _ x h5 in
      let (date, _, done) = and_then-ok (parse_inactive_date texts 7 f7) _ x h6 in
      subst (InRange ((c ∷ s) ∷ rest)) (ap (value_or x) done) (
        parse_dual_pass_flag-bound f4 dual d,
        parse_impact_type-bound f5 impact i,
        (λ e. absurd (ground arith)),
        rest,
        refl,
      )

  blacklist_fields-InRange :
      (fields : List (List ℕ)) → blacklist_fields texts fields ≡ ok x → InRange fields x
  unfolding blacklist_fields
  blacklist_fields-InRange (a ∷ b ∷ c ∷ d ∷ e ∷ f ∷ []) h =
      blacklist_entry-InRange a b c d e f [] (b ∷ c ∷ d ∷ e ∷ f ∷ []) h
  blacklist_fields-InRange (a ∷ b ∷ c ∷ d ∷ e ∷ f ∷ g ∷ []) h =
      blacklist_entry-InRange a b c d e f g (b ∷ c ∷ d ∷ e ∷ f ∷ g ∷ []) h
  blacklist_fields-InRange [] h = absurd (ground (arith, ap is_ok h))
  blacklist_fields-InRange (a ∷ []) h = absurd (ground (arith, ap is_ok h))
  blacklist_fields-InRange (a ∷ b ∷ []) h = absurd (ground (arith, ap is_ok h))
  blacklist_fields-InRange (a ∷ b ∷ c ∷ []) h = absurd (ground (arith, ap is_ok h))
  blacklist_fields-InRange (a ∷ b ∷ c ∷ d ∷ []) h = absurd (ground (arith, ap is_ok h))
  blacklist_fields-InRange (a ∷ b ∷ c ∷ d ∷ e ∷ []) h = absurd (ground (arith, ap is_ok h))
  blacklist_fields-InRange (a ∷ b ∷ c ∷ d ∷ e ∷ f ∷ g ∷ i ∷ fs) h =
      absurd (ground (arith, ap is_ok h))

-- A blacklist line that is accepted gives an entry whose dual-pass flag is at most 1, whose impact
-- type is at most 2, and whose pattern is the line's first field and not empty.
pub parse_blacklist_line-InRange :
    (texts : Texts) (line : List ℕ) (x : BlacklistEntry)
    → parse_blacklist_line texts line ≡ ok x
    → InRange (texts.split_fields line) x
unfolding parse_blacklist_line
parse_blacklist_line-InRange texts line x h =
    blacklist_fields-InRange texts x (texts.split_fields line) h
