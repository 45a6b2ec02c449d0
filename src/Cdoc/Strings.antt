-- ===== src/Cdoc/Strings.antt =====
-- What cmd/cdoc uses of packages strings, slices and fmt.
use rudder_go_kit.Prelude.{
  ℕ, zero, suc, List, [], ◌∷◌, ◌++◌, Bool, false, ◌||◌, Option, none, some, ite, ◌==◌,
  if◌then◌else◌, ℕ_discrete,
}
use mathlib.Core.List.{reverse}
use rudder_go_kit.Config.Types.{Text}
use rudder_go_kit.Cdoc.Types.{same_text}

-- `slices.Contains`
unfoldable pub contains : List Text → Text → Bool
contains [] k = false
contains (j ∷ js) k = same_text j k || contains js k

-- `strings.CutPrefix`
unfoldable pub cut_prefix : Text → Text → Option Text
cut_prefix [] s = some s
cut_prefix (c ∷ p) [] = none
cut_prefix (c ∷ p) (d ∷ s) = ite (ℕ_discrete c d) (cut_prefix p s) none

-- `strings.TrimPrefix`
unfoldable pub trim_prefix : Text → Text → Text
trim_prefix p s = elim (cut_prefix p s) [ none ↦ s | some rest ↦ rest ]

-- A suffix that is cut off.
unfoldable pub cut_suffix : Text → Text → Option Text
cut_suffix p s = elim (cut_prefix (reverse p) (reverse s)) [
  | none ↦ none
  | some rest ↦ some (reverse rest)
]

-- `strings.Join`
unfoldable pub join : Text → List Text → Text
join sep [] = []
join sep (s ∷ []) = s
join sep (s ∷ t ∷ ss) = s ++ sep ++ join sep (t ∷ ss)

-- The first piece up to the separator, in front of the others.
unfoldable pub prepend : ℕ → List Text → List Text
prepend c [] = (c ∷ []) ∷ []
prepend c (s ∷ ss) = (c ∷ s) ∷ ss

-- `strings.Split` by one character.
unfoldable pub split : ℕ → Text → List Text
split sep [] = [] ∷ []
split sep (c ∷ s) = let rest = split sep s in if c == sep then [] ∷ rest else prepend c rest

-- `strings.Repeat` of one character.
unfoldable pub repeat : ℕ → ℕ → Text
repeat c zero = []
repeat c (suc n) = c ∷ repeat c n

module _ (is_space : ℕ → Bool) where
  unfoldable pub trim_left : Text → Text
  trim_left [] = []
  trim_left (c ∷ s) = let rest = trim_left s in if is_space c then rest else c ∷ s

  -- `strings.TrimSpace`
  unfoldable pub trim_space : Text → Text
  trim_space s = reverse (trim_left (reverse (trim_left s)))

  -- The fields of a text whose characters so far without a space are `word`, backwards.
  unfoldable pub fields_after : Text → Text → List Text
  fields_after [] [] = []
  fields_after (c ∷ word) [] = reverse (c ∷ word) ∷ []
  fields_after word (d ∷ s) =
      let inside = fields_after (d ∷ word) s in
      let outside = fields_after [] s in
      if is_space d then elim word [ [] ↦ outside | c ∷ w ↦ reverse (c ∷ w) ∷ outside ] else inside

  -- `strings.Fields`
  unfoldable pub fields : Text → List Text
  fields s = fields_after [] s
