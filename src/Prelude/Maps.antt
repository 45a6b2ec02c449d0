-- ===== src/Prelude/Maps.antt =====
-- Go maps as association lists: a write replaces the entry of its key or adds one at the end, so a
-- list with distinct keys keeps them distinct; `entries` come in some order, as a Go `range` does.
use mathlib.Core.Path.{◌≡◌, refl}
use mathlib.Core.Logic.{◌≢◌, ite, if_pos, if_neg}
use mathlib.Core.List.{List, [], ◌∷◌, ◌++◌}
use mathlib.Core.Option.{Option, none, some}
use native.Mathlib.Omega.{arith}

module _ {K V : Type 0} (dec : Discrete K) where
  unfoldable pub lookup : K → List (K × V) → Option V
  lookup k [] = none
  lookup k ((j, v) ∷ m) = ite (dec j k) (some v) (lookup k m)

  unfoldable pub insert : K → V → List (K × V) → List (K × V)
  insert k v [] = (k, v) ∷ []
  insert k v ((j, w) ∷ m) = ite (dec j k) ((k, v) ∷ m) ((j, w) ∷ insert k v m)

  unfoldable pub delete : K → List (K × V) → List (K × V)
  delete k [] = []
  delete k ((j, w) ∷ m) = ite (dec j k) (delete k m) ((j, w) ∷ delete k m)

  -- No key stands twice.
  abbrev pub Keyed : List (K × V) → Type 0
  Keyed [] = Unit
  Keyed ((k, v) ∷ m) = (lookup k m ≡ none) × Keyed m

  pub lookup-insert_self : (k : K) (v : V) (m : List (K × V)) → lookup k (insert k v m) ≡ some v
  unfolding lookup insert
  lookup-insert_self k v [] = rw (if_pos _ refl)
  lookup-insert_self k v ((j, w) ∷ m) = ground (arith, lookup-insert_self k v m)

  pub lookup-insert_ne :
      (k j : K) (v : V) (m : List (K × V)) → k ≢ j → lookup j (insert k v m) ≡ lookup j m
  unfolding lookup insert
  lookup-insert_ne k j v [] h = rw (if_neg _ h)
  lookup-insert_ne k j v ((i, w) ∷ m) h = ground (arith, lookup-insert_ne k j v m)

  pub lookup-delete_self : (k : K) (m : List (K × V)) → lookup k (delete k m) ≡ none
  unfolding lookup delete
  lookup-delete_self k [] = refl
  lookup-delete_self k ((j, w) ∷ m) = ground (arith, lookup-delete_self k m)

  pub lookup-delete_ne : (k j : K) (m : List (K × V)) → k ≢ j → lookup j (delete k m) ≡ lookup j m
  unfolding lookup delete
  lookup-delete_ne k j [] h = refl
  lookup-delete_ne k j ((i, w) ∷ m) h = ground (arith, lookup-delete_ne k j m)

  pub Keyed-insert : (k : K) (v : V) (m : List (K × V)) → Keyed m → Keyed (insert k v m)
  unfolding insert lookup
  Keyed-insert k v [] h = (refl, tt)
  Keyed-insert k v ((j, w) ∷ m) h = elim (dec j k) [
    | yes p ↦ rw (if_pos _ p) (ground arith, h.1)
    | no p ↦ rw (if_neg _ p) (ground (arith, lookup-insert_ne k j v m, h.0), Keyed-insert k v m h.1)
  ]

  -- A new key goes to the end.
  pub insert_absent :
      (k : K) (v : V) (m : List (K × V)) → lookup k m ≡ none → insert k v m ≡ m ++ ((k, v) ∷ [])
  unfolding insert lookup
  insert_absent k v [] h = refl
  insert_absent k v ((j, w) ∷ m) h = ground (arith, insert_absent k v m)

  -- In a list with distinct keys a key is in only one part.
  pub lookup-front :
      (k : K) (v : V) (m es : List (K × V)) → Keyed (m ++ ((k, v) ∷ es)) → lookup k m ≡ none
  unfolding lookup
  lookup-front k v [] es h = refl
  lookup-front k v ((j, w) ∷ m) es h = elim (dec j k) [
    | yes p ↦ absurd (middle j m h.0 p)
    | no p ↦ rw (if_neg _ p) (lookup-front k v m es h.1)
  ]
    where
      middle : (j : K) (m : List (K × V)) → lookup j (m ++ ((k, v) ∷ es)) ≡ none → j ≡ k → ⊥
      middle j [] e p = ground arith
      middle j ((i, u) ∷ m) e p = ground (arith, middle j m)

  -- A write of what is there changes nothing.
  pub insert_present : (k : K) (v : V) (m : List (K × V)) → lookup k m ≡ some v → insert k v m ≡ m
  unfolding insert lookup
  insert_present k v [] h = absurd (ground arith)
  insert_present k v ((j, w) ∷ m) h = ground (arith, insert_present k v m)

  pub lookup-cons_self :
      (k j : K) (v : V) (m : List (K × V)) → j ≡ k → lookup k ((j, v) ∷ m) ≡ some v
  unfolding lookup
  lookup-cons_self k j v m h = rw (if_pos _ h) refl

  pub lookup-cons_ne :
      (k j : K) (v : V) (m : List (K × V)) → j ≢ k → lookup k ((j, v) ∷ m) ≡ lookup k m
  unfolding lookup
  lookup-cons_ne k j v m h = rw (if_neg _ h) refl
