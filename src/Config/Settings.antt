-- ===== src/Config/Settings.antt =====
-- config/config_changedetect.go: the keys that `checkAndNotifyNonReloadableConfig` finds changed.
use rudder_go_kit.Prelude.{
  ◌≡◌, refl, sym, ap, ◌∙◌, inl, inr, ite, if_pos, if_neg, Bool, true, false, not, ◌||◌, List, [],
  ◌∷◌, ◌++◌, Option, none, some, arith, Bool-cases,
}
use rudder_go_kit.Prelude.Maps.{lookup, lookup-cons_self, lookup-cons_ne, Keyed, Keyed-insert}
use rudder_go_kit.Config.Types.{
  Text, text_discrete, Setting, leaf, string_table, any_table, Entries, no_entries, entry,
  AnyEntries, no_any_entries, any_entry, Config, Go,
}
use rudder_go_kit.Config.Change.{
  full_key, flatten, flatten_any, flatten_setting, get_current_settings, same_setting,
  modified_keys, removed_keys,
}

unfoldable pub has_key : Text → List Text → Bool
has_key k [] = false
has_key k (j ∷ js) = let rest = has_key k js in ite (text_discrete j k) true rest

has_key-append :
    (k : Text) (js ks : List Text) → has_key k (js ++ ks) ≡ (has_key k js || has_key k ks)
unfolding has_key
has_key-append k [] ks = refl
has_key-append k (j ∷ js) ks = ground (arith, has_key-append k js ks)

module _ {F S V : Type 0} (go : Go F S V) where
  -- Whether a key has another setting before and after.
  abbrev differs : Option S → Option S → Bool
  differs none none = false
  differs none (some v) = true
  differs (some w) none = true
  differs (some w) (some v) = not (same_setting go w v)

  abbrev modified : Option S → Option S → Bool
  modified old none = false
  modified none (some v) = true
  modified (some w) (some v) = not (same_setting go w v)

  abbrev removed : Option S → Option S → Bool
  removed none new = false
  removed (some w) none = true
  removed (some w) (some v) = false

  modified_head :
      (old : List (Text × S)) (k j : Text) (v : S) (new : List (Text × S)) (o : Option S)
      → lookup text_discrete j old ≡ o
      → j ≡ k
      → has_key k (modified_keys go old new) ≡ false
      → has_key k (modified_keys go old ((j, v) ∷ new)) ≡ modified o (some v)
  unfolding has_key modified_keys
  modified_head old k j v new none e same rest = rw (e, modified_keys, if_pos _ same) refl
  modified_head old k j v new (some w) e same rest = elim (Bool-cases (same_setting go w v)) [
    | inl h ↦ rw (e, h, modified_keys) rest
    | inr h ↦ rw (e, h, modified_keys, if_pos _ same) refl
  ]

  modified_other :
      (old : List (Text × S)) (k j : Text) (v : S) (new : List (Text × S)) (o : Option S)
      → lookup text_discrete j old ≡ o
      → (j ≡ k → ⊥)
      → has_key k (modified_keys go old ((j, v) ∷ new)) ≡ has_key k (modified_keys go old new)
  unfolding has_key modified_keys
  modified_other old k j v new none e other = rw (e, modified_keys, if_neg _ other) refl
  modified_other old k j v new (some w) e other = elim (Bool-cases (same_setting go w v)) [
    | inl h ↦ rw (e, h, modified_keys) refl
    | inr h ↦ rw (e, h, modified_keys, if_neg _ other) refl
  ]

  modified-none : (o : Option S) → modified o none ≡ false
  modified-none none = refl
  modified-none (some w) = refl

  has_key-modified_keys :
      (old : List (Text × S)) (k : Text) (new : List (Text × S))
      → Keyed text_discrete new
      → has_key k (modified_keys go old new)
        ≡ modified (lookup text_discrete k old) (lookup text_discrete k new)
  unfolding has_key modified_keys lookup
  has_key-modified_keys old k [] h = sym (modified-none (lookup text_discrete k old))
  has_key-modified_keys old k ((j, v) ∷ new) h = elim (text_discrete j k) [
    | yes e ↦
        modified_head old k j v new (lookup text_discrete k old)
          (ap (λ t. lookup text_discrete t old) e) e
          (has_key-modified_keys old k new h.1
            ∙ ap (modified (lookup text_discrete k old))
                (ap (λ t. lookup text_discrete t new) (sym e) ∙ h.0)
            ∙ modified-none (lookup text_discrete k old))
        ∙ ap (modified (lookup text_discrete k old))
            (sym (lookup-cons_self text_discrete k j v new e))
    | no n ↦
        modified_other old k j v new (lookup text_discrete j old) refl n
        ∙ has_key-modified_keys old k new h.1
        ∙ ap (modified (lookup text_discrete k old))
            (sym (lookup-cons_ne text_discrete k j v new n))
  ]

  removed-none : (o : Option S) → removed none o ≡ false
  removed-none none = refl
  removed-none (some w) = refl

  removed_head :
      (new : List (Text × S)) (k j : Text) (v : S) (old : List (Text × S)) (o : Option S)
      → lookup text_discrete j new ≡ o
      → j ≡ k
      → has_key k (removed_keys go new old) ≡ false
      → has_key k (removed_keys go new ((j, v) ∷ old)) ≡ removed (some v) o
  unfolding has_key removed_keys
  removed_head new k j v old none e same rest = rw (e, removed_keys, if_pos _ same) refl
  removed_head new k j v old (some w) e same rest = rw (e, removed_keys) rest

  removed_other :
      (new : List (Text × S)) (k j : Text) (v : S) (old : List (Text × S)) (o : Option S)
      → lookup text_discrete j new ≡ o
      → (j ≡ k → ⊥)
      → has_key k (removed_keys go new ((j, v) ∷ old)) ≡ has_key k (removed_keys go new old)
  unfolding has_key removed_keys
  removed_other new k j v old none e other = rw (e, removed_keys, if_neg _ other) refl
  removed_other new k j v old (some w) e other = rw (e, removed_keys) refl

  has_key-removed_keys :
      (new : List (Text × S)) (k : Text) (old : List (Text × S))
      → Keyed text_discrete old
      → has_key k (removed_keys go new old)
        ≡ removed (lookup text_discrete k old) (lookup text_discrete k new)
  unfolding has_key removed_keys lookup
  has_key-removed_keys new k [] h = sym (removed-none (lookup text_discrete k new))
  has_key-removed_keys new k ((j, v) ∷ old) h = elim (text_discrete j k) [
    | yes e ↦
        removed_head new k j v old (lookup text_discrete k new)
          (ap (λ t. lookup text_discrete t new) e) e
          (has_key-removed_keys new k old h.1
            ∙ ap (λ o. removed o (lookup text_discrete k new))
                (ap (λ t. lookup text_discrete t old) (sym e) ∙ h.0)
            ∙ removed-none (lookup text_discrete k new))
        ∙ ap (λ o. removed o (lookup text_discrete k new))
            (sym (lookup-cons_self text_discrete k j v old e))
    | no n ↦
        removed_other new k j v old (lookup text_discrete j new) refl n
        ∙ has_key-removed_keys new k old h.1
        ∙ ap (λ o. removed o (lookup text_discrete k new))
            (sym (lookup-cons_ne text_discrete k j v old n))
  ]

  or-differs : (o p : Option S) → (modified o p || removed o p) ≡ differs o p
  or-differs none none = refl
  or-differs none (some v) = refl
  or-differs (some w) none = refl
  or-differs (some w) (some v) = ground arith

  mutual
    unfolding flatten flatten_any flatten_setting

    Keyed-flatten :
        (prefix : Text) (es : Entries S) (flat : List (Text × S))
        → Keyed text_discrete flat
        → Keyed text_discrete (flatten go prefix es flat)
    Keyed-flatten prefix no_entries flat h = h
    Keyed-flatten prefix (entry k v es) flat h =
        Keyed-flatten prefix es _ (Keyed-flatten_setting (full_key go prefix k) v flat h)

    Keyed-flatten_any :
        (prefix : Text) (es : AnyEntries S) (flat : List (Text × S))
        → Keyed text_discrete flat
        → Keyed text_discrete (flatten_any go prefix es flat)
    Keyed-flatten_any prefix no_any_entries flat h = h
    Keyed-flatten_any prefix (any_entry none v es) flat h = Keyed-flatten_any prefix es flat h
    Keyed-flatten_any prefix (any_entry (some k) v es) flat h =
        Keyed-flatten_any prefix es _ (Keyed-flatten_setting (full_key go prefix k) v flat h)

    Keyed-flatten_setting :
        (key : Text) (v : Setting S) (flat : List (Text × S))
        → Keyed text_discrete flat
        → Keyed text_discrete (flatten_setting go key v flat)
    Keyed-flatten_setting key (leaf v) flat h =
        Keyed-insert text_discrete (go.to_lower key) v flat h
    Keyed-flatten_setting key (string_table es) flat h = Keyed-flatten key es flat h
    Keyed-flatten_setting key (any_table es) flat h = Keyed-flatten_any key es flat h

  -- The keys that are found changed are exactly those that were added, removed, or have another
  -- value, whatever the nesting of the settings, if the settings before have each key once.
  pub changed_keys_exact :
      (old : List (Text × S)) (c : Config F S V) (k : Text)
      → Keyed text_discrete old
      → has_key k (
          modified_keys go old (get_current_settings go c)
          ++ removed_keys go (get_current_settings go c) old)
        ≡ differs (lookup text_discrete k old) (lookup text_discrete k (get_current_settings go c))
  unfolding get_current_settings
  changed_keys_exact old c k h =
      let new = get_current_settings go c in
      has_key-append k (modified_keys go old new) (removed_keys go new old)
      ∙ rw
          (
            has_key-modified_keys old k new (Keyed-flatten [] _ [] tt),
            has_key-removed_keys new k old h,
          )
          (or-differs (lookup text_discrete k old) (lookup text_discrete k new))
