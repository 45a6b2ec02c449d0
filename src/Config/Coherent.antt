-- ===== src/Config/Coherent.antt =====
-- config/config_changedetect.go: what a pass and the notifications leave alone.
use mathlib.Core.Path.{subst}
use rudder_go_kit.Prelude.{
  ℕ, ◌<◌, ◌≡◌, refl, sym, inl, inr, List, [], ◌∷◌, none, some, All, All-map, Bool-cases,
  Option-cases,
}
use rudder_go_kit.Prelude.Maps.{lookup}
use rudder_go_kit.Config.Types.{
  Text, text_discrete, Value, Slot, pointer, plain, ConfigValue, Source, Config, Go,
  non_reloadable_changed,
}
use rudder_go_kit.Config.Access.{same}
use rudder_go_kit.Config.Notify.{notify}
use rudder_go_kit.Config.Change.{update_slot, check_value, check_config, notify_keys}
use rudder_go_kit.Config.EnvNames.{Known, Known-Bound}
use rudder_go_kit.Config.Reload.{held, Quiet, Apart, Distinct, AllBound, rest_of}

abbrev pub IsPointer : {F S : Type 0} → ℕ → Slot F S → Type 0
IsPointer next (pointer a) = a < next
IsPointer next (plain v) = ⊥

abbrev IsPlain : {F S : Type 0} → Slot F S → Type 0
IsPlain (plain v) = Unit
IsPlain (pointer a) = ⊥

module _ {F S V : Type 0} (go : Go F S V) where
  -- Every reloadable variable has a `Reloadable` of its own, and the others have values.
  pub record IsValid (c : Config F S V) : Type 0 where
    pub hot : All (λ e. IsPointer c.next e.1.value) c.hot_config
    pub distinct : Distinct go c.hot_config
    pub values : All (λ e. IsPlain e.1.value) c.non_reloadable_config

  -- The environment names of all keys of some variables are known.
  abbrev pub AllKnown : Source V → List (Text × ConfigValue F S) → Type 0
  AllKnown source m = All (λ e. All (Known go source) e.1.keys) m

  pub AllKnown-AllBound :
      (source : Source V) (m : List (Text × ConfigValue F S))
      → AllKnown source m
      → AllBound go source m
  AllKnown-AllBound source m h =
      All-map _ _ m (λ e k. All-map _ _ e.1.keys (λ t j. Known-Bound go source t j) k) h

  update_slot-pointer :
      (slot : Slot F S) (next : ℕ) (cv : ConfigValue F S) (v : Value F S) (c : Config F S V)
      → IsPointer next slot
      → (update_slot go slot cv v c).1 ≡ cv
  unfolding update_slot
  update_slot-pointer (plain w) next cv v c h = absurd h
  update_slot-pointer (pointer a) next cv v c h = elim (Bool-cases (same go (c.cells a) v)) [
    | inl e ↦ rw e refl
    | inr e ↦ rw e refl
  ]

  check_value-pointer :
      (next : ℕ) (cv : ConfigValue F S) (c : Config F S V)
      → IsPointer next cv.value
      → (check_value go cv c).1 ≡ cv
  unfolding check_value
  check_value-pointer next cv c h = update_slot-pointer cv.value next cv _ _ h

  -- A pass leaves the variables that have a `Reloadable` as they are.
  pub check_config-pointers :
      (next : ℕ) (m : List (Text × ConfigValue F S)) (c : Config F S V)
      → All (λ e. IsPointer next e.1.value) m
      → (check_config go m c).1 ≡ m
  unfolding check_config
  check_config-pointers next [] c h = refl
  check_config-pointers next ((k, cv) ∷ m) c h =
      let first = check_value-pointer next cv c h.0 in
      let rest = check_config-pointers next m (check_value go cv c).0 h.1 in
      λ i. (k, first i) ∷ rest i

  update_slot-IsPlain :
      (slot : Slot F S) (cv : ConfigValue F S) (v : Value F S) (c : Config F S V)
      → cv.value ≡ slot
      → IsPlain slot
      → IsPlain (update_slot go slot cv v c).1.value
  unfolding update_slot
  update_slot-IsPlain (pointer a) cv v c e h = absurd h
  update_slot-IsPlain (plain w) cv v c e h = elim (Bool-cases (same go w v)) [
    | inl k ↦ rw k (subst IsPlain (sym e) tt)
    | inr k ↦ rw k tt
  ]

  pub check_config-IsPlain :
      (m : List (Text × ConfigValue F S)) (c : Config F S V)
      → All (λ e. IsPlain e.1.value) m
      → All (λ e. IsPlain e.1.value) (check_config go m c).1
  unfolding check_config check_value
  check_config-IsPlain [] c h = tt
  check_config-IsPlain ((k, cv) ∷ m) c h = (
    update_slot-IsPlain cv.value cv _ _ refl h.0,
    check_config-IsPlain m (check_value go cv c).0 h.1,
  )

  pub Apart-IsPlain : (s t : Slot F S) → IsPlain s → Apart go s t
  Apart-IsPlain (plain v) (plain w) h = tt
  Apart-IsPlain (plain v) (pointer b) h = tt
  Apart-IsPlain (pointer a) t h = absurd h

  pub Distinct-plain :
      (m : List (Text × ConfigValue F S)) → All (λ e. IsPlain e.1.value) m → Distinct go m
  Distinct-plain [] h = tt
  Distinct-plain ((k, cv) ∷ m) h =
      (All-map _ _ m (λ e p. Apart-IsPlain e.1.value cv.value p) h.1, Distinct-plain m h.1)

  pub Quiet-keeps :
      (c d : Config F S V) (cv : ConfigValue F S)
      → d.source ≡ c.source
      → held go d.cells cv.value ≡ held go c.cells cv.value
      → Quiet go c cv
      → Quiet go d cv
  Quiet-keeps c d cv source cells q = rw (source, cells) q

  notify_keys-none :
      (k : Text) (ks : List Text) (c : Config F S V)
      → lookup text_discrete k c.non_reloadable_keys ≡ none
      → notify_keys go (k ∷ ks) c ≡ notify_keys go ks c
  unfolding notify_keys
  notify_keys-none k ks c e = rw (e, notify_keys) refl

  notify_keys-some :
      (k original : Text) (ks : List Text) (c : Config F S V)
      → lookup text_discrete k c.non_reloadable_keys ≡ some original
      → notify_keys go (k ∷ ks) c ≡ notify_keys go ks (notify (non_reloadable_changed original) c)
  unfolding notify_keys
  notify_keys-some k original ks c e = rw (e, notify_keys) refl

  -- Notifications change no value and no variable.
  pub notify_keys-keeps :
      (ks : List Text) (c : Config F S V)
      → ((notify_keys go ks c).cells ≡ c.cells)
        × ((notify_keys go ks c).source ≡ c.source)
        × (rest_of go (notify_keys go ks c) ≡ rest_of go c)
  unfolding notify_keys notify
  notify_keys-keeps [] c = (refl, refl, refl)
  notify_keys-keeps (k ∷ ks) c =
      elim (Option-cases (lookup text_discrete k c.non_reloadable_keys)) [
        | inl e ↦ rw (notify_keys-none k ks c e) (notify_keys-keeps ks c)
        | inr (original, e) ↦
            rw (notify_keys-some k original ks c e)
              (notify_keys-keeps ks (notify (non_reloadable_changed original) c))
      ]
