-- ===== src/Config/Registered.antt =====
-- config/config.go: what a registered variable holds, and what a second registration gets.
use mathlib.Core.Path.{subst}
use rudder_go_kit.Prelude.{
  ℕ, suc, ◌<◌, ◌≡◌, refl, sym, ap, ◌∙◌, if_pos, if_neg, List, [], ◌∷◌, none, some, if◌then◌else◌,
  arith, All, All-map,
}
use rudder_go_kit.Prelude.Maps.{lookup, insert, lookup-insert_self}
use rudder_go_kit.Config.Types.{
  Text, text_discrete, equal, mul64, int_value, Spec, int_spec, Slot, pointer, plain, ConfigValue,
  Config, Go,
}
use rudder_go_kit.Config.Access.{
  write, raw_default, scale, get_map_key, store_var, get_var, get_reloadable_var,
}
use rudder_go_kit.Config.Reload.{Apart, Distinct}
use rudder_go_kit.Config.Coherent.{IsPointer, IsValid}
use rudder_go_kit.Config.Registry.{
  map_key, default_text, equal_self, Unregistered, entry_of, created, get_reloadable_var-new,
  get_reloadable_var-old,
}

All-insert :
    {K V : Type 0} (dec : Discrete K) (P : K × V → Type 0) (k : K) (v : V) (m : List (K × V))
    → P (k, v)
    → All P m
    → All P (insert dec k v m)
unfolding insert
All-insert dec P k v [] p h = (p, tt)
All-insert dec P k v ((j, w) ∷ m) p h = elim (dec j k) [
  | yes e ↦ rw (if_pos _ e) (p, h.1)
  | no n ↦ rw (if_neg _ n) (h.0, All-insert dec P k v m p h.1)
]

module _ {F S V : Type 0} (go : Go F S V) where
  Apart-fresh :
      (next : ℕ) (s : Slot F S)
      → IsPointer next s
      → Apart go s (pointer next) × Apart go (pointer next) s
  Apart-fresh next (plain v) h = absurd h
  Apart-fresh next (pointer a) h = (λ e. omega (arith, e), λ e. omega (arith, e))

  IsPointer-suc : (next : ℕ) (s : Slot F S) → IsPointer next s → IsPointer (suc next) s
  IsPointer-suc next (plain v) h = absurd h
  IsPointer-suc next (pointer a) h = omega arith

  -- An entry with a new `Reloadable` keeps the variables apart.
  Distinct-insert :
      (k : Text) (cv : ConfigValue F S) (m : List (Text × ConfigValue F S))
      → All (λ e. Apart go e.1.value cv.value × Apart go cv.value e.1.value) m
      → Distinct go m
      → Distinct go (insert text_discrete k cv m)
  unfolding insert
  Distinct-insert k cv [] h d = (tt, tt)
  Distinct-insert k cv ((j, w) ∷ m) h d = elim (text_discrete j k) [
    | yes e ↦ rw (if_pos _ e) (All-map _ _ m (λ x p. p.0) h.1, d.1)
    | no n ↦ rw (if_neg _ n) (
      All-insert text_discrete (λ e. Apart go e.1.value w.value) k cv m h.0.1 d.0,
      Distinct-insert k cv m h.1 d.1,
    )
  ]

  created-IsValid :
      (spec : Spec F S) (keys : List Text) (c : Config F S V)
      → IsValid go c
      → IsValid go (created go spec keys c)
  created-IsValid spec keys c v = record {
    hot =
        All-insert text_discrete (λ e. IsPointer (suc c.next) e.1.value) (map_key go spec keys)
          (entry_of go spec keys c.next) c.hot_config (omega arith)
          (All-map _ _ c.hot_config (λ e h. IsPointer-suc c.next e.1.value h) v.hot);
    distinct =
        Distinct-insert (map_key go spec keys) (entry_of go spec keys c.next) c.hot_config
          (All-map _ _ c.hot_config (λ e h. Apart-fresh c.next e.1.value h) v.hot) v.distinct;
    values = v.values;
  }

  -- A first registration succeeds and keeps the configuration valid; the new `Reloadable` holds just
  -- what the function for variables that are not reloadable returns, and no other one changes.
  pub get_reloadable_var-get_var :
      (spec : Spec F S) (keys : List Text) (c : Config F S V)
      → IsValid go c
      → Unregistered go (map_key go spec keys) c
      → (d : Config F S V) × (get_reloadable_var go spec keys c ≡ some (d, c.next))
        × IsValid go d
        × (d.cells c.next ≡ (get_var go spec keys c).1)
        × ((a : ℕ) → a < c.next → d.cells a ≡ c.cells a)
  unfolding get_var write
  get_reloadable_var-get_var spec keys c v new = (
    created go spec keys c,
    get_reloadable_var-new go spec keys c new,
    created-IsValid spec keys c v,
    ground arith,
    λ a h. ground arith,
  )

  -- After a first registration, another one under the same type and keys gets the same `Reloadable`,
  -- with nothing changed, if its default reads the same, and panics otherwise.
  pub get_reloadable_var-again :
      (spec spec' : Spec F S) (keys keys' : List Text) (c d : Config F S V) (a : ℕ)
      → Unregistered go (map_key go spec keys) c
      → get_reloadable_var go spec keys c ≡ some (d, a)
      → map_key go spec' keys' ≡ map_key go spec keys
      → get_reloadable_var go spec' keys' d ≡ (
          if equal text_discrete (default_text go spec keys) (default_text go spec' keys')
          then some (d, a)
          else none)
  get_reloadable_var-again spec spec' keys keys' c d a new first same =
      let made : (created go spec keys c, c.next) ≡ (d, a) =
        ground (arith, sym (get_reloadable_var-new go spec keys c new) ∙ first) in
      subst
        (λ (r : Config F S V × ℕ). get_reloadable_var go spec' keys' r.0 ≡ (
          if equal text_discrete (default_text go spec keys) (default_text go spec' keys')
          then some r
          else none))
        made
        (get_reloadable_var-old go spec' keys' (created go spec keys c) c.next
          (default_text go spec keys)
          (ap
              (λ k.
                lookup text_discrete k
                  (insert text_discrete (map_key go spec keys) c.next c.hot_vars))
              same
            ∙ lookup-insert_self text_discrete _ _ c.hot_vars)
          (ap
              (λ k. lookup text_discrete k (
                insert text_discrete (map_key go spec keys) (default_text go spec keys)
                  c.hot_defaults))
              same
            ∙ lookup-insert_self text_discrete _ _ c.hot_defaults))

  -- Two registrations of an `int` variable with different scales whose scaled defaults agree share one
  -- `Reloadable`, which is scaled as the first one asked.
  pub reloadable_int_shares_scale :
      (d s d' s' : ℕ) (keys : List Text) (c : Config F S V)
      → Unregistered go (map_key go (int_spec d s) keys) c
      → mul64 d s ≡ mul64 d' s'
      → (e : Config F S V) × (get_reloadable_var go (int_spec d s) keys c ≡ some (e, c.next))
        × (get_reloadable_var go (int_spec d' s') keys e ≡ some (e, c.next))
        × (e.cells c.next ≡ (store_var go (int_spec d s) keys c.source).1)
  unfolding write raw_default scale
  reloadable_int_shares_scale d s d' s' keys c new same =
      let text_same : default_text go (int_spec d' s') keys ≡ default_text go (int_spec d s) keys =
        ap (λ n. (get_map_key go (int_value n) keys).1) (sym same) in
      let key_same : map_key go (int_spec d' s') keys ≡ map_key go (int_spec d s) keys =
        ap (λ n. (get_map_key go (int_value n) keys).0) (sym same) in
      (
        created go (int_spec d s) keys c,
        get_reloadable_var-new go (int_spec d s) keys c new,
        get_reloadable_var-again (int_spec d s) (int_spec d' s') keys keys c _ c.next new
              (get_reloadable_var-new go (int_spec d s) keys c new) key_same
            ∙ rw (text_same, equal_self (default_text go (int_spec d s) keys)) refl,
        ground arith,
      )
