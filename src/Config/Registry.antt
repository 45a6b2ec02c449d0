-- ===== src/Config/Registry.antt =====
-- config/config.go: the registration of reloadable variables.
use rudder_go_kit.Prelude.{
  ℕ, suc, ◌≡◌, refl, ap, ◌∙◌, inl, inr, if_pos, Bool, true, false, List, Option, none, some,
  if◌then◌else◌, Bool-cases,
}
use rudder_go_kit.Prelude.Maps.{lookup, insert, lookup-insert_self}
use rudder_go_kit.Config.Types.{Text, text_discrete, equal, Spec, pointer, ConfigValue, Config, Go}
use rudder_go_kit.Config.Access.{
  write, raw_default, scale, zero_value, get_map_key, store_var, register_default, check_default,
  find_or_create, get_or_create_pointer, get_reloadable_var,
}

pub equal_self : (t : Text) → equal text_discrete t t ≡ true
equal_self t = rw (if_pos _ refl) refl

module _ {F S V : Type 0} (go : Go F S V) where
  abbrev pub map_key : Spec F S → List Text → Text
  map_key spec keys = (get_map_key go (scale spec (raw_default spec)) keys).0

  abbrev pub default_text : Spec F S → List Text → Text
  default_text spec keys = (get_map_key go (scale spec (raw_default spec)) keys).1

  -- Nothing is registered under a map key.
  abbrev pub Unregistered : Text → Config F S V → Type 0
  Unregistered key c =
      (lookup text_discrete key c.hot_vars ≡ none)
      × (lookup text_discrete key c.hot_defaults ≡ none)

  abbrev pub entry_of : Spec F S → List Text → ℕ → ConfigValue F S
  entry_of spec keys a = record { value = pointer a; spec = spec; keys = keys }

  -- The configuration after a first registration.
  abbrev pub created : Spec F S → List Text → Config F S V → Config F S V
  created spec keys c =
      let stored = store_var go spec keys c.source in
      record c {
        source = stored.0;
        hot_vars = insert text_discrete (map_key spec keys) c.next c.hot_vars;
        hot_defaults =
            insert text_discrete (map_key spec keys) (default_text spec keys) c.hot_defaults;
        hot_config =
            insert text_discrete (map_key spec keys) (entry_of spec keys c.next) c.hot_config;
        cells = write (write c.cells c.next (zero_value go spec)) c.next stored.1;
        next = suc c.next;
      }

  register_default-new :
      (key dv : Text) (defaults : List (Text × Text))
      → lookup text_discrete key defaults ≡ none
      → register_default go key dv defaults ≡ insert text_discrete key dv defaults
  unfolding register_default
  register_default-new key dv defaults h = rw (h, register_default) refl

  register_default-old :
      (key dv d : Text) (defaults : List (Text × Text))
      → lookup text_discrete key defaults ≡ some d
      → register_default go key dv defaults ≡ defaults
  unfolding register_default
  register_default-old key dv d defaults h = rw (h, register_default) refl

  find_or_create-new :
      (key : Text) (spec : Spec F S) (keys : List Text) (c : Config F S V)
      → lookup text_discrete key c.hot_vars ≡ none
      → find_or_create go key spec keys c ≡ (
        record c {
          hot_vars = insert text_discrete key c.next c.hot_vars;
          hot_config = insert text_discrete key (entry_of spec keys c.next) c.hot_config;
          cells = write c.cells c.next (zero_value go spec);
          next = suc c.next;
        },
        c.next,
        false,
      )
  unfolding find_or_create
  find_or_create-new key spec keys c h = rw (h, find_or_create) refl

  find_or_create-old :
      (key : Text) (spec : Spec F S) (keys : List Text) (c : Config F S V) (a : ℕ)
      → lookup text_discrete key c.hot_vars ≡ some a
      → find_or_create go key spec keys c ≡ (c, a, true)
  unfolding find_or_create
  find_or_create-old key spec keys c a h = rw (h, find_or_create) refl

  -- What follows on a found or created variable.
  abbrev registered : Text → Text → Config F S V × ℕ × Bool → Option (Config F S V × ℕ × Bool)
  registered key dv r =
      check_default go (lookup text_discrete key (register_default go key dv r.0.hot_defaults)) dv
        (record r.0 { hot_defaults = register_default go key dv r.0.hot_defaults }, r.1, r.2)

  get_or_create_pointer-new :
      (spec : Spec F S) (keys : List Text) (c : Config F S V)
      → Unregistered (map_key spec keys) c
      → get_or_create_pointer go spec keys c
        ≡ some (
          record c {
            hot_vars = insert text_discrete (map_key spec keys) c.next c.hot_vars;
            hot_defaults =
                insert text_discrete (map_key spec keys) (default_text spec keys) c.hot_defaults;
            hot_config =
                insert text_discrete (map_key spec keys) (entry_of spec keys c.next) c.hot_config;
            cells = write c.cells c.next (zero_value go spec);
            next = suc c.next;
          },
          c.next,
          false,
        )
  unfolding get_or_create_pointer check_default
  get_or_create_pointer-new spec keys c (vars, defaults) =
      ap (registered (map_key spec keys) (default_text spec keys))
        (find_or_create-new (map_key spec keys) spec keys c vars)
      ∙ rw
          (
            register_default-new (map_key spec keys) (default_text spec keys) c.hot_defaults
                defaults,
            lookup-insert_self text_discrete (map_key spec keys) (default_text spec keys)
                c.hot_defaults,
            equal_self (default_text spec keys),
          )
          refl

  get_or_create_pointer-old :
      (spec : Spec F S) (keys : List Text) (c : Config F S V) (a : ℕ) (d : Text)
      → lookup text_discrete (map_key spec keys) c.hot_vars ≡ some a
      → lookup text_discrete (map_key spec keys) c.hot_defaults ≡ some d
      → get_or_create_pointer go spec keys c
        ≡ (if equal text_discrete d (default_text spec keys) then some (c, a, true) else none)
  unfolding get_or_create_pointer check_default
  get_or_create_pointer-old spec keys c a d vars defaults =
      ap (registered (map_key spec keys) (default_text spec keys))
        (find_or_create-old (map_key spec keys) spec keys c a vars)
      ∙ rw
          (
            register_default-old (map_key spec keys) (default_text spec keys) d c.hot_defaults
                defaults,
            defaults,
          )
          refl

  pub get_reloadable_var-new :
      (spec : Spec F S) (keys : List Text) (c : Config F S V)
      → Unregistered (map_key spec keys) c
      → get_reloadable_var go spec keys c ≡ some (created spec keys c, c.next)
  unfolding get_reloadable_var
  get_reloadable_var-new spec keys c h =
      rw (get_or_create_pointer-new spec keys c h, get_reloadable_var) refl

  pub get_reloadable_var-old :
      (spec : Spec F S) (keys : List Text) (c : Config F S V) (a : ℕ) (d : Text)
      → lookup text_discrete (map_key spec keys) c.hot_vars ≡ some a
      → lookup text_discrete (map_key spec keys) c.hot_defaults ≡ some d
      → get_reloadable_var go spec keys c
        ≡ (if equal text_discrete d (default_text spec keys) then some (c, a) else none)
  unfolding get_reloadable_var
  get_reloadable_var-old spec keys c a d vars defaults =
      elim (Bool-cases (equal text_discrete d (default_text spec keys))) [
        | inl e ↦
            rw (get_or_create_pointer-old spec keys c a d vars defaults, e, get_reloadable_var) refl
        | inr e ↦
            rw (get_or_create_pointer-old spec keys c a d vars defaults, e, get_reloadable_var) refl
      ]
