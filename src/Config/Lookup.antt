-- ===== src/Config/Lookup.antt =====
-- config/config.go and config/config_<type>.go: which key a variable is read from.
use rudder_go_kit.Prelude.{
  ◌≡◌, inl, inr, refl, ap, Bool, true, List, [], ◌∷◌, Option, none, some, if◌then◌else◌, All,
  Bool-cases,
}
use rudder_go_kit.Config.Types.{Text, Value, Spec, Source, Go}
use rudder_go_kit.Config.Env.{replace, bind_env, is_set_internal}
use rudder_go_kit.Config.Access.{
  raw_default, scale, is_set, read_viper, read_internal, read_first, store_var,
}

module _ {F S V : Type 0} (go : Go F S V) where
  -- A key whose environment name is known already, so that a lookup of it changes nothing.
  abbrev pub Bound : Source V → Text → Type 0
  Bound c key = bind_env go key c ≡ c

  abbrev set_in : Source V → Text → Bool
  set_in c key = go.is_set c.viper (replace c.envs) key

  -- The first key that viper has a value for.
  unfoldable pub first_set : Source V → List Text → Option Text
  first_set c [] = none
  first_set c (key ∷ keys) = let rest = first_set c keys in if set_in c key then some key else rest

  -- The value at the key that was found, or the default.
  unfoldable pub value_at : Spec F S → Source V → Option Text → Value F S
  value_at spec c none = raw_default spec
  value_at spec c (some key) = read_viper go spec key c

  is_set_internal-Bound :
      (key : Text) (c : Source V) → Bound c key → is_set_internal go key c ≡ (c, set_in c key)
  unfolding is_set_internal
  is_set_internal-Bound key c b = ap (λ (d : Source V). (d, set_in d key)) b

  read_internal-Bound :
      (spec : Spec F S) (key : Text) (c : Source V)
      → Bound c key
      → set_in c key ≡ true
      → read_internal go spec key c ≡ (c, read_viper go spec key c)
  unfolding read_internal
  read_internal-Bound spec key c b h = rw (is_set_internal-Bound key c b, h) refl

  pub read_first-first_set :
      (spec : Spec F S) (keys : List Text) (c : Source V)
      → All (Bound c) keys
      → read_first go spec keys c ≡ (c, value_at spec c (first_set c keys))
  unfolding read_first first_set value_at is_set
  read_first-first_set spec [] c b = refl
  read_first-first_set spec (key ∷ keys) c b = elim (Bool-cases (set_in c key)) [
    | inl h ↦ rw (is_set_internal-Bound key c b.0, h) (read_internal-Bound spec key c b.0 h)
    | inr h ↦ rw (is_set_internal-Bound key c b.0, h) (read_first-first_set spec keys c b.1)
  ]

  -- A variable has the value of the first of its keys that is set, or else its default, times its
  -- scale, once the environment names of its keys are bound; the lookup then changes nothing.
  pub store_var-first_set :
      (spec : Spec F S) (keys : List Text) (c : Source V)
      → All (Bound c) keys
      → store_var go spec keys c ≡ (c, scale spec (value_at spec c (first_set c keys)))
  unfolding store_var
  store_var-first_set spec keys c b = rw (read_first-first_set spec keys c b) refl
