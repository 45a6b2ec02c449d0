-- ===== src/Config/EnvNames.antt =====
-- config/config_env.go and `bindEnv`: the environment names of keys, and when they are stable.
use rudder_go_kit.Prelude.{
  ◌≡◌, ◌⊎◌, inl, inr, refl, sym, ap, ◌∙◌, List, [], ◌∷◌, none, some, All, All-map, Option-cases,
}
use rudder_go_kit.Prelude.Maps.{
  lookup, insert, lookup-insert_self, lookup-insert_ne, insert_present,
}
use rudder_go_kit.Config.Types.{Text, text_discrete, Source, Go}
use rudder_go_kit.Config.Env.{replace, bind_env, config_key_to_env}
use rudder_go_kit.Config.Lookup.{Bound}

replace-some :
    (s v : Text) (envs : List (Text × Text))
    → lookup text_discrete s envs ≡ some v
    → replace envs s ≡ v
unfolding replace
replace-some s v envs h = rw (h, replace) refl

module _ {F S V : Type 0} (go : Go F S V) where
  -- The name of a key is in `envs`, or another one that stands at the key itself.
  abbrev pub Known : Source V → Text → Type 0
  Known c key =
      ((name : Text) × (lookup text_discrete key c.envs ≡ some name))
      ⊎ (lookup text_discrete (go.to_upper key) c.envs
          ≡ some (config_key_to_env go c.env_prefix key))

  bind_env-some :
      (key name : Text) (c : Source V)
      → lookup text_discrete key c.envs ≡ some name
      → bind_env go key c ≡ c
  unfolding bind_env
  bind_env-some key name c h = rw (h, bind_env) refl

  bind_env-none :
      (key : Text) (c : Source V)
      → lookup text_discrete key c.envs ≡ none
      → bind_env go key c ≡ record c {
        envs =
            insert text_discrete (go.to_upper key) (config_key_to_env go c.env_prefix key) c.envs;
      }
  unfolding bind_env
  bind_env-none key c h = rw (h, bind_env) refl

  pub Known-Bound : (c : Source V) (key : Text) → Known c key → Bound go c key
  Known-Bound c key (inl (name, h)) = bind_env-some key name c h
  Known-Bound c key (inr h) = elim (Option-cases (lookup text_discrete key c.envs)) [
    | inl e ↦
        bind_env-none key c e
        ∙ ap (λ (m : List (Text × Text)). record c { envs = m })
            (insert_present text_discrete _ _ c.envs h)
    | inr (name, e) ↦ bind_env-some key name c e
  ]

  -- Two keys that viper does not tell apart have one environment name.
  abbrev Agree : Text → Text → Text → Type 0
  Agree prefix j k =
      go.to_upper j ≡ go.to_upper k → config_key_to_env go prefix j ≡ config_key_to_env go prefix k

  Known-self : (c : Source V) (key : Text) → Known (bind_env go key c) key
  Known-self c key = elim (Option-cases (lookup text_discrete key c.envs)) [
    | inl e ↦ rw (bind_env-none key c e) (inr (lookup-insert_self text_discrete _ _ c.envs))
    | inr (name, e) ↦ rw (bind_env-some key name c e) (inl (name, e))
  ]

  Known-insert :
      (c : Source V) (j k : Text)
      → Agree c.env_prefix j k
      → Known c k
      → Known
          (record c {
            envs =
                insert text_discrete (go.to_upper j) (config_key_to_env go c.env_prefix j) c.envs;
          })
          k
  Known-insert c j k agree (inl (name, h)) = elim (text_discrete (go.to_upper j) k) [
    | yes p ↦ inl (
      config_key_to_env go c.env_prefix j,
      ap
            (λ t.
              lookup text_discrete t
                (insert text_discrete (go.to_upper j) (config_key_to_env go c.env_prefix j) c.envs))
            (sym p)
          ∙ lookup-insert_self text_discrete _ _ c.envs,
    )
    | no n ↦ inl (name, lookup-insert_ne text_discrete _ _ _ c.envs n ∙ h)
  ]
  Known-insert c j k agree (inr h) = elim (text_discrete (go.to_upper j) (go.to_upper k)) [
    | yes p ↦ inr (
        ap
          (λ t.
            lookup text_discrete t
              (insert text_discrete (go.to_upper j) (config_key_to_env go c.env_prefix j) c.envs))
          (sym p)
        ∙ lookup-insert_self text_discrete _ _ c.envs
        ∙ ap some (agree p))
    | no n ↦ inr (lookup-insert_ne text_discrete _ _ _ c.envs n ∙ h)
  ]

  Known-bind_env :
      (c : Source V) (j k : Text) → Agree c.env_prefix j k → Known c k → Known (bind_env go j c) k
  Known-bind_env c j k agree h = elim (Option-cases (lookup text_discrete j c.envs)) [
    | inl e ↦ rw (bind_env-none j c e) (Known-insert c j k agree h)
    | inr (name, e) ↦ rw (bind_env-some j name c e) h
  ]

  env_prefix-bind_env : (key : Text) (c : Source V) → (bind_env go key c).env_prefix ≡ c.env_prefix
  env_prefix-bind_env key c = elim (Option-cases (lookup text_discrete key c.envs)) [
    | inl e ↦ rw (bind_env-none key c e) refl
    | inr (name, e) ↦ rw (bind_env-some key name c e) refl
  ]

  -- A lookup of each key in turn.
  unfoldable pub bind_all : List Text → Source V → Source V
  bind_all [] c = c
  bind_all (key ∷ keys) c = bind_all keys (bind_env go key c)

  Known-bind_all :
      (keys : List Text) (k : Text) (c : Source V)
      → All (λ j. Agree c.env_prefix j k) keys
      → Known c k
      → Known (bind_all keys c) k
  unfolding bind_all
  Known-bind_all [] k c agree h = h
  Known-bind_all (j ∷ keys) k c agree h =
      Known-bind_all keys k (bind_env go j c) (rw (env_prefix-bind_env j c) agree.1)
        (Known-bind_env c j k agree.0 h)

  Known-All :
      (keys : List Text) (c : Source V)
      → All (λ k. All (λ j. Agree c.env_prefix j k) keys) keys
      → All (Known (bind_all keys c)) keys
  unfolding bind_all
  Known-All [] c agree = tt
  Known-All (k ∷ keys) c agree = (
    Known-bind_all keys k (bind_env go k c) (rw (env_prefix-bind_env k c) agree.0.1)
        (Known-self c k),
    Known-All keys (bind_env go k c) (
        rw (env_prefix-bind_env k c)
          (All-map _ _ keys (λ t (h : All (λ j. Agree c.env_prefix j t) (k ∷ keys)). h.1) agree.1)),
  )

  -- Once each of some keys was looked up, no lookup of them changes a name any more, if keys that
  -- viper does not tell apart have one environment name.
  bind_all-Bound :
      (keys : List Text) (c : Source V)
      → All (λ k. All (λ j. Agree c.env_prefix j k) keys) keys
      → All (Bound go (bind_all keys c)) keys
  bind_all-Bound keys c agree =
      All-map _ _ keys (λ k h. Known-Bound (bind_all keys c) k h) (Known-All keys c agree)

  -- After a first lookup of a key in mixed case, a lookup of the same key in capitals takes the
  -- environment name of the former, where the documented name of a key in capitals is the key.
  bind_env_hijacks :
      (key capitals : Text) (c : Source V)
      → lookup text_discrete key c.envs ≡ none
      → go.to_upper key ≡ capitals
      → replace (bind_env go capitals (bind_env go key c)).envs capitals
        ≡ config_key_to_env go c.env_prefix key
  unfolding replace
  bind_env_hijacks key capitals c absent up =
      let bound = bind_env-none key c absent in
      let there : lookup text_discrete capitals (bind_env go key c).envs
          ≡ some (config_key_to_env go c.env_prefix key) =
        ap (λ (d : Source V). lookup text_discrete capitals d.envs) bound
        ∙ ap
            (λ t.
              lookup text_discrete capitals
                (insert text_discrete t (config_key_to_env go c.env_prefix key) c.envs))
            up
        ∙ lookup-insert_self text_discrete capitals _ c.envs in
      rw (bind_env-some capitals _ (bind_env go key c) there)
        (replace-some capitals _ (bind_env go key c).envs there)
