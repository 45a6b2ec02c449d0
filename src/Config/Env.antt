-- ===== src/Config/Env.antt =====
-- config/config_env.go, and the binding of environment names in config/config.go.
use rudder_go_kit.Prelude.{
  ℕ, List, Bool, true, false, not, ◌&&◌, ◌||◌, [], ◌∷◌, ◌++◌, Option, none, some, ◌==◌, leb,
  if◌then◌else◌,
}
use rudder_go_kit.Prelude.Maps.{lookup, insert}
use rudder_go_kit.Config.Types.{Text, text_discrete, Source, Go}

-- `envReplacer.Replace`
unfoldable pub replace : List (Text × Text) → Text → Text
replace envs s = elim (lookup text_discrete s envs) [ some v ↦ v | none ↦ s ]

module _ {F S V : Type 0} (go : Go F S V) where
  -- `isUpperCaseConfigKey`
  unfoldable pub is_upper_case_config_key : Text → Bool
  is_upper_case_config_key [] = true
  is_upper_case_config_key (ch ∷ s) =
      let rest = is_upper_case_config_key s in
      if not (ch == b'_') && not (go.is_upper ch) && not (go.is_digit ch) then false else rest

  abbrev pub upper_letter : ℕ → ℕ
  upper_letter r = if go.is_letter r then go.upper_rune r else r

  -- Whether the byte before is a small ASCII letter or a digit: the last byte of any rune beyond ASCII
  -- is neither, so the rune before serves as well.
  abbrev pub after_word : Option ℕ → Bool
  after_word none = false
  after_word (some q) = (leb b'a' q && leb q b'z') || (leb b'0' q && leb q b'9')

  -- The loop of `ConfigKeyToEnv`, after the rune `previous`.
  unfoldable pub env_runes : Option ℕ → Text → Text
  env_runes previous [] = []
  env_runes previous (r ∷ s) =
      let rest = env_runes (some r) s in
      if (leb b'A' r && leb r b'Z') && after_word previous
      then b'_' ∷ upper_letter r ∷ rest
      else if r == b'.'
      then upper_letter b'_' ∷ rest
      else upper_letter r ∷ rest

  -- `ConfigKeyToEnv`
  unfoldable pub config_key_to_env : Text → Text → Text
  config_key_to_env env_prefix s =
      if is_upper_case_config_key s then s else env_prefix ++ (b'_' ∷ env_runes none s)

  -- `bindEnv`
  unfoldable pub bind_env : Text → Source V → Source V
  bind_env key c = elim (lookup text_discrete key c.envs) [
    | some name ↦ c
    | none ↦ record c {
      envs = insert text_discrete (go.to_upper key) (config_key_to_env c.env_prefix key) c.envs;
    }
  ]

  -- `isSetInternal`
  unfoldable pub is_set_internal : Text → Source V → Source V × Bool
  is_set_internal key c = let c' = bind_env key c in (c', go.is_set c'.viper (replace c'.envs) key)
