-- ===== src/Config/EnvForm.antt =====
-- config/config_env.go: the form of the environment names of ASCII keys.
use rudder_go_kit.Prelude.{
  ℕ, ◌-◌, ◌<◌, ◌≡◌, refl, Bool, true, false, [], ◌∷◌, ◌++◌, Option, none, some, if◌then◌else◌, ◌==◌,
  leb, ◌&&◌, ◌||◌, arith, All, Bool-cases, inl, inr,
}
use rudder_go_kit.Config.Types.{Text, Go}
use rudder_go_kit.Config.Env.{
  is_upper_case_config_key, upper_letter, after_word, env_runes, config_key_to_env,
}

abbrev pub capital : ℕ → Bool
capital r = leb b'A' r && leb r b'Z'

abbrev pub small : ℕ → Bool
small r = leb b'a' r && leb r b'z'

abbrev pub digit : ℕ → Bool
digit r = leb b'0' r && leb r b'9'

-- What package unicode says of the ASCII characters.
pub record Ascii {F S V : Type 0} (go : Go F S V) : Type 0 where
  pub is_upper_ascii : (r : ℕ) → r < 128 → go.is_upper r ≡ capital r
  pub is_digit_ascii : (r : ℕ) → r < 128 → go.is_digit r ≡ digit r
  pub is_letter_ascii : (r : ℕ) → r < 128 → go.is_letter r ≡ (capital r || small r)
  pub upper_rune_ascii : (r : ℕ) → r < 128 → go.upper_rune r ≡ (if small r then r - 32 else r)

-- The characters of keys: letters, digits, `_` and `.`.
abbrev key_rune : ℕ → Bool
key_rune r = capital r || small r || digit r || (r == b'_') || (r == b'.')

module _ {F S V : Type 0} (go : Go F S V) (ascii : Ascii go) where
  abbrev env_rune : ℕ → Bool
  env_rune r = capital r || digit r || (r == b'_')

  env_rune-lt : (r : ℕ) → env_rune r ≡ true → r < 128
  env_rune-lt r h = ground arith

  upper_case-cons :
      (r : ℕ) (s : Text)
      → env_rune r ≡ true
      → is_upper_case_config_key go s ≡ true
      → is_upper_case_config_key go (r ∷ s) ≡ true
  unfolding is_upper_case_config_key
  upper_case-cons r s h k =
      ground
        (arith, ascii.is_upper_ascii r (env_rune-lt r h), ascii.is_digit_ascii r (env_rune-lt r h))

  env_rune-upper_letter :
      (r : ℕ) → key_rune r ≡ true → (r == b'.') ≡ false → env_rune (upper_letter go r) ≡ true
  env_rune-upper_letter r h k =
      let small_ascii : r < 128 = ground arith in
      ground (arith, ascii.is_letter_ascii r small_ascii, ascii.upper_rune_ascii r small_ascii)

  upper_letter-underscore : upper_letter go b'_' ≡ b'_'
  upper_letter-underscore = ground (arith, ascii.is_letter_ascii b'_' (omega arith))

  upper_case-env_runes :
      (previous : Option ℕ) (s : Text)
      → All (λ r. key_rune r ≡ true) s
      → is_upper_case_config_key go (env_runes go previous s) ≡ true
  unfolding is_upper_case_config_key env_runes
  upper_case-env_runes previous [] h = refl
  upper_case-env_runes previous (r ∷ s) h =
      let names = env_runes go (some r) s in
      let rest = upper_case-env_runes (some r) s h.1 in
      let u = upper_letter go r in
      elim (Bool-cases (capital r && after_word go previous)) [
        | inl cut ↦
            rw (cut, env_runes)
              (upper_case-cons b'_' (u ∷ names) refl
                (upper_case-cons u names (env_rune-upper_letter r h.0 (ground arith)) rest))
        | inr same ↦ elim (Bool-cases (r == b'.')) [
          | inl dot ↦
              rw (same, dot, env_runes)
                (rw upper_letter-underscore (upper_case-cons b'_' names refl rest))
          | inr plain ↦
              rw (same, plain, env_runes)
                (upper_case-cons u names (env_rune-upper_letter r h.0 plain) rest)
        ]
      ]

  upper_case-append :
      (s t : Text)
      → is_upper_case_config_key go s ≡ true
      → is_upper_case_config_key go t ≡ true
      → is_upper_case_config_key go (s ++ t) ≡ true
  unfolding is_upper_case_config_key
  upper_case-append [] t h k = k
  upper_case-append (r ∷ s) t h k = ground (arith, upper_case-append s t)

  upper_case-config_key_to_env :
      (prefix s : Text)
      → is_upper_case_config_key go prefix ≡ true
      → All (λ r. key_rune r ≡ true) s
      → is_upper_case_config_key go (config_key_to_env go prefix s) ≡ true
  unfolding config_key_to_env
  upper_case-config_key_to_env prefix s h k = elim (Bool-cases (is_upper_case_config_key go s)) [
    | inl e ↦ rw (e, config_key_to_env) e
    | inr e ↦
        rw (e, config_key_to_env)
          (upper_case-append prefix (b'_' ∷ env_runes go none s) h
            (upper_case-cons b'_' (env_runes go none s) refl (upper_case-env_runes none s k)))
  ]

  config_key_to_env-upper_case :
      (prefix s : Text) → is_upper_case_config_key go s ≡ true → config_key_to_env go prefix s ≡ s
  unfolding config_key_to_env
  config_key_to_env-upper_case prefix s h = rw (h, config_key_to_env) refl

  -- The environment name of a key of ASCII letters, digits, dots and underscores has only capitals,
  -- digits and underscores, if the prefix has, and so it is its own environment name.
  pub config_key_to_env_idem :
      (prefix s : Text)
      → is_upper_case_config_key go prefix ≡ true
      → All (λ r. key_rune r ≡ true) s
      → (is_upper_case_config_key go (config_key_to_env go prefix s) ≡ true)
        × (config_key_to_env go prefix (config_key_to_env go prefix s)
            ≡ config_key_to_env go prefix s)
  config_key_to_env_idem prefix s h k =
      let form = upper_case-config_key_to_env prefix s h k in
      (form, config_key_to_env-upper_case prefix (config_key_to_env go prefix s) form)
