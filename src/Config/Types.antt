-- ===== src/Config/Types.antt =====
-- config/config.go, config/config_types.go and config/config_notify.go: the data of a configuration.
-- `int`, `int64` and `time.Duration` are 64-bit patterns, `float64` is the type `F`, a value of Go's type
-- `any` in a map or in the settings has the type `S`, and `V` is the state of viper.
use Prim.Native.Char.{code}
use Prim.Native.String.{String}
use rudder_go_kit.Prelude.{
  ite, ◌≡◌, refl, arith, ℕ, ◌*◌, ◌%◌, ◌^◌, Bool, true, false, List, [], ◌∷◌, Option, ℕ_discrete,
}

abbrev pub Text : Type 0
Text = List ℕ

-- The code points of a constant of the source.
abbrev pub codes : String → Text
codes String.[] = []
codes (String.◌∷◌ c s) = code c ∷ codes s

cons_discrete : (x y : ℕ) (xs ys : Text) → Dec (x ≡ y) → Dec (xs ≡ ys) → Dec (x ∷ xs ≡ y ∷ ys)
cons_discrete x y xs ys (yes p) (yes q) = yes (ground (arith, p, q))
cons_discrete x y xs ys (no n) d = no (λ e. n (ground (arith, e)))
cons_discrete x y xs ys (yes p) (no n) = no (λ e. n (ground (arith, e)))

unfoldable pub text_discrete : Discrete Text
unfolding cons_discrete ℕ_discrete
text_discrete [] [] = yes refl
text_discrete [] (y ∷ ys) = no (λ e. cc)
text_discrete (x ∷ xs) [] = no (λ e. cc)
text_discrete (x ∷ xs) (y ∷ ys) = cons_discrete x y xs ys (ℕ_discrete x y) (text_discrete xs ys)

-- Multiplication of 64-bit integers, signed or not.
unfoldable pub mul64 : ℕ → ℕ → ℕ
mul64 a b = (a * b) % 2 ^ 64

-- `a == b`
abbrev pub equal : {A : Type 0} → Discrete A → A → A → Bool
equal d a b = ite (d a b) true false

-- `configTypes`: the values that a variable can have.
pub data Value (F S : Type 0) : Type 0 where
  int_value : ℕ → Value F S
  int64_value : ℕ → Value F S
  string_value : Text → Value F S
  duration_value : ℕ → Value F S
  bool_value : Bool → Value F S
  float64_value : F → Value F S
  slice_value : List Text → Value F S
  map_value : List (Text × S) → Value F S

-- What a `configValue` has for its type: `defaultValue`, and `multiplier` where there is one.
pub data Spec (F S : Type 0) : Type 0 where
  int_spec : ℕ → ℕ → Spec F S
  int64_spec : ℕ → ℕ → Spec F S
  string_spec : Text → Spec F S
  duration_spec : ℕ → ℕ → Spec F S
  bool_spec : Bool → Spec F S
  float64_spec : F → Spec F S
  slice_spec : List Text → Spec F S
  map_spec : List (Text × S) → Spec F S

-- The `value` of a `configValue`: the `Reloadable` at an address, or a value.
pub data Slot (F S : Type 0) : Type 0 where
  pointer : ℕ → Slot F S
  plain : Value F S → Slot F S

-- `configValue`
pub record ConfigValue (F S : Type 0) : Type 0 where
  pub value : Slot F S
  pub spec : Spec F S
  pub keys : List Text

-- The nested maps of `AllSettings`; a key of a `map[any]any` need not be a text.
mutual
  pub data Setting (S : Type 0) : Type 0 where
    leaf : S → Setting S
    string_table : Entries S → Setting S
    any_table : AnyEntries S → Setting S

  pub data Entries (S : Type 0) : Type 0 where
    no_entries : Entries S
    entry : Text → Setting S → Entries S → Entries S

  pub data AnyEntries (S : Type 0) : Type 0 where
    no_any_entries : AnyEntries S
    any_entry : Option Text → Setting S → AnyEntries S → AnyEntries S

-- `Observer`: one for all changes, `ReloadableConfigChangesFunc` or `NonReloadableConfigChangesFunc`.
pub data Observer : Type 0 where
  all_changes reloadable_only non_reloadable_only : ℕ → Observer

-- A call of an observer's method.
pub data Notice (F S : Type 0) : Type 0 where
  reloadable_changed : Text → Value F S → Value F S → Notice F S
  non_reloadable_changed : Text → Notice F S

-- The part of a `Config` that a lookup reads and writes, under `vLock` and `envsLock`.
pub record Source (V : Type 0) : Type 0 where
  pub viper : V
  pub envs : List (Text × Text)
  pub env_prefix : Text

-- `Config`; `cells` are the values of the `Reloadable`s, `next` the next address, and `notices` the
-- calls of observers so far.
pub record Config (F S V : Type 0) : Type 0 where
  pub source : Source V
  pub hot_config : List (Text × ConfigValue F S)
  pub hot_vars : List (Text × ℕ)
  pub hot_defaults : List (Text × Text)
  pub advanced_detection : Bool
  pub non_reloadable_config : List (Text × ConfigValue F S)
  pub non_reloadable_keys : List (Text × Text)
  pub current_settings : List (Text × S)
  pub observers : List Observer
  pub cells : ℕ → Value F S
  pub next : ℕ
  pub notices : List (Observer × Notice F S)

-- What the code calls of other packages: unicode and strings, strconv, fmt and reflect, time, cast, the
-- operations of `float64`, and viper. Viper looks a key up with the replacer of environment names
-- that it was given.
pub record Go (F S V : Type 0) : Type 0 where
  pub is_upper : ℕ → Bool
  pub is_digit : ℕ → Bool
  pub is_letter : ℕ → Bool
  pub upper_rune : ℕ → ℕ
  pub to_upper : Text → Text
  pub to_lower : Text → Text
  pub format_int : ℕ → Text
  pub format_float : F → Text
  pub format_duration : ℕ → Text
  pub format_map : List (Text × S) → Text
  pub deep_equal : S → S → Bool
  pub parse_duration : Text → Option ℕ
  pub parses_float : Text → Bool
  pub cast_string : S → Option Text
  pub float_mul : F → F → F
  pub float_equal : F → F → Bool
  pub float_zero : F
  pub float_one : F
  pub is_set : V → (Text → Text) → Text → Bool
  pub get_int : V → (Text → Text) → Text → ℕ
  pub get_int64 : V → (Text → Text) → Text → ℕ
  pub get_string : V → (Text → Text) → Text → Text
  pub get_duration : V → (Text → Text) → Text → ℕ
  pub get_bool : V → (Text → Text) → Text → Bool
  pub get_float64 : V → (Text → Text) → Text → F
  pub get_string_slice : V → (Text → Text) → Text → List Text
  pub get_string_map : V → (Text → Text) → Text → List (Text × S)
  pub set_value : Text → Value F S → V → V
  pub all_settings : V → (Text → Text) → Entries S
