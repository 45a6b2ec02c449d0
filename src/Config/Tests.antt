-- ===== src/Config/Tests.antt =====
-- config/ at concrete inputs: viper as a list of numbers by key, ASCII letters, numbers for floats.
use rudder_go_kit.Prelude.{
  ℕ, ◌-◌, ◌*◌, ◌<◌, ◌≡◌, ◌≢◌, refl, inr, Bool, true, false, ◌||◌, List, [], ◌∷◌, ◌++◌, map, Option,
  none, some, if◌then◌else◌, ◌==◌, arith, ℕ_discrete,
}
use rudder_go_kit.Prelude.Maps.{lookup, insert}
use rudder_go_kit.Prelude.Positions.{count}
use rudder_go_kit.Config.Types.{
  Text, codes, text_discrete, mul64, Value, int_value, int_spec, pointer, leaf, Entries, no_entries,
  entry, all_changes, reloadable_only, non_reloadable_only, reloadable_changed, Source, Config, Go,
}
use rudder_go_kit.Config.Env.{
  is_upper_case_config_key, env_runes, replace, bind_env, config_key_to_env, is_set_internal,
}
use rudder_go_kit.Config.EnvForm.{capital, small, digit, Ascii}
use rudder_go_kit.Config.EnvNames.{bind_all}
use rudder_go_kit.Config.Access.{
  same, same_slice, map_deep_equal, within, join, write, get_type_name, raw_default, scale,
  get_string_value, zero_value, get_map_key, is_set, read_viper, read_internal, read_first,
  store_var, register_keys, register_non_reloadable, get_var, register_default, check_default,
  find_or_create, get_or_create_pointer, get_reloadable_var,
}
use rudder_go_kit.Config.Notify.{
  split_last, overwrite, is_registered, drop_last, unregister, deliver, notify,
}
use rudder_go_kit.Config.Change.{
  check_scale, update_slot, check_value, check_config, flatten, flatten_any, flatten_setting,
  get_current_settings, same_setting, modified_keys, removed_keys, notify_keys,
  check_and_notify_non_reloadable, on_config_change, set,
}
use rudder_go_kit.Config.Reload.{resolved, notice_of, notices_of}
use rudder_go_kit.Config.Pass.{all_notices, Passed, check_config-Passed}
use rudder_go_kit.Config.Coherent.{IsValid}
use rudder_go_kit.Config.Changed.{Changed, written, set-Changed}
use rudder_go_kit.Config.Registered.{get_reloadable_var-get_var, get_reloadable_var-again}
use rudder_go_kit.Config.Settings.{has_key, changed_keys_exact}
use rudder_go_kit.Config.Lookup.{first_set, value_at, store_var-first_set}

abbrev upper : ℕ → ℕ
upper r = if small r then r - 32 else r

read_number : Text → List (Text × ℕ) → ℕ
read_number key v = elim (lookup text_discrete key v) [ none ↦ 0 | some n ↦ n ]

has_number : Text → List (Text × ℕ) → Bool
has_number key v = elim (lookup text_discrete key v) [ none ↦ false | some n ↦ true ]

number_of : Value ℕ ℕ → ℕ
number_of (int_value n) = n
number_of _ = 0

all_leaves : List (Text × ℕ) → Entries ℕ
all_leaves [] = no_entries
all_leaves ((k, n) ∷ m) = entry k (leaf n) (all_leaves m)

abbrev numbers : Go ℕ ℕ (List (Text × ℕ))
numbers = record {
  is_upper = capital;
  is_digit = digit;
  is_letter = λ r. capital r || small r;
  upper_rune = upper;
  to_upper = map upper;
  to_lower = λ t. t;
  format_int = λ n. n ∷ [];
  format_float = λ n. n ∷ [];
  format_duration = λ n. n ∷ [];
  format_map = λ m. [];
  deep_equal = λ a b. a == b;
  parse_duration = λ t. none;
  parses_float = λ t. false;
  cast_string = λ n. some (n ∷ []);
  float_mul = λ a b. a * b;
  float_equal = λ a b. a == b;
  float_zero = 0;
  float_one = 1;
  is_set = λ v f key. has_number key v;
  get_int = λ v f key. read_number key v;
  get_int64 = λ v f key. read_number key v;
  get_string = λ v f key. [];
  get_duration = λ v f key. read_number key v;
  get_bool = λ v f key. false;
  get_float64 = λ v f key. read_number key v;
  get_string_slice = λ v f key. [];
  get_string_map = λ v f key. [];
  set_value = λ key value v. insert text_discrete key (number_of value) v;
  all_settings = λ v f. all_leaves v;
}

numbers-Ascii : Ascii numbers
numbers-Ascii = record {
  is_upper_ascii = λ r h. refl;
  is_digit_ascii = λ r h. refl;
  is_letter_ascii = λ r h. refl;
  upper_rune_ascii = λ r h. refl;
}

program : Unit {0}
unfolding ℕ_discrete text_discrete lookup insert read_number has_number number_of all_leaves mul64
    is_upper_case_config_key env_runes replace bind_env config_key_to_env is_set_internal bind_all
    first_set value_at count same same_slice map_deep_equal within join write get_type_name
    raw_default scale get_string_value zero_value get_map_key is_set read_viper read_internal
    read_first store_var register_keys register_non_reloadable get_var register_default
    check_default find_or_create get_or_create_pointer get_reloadable_var split_last overwrite
    is_registered drop_last unregister deliver notify check_scale update_slot check_value
    check_config flatten flatten_any flatten_setting get_current_settings same_setting modified_keys
    removed_keys notify_keys check_and_notify_non_reloadable on_config_change set resolved notice_of
    notices_of all_notices has_key
program = tt

camel :
    config_key_to_env numbers (codes "RSERVER") (codes "JobsDB.hostName")
    ≡ codes "RSERVER_JOBS_DB_HOST_NAME"
unfolding program
camel = refl

abbrev host : Text
host = codes "db.hostName"

abbrev variable : Text
variable = codes "someVar"

abbrev keys : List Text
keys = host ∷ variable ∷ []

abbrev unbound : Source (List (Text × ℕ))
unbound = record { viper = (variable, 7) ∷ []; envs = []; env_prefix = codes "RSERVER" }

abbrev source : Source (List (Text × ℕ))
source = record unbound {
  envs =
      (map upper host, codes "RSERVER_DB_HOST_NAME")
      ∷ (map upper variable, codes "RSERVER_SOME_VAR")
      ∷ [];
}

keys_bound : bind_all numbers keys unbound ≡ source
unfolding program
keys_bound = refl

keys_apart : map upper host ≢ map upper variable
keys_apart e = ground (arith, e)

store_var-first_set_example : store_var numbers (int_spec 3 2) keys source ≡ (source, int_value 14)
unfolding program
store_var-first_set_example =
    store_var-first_set numbers (int_spec 3 2) keys source (refl, (refl, tt))

abbrev base : Config ℕ ℕ (List (Text × ℕ))
base = record {
  source = source;
  hot_config = [];
  hot_vars = [];
  hot_defaults = [];
  advanced_detection = false;
  non_reloadable_config = [];
  non_reloadable_keys = [];
  current_settings = [];
  observers = all_changes 0 ∷ reloadable_only 1 ∷ non_reloadable_only 2 ∷ [];
  cells = λ a. int_value 0;
  next = 0;
  notices = [];
}

base-IsValid : IsValid numbers base
base-IsValid = record { hot = tt; distinct = tt; values = tt }

get_reloadable_var-get_var_example :
    (d : Config ℕ ℕ (List (Text × ℕ))) × (get_reloadable_var numbers (int_spec 3 2) keys base
      ≡ some (d, 0))
    × IsValid numbers d
    × (d.cells 0 ≡ (get_var numbers (int_spec 3 2) keys base).1)
    × ((a : ℕ) → a < 0 → d.cells a ≡ int_value 0)
unfolding program
get_reloadable_var-get_var_example =
    get_reloadable_var-get_var numbers (int_spec 3 2) keys base base-IsValid (refl, refl)

-- The configuration with one reloadable variable.
abbrev one : Config ℕ ℕ (List (Text × ℕ))
one = record base {
  hot_config = (codes "int:x", record { value = pointer 0; spec = int_spec 3 2; keys = keys }) ∷ [];
  cells = λ a. int_value 14;
  next = 1;
}

one-IsValid : IsValid numbers one
one-IsValid = record { hot = (omega arith, tt); distinct = (tt, tt); values = tt }

-- The key that stands first gets a value.
after_set : (set numbers host (int_value 5) one).cells 0 ≡ int_value 10
unfolding program
after_set = refl

told :
    (set numbers host (int_value 5) one).notices
    ≡ (all_changes 0, reloadable_changed (join keys) (int_value 14) (int_value 10))
      ∷ (reloadable_only 1, reloadable_changed (join keys) (int_value 14) (int_value 10))
      ∷ []
unfolding program
told = refl

check_config-Passed_example :
    Passed numbers one.hot_config one (check_config numbers one.hot_config one)
unfolding program
check_config-Passed_example =
    check_config-Passed numbers one.hot_config one ((refl, (refl, tt)), tt) (refl, tt) (tt, tt)

set-Changed_example :
    Changed numbers (written numbers host (int_value 5) one) (set numbers host (int_value 5) one)
unfolding program
set-Changed_example =
    set-Changed numbers host (int_value 5) one one-IsValid
      (((inr refl, (inr refl, tt)), tt), (refl, tt)) (tt, tt)

abbrev registered : Config ℕ ℕ (List (Text × ℕ))
registered = (found (get_reloadable_var numbers (int_spec 3 2) keys base)).0
  where
    found : Option (Config ℕ ℕ (List (Text × ℕ)) × ℕ) → Config ℕ ℕ (List (Text × ℕ)) × ℕ
    found none = (base, 0)
    found (some r) = r

get_reloadable_var-again_example : get_reloadable_var numbers (int_spec 4 2) keys registered ≡ none
unfolding program
get_reloadable_var-again_example =
    get_reloadable_var-again numbers (int_spec 3 2) (int_spec 4 2) keys keys base registered 0
      (refl, refl) refl refl

changed_keys_exact_example :
    has_key host (
      modified_keys numbers ((host, 1) ∷ []) (get_current_settings numbers base)
      ++ removed_keys numbers (get_current_settings numbers base) ((host, 1) ∷ []))
    ≡ true
unfolding program
changed_keys_exact_example = changed_keys_exact numbers ((host, 1) ∷ []) base host (refl, tt)
