-- ===== src/Config/Access.antt =====
-- config/config_types.go, config/config.go and the files config/config_<type>.go: comparing values, the
-- lookup of a variable by its keys, and its registration. The eight types share their code up to the
-- clauses of `read_internal`, `scale` and the functions of `Spec`.
use rudder_go_kit.Prelude.{
  ℕ, suc, Bool, true, false, not, ◌&&◌, List, [], ◌∷◌, ◌++◌, Option, none, some, ◌==◌, length,
  if◌then◌else◌,
}
use rudder_go_kit.Prelude.Maps.{lookup, insert}
use rudder_go_kit.Config.Types.{
  Text, codes, text_discrete, mul64, equal, Value, int_value, int64_value, string_value,
  duration_value, bool_value, float64_value, slice_value, map_value, Spec, int_spec, int64_spec,
  string_spec, duration_spec, bool_spec, float64_spec, slice_spec, map_spec, pointer, plain,
  ConfigValue, Source, Config, Go,
}
use rudder_go_kit.Config.Env.{is_set_internal, replace}

abbrev same_bool : Bool → Bool → Bool
same_bool true b = b
same_bool false b = not b

-- `slices.Compare(a, b) == 0`
unfoldable pub same_slice : List Text → List Text → Bool
same_slice [] [] = true
same_slice (x ∷ xs) (y ∷ ys) = equal text_discrete x y && same_slice xs ys
same_slice _ _ = false

unfoldable pub join : List Text → Text
join [] = []
join (k ∷ []) = k
join (k ∷ l ∷ ks) = k ++ (b',' ∷ join (l ∷ ks))

-- A write to the store of `Reloadable`s.
unfoldable pub write {ℓ} : {A : Type ℓ} → (ℕ → A) → ℕ → A → ℕ → A
write f a v b = if a == b then v else f b

-- The string of a type, before the keys in a map key.
unfoldable pub get_type_name : {F S : Type 0} → Value F S → Text
get_type_name (int_value x) = codes "int"
get_type_name (int64_value x) = codes "int64"
get_type_name (string_value x) = codes "string"
get_type_name (duration_value x) = codes "time.Duration"
get_type_name (bool_value x) = codes "bool"
get_type_name (float64_value x) = codes "float64"
get_type_name (slice_value x) = codes "[]string"
get_type_name (map_value x) = codes "map[string]any"

-- What follows on a test of a key.
abbrev pub if_set : {A V : Type 0} → Source V × Bool → (Source V → A) → (Source V → A) → A
if_set (c, true) f g = f c
if_set (c, false) f g = g c

-- The default value before it is scaled; the one of a duration is scaled at once.
unfoldable pub raw_default : {F S : Type 0} → Spec F S → Value F S
raw_default (int_spec d s) = int_value d
raw_default (int64_spec d s) = int64_value d
raw_default (string_spec d) = string_value d
raw_default (duration_spec d s) = duration_value (mul64 d s)
raw_default (bool_spec d) = bool_value d
raw_default (float64_spec d) = float64_value d
raw_default (slice_spec d) = slice_value d
raw_default (map_spec d) = map_value d

-- The multiplication by the scale, for the integers.
unfoldable pub scale : {F S : Type 0} → Spec F S → Value F S → Value F S
scale (int_spec d s) (int_value x) = int_value (mul64 x s)
scale (int64_spec d s) (int64_value x) = int64_value (mul64 x s)
scale _ v = v

module _ {F S V : Type 0} (go : Go F S V) where
  unfoldable pub within : List (Text × S) → List (Text × S) → Bool
  within [] b = true
  within ((k, v) ∷ a) b =
      let rest = within a b in
      elim (lookup text_discrete k b) [ none ↦ false | some w ↦ go.deep_equal v w && rest ]

  unfoldable pub map_deep_equal : List (Text × S) → List (Text × S) → Bool
  map_deep_equal a b = if length a == length b then within a b else false

  -- The comparison that a change of a variable is detected by.
  unfoldable pub same : Value F S → Value F S → Bool
  same (int_value x) (int_value y) = x == y
  same (int64_value x) (int64_value y) = x == y
  same (string_value x) (string_value y) = equal text_discrete x y
  same (duration_value x) (duration_value y) = x == y
  same (bool_value x) (bool_value y) = same_bool x y
  same (float64_value x) (float64_value y) = go.float_equal x y
  same (slice_value x) (slice_value y) = same_slice x y
  same (map_value x) (map_value y) = map_deep_equal x y
  same _ _ = false

  unfoldable pub get_string_value : Value F S → Text
  get_string_value (int_value x) = go.format_int x
  get_string_value (int64_value x) = go.format_int x
  get_string_value (string_value x) = x
  get_string_value (duration_value x) = go.format_duration x
  get_string_value (bool_value x) = if x then codes "true" else codes "false"
  get_string_value (float64_value x) = go.format_float x
  get_string_value (slice_value x) = join x
  get_string_value (map_value x) = go.format_map x

  -- The zero value of a `Reloadable` that was not written to yet.
  unfoldable pub zero_value : Spec F S → Value F S
  zero_value (int_spec d s) = int_value 0
  zero_value (int64_spec d s) = int64_value 0
  zero_value (string_spec d) = string_value []
  zero_value (duration_spec d s) = duration_value 0
  zero_value (bool_spec d) = bool_value false
  zero_value (float64_spec d) = float64_value go.float_zero
  zero_value (slice_spec d) = slice_value []
  zero_value (map_spec d) = map_value []

  unfoldable pub get_map_key : Value F S → List Text → Text × Text
  get_map_key v keys = (get_type_name v ++ (b':' ∷ join keys), get_string_value v)

  -- `IsSet` takes the lock that is not modelled, and calls `isSetInternal`.
  unfoldable pub is_set : Text → Source V → Source V × Bool
  is_set key c = is_set_internal go key c

  -- What viper holds for a key, by the type that is asked for.
  unfoldable pub read_viper : Spec F S → Text → Source V → Value F S
  read_viper (int_spec d s) key c = int_value (go.get_int c.viper (replace c.envs) key)
  read_viper (int64_spec d s) key c = int64_value (go.get_int64 c.viper (replace c.envs) key)
  read_viper (string_spec d) key c = string_value (go.get_string c.viper (replace c.envs) key)
  read_viper (duration_spec d s) key c =
      let v = go.get_string c.viper (replace c.envs) key in
      elim (go.parse_duration v) [
        | some t ↦ duration_value t
        | none ↦
            if go.parses_float v
            then duration_value (mul64 (go.get_duration c.viper (replace c.envs) key) s)
            else duration_value (mul64 d s)
      ]
  read_viper (bool_spec d) key c = bool_value (go.get_bool c.viper (replace c.envs) key)
  read_viper (float64_spec d) key c = float64_value (go.get_float64 c.viper (replace c.envs) key)
  read_viper (slice_spec d) key c = slice_value (go.get_string_slice c.viper (replace c.envs) key)
  read_viper (map_spec d) key c = map_value (go.get_string_map c.viper (replace c.envs) key)

  -- `getIntInternal` and its like.
  unfoldable pub read_internal : Spec F S → Text → Source V → Source V × Value F S
  read_internal spec key c =
      if_set (is_set_internal go key c) (λ d. (d, read_viper spec key d))
        (λ d. (d, raw_default spec))

  -- The loop over the keys: the first that is set is read.
  unfoldable pub read_first : Spec F S → List Text → Source V → Source V × Value F S
  read_first spec [] c = (c, raw_default spec)
  read_first spec (key ∷ keys) c =
      if_set (is_set key c) (read_internal spec key) (λ d. read_first spec keys d)

  -- `storeIntVar` and its like, with the value that is stored.
  unfoldable pub store_var : Spec F S → List Text → Source V → Source V × Value F S
  store_var spec keys c = let (c', v) = read_first spec keys c in (c', scale spec v)

  -- `registerNonReloadableConfigKeys`
  unfoldable pub register_keys : List Text → List (Text × Text) → List (Text × Text)
  register_keys [] known = known
  register_keys (key ∷ keys) known =
      register_keys keys (insert text_discrete (go.to_lower key) key known)

  unfoldable pub register_non_reloadable : Value F S → ConfigValue F S → Config F S V → Config F S V
  register_non_reloadable dv cv c = elim c.advanced_detection [
    | false ↦ record c { non_reloadable_keys = register_keys cv.keys c.non_reloadable_keys }
    | true ↦
        let (key, dv_key) = get_map_key dv cv.keys in
        let k = key ++ (b':' ∷ dv_key) in
        elim (lookup text_discrete k c.non_reloadable_config) [
          | some old ↦ c
          | none ↦ record c {
            non_reloadable_config = insert text_discrete k cv c.non_reloadable_config;
          }
        ]
  ]

  -- `GetIntVar` and its like, by `storeAndRegisterIntVar`.
  unfoldable pub get_var : Spec F S → List Text → Config F S V → Config F S V × Value F S
  get_var spec keys c =
      let (source, v) = store_var spec keys c.source in
      (
        register_non_reloadable (scale spec (raw_default spec))
            (record { value = plain v; spec = spec; keys = keys }) (record c { source = source }),
        v,
      )

  -- The deferred part of `getOrCreatePointer`: the first default of a map key is kept.
  unfoldable pub register_default : Text → Text → List (Text × Text) → List (Text × Text)
  register_default key dv defaults = elim (lookup text_discrete key defaults) [
    | some d ↦ defaults
    | none ↦ insert text_discrete key dv defaults
  ]

  -- Another default is the panic.
  unfoldable pub check_default : {A : Type 0} → Option Text → Text → A → Option A
  check_default none dv x = none
  check_default (some d) dv x = if equal text_discrete d dv then some x else none

  -- The body of `getOrCreatePointer`: the address of the variable, and whether it was there.
  unfoldable pub find_or_create :
      Text → Spec F S → List Text → Config F S V → Config F S V × ℕ × Bool
  find_or_create key spec keys c = elim (lookup text_discrete key c.hot_vars) [
    | some a ↦ (c, a, true)
    | none ↦ (
      record c {
        hot_vars = insert text_discrete key c.next c.hot_vars;
        hot_config =
            insert text_discrete key (record { value = pointer c.next; spec = spec; keys = keys })
              c.hot_config;
        cells = write c.cells c.next (zero_value spec);
        next = suc c.next;
      },
      c.next,
      false,
    )
  ]

  -- `getOrCreatePointer`; `none` is the panic.
  unfoldable pub get_or_create_pointer :
      Spec F S → List Text → Config F S V → Option (Config F S V × ℕ × Bool)
  get_or_create_pointer spec keys c =
      let (key, dv) = get_map_key (scale spec (raw_default spec)) keys in
      let (found, a, exists) = find_or_create key spec keys c in
      let defaults = register_default key dv found.hot_defaults in
      check_default (lookup text_discrete key defaults) dv
        (record found { hot_defaults = defaults }, a, exists)

  -- `GetReloadableIntVar` and its like.
  unfoldable pub get_reloadable_var :
      Spec F S → List Text → Config F S V → Option (Config F S V × ℕ)
  get_reloadable_var spec keys c = elim (get_or_create_pointer spec keys c) [
    | none ↦ none
    | some (c', a, true) ↦ some (c', a)
    | some (c', a, false) ↦
        let (source, v) = store_var spec keys c'.source in
        some (record c' { source = source; cells = write c'.cells a v }, a)
  ]
