-- ===== src/Config/Getters.antt =====
-- config/config_<type>.go and config/misc.go: the functions of each type.
use rudder_go_kit.Prelude.{
  ℕ, Bool, false, not, ◌&&◌, List, [], ◌∷◌, Option, none, some, if◌then◌else◌,
}
use rudder_go_kit.Config.Types.{
  Text, codes, text_discrete, equal, Value, string_value, int_spec, int64_spec, string_spec,
  duration_spec, bool_spec, float64_spec, slice_spec, map_spec, Source, Config, Go,
}
use rudder_go_kit.Config.Env.{is_set_internal}
use rudder_go_kit.Config.Access.{
  if_set, read_internal, read_viper, store_var, get_var, get_reloadable_var,
}

module _ {F S V : Type 0} (go : Go F S V) where
  unfoldable pub get_int_internal : ℕ → ℕ → Text → Source V → Source V × Value F S
  get_int_internal d s key c = read_internal go (int_spec d s) key c

  unfoldable pub store_int_var : ℕ → ℕ → List Text → Source V → Source V × Value F S
  store_int_var d s keys c = store_var go (int_spec d s) keys c

  unfoldable pub get_int_var : ℕ → ℕ → List Text → Config F S V → Config F S V × Value F S
  get_int_var d s keys c = get_var go (int_spec d s) keys c

  unfoldable pub get_reloadable_int_var :
      ℕ → ℕ → List Text → Config F S V → Option (Config F S V × ℕ)
  get_reloadable_int_var d s keys c = get_reloadable_var go (int_spec d s) keys c

  unfoldable pub get_int : Text → ℕ → Config F S V → Config F S V × Value F S
  get_int key d c = get_int_var d 1 (key ∷ []) c

  unfoldable pub get_int64_internal : ℕ → ℕ → Text → Source V → Source V × Value F S
  get_int64_internal d s key c = read_internal go (int64_spec d s) key c

  unfoldable pub store_int64_var : ℕ → ℕ → List Text → Source V → Source V × Value F S
  store_int64_var d s keys c = store_var go (int64_spec d s) keys c

  unfoldable pub get_int64_var : ℕ → ℕ → List Text → Config F S V → Config F S V × Value F S
  get_int64_var d s keys c = get_var go (int64_spec d s) keys c

  unfoldable pub get_reloadable_int64_var :
      ℕ → ℕ → List Text → Config F S V → Option (Config F S V × ℕ)
  get_reloadable_int64_var d s keys c = get_reloadable_var go (int64_spec d s) keys c

  unfoldable pub get_int64 : Text → ℕ → Config F S V → Config F S V × Value F S
  get_int64 key d c = get_int64_var d 1 (key ∷ []) c

  unfoldable pub get_string_internal : Text → Text → Source V → Source V × Value F S
  get_string_internal d key c = read_internal go (string_spec d) key c

  unfoldable pub store_string_var : Text → List Text → Source V → Source V × Value F S
  store_string_var d keys c = store_var go (string_spec d) keys c

  unfoldable pub get_string_var : Text → List Text → Config F S V → Config F S V × Value F S
  get_string_var d keys c = get_var go (string_spec d) keys c

  unfoldable pub get_reloadable_string_var :
      Text → List Text → Config F S V → Option (Config F S V × ℕ)
  get_reloadable_string_var d keys c = get_reloadable_var go (string_spec d) keys c

  unfoldable pub get_string : Text → Text → Config F S V → Config F S V × Value F S
  get_string key d c = get_string_var d (key ∷ []) c

  unfoldable pub get_duration_internal : ℕ → ℕ → Text → Source V → Source V × Value F S
  get_duration_internal d s key c = read_internal go (duration_spec d s) key c

  unfoldable pub store_duration_var : ℕ → ℕ → List Text → Source V → Source V × Value F S
  store_duration_var d s keys c = store_var go (duration_spec d s) keys c

  unfoldable pub get_duration_var : ℕ → ℕ → List Text → Config F S V → Config F S V × Value F S
  get_duration_var d s keys c = get_var go (duration_spec d s) keys c

  unfoldable pub get_reloadable_duration_var :
      ℕ → ℕ → List Text → Config F S V → Option (Config F S V × ℕ)
  get_reloadable_duration_var d s keys c = get_reloadable_var go (duration_spec d s) keys c

  unfoldable pub get_duration : Text → ℕ → ℕ → Config F S V → Config F S V × Value F S
  get_duration key d s c = get_duration_var d s (key ∷ []) c

  unfoldable pub get_bool_internal : Bool → Text → Source V → Source V × Value F S
  get_bool_internal d key c = read_internal go (bool_spec d) key c

  unfoldable pub store_bool_var : Bool → List Text → Source V → Source V × Value F S
  store_bool_var d keys c = store_var go (bool_spec d) keys c

  unfoldable pub get_bool_var : Bool → List Text → Config F S V → Config F S V × Value F S
  get_bool_var d keys c = get_var go (bool_spec d) keys c

  unfoldable pub get_reloadable_bool_var :
      Bool → List Text → Config F S V → Option (Config F S V × ℕ)
  get_reloadable_bool_var d keys c = get_reloadable_var go (bool_spec d) keys c

  unfoldable pub get_bool : Text → Bool → Config F S V → Config F S V × Value F S
  get_bool key d c = get_bool_var d (key ∷ []) c

  unfoldable pub get_float64_internal : F → Text → Source V → Source V × Value F S
  get_float64_internal d key c = read_internal go (float64_spec d) key c

  unfoldable pub store_float64_var : F → List Text → Source V → Source V × Value F S
  store_float64_var d keys c = store_var go (float64_spec d) keys c

  unfoldable pub get_float64_var : F → List Text → Config F S V → Config F S V × Value F S
  get_float64_var d keys c = get_var go (float64_spec d) keys c

  unfoldable pub get_reloadable_float64_var :
      F → List Text → Config F S V → Option (Config F S V × ℕ)
  get_reloadable_float64_var d keys c = get_reloadable_var go (float64_spec d) keys c

  unfoldable pub get_float64 : Text → F → Config F S V → Config F S V × Value F S
  get_float64 key d c = get_float64_var d (key ∷ []) c

  unfoldable pub get_string_slice_internal : List Text → Text → Source V → Source V × Value F S
  get_string_slice_internal d key c = read_internal go (slice_spec d) key c

  unfoldable pub store_string_slice_var : List Text → List Text → Source V → Source V × Value F S
  store_string_slice_var d keys c = store_var go (slice_spec d) keys c

  unfoldable pub get_string_slice_var :
      List Text → List Text → Config F S V → Config F S V × Value F S
  get_string_slice_var d keys c = get_var go (slice_spec d) keys c

  unfoldable pub get_reloadable_string_slice_var :
      List Text → List Text → Config F S V → Option (Config F S V × ℕ)
  get_reloadable_string_slice_var d keys c = get_reloadable_var go (slice_spec d) keys c

  unfoldable pub get_string_slice : Text → List Text → Config F S V → Config F S V × Value F S
  get_string_slice key d c = get_string_slice_var d (key ∷ []) c

  unfoldable pub get_string_map_internal : List (Text × S) → Text → Source V → Source V × Value F S
  get_string_map_internal d key c = read_internal go (map_spec d) key c

  unfoldable pub store_string_map_var :
      List (Text × S) → List Text → Source V → Source V × Value F S
  store_string_map_var d keys c = store_var go (map_spec d) keys c

  unfoldable pub get_string_map_var :
      List (Text × S) → List Text → Config F S V → Config F S V × Value F S
  get_string_map_var d keys c = get_var go (map_spec d) keys c

  unfoldable pub get_reloadable_string_map_var :
      List (Text × S) → List Text → Config F S V → Option (Config F S V × ℕ)
  get_reloadable_string_map_var d keys c = get_reloadable_var go (map_spec d) keys c

  unfoldable pub get_string_map : Text → List (Text × S) → Config F S V → Config F S V × Value F S
  get_string_map key d c = get_string_map_var d (key ∷ []) c

  -- `none` is the panic on a key that is not set.
  unfoldable pub must_get_int : Text → Source V → Option (Source V × Value F S)
  must_get_int key c =
      if_set (is_set_internal go key c) (λ d. some (d, read_viper go (int_spec 0 1) key d))
        (λ d. none)

  unfoldable pub must_get_string : Text → Source V → Option (Source V × Value F S)
  must_get_string key c =
      if_set (is_set_internal go key c) (λ d. some (d, read_viper go (string_spec []) key d))
        (λ d. none)

  -- Whether a token is given: it is not empty, nor the placeholder of the documentation.
  abbrev pub is_token : Value F S → Bool
  is_token (string_value t) =
      not (equal text_discrete t []) && not (equal text_discrete t (codes "<your_token_here>"))
  is_token _ = false

  unfoldable pub get_workspace_token : Config F S V → Config F S V × Value F S
  get_workspace_token c =
      let (c', token) = get_string_var [] (codes "WORKSPACE_TOKEN" ∷ []) c in
      if is_token token
      then (c', token)
      else get_string_var [] (codes "CONFIG_BACKEND_TOKEN" ∷ []) c'
