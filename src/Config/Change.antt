-- ===== src/Config/Change.antt =====
-- config/config_changedetect.go: what is written and notified when the configuration changes.
-- A map is gone through in the order of its list.
use rudder_go_kit.Prelude.{Bool, true, false, List, [], ◌∷◌, ◌++◌, none, some, if◌then◌else◌}
use rudder_go_kit.Prelude.Maps.{lookup, insert}
use rudder_go_kit.Config.Types.{
  Text, text_discrete, equal, Value, float64_value, Spec, Slot, pointer, plain, ConfigValue,
  Setting, leaf, string_table, any_table, Entries, no_entries, entry, AnyEntries, no_any_entries,
  any_entry, reloadable_changed, non_reloadable_changed, Config, Go,
}
use rudder_go_kit.Config.Env.{replace}
use rudder_go_kit.Config.Notify.{notify}
use rudder_go_kit.Config.Access.{same, join, write, scale, read_first}

module _ {F S V : Type 0} (go : Go F S V) where
  -- The multiplications in `checkConfigForChanges`: a `float64` has the multiplier 1.
  unfoldable pub check_scale : Spec F S → Value F S → Value F S
  check_scale spec (float64_value x) = float64_value (go.float_mul x go.float_one)
  check_scale spec v = scale spec v

  -- The comparison with the value before, and what follows if it differs: `swapHotReloadableConfig`
  -- for a `Reloadable`.
  unfoldable pub update_slot :
      Slot F S → ConfigValue F S → Value F S → Config F S V → Config F S V × ConfigValue F S
  update_slot (plain old) cv v c =
      if same go old v
      then (c, cv)
      else (notify (non_reloadable_changed (join cv.keys)) c, record cv { value = plain v })
  update_slot (pointer a) cv v c = if same go (c.cells a) v then (c, cv) else (
    notify (reloadable_changed (join cv.keys) (c.cells a) v)
        (record c { cells = write c.cells a v }),
    cv,
  )

  -- One round of `checkConfigForChanges`, with the `configValue` as it is afterwards.
  unfoldable pub check_value : ConfigValue F S → Config F S V → Config F S V × ConfigValue F S
  check_value cv c =
      let (source, raw) = read_first go cv.spec cv.keys c.source in
      update_slot cv.value cv (check_scale cv.spec raw) (record c { source = source })

  -- `checkConfigForChanges`
  unfoldable pub check_config :
      List (Text × ConfigValue F S) → Config F S V → Config F S V × List (Text × ConfigValue F S)
  check_config [] c = (c, [])
  check_config ((k, cv) ∷ m) c =
      let (c', cv') = check_value cv c in let (d, rest) = check_config m c' in (d, (k, cv') ∷ rest)

  abbrev pub full_key : Text → Text → Text
  full_key [] k = k
  full_key (p ∷ ps) k = (p ∷ ps) ++ (b'.' ∷ k)

  unfoldable mutual
    -- `flattenSettings`: the keys of a `map[any]any` that are no texts are left out.
    pub flatten : Text → Entries S → List (Text × S) → List (Text × S)
    flatten prefix no_entries flat = flat
    flatten prefix (entry k v es) flat =
        flatten prefix es (flatten_setting (full_key prefix k) v flat)

    pub flatten_any : Text → AnyEntries S → List (Text × S) → List (Text × S)
    flatten_any prefix no_any_entries flat = flat
    flatten_any prefix (any_entry none v es) flat = flatten_any prefix es flat
    flatten_any prefix (any_entry (some k) v es) flat =
        flatten_any prefix es (flatten_setting (full_key prefix k) v flat)

    pub flatten_setting : Text → Setting S → List (Text × S) → List (Text × S)
    flatten_setting key (leaf v) flat = insert text_discrete (go.to_lower key) v flat
    flatten_setting key (string_table es) flat = flatten key es flat
    flatten_setting key (any_table es) flat = flatten_any key es flat

  -- `getCurrentSettings`
  unfoldable pub get_current_settings : Config F S V → List (Text × S)
  get_current_settings c = flatten [] (go.all_settings c.source.viper (replace c.source.envs)) []

  -- Whether two settings of a key count as equal: as texts, or deeply if one has no text.
  unfoldable pub same_setting : S → S → Bool
  same_setting old new = elim (go.cast_string old) [
    | none ↦ go.deep_equal old new
    | some a ↦ elim (go.cast_string new) [
      | none ↦ go.deep_equal old new
      | some b ↦ equal text_discrete a b
    ]
  ]

  -- The keys that were added or modified.
  unfoldable pub modified_keys : List (Text × S) → List (Text × S) → List Text
  modified_keys old [] = []
  modified_keys old ((k, v) ∷ new) =
      let rest = modified_keys old new in
      elim (lookup text_discrete k old) [
        | none ↦ k ∷ rest
        | some w ↦ if same_setting w v then rest else k ∷ rest
      ]

  -- The keys that were removed.
  unfoldable pub removed_keys : List (Text × S) → List (Text × S) → List Text
  removed_keys new [] = []
  removed_keys new ((k, v) ∷ old) =
      let rest = removed_keys new old in
      elim (lookup text_discrete k new) [ none ↦ k ∷ rest | some w ↦ rest ]

  unfoldable pub notify_keys : List Text → Config F S V → Config F S V
  notify_keys [] c = c
  notify_keys (k ∷ ks) c = elim (lookup text_discrete k c.non_reloadable_keys) [
    | none ↦ notify_keys ks c
    | some original ↦ notify_keys ks (notify (non_reloadable_changed original) c)
  ]

  -- `checkAndNotifyNonReloadableConfig`
  unfoldable pub check_and_notify_non_reloadable : Config F S V → Config F S V
  check_and_notify_non_reloadable c =
      let new = get_current_settings c in
      let changed = modified_keys c.current_settings new ++ removed_keys new c.current_settings in
      record (notify_keys changed c) { current_settings = new }

  -- `onConfigChange`
  unfoldable pub on_config_change : Config F S V → Config F S V
  on_config_change c =
      let c' = (check_config c.hot_config c).0 in
      elim c'.advanced_detection [
        | false ↦ check_and_notify_non_reloadable c'
        | true ↦
            let (d, checked) = check_config c'.non_reloadable_config c' in
            record d { non_reloadable_config = checked }
      ]

  -- `Config.Set`
  unfoldable pub set : Text → Value F S → Config F S V → Config F S V
  set key value c =
      on_config_change
        (record c { source = record c.source { viper = go.set_value key value c.source.viper } })
