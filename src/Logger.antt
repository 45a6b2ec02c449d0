-- ===== src/Logger.antt =====
-- logger/config.go, and what logger/factory.go and logger/logger.go do with it: the levels of loggers.
-- A logger is the list of the names with which `Child` was called, the last one first; the root
-- logger is the empty list. Levels are the numbers of logger/level.go.
pub mod Coherent
mod Tests
use rudder_go_kit.Prelude.{
  ℕ, List, [], ◌∷◌, ◌++◌, Option, none, some, Bool, ◌==◌, leb, if◌then◌else◌,
}
use rudder_go_kit.Prelude.Maps.{lookup, insert}
use rudder_go_kit.Config.Types.{Text, text_discrete, codes}
use rudder_go_kit.Cdoc.Types.{is_empty}
use rudder_go_kit.Cdoc.Strings.{split, trim_space}

-- `levelMap`
abbrev pub level_map : List (Text × ℕ)
level_map =
    (codes "EVENT", 0)
    ∷ (codes "DEBUG", 1)
    ∷ (codes "INFO", 2)
    ∷ (codes "WARN", 3)
    ∷ (codes "ERROR", 4)
    ∷ (codes "FATAL", 5)
    ∷ []

-- The levels of `factoryConfig`.
pub record FactoryConfig : Type 0 where
  pub root_level : ℕ
  pub level_config : List (Text × ℕ)
  pub level_config_cache : List (Text × ℕ)

abbrev pub Logger : Type 0
Logger = List Text

-- `Child`
unfoldable pub child : Text → Logger → Logger
child s l = if is_empty s then l else s ∷ l

-- The `name` of a logger.
unfoldable pub name_of : Logger → Text
name_of [] = []
name_of (s ∷ []) = s
name_of (s ∷ t ∷ l) = name_of (t ∷ l) ++ (b'.' ∷ s)

-- `SetLogLevel`; `none` is its error.
unfoldable pub set_log_level : Text → Text → FactoryConfig → Option FactoryConfig
set_log_level name level_str fc = elim (lookup text_discrete level_str level_map) [
  | none ↦ none
  | some level ↦ some (
      if is_empty name
      then record fc { root_level = level; level_config_cache = [] }
      else record fc {
        level_config = insert text_discrete name level fc.level_config;
        level_config_cache = [];
      })
]

-- `levelConfigCache.set`, of a level that was found.
unfoldable pub cache_level : Text → FactoryConfig × ℕ → FactoryConfig × ℕ
cache_level name (fc, level) = (
  record fc { level_config_cache = insert text_discrete name level fc.level_config_cache },
  level,
)

-- `getOrSetLogLevel` behind the test of its name, with what the function for the parent gives.
unfoldable pub get_or_set : Text → FactoryConfig → FactoryConfig × ℕ → FactoryConfig × ℕ
get_or_set name fc parent = elim (lookup text_discrete name fc.level_config_cache) [
  | some level ↦ (fc, level)
  | none ↦ elim (lookup text_discrete name fc.level_config) [
    | some level ↦ cache_level name (fc, level)
    | none ↦ cache_level name parent
  ]
]

-- `getLoggingLevel`
unfoldable pub get_logging_level : Logger → FactoryConfig → FactoryConfig × ℕ
get_logging_level [] fc = (fc, fc.root_level)
get_logging_level (s ∷ l) fc = get_or_set (name_of (s ∷ l)) fc (get_logging_level l fc)

-- The calls that a program makes.
pub data Call : Type 0 where
  set_level : (name level_str : Text) → Call
  get_level : Logger → Call

-- A call, and the level that it returns, if it returns one. A `SetLogLevel` that fails changes nothing.
unfoldable pub step : Call → FactoryConfig → FactoryConfig × Option ℕ
step (set_level name level_str) fc = elim (set_log_level name level_str fc) [
  | none ↦ (fc, none)
  | some fc' ↦ (fc', none)
]
step (get_level l) fc = let (fc', level) = get_logging_level l fc in (fc', some level)

unfoldable pub run : List Call → FactoryConfig → FactoryConfig
run [] fc = fc
run (c ∷ cs) fc = run cs (step c fc).0

module _ (is_space : ℕ → Bool) where
  -- `strings.SplitN(moduleLevelKV, "=", 2)`: what stands before the first `=`, and behind it.
  unfoldable pub split_pair : Text → Option (Text × Text)
  split_pair [] = none
  split_pair (c ∷ s) =
      let rest = split_pair s in
      if c == b'='
      then some ([], s)
      else elim rest [ none ↦ none | some (before, after) ↦ some (c ∷ before, after) ]

  -- The body of the loop of `newConfig`.
  unfoldable pub add_module_level : Text → List (Text × ℕ) → List (Text × ℕ)
  add_module_level kv levels = elim (split_pair kv) [
    | none ↦ levels
    | some (before, after) ↦
        let name = trim_space is_space before in
        if is_empty name
        then levels
        else elim (lookup text_discrete (trim_space is_space after) level_map) [
          | none ↦ levels
          | some level ↦ insert text_discrete name level levels
        ]
  ]

  unfoldable pub add_module_levels : List Text → List (Text × ℕ) → List (Text × ℕ)
  add_module_levels [] levels = levels
  add_module_levels (kv ∷ kvs) levels = add_module_levels kvs (add_module_level kv levels)

  -- `newConfig`, from the values of `LOG_LEVEL` and `Logger.moduleLevels`. An unknown root level is 0.
  unfoldable pub new_config : Text → Text → FactoryConfig
  new_config log_level module_levels = record {
    root_level = elim (lookup text_discrete log_level level_map) [ none ↦ 0 | some level ↦ level ];
    level_config =
        if is_empty (trim_space is_space module_levels)
        then []
        else add_module_levels (split b':' (trim_space is_space module_levels)) [];
    level_config_cache = [];
  }
