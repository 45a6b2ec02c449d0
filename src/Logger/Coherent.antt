-- ===== src/Logger/Coherent.antt =====
-- logger/config.go: the cache of levels beside the levels that are set.
use rudder_go_kit.Prelude.{
  ℕ, ◌≡◌, refl, sym, ap, ◌∙◌, List, [], ◌∷◌, none, some, arith, Option-cases, inl, inr, Bool-cases,
}
use rudder_go_kit.Prelude.Maps.{lookup, insert, lookup-insert_self, lookup-insert_ne}
use rudder_go_kit.Config.Types.{Text, text_discrete}
use rudder_go_kit.Cdoc.Types.{is_empty}
use rudder_go_kit.Logger.{
  FactoryConfig, Logger, Call, set_level, get_level, name_of, level_map, set_log_level, cache_level,
  get_or_set, get_logging_level, step, run,
}

-- The level of a logger by the root level and the levels that are set: the one for its name, or else
-- the one of its parent.
abbrev pub level_by : ℕ → List (Text × ℕ) → Logger → ℕ
level_by root levels [] = root
level_by root levels (s ∷ l) = elim (lookup text_discrete (name_of (s ∷ l)) levels) [
  | some level ↦ level
  | none ↦ level_by root levels l
]

level_by-set :
    (root : ℕ) (levels : List (Text × ℕ)) (s : Text) (l : Logger) (level : ℕ)
    → lookup text_discrete (name_of (s ∷ l)) levels ≡ some level
    → level_by root levels (s ∷ l) ≡ level
level_by-set root levels s l level e = rw (e, level_by) refl

level_by-unset :
    (root : ℕ) (levels : List (Text × ℕ)) (s : Text) (l : Logger)
    → lookup text_discrete (name_of (s ∷ l)) levels ≡ none
    → level_by root levels (s ∷ l) ≡ level_by root levels l
level_by-unset root levels s l e = rw (e, level_by) refl

abbrev pub configured : FactoryConfig → Logger → ℕ
configured fc l = level_by fc.root_level fc.level_config l

-- Loggers in use: their parents are, and no two have one name.
pub record IsNamed (Used : Logger → Type 0) : Type 0 where
  pub parents : (s : Text) (l : Logger) → Used (s ∷ l) → Used l
  pub names : (k l : Logger) → Used k → Used l → name_of k ≡ name_of l → k ≡ l

none≢some : {v : ℕ} → none ≡ some v → ⊥
none≢some e = cc

-- What is cached for a logger in use is its configured level.
abbrev pub Coherent : (Logger → Type 0) → FactoryConfig → Type 0
Coherent Used fc =
    (l : Logger) (level : ℕ)
    → Used l
    → lookup text_discrete (name_of l) fc.level_config_cache ≡ some level
    → level ≡ configured fc l

-- The levels that are set are the same.
pub record Agrees (fc fc' : FactoryConfig) : Type 0 where
  pub roots : fc'.root_level ≡ fc.root_level
  pub levels : fc'.level_config ≡ fc.level_config

configured-Agrees :
    (fc fc' : FactoryConfig) (l : Logger) → Agrees fc fc' → configured fc' l ≡ configured fc l
configured-Agrees fc fc' l a =
    ap (λ r. level_by r fc'.level_config l) a.roots
    ∙ ap (λ levels. level_by fc.root_level levels l) a.levels

-- What a request for the level of a logger gives.
pub record Answers (Used : Logger → Type 0) (fc : FactoryConfig) (l : Logger)
    (r : FactoryConfig × ℕ) : Type 0 where
  pub level : r.1 ≡ configured fc l
  pub agrees : Agrees fc r.0
  pub coherent : Coherent Used r.0

module _ (Used : Logger → Type 0) (named : IsNamed Used) where
  cached_level :
      (fc : FactoryConfig) (s : Text) (l : Logger) (fc' : FactoryConfig) (level : ℕ)
      → Used (s ∷ l)
      → level ≡ configured fc (s ∷ l)
      → Agrees fc fc'
      → Coherent Used fc'
      → (k : Logger) (v : ℕ) → Used k
      → lookup text_discrete
          (name_of k)
          (insert text_discrete (name_of (s ∷ l)) level fc'.level_config_cache)
        ≡ some v
      → v ≡ configured fc' k
  cached_level fc s l fc' level u e a c k v n h =
      elim (text_discrete (name_of (s ∷ l)) (name_of k)) [
        | yes p ↦
            let q = named.names (s ∷ l) k u n p in
            let h' : some level ≡ some v =
              sym (lookup-insert_self text_discrete (name_of (s ∷ l)) level fc'.level_config_cache)
              ∙ ap
                  (λ n.
                    lookup text_discrete n
                      (insert text_discrete (name_of (s ∷ l)) level fc'.level_config_cache))
                  p
              ∙ h in
            ground (arith, h', e, ap (configured fc') q, configured-Agrees fc fc' (s ∷ l) a)
        | no m ↦ c k v n (
            sym (
              lookup-insert_ne text_discrete (name_of (s ∷ l)) (name_of k) level
                fc'.level_config_cache m)
            ∙ h)
      ]

  cache_level-Answers :
      (fc : FactoryConfig) (s : Text) (l : Logger) (r : FactoryConfig × ℕ)
      → Used (s ∷ l)
      → r.1 ≡ configured fc (s ∷ l)
      → Agrees fc r.0
      → Coherent Used r.0
      → Answers Used fc (s ∷ l) (cache_level (name_of (s ∷ l)) r)
  unfolding cache_level
  cache_level-Answers fc s l (fc', level) u e a c = record {
    level = e;
    agrees = record { roots = a.roots; levels = a.levels };
    coherent = λ k v n h. cached_level fc s l fc' level u e a c k v n h;
  }

  get_logging_level-Answers :
      (l : Logger) (fc : FactoryConfig)
      → Used l
      → Coherent Used fc
      → Answers Used fc l (get_logging_level l fc)
  unfolding get_logging_level get_or_set
  get_logging_level-Answers [] fc u c = record {
    level = refl;
    agrees = record { roots = refl; levels = refl };
    coherent = c;
  }
  get_logging_level-Answers (s ∷ l) fc u c =
      elim (Option-cases (lookup text_discrete (name_of (s ∷ l)) fc.level_config_cache)) [
        | inr (level, h) ↦
            rw (h, get_or_set)
              (record {
                level = c (s ∷ l) level u h;
                agrees = record { roots = refl; levels = refl };
                coherent = c;
              })
        | inl h ↦
            rw (h, get_or_set)
              (elim (Option-cases (lookup text_discrete (name_of (s ∷ l)) fc.level_config)) [
                | inr (level, e) ↦ rw e (
                    cache_level-Answers fc s l (fc, level) u
                      (sym (level_by-set fc.root_level fc.level_config s l level e))
                      (record { roots = refl; levels = refl }) c)
                | inl e ↦
                    let r = get_logging_level-Answers l fc (named.parents s l u) c in
                    rw e (
                      cache_level-Answers fc s l (get_logging_level l fc) u
                        (r.level ∙ sym (level_by-unset fc.root_level fc.level_config s l e))
                        r.agrees r.coherent)
              ])
      ]

  set_log_level-Coherent :
      (name level_str : Text) (fc : FactoryConfig)
      → Coherent Used fc
      → Coherent Used (step (set_level name level_str) fc).0
  unfolding step set_log_level lookup
  set_log_level-Coherent name level_str fc c =
      elim (Option-cases (lookup text_discrete level_str level_map)) [
        | inl h ↦ rw (h, step, set_log_level) c
        | inr (level, h) ↦
            rw (h, step, set_log_level)
              (elim (Bool-cases (is_empty name)) [
                | inl t ↦ rw t (λ k v u e. absurd (none≢some e))
                | inr f ↦ rw f (λ k v u e. absurd (none≢some e))
              ])
      ]

  -- The loggers that the calls ask are in use.
  abbrev pub Asks : List Call → Type 0
  Asks [] = Unit
  Asks (set_level name level_str ∷ cs) = Asks cs
  Asks (get_level l ∷ cs) = Used l × Asks cs

  run-Coherent :
      (cs : List Call) (fc : FactoryConfig) → Asks cs → Coherent Used fc → Coherent Used (run cs fc)
  unfolding run step
  run-Coherent [] fc a c = c
  run-Coherent (set_level name level_str ∷ cs) fc a c =
      run-Coherent cs _ a (set_log_level-Coherent name level_str fc c)
  run-Coherent (get_level l ∷ cs) fc a c =
      run-Coherent cs _ a.1 (get_logging_level-Answers l fc a.0 c).coherent

  -- Among loggers whose names differ and whose parents are among them, from a state in which
  -- nothing is cached: after any calls of `SetLogLevel` and any requests, a request for the level of
  -- a logger gets just what the levels that are set say: the level set for its name, or else that
  -- of the nearest parent with one, or else the root level.
  pub run-configured :
      (cs : List Call) (fc : FactoryConfig) (l : Logger)
      → fc.level_config_cache ≡ []
      → Asks cs
      → Used l
      → (get_logging_level l (run cs fc)).1 ≡ configured (run cs fc) l
  unfolding lookup
  run-configured cs fc l e a u =
      (get_logging_level-Answers l (run cs fc) u
        (run-Coherent cs fc a (λ k v n h. absurd (none≢some (sym (rw e refl) ∙ h))))).level
