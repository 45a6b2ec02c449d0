-- ===== src/Config/Changed.antt =====
-- config/config_changedetect.go: what holds after `onConfigChange` and `Set`.
use mathlib.Core.Path.{subst}
use rudder_go_kit.Prelude.{◌≡◌, ap, ◌∙◌, inl, inr, List, ◌++◌, All, All-map, Bool-cases}
use rudder_go_kit.Config.Types.{Text, Value, ConfigValue, Source, Config, Go}
use rudder_go_kit.Config.Change.{
  check_config, get_current_settings, modified_keys, removed_keys, check_and_notify_non_reloadable,
  on_config_change, set,
}
use rudder_go_kit.Config.Reload.{held, Quiet, AllSelf, rest_of}
use rudder_go_kit.Config.Pass.{check_config-Passed}
use rudder_go_kit.Config.Coherent.{
  IsValid, AllKnown, AllKnown-AllBound, check_config-pointers, check_config-IsPlain, Apart-IsPlain,
  Distinct-plain, Quiet-keeps, notify_keys-keeps,
}

module _ {F S V : Type 0} (go : Go F S V) where
  -- What a change of the configuration leaves behind.
  pub record Changed (c d : Config F S V) : Type 0 where
    pub keeps_source : d.source ≡ c.source
    pub keeps_hot : d.hot_config ≡ c.hot_config
    pub valid : IsValid go d
    pub quiet : All (λ e. Quiet go d e.1) c.hot_config

  IsValid-rest : (c d : Config F S V) → rest_of go d ≡ rest_of go c → IsValid go c → IsValid go d
  IsValid-rest c d e v =
      let hot : d.hot_config ≡ c.hot_config = ap (λ r. r.0) e in
      let next : d.next ≡ c.next = ap (λ r. r.1) e in
      let values : d.non_reloadable_config ≡ c.non_reloadable_config = ap (λ r. r.2) e in
      record {
        hot = rw (hot, next) v.hot;
        distinct = rw hot v.distinct;
        values = rw values v.values;
      }

  -- After the pass over the reloadable variables.
  Changed-hot :
      (c : Config F S V)
      → IsValid go c
      → AllKnown go c.source c.hot_config
      → AllSelf go c.source c.hot_config
      → Changed c (check_config go c.hot_config c).0
  Changed-hot c v known self =
      let p =
        check_config-Passed go c.hot_config c (AllKnown-AllBound go c.source c.hot_config known)
          self v.distinct in
      let c' = (check_config go c.hot_config c).0 in
      record {
        keeps_source = p.keeps_source;
        keeps_hot = ap (λ r. r.0) p.keeps_rest;
        valid = IsValid-rest c c' p.keeps_rest v;
        quiet =
            subst (All (λ e. Quiet go c' e.1))
              (check_config-pointers go c.next c.hot_config c v.hot) p.quiet;
      }

  -- Without the advanced detection.
  Changed-simple :
      (c d : Config F S V) → Changed c d → Changed c (check_and_notify_non_reloadable go d)
  unfolding check_and_notify_non_reloadable
  Changed-simple c d h =
      let ks =
        modified_keys go d.current_settings (get_current_settings go d)
        ++ removed_keys go (get_current_settings go d) d.current_settings in
      let (cells, source, rest) = notify_keys-keeps go ks d in
      record {
        keeps_source = source ∙ h.keeps_source;
        keeps_hot = ap (λ r. r.0) rest ∙ h.keeps_hot;
        valid = IsValid-rest d _ rest h.valid;
        quiet =
            All-map _ _ c.hot_config
              (λ e q.
                Quiet-keeps go d (check_and_notify_non_reloadable go d) e.1 source
                  (ap (λ f. held go f e.1.value) cells) q)
              h.quiet;
      }

  -- With the advanced detection.
  Changed-advanced :
      (c d : Config F S V)
      → Changed c d
      → AllKnown go d.source d.non_reloadable_config
      → AllSelf go d.source d.non_reloadable_config
      → Changed c (record (check_config go d.non_reloadable_config d).0 {
        non_reloadable_config = (check_config go d.non_reloadable_config d).1;
      })
  Changed-advanced c d h known self =
      let m = d.non_reloadable_config in
      let p =
        check_config-Passed go m d (AllKnown-AllBound go d.source m known) self
          (Distinct-plain go m h.valid.values) in
      let f = (check_config go m d).0 in
      let hot : f.hot_config ≡ d.hot_config = ap (λ r. r.0) p.keeps_rest in
      let next : f.next ≡ d.next = ap (λ r. r.1) p.keeps_rest in
      record {
        keeps_source = p.keeps_source ∙ h.keeps_source;
        keeps_hot = hot ∙ h.keeps_hot;
        valid = record {
          hot = rw (hot, next) h.valid.hot;
          distinct = rw hot h.valid.distinct;
          values = check_config-IsPlain go m d h.valid.values;
        };
        quiet =
            All-map _ _ c.hot_config
              (λ e q.
                Quiet-keeps go d (record f { non_reloadable_config = (check_config go m d).1 }) e.1
                  p.keeps_source
                  (p.others e.1.value
                    (All-map _ _ m (λ x y. Apart-IsPlain go x.1.value e.1.value y) h.valid.values))
                  q)
              h.quiet;
      }

  -- The environment names of all keys are known, and every new value equals itself.
  abbrev Ready : Source V → List (Text × ConfigValue F S) → Type 0
  Ready source m = AllKnown go source m × AllSelf go source m

  on_config_change-Changed :
      (c : Config F S V)
      → IsValid go c
      → Ready c.source c.hot_config
      → Ready c.source c.non_reloadable_config
      → Changed c (on_config_change go c)
  unfolding on_config_change
  on_config_change-Changed c v hot values =
      let d = (check_config go c.hot_config c).0 in
      let h = Changed-hot c v hot.0 hot.1 in
      let same_values : d.non_reloadable_config ≡ c.non_reloadable_config =
        ap (λ r. r.2)
          (check_config-Passed go c.hot_config c (AllKnown-AllBound go c.source c.hot_config hot.0)
            hot.1 v.distinct).keeps_rest in
      elim (Bool-cases d.advanced_detection) [
        | inl e ↦
            rw (e, on_config_change)
              (Changed-advanced c d h (rw (h.keeps_source, same_values) values.0)
                (rw (h.keeps_source, same_values) values.1))
        | inr e ↦ rw (e, on_config_change) (Changed-simple c d h)
      ]

  -- A configuration with another value at a key, before anything is checked.
  abbrev pub written : Text → Value F S → Config F S V → Config F S V
  written key value c = record c {
    source = record c.source { viper = go.set_value key value c.source.viper };
  }

  -- After `Set`, every reloadable variable holds the value of its first key that is set in the new
  -- configuration or else its default, times its scale; the variables are those from before, each
  -- reloadable one with a `Reloadable` of its own. The configuration before is valid, the names of
  -- all keys are known, and every new value equals itself.
  pub set-Changed :
      (key : Text) (value : Value F S) (c : Config F S V)
      → IsValid go c
      → Ready (written key value c).source c.hot_config
      → Ready (written key value c).source c.non_reloadable_config
      → Changed (written key value c) (set go key value c)
  unfolding set
  set-Changed key value c v hot values =
      on_config_change-Changed (written key value c)
        (record { hot = v.hot; distinct = v.distinct; values = v.values }) hot values
