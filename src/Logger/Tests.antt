-- ===== src/Logger/Tests.antt =====
-- logger/config.go at concrete inputs, and the theorem's instance.
use rudder_go_kit.Prelude.{◌≡◌, refl, sym, ap, List, [], ◌∷◌, arith, length}
use rudder_go_kit.Prelude.Maps.{lookup, insert}
use rudder_go_kit.Config.Types.{Text, codes, text_discrete}
use rudder_go_kit.Logger.{
  FactoryConfig, Logger, Call, set_level, get_level, name_of, get_logging_level, get_or_set,
  cache_level, step, run,
}
use rudder_go_kit.Logger.Coherent.{IsNamed, configured, run-configured}

abbrev router : Logger
router = codes "router" ∷ []

abbrev router_ga : Logger
router_ga = codes "ga" ∷ router

data InUse : Logger → Type 0 where
  root_used : InUse []
  router_used : InUse router
  ga_used : InUse router_ga

abbrev rest_of : Logger → Logger
rest_of [] = []
rest_of (s ∷ l) = l

InUse-parent : (k : Logger) (s : Text) (l : Logger) → InUse k → k ≡ s ∷ l → InUse l
InUse-parent k s l root_used e = absurd cc
InUse-parent k s l router_used e = let t : [] ≡ l = ap rest_of e in rw (sym t) root_used
InUse-parent k s l ga_used e = let t : router ≡ l = ap rest_of e in rw (sym t) router_used

InUse-names : (k l : Logger) → InUse k → InUse l → name_of k ≡ name_of l → k ≡ l
unfolding name_of
InUse-names k l root_used root_used e = refl
InUse-names k l router_used router_used e = refl
InUse-names k l ga_used ga_used e = refl
InUse-names k l root_used router_used e = absurd cc
InUse-names k l root_used ga_used e = absurd cc
InUse-names k l router_used root_used e = absurd cc
InUse-names k l ga_used root_used e = absurd cc
InUse-names k l router_used ga_used e = absurd (omega (arith, ap length e))
InUse-names k l ga_used router_used e = absurd (omega (arith, ap length e))

InUse-IsNamed : IsNamed InUse
InUse-IsNamed = record { parents = λ s l u. InUse-parent (s ∷ l) s l u refl; names = InUse-names }

abbrev fresh : FactoryConfig
fresh = record { root_level = 2; level_config = (codes "router", 1) ∷ []; level_config_cache = [] }

abbrev some_calls : List Call
some_calls =
    get_level router_ga ∷ set_level (codes "router") (codes "ERROR") ∷ get_level router ∷ []

run-configured_example :
    (get_logging_level router_ga (run some_calls fresh)).1
    ≡ configured (run some_calls fresh) router_ga
run-configured_example =
    run-configured InUse InUse-IsNamed some_calls fresh router_ga refl (ga_used, (router_used, tt))
      ga_used

-- A request for `Child("router.ga")` caches its level under the name of another logger.
one_name_two_levels :
    (get_logging_level router_ga (run (get_level (codes "router.ga" ∷ []) ∷ []) fresh)).1 ≡ 2
unfolding get_logging_level run step get_or_set cache_level lookup insert text_discrete name_of
one_name_two_levels = refl
