-- ===== src/Config/Notify.antt =====
-- config/config_notify.go: the observers of a configuration.
use rudder_go_kit.Prelude.{Bool, true, false, List, [], ◌∷◌, ◌++◌, if◌then◌else◌, ◌==◌}
use rudder_go_kit.Config.Types.{
  Observer, all_changes, reloadable_only, non_reloadable_only, Notice, reloadable_changed,
  non_reloadable_changed, Config,
}

abbrev pub same_observer : Observer → Observer → Bool
same_observer (all_changes i) (all_changes j) = i == j
same_observer (reloadable_only i) (reloadable_only j) = i == j
same_observer (non_reloadable_only i) (non_reloadable_only j) = i == j
same_observer _ _ = false

-- `notifier.Register`
unfoldable register_observer : {F S V : Type 0} → Observer → Config F S V → Config F S V
register_observer o c = record c { observers = c.observers ++ o ∷ [] }

-- The slice of observers without its last element, and that element.
unfoldable pub split_last : Observer → List Observer → List Observer × Observer
split_last o [] = ([], o)
split_last o (p ∷ ps) = let (front, last) = split_last p ps in (o ∷ front, last)

-- The slice with the first observer that equals `o` overwritten.
unfoldable pub overwrite : Observer → Observer → List Observer → List Observer
overwrite o by [] = []
overwrite o by (p ∷ ps) =
    let rest = overwrite o by ps in if same_observer p o then by ∷ ps else p ∷ rest

unfoldable pub is_registered : Observer → List Observer → Bool
is_registered o [] = false
is_registered o (p ∷ ps) = let rest = is_registered o ps in if same_observer p o then true else rest

unfoldable pub drop_last : List Observer → List Observer
drop_last [] = []
drop_last (p ∷ ps) = (split_last p ps).0

-- `notifier.Unregister`: the last observer takes the place of the one that goes.
unfoldable pub unregister : Observer → List Observer → List Observer
unregister o [] = []
unregister o (p ∷ ps) =
    if is_registered o (p ∷ ps)
    then drop_last (overwrite o (split_last p ps).1 (p ∷ ps))
    else p ∷ ps

unfoldable unregister_observer : {F S V : Type 0} → Observer → Config F S V → Config F S V
unregister_observer o c = record c { observers = unregister o c.observers }

-- Whether the method that a notice calls does something.
abbrev listens : {F S : Type 0} → Notice F S → Observer → Bool
listens n (all_changes i) = true
listens (reloadable_changed k a b) (reloadable_only i) = true
listens (non_reloadable_changed k) (reloadable_only i) = false
listens (reloadable_changed k a b) (non_reloadable_only i) = false
listens (non_reloadable_changed k) (non_reloadable_only i) = true

unfoldable pub deliver : {F S : Type 0} → Notice F S → List Observer → List (Observer × Notice F S)
deliver n [] = []
deliver n (o ∷ os) = let rest = deliver n os in if listens n o then (o, n) ∷ rest else rest

-- `notifyReloadableConfigChange` and `notifyNonReloadableConfigChange`
unfoldable pub notify : {F S V : Type 0} → Notice F S → Config F S V → Config F S V
notify n c = record c { notices = c.notices ++ deliver n c.observers }
