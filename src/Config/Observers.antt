-- ===== src/Config/Observers.antt =====
-- config/config_notify.go: what `Unregister` leaves.
use rudder_go_kit.Prelude.{
  ℕ, ◌+◌, ◌≡◌, refl, sym, ap, ◌∙◌, inl, inr, true, List, [], ◌∷◌, if◌then◌else◌, arith, Bool-cases,
}
use rudder_go_kit.Prelude.Positions.{bit, count}
use rudder_go_kit.Config.Types.{Observer, all_changes, reloadable_only, non_reloadable_only}
use rudder_go_kit.Config.Notify.{
  same_observer, split_last, overwrite, is_registered, drop_last, unregister,
}

-- How often an observer is registered.
abbrev pub times : Observer → List Observer → ℕ
times x os = count (λ p. same_observer p x) os

same_observer-eq : (o p : Observer) → same_observer o p ≡ true → o ≡ p
same_observer-eq (all_changes i) (all_changes j) h = ground arith
same_observer-eq (all_changes i) (reloadable_only j) h = absurd (ground arith)
same_observer-eq (all_changes i) (non_reloadable_only j) h = absurd (ground arith)
same_observer-eq (reloadable_only i) (all_changes j) h = absurd (ground arith)
same_observer-eq (reloadable_only i) (reloadable_only j) h = ground arith
same_observer-eq (reloadable_only i) (non_reloadable_only j) h = absurd (ground arith)
same_observer-eq (non_reloadable_only i) (all_changes j) h = absurd (ground arith)
same_observer-eq (non_reloadable_only i) (reloadable_only j) h = absurd (ground arith)
same_observer-eq (non_reloadable_only i) (non_reloadable_only j) h = ground arith

module _ (x : Observer) where
  times-split_last :
      (o : Observer) (os : List Observer)
      → times x (split_last o os).0 + bit (same_observer (split_last o os).1 x) ≡ times x (o ∷ os)
  unfolding split_last count
  times-split_last o [] = omega arith
  times-split_last o (p ∷ ps) = omega (arith, times-split_last p ps)

  times-overwrite :
      (o by : Observer) (os : List Observer)
      → is_registered o os ≡ true
      → times x (overwrite o by os) + bit (same_observer o x)
        ≡ times x os + bit (same_observer by x)
  unfolding overwrite is_registered count
  times-overwrite o by [] h = absurd (ground arith)
  times-overwrite o by (p ∷ ps) h = elim (Bool-cases (same_observer p o)) [
    | inl e ↦ rw e (omega (arith, ap (λ q. bit (same_observer q x)) (same_observer-eq p o e)))
    | inr e ↦ rw e (omega (arith, times-overwrite o by ps (rw e at h)))
  ]

last_or : Observer → List Observer → Observer
last_or d [] = d
last_or d (p ∷ ps) = last_or p ps

last_or_self : (d : Observer) (ps : List Observer) → last_or (last_or d ps) ps ≡ last_or d ps
unfolding last_or
last_or_self d [] = refl
last_or_self d (p ∷ ps) = refl

split_last-last_or : (o : Observer) (os : List Observer) → (split_last o os).1 ≡ last_or o os
unfolding split_last last_or
split_last-last_or o [] = refl
split_last-last_or o (p ∷ ps) = split_last-last_or p ps

-- Overwriting by the last element keeps the last element.
last_or-overwrite :
    (d o : Observer) (os : List Observer) → last_or d (overwrite o (last_or d os) os) ≡ last_or d os
unfolding last_or overwrite
last_or-overwrite d o [] = refl
last_or-overwrite d o (p ∷ ps) = elim (Bool-cases (same_observer p o)) [
  | inl e ↦ rw e (last_or_self p ps)
  | inr e ↦ rw e (last_or-overwrite p o ps)
]

times-drop_last :
    (x d : Observer) (q : Observer) (qs : List Observer)
    → times x (drop_last (q ∷ qs)) + bit (same_observer (last_or d (q ∷ qs)) x) ≡ times x (q ∷ qs)
unfolding drop_last last_or
times-drop_last x d q qs = rw (← split_last-last_or q qs) (times-split_last x q qs)

times-drop_overwritten :
    (x o p : Observer) (ps : List Observer)
    → times x (drop_last (overwrite o (last_or p ps) (p ∷ ps)))
        + bit (same_observer (last_or p ps) x)
      ≡ times x (overwrite o (last_or p ps) (p ∷ ps))
unfolding overwrite last_or
times-drop_overwritten x o p ps = elim (Bool-cases (same_observer p o)) [
  | inl e ↦ rw e (
      ap (λ l. times x (drop_last (last_or p ps ∷ ps)) + bit (same_observer l x))
        (sym (last_or_self p ps))
      ∙ times-drop_last x p (last_or p ps) ps)
  | inr e ↦ rw e (
      ap (λ l. times x (drop_last (p ∷ overwrite o (last_or p ps) ps)) + bit (same_observer l x))
        (sym (last_or-overwrite p o ps))
      ∙ times-drop_last x p p (overwrite o (last_or p ps) ps))
]

-- `Unregister` takes one registration of the observer away, if there is one, and leaves as many of
-- every other observer as there were.
pub times-unregister :
    (x o : Observer) (os : List Observer)
    → times x (unregister o os) + (if is_registered o os then bit (same_observer o x) else 0)
      ≡ times x os
unfolding unregister is_registered count
times-unregister x o [] = omega arith
times-unregister x o (p ∷ ps) = elim (Bool-cases (is_registered o (p ∷ ps))) [
  | inl e ↦
      rw (e, split_last-last_or p ps)
        (omega
          (arith, times-drop_overwritten x o p ps, times-overwrite x o (last_or p ps) (p ∷ ps) e))
  | inr e ↦ rw e (omega arith)
]
