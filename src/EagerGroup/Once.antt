-- ===== src/EagerGroup/Once.antt =====
-- sync/eagergroup.go: the first error is kept, and a cancelled group calls no function.
use mathlib.Core.Path.{subst}
use rudder_go_kit.Prelude.{
  ℕ, ◌≡◌, refl, sym, ap, ◌∙◌, Bool, true, false, List, [], ◌∷◌, Option, none, some, ◌==◌, ltb,
  if◌then◌else◌, arith, inl, inr, Option-cases,
}
use rudder_go_kit.Prelude.Positions.{get_at}
use rudder_go_kit.EagerGroup.{
  Phase, waiting, started, running, releasing, returned, Group, Event, call, acquire, give_up,
  test_context, return, record_error, release, cancel_parent, cancelled, set_phase, set_error,
  record_result, go_with, go, acquire_at, give_up_with, give_up_at, test_context_with,
  test_context_at, return_at, record_at, release_at, at_task, step, run, none_active, wait,
}

-- What the steps leave as it is: a recorded error, and of a cancelled group the error of the context
-- and the calls.
pub record Later {E : Type 0} (g h : Group E) : Type 0 where
  pub keeps_error : g.once ≡ true → (h.once ≡ true) × (h.err ≡ g.err)
  pub keeps_context : (e : E) → g.ctx_err ≡ some e → (h.ctx_err ≡ some e) × (h.calls ≡ g.calls)

module _ {E : Type 0} where
  Later-refl : (g : Group E) → Later g g
  Later-refl g = record { keeps_error = λ o. (o, refl); keeps_context = λ e c. (c, refl) }

  Later-trans : (g h k : Group E) → Later g h → Later h k → Later g k
  Later-trans g h k a b = record {
    keeps_error =
        λ o. let (o', e) = a.keeps_error o in let (o'', e') = b.keeps_error o' in (o'', e' ∙ e);
    keeps_context = λ e c.
        let (c', n) = a.keeps_context e c in let (c'', n') = b.keeps_context e c' in (c'', n' ∙ n);
  }

  -- The phases of the tasks do not matter.
  Later-tasks :
      (ps : List (Phase E)) (g h : Group E) → Later g h → Later g (record h { tasks = ps })
  Later-tasks ps g h l = record { keeps_error = l.keeps_error; keeps_context = l.keeps_context }

  Later-if :
      (b : Bool) (g h k : Group E)
      → (b ≡ true → Later g h)
      → (b ≡ false → Later g k)
      → Later g (if b then h else k)
  Later-if true g h k l m = l refl
  Later-if false g h k l m = m refl

module _ {E : Type 0} (canceled : E) where
  -- A step of one task has a property that doing nothing has and that its step in each phase has.
  pub at_task-cases :
      (P : Group E → Type 0) (i : ℕ) (f : Phase E → Group E → Group E) (g : Group E)
      → P g
      → ((p : Phase E) → get_at i g.tasks ≡ some p → P (f p g))
      → P (at_task canceled i f g)
  unfolding at_task
  at_task-cases P i f g h k = elim (Option-cases (get_at i g.tasks)) [
    | inl e ↦ rw (e, at_task) h
    | inr (p, e) ↦ rw (e, at_task) (k p e)
  ]

  Later-set_error : (e : E) (g : Group E) → Later g (set_error canceled e g)
  unfolding set_error
  Later-set_error e g =
      Later-if g.once g g _ (λ h. Later-refl g)
        (λ h. record {
          keeps_error = λ o. absurd (ground (arith, sym o ∙ h));
          keeps_context = λ d c. (ap (cancelled canceled) c, refl);
        })

  Later-record_result : (r : Option E) (g : Group E) → Later g (record_result canceled r g)
  unfolding record_result
  Later-record_result none g = Later-refl g
  Later-record_result (some e) g = Later-set_error e g

  Later-go_with : (o : Option E) (g : Group E) → Later g (go_with canceled o g)
  unfolding go_with
  Later-go_with none g = Later-tasks _ g g (Later-refl g)
  Later-go_with (some e) g = Later-tasks _ g (set_error canceled e g) (Later-set_error e g)

  Later-acquire : (i : ℕ) (p : Phase E) (g : Group E) → Later g (acquire_at canceled i p g)
  unfolding acquire_at
  Later-acquire i waiting g =
      Later-if (ltb g.used g.limit) g _ g
        (λ h. record { keeps_error = λ o. (o, refl); keeps_context = λ e c. (c, refl) })
        (λ h. Later-refl g)
  Later-acquire i _ g = Later-refl g

  Later-give_up_with : (o : Option E) (i : ℕ) (g : Group E) → Later g (give_up_with canceled o i g)
  unfolding give_up_with
  Later-give_up_with none i g = Later-refl g
  Later-give_up_with (some e) i g = Later-tasks _ g (set_error canceled e g) (Later-set_error e g)

  Later-give_up : (i : ℕ) (p : Phase E) (g : Group E) → Later g (give_up_at canceled i p g)
  unfolding give_up_at
  Later-give_up i waiting g = Later-give_up_with g.ctx_err i g
  Later-give_up i _ g = Later-refl g

  Later-test_context_with :
      (o : Option E) (i : ℕ) (g : Group E)
      → g.ctx_err ≡ o
      → Later g (test_context_with canceled o i g)
  unfolding test_context_with
  Later-test_context_with none i g n = record {
    keeps_error = λ o. (o, refl);
    keeps_context = λ e c. absurd (ground (arith, sym n ∙ c));
  }
  Later-test_context_with (some e) i g c = Later-tasks _ g g (Later-refl g)

  Later-test_context :
      (i : ℕ) (p : Phase E) (g : Group E) → Later g (test_context_at canceled i p g)
  unfolding test_context_at
  Later-test_context i started g = Later-test_context_with g.ctx_err i g refl
  Later-test_context i _ g = Later-refl g

  Later-return :
      (i : ℕ) (r : Option E) (p : Phase E) (g : Group E) → Later g (return_at canceled i r p g)
  unfolding return_at
  Later-return i r running g = Later-tasks _ g g (Later-refl g)
  Later-return i r _ g = Later-refl g

  Later-record : (i : ℕ) (p : Phase E) (g : Group E) → Later g (record_at canceled i p g)
  unfolding record_at
  Later-record i (returned r) g =
      Later-tasks _ g (record_result canceled r g) (Later-record_result r g)
  Later-record i _ g = Later-refl g

  Later-release : (i : ℕ) (p : Phase E) (g : Group E) → Later g (release_at canceled i p g)
  unfolding release_at
  Later-release i releasing g =
      Later-if (g.limit == 0) g _ _ (λ h. Later-tasks _ g g (Later-refl g))
        (λ h. record { keeps_error = λ o. (o, refl); keeps_context = λ e c. (c, refl) })
  Later-release i _ g = Later-refl g

  step-Later : (e : Event E) (g : Group E) → Later g (step canceled e g)
  unfolding step go
  step-Later call g = Later-go_with g.ctx_err g
  step-Later (acquire i) g =
      at_task-cases (Later g) i _ g (Later-refl g) (λ p e. Later-acquire i p g)
  step-Later (give_up i) g =
      at_task-cases (Later g) i _ g (Later-refl g) (λ p e. Later-give_up i p g)
  step-Later (test_context i) g =
      at_task-cases (Later g) i _ g (Later-refl g) (λ p e. Later-test_context i p g)
  step-Later (return i r) g =
      at_task-cases (Later g) i _ g (Later-refl g) (λ p e. Later-return i r p g)
  step-Later (record_error i) g =
      at_task-cases (Later g) i _ g (Later-refl g) (λ p e. Later-record i p g)
  step-Later (release i) g =
      at_task-cases (Later g) i _ g (Later-refl g) (λ p e. Later-release i p g)
  step-Later (cancel_parent d) g = record {
    keeps_error = λ o. (o, refl);
    keeps_context = λ e c. (ap (cancelled d) c, refl);
  }

  run-Later : (es : List (Event E)) (g : Group E) → Later g (run canceled es g)
  unfolding run
  run-Later [] g = Later-refl g
  run-Later (e ∷ es) g =
      Later-trans g (step canceled e g) (run canceled es (step canceled e g)) (step-Later e g)
        (run-Later es (step canceled e g))

  -- Once the context of a group is cancelled, no further function passes the test of the context to be
  -- called, whatever happens then, and the error of the context stays.
  pub run_cancelled :
      (es : List (Event E)) (g : Group E) (e : E)
      → g.ctx_err ≡ some e
      → ((run canceled es g).calls ≡ g.calls) × ((run canceled es g).ctx_err ≡ some e)
  run_cancelled es g e c = let (d, n) = (run-Later es g).keeps_context e c in (n, d)

  wait-none_active :
      (g : Group E)
      → none_active g.tasks ≡ true
      → wait canceled g ≡ some (record g { ctx_err = cancelled canceled g.ctx_err }, g.err)
  unfolding wait
  wait-none_active g h =
      ap
        (λ (b : Bool).
          if b then some (record g { ctx_err = cancelled canceled g.ctx_err }, g.err) else none)
        h

  at_task-some :
      (i : ℕ) (f : Phase E → Group E → Group E) (p : Phase E) (g : Group E)
      → get_at i g.tasks ≡ some p
      → at_task canceled i f g ≡ f p g
  unfolding at_task
  at_task-some i f p g e = rw (e, at_task) refl

  set_error-first :
      (e : E) (g : Group E)
      → g.once ≡ false
      → set_error canceled e g
        ≡ record g { once = true; err = some e; ctx_err = cancelled canceled g.ctx_err }
  unfolding set_error
  set_error-first e g h =
      ap
        (λ (b : Bool).
          if b
          then g
          else record g { once = true; err = some e; ctx_err = cancelled canceled g.ctx_err })
        h

  record_error-first :
      (i : ℕ) (e : E) (g : Group E)
      → g.once ≡ false
      → get_at i g.tasks ≡ some (returned (some e))
      → ((step canceled (record_error i) g).once ≡ true)
        × ((step canceled (record_error i) g).err ≡ some e)
  unfolding step record_at record_result
  record_error-first i e g first at =
      let made : step canceled (record_error i) g ≡ set_phase i releasing (set_error canceled e g) =
        at_task-some i _ (returned (some e)) g at in
      let error = set_error-first e g first in
      (
        ap (λ (h : Group E). h.once) made ∙ ap (λ (h : Group E). h.once) error,
        ap (λ (h : Group E). h.err) made ∙ ap (λ (h : Group E). h.err) error,
      )

  -- The first error that a goroutine records is the one that `Wait` returns when the last goroutine has
  -- ended, whatever happens in between.
  pub wait-first_error :
      (i : ℕ) (e : E) (es : List (Event E)) (g : Group E)
      → g.once ≡ false
      → get_at i g.tasks ≡ some (returned (some e))
      → none_active (run canceled es (step canceled (record_error i) g)).tasks ≡ true
      → (h : Group E) × (wait canceled (run canceled es (step canceled (record_error i) g))
          ≡ some (h, some e))
  wait-first_error i e es g first at done =
      let g' = step canceled (record_error i) g in
      let h = run canceled es g' in
      let (o, r) = record_error-first i e g first at in
      (
        record h { ctx_err = cancelled canceled h.ctx_err },
        subst (λ x. wait canceled h ≡ some (record h { ctx_err = cancelled canceled h.ctx_err }, x))
            (((run-Later es g').keeps_error o).1 ∙ r) (wait-none_active h done),
      )
