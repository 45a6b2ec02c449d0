-- ===== src/Config/Pass.antt =====
-- config/config_changedetect.go: `checkConfigForChanges` over all variables.
use mathlib.Core.List.{append_assoc, append-nil}
use rudder_go_kit.Prelude.{ℕ, ◌≡◌, refl, sym, ◌∙◌, List, [], ◌∷◌, ◌++◌, All, All-map}
use rudder_go_kit.Config.Types.{
  Text, Value, Slot, pointer, plain, ConfigValue, Observer, Notice, Source, Config, Go,
}
use rudder_go_kit.Config.Change.{check_value, check_config}
use rudder_go_kit.Config.Reload.{
  resolved, held, Quiet, IsSame, Apart, Distinct, AllBound, AllSelf, notice_of, notices_of, Update,
  rest_of, check_value-Update,
}

module _ {F S V : Type 0} (go : Go F S V) where
  -- What the observers hear of several variables, each compared with the value that it has now.
  unfoldable pub all_notices :
      List Observer
      → (ℕ → Value F S)
      → Source V
      → List (Text × ConfigValue F S)
      → List (Observer × Notice F S)
  all_notices os cells source [] = []
  all_notices os cells source ((k, cv) ∷ m) =
      notices_of go os cells cv (resolved go source cv) ++ all_notices os cells source m

  -- The variables of a list, in its order and under their keys, each with a value that may differ.
  abbrev pub AllSame : List (Text × ConfigValue F S) → List (Text × ConfigValue F S) → Type 0
  AllSame [] [] = Unit {0}
  AllSame [] (e ∷ m') = ⊥
  AllSame (e ∷ m) [] = ⊥
  AllSame ((k, cv) ∷ m) ((k', cv') ∷ m') = ((k' ≡ k) × IsSame go cv cv') × AllSame m m'

  -- What a pass over the variables `m` keeps and what it does.
  pub record Passed (m : List (Text × ConfigValue F S)) (c : Config F S V)
      (r : Config F S V × List (Text × ConfigValue F S)) : Type 0 where
    pub keeps_source : r.0.source ≡ c.source
    pub keeps_rest : rest_of go r.0 ≡ rest_of go c
    pub keeps_observers : r.0.observers ≡ c.observers
    pub variables : AllSame m r.1
    pub quiet : All (λ e. Quiet go r.0 e.1) r.1
    pub others :
        (slot : Slot F S)
        → All (λ e. Apart go e.1.value slot) m
        → held go r.0.cells slot ≡ held go c.cells slot
    pub notices : r.0.notices ≡ c.notices ++ all_notices c.observers c.cells c.source m

  resolved-keeps :
      (source source' : Source V) (cv cv' : ConfigValue F S)
      → source' ≡ source
      → cv'.spec ≡ cv.spec
      → cv'.keys ≡ cv.keys
      → resolved go source' cv' ≡ resolved go source cv
  unfolding resolved
  resolved-keeps source source' cv cv' e s k = rw (e, s, k) refl

  notices_of-held :
      (os : List Observer) (cells cells' : ℕ → Value F S) (cv : ConfigValue F S) (slot : Slot F S)
      (v : Value F S)
      → cv.value ≡ slot
      → held go cells' slot ≡ held go cells slot
      → notices_of go os cells' cv v ≡ notices_of go os cells cv v
  unfolding notices_of notice_of
  notices_of-held os cells cells' cv (plain old) v e h = rw e refl
  notices_of-held os cells cells' cv (pointer a) v e h = rw (e, h) refl

  all_notices-held :
      (os : List Observer) (cells cells' : ℕ → Value F S) (source : Source V)
      (m : List (Text × ConfigValue F S))
      → All (λ e. held go cells' e.1.value ≡ held go cells e.1.value) m
      → all_notices os cells' source m ≡ all_notices os cells source m
  unfolding all_notices
  all_notices-held os cells cells' source [] h = refl
  all_notices-held os cells cells' source ((k, cv) ∷ m) h =
      rw
        (
          notices_of-held os cells cells' cv cv.value (resolved go source cv) refl h.0,
          all_notices-held os cells cells' source m h.1,
        )
        refl

  -- The first variable of a pass, and the pass over the others.
  Passed-cons :
      (k : Text) (cv cv' : ConfigValue F S) (m m' : List (Text × ConfigValue F S))
      (c c' d : Config F S V)
      → All (λ e. Apart go e.1.value cv.value) m
      → All (λ e. Apart go cv.value e.1.value) m
      → Update go cv (resolved go c.source cv) c (c', cv')
      → Passed m c' (d, m')
      → Passed ((k, cv) ∷ m) c (d, (k, cv') ∷ m')
  unfolding all_notices
  Passed-cons k cv cv' m m' c c' d apart apart' u p =
      let same_source = p.keeps_source ∙ u.keeps_source in
      record {
        keeps_source = same_source;
        keeps_rest = p.keeps_rest ∙ u.keeps_rest;
        keeps_observers = p.keeps_observers ∙ u.keeps_observers;
        variables = ((refl, u.is_same), p.variables);
        quiet = (
          rw
              (
                resolved-keeps c.source d.source cv cv' same_source u.keeps_spec u.keeps_keys,
                p.others cv'.value (All-map _ _ m (λ e h. u.apart e.1.value h) apart),
              )
              u.quiet,
          p.quiet,
        );
        others = λ slot h. p.others slot h.1 ∙ u.others slot h.0;
        notices =
            p.notices
            ∙ rw
                (
                  u.keeps_observers,
                  u.keeps_source,
                  u.notices,
                  all_notices-held c.observers c.cells c'.cells c.source m
                      (All-map _ _ m (λ e h. u.others e.1.value h) apart'),
                )
                (append_assoc c.notices _ _);
      }

  Apart-sym : (s t : Slot F S) → Apart go s t → Apart go t s
  Apart-sym (plain v) (plain w) h = tt
  Apart-sym (plain v) (pointer b) h = tt
  Apart-sym (pointer a) (plain w) h = tt
  Apart-sym (pointer a) (pointer b) h = λ e. h (sym e)

  -- A pass over variables with a `Reloadable` each of their own, whose keys are bound and whose new
  -- values equal themselves, returns these variables, in their order and each with its own
  -- `Reloadable`, if it has one. Afterwards every one of them has a value that equals that of its first
  -- key that is set or its default, times its scale; every other `Reloadable` is as before; and the
  -- observers have heard, in order, of just the variables whose value differed before, with the old
  -- and the new value of a `Reloadable`.
  pub check_config-Passed :
      (m : List (Text × ConfigValue F S)) (c : Config F S V)
      → AllBound go c.source m
      → AllSelf go c.source m
      → Distinct go m
      → Passed m c (check_config go m c)
  unfolding check_config all_notices
  check_config-Passed [] c b r d = record {
    keeps_source = refl;
    keeps_rest = refl;
    keeps_observers = refl;
    variables = tt;
    quiet = tt;
    others = λ slot h. refl;
    notices = sym (append-nil c.notices);
  }
  check_config-Passed ((k, cv) ∷ m) c b r d =
      let u = check_value-Update go cv c b.0 r.0 in
      let c' = (check_value go cv c).0 in
      Passed-cons k cv (check_value go cv c).1 m (check_config go m c').1 c c'
        (check_config go m c').0 d.0 (All-map _ _ m (λ e h. Apart-sym e.1.value cv.value h) d.0) u
        (check_config-Passed m c' (rw u.keeps_source b.1) (rw u.keeps_source r.1) d.1)
