-- ===== src/Config/Reload.antt =====
-- config/config_changedetect.go: after a change every variable has its new value, and each that
-- changed is notified once.
use mathlib.Core.List.{append-nil}
use rudder_go_kit.Prelude.{
  ℕ, ◌≡◌, ◌≢◌, inl, inr, refl, sym, ap, ◌∙◌, Bool, true, false, List, [], ◌∷◌, ◌++◌, Option, none,
  some, if◌then◌else◌, arith, All, Bool-cases,
}
use rudder_go_kit.Config.Types.{
  Text, Value, Slot, pointer, plain, ConfigValue, Observer, Notice, reloadable_changed,
  non_reloadable_changed, Source, Config, Go,
}
use rudder_go_kit.Config.Access.{same, write, join}
use rudder_go_kit.Config.Notify.{deliver, notify}
use rudder_go_kit.Config.Change.{check_scale, update_slot, check_value}
use rudder_go_kit.Config.Lookup.{Bound, first_set, value_at, read_first-first_set}

module _ {F S V : Type 0} (go : Go F S V) where
  -- The value that a variable should have: that of its first key that is set or its default, scaled.
  unfoldable pub resolved : Source V → ConfigValue F S → Value F S
  resolved source cv =
      check_scale go cv.spec (value_at go cv.spec source (first_set go source cv.keys))

  abbrev pub held : (ℕ → Value F S) → Slot F S → Value F S
  held cells (plain v) = v
  held cells (pointer a) = cells a

  abbrev current : Config F S V → ConfigValue F S → Value F S
  current c cv = held c.cells cv.value

  abbrev pub Quiet : Config F S V → ConfigValue F S → Type 0
  Quiet c cv = same go (current c cv) (resolved c.source cv) ≡ true

  -- The `Reloadable` of a slot, if it has one.
  abbrev pub reloadable_of : Slot F S → Option ℕ
  reloadable_of (plain v) = none
  reloadable_of (pointer a) = some a

  -- A `configValue` that may differ in its value alone, and keeps its `Reloadable`.
  abbrev pub IsSame : ConfigValue F S → ConfigValue F S → Type 0
  IsSame cv cv' =
      (cv' ≡ record cv { value = cv'.value }) × (reloadable_of cv'.value ≡ reloadable_of cv.value)

  abbrev pub Apart : Slot F S → Slot F S → Type 0
  Apart (pointer a) (pointer b) = a ≢ b
  Apart _ _ = Unit {0}

  -- No two variables share a `Reloadable`.
  abbrev pub Distinct : List (Text × ConfigValue F S) → Type 0
  Distinct [] = Unit {0}
  Distinct ((k, cv) ∷ m) = All (λ e. Apart e.1.value cv.value) m × Distinct m

  abbrev pub AllBound : Source V → List (Text × ConfigValue F S) → Type 0
  AllBound source m = All (λ e. All (Bound go source) e.1.keys) m

  -- Every new value equals itself: none is a `float64` that is not a number.
  abbrev pub AllSelf : Source V → List (Text × ConfigValue F S) → Type 0
  AllSelf source m = All (λ e. same go (resolved source e.1) (resolved source e.1) ≡ true) m

  check_value-update_slot :
      (cv : ConfigValue F S) (c : Config F S V)
      → All (Bound go c.source) cv.keys
      → check_value go cv c ≡ update_slot go cv.value cv (resolved c.source cv) c
  unfolding check_value resolved
  check_value-update_slot cv c b =
      ap
        (λ (r : Source V × Value F S).
          update_slot go cv.value cv (check_scale go cv.spec r.1) (record c { source = r.0 }))
        (read_first-first_set go cv.spec cv.keys c.source b)

  -- The notice of a variable that has a new value.
  unfoldable pub notice_of : (ℕ → Value F S) → Slot F S → Text → Value F S → Notice F S
  notice_of cells (plain old) key v = non_reloadable_changed key
  notice_of cells (pointer a) key v = reloadable_changed key (cells a) v

  -- What the observers hear of one variable.
  unfoldable pub notices_of :
      List Observer → (ℕ → Value F S) → ConfigValue F S → Value F S → List (Observer × Notice F S)
  notices_of os cells cv v =
      if same go (held cells cv.value) v
      then []
      else deliver (notice_of cells cv.value (join cv.keys) v) os

  -- What a change of values leaves alone.
  abbrev pub rest_of :
      Config F S V → List (Text × ConfigValue F S) × ℕ × List (Text × ConfigValue F S) × Bool
  rest_of c = (c.hot_config, c.next, c.non_reloadable_config, c.advanced_detection)

  -- What `update_slot` keeps and what it does.
  pub record Update (cv : ConfigValue F S) (v : Value F S) (c : Config F S V)
      (r : Config F S V × ConfigValue F S) : Type 0 where
    pub keeps_source : r.0.source ≡ c.source
    pub keeps_rest : rest_of r.0 ≡ rest_of c
    pub keeps_observers : r.0.observers ≡ c.observers
    pub keeps_spec : r.1.spec ≡ cv.spec
    pub keeps_keys : r.1.keys ≡ cv.keys
    pub is_same : IsSame cv r.1
    pub quiet : same go (current r.0 r.1) v ≡ true
    pub others : (slot : Slot F S) → Apart cv.value slot → held r.0.cells slot ≡ held c.cells slot
    pub apart : (slot : Slot F S) → Apart slot cv.value → Apart slot r.1.value
    pub notices : r.0.notices ≡ c.notices ++ notices_of c.observers c.cells cv v

  write_self : (cells : ℕ → Value F S) (a : ℕ) (v : Value F S) → write cells a v a ≡ v
  unfolding write
  write_self cells a v = ground arith

  write-Apart :
      (cells : ℕ → Value F S) (a : ℕ) (v : Value F S) (slot : Slot F S)
      → Apart (pointer a) slot
      → held (write cells a v) slot ≡ held cells slot
  unfolding write
  write-Apart cells a v (plain w) h = refl
  write-Apart cells a v (pointer b) h = ground arith

  update_slot-same :
      (slot : Slot F S) (cv : ConfigValue F S) (v : Value F S) (c : Config F S V)
      → same go (held c.cells slot) v ≡ true
      → update_slot go slot cv v c ≡ (c, cv)
  unfolding update_slot
  update_slot-same (plain old) cv v c h = rw h refl
  update_slot-same (pointer a) cv v c h = rw h refl

  Update-same :
      (cv : ConfigValue F S) (v : Value F S) (c : Config F S V)
      → same go (current c cv) v ≡ true
      → Update cv v c (c, cv)
  unfolding notices_of
  Update-same cv v c h = record {
    keeps_source = refl;
    keeps_rest = refl;
    keeps_observers = refl;
    keeps_spec = refl;
    keeps_keys = refl;
    is_same = (refl, refl);
    quiet = h;
    others = λ slot p. refl;
    apart = λ slot p. p;
    notices = rw (h, notices_of) (sym (append-nil c.notices));
  }

  Apart-plain : (slot : Slot F S) (v : Value F S) → Apart slot (plain v)
  Apart-plain (plain w) v = tt
  Apart-plain (pointer a) v = tt

  Update-plain :
      (cv : ConfigValue F S) (old v : Value F S) (c : Config F S V)
      → same go v v ≡ true
      → cv.value ≡ plain old
      → same go old v ≡ false
      → Update cv v c
          (notify (non_reloadable_changed (join cv.keys)) c, record cv { value = plain v })
  unfolding notices_of notice_of notify
  Update-plain cv old v c r e h = record {
    keeps_source = refl;
    keeps_rest = refl;
    keeps_observers = refl;
    keeps_spec = refl;
    keeps_keys = refl;
    is_same = (refl, rw e refl);
    quiet = r;
    others = λ slot p. refl;
    apart = λ slot p. Apart-plain slot v;
    notices = rw (e, h) refl;
  }

  Update-pointer :
      (cv : ConfigValue F S) (a : ℕ) (v : Value F S) (c : Config F S V)
      → same go v v ≡ true
      → cv.value ≡ pointer a
      → same go (c.cells a) v ≡ false
      → Update cv v c (
        notify
            (reloadable_changed (join cv.keys) (c.cells a) v)
            (record c { cells = write c.cells a v }),
        cv,
      )
  unfolding notices_of notice_of notify
  Update-pointer cv a v c r e h = record {
    keeps_source = refl;
    keeps_rest = refl;
    keeps_observers = refl;
    keeps_spec = refl;
    keeps_keys = refl;
    is_same = (refl, refl);
    quiet = rw e (rw (write_self c.cells a v) r);
    others = rw e (λ slot p. write-Apart c.cells a v slot p);
    apart = λ slot p. p;
    notices = rw (e, h) refl;
  }

  Update-change :
      (slot : Slot F S) (cv : ConfigValue F S) (v : Value F S) (c : Config F S V)
      → same go v v ≡ true
      → cv.value ≡ slot
      → same go (held c.cells slot) v ≡ false
      → Update cv v c (update_slot go slot cv v c)
  unfolding update_slot
  Update-change (plain old) cv v c r e h = rw h (Update-plain cv old v c r e h)
  Update-change (pointer a) cv v c r e h = rw h (Update-pointer cv a v c r e h)

  Update-slot :
      (slot : Slot F S) (cv : ConfigValue F S) (v : Value F S) (c : Config F S V)
      → same go v v ≡ true
      → cv.value ≡ slot
      → Update cv v c (update_slot go slot cv v c)
  unfolding update_slot
  Update-slot slot cv v c r e = elim (Bool-cases (same go (held c.cells slot) v)) [
    | inl h ↦
        rw (update_slot-same slot cv v c h)
          (Update-same cv v c (ap (λ s. same go (held c.cells s) v) e ∙ h))
    | inr h ↦ Update-change slot cv v c r e h
  ]

  -- A variable that is compared has its new value afterwards, and the others keep theirs.
  pub check_value-Update :
      (cv : ConfigValue F S) (c : Config F S V)
      → All (Bound go c.source) cv.keys
      → same go (resolved c.source cv) (resolved c.source cv) ≡ true
      → Update cv (resolved c.source cv) c (check_value go cv c)
  check_value-Update cv c b r =
      rw (check_value-update_slot cv c b) (Update-slot cv.value cv (resolved c.source cv) c r refl)
