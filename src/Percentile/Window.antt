-- ===== src/Percentile/Window.antt =====
-- stats/metric/percentile.go: a percentile is the one of the values that lie in the window.
use mathlib.Core.List.{Permᴰ, append-nil, reverse}
use mathlib.Core.Path.{subst}
use mathlib.Core.List.Permᴰ
use rudder_go_kit.Prelude.{
  ℕ, zero, suc, ◌<◌, ◌≡◌, refl, sym, ap, ◌∙◌, Bool, true, false, not, ◌&&◌, List, [], ◌∷◌, ◌++◌,
  map, some, length, length-append, if◌then◌else◌, arith, inl, inr, Bool-cases,
}
use rudder_go_kit.Prelude.Int.{ℤ, pos, negsuc}
use rudder_go_kit.Prelude.Positions.{get_at}
use rudder_go_kit.Percentile.{
  Floats, Tracker, capacity_of, gather, is_recent, clamp, rank_of, nearest_rank_percentile,
  is_invalid, flagged, answer, percentile,
}
use rudder_go_kit.Percentile.Ring.{
  Slot, Holds, filling, full, take, take-all, length-reverse, observe_all, observe_all-Holds,
  capacity-observe_all,
}

module _ {F : Type 0} where
  -- The values of the observations that were made at a recent time.
  unfoldable pub recent_values : (ℕ → Bool) → List (Slot F) → List F
  recent_values recent [] = []
  recent_values recent (s ∷ h) =
      let rest = recent_values recent h in if recent s.0 then s.1 ∷ rest else rest

  gather-slots :
      (recent : ℕ → Bool) (a b : List (Slot F))
      → gather recent (length a) (map (λ s. s.0) (a ++ b)) (map (λ s. s.1) (a ++ b))
        ≡ recent_values recent a
  unfolding gather recent_values
  gather-slots recent [] b = refl
  gather-slots recent (s ∷ a) b = rw (gather-slots recent a b) refl

  add_value-Perm :
      (c : Bool) (x y : F) (vs ws : List F)
      → x ≡ y
      → Permᴰ vs ws
      → Permᴰ (if c then x ∷ vs else vs) (if c then y ∷ ws else ws)
  add_value-Perm true x y vs ws e p = Permᴰ.cons e p
  add_value-Perm false x y vs ws e p = p

  swap_values-Perm :
      (c d : Bool) (x y : F) (vs : List F)
      → Permᴰ
          (if c then x ∷ (if d then y ∷ vs else vs) else (if d then y ∷ vs else vs))
          (if d then y ∷ (if c then x ∷ vs else vs) else (if c then x ∷ vs else vs))
  swap_values-Perm true true x y vs = Permᴰ.swap refl refl
  swap_values-Perm true false x y vs = Permᴰ.refl (x ∷ vs)
  swap_values-Perm false true x y vs = Permᴰ.refl (y ∷ vs)
  swap_values-Perm false false x y vs = Permᴰ.refl vs

  recent_values-Perm :
      (recent : ℕ → Bool) (a b : List (Slot F))
      → Permᴰ a b
      → Permᴰ (recent_values recent a) (recent_values recent b)
  unfolding recent_values
  recent_values-Perm recent [] [] Permᴰ.nil = Permᴰ.nil
  recent_values-Perm recent (s ∷ a) (r ∷ b) (Permᴰ.cons e p) = rw e (
      add_value-Perm (recent r.0) r.1 r.1 (recent_values recent a) (recent_values recent b) refl
        (recent_values-Perm recent a b p))
  recent_values-Perm recent (s ∷ r ∷ a) (r' ∷ s' ∷ _) (Permᴰ.swap e d) =
      rw (e, d) (swap_values-Perm (recent s'.0) (recent r'.0) s'.1 r'.1 (recent_values recent a))
  recent_values-Perm recent a c (Permᴰ.trans {l₂ = b} p q) =
      Permᴰ.trans (recent_values-Perm recent a b p) (recent_values-Perm recent b c q)

  -- The loop of `Percentile` collects the values in the window of the observations that are kept.
  gather-Perm :
      (recent : ℕ → Bool) (h : List (Slot F)) (t : Tracker F)
      → Holds h t
      → Permᴰ (gather recent t.size t.times t.values) (recent_values recent (take t.capacity h))
  gather-Perm recent h t (filling a b ts vs n z l c e) =
      rw (ts, vs, z, take-all t.capacity h (rw e (omega (arith, l, length-reverse a))), e)
        (rw (gather-slots recent a b)
          (recent_values-Perm recent a (reverse a) (Permᴰ.symm (Permᴰ.reverse a))))
  gather-Perm recent h t (full a b ts vs n z l c e) =
      let n : t.size ≡ length (a ++ b) = omega (arith, z, c, length-append a b) in
      let all : gather recent t.size t.times t.values ≡ recent_values recent (a ++ b) =
        rw (n, ts, vs)
          (ap (λ l. gather recent (length (a ++ b)) (map (λ s. s.0) l) (map (λ s. s.1) l))
              (sym (append-nil (a ++ b)))
            ∙ gather-slots recent (a ++ b) []) in
      rw (all, e)
        (recent_values-Perm recent (a ++ b) (reverse a ++ reverse b) (
          Permᴰ.symm (
            Permᴰ.trans (Permᴰ.append_right (reverse b) (Permᴰ.reverse a))
              (Permᴰ.append_left a (Permᴰ.reverse b)))))

clamp-lt : (rank n : ℕ) → clamp rank (suc n) < suc n
clamp-lt rank n = ground arith

module _ {F : Type 0} (fl : Floats F) where
  -- For any observations, the last one first, `Percentile` answers for just the values in the window of
  -- those that were made last, as many as the capacity, in some order: the slots of the ring hold
  -- them. An invalid percentile gives 0 and false.
  pub percentile_recent :
      (i : ℤ) (h : List (Slot F)) (p : F) (w now : ℕ)
      → (vs : List F) × Permᴰ vs (recent_values (is_recent now (suc w)) (take (capacity_of i) h))
        × (percentile fl p (pos (suc w)) now (observe_all fl i h)
            ≡ (if is_invalid fl p then some (fl.float_zero, false) else answer fl vs p))
  unfolding percentile
  percentile_recent i h p w now =
      let t : Tracker F = observe_all fl i h in
      (
        gather (is_recent now (suc w)) t.size t.times t.values,
        subst
            (λ n.
              Permᴰ (gather (is_recent now (suc w)) t.size t.times t.values)
                (recent_values (is_recent now (suc w)) (take n h)))
            (capacity-observe_all fl i h)
            (gather-Perm (is_recent now (suc w)) h t (observe_all-Holds fl i h)),
        refl,
      )

  get_at-some :
      {A : Type 0} (i : ℕ) (xs : List A) → i < length xs → (x : A) × (get_at i xs ≡ some x)
  unfolding get_at
  get_at-some i [] h = absurd (omega (arith, h))
  get_at-some zero (x ∷ xs) h = (x, refl)
  get_at-some (suc i) (x ∷ xs) h = get_at-some i xs (omega (arith, h))

  abbrev pub is_empty : List F → Bool
  is_empty [] = true
  is_empty (v ∷ vs) = false

  answer_total :
      (vs : List F) (p : F)
      → ((xs : List F) → length (fl.sort xs) ≡ length xs)
      → (x : F) × (answer fl vs p ≡ some (x, not (is_empty vs)))
  unfolding answer nearest_rank_percentile
  answer_total [] p sorts = (fl.float_zero, refl)
  answer_total (v ∷ vs) p sorts =
      let rank : ℕ = rank_of (
        fl.to_int
          (fl.ceil (fl.multiply (fl.divide p fl.hundred) (fl.of_length (suc (length vs)))))) in
      let (x, e) =
        get_at-some (clamp rank (suc (length vs))) (fl.sort (v ∷ vs))
          (rw (sorts (v ∷ vs)) (clamp-lt rank (length vs))) in
      (x, ap flagged e)

  is_empty-Perm : (xs ys : List F) → Permᴰ xs ys → is_empty xs ≡ is_empty ys
  is_empty-Perm xs ys (Permᴰ.trans {l₂ = zs} p q) = is_empty-Perm xs zs p ∙ is_empty-Perm zs ys q
  is_empty-Perm [] [] Permᴰ.nil = refl
  is_empty-Perm (x ∷ xs) (y ∷ ys) (Permᴰ.cons e p) = refl
  is_empty-Perm (x ∷ y ∷ xs) (y' ∷ x' ∷ _) (Permᴰ.swap e d) = refl

  -- Whether there is a percentile to return, from the observations that are kept.
  abbrev is_found : F → ℤ → ℕ → List (Slot F) → Bool
  is_found p (pos (suc w)) now kept =
      not (is_invalid fl p) && not (is_empty (recent_values (is_recent now (suc w)) kept))
  is_found p _ now kept = false

  -- `Percentile` never panics, if sorting keeps the length, and returns true just when the percentile
  -- and the window are valid and one of the observations that are kept lies in the window.
  pub percentile_total :
      (i : ℤ) (h : List (Slot F)) (p : F) (window : ℤ) (now : ℕ)
      → ((xs : List F) → length (fl.sort xs) ≡ length xs)
      → (x : F) × (percentile fl p window now (observe_all fl i h)
          ≡ some (x, is_found p window now (take (capacity_of i) h)))
  unfolding percentile
  percentile_total i h p (negsuc w) now sorts = (fl.float_zero, refl)
  percentile_total i h p (pos zero) now sorts = (fl.float_zero, refl)
  percentile_total i h p (pos (suc w)) now sorts =
      let (vs, same, e) = percentile_recent i h p w now in
      elim (Bool-cases (is_invalid fl p)) [
        | inl bad ↦ (fl.float_zero, rw bad refl)
        | inr good ↦
            let (x, found) = answer_total vs p sorts in
            (x, e ∙ rw good (found ∙ rw (is_empty-Perm vs _ same) refl))
      ]
