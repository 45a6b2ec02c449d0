-- ===== src/Percentile/Ring.antt =====
-- stats/metric/percentile.go: the ring of a tracker holds the observations that were made last.
use mathlib.Core.List.{reverse, reverse-append, reverse-cons, append_assoc, append-nil}
use mathlib.Core.Path.{subst}
use rudder_go_kit.Prelude.{
  ℕ, zero, suc, ◌+◌, ◌<◌, ◌≡◌, refl, sym, ap, ◌∙◌, List, [], ◌∷◌, ◌++◌, map, length, length-append,
  arith,
}
use rudder_go_kit.Prelude.Int.{ℤ, pos, negsuc}
use rudder_go_kit.Prelude.Positions.{set_at}
use rudder_go_kit.Percentile.{Floats, Tracker, make, capacity_of, new_percentile_tracker, observe}

-- The first elements, as many as the number says.
unfoldable pub take : {A : Type 0} → ℕ → List A → List A
take zero xs = []
take (suc n) [] = []
take (suc n) (x ∷ xs) = x ∷ take n xs

pub take-all : {A : Type 0} (n : ℕ) (xs : List A) → length xs < suc n → take n xs ≡ xs
unfolding take
take-all zero [] h = refl
take-all zero (x ∷ xs) h = absurd (omega (arith, h))
take-all (suc n) [] h = refl
take-all (suc n) (x ∷ xs) h = ap (λ l. x ∷ l) (take-all n xs (omega (arith, h)))

-- Of one element less, the last one falls off.
take-last :
    {A : Type 0} (xs ys : List A) (y : A)
    → take (suc (length ys)) xs ≡ ys ++ y ∷ []
    → take (length ys) xs ≡ ys
unfolding take
take-last xs [] y e = refl
take-last [] (z ∷ ys) y e = cc
take-last (x ∷ xs) (z ∷ ys) y e = ground (arith, take-last xs ys y, e)

reverse-snoc : {A : Type 0} (x : A) (xs : List A) → reverse (xs ++ x ∷ []) ≡ x ∷ reverse xs
reverse-snoc x xs = reverse-append xs (x ∷ [])

pub length-reverse : {A : Type 0} (xs : List A) → length (reverse xs) ≡ length xs
length-reverse [] = refl
length-reverse (x ∷ xs) =
    rw (reverse-cons x xs) (omega (arith, length-append (reverse xs) (x ∷ []), length-reverse xs))

-- With an element before them, the oldest of the elements that are kept goes.
take-shift :
    {A : Type 0} (n : ℕ) (x s : A) (a b h : List A)
    → length a + suc (length b) ≡ n
    → take n h ≡ reverse a ++ reverse (s ∷ b)
    → take n (x ∷ h) ≡ reverse (a ++ x ∷ []) ++ reverse b
unfolding take
take-shift zero x s a b h c e = absurd (omega (arith, c))
take-shift (suc n) x s a b h c e =
    let m : n ≡ length (reverse a ++ reverse b) =
      omega (arith, c, length-append (reverse a) (reverse b), length-reverse a, length-reverse b) in
    let before : take (suc n) h ≡ (reverse a ++ reverse b) ++ s ∷ [] =
      rw (e, reverse-cons s b) (sym (append_assoc (reverse a) (reverse b) (s ∷ []))) in
    rw (reverse-snoc x a) (
      ap (λ l. x ∷ l)
        (rw m (
          take-last h (reverse a ++ reverse b) s
            (subst (λ k. take (suc k) h ≡ (reverse a ++ reverse b) ++ s ∷ []) m before))))

map-make : {A B : Type 0} (f : A → B) (a : A) (n : ℕ) → make (f a) n ≡ map f (make a n)
unfolding make
map-make f a zero = refl
map-make f a (suc n) = ap (λ l. f a ∷ l) (map-make f a n)

length-make : {A : Type 0} (a : A) (n : ℕ) → length (make a n) ≡ n
unfolding make
length-make a zero = refl
length-make a (suc n) = ap suc (length-make a n)

capacity-pos : (i : ℤ) → 0 < capacity_of i
capacity-pos (pos zero) = omega arith
capacity-pos (pos (suc n)) = omega arith
capacity-pos (negsuc n) = omega arith

-- An observation: its time and its value.
abbrev pub Slot : Type 0 → Type 0
Slot F = ℕ × F

module _ {F : Type 0} where
  -- The slots that a tracker keeps after some observations, the last one first: either the oldest ones
  -- of an array that is not full, or all of them, from the place that is written next.
  pub data Holds (h : List (Slot F)) (t : Tracker F) : Type 0 where
    filling :
        (a spare : List (Slot F))
        → t.times ≡ map (λ s. s.0) (a ++ spare)
        → t.values ≡ map (λ s. s.1) (a ++ spare)
        → t.next ≡ length a
        → t.size ≡ length a
        → length a < t.capacity
        → length a + length spare ≡ t.capacity
        → h ≡ reverse a
        → Holds h t
    full :
        (a b : List (Slot F))
        → t.times ≡ map (λ s. s.0) (a ++ b)
        → t.values ≡ map (λ s. s.1) (a ++ b)
        → t.next ≡ length a
        → t.size ≡ t.capacity
        → length a < t.capacity
        → length a + length b ≡ t.capacity
        → take t.capacity h ≡ reverse a ++ reverse b
        → Holds h t

  set_at-map :
      {A : Type 0} (f : Slot F → A) (x s : Slot F) (a b : List (Slot F))
      → set_at (length a) (f x) (map f (a ++ s ∷ b)) ≡ map f (a ++ x ∷ b)
  unfolding set_at
  set_at-map f x s [] b = refl
  set_at-map f x s (y ∷ a) b = ap (λ l. f y ∷ l) (set_at-map f x s a b)

  set_at-slot :
      {A : Type 0} (f : Slot F → A) (x s : Slot F) (a b : List (Slot F)) (n : ℕ) (ts : List A)
      → n ≡ length a
      → ts ≡ map f (a ++ s ∷ b)
      → set_at n (f x) ts ≡ map f (a ++ x ∷ b)
  set_at-slot f x s a b n ts e d = rw (e, d) (set_at-map f x s a b)

  set_at-snoc :
      {A : Type 0} (f : Slot F → A) (x s : Slot F) (a b : List (Slot F)) (n : ℕ) (ts : List A)
      → n ≡ length a
      → ts ≡ map f (a ++ s ∷ b)
      → set_at n (f x) ts ≡ map f ((a ++ x ∷ []) ++ b)
  set_at-snoc f x s a b n ts e d =
      set_at-slot f x s a b n ts e d ∙ ap (map f) (sym (append_assoc a (x ∷ []) b))

  Holds-observe_filling :
      (x s : Slot F) (a spare : List (Slot F)) (h : List (Slot F)) (t : Tracker F)
      → t.times ≡ map (λ s. s.0) (a ++ s ∷ spare)
      → t.values ≡ map (λ s. s.1) (a ++ s ∷ spare)
      → t.next ≡ length a
      → t.size ≡ length a
      → length a + suc (length spare) ≡ t.capacity
      → h ≡ reverse a
      → Holds (x ∷ h) (observe x.0 x.1 t)
  unfolding observe
  Holds-observe_filling x s a [] h t ts vs n z c e =
      full [] (a ++ x ∷ []) (set_at-slot (λ s. s.0) x s a [] t.next t.times n ts)
        (set_at-slot (λ s. s.1) x s a [] t.next t.values n vs) (ground (arith, n, c))
        (ground (arith, z, c)) (omega (arith, c)) (omega (arith, c, length-append a (x ∷ [])))
        (take-all t.capacity (x ∷ h) (rw e (omega (arith, c, length-reverse a)))
          ∙ rw e (sym (reverse-snoc x a)))
  Holds-observe_filling x s a (r ∷ spare) h t ts vs n z c e =
      filling (a ++ x ∷ []) (r ∷ spare)
        (set_at-snoc (λ s. s.0) x s a (r ∷ spare) t.next t.times n ts)
        (set_at-snoc (λ s. s.1) x s a (r ∷ spare) t.next t.values n vs)
        (ground (arith, n, c, length-append a (x ∷ [])))
        (ground (arith, z, c, length-append a (x ∷ [])))
        (omega (arith, c, length-append a (x ∷ []))) (omega (arith, c, length-append a (x ∷ [])))
        (rw e (sym (reverse-snoc x a)))

  Holds-observe_full :
      (x s : Slot F) (a b : List (Slot F)) (h : List (Slot F)) (t : Tracker F)
      → t.times ≡ map (λ s. s.0) (a ++ s ∷ b)
      → t.values ≡ map (λ s. s.1) (a ++ s ∷ b)
      → t.next ≡ length a
      → t.size ≡ t.capacity
      → length a + suc (length b) ≡ t.capacity
      → take t.capacity h ≡ reverse a ++ reverse (s ∷ b)
      → Holds (x ∷ h) (observe x.0 x.1 t)
  unfolding observe
  Holds-observe_full x s a [] h t ts vs n z c e =
      full [] (a ++ x ∷ []) (set_at-slot (λ s. s.0) x s a [] t.next t.times n ts)
        (set_at-slot (λ s. s.1) x s a [] t.next t.values n vs) (ground (arith, n, c))
        (ground (arith, z, c)) (omega (arith, c)) (omega (arith, c, length-append a (x ∷ [])))
        (take-shift t.capacity x s a [] h c e ∙ append-nil _)
  Holds-observe_full x s a (r ∷ b) h t ts vs n z c e =
      full (a ++ x ∷ []) (r ∷ b) (set_at-snoc (λ s. s.0) x s a (r ∷ b) t.next t.times n ts)
        (set_at-snoc (λ s. s.1) x s a (r ∷ b) t.next t.values n vs)
        (ground (arith, n, c, length-append a (x ∷ [])))
        (ground (arith, z, c, length-append a (x ∷ [])))
        (omega (arith, c, length-append a (x ∷ []))) (omega (arith, c, length-append a (x ∷ [])))
        (take-shift t.capacity x s a (r ∷ b) h c e)

  observe-Holds :
      (x : Slot F) (h : List (Slot F)) (t : Tracker F)
      → Holds h t
      → Holds (x ∷ h) (observe x.0 x.1 t)
  observe-Holds x h t (filling a [] ts vs n z l c e) = absurd (omega (arith, l, c))
  observe-Holds x h t (filling a (s ∷ b) ts vs n z l c e) =
      Holds-observe_filling x s a b h t ts vs n z c e
  observe-Holds x h t (full a [] ts vs n z l c e) = absurd (omega (arith, l, c))
  observe-Holds x h t (full a (s ∷ b) ts vs n z l c e) =
      Holds-observe_full x s a b h t ts vs n z c e

  -- A tracker of the capacity after the observations, the last one first.
  unfoldable pub observe_all : Floats F → ℤ → List (Slot F) → Tracker F
  observe_all fl capacity [] = new_percentile_tracker fl capacity
  observe_all fl capacity (s ∷ h) = observe s.0 s.1 (observe_all fl capacity h)

  pub capacity-observe_all :
      (fl : Floats F) (i : ℤ) (h : List (Slot F)) → (observe_all fl i h).capacity ≡ capacity_of i
  unfolding observe_all observe new_percentile_tracker
  capacity-observe_all fl i [] = refl
  capacity-observe_all fl i (s ∷ h) = capacity-observe_all fl i h

  -- The slots of a tracker hold the observations that were made last, as many as its capacity or as
  -- there are, whatever the observations were.
  pub observe_all-Holds : (fl : Floats F) (i : ℤ) (h : List (Slot F)) → Holds h (observe_all fl i h)
  unfolding observe_all new_percentile_tracker
  observe_all-Holds fl i [] =
      filling [] (make (0, fl.float_zero) (capacity_of i))
        (map-make (λ s. s.0) (0, fl.float_zero) (capacity_of i))
        (map-make (λ s. s.1) (0, fl.float_zero) (capacity_of i)) refl refl (capacity-pos i)
        (omega (arith, length-make {A = Slot F} (0, fl.float_zero) (capacity_of i))) refl
  observe_all-Holds fl i (s ∷ h) = observe-Holds s h (observe_all fl i h) (observe_all-Holds fl i h)
