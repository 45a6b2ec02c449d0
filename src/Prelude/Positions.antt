-- ===== src/Prelude/Positions.antt =====
-- Elements by position, and how many of them pass a test.
use Prim.Native.Nat.{ℕ, zero, suc, ◌+◌, ◌<◌}
use mathlib.Core.Path.{◌≡◌, refl, subst}
use mathlib.Core.Bool.{Bool, true, false}
use mathlib.Core.Option.{Option, none, some}
use mathlib.Core.List.{List, [], ◌∷◌}
use mathlib.Core.List.{◌++◌}
use mathlib.Core.Logic.{◌≢◌}
use native.Mathlib.Omega.{arith}
use rudder_go_kit.Prelude.Lists.{length}

abbrev pub bit : Bool → ℕ
bit true = 1
bit false = 0

module _ {A : Type 0} where
  unfoldable pub get_at : ℕ → List A → Option A
  get_at i [] = none
  get_at zero (t ∷ ts) = some t
  get_at (suc i) (t ∷ ts) = get_at i ts

  unfoldable pub set_at : ℕ → A → List A → List A
  set_at i u [] = []
  set_at zero u (t ∷ ts) = u ∷ ts
  set_at (suc i) u (t ∷ ts) = t ∷ set_at i u ts

  unfoldable pub drop_at : ℕ → List A → List A
  drop_at i [] = []
  drop_at zero (t ∷ ts) = ts
  drop_at (suc i) (t ∷ ts) = t ∷ drop_at i ts

  unfoldable pub count : (A → Bool) → List A → ℕ
  count test [] = 0
  count test (t ∷ ts) = bit (test t) + count test ts

  pub count-set_at :
      (test : A → Bool) (i : ℕ) (u t : A) (ts : List A)
      → get_at i ts ≡ some t
      → count test (set_at i u ts) + bit (test t) ≡ count test ts + bit (test u)
  unfolding count get_at set_at
  count-set_at test i u t [] e = absurd (ground arith)
  count-set_at test zero u t (s ∷ ts) e = ground arith
  count-set_at test (suc i) u t (s ∷ ts) e = omega (arith, count-set_at test i u t ts e)

  pub count-drop_at :
      (test : A → Bool) (i : ℕ) (t : A) (ts : List A)
      → get_at i ts ≡ some t
      → count test (drop_at i ts) + bit (test t) ≡ count test ts
  unfolding count get_at drop_at
  count-drop_at test i t [] e = absurd (ground arith)
  count-drop_at test zero t (s ∷ ts) e = ground arith
  count-drop_at test (suc i) t (s ∷ ts) e = omega (arith, count-drop_at test i t ts e)

  -- An element that passes the test is counted.
  pub count-pos :
      (test : A → Bool) (i : ℕ) (t : A) (ts : List A)
      → get_at i ts ≡ some t
      → test t ≡ true
      → 0 < count test ts
  unfolding count get_at
  count-pos test i t [] e h = absurd (ground arith)
  count-pos test zero t (s ∷ ts) e h = ground arith
  count-pos test (suc i) t (s ∷ ts) e h = omega (arith, count-pos test i t ts e h)

  -- Two elements that pass the test are counted twice.
  pub count-two :
      (test : A → Bool) (i j : ℕ) (t u : A) (ts : List A)
      → i < j
      → get_at i ts ≡ some t
      → get_at j ts ≡ some u
      → test t ≡ true
      → test u ≡ true
      → 1 < count test ts
  unfolding count get_at
  count-two test i j t u [] lt e f g h = absurd (ground arith)
  count-two test i zero t u (s ∷ ts) lt e f g h = elim lt [ ]
  count-two test zero (suc j) t u (s ∷ ts) lt e f g h = ground (arith, count-pos test j u ts f h)
  count-two test (suc i) (suc j) t u (s ∷ ts) lt e f g h =
      omega (arith, count-two test i j t u ts (omega arith) e f g h)

  -- A predicate of every element.
  abbrev pub Every : (A → Type 0) → List A → Type 0
  Every P [] = Unit
  Every P (t ∷ ts) = P t × Every P ts

  pub Every-get_at :
      (P : A → Type 0) (i : ℕ) (t : A) (ts : List A) → Every P ts → get_at i ts ≡ some t → P t
  unfolding get_at
  Every-get_at P i t [] h e = absurd (ground arith)
  Every-get_at P zero t (s ∷ ts) h e = subst P (ground arith) h.0
  Every-get_at P (suc i) t (s ∷ ts) h e = Every-get_at P i t ts h.1 e

  pub Every-set_at :
      (P : A → Type 0) (i : ℕ) (u : A) (ts : List A) → Every P ts → P u → Every P (set_at i u ts)
  unfolding set_at
  Every-set_at P i u [] h p = tt
  Every-set_at P zero u (s ∷ ts) h p = (p, h.1)
  Every-set_at P (suc i) u (s ∷ ts) h p = (h.0, Every-set_at P i u ts h.1 p)

  pub Every-drop_at : (P : A → Type 0) (i : ℕ) (ts : List A) → Every P ts → Every P (drop_at i ts)
  unfolding drop_at
  Every-drop_at P i [] h = tt
  Every-drop_at P zero (s ∷ ts) h = h.1
  Every-drop_at P (suc i) (s ∷ ts) h = (h.0, Every-drop_at P i ts h.1)

  -- A predicate that follows from another where no counted element is left.
  pub Every-weaken :
      (P Q : A → Type 0) (test : A → Bool) (ts : List A)
      → ((t : A) → P t → test t ≡ false → Q t)
      → Every P ts
      → count test ts ≡ 0
      → Every Q ts
  unfolding count
  Every-weaken P Q test [] f h none_left = tt
  Every-weaken P Q test (t ∷ ts) f h none_left =
      (f t h.0 (ground arith), Every-weaken P Q test ts f h.1 (omega arith))

  pub Every-map : (P Q : A → Type 0) (ts : List A) → ((t : A) → P t → Q t) → Every P ts → Every Q ts
  Every-map P Q [] f h = tt
  Every-map P Q (t ∷ ts) f h = (f t h.0, Every-map P Q ts f h.1)

  pub get-set_at_self :
      (i : ℕ) (u t : A) (ts : List A) → get_at i ts ≡ some t → get_at i (set_at i u ts) ≡ some u
  unfolding get_at set_at
  get-set_at_self i u t [] e = absurd (ground arith)
  get-set_at_self zero u t (s ∷ ts) e = refl
  get-set_at_self (suc i) u t (s ∷ ts) e = get-set_at_self i u t ts e

  pub get-set_at_ne :
      (i j : ℕ) (u : A) (ts : List A) → j ≢ i → get_at j (set_at i u ts) ≡ get_at j ts
  unfolding get_at set_at
  get-set_at_ne i j u [] n = refl
  get-set_at_ne zero zero u (s ∷ ts) n = absurd (n refl)
  get-set_at_ne zero (suc j) u (s ∷ ts) n = refl
  get-set_at_ne (suc i) zero u (s ∷ ts) n = refl
  get-set_at_ne (suc i) (suc j) u (s ∷ ts) n = get-set_at_ne i j u ts (λ e. n (ground arith))

  pub get-append_last : (u : A) (ts : List A) → get_at (length ts) (ts ++ u ∷ []) ≡ some u
  unfolding get_at
  get-append_last u [] = refl
  get-append_last u (t ∷ ts) = get-append_last u ts

  pub get-append_ne :
      (u : A) (j : ℕ) (ts : List A) → j ≢ length ts → get_at j (ts ++ u ∷ []) ≡ get_at j ts
  unfolding get_at
  get-append_ne u zero [] n = absurd (n refl)
  get-append_ne u (suc j) [] n = refl
  get-append_ne u zero (t ∷ ts) n = refl
  get-append_ne u (suc j) (t ∷ ts) n = get-append_ne u j ts (λ e. n (ground arith))

  pub get-past : (ts : List A) → get_at (length ts) ts ≡ none
  unfolding get_at
  get-past [] = refl
  get-past (t ∷ ts) = get-past ts

  pub count-append_last :
      (test : A → Bool) (u : A) (ts : List A)
      → count test (ts ++ u ∷ []) ≡ count test ts + bit (test u)
  unfolding count
  count-append_last test u [] = omega arith
  count-append_last test u (t ∷ ts) = omega (arith, count-append_last test u ts)
