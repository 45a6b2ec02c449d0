-- ===== src/Cdoc/InlineCode.antt =====
-- cmd/cdoc/internal/engine/render/markdown.go: the delimiter of `formatInlineCode` and the
-- runs of backticks in its text.
use rudder_go_kit.Prelude.{ℕ, zero, suc, ◌+◌, ◌≤◌, ◌<◌, ◌≡◌, refl, [], ◌∷◌, ◌++◌, length, arith}
use rudder_go_kit.Config.Types.{Text}
use rudder_go_kit.Cdoc.Strings.{repeat}
use rudder_go_kit.Cdoc.Markdown.{max_run, delimiter}

max_run_ge : (current longest : ℕ) (s : Text) → longest ≤ max_run current longest s
unfolding max_run
max_run_ge current longest [] = omega arith
max_run_ge current longest (c ∷ s) = ground (
  arith,
  max_run_ge (suc current) (suc current) s,
  max_run_ge (suc current) longest s,
  max_run_ge 0 longest s,
)

max_run-repeat :
    (n current longest : ℕ) (s : Text)
    → current ≤ longest
    → current + n ≤ max_run current longest (repeat b'`' n ++ s)
unfolding max_run repeat
max_run-repeat zero current longest s h = omega (arith, h, max_run_ge current longest s)
max_run-repeat (suc n) current longest s h = ground (
  arith,
  max_run-repeat n (suc current) (suc current) s (omega arith),
  h,
  max_run-repeat n (suc current) longest s,
)

max_run-append :
    (n current longest : ℕ) (a s : Text)
    → current ≤ longest
    → n ≤ max_run current longest (a ++ repeat b'`' n ++ s)
unfolding max_run
max_run-append n current longest [] s h = omega (arith, max_run-repeat n current longest s h)
max_run-append n current longest (c ∷ a) s h = ground (
  arith,
  max_run-append n (suc current) (suc current) a s (omega arith),
  max_run-append n (suc current) longest a s,
  h,
  max_run-append n 0 longest a s (omega arith),
)

length-repeat : (c n : ℕ) → length (repeat c n) ≡ n
unfolding repeat
length-repeat c zero = refl
length-repeat c (suc n) = omega (arith, length-repeat c n)

-- Every run of backticks in a text is shorter than the delimiter that `formatInlineCode` puts
-- around the text.
pub delimiter_longer :
    (value before after : Text) (n : ℕ)
    → value ≡ before ++ repeat b'`' n ++ after
    → n < length (delimiter value)
unfolding delimiter
delimiter_longer value before after n e = rw e (
    omega (
      arith,
      length-repeat b'`' (suc (max_run 0 0 (before ++ repeat b'`' n ++ after))),
      max_run-append n 0 0 before after (omega arith),
    ))
