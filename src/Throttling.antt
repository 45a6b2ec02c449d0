-- ===== src/Throttling.antt =====
-- throttling/throttling.go and throttling/memory_gcra.go: the checks of `allow`, and the cache of rate
-- limiters over the cache of cachettl. A rate limiter of package throttled is the number of its
-- creation; whether one can be created, and the text of a number, are parameters. Costs, rates and
-- windows are the integers that they are; only a product is reduced to 64 bits.
pub mod Caching
mod Tests
use rudder_go_kit.Prelude.{
  ℕ, zero, suc, ◌+◌, ◌-◌, ◌*◌, ◌/◌, ◌%◌, ◌^◌, Bool, true, false, List, [], ◌∷◌, ◌++◌, Option, none,
  some, ltb, leb, ℕ_discrete, if◌then◌else◌,
}
use rudder_go_kit.Prelude.Int.{ℤ, pos, negsuc}
use rudder_go_kit.Config.Types.{Text, text_discrete}
use rudder_go_kit.CacheTtl.{Cache, Readings, new, put, get}

-- What the code calls: `strconv.FormatInt`, and whether `throttled.NewGCRARateLimiterCtx` makes a
-- limiter for a rate, a window and a burst.
pub record Throttled : Type 0 where
  pub format_int : ℕ → Text
  pub creates : ℕ → ℕ → ℕ → Bool

-- What `RateLimitCtx` answers during one call, for a limiter and a cost: whether it is limited and when
-- to try again, or an error. Each call has an answer of its own, since limiters count.
abbrev pub Answer : Type 0
Answer = ℕ → ℕ → Option (Bool × ℤ)

-- The errors of `allow` and of `limit`
pub data Error : Type 0 where
  cost_error rate_error window_error key_error limiter_error rate_limit_error : Error

pub data Result (A : Type 0) : Type 0 where
  ok : A → Result A
  error : Error → Result A

-- `gcra`, with the number of the next limiter; a store that is `nil` is the empty one.
pub record Gcra : Type 0 where
  pub store : Cache Text (Option ℕ)
  pub next : ℕ

unfoldable pub new_gcra : Gcra
new_gcra = record { store = new true; next = 0 }

-- A product of 64-bit integers, as a signed one
unfoldable pub signed64 : ℕ → ℤ
signed64 n = let m = n % 2 ^ 64 in if ltb m (2 ^ 63) then pos m else negsuc (2 ^ 64 - 1 - m)

-- The time that a limiter is cached for, in nanoseconds.
unfoldable pub cache_time : ℕ → ℕ → ℕ → ℤ
cache_time burst rate period = signed64 ((burst / rate) * period * 1_000_000_000)

module _ (t : Throttled) where
  -- The key in the cache
  unfoldable pub cache_key : Text → ℕ → ℕ → ℕ → Text
  cache_key key burst rate period =
      key ++ b':' ∷ t.format_int burst ++ b':' ∷ t.format_int rate ++ b':' ∷ t.format_int period

  -- `getLimiter` after its `Get`, which found a limiter or `nil`; `now` is the time of its `Put`.
  unfoldable pub limiter_or_new : Text → ℕ → ℕ → ℕ → ℕ → Option ℕ → Gcra → Gcra × Result ℕ
  limiter_or_new key burst rate period now (some l) g = (g, ok l)
  limiter_or_new key burst rate period now none g =
      if t.creates rate period burst
      then (
        record g {
          store =
              put text_discrete (cache_key key burst rate period) (some g.next)
                (cache_time burst rate period) now g.store;
          next = suc g.next;
        },
        ok g.next,
      )
      else (g, error limiter_error)

  -- `getLimiter`
  unfoldable pub get_limiter : Text → ℕ → ℕ → ℕ → Readings → ℕ → Gcra → Gcra × Result ℕ
  get_limiter key burst rate period r now g =
      let found = get text_discrete none (cache_key key burst rate period) r g.store in
      limiter_or_new key burst rate period now found.1 (record g { store = found.0 })

  -- The call of `RateLimitCtx` in `limit`, and what `gcraLimit` makes of it.
  unfoldable pub limited : Answer → ℕ → Result ℕ → Result (Bool × ℤ)
  limited answer cost (error e) = error e
  limited answer cost (ok l) = elim (answer l cost) [
    | none ↦ error rate_limit_error
    | some (over, retry_after) ↦ if over then ok (false, retry_after) else ok (true, pos 0)
  ]

  -- `gcraLimit`
  unfoldable pub gcra_limit :
      Answer → ℕ → ℕ → ℕ → ℕ → Text → Readings → ℕ → Gcra → Gcra × Result (Bool × ℤ)
  gcra_limit answer gcra_burst cost rate window key r now g =
      let burst = if ltb 0 gcra_burst then gcra_burst else rate in
      let (g', found) = get_limiter key burst rate window r now g in (g', limited answer cost found)

  -- `allow` of a limiter in memory
  unfoldable pub allow :
      Answer → ℕ → ℤ → ℤ → ℤ → Text → Readings → ℕ → Gcra → Gcra × Result (Bool × ℤ)
  allow answer gcra_burst (pos (suc cost)) (pos (suc rate)) (pos (suc window)) (k ∷ key) r now g =
      gcra_limit answer gcra_burst (suc cost) (suc rate) (suc window) (k ∷ key) r now g
  allow answer gcra_burst (pos (suc cost)) (pos (suc rate)) (pos (suc window)) [] r now g =
      (g, error key_error)
  allow answer gcra_burst (pos (suc cost)) (pos (suc rate)) _ key r now g = (g, error window_error)
  allow answer gcra_burst (pos (suc cost)) _ window key r now g = (g, error rate_error)
  allow answer gcra_burst _ rate window key r now g = (g, error cost_error)
