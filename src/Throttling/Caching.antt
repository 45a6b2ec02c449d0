-- ===== src/Throttling/Caching.antt =====
-- throttling/memory_gcra.go: how long the limiter of a key is kept.
use native.Mathlib.Nat.{div-lt_iff_lt-mul}
use rudder_go_kit.Prelude.{
  Bool-cases, inl, inr, ℕ, suc, ◌+◌, ◌*◌, ◌/◌, ◌<◌, ◌≤◌, ◌≡◌, refl, ap, ◌∙◌, true, false, Option,
  none, some, ltb, arith, if◌then◌else◌,
}
use rudder_go_kit.Prelude.Int.{pos}
use rudder_go_kit.Config.Types.{Text, text_discrete}
use rudder_go_kit.CacheTtl.{Readings, add_duration, put}
use rudder_go_kit.CacheTtl.Invariant.{IsValid}
use rudder_go_kit.CacheTtl.Reads.{get-put}
use rudder_go_kit.Throttling.{
  Throttled, Gcra, ok, signed64, cache_time, cache_key, limiter_or_new, get_limiter,
}

not_before : (k n : ℕ) → n ≤ k → ltb k (n + 0) ≡ false
not_before k n h = ground (arith, h)

cache_time-small : (burst rate period : ℕ) → burst < rate → cache_time burst rate period ≡ pos 0
unfolding cache_time signed64
cache_time-small burst rate period h =
    let ratio : burst / rate < 1 =
      (div-lt_iff_lt-mul {k = rate} {x = burst} {y = 1} (omega (arith, h))).1 (omega (arith, h)) in
    let none_left : burst / rate ≡ 0 = omega (arith, ratio) in
    let product : burst / rate * period * 1_000_000_000 ≡ 0 = rw none_left (omega arith) in
    ap signed64 product

module _ (t : Throttled) where
  -- The state after a limiter was created at a time and cached.
  abbrev created : Text → ℕ → ℕ → ℕ → ℕ → Gcra → Gcra
  created key burst rate period now g = record g {
    store =
        put text_discrete (cache_key t key burst rate period) (some g.next)
          (cache_time burst rate period) now g.store;
    next = suc g.next;
  }

  limiter_or_new-created :
      (key : Text) (burst rate period now : ℕ) (g : Gcra)
      → t.creates rate period burst ≡ true
      → limiter_or_new t key burst rate period now none g
        ≡ (created key burst rate period now g, ok g.next)
  unfolding limiter_or_new
  limiter_or_new-created key burst rate period now g c = rw c refl

  result-none :
      (key : Text) (burst rate period now : ℕ) (o : Option ℕ) (g : Gcra)
      → t.creates rate period burst ≡ true
      → o ≡ none
      → (limiter_or_new t key burst rate period now o g).1 ≡ ok g.next
  unfolding limiter_or_new
  result-none key burst rate period now o g c e = rw (e, c) refl

  result-some :
      (key : Text) (burst rate period now l : ℕ) (o : Option ℕ) (g : Gcra)
      → o ≡ some l
      → (limiter_or_new t key burst rate period now o g).1 ≡ ok l
  unfolding limiter_or_new
  result-some key burst rate period now l o g e = rw e refl

  get_limiter-cached :
      (key : Text) (burst rate period now later : ℕ) (r : Readings) (g : Gcra)
      → IsValid text_discrete g.store
      → t.creates rate period burst ≡ true
      → (get_limiter t key burst rate period r later (created key burst rate period now g)).1 ≡ (
          if ltb r.check (add_duration now (cache_time burst rate period))
          then ok g.next
          else ok (suc g.next))
  unfolding get_limiter
  get_limiter-cached key burst rate period now later r g v c =
      let found =
        (get-put text_discrete none g.store (cache_key t key burst rate period)
          (cache_key t key burst rate period) (some g.next) (cache_time burst rate period) now r
          v).0 in
      elim (Bool-cases (ltb r.check (add_duration now (cache_time burst rate period)))) [
        | inl h ↦ rw h (result-some key burst rate period later g.next _ _ (found ∙ rw h refl))
        | inr h ↦ rw h (result-none key burst rate period later _ _ c (found ∙ rw h refl))
      ]

  -- A limiter that was created is used again by the next call for the same key, burst, rate and window
  -- until its time in the cache is over, and then a new one is created.
  pub get_limiter-created :
      (key : Text) (burst rate period now later : ℕ) (r : Readings) (g : Gcra)
      → IsValid text_discrete g.store
      → t.creates rate period burst ≡ true
      → (get_limiter t key burst rate period r later
          (limiter_or_new t key burst rate period now none g).0).1
        ≡ (if ltb r.check (add_duration now (cache_time burst rate period))
            then ok g.next
            else ok (suc g.next))
  get_limiter-created key burst rate period now later r g v c =
      rw (limiter_or_new-created key burst rate period now g c)
        (get_limiter-cached key burst rate period now later r g v c)

  -- With a burst below the rate a limiter is cached for no time: the next call for the same key, burst,
  -- rate and window, at any time after the first, makes a new one, which knows nothing of what the
  -- first one has counted.
  pub get_limiter_forgets :
      (key : Text) (burst rate period now later : ℕ) (r : Readings) (g : Gcra)
      → IsValid text_discrete g.store
      → t.creates rate period burst ≡ true
      → burst < rate
      → now ≤ r.check
      → (get_limiter t key burst rate period r later
          (limiter_or_new t key burst rate period now none g).0).1
        ≡ ok (suc g.next)
  unfolding add_duration
  get_limiter_forgets key burst rate period now later r g v c small after =
      get_limiter-created key burst rate period now later r g v c
      ∙ rw (cache_time-small burst rate period small) (rw (not_before r.check now after) refl)
