-- ===== src/ResourceTtl/Safety.antt =====
-- resourcettl/cache.go: when a resource is cleaned up, and what a checkout hands out.
use mathlib.Core.Path.{subst}
use rudder_go_kit.Prelude.{
  ℕ, zero, suc, ◌≡◌, ◌≢◌, true, false, refl, sym, ap, ◌∙◌, inl, inr, List, [], ◌∷◌, ◌++◌, Option,
  none, some, ◌==◌, ℕ_discrete, arith, Bool-cases, Option-cases, All, All-append, All-map,
}
use mathlib.Core.List.{append_assoc}
use rudder_go_kit.Prelude.Int.{ℤ, pos}
use rudder_go_kit.Prelude.Maps.{lookup, insert, delete, lookup-delete_self, lookup-delete_ne}
use rudder_go_kit.CacheTtl
use rudder_go_kit.CacheTtl.{Readings, Node}
use rudder_go_kit.ResourceTtl.{
  Cache, Checkin, decrement, count, set_count, is_zero, resource_of, on_evicted, on_evicted_all,
  ttl_get, hand_out, new_resource, checkout, invalidate, release, checkin,
}
use rudder_go_kit.ResourceTtl.Counts.{
  System, Call, checkouts, checkins, invalidates, Counted, pending, checkin_at, step, step-Counted,
}

none≢some : (n : ℤ) → none ≡ some n → ⊥
none≢some n e = cc

module _ {K R : Type 0} (dec : Discrete K) (zero_resource : R) where
  -- The cleanups that a part of a call adds, all of them with `P`.
  pub record Cleans (P : ℕ × R → Type 0) (c c' : Cache K R) : Type 0 where
    pub new : List (ℕ × R)
    pub added : c'.cleaned ≡ new ++ c.cleaned
    pub due : All P new

  Cleans-none : (P : ℕ × R → Type 0) (c c' : Cache K R) → c'.cleaned ≡ c.cleaned → Cleans P c c'
  Cleans-none P c c' e = record { new = []; added = e; due = tt }

  -- Two parts of a call; what holds of the cleanups of the second at its start holds at the first's.
  Cleans-trans :
      (P Q : ℕ × R → Type 0) (c d e : Cache K R)
      → ((x : ℕ × R) → Q x → P x)
      → Cleans P c d
      → Cleans Q d e
      → Cleans P c e
  Cleans-trans P Q c d e f p q = record {
    new = q.new ++ p.new;
    added = q.added ∙ ap (◌++◌ q.new) p.added ∙ sym (append_assoc q.new p.new c.cleaned);
    due = All-append _ q.new p.new (All-map _ _ q.new f q.due) p.due;
  }

  -- No checkout of the ID is counted, and the resource is the one that the cache has for it.
  abbrev IsIdle : Cache K R → ℕ × R → Type 0
  IsIdle c e =
      (lookup ℕ_discrete e.0 c.checkouts ≡ some (pos 0))
      × (e.1 ≡ resource_of dec zero_resource c e.0)

  -- The three cases of `onEvicted`.
  on_evicted-unknown :
      (i : ℕ) (c : Cache K R)
      → lookup ℕ_discrete i c.checkouts ≡ none
      → on_evicted dec zero_resource i c ≡ c
  unfolding on_evicted
  on_evicted-unknown i c e = rw (e, on_evicted) refl

  abbrev without : ℕ → Cache K R → Cache K R
  without i c = record c {
    resources = delete ℕ_discrete i c.resources;
    checkouts = delete ℕ_discrete i c.checkouts;
    cleaned = (i, resource_of dec zero_resource c i) ∷ c.cleaned;
  }

  on_evicted-idle :
      (i : ℕ) (n : ℤ) (c : Cache K R)
      → lookup ℕ_discrete i c.checkouts ≡ some n
      → is_zero n ≡ true
      → on_evicted dec zero_resource i c ≡ without i c
  unfolding on_evicted
  on_evicted-idle i n c e z = rw (e, on_evicted) (rw z refl)

  abbrev expiring : ℕ → Cache K R → Cache K R
  expiring i c = record c { expiries = insert ℕ_discrete i tt c.expiries }

  on_evicted-busy :
      (i : ℕ) (n : ℤ) (c : Cache K R)
      → lookup ℕ_discrete i c.checkouts ≡ some n
      → is_zero n ≡ false
      → on_evicted dec zero_resource i c ≡ expiring i c
  unfolding on_evicted
  on_evicted-busy i n c e z = rw (e, on_evicted) (rw z refl)

  is_zero-eq : (n : ℤ) → is_zero n ≡ true → n ≡ pos 0
  is_zero-eq n z = ground (arith, z)

  resource_of-without :
      (i : ℕ) (c : Cache K R) (id : ℕ)
      → i ≢ id
      → resource_of dec zero_resource (without i c) id ≡ resource_of dec zero_resource c id
  unfolding resource_of
  resource_of-without i c id n =
      rw (lookup-delete_ne ℕ_discrete i id c.resources n, resource_of) refl

  IsIdle-without : (i : ℕ) (c : Cache K R) (e : ℕ × R) → IsIdle (without i c) e → IsIdle c e
  IsIdle-without i c e h = elim (ℕ_discrete i e.0) [
    | yes p ↦ absurd (
        none≢some (pos 0) (
          sym (lookup-delete_self ℕ_discrete i c.checkouts)
          ∙ ap (λ k. lookup ℕ_discrete k (delete ℕ_discrete i c.checkouts)) p
          ∙ h.0))
    | no n ↦ (
      sym (lookup-delete_ne ℕ_discrete i e.0 c.checkouts n) ∙ h.0,
      h.1 ∙ resource_of-without i c e.0 n,
    )
  ]

  -- What is idle after a call of `onEvicted` was so before it.
  IsIdle-on_evicted :
      (i : ℕ) (c : Cache K R) (e : ℕ × R) → IsIdle (on_evicted dec zero_resource i c) e → IsIdle c e
  unfolding resource_of
  IsIdle-on_evicted i c e h = elim (Option-cases (lookup ℕ_discrete i c.checkouts)) [
    | inl u ↦ subst (λ d. IsIdle d e) (on_evicted-unknown i c u) h
    | inr (n, u) ↦ elim (Bool-cases (is_zero n)) [
      | inl z ↦ IsIdle-without i c e (subst (λ d. IsIdle d e) (on_evicted-idle i n c u z) h)
      | inr z ↦ subst (λ d. IsIdle d e) (on_evicted-busy i n c u z) h
    ]
  ]

  on_evicted-Cleans :
      (i : ℕ) (c : Cache K R) → Cleans (IsIdle c) c (on_evicted dec zero_resource i c)
  on_evicted-Cleans i c = elim (Option-cases (lookup ℕ_discrete i c.checkouts)) [
    | inl u ↦ Cleans-none _ c _ (ap (λ d. d.cleaned) (on_evicted-unknown i c u))
    | inr (n, u) ↦ elim (Bool-cases (is_zero n)) [
      | inl z ↦ record {
        new = (i, resource_of dec zero_resource c i) ∷ [];
        added = ap (λ d. d.cleaned) (on_evicted-idle i n c u z);
        due = ((u ∙ ap some (is_zero-eq n z), refl), tt);
      }
      | inr z ↦ Cleans-none _ c _ (ap (λ d. d.cleaned) (on_evicted-busy i n c u z))
    ]
  ]

  on_evicted_all-Cleans :
      (evicted : List (K × ℕ)) (c : Cache K R)
      → Cleans (IsIdle c) c (on_evicted_all dec zero_resource evicted c)
  unfolding on_evicted_all
  on_evicted_all-Cleans [] c = Cleans-none _ c c refl
  on_evicted_all-Cleans ((k, i) ∷ evicted) c =
      Cleans-trans _ _ c (on_evicted dec zero_resource i c) _ (IsIdle-on_evicted i c)
        (on_evicted-Cleans i c) (on_evicted_all-Cleans evicted (on_evicted dec zero_resource i c))

  IsIdle-on_evicted_all :
      (evicted : List (K × ℕ)) (c : Cache K R) (e : ℕ × R)
      → IsIdle (on_evicted_all dec zero_resource evicted c) e
      → IsIdle c e
  unfolding on_evicted_all
  IsIdle-on_evicted_all [] c e h = h
  IsIdle-on_evicted_all ((k, i) ∷ evicted) c e h =
      IsIdle-on_evicted i c e (IsIdle-on_evicted_all evicted (on_evicted dec zero_resource i c) e h)

  abbrev with_ttlcache : CacheTtl.Cache K ℕ → Cache K R → Cache K R
  with_ttlcache t c = record c { ttlcache = t }

  -- The ttl cache is no part of what is idle.
  IsIdle-ttlcache :
      (t : CacheTtl.Cache K ℕ) (c : Cache K R) (e : ℕ × R)
      → IsIdle (with_ttlcache t c) e
      → IsIdle c e
  unfolding resource_of
  IsIdle-ttlcache t c e h = h

  Cleans-ttlcache :
      (t : CacheTtl.Cache K ℕ) (c d : Cache K R)
      → Cleans (IsIdle (with_ttlcache t c)) (with_ttlcache t c) d
      → Cleans (IsIdle c) c d
  Cleans-ttlcache t c d p = record {
    new = p.new;
    added = p.added;
    due = All-map _ _ p.new (IsIdle-ttlcache t c) p.due;
  }

  ttl_get-Cleans :
      (key : K) (r : Readings) (c : Cache K R)
      → Cleans (IsIdle c) c (ttl_get dec zero_resource key r c).0
  unfolding ttl_get
  ttl_get-Cleans key r c = Cleans-ttlcache _ c _ (on_evicted_all-Cleans _ _)

  IsIdle-ttl_get :
      (key : K) (r : Readings) (c : Cache K R) (e : ℕ × R)
      → IsIdle (ttl_get dec zero_resource key r c).0 e
      → IsIdle c e
  unfolding ttl_get
  IsIdle-ttl_get key r c e h = IsIdle-ttlcache _ c e (IsIdle-on_evicted_all _ _ e h)

  checkout-Cleans :
      (key : K) (created : Option R) (fresh : ℕ) (r : Readings) (now : ℕ) (c : Cache K R)
      → Cleans (IsIdle c) c (checkout dec zero_resource key created fresh r now c).0
  unfolding checkout new_resource hand_out set_count
  checkout-Cleans key none fresh r now c =
      Cleans-trans _ _ c _ _ (λ e h. h) (ttl_get-Cleans key r c) (Cleans-none _ _ _ (ground arith))
  checkout-Cleans key (some x) fresh r now c =
      Cleans-trans _ _ c _ _ (λ e h. h) (ttl_get-Cleans key r c) (Cleans-none _ _ _ (ground arith))

  invalidate-Cleans :
      (key : K) (r : Readings) (now : ℕ) (c : Cache K R)
      → Cleans (IsIdle c) c (invalidate dec zero_resource key r now c)
  unfolding invalidate
  invalidate-Cleans key r now c =
      let c' = (ttl_get dec zero_resource key r c).0 in
      let i = (ttl_get dec zero_resource key r c).1 in
      let first = ttl_get-Cleans key r c in
      elim (Bool-cases (i == 0)) [
        | inl absent ↦ rw absent first
        | inr there ↦ rw there (
            Cleans-trans _ _ c c' _ (IsIdle-ttl_get key r c) first
              (Cleans-ttlcache _ c' _ (on_evicted-Cleans i _)))
      ]

  -- What a checkin cleans up: the resource and the ID of its own, with no checkout counted then.
  abbrev IsReleased : Checkin R → Cache K R → ℕ × R → Type 0
  IsReleased h c' e = (e ≡ (h.id, h.resource)) × (count c'.checkouts e.0 ≡ pos 0)

  release-Cleans :
      (h : Checkin R) (c : Cache K R)
      → Cleans
          (IsReleased h (release dec zero_resource h.resource h.id c))
          c
          (release dec zero_resource h.resource h.id c)
  unfolding release
  release-Cleans h c =
      let c' = set_count h.id (decrement (count c.checkouts h.id)) c in
      elim (Option-cases (lookup ℕ_discrete h.id c.expiries)) [
        | inl e ↦ Cleans-none _ c _ (ground arith)
        | inr (_, e) ↦ elim (Bool-cases (is_zero (count c'.checkouts h.id))) [
          | inl z ↦ record {
            new = (h.id, h.resource) ∷ [];
            added = ground arith;
            due = ((refl, ground arith), tt);
          }
          | inr z ↦ Cleans-none _ c _ (ground arith)
        ]
      ]

  -- The cleanups of the `i`-th returned function.
  abbrev pub IsCheckedIn : ℕ → List (Checkin R) → Cache K R → ℕ × R → Type 0
  IsCheckedIn i [] c' e = ⊥
  IsCheckedIn zero (h ∷ hs) c' e = (h.done ≡ false) × IsReleased h c' e
  IsCheckedIn (suc i) (h ∷ hs) c' e = IsCheckedIn i hs c' e

  checkin_at-Cleans :
      (i : ℕ) (hs : List (Checkin R)) (c : Cache K R)
      → Cleans
          (IsCheckedIn i hs (checkin_at dec zero_resource i hs c).0)
          c
          (checkin_at dec zero_resource i hs c).0
  unfolding checkin_at checkin
  checkin_at-Cleans i [] c = Cleans-none _ c c refl
  checkin_at-Cleans zero (h ∷ hs) c = elim (Bool-cases h.done) [
    | inl d ↦ rw d (Cleans-none _ c c refl)
    | inr d ↦
        let p = release-Cleans h c in
        rw d (record {
          new = p.new;
          added = p.added;
          due = All-map _ _ p.new (λ e q. (refl, q)) p.due;
        })
  ]
  checkin_at-Cleans (suc i) (h ∷ hs) c = checkin_at-Cleans i hs c

  -- What a call may clean up. A checkout and an invalidation: the resource that the cache has for its
  -- ID, with no pending checkin of the ID. The call of a function that a checkout returned: the ID and
  -- the resource of that checkout, with no pending checkin of the ID after the call.
  abbrev pub IsDue : Call K R → System K R → ℕ × R → Type 0
  IsDue (checkins i) s e =
      let s' = step dec zero_resource (checkins i) s in
      IsCheckedIn i s.handles s'.cache e × (pending e.0 s'.handles ≡ 0)
  IsDue (checkouts key created fresh r now) s e =
      (e.1 ≡ resource_of dec zero_resource s.cache e.0) × (pending e.0 s.handles ≡ 0)
  IsDue (invalidates key r now) s e =
      (e.1 ≡ resource_of dec zero_resource s.cache e.0) × (pending e.0 s.handles ≡ 0)

  IsIdle-pending :
      (s : System K R) (e : ℕ × R)
      → Counted s
      → IsIdle s.cache e
      → (e.1 ≡ resource_of dec zero_resource s.cache e.0) × (pending e.0 s.handles ≡ 0)
  unfolding count
  IsIdle-pending s e h q = (q.1, ground (arith, h e.0, q.0))

  IsCheckedIn-count :
      (i : ℕ) (hs : List (Checkin R)) (c' : Cache K R) (e : ℕ × R)
      → IsCheckedIn i hs c' e
      → count c'.checkouts e.0 ≡ pos 0
  IsCheckedIn-count i [] c' e q = absurd q
  IsCheckedIn-count zero (h ∷ hs) c' e q = q.1.1
  IsCheckedIn-count (suc i) (h ∷ hs) c' e q = IsCheckedIn-count i hs c' e q

  Cleans-weaken :
      (P Q : ℕ × R → Type 0) (c c' : Cache K R)
      → ((e : ℕ × R) → P e → Q e)
      → Cleans P c c'
      → Cleans Q c c'
  Cleans-weaken P Q c c' f p = record {
    new = p.new;
    added = p.added;
    due = All-map _ _ p.new f p.due;
  }

  -- If every counter is the number of pending checkins, a checkout and an invalidation clean up only
  -- IDs with no pending checkin before the call, and for each ID the resource that the cache had for
  -- it then; a checkin cleans up at most its own ID and the resource that was checked out with it, if
  -- it has not run before and no checkin of the ID is pending after it.
  pub step-Cleans :
      (call : Call K R) (s : System K R)
      → Counted s
      → Cleans (IsDue call s) s.cache (step dec zero_resource call s).cache
  unfolding step
  step-Cleans (checkouts key created fresh r now) s h =
      Cleans-weaken _ _ s.cache _ (λ e q. IsIdle-pending s e h q)
        (checkout-Cleans key created fresh r now s.cache)
  step-Cleans (checkins i) s h =
      let h' = step-Counted dec zero_resource (checkins i) s h in
      let c' = (checkin_at dec zero_resource i s.handles s.cache).0 in
      Cleans-weaken _ _ s.cache _
        (λ e q. (q, ground (arith, h' e.0, IsCheckedIn-count i s.handles c' e q)))
        (checkin_at-Cleans i s.handles s.cache)
  step-Cleans (invalidates key r now) s h =
      Cleans-weaken _ _ s.cache _ (λ e q. IsIdle-pending s e h q)
        (invalidate-Cleans key r now s.cache)
