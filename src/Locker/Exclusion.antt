-- ===== src/Locker/Exclusion.antt =====
-- sync/prwlocker.go: any schedule of goroutines, mutual exclusion, and the entries of the table.
use mathlib.Core.Path.{subst}
use mathlib.Core.Option.{some-injective}
use rudder_go_kit.Prelude.{
  ℕ, ◌≡◌, ◌≢◌, ◌↔◌, inl, inr, refl, sym, ap, ◌∙◌, Bool, true, false, List, [], ◌∷◌, Option, none,
  some, ℕ_discrete, arith, Option-cases,
}
use rudder_go_kit.Prelude.Maps.{lookup}
use rudder_go_kit.Locker.{Mode, read, write, Ticket, Locker, new_locker, enter, acquire, leave}
use rudder_go_kit.Prelude.Positions.{get_at, count, count-pos, count-two, Every, Every-get_at}
use rudder_go_kit.Locker.Invariant.{
  IsValid, new_locker-IsValid, at, reads, writes, mode_cases, enter-IsValid, acquire-IsValid,
  leave-IsValid,
}

-- A goroutine asks for a lock, is let in, or gives its lock back.
pub data Event : Type 0 where
  enters : ℕ → Mode → Event
  acquires : ℕ → Event
  leaves : ℕ → Event

unfoldable pub step : Event → Locker → Option Locker
step (enters id mode) p = some (enter id mode p)
step (acquires i) p = some (acquire i p)
step (leaves i) p = leave i p

-- `none` if some step panics.
unfoldable pub run : List Event → Locker → Option Locker
run [] p = some p
run (ev ∷ evs) p = elim (step ev p) [ none ↦ none | some q ↦ run evs q ]

step-IsValid :
    (ev : Event) (p : Locker) → IsValid p → (q : Locker) × (step ev p ≡ some q) × IsValid q
unfolding step
step-IsValid (enters id mode) p v = (enter id mode p, refl, enter-IsValid p v id mode)
step-IsValid (acquires i) p v = (acquire i p, refl, acquire-IsValid p v i)
step-IsValid (leaves i) p v = leave-IsValid p v i

-- No schedule of goroutines that unlock only what they hold panics, and the invariant holds after it.
pub run-IsValid :
    (evs : List Event) (p : Locker) → IsValid p → (q : Locker) × (run evs p ≡ some q) × IsValid q
unfolding run
run-IsValid [] p v = (p, refl, v)
run-IsValid (ev ∷ evs) p v =
    let (q, e, w) = step-IsValid ev p v in
    let (r, f, x) = run-IsValid evs q w in (r, rw (e, run) f, x)

-- What a schedule reaches from a new lock is valid.
reached-IsValid : (evs : List Event) (p : Locker) → run evs new_locker ≡ some p → IsValid p
reached-IsValid evs p reached =
    let (q, e, v) = run-IsValid evs new_locker new_locker-IsValid in
    subst IsValid (some-injective q p (sym e ∙ reached)) v

module _ (p : Locker) (v : IsValid p) (i j : ℕ) (t u : Ticket) where
  writer-excludes :
      i ≢ j
      → get_at i p.tickets ≡ some t
      → get_at j p.tickets ≡ some u
      → t.address ≡ u.address
      → t.holds ≡ true
      → u.holds ≡ true
      → t.mode ≡ write
      → ⊥
  writer-excludes differ e f same ht hu w = elim (mode_cases u.mode) [
    | inl r ↦ ground (
      arith,
      v.exclusive t.address,
      v.readers t.address,
      v.writers t.address,
      count-pos (writes t.address) i t p.tickets e,
      count-pos (reads t.address) j u p.tickets f,
    )
    | inr w' ↦ ground (
      arith,
      v.one_writer t.address,
      v.writers t.address,
      count-two (writes t.address) i j t u p.tickets,
      count-two (writes t.address) j i u t p.tickets,
    )
  ]

holders_read_valid :
    (p : Locker) (i j : ℕ) (t u : Ticket)
    → IsValid p
    → i ≢ j
    → get_at i p.tickets ≡ some t
    → get_at j p.tickets ≡ some u
    → t.id ≡ u.id
    → t.holds ≡ true
    → u.holds ≡ true
    → (t.mode ≡ read) × (u.mode ≡ read)
holders_read_valid p i j t u v differ e f same ht hu =
    let place : t.address ≡ u.address =
      ground
        (arith, Every-get_at _ i t p.tickets v.agree e, Every-get_at _ j u p.tickets v.agree f) in
    (
      elim (mode_cases t.mode) [
        | inl r ↦ r
        | inr w ↦ absurd (writer-excludes p v i j t u differ e f place ht hu w)
      ],
      elim (mode_cases u.mode) [
        | inl r ↦ r
        | inr w ↦ absurd (writer-excludes p v j i u t (λ h. differ (sym h)) f e (sym place) hu ht w)
      ],
    )

-- From a new lock, after any schedule that does not panic, two goroutines hold the lock of one
-- partition at once only if both hold it for reading.
pub holders_read :
    (evs : List Event) (p : Locker) (i j : ℕ) (t u : Ticket)
    → run evs new_locker ≡ some p
    → i ≢ j
    → get_at i p.tickets ≡ some t
    → get_at j p.tickets ≡ some u
    → t.id ≡ u.id
    → t.holds ≡ true
    → u.holds ≡ true
    → (t.mode ≡ read) × (u.mode ≡ read)
holders_read evs p i j t u reached differ e f same ht hu =
    holders_read_valid p i j t u (reached-IsValid evs p reached) differ e f same ht hu

count-none :
    (P : Ticket → Type 0) (test : Ticket → Bool) (ts : List Ticket)
    → ((t : Ticket) → P t → test t ≡ false)
    → Every P ts
    → count test ts ≡ 0
unfolding count
count-none P test [] f h = refl
count-none P test (t ∷ ts) f h = ground (arith, f t h.0, count-none P test ts f h.1)

Every-both :
    (P Q R : Ticket → Type 0) (ts : List Ticket)
    → ((t : Ticket) → P t → Q t → R t)
    → Every P ts
    → Every Q ts
    → Every R ts
Every-both P Q R [] f h k = tt
Every-both P Q R (t ∷ ts) f h k = (f t h.0 k.0, Every-both P Q R ts f h.1 k.1)

-- A partition has an entry in the table exactly as long as some goroutine waits for its lock or holds
-- it: the last unlock drops the entry.
pub table_none_iff :
    (p : Locker) (id : ℕ)
    → IsValid p
    → (lookup ℕ_discrete id p.table ≡ none) ↔ Every (λ t. t.id ≢ id) p.tickets
table_none_iff p id v = (
  λ e. Every-both _ _ _ p.tickets (λ t h k same. ground arith) v.agree v.agree,
  λ free. elim (Option-cases (lookup ℕ_discrete id p.table)) [
    | inl e ↦ e
    | inr (a, e) ↦
        let empty =
          count-none (λ t. t.address ≢ a) (at a) p.tickets (λ t h. ground arith)
            (Every-both _ _ _ p.tickets (λ t h k same. k (v.apart t.id id a (h ∙ ap some same) e))
              v.agree free) in
        absurd (omega (arith, v.used id a e, v.refs a, empty))
  ],
)
