-- ===== src/Locker/Invariant.antt =====
-- sync/prwlocker.go: what every step keeps, and mutual exclusion.
use rudder_go_kit.Prelude.{
  ℕ, ◌-◌, ◌≤◌, ◌<◌, ◌≡◌, ◌≢◌, ◌⊎◌, inl, inr, refl, ap, Bool, true, false, ◌&&◌, none, some,
  if◌then◌else◌, ◌==◌, ℕ_discrete, arith, Bool-cases, Option-cases, ltb, ltb→lt,
}
use rudder_go_kit.Prelude.Maps.{
  lookup, delete, lookup-insert_self, lookup-insert_ne, lookup-delete_self, lookup-delete_ne,
}
use rudder_go_kit.Locker.{
  Mode, read, write, LockInfo, Ticket, Locker, no_info, new_locker, update, lock_info, enter,
  admits, admit, acquire, unlock, leave,
}
use rudder_go_kit.Prelude.Positions.{
  get_at, set_at, drop_at, count, count-set_at, count-drop_at, count-pos, Every, Every-get_at,
  Every-set_at, Every-drop_at, Every-weaken, Every-map,
}

abbrev is_read : Mode → Bool
is_read read = true
is_read write = false

-- The tickets of an address, and those of them that hold the lock for reading and for writing.
abbrev pub at : ℕ → Ticket → Bool
at a t = t.address == a

abbrev pub reads : ℕ → Ticket → Bool
reads a t = t.address == a && (t.holds && is_read t.mode)

abbrev pub writes : ℕ → Ticket → Bool
writes a t = t.address == a && (t.holds && (if is_read t.mode then false else true))

pub record IsValid (p : Locker) : Type 0 where
  pub agree : Every (λ t. lookup ℕ_discrete t.id p.table ≡ some t.address) p.tickets
  pub refs : (a : ℕ) → (p.infos a).refs ≡ count (at a) p.tickets
  pub readers : (a : ℕ) → (p.infos a).readers ≡ count (reads a) p.tickets
  pub writers : (a : ℕ) → (p.infos a).writers ≡ count (writes a) p.tickets
  pub one_writer : (a : ℕ) → (p.infos a).writers ≤ 1
  pub exclusive : (a : ℕ) → ((p.infos a).writers ≡ 0) ⊎ ((p.infos a).readers ≡ 0)
  pub used : (id a : ℕ) → lookup ℕ_discrete id p.table ≡ some a → 0 < (p.infos a).refs
  pub apart :
      (id j a : ℕ)
      → lookup ℕ_discrete id p.table ≡ some a
      → lookup ℕ_discrete j p.table ≡ some a
      → id ≡ j
  pub fresh : (a : ℕ) → p.next ≤ a → p.infos a ≡ no_info

pub mode_cases : (m : Mode) → (m ≡ read) ⊎ (m ≡ write)
mode_cases read = inl refl
mode_cases write = inr refl

pub new_locker-IsValid : IsValid new_locker
unfolding new_locker lookup count
new_locker-IsValid = record {
  agree = tt;
  refs = λ a. refl;
  readers = λ a. refl;
  writers = λ a. refl;
  one_writer = λ a. omega arith;
  exclusive = λ a. inl refl;
  used = λ id a e. absurd (ground arith);
  apart = λ id j a e f. absurd (ground arith);
  fresh = λ a h. refl;
}

-- Addresses of the table have been given out.
table-lt : (p : Locker) (id a : ℕ) → IsValid p → lookup ℕ_discrete id p.table ≡ some a → a < p.next
table-lt p id a v e = elim (Bool-cases (ltb a p.next)) [
  | inl h ↦ ltb→lt _ _ h
  | inr h ↦ absurd (omega (arith, v.used id a e, ap (λ li. li.refs) (v.fresh a (ground arith))))
]

module _ (p : Locker) (v : IsValid p) (id : ℕ) (mode : Mode) where
  enter_known : (a : ℕ) → lookup ℕ_discrete id p.table ≡ some a → IsValid (enter id mode p)
  unfolding enter lock_info update count
  enter_known a e =
      rw (e, enter, lock_info)
        (record {
          agree = (e, v.agree);
          refs = λ b. ground (arith, v.refs b);
          readers = λ b. ground (arith, v.readers b);
          writers = λ b. ground (arith, v.writers b);
          one_writer = λ b. ground (arith, v.one_writer b);
          exclusive = λ b. ground (arith, v.exclusive b);
          used = λ j b h. ground (arith, v.used j b h);
          apart = v.apart;
          fresh = λ b h. ground (arith, v.fresh b h, table-lt p id a v e);
        })

  enter_new : lookup ℕ_discrete id p.table ≡ none → IsValid (enter id mode p)
  unfolding enter lock_info update count
  enter_new e =
      let f = v.fresh p.next (omega arith) in
      rw (e, enter, lock_info)
        (record {
          agree = (
            lookup-insert_self ℕ_discrete id p.next p.table,
            Every-map _ _ p.tickets
                (λ t h. ground (arith, lookup-insert_ne ℕ_discrete id t.id p.next p.table)) v.agree,
          );
          refs = λ b. ground (arith, v.refs b, f);
          readers = λ b. ground (arith, v.readers b, f);
          writers = λ b. ground (arith, v.writers b, f);
          one_writer = λ b. ground (arith, v.one_writer b);
          exclusive = λ b. ground (arith, v.exclusive b);
          used = λ j b h. ground (
            arith,
            v.used j b,
            lookup-insert_self ℕ_discrete id p.next p.table,
            lookup-insert_ne ℕ_discrete id j p.next p.table,
          );
          apart = λ i j b g h. ground (
            arith,
            v.apart i j b,
            lookup-insert_self ℕ_discrete id p.next p.table,
            lookup-insert_ne ℕ_discrete id i p.next p.table,
            lookup-insert_ne ℕ_discrete id j p.next p.table,
            table-lt p i b v,
            table-lt p j b v,
          );
          fresh = λ b h. ground (arith, v.fresh b);
        })

  -- To ask for a lock keeps the invariant.
  pub enter-IsValid : IsValid (enter id mode p)
  enter-IsValid = elim (Option-cases (lookup ℕ_discrete id p.table)) [
    | inl e ↦ enter_new e
    | inr (a, e) ↦ enter_known a e
  ]

module _ (p : Locker) (v : IsValid p) (i : ℕ) where
  acquire_admitted :
      (t : Ticket)
      → get_at i p.tickets ≡ some t
      → t.holds ≡ false
      → admits t.mode (p.infos t.address) ≡ true
      → IsValid (record p {
        infos = update p.infos t.address (admit t.mode (p.infos t.address));
        tickets = set_at i (record t { holds = true }) p.tickets;
      })
  unfolding update
  acquire_admitted t e waits may =
      let t' : Ticket = record t { holds = true } in
      record {
        agree = Every-set_at _ i t' p.tickets v.agree (Every-get_at _ i t p.tickets v.agree e);
        refs = λ b. ground (arith, v.refs b, count-set_at (at b) i t' t p.tickets);
        readers = λ b. ground (arith, v.readers b, count-set_at (reads b) i t' t p.tickets);
        writers = λ b. ground (arith, v.writers b, count-set_at (writes b) i t' t p.tickets);
        one_writer = λ b. ground (arith, v.one_writer b);
        exclusive = λ b. ground (arith, v.exclusive b);
        used = λ j b h. ground (arith, v.used j b h);
        apart = v.apart;
        fresh = λ b h. ground (
          arith,
          v.fresh b h,
          table-lt p t.id t.address v (Every-get_at _ i t p.tickets v.agree e),
        );
      }

  -- To be let in by the mutex keeps the invariant.
  pub acquire-IsValid : IsValid (acquire i p)
  unfolding acquire
  acquire-IsValid = elim (Option-cases (get_at i p.tickets)) [
    | inl e ↦ rw (e, acquire) v
    | inr (t, e) ↦ elim (Bool-cases t.holds) [
      | inl h ↦ rw (e, acquire, h) v
      | inr h ↦ elim (Bool-cases (admits t.mode (p.infos t.address))) [
        | inl may ↦ rw (e, acquire, h, may) (acquire_admitted t e h may)
        | inr may ↦ rw (e, acquire, h, may) v
      ]
    ]
  ]

  -- The lock after its ticket `t` has left.
  module _ (t : Ticket) (e : get_at i p.tickets ≡ some t) (holding : t.holds ≡ true) where
    left_info : LockInfo
    left_info =
        let li = p.infos t.address in
        record {
          refs = li.refs - 1;
          readers = if is_read t.mode then li.readers - 1 else li.readers;
          writers = if is_read t.mode then li.writers else li.writers - 1;
        }

    after : Locker
    unfolding left_info
    after = record p {
      infos = update p.infos t.address left_info;
      table = if left_info.refs == 0 then delete ℕ_discrete t.id p.table else p.table;
      tickets = drop_at i p.tickets;
    }

    listed : lookup ℕ_discrete t.id p.table ≡ some t.address
    listed = Every-get_at _ i t p.tickets v.agree e

    -- The mutex is held, so its unlock does not panic.
    leave-after : leave i p ≡ some after
    unfolding leave unlock lock_info after left_info
    leave-after = elim (mode_cases t.mode) [
      | inl r ↦
          ground (arith, listed, v.readers t.address, count-pos (reads t.address) i t p.tickets e)
      | inr w ↦
          ground (arith, listed, v.writers t.address, count-pos (writes t.address) i t p.tickets e)
    ]

    others :
        (u : Ticket)
        → lookup ℕ_discrete u.id p.table ≡ some u.address
        → u.address ≢ t.address
        → lookup ℕ_discrete u.id (delete ℕ_discrete t.id p.table) ≡ some u.address
    others u h other = ground (arith, listed, lookup-delete_ne ℕ_discrete t.id u.id p.table)

    after-IsValid : IsValid after
    unfolding after update
    after-IsValid = record {
      agree = elim (Bool-cases (left_info.refs == 0)) [
        | inl last ↦ rw last (
            Every-weaken _ _ (at t.address) _ (λ u h other. others u h (ground arith))
              (Every-drop_at _ i p.tickets v.agree)
              (ground (arith, v.refs t.address, count-drop_at (at t.address) i t p.tickets)))
        | inr more ↦ rw more (Every-drop_at _ i p.tickets v.agree)
      ];
      refs = λ b. ground (arith, v.refs b, count-drop_at (at b) i t p.tickets);
      readers = λ b. ground (arith, v.readers b, count-drop_at (reads b) i t p.tickets);
      writers = λ b. ground (arith, v.writers b, count-drop_at (writes b) i t p.tickets);
      one_writer = λ b. ground (arith, v.one_writer b);
      exclusive = λ b. ground (arith, v.exclusive b);
      used = λ j b h. ground (
        arith,
        listed,
        v.used j b,
        v.apart j t.id b,
        lookup-delete_self ℕ_discrete t.id p.table,
        lookup-delete_ne ℕ_discrete t.id j p.table,
      );
      apart = λ j k b g h. ground (
        arith,
        v.apart j k b,
        lookup-delete_self ℕ_discrete t.id p.table,
        lookup-delete_ne ℕ_discrete t.id j p.table,
        lookup-delete_ne ℕ_discrete t.id k p.table,
      );
      fresh = λ b h. ground (arith, v.fresh b h, table-lt p t.id t.address v listed);
    }

  -- Giving a lock back that is held never panics, and keeps the invariant.
  pub leave-IsValid : (q : Locker) × (leave i p ≡ some q) × IsValid q
  unfolding leave
  leave-IsValid = elim (Option-cases (get_at i p.tickets)) [
    | inl e ↦ (p, rw (e, leave), v)
    | inr (t, e) ↦ elim (Bool-cases t.holds) [
      | inl h ↦ (after t e h, leave-after t e h, after-IsValid t e h)
      | inr h ↦ (p, rw (e, leave, h), v)
    ]
  ]
