-- ===== src/Locker.antt =====
-- sync/prwlocker.go: read-write locks by partition, made on demand and dropped with their last
-- reference. Each `*rwLockInfo` is an address. A goroutine is a `Ticket` from the moment that it has
-- counted itself in to its unlock; what it does under `p.l` is one step, and so is the moment at which
-- the partition's mutex lets it in.
pub mod Invariant
pub mod Exclusion
mod Tests
use rudder_go_kit.Prelude.{
  ℕ, zero, suc, ◌+◌, ◌-◌, Bool, true, false, ◌&&◌, List, [], ◌∷◌, Option, none, some, if◌then◌else◌,
  ◌==◌, ℕ_discrete,
}
use rudder_go_kit.Prelude.Positions.{get_at, set_at, drop_at}
use rudder_go_kit.Prelude.Maps.{lookup, insert, delete}

pub data Mode : Type 0 where
  read write : Mode

-- `rwLockInfo`; the state of a `sync.RWMutex` is the number of its readers and of its writers.
pub record LockInfo : Type 0 where
  pub refs : ℕ
  pub readers : ℕ
  pub writers : ℕ

pub record Ticket : Type 0 where
  pub id : ℕ
  pub address : ℕ
  pub mode : Mode
  pub holds : Bool

pub record Locker : Type 0 where
  pub table : List (ℕ × ℕ)
  pub infos : ℕ → LockInfo
  pub next : ℕ
  pub tickets : List Ticket

abbrev pub no_info : LockInfo
no_info = record { refs = 0; readers = 0; writers = 0 }

unfoldable pub new_locker : Locker
new_locker = record { table = []; infos = λ a. no_info; next = 0; tickets = [] }

unfoldable pub update : (ℕ → LockInfo) → ℕ → LockInfo → ℕ → LockInfo
update f a v b = if a == b then v else f b

-- `lockInfo`: the address of the partition's lock, made if it is not there.
unfoldable pub lock_info : ℕ → Locker → Locker × ℕ
lock_info id p = elim (lookup ℕ_discrete id p.table) [
  | none ↦ (
    record p {
      table = insert ℕ_discrete id p.next p.table;
      infos = update p.infos p.next no_info;
      next = suc p.next;
    },
    p.next,
  )
  | some a ↦ (p, a)
]

-- `Lock` and `RLock` up to the wait for `li.mu`.
unfoldable pub enter : ℕ → Mode → Locker → Locker
enter id mode p =
    let (p', a) = lock_info id p in
    let li = p'.infos a in
    record p' {
      infos = update p'.infos a (record li { refs = li.refs + 1 });
      tickets = record { id = id; address = a; mode = mode; holds = false } ∷ p'.tickets;
    }

-- What `li.mu.Lock()` and `li.mu.RLock()` wait for, and what they do then.
abbrev pub admits : Mode → LockInfo → Bool
admits read li = li.writers == 0
admits write li = li.writers == 0 && li.readers == 0

abbrev pub admit : Mode → LockInfo → LockInfo
admit read li = record li { readers = li.readers + 1 }
admit write li = record li { writers = li.writers + 1 }

-- `li.mu.Unlock()` and `li.mu.RUnlock()`; `none` is the panic on a mutex that is not held.
abbrev pub release : Mode → LockInfo → Option LockInfo
release read li = if li.readers == 0 then none else some (record li { readers = li.readers - 1 })
release write li = if li.writers == 0 then none else some (record li { writers = li.writers - 1 })

-- The `i`-th ticket gets its lock, if it may.
unfoldable pub acquire : ℕ → Locker → Locker
acquire i p = elim (get_at i p.tickets) [
  | none ↦ p
  | some t ↦
      if t.holds
      then p
      else if admits t.mode (p.infos t.address)
      then record p {
        infos = update p.infos t.address (admit t.mode (p.infos t.address));
        tickets = set_at i (record t { holds = true }) p.tickets;
      }
      else p
]

-- `Unlock` and `RUnlock` of a partition: `none` is the panic.
unfoldable pub unlock : ℕ → Mode → Locker → Option Locker
unlock id mode p =
    let (p', a) = lock_info id p in
    elim (release mode (p'.infos a)) [
      | none ↦ none
      | some li ↦
          let left = li.refs - 1 in
          some (record p' {
            infos = update p'.infos a (record li { refs = left });
            table = if left == 0 then delete ℕ_discrete id p'.table else p'.table;
          })
    ]

-- The `i`-th ticket, which holds its lock, gives it back.
unfoldable pub leave : ℕ → Locker → Option Locker
leave i p = elim (get_at i p.tickets) [
  | none ↦ some p
  | some t ↦
      if t.holds
      then elim (unlock t.id t.mode p) [
        | none ↦ none
        | some p' ↦ some (record p' { tickets = drop_at i p'.tickets })
      ]
      else some p
]
