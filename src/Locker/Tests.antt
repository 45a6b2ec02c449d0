-- ===== src/Locker/Tests.antt =====
-- sync/prwlocker.go at a concrete schedule.
use rudder_go_kit.Prelude.{
  ℕ, ◌≡◌, refl, true, false, List, [], ◌∷◌, Option, none, some, ℕ_discrete, arith,
}
use rudder_go_kit.Prelude.Maps.{lookup, insert, delete}
use rudder_go_kit.Locker.{
  read, write, Ticket, Locker, new_locker, update, lock_info, enter, acquire, unlock, leave,
}
use rudder_go_kit.Prelude.Positions.{get_at, set_at, drop_at}
use rudder_go_kit.Locker.Invariant.{IsValid, new_locker-IsValid, enter-IsValid, acquire-IsValid}
use rudder_go_kit.Locker.Exclusion.{
  Event, enters, acquires, leaves, step, run, run-IsValid, holders_read,
}

program : Unit {0}
unfolding new_locker update get_at set_at drop_at lock_info enter acquire unlock leave step run
    lookup insert delete ℕ_discrete
program = tt

-- Two readers of partition 5; the writer that comes later waits.
abbrev busy : Locker
busy = acquire 0 (enter 5 read (acquire 0 (enter 5 read new_locker)))

tickets_of : Option Locker → List Ticket
tickets_of none = []
tickets_of (some p) = p.tickets

writer_waits :
    tickets_of (run (enters 5 write ∷ acquires 0 ∷ []) busy)
    ≡ record { id = 5; address = 0; mode = write; holds = false } ∷ busy.tickets
unfolding program tickets_of
writer_waits = refl

table_of : Option Locker → List (ℕ × ℕ)
table_of none = []
table_of (some p) = p.table

all_left : table_of (run (leaves 0 ∷ leaves 0 ∷ []) busy) ≡ []
unfolding program table_of
all_left = refl

busy-IsValid : IsValid busy
busy-IsValid =
    acquire-IsValid _
      (enter-IsValid _ (acquire-IsValid _ (enter-IsValid new_locker new_locker-IsValid 5 read) 0) 5
        read)
      0

run-IsValid_example :
    (q : Locker) × (run (enters 5 write ∷ leaves 1 ∷ leaves 1 ∷ acquires 0 ∷ []) busy ≡ some q)
    × IsValid q
run-IsValid_example =
    run-IsValid (enters 5 write ∷ leaves 1 ∷ leaves 1 ∷ acquires 0 ∷ []) busy busy-IsValid

abbrev reader : Ticket
reader = record { id = 5; address = 0; mode = read; holds = true }

two_readers : List Event
two_readers = enters 5 read ∷ acquires 0 ∷ enters 5 read ∷ acquires 0 ∷ []

busy_reached : run two_readers new_locker ≡ some busy
unfolding program two_readers
busy_reached = refl

holders_read_example : (reader.mode ≡ read) × (reader.mode ≡ read)
unfolding program
holders_read_example =
    holders_read two_readers busy 0 1 reader reader busy_reached (omega arith) refl refl refl refl
      refl
