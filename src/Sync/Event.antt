-- ===== src/Sync/Event.antt =====
-- include/sephi/sync/event.h and src/sync/event.cpp: an event that threads set and wait for.
--
-- Any number of threads run `set` and `wait`, a shared access at a time, in any interleaving. The
-- mutex and the condition variable are those of the standard library: waiting on the condition
-- releases the mutex and falls asleep in one step, `notify_one` wakes one sleeper if there is one,
-- and a sleeper may also wake up for no reason.
mod Invariant
mod Wakeups
mod Progress
mod Examples
use sephi.Base.{ℕ, ◌+◌, ◌≡◌, ◌≢◌, Bool, true, false, Option, none, some, if◌then◌else◌, ◌==◌}

-- Where a thread stands.
pub data Pc : Type 0 where
  outside : Pc  -- in neither method
  set_locked : Pc  -- `set`, before `flag_ = true`
  set_raised : Pc  -- before `notify_one`
  set_notified : Pc  -- before the guard is destroyed
  testing : Pc  -- `wait`, before the predicate is tested, with the mutex
  asleep : Pc  -- in `condition_.wait`, without the mutex
  awake : Pc  -- woken, before the mutex is taken again
  passed : Pc  -- before `flag_ = false`
  lowered : Pc  -- before the guard is destroyed

-- `sets` and `waits` count the assignments of true and of false to the flag.
pub record Event : Type 0 where
  pub flag : Bool
  pub owner : Option ℕ
  pub pc : ℕ → Pc
  pub sets : ℕ
  pub waits : ℕ

unfoldable pub initial : Event
initial = record { flag = false; owner = none; pc = λ _. outside; sets = 0; waits = 0 }

abbrev pub update : (ℕ → Pc) → ℕ → Pc → ℕ → Pc
update pc i p j = if i == j then p else pc j

abbrev pub goto : ℕ → Pc → Event → Event
goto i p e = record e { pc = update e.pc i p }

-- One shared access of thread `i`.
pub data Step (e : Event) : Event → Type 0 where
  set_locks :
      (i : ℕ)
      → e.pc i ≡ outside
      → e.owner ≡ none
      → Step e (goto i set_locked (record e { owner = some i }))
  raises :
      (i : ℕ)
      → e.pc i ≡ set_locked
      → Step e (goto i set_raised (record e { flag = true; sets = e.sets + 1 }))
  notifies :
      (i j : ℕ)
      → e.pc i ≡ set_raised
      → e.pc j ≡ asleep
      → Step e (goto i set_notified (goto j awake e))
  notifies_nobody :
      (i : ℕ) → e.pc i ≡ set_raised → ((j : ℕ) → e.pc j ≢ asleep) → Step e (goto i set_notified e)
  set_unlocks :
      (i : ℕ) → e.pc i ≡ set_notified → Step e (goto i outside (record e { owner = none }))
  wait_locks :
      (i : ℕ)
      → e.pc i ≡ outside
      → e.owner ≡ none
      → Step e (goto i testing (record e { owner = some i }))
  passes : (i : ℕ) → e.pc i ≡ testing → e.flag ≡ true → Step e (goto i passed e)
  sleeps :
      (i : ℕ)
      → e.pc i ≡ testing
      → e.flag ≡ false
      → Step e (goto i asleep (record e { owner = none }))
  wakes_up : (i : ℕ) → e.pc i ≡ asleep → Step e (goto i awake e)
  wait_locks_again :
      (i : ℕ)
      → e.pc i ≡ awake
      → e.owner ≡ none
      → Step e (goto i testing (record e { owner = some i }))
  lowers :
      (i : ℕ)
      → e.pc i ≡ passed
      → Step e (goto i lowered (record e { flag = false; waits = e.waits + 1 }))
  wait_unlocks : (i : ℕ) → e.pc i ≡ lowered → Step e (goto i outside (record e { owner = none }))

pub data Reach : Event → Type 0 where
  start : Reach initial
  later : {e f : Event} → Reach e → Step e f → Reach f

-- Inside the critical section of `set` or `wait`.
abbrev pub holds_mutex : Pc → Bool
holds_mutex outside = false
holds_mutex asleep = false
holds_mutex awake = false
holds_mutex _ = true
