-- ===== src/Sync/Event/Wakeups.antt =====
-- No wake-up is lost, two threads are never in the critical section, and a `wait` needs a `set`.
use sephi.Base.{ℕ, ◌+◌, ◌≡◌, ◌≤◌, Bool, true, false, arith}
use sephi.Sync.Event.{
  Pc, set_raised, testing, asleep, awake, passed, Event, initial, Step, set_locks, raises, notifies,
  notifies_nobody, set_unlocks, wait_locks, passes, sleeps, wakes_up, wait_locks_again, lowers,
  wait_unlocks, Reach, start, later,
}
use sephi.Sync.Event.Invariant.{Inv, Reach-Inv, flag_count}

-- On its way to consume the flag, or to wake a sleeper that will.
abbrev pub attends : Pc → Bool
attends set_raised = true
attends awake = true
attends testing = true
attends passed = true
attends _ = false

-- A raised flag that somebody sleeps on has somebody who attends to it.
Attended : Event → Type 0
Attended e = (j : ℕ) → e.flag ≡ true → e.pc j ≡ asleep → (k : ℕ) × (attends (e.pc k) ≡ true)

Step-Attended : {e f : Event} → Step e f → Inv e → Attended e → Attended f
unfolding Attended
Step-Attended {e} (set_locks i p o) v h j r a =
    let (k, t) = h j r (ground arith) in (k, ground arith)
Step-Attended {e} (raises i p) v h j r a = (i, ground arith)
Step-Attended {e} (notifies i j' p q) v h j r a = (j', ground arith)
Step-Attended {e} (notifies_nobody i p n) v h j r a = ground (arith, n j)
Step-Attended {e} (set_unlocks i p) v h j r a =
    let (k, t) = h j r (ground arith) in (k, ground arith)
Step-Attended {e} (wait_locks i p o) v h j r a = (i, ground arith)
Step-Attended {e} (passes i p o) v h j r a = (i, ground arith)
Step-Attended {e} (sleeps i p o) v h j r a = ground arith
Step-Attended {e} (wakes_up i p) v h j r a = (i, ground arith)
Step-Attended {e} (wait_locks_again i p o) v h j r a = (i, ground arith)
Step-Attended {e} (lowers i p) v h j r a = ground arith
Step-Attended {e} (wait_unlocks i p) v h j r a =
    let (k, t) = h j r (ground arith) in (k, ground arith)

Reach-Attended : {e : Event} → Reach e → Attended e
unfolding Attended initial
Reach-Attended start = λ j r a. ground arith
Reach-Attended (later r s) = Step-Attended s (Reach-Inv r) (Reach-Attended r)

-- Whenever a thread sleeps in `wait` while the flag is raised, some thread attends to it: it is
-- about to notify, it is woken or testing, or it has passed the test and will lower the flag.
pub no_lost_wakeup :
    {e : Event}
    → Reach e
    → (j : ℕ) → e.flag ≡ true
    → e.pc j ≡ asleep
    → (k : ℕ) × (attends (e.pc k) ≡ true)
unfolding Attended
no_lost_wakeup r j f a = Reach-Attended r j f a

-- In every reachable state a thread that has passed the test of `wait` finds the flag raised, and
-- the flag was lowered at most as often as it was raised, once less while it is up.
pub waits_at_most_sets :
    {e : Event}
    → Reach e
    → ((i : ℕ) → e.pc i ≡ passed → e.flag ≡ true) × (e.waits + flag_count e.flag ≤ e.sets)
waits_at_most_sets r = let v = Reach-Inv r in (v.raised, v.counted)
