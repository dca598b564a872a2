-- ===== src/Sync/Event/Progress.antt =====
-- A thread that sleeps while the flag is raised never stands in the way: some `wait` can still end.
use sephi.Base.{ℕ, ◌+◌, ◌≡◌, Bool, true, false, none, some, refl, arith, inl, inr, Option-cases}
use sephi.Sync.Event.{
  Pc, outside, set_locked, set_raised, set_notified, testing, asleep, awake, passed, lowered, Event,
  initial, goto, Step, set_locks, raises, notifies, notifies_nobody, set_unlocks, wait_locks,
  passes, sleeps, wakes_up, wait_locks_again, lowers, wait_unlocks, Reach, start, later,
  holds_mutex,
}
use sephi.Sync.Event.Invariant.{Inv, Reach-Inv}
use sephi.Sync.Event.Wakeups.{no_lost_wakeup}

-- The owner of the mutex is in a critical section.
record Held (e : Event) : Type 0 where
  pub held : (m : ℕ) → e.owner ≡ some m → holds_mutex (e.pc m) ≡ true

Step-Held : {e f : Event} → Step e f → Inv e → Held e → Held f
Step-Held (set_locks i p o) v h = record { held = λ m q. ground (arith) }
Step-Held (raises i p) v h = record { held = λ m q. ground (arith, h.held m) }
Step-Held (notifies i j p q) v h = record { held = λ m r. ground (arith, h.held m) }
Step-Held (notifies_nobody i p n) v h = record { held = λ m q. ground (arith, h.held m) }
Step-Held (set_unlocks i p) v h = record { held = λ m q. ground (arith) }
Step-Held (wait_locks i p o) v h = record { held = λ m q. ground (arith) }
Step-Held (passes i p o) v h = record { held = λ m q. ground (arith, h.held m) }
Step-Held (sleeps i p o) v h = record { held = λ m q. ground (arith) }
Step-Held (wakes_up i p) v h = record { held = λ m q. ground (arith, h.held m) }
Step-Held (wait_locks_again i p o) v h = record { held = λ m q. ground (arith) }
Step-Held (lowers i p) v h = record { held = λ m q. ground (arith, h.held m) }
Step-Held (wait_unlocks i p) v h = record { held = λ m q. ground (arith) }

Reach-Held : {e : Event} → Reach e → Held e
unfolding initial
Reach-Held start = record { held = λ m q. ground (arith, q) }
Reach-Held (later r s) = Step-Held s (Reach-Inv r) (Reach-Held r)

abbrev pub is_spurious : {e f : Event} → Step e f → Bool
is_spurious (wakes_up i p) = true
is_spurious _ = false

-- A run in which nobody wakes up for no reason.
pub data Run : Event → Event → Type 0 where
  done : {e : Event} → Run e e
  first : {e f g : Event} (s : Step e f) → is_spurious s ≡ false → Run f g → Run e g

abbrev pub Served : Event → Type 0
Served e = (f : Event) × Run e f × (f.waits ≡ e.waits + 1)

passed-Served : (e : Event) (k : ℕ) → e.pc k ≡ passed → Served e
passed-Served e k p = (_, first (lowers k p) refl done, refl)

testing-Served : (e : Event) (k : ℕ) → e.pc k ≡ testing → e.flag ≡ true → Served e
testing-Served e k p up =
    let (f, r, w) = passed-Served (goto k passed e) k (ground arith) in
    (f, first (passes k p up) refl r, w)

awake-Served : (e : Event) (k : ℕ) → e.pc k ≡ awake → e.owner ≡ none → e.flag ≡ true → Served e
awake-Served e k p free up =
    let (f, r, w) =
      testing-Served (goto k testing (record e { owner = some k })) k (ground arith) up in
    (f, first (wait_locks_again k p free) refl r, w)

free-Served :
    (e : Event) (j : ℕ) → Reach e → e.owner ≡ none → e.flag ≡ true → e.pc j ≡ asleep → Served e
free-Served e j r free up p =
    let (k, a) = no_lost_wakeup r j up p in
    let v = Reach-Inv r in awake-Served e k (ground (arith, a, v.owned k)) free up

notified-Served :
    (e : Event) (j m : ℕ) → e.pc m ≡ set_notified → e.pc j ≡ awake → e.flag ≡ true → Served e
notified-Served e j m p q up =
    let (f, r, w) =
      awake-Served (goto m outside (record e { owner = none })) j (ground arith) refl up in
    (f, first (set_unlocks m p) refl r, w)

raised-Served :
    (e : Event) (j m : ℕ) → e.pc m ≡ set_raised → e.pc j ≡ asleep → e.flag ≡ true → Served e
raised-Served e j m p q up =
    let (f, r, w) =
      notified-Served (goto m set_notified (goto j awake e)) j m (ground arith) (ground arith) up in
    (f, first (notifies m j p q) refl r, w)

-- Wherever the owner of the mutex stands, it can go on until somebody is served.
held-Served :
    (e : Event) (j m : ℕ) (pc : Pc)
    → Reach e
    → e.pc m ≡ pc
    → holds_mutex pc ≡ true
    → e.flag ≡ true
    → e.pc j ≡ asleep
    → Served e
held-Served e j m set_locked r p h up q =
    let (f, run, w) =
      raised-Served (goto m set_raised (record e { flag = true; sets = e.sets + 1 })) j m
        (ground arith) (ground arith) refl in
    (f, first (raises m p) refl run, w)
held-Served e j m set_raised r p h up q = raised-Served e j m p q up
held-Served e j m set_notified r p h up q =
    let (f, run, w) = free-Served _ j (later r (set_unlocks m p)) refl up (ground arith) in
    (f, first (set_unlocks m p) refl run, w)
held-Served e j m testing r p h up q = testing-Served e m p up
held-Served e j m passed r p h up q = passed-Served e m p
held-Served e j m lowered r p h up q =
    let (f, run, w) = free-Served _ j (later r (wait_unlocks m p)) refl up (ground arith) in
    (f, first (wait_unlocks m p) refl run, w)
held-Served e j m outside r p h up q = ground (arith, h)
held-Served e j m asleep r p h up q = ground (arith, h)
held-Served e j m awake r p h up q = ground (arith, h)

-- From every reachable state of an event in which a thread sleeps in `wait` while the flag is raised,
-- steps of the threads, none of them a wake-up for no reason, lead to a state in which one more
-- `wait` has passed its test and lowered the flag.
pub raised_flag_is_consumed :
    {e : Event}
    → Reach e
    → (j : ℕ) → e.flag ≡ true
    → e.pc j ≡ asleep
    → (f : Event) × Run e f × (f.waits ≡ e.waits + 1)
raised_flag_is_consumed {e} r j up q = elim (Option-cases e.owner) [
  | inl free ↦ free-Served e j r free up q
  | inr (m, o) ↦ held-Served e j m (e.pc m) r refl ((Reach-Held r).held m o) up q
]
