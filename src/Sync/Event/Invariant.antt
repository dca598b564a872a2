-- ===== src/Sync/Event/Invariant.antt =====
-- The mutex protects the flag, and every return of `wait` uses up a `set`.
use sephi.Base.{ℕ, ◌+◌, ◌≡◌, ◌≤◌, Bool, true, false, some, arith}
use sephi.Sync.Event.{
  passed, Event, initial, Step, set_locks, raises, notifies, notifies_nobody, set_unlocks,
  wait_locks, passes, sleeps, wakes_up, wait_locks_again, lowers, wait_unlocks, Reach, start, later,
  holds_mutex,
}

abbrev pub flag_count : Bool → ℕ
flag_count true = 1
flag_count false = 0

pub record Inv (e : Event) : Type 0 where
  pub owned : (i : ℕ) → holds_mutex (e.pc i) ≡ true → e.owner ≡ some i
  pub raised : (i : ℕ) → e.pc i ≡ passed → e.flag ≡ true
  pub counted : e.waits + flag_count e.flag ≤ e.sets

initial-Inv : Inv initial
unfolding initial
initial-Inv = record {
  owned = λ i h. ground arith;
  raised = λ i h. ground arith;
  counted = omega arith;
}

Step-owned :
    {e f : Event} → Step e f → Inv e → (k : ℕ) → holds_mutex (f.pc k) ≡ true → f.owner ≡ some k
Step-owned {e} (set_locks i p o) v k h = ground (arith, v.owned k)
Step-owned {e} (raises i p) v k h = ground (arith, v.owned k, v.owned i)
Step-owned {e} (notifies i j p q) v k h = ground (arith, v.owned k, v.owned i)
Step-owned {e} (notifies_nobody i p n) v k h = ground (arith, v.owned k, v.owned i)
Step-owned {e} (set_unlocks i p) v k h = ground (arith, v.owned k, v.owned i)
Step-owned {e} (wait_locks i p o) v k h = ground (arith, v.owned k)
Step-owned {e} (passes i p o) v k h = ground (arith, v.owned k, v.owned i)
Step-owned {e} (sleeps i p o) v k h = ground (arith, v.owned k, v.owned i)
Step-owned {e} (wakes_up i p) v k h = ground (arith, v.owned k)
Step-owned {e} (wait_locks_again i p o) v k h = ground (arith, v.owned k)
Step-owned {e} (lowers i p) v k h = ground (arith, v.owned k, v.owned i)
Step-owned {e} (wait_unlocks i p) v k h = ground (arith, v.owned k, v.owned i)

Step-raised : {e f : Event} → Step e f → Inv e → (k : ℕ) → f.pc k ≡ passed → f.flag ≡ true
Step-raised {e} (lowers i p) v k h = ground (arith, v.owned k, v.owned i)
Step-raised {e} (passes i p o) v k h = ground (arith, v.raised k)
Step-raised {e} (set_locks i p o) v k h = ground (arith, v.raised k)
Step-raised {e} (raises i p) v k h = ground (arith, v.raised k)
Step-raised {e} (notifies i j p q) v k h = ground (arith, v.raised k)
Step-raised {e} _ v k h = ground (arith, v.raised k)

Step-counted : {e f : Event} → Step e f → Inv e → f.waits + flag_count f.flag ≤ f.sets
Step-counted {e} (raises i p) v = ground (arith, v.counted)
Step-counted {e} (lowers i p) v = ground (arith, v.counted, v.raised i)
Step-counted {e} (set_locks i p o) v = v.counted
Step-counted {e} _ v = v.counted

Step-Inv : {e f : Event} → Step e f → Inv e → Inv f
Step-Inv s v = record {
  owned = Step-owned s v;
  raised = Step-raised s v;
  counted = Step-counted s v;
}

pub Reach-Inv : {e : Event} → Reach e → Inv e
Reach-Inv start = initial-Inv
Reach-Inv (later r s) = Step-Inv s (Reach-Inv r)
