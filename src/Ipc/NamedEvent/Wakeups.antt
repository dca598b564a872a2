-- ===== src/Ipc/NamedEvent/Wakeups.antt =====
-- A `set` that finds nobody asleep is lost: what a run without a wake-up cannot do.
use sephi.Base.{ℕ, ◌+◌, ◌≡◌, Bool, true, false, if◌then◌else◌, arith, refl}
use sephi.Ipc.NamedEvent.{
  Pc, woken, returning, Threads, Step, sets, sets_in_vain, locks, sleeps, wakes_up, locks_again,
  unlocks,
}

-- The steps that wake a sleeper.
abbrev pub wakes : {t u : Threads} → Step t u → Bool
wakes (sets i j p q) = true
wakes (wakes_up i p) = true
wakes _ = false

-- The calls of `set`.
abbrev pub is_set : {t u : Threads} → Step t u → Bool
is_set (sets i j p q) = true
is_set (sets_in_vain i p n) = true
is_set _ = false

pub data Run (t : Threads) : Threads → Type 0 where
  done : Run t t
  more : {u v : Threads} → Run t u → Step u v → Run t v

abbrev pub wakes_nobody : {t u : Threads} → Run t u → Bool
wakes_nobody done = true
wakes_nobody (more r s) = if wakes s then false else wakes_nobody r

abbrev pub sets_made : {t u : Threads} → Run t u → ℕ
sets_made done = 0
sets_made (more r s) = if is_set s then sets_made r + 1 else sets_made r

-- On the way out of `wait`.
abbrev pub is_leaving : Pc → Bool
is_leaving woken = true
is_leaving returning = true
is_leaving _ = false

record NobodyLeaves (t u : Threads) : Type 0 where
  pub inside : (i : ℕ) → is_leaving (u.pc i) ≡ false
  pub same : u.returned ≡ t.returned

Step-NobodyLeaves :
    {t u v : Threads} (s : Step u v) → wakes s ≡ false → NobodyLeaves t u → NobodyLeaves t v
Step-NobodyLeaves (sets i j p q) w n = ground (arith, w)
Step-NobodyLeaves (sets_in_vain i p nobody) w n = n
Step-NobodyLeaves (locks i p o) w n = record {
  inside = λ k. ground (arith, n.inside k);
  same = n.same;
}
Step-NobodyLeaves (sleeps i p) w n = record {
  inside = λ k. ground (arith, n.inside k);
  same = n.same;
}
Step-NobodyLeaves (wakes_up i p) w n = ground (arith, w)
Step-NobodyLeaves (locks_again i p o) w n = ground (arith, n.inside i)
Step-NobodyLeaves (unlocks i p) w n = ground (arith, n.inside i)

Run-NobodyLeaves :
    {t u : Threads} (r : Run t u)
    → wakes_nobody r ≡ true
    → ((i : ℕ) → is_leaving (t.pc i) ≡ false)
    → NobodyLeaves t u
Run-NobodyLeaves done w start = record { inside = start; same = refl }
Run-NobodyLeaves (more r s) w start =
    Step-NobodyLeaves s (ground arith) (Run-NobodyLeaves r (ground arith) start)

-- From a state in which no thread is on its way out of `wait`, in a run of any steps of any threads
-- in which no step wakes a sleeper, no `wait` of a named event ends, however many calls of `set` the
-- run has: a `set` made before a thread sleeps has no effect on it.
pub early_sets_are_lost :
    {t u : Threads} (r : Run t u)
    → ((i : ℕ) → is_leaving (t.pc i) ≡ false)
    → wakes_nobody r ≡ true
    → (u.returned ≡ t.returned) × ((i : ℕ) → is_leaving (u.pc i) ≡ false)
early_sets_are_lost r start w = let n = Run-NobodyLeaves r w start in (n.same, n.inside)
