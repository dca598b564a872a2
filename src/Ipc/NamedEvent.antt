-- ===== src/Ipc/NamedEvent.antt =====
-- include/sephi/ipc/sync/named_event.h and src/ipc/sync/named_event.cpp: an event that processes find
-- by name.
--
-- The condition and the mutex are Boost's: making and removing them is `NamedObjects`, and the
-- threads of all processes run `set` and `wait` a shared access at a time. Unlike the other events
-- this one has no flag: `set` notifies, without the mutex, and `wait` waits, without a predicate.
mod Naming
mod Wakeups
mod Examples
use sephi.Base.{
  ℕ, ◌+◌, ◌≡◌, ◌≢◌, List, [], ◌∷◌, ◌++◌, Bool, true, false, Option, none, some, if◌then◌else◌, ◌==◌,
}
use sephi.Ipc.Names.{Name, NamedObjects}

-- `_cv_prefix_`
abbrev pub cv_prefix : Name
cv_prefix = 95 ∷ 99 ∷ 118 ∷ 95 ∷ 112 ∷ 114 ∷ 101 ∷ 102 ∷ 105 ∷ 120 ∷ 95 ∷ []

-- `_mtx_prefix_`
abbrev pub mtx_prefix : Name
mtx_prefix = 95 ∷ 109 ∷ 116 ∷ 120 ∷ 95 ∷ 112 ∷ 114 ∷ 101 ∷ 102 ∷ 105 ∷ 120 ∷ 95 ∷ []

pub record NamedEvent (Condition Mutex : Type 0) : Type 0 where
  pub cv_name : Name
  pub mtx_name : Name
  pub condition : Condition
  pub mutex : Mutex

module _ {Condition Mutex World : Type 0} (conditions : NamedObjects Unit Condition World)
    (mutexes : NamedObjects Unit Mutex World) where
  -- The members in the order in which they are initialised; where making the mutex throws, the
  -- condition has been made, and its name stays.
  pub construct : Name → World → Option (NamedEvent Condition Mutex) × World
  construct n w =
      let cv_name = cv_prefix ++ n in
      let mtx_name = mtx_prefix ++ n in
      elim (conditions.open_or_create cv_name tt w) [
        | none ↦ (none, w)
        | some (condition, w') ↦ elim (mutexes.open_or_create mtx_name tt w') [
          | none ↦ (none, w')
          | some (mutex, w'') ↦ (
            some (record {
              cv_name = cv_name;
              mtx_name = mtx_name;
              condition = condition;
              mutex = mutex;
            }),
            w'',
          )
        ]
      ]

  -- The destructor.
  pub destroy : NamedEvent Condition Mutex → World → World
  destroy e w = mutexes.remove e.mtx_name (conditions.remove e.cv_name w)

-- Where a thread stands.
pub data Pc : Type 0 where
  outside : Pc  -- in neither method
  locked : Pc  -- `wait`, before `condition_.wait`, with the mutex
  asleep : Pc  -- in `condition_.wait`, without the mutex
  woken : Pc  -- woken, before the mutex is taken again
  returning : Pc  -- before the lock is destroyed

-- `returned` counts the ends of `wait`.
pub record Threads : Type 0 where
  pub owner : Option ℕ
  pub pc : ℕ → Pc
  pub returned : ℕ

pub initial : Threads
initial = record { owner = none; pc = λ _. outside; returned = 0 }

abbrev pub goto : ℕ → Pc → Threads → Threads
goto i p t = record t { pc = λ j. if i == j then p else t.pc j }

-- One shared access of thread `i`.
pub data Step (t : Threads) : Threads → Type 0 where
  sets : (i j : ℕ) → t.pc i ≡ outside → t.pc j ≡ asleep → Step t (goto j woken t)
  sets_in_vain : (i : ℕ) → t.pc i ≡ outside → ((j : ℕ) → t.pc j ≢ asleep) → Step t t
  locks :
      (i : ℕ)
      → t.pc i ≡ outside
      → t.owner ≡ none
      → Step t (goto i locked (record t { owner = some i }))
  sleeps : (i : ℕ) → t.pc i ≡ locked → Step t (goto i asleep (record t { owner = none }))
  wakes_up : (i : ℕ) → t.pc i ≡ asleep → Step t (goto i woken t)
  locks_again :
      (i : ℕ)
      → t.pc i ≡ woken
      → t.owner ≡ none
      → Step t (goto i returning (record t { owner = some i }))
  unlocks :
      (i : ℕ)
      → t.pc i ≡ returning
      → Step t (goto i outside (record t { owner = none; returned = t.returned + 1 }))
