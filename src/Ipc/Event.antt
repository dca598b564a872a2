-- ===== src/Ipc/Event.antt =====
-- include/sephi/ipc/sync/event.h and src/ipc/sync/event.cpp: an event that lies in memory shared by
-- processes.
--
-- The methods are lists of their statements, and a machine runs them: any number of threads, of any
-- processes, a statement at a time. What the statements do to the mutex and the condition is what
-- Boost documents: `wait` with a predicate tests it, releases the mutex and falls asleep in one step,
-- and takes the mutex again before it tests once more; `notify_one` wakes one sleeper if there is
-- one; a sleeper may also wake up for no reason.
mod Equivalence
mod Examples
use sephi.Base.{ℕ, ◌≡◌, List, [], ◌∷◌, Bool, true, false, Option, none, some, if◌then◌else◌, ◌==◌}

pub data Statement : Type 0 where
  lock_mutex : Statement  -- the constructor of `lock`
  raise : Statement  -- `flag_ = true`
  notify_one : Statement  -- `condition_.notify_one()`
  wait_for_flag : Statement  -- `condition_.wait(lock, [this] {return flag_; })`
  lower : Statement  -- `flag_ = false`
  unlock_mutex : Statement  -- the destructor of `lock`

abbrev pub set : List Statement
set = lock_mutex ∷ raise ∷ notify_one ∷ unlock_mutex ∷ []

abbrev pub wait : List Statement
wait = lock_mutex ∷ wait_for_flag ∷ lower ∷ unlock_mutex ∷ []

-- What a thread has still to run: `runs []` is outside of both methods. In `condition_.wait` it
-- sleeps, or it has been woken and wants the mutex.
pub data Thread : Type 0 where
  runs : List Statement → Thread
  sleeps : List Statement → Thread
  wakes : List Statement → Thread

pub record Event : Type 0 where
  pub flag : Bool
  pub owner : Option ℕ
  pub thread : ℕ → Thread

-- The members' initialisers; no thread is in a method.
abbrev pub initial : Event
initial = record { flag = false; owner = none; thread = λ _. runs [] }

abbrev pub update : (ℕ → Thread) → ℕ → Thread → ℕ → Thread
update thread i t j = if i == j then t else thread j

abbrev pub goto : ℕ → Thread → Event → Event
goto i t e = record e { thread = update e.thread i t }

-- `none`: the thread has to wait for the mutex.
lock : ℕ → List Statement → Event → Option Event
lock i rest e = elim e.owner [
  | none ↦ some (goto i (runs rest) (record e { owner = some i }))
  | some _ ↦ none
]

-- Thread `i` runs the first of its statements. Which thread is notified is up to the system, so
-- that `notify_one` is not run here.
execute : ℕ → List Statement → Event → Option Event
unfolding lock
execute i [] e = none
execute i (lock_mutex ∷ rest) e = lock i rest e
execute i (raise ∷ rest) e = some (goto i (runs rest) (record e { flag = true }))
execute i (notify_one ∷ rest) e = none
execute i (wait_for_flag ∷ rest) e = some (
    if e.flag
    then goto i (runs rest) e
    else goto i (sleeps (wait_for_flag ∷ rest)) (record e { owner = none }))
execute i (lower ∷ rest) e = some (goto i (runs rest) (record e { flag = false }))
execute i (unlock_mutex ∷ rest) e = some (goto i (runs rest) (record e { owner = none }))

-- A call runs the first statement, which takes the mutex.
enter : ℕ → List Statement → Thread → Event → Option Event
unfolding execute
enter i body (runs []) e = execute i body e
enter i body _ e = none

proceed : ℕ → Thread → Event → Option Event
unfolding execute lock
proceed i (runs statements) e = execute i statements e
proceed i (sleeps statements) e = none
proceed i (wakes statements) e = lock i statements e

rouse : ℕ → Thread → Event → Option Event
rouse j (sleeps statements) e = some (goto j (wakes statements) e)
rouse j _ e = none

-- Thread `i` notifies, and thread `j` wakes up, or nobody.
notify : ℕ → Option ℕ → Thread → Event → Option Event
unfolding rouse
notify i none (runs (notify_one ∷ rest)) e = some (goto i (runs rest) e)
notify i (some j) (runs (notify_one ∷ rest)) e = elim (rouse j (e.thread j) e) [
  | none ↦ none
  | some e' ↦ some (goto i (runs rest) e')
]
notify i _ _ e = none

pub data Input : Type 0 where
  calls_set : ℕ → Input
  calls_wait : ℕ → Input
  proceeds : ℕ → Input
  signals : ℕ → Option ℕ → Input
  stirs : ℕ → Input

pub step : Event → Input → Option Event
unfolding enter proceed notify rouse
step e (calls_set i) = enter i set (e.thread i) e
step e (calls_wait i) = enter i wait (e.thread i) e
step e (proceeds i) = proceed i (e.thread i) e
step e (signals i j) = notify i j (e.thread i) e
step e (stirs j) = rouse j (e.thread j) e

abbrev pub is_asleep : Thread → Bool
is_asleep (sleeps _) = true
is_asleep _ = false

-- Nobody is notified only if nobody sleeps.
abbrev pub IsAllowed : Event → Input → Type 0
IsAllowed e (signals i none) = (j : ℕ) → is_asleep (e.thread j) ≡ false
IsAllowed e _ = Unit

-- The states that the machine gets to.
pub data Reached : Event → Type 0 where
  fresh : Reached initial
  further : {e f : Event} → Reached e → (i : Input) → IsAllowed e i → step e i ≡ some f → Reached f
