-- ===== src/Ipc/Event/Examples.antt =====
-- Runs of the interprocess event: a test, and the theorem at a concrete state.
use sephi.Base.{
  ◌≡◌, ◌↔◌, ℕ, List, [], ◌∷◌, Bool, true, Option, none, some, refl, if◌then◌else◌, ◌==◌,
}
use sephi.Sync.Event.{Reach}
use sephi.Sync.Event.{Event as ThreadEvent}
use sephi.Ipc.Event.{
  Event, Thread, lower, unlock_mutex, runs, Input, calls_set, calls_wait, proceeds, signals,
  initial, step, Reached,
}
use sephi.Ipc.Event.Equivalence.{view, statements_are_steps}

run : List Input → Event → Option Event
run [] e = some e
run (i ∷ is) e = elim (step e i) [ none ↦ none | some e' ↦ run is e' ]

-- Thread 1 waits and sleeps; thread 2 sets and wakes it, and it passes the test.
abbrev handover : List Input
handover =
    calls_wait 1
    ∷ proceeds 1
    ∷ calls_set 2
    ∷ proceeds 2
    ∷ signals 2 (some 1)
    ∷ proceeds 2
    ∷ proceeds 1
    ∷ proceeds 1
    ∷ []

abbrev handed_over : Option (Bool × Option ℕ × Thread × Thread)
unfolding run step
handed_over = elim (run handover initial) [
  | none ↦ none
  | some e ↦ some (e.flag, e.owner, e.thread 1, e.thread 2)
]

handover_state : handed_over ≡ some (true, some 1, runs (lower ∷ unlock_mutex ∷ []), runs [])
unfolding run step
handover_state = refl

-- While thread 1 has the mutex, thread 2 cannot call `set`.
blocked : run (calls_wait 1 ∷ calls_set 2 ∷ []) initial ≡ none
unfolding run step
blocked = refl

-- Thread 1 has passed the test, and all others are outside.
abbrev passing : Event
passing = record {
  flag = true;
  owner = some 1;
  thread = λ i. if i == 1 then runs (lower ∷ unlock_mutex ∷ []) else runs [];
}

statements_are_steps_example : Reached passing ↔ ((e : ThreadEvent) × Reach e × (view e ≡ passing))
statements_are_steps_example = statements_are_steps passing
