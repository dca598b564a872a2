-- ===== src/Ipc/NamedEvent/Examples.antt =====
-- Runs of the named event: the theorems at concrete inputs.
use sephi.Base.{ℕ, ◌≡◌, [], ◌∷◌, ◌++◌, false, none, some, arith, refl}
use sephi.Ipc.Names.{Name}
use sephi.Ipc.Names.Machine.{
  binds, unbinds, Journal, is_name-eq, lookup_other, machine, machine_laws,
}
use sephi.Ipc.NamedEvent.{
  cv_prefix, mtx_prefix, NamedEvent, asleep, locked, Threads, initial, goto, sets_in_vain, locks,
  sleeps,
}
use sephi.Ipc.NamedEvent.Naming.{Apart}
use sephi.Ipc.NamedEvent.Wakeups.{Run, done, more, is_leaving, sets_made, early_sets_are_lost}

machine-Apart : Apart machine machine machine_laws machine_laws
machine-Apart = record {
  cv-mutex = λ n w w' m h k other. ground (arith, is_name-eq k n);
  cv-remove = λ n k w other. lookup_other n k w other;
  cv-made = λ n w r. refl;
}

abbrev event_name : Name
event_name = 101 ∷ []

abbrev cv : Name
cv = cv_prefix ++ event_name

abbrev mtx : Name
mtx = mtx_prefix ++ event_name

abbrev first : NamedEvent ℕ ℕ
first = record { cv_name = cv; mtx_name = mtx; condition = 0; mutex = 1 }

abbrev third : NamedEvent ℕ ℕ
third = record { cv_name = cv; mtx_name = mtx; condition = 2; mutex = 3 }

abbrev journal : Journal
journal = binds mtx ∷ binds cv ∷ []

abbrev emptied : Journal
emptied = unbinds mtx ∷ unbinds cv ∷ journal

abbrev waiting : Threads
waiting = goto 0 locked (record initial { owner = some 0 })

abbrev sleeping : Threads
sleeping = goto 0 asleep (record waiting { owner = none })

-- Thread 1 sets before thread 0 waits.
abbrev set_then_wait : Run initial sleeping
unfolding initial
set_then_wait =
    more (more (more done (sets_in_vain 1 refl (λ j h. ground (arith, h)))) (locks 0 refl refl))
      (sleeps 0 refl)

early_sets_are_lost_example :
    (sleeping.returned ≡ initial.returned) × ((i : ℕ) → is_leaving (sleeping.pc i) ≡ false)
unfolding initial
early_sets_are_lost_example = early_sets_are_lost set_then_wait (λ i. refl) refl

-- The lost call is in the run.
set_is_made : sets_made set_then_wait ≡ 1
unfolding set_then_wait
set_is_made = refl
