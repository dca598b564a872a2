-- ===== src/Sync/Event/Examples.antt =====
-- Runs of src/sync/event.cpp: thread 0 waits before thread 1 sets.
use sephi.Base.{ℕ, ◌+◌, ◌≡◌, ◌≤◌, true, false, none, some, refl}
use sephi.Sync.Event.{
  outside, set_locked, set_raised, set_notified, awake, lowered, testing, asleep, passed, Event,
  initial, goto, set_locks, raises, notifies, set_unlocks, wait_locks, passes, sleeps,
  wait_locks_again, lowers, Reach, start, later,
}
use sephi.Sync.Event.Invariant.{flag_count}
use sephi.Sync.Event.Progress.{Run, raised_flag_is_consumed}
use sephi.Sync.Event.Wakeups.{attends, no_lost_wakeup, waits_at_most_sets}

abbrev locked : Event
locked = goto 0 testing (record initial { owner = some 0 })

abbrev sleeping : Event
sleeping = goto 0 asleep (record locked { owner = none })

abbrev set_begun : Event
set_begun = goto 1 set_locked (record sleeping { owner = some 1 })

abbrev set_done : Event
set_done = goto 1 set_raised (record set_begun { flag = true; sets = set_begun.sets + 1 })

abbrev notified : Event
notified = goto 1 set_notified (goto 0 awake set_done)

locked-Reach : Reach locked
unfolding initial
locked-Reach = later start (wait_locks 0 refl refl)

sleeping-Reach : Reach sleeping
unfolding initial
sleeping-Reach = later locked-Reach (sleeps 0 refl refl)

set_done-Reach : Reach set_done
unfolding initial
set_done-Reach = later (later sleeping-Reach (set_locks 1 refl refl)) (raises 1 refl)

abbrev unlocked : Event
unlocked = goto 1 outside (record notified { owner = none })

abbrev woken : Event
woken = goto 0 testing (record unlocked { owner = some 0 })

abbrev consumed : Event
consumed = goto 0 lowered (record (goto 0 passed woken) { flag = false; waits = woken.waits + 1 })

consumed-Reach : Reach consumed
unfolding initial
consumed-Reach =
    later
      (later
        (later (later (later set_done-Reach (notifies 1 0 refl refl)) (set_unlocks 1 refl))
          (wait_locks_again 0 refl refl))
        (passes 0 refl refl))
      (lowers 0 refl)

no_lost_wakeup_example : (k : ℕ) × (attends (set_done.pc k) ≡ true)
unfolding initial
no_lost_wakeup_example = no_lost_wakeup set_done-Reach 0 refl refl

waits_at_most_sets_example :
    ((i : ℕ) → consumed.pc i ≡ passed → consumed.flag ≡ true)
    × (consumed.waits + flag_count consumed.flag ≤ consumed.sets)
waits_at_most_sets_example = waits_at_most_sets consumed-Reach

-- The `wait` has used up the one `set`.
one_set_one_wait : consumed.waits ≡ consumed.sets
unfolding initial
one_set_one_wait = refl

raised_flag_is_consumed_example : (f : Event) × Run set_done f × (f.waits ≡ 1)
unfolding initial
raised_flag_is_consumed_example = raised_flag_is_consumed set_done-Reach 0 refl refl
