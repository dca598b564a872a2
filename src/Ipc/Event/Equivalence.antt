-- ===== src/Ipc/Event/Equivalence.antt =====
-- The statements of the interprocess event do what the steps of the event for threads do.
use mathlib.Core.Path.{fun_ext, subst}
use sephi.Base.{
  ◌+◌, ◌≡◌, ◌≢◌, ◌↔◌, ap, refl, ℕ, [], ◌∷◌, true, false, Bool-cases, none, some, arith, inl, inr,
}
use sephi.Sync.Event.{
  Pc, outside, set_locked, set_raised, set_notified, testing, asleep, awake, passed, lowered, Step,
  set_locks, raises, notifies, notifies_nobody, set_unlocks, wait_locks, passes,
  sleeps as falls_asleep, wakes_up, wait_locks_again, lowers, wait_unlocks, Reach, start, later,
}
use sephi.Sync.Event.{Event as ThreadEvent, goto as go_to, initial as at_rest}
use sephi.Ipc.Event.{
  raise, notify_one, wait_for_flag, lower, unlock_mutex, Thread, runs, sleeps, wakes, Event, goto,
  Input, calls_set, calls_wait, proceeds, signals, stirs, step, is_asleep, IsAllowed, Reached,
  fresh, further,
}

-- The statements that are left at each place.
abbrev pub thread_at : Pc → Thread
thread_at outside = runs []
thread_at set_locked = runs (raise ∷ notify_one ∷ unlock_mutex ∷ [])
thread_at set_raised = runs (notify_one ∷ unlock_mutex ∷ [])
thread_at set_notified = runs (unlock_mutex ∷ [])
thread_at testing = runs (wait_for_flag ∷ lower ∷ unlock_mutex ∷ [])
thread_at asleep = sleeps (wait_for_flag ∷ lower ∷ unlock_mutex ∷ [])
thread_at awake = wakes (wait_for_flag ∷ lower ∷ unlock_mutex ∷ [])
thread_at passed = runs (lower ∷ unlock_mutex ∷ [])
thread_at lowered = runs (unlock_mutex ∷ [])

abbrev pub view : ThreadEvent → Event
view e = record { flag = e.flag; owner = e.owner; thread = λ i. thread_at (e.pc i) }

view-goto : (i : ℕ) (p : Pc) (e : ThreadEvent) → view (go_to i p e) ≡ goto i (thread_at p) (view e)
view-goto i p e =
    ap (λ thread. record { flag = e.flag; owner = e.owner; thread = thread })
      (fun_ext (λ j. ground arith))

not_asleep : (p : Pc) → p ≢ asleep → is_asleep (thread_at p) ≡ false
not_asleep asleep n = absurd (n refl)
not_asleep outside n = refl
not_asleep set_locked n = refl
not_asleep set_raised n = refl
not_asleep set_notified n = refl
not_asleep testing n = refl
not_asleep awake n = refl
not_asleep passed n = refl
not_asleep lowered n = refl

-- Each step of the event is a step of the machine.
Step-view :
    {e f : ThreadEvent}
    → Step e f
    → (i : Input) × IsAllowed (view e) i × (step (view e) i ≡ some (view f))
unfolding step
Step-view {e} (set_locks i p o) =
    (calls_set i, tt, ground (arith, view-goto i set_locked (record e { owner = some i })))
Step-view {e} (raises i p) = (
  proceeds i,
  tt,
  ground (arith, view-goto i set_raised (record e { flag = true; sets = e.sets + 1 })),
)
Step-view {e} (notifies i j p q) = (
  signals i (some j),
  tt,
  ground (arith, view-goto i set_notified (go_to j awake e), view-goto j awake e),
)
Step-view {e} (notifies_nobody i p n) =
    (signals i none, λ j. not_asleep (e.pc j) (n j), ground (arith, view-goto i set_notified e))
Step-view {e} (set_unlocks i p) =
    (proceeds i, tt, ground (arith, view-goto i outside (record e { owner = none })))
Step-view {e} (wait_locks i p o) =
    (calls_wait i, tt, ground (arith, view-goto i testing (record e { owner = some i })))
Step-view {e} (passes i p o) = (proceeds i, tt, ground (arith, view-goto i passed e))
Step-view {e} (falls_asleep i p o) =
    (proceeds i, tt, ground (arith, view-goto i asleep (record e { owner = none })))
Step-view {e} (wakes_up i p) = (stirs i, tt, ground (arith, view-goto i awake e))
Step-view {e} (wait_locks_again i p o) =
    (proceeds i, tt, ground (arith, view-goto i testing (record e { owner = some i })))
Step-view {e} (lowers i p) = (
  proceeds i,
  tt,
  ground (arith, view-goto i lowered (record e { flag = false; waits = e.waits + 1 })),
)
Step-view {e} (wait_unlocks i p) =
    (proceeds i, tt, ground (arith, view-goto i outside (record e { owner = none })))

-- Each step of the machine is a step of the event.
Simulated : ThreadEvent → Event → Type 0
Simulated e f = (e' : ThreadEvent) × Step e e' × (view e' ≡ f)

set_called :
    (e : ThreadEvent) (i : ℕ) (f : Event) (p : Pc)
    → e.pc i ≡ p
    → step (view e) (calls_set i) ≡ some f
    → Simulated e f
unfolding step Simulated
set_called e i f outside h s = (
  go_to i set_locked (record e { owner = some i }),
  set_locks i h (ground arith),
  ground (arith, view-goto i set_locked (record e { owner = some i })),
)
set_called e i f _ h s = absurd (ground arith)

wait_called :
    (e : ThreadEvent) (i : ℕ) (f : Event) (p : Pc)
    → e.pc i ≡ p
    → step (view e) (calls_wait i) ≡ some f
    → Simulated e f
unfolding step Simulated
wait_called e i f outside h s = (
  go_to i testing (record e { owner = some i }),
  wait_locks i h (ground arith),
  ground (arith, view-goto i testing (record e { owner = some i })),
)
wait_called e i f _ h s = absurd (ground arith)

proceeded :
    (e : ThreadEvent) (i : ℕ) (f : Event) (p : Pc)
    → e.pc i ≡ p
    → step (view e) (proceeds i) ≡ some f
    → Simulated e f
unfolding step Simulated
proceeded e i f set_locked h s =
    let e' = record e { flag = true; sets = e.sets + 1 } in
    (go_to i set_raised e', raises i h, ground (arith, view-goto i set_raised e'))
proceeded e i f set_notified h s =
    let e' = record e { owner = none } in
    (go_to i outside e', set_unlocks i h, ground (arith, view-goto i outside e'))
proceeded e i f testing h s = elim (Bool-cases e.flag) [
  | inl up ↦ (go_to i passed e, passes i h up, ground (arith, view-goto i passed e))
  | inr down ↦
      let e' = record e { owner = none } in
      (go_to i asleep e', falls_asleep i h down, ground (arith, view-goto i asleep e'))
]
proceeded e i f awake h s =
    let e' = record e { owner = some i } in
    (
      go_to i testing e',
      wait_locks_again i h (ground arith),
      ground (arith, view-goto i testing e'),
    )
proceeded e i f passed h s =
    let e' = record e { flag = false; waits = e.waits + 1 } in
    (go_to i lowered e', lowers i h, ground (arith, view-goto i lowered e'))
proceeded e i f lowered h s =
    let e' = record e { owner = none } in
    (go_to i outside e', wait_unlocks i h, ground (arith, view-goto i outside e'))
proceeded e i f _ h s = absurd (ground arith)

is_asleep-asleep : (p : Pc) → is_asleep (thread_at p) ≡ false → p ≢ asleep
is_asleep-asleep p h e = ground arith

nobody_signalled :
    (e : ThreadEvent) (i : ℕ) (f : Event) (p : Pc)
    → e.pc i ≡ p
    → ((j : ℕ) → is_asleep (thread_at (e.pc j)) ≡ false)
    → step (view e) (signals i none) ≡ some f
    → Simulated e f
unfolding step Simulated
nobody_signalled e i f set_raised h nobody s = (
  go_to i set_notified e,
  notifies_nobody i h (λ j. is_asleep-asleep (e.pc j) (nobody j)),
  ground (arith, view-goto i set_notified e),
)
nobody_signalled e i f _ h nobody s = absurd (ground arith)

signalled :
    (e : ThreadEvent) (i j : ℕ) (f : Event) (p q : Pc)
    → e.pc i ≡ p
    → e.pc j ≡ q
    → step (view e) (signals i (some j)) ≡ some f
    → Simulated e f
unfolding step Simulated
signalled e i j f set_raised asleep h g s = (
  go_to i set_notified (go_to j awake e),
  notifies i j h g,
  ground (arith, view-goto i set_notified (go_to j awake e), view-goto j awake e),
)
signalled e i j f _ _ h g s = absurd (ground arith)

stirred :
    (e : ThreadEvent) (j : ℕ) (f : Event) (p : Pc)
    → e.pc j ≡ p
    → step (view e) (stirs j) ≡ some f
    → Simulated e f
unfolding step Simulated
stirred e j f asleep h s = (go_to j awake e, wakes_up j h, ground (arith, view-goto j awake e))
stirred e j f _ h s = absurd (ground arith)

step-Simulated :
    (e : ThreadEvent) (f : Event) (i : Input)
    → IsAllowed (view e) i
    → step (view e) i ≡ some f
    → Simulated e f
step-Simulated e f (calls_set i) ok s = set_called e i f (e.pc i) refl s
step-Simulated e f (calls_wait i) ok s = wait_called e i f (e.pc i) refl s
step-Simulated e f (proceeds i) ok s = proceeded e i f (e.pc i) refl s
step-Simulated e f (signals i none) ok s = nobody_signalled e i f (e.pc i) refl ok s
step-Simulated e f (signals i (some j)) ok s = signalled e i j f (e.pc i) (e.pc j) refl refl s
step-Simulated e f (stirs j) ok s = stirred e j f (e.pc j) refl s

Reach-Reached : {e : ThreadEvent} → Reach e → Reached (view e)
unfolding at_rest
Reach-Reached start = fresh
Reach-Reached (later r s) = let (i, ok, e) = Step-view s in further (Reach-Reached r) i ok e

Reached-Reach : {s : Event} → Reached s → (e : ThreadEvent) × Reach e × (view e ≡ s)
unfolding at_rest Simulated
Reached-Reach fresh = (at_rest, start, refl)
Reached-Reach (further r i ok s) =
    let (e, reach, v) = Reached-Reach r in
    let (e', step', v') = step-Simulated e _ i (rw v ok) (rw v s) in (e', later reach step', v')

-- The states that the machine of the statements of `set` and `wait` of the interprocess event gets
-- to, with any number of threads in any interleaving, are exactly the views of the states that the
-- step relation of the event for threads reaches.
pub statements_are_steps : (s : Event) → Reached s ↔ ((e : ThreadEvent) × Reach e × (view e ≡ s))
statements_are_steps s = (Reached-Reach, λ (e, r, v). subst Reached v (Reach-Reached r))
