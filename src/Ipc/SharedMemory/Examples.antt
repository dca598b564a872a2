-- ===== src/Ipc/SharedMemory/Examples.antt =====
-- Runs of the shared memory: tests, and the theorems at concrete inputs.
use sephi.Base.{ℕ, ◌≡◌, ◌≢◌, List, [], ◌∷◌, none, some, refl}
use sephi.Ipc.Names.{Name}
use sephi.Ipc.Names.Machine.{binds, unbinds, Journal, machine, machine_laws}
use sephi.Ipc.SharedMemory.{
  SharedMemory, create_only, open_only, open_or_create, destroy, move_assign, holding,
}
use sephi.Ipc.SharedMemory.Program.{
  Input, creates, opens, opens_or_creates, moves, step, begin, move,
}
use sephi.Ipc.SharedMemory.Sharing.{objects_share_segment, destroyed_name_splits}

abbrev queue_a : Name
queue_a = 97 ∷ []

abbrev queue_b : Name
queue_b = 98 ∷ []

-- One object creates the segment, one opens it, a third opens or creates it and is moved.
abbrev three_objects : List Input
three_objects =
    creates 0 queue_a 64
    ∷ opens 1 queue_a
    ∷ creates 2 queue_b 64
    ∷ opens_or_creates 3 queue_a 64
    ∷ moves 2 3
    ∷ []

abbrev of_a : SharedMemory ℕ
of_a = record { memory = some 0; name = queue_a }

objects_share_segment_example : ◌≡◌ {A = ℕ} 0 0
unfolding step create_only open_only open_or_create holding begin move move_assign
objects_share_segment_example =
    objects_share_segment machine machine_laws queue_a [] three_objects
      (tt, (tt, (tt, (tt, (tt, tt))))) 0 2 of_a of_a 0 0 refl refl refl refl refl refl

abbrev journal : Journal
journal = binds queue_a ∷ []

destroyed_name_splits_example :
    (open_only machine queue_a (destroy machine of_a journal) ≡ none) × (◌≢◌ {A = ℕ} 1 0)
unfolding create_only destroy holding
destroyed_name_splits_example =
    destroyed_name_splits machine machine_laws queue_a journal of_a of_a
      (record { memory = some 1; name = queue_a }) 0 1 64
      (binds queue_a ∷ unbinds queue_a ∷ journal) refl refl refl refl refl
