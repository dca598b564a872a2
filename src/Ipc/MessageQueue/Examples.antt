-- ===== src/Ipc/MessageQueue/Examples.antt =====
-- Runs of the message queue: tests, and the theorem at a concrete input.
use sephi.Base.{
  ℕ, ◌*◌, ◌≡◌, List, [], ◌∷◌, ◌++◌, Bool, true, false, length, take, drop, ◌<◌, ◌≤◌, if◌then◌else◌,
  ltb, arith, refl,
}
use mathlib.Core.List.{map}
use sephi.Net.Types.{Chunk}
use sephi.Ipc.Names.{Name}
use sephi.Ipc.MessageQueue.{
  Done, returns, blocks, throws, Slots, QueueOps, MessageQueue, priority_none, try_send,
}
use sephi.Ipc.MessageQueue.Priorities.{Message, insert, of_priority, Descending}
use sephi.Ipc.MessageQueue.Laws.{filled, QueueLaws}
use sephi.Ipc.MessageQueue.Programs.{Way, waits, tries, waits_for, send_all, receive_all}
use sephi.Ipc.MessageQueue.Delivery.{sent_is_received}

-- One queue with room for three messages of up to eight bytes.
abbrev put : Chunk → ℕ → ℕ → List Message → Done (Bool × List Message)
put c size p w =
    if ltb 8 size
    then throws
    else if ltb (length w) 3
    then returns (true, insert (p, take size c) w)
    else returns (false, w)

abbrev pop : ℕ → Slots → List Message → Done (Bool × Slots × List Message)
pop size slots w = if ltb size 8 then throws else elim w [
  | [] ↦ returns (false, slots, [])
  | (p, c) ∷ ms ↦ returns (
    true,
    record { buffer = c ++ drop (length c) slots.buffer; rcvd_size = length c; priority = p },
    ms,
  )
]

abbrev one_queue : QueueOps ℕ (List Message)
one_queue = record {
  send_to = λ o c size p w. elim (put c size p w) [
    | returns (true, w') ↦ returns w'
    | returns (false, w') ↦ blocks
    | blocks ↦ blocks
    | throws ↦ throws
  ];
  try_send_to = λ o c size p w. put c size p w;
  timed_send_to = λ o c size p deadline w. put c size p w;
  receive_from = λ o size slots w. elim (pop size slots w) [
    | returns (true, slots', w') ↦ returns (slots', w')
    | returns (false, slots', w') ↦ blocks
    | blocks ↦ blocks
    | throws ↦ throws
  ];
  try_receive_from = λ o size slots w. pop size slots w;
  timed_receive_from = λ o size deadline slots w. pop size slots w;
  max_msg = λ o. 3;
  max_msg_size = λ o. 8;
  num_msg = λ o w. length w;
  universal_time = λ w. 0;
  seconds = λ sec. 1000000 * sec;
}

put-room :
    (c : Chunk) (size p : ℕ) (w : List Message)
    → length w < 3
    → size ≤ 8
    → put c size p w ≡ returns (true, insert (p, take size c) w)
put-room c size p w room small = ground arith

pop-first :
    (size : ℕ) (slots : Slots) (m : Message) (ms : List Message)
    → 8 ≤ size
    → pop size slots (m ∷ ms) ≡ returns (true, filled one_queue m slots, ms)
pop-first size slots (p, c) ms fits = ground arith

one_queue_laws : QueueLaws one_queue (λ _ _. Unit)
one_queue_laws = record {
  messages = λ o w. w;
  same-messages = λ o o' w s. refl;
  num_msg-messages = λ o w. refl;
  send-room = λ o c size p w room small.
      (insert (p, take size c) w, rw (one_queue, put-room c size p w room small) refl, refl);
  try_send-room =
      λ o c size p w room small. (insert (p, take size c) w, put-room c size p w room small, refl);
  timed_send-room = λ o c size p deadline w room small.
      (insert (p, take size c) w, put-room c size p w room small, refl);
  receive-first = λ o size slots w m ms first fits.
      (ms, rw (first, one_queue, pop-first size slots m ms fits) refl, refl);
  try_receive-first =
      λ o size slots w m ms first fits. (ms, rw (first) (pop-first size slots m ms fits), refl);
  timed_receive-first = λ o size deadline slots w m ms first fits.
      (ms, rw (first) (pop-first size slots m ms fits), refl);
}

abbrev queue_name : Name
queue_name = 113 ∷ []

abbrev sender : MessageQueue ℕ
sender = record { mq = 0; name = queue_name }

abbrev receiver : MessageQueue ℕ
receiver = record { mq = 1; name = queue_name }

abbrev three_messages : List (Way × Message)
three_messages =
    (waits, (priority_none, 1 ∷ 2 ∷ [])) ∷ (tries, (5, 3 ∷ [])) ∷ (waits_for 2, (5, 4 ∷ [])) ∷ []

abbrev three_ways : List Way
three_ways = tries ∷ waits ∷ waits_for 1 ∷ []

sent_is_received_example :
    (w' w'' : List Message) × (received : List Message) × (send_all one_queue sender three_messages
        []
      ≡ returns (true, w'))
    × (receive_all one_queue receiver 8 three_ways w' ≡ returns (received, w''))
    × Descending received
    × ((p : ℕ) → of_priority p received ≡ of_priority p (map (λ s. s.1) three_messages))
    × (w'' ≡ [])
unfolding one_queue_laws
sent_is_received_example =
    sent_is_received one_queue (λ _ _. Unit) one_queue_laws sender receiver three_messages
      three_ways 8 [] tt refl (omega arith) (omega arith, (omega arith, (omega arith, tt)))
      (omega arith) refl

-- The queue is full: a fourth message is not sent, and the queue stays as it was.
fourth_is_refused :
    (w : List Message)
    → length w ≡ 3
    → try_send one_queue sender (9 ∷ []) 1 priority_none w ≡ returns (false, w)
unfolding try_send
fourth_is_refused w full = ground arith
