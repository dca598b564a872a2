-- ===== src/Ipc/MessageQueue/Laws.antt =====
-- What Boost documents of a queue that has room and of one that holds a message: the laws of the
-- parameter of MessageQueue.antt.
use sephi.Base.{ℕ, ◌≡◌, ◌≤◌, ◌<◌, List, ◌∷◌, true, length, take}
use sephi.Net.Types.{Chunk, fill}
use sephi.Ipc.MessageQueue.{returns, Slots, QueueOps}
use sephi.Ipc.MessageQueue.Priorities.{Message, insert}

module _ {Object World : Type 0} (ops : QueueOps Object World) where
  open ops use {
    send_to, try_send_to, timed_send_to, receive_from, try_receive_from, timed_receive_from,
    max_msg, max_msg_size, num_msg,
  }

  -- A receiving call that takes the message `(p, c)` into the slots.
  abbrev pub filled : Message → Slots → Slots
  filled (p, c) slots = record { buffer = fill c slots.buffer; rcvd_size = length c; priority = p }

  -- Boost's documentation of a queue that has room, and of one that holds a message. `same` relates
  -- the objects of one queue. A receiving call needs a buffer for the greatest message.
  pub record QueueLaws (same : Object → Object → Type 0) : Type 0 where
    pub messages : Object → World → List Message
    pub same-messages : (o o' : Object) (w : World) → same o o' → messages o w ≡ messages o' w
    pub num_msg-messages : (o : Object) (w : World) → num_msg o w ≡ length (messages o w)
    pub send-room :
        (o : Object) (c : Chunk) (size p : ℕ) (w : World)
        → num_msg o w < max_msg o
        → size ≤ max_msg_size o
        → (w' : World) × (send_to o c size p w ≡ returns w')
          × (messages o w' ≡ insert (p, take size c) (messages o w))
    pub try_send-room :
        (o : Object) (c : Chunk) (size p : ℕ) (w : World)
        → num_msg o w < max_msg o
        → size ≤ max_msg_size o
        → (w' : World) × (try_send_to o c size p w ≡ returns (true, w'))
          × (messages o w' ≡ insert (p, take size c) (messages o w))
    pub timed_send-room :
        (o : Object) (c : Chunk) (size p deadline : ℕ) (w : World)
        → num_msg o w < max_msg o
        → size ≤ max_msg_size o
        → (w' : World) × (timed_send_to o c size p deadline w ≡ returns (true, w'))
          × (messages o w' ≡ insert (p, take size c) (messages o w))
    pub receive-first :
        (o : Object) (size : ℕ) (slots : Slots) (w : World) (m : Message) (ms : List Message)
        → messages o w ≡ m ∷ ms
        → max_msg_size o ≤ size
        → (w' : World) × (receive_from o size slots w ≡ returns (filled m slots, w'))
          × (messages o w' ≡ ms)
    pub try_receive-first :
        (o : Object) (size : ℕ) (slots : Slots) (w : World) (m : Message) (ms : List Message)
        → messages o w ≡ m ∷ ms
        → max_msg_size o ≤ size
        → (w' : World) × (try_receive_from o size slots w ≡ returns (true, filled m slots, w'))
          × (messages o w' ≡ ms)
    pub timed_receive-first :
        (o : Object) (size deadline : ℕ) (slots : Slots) (w : World) (m : Message)
        (ms : List Message)
        → messages o w ≡ m ∷ ms
        → max_msg_size o ≤ size
        → (w' : World) × (timed_receive_from o size deadline slots w
            ≡ returns (true, filled m slots, w'))
          × (messages o w' ≡ ms)
