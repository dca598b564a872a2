-- ===== src/Ipc/MessageQueue/Programs.antt =====
-- Programs of a client of MessageQueue.antt: some messages are sent, or received, one after the other.
use sephi.Base.{ℕ, List, [], ◌∷◌, Bool, true, false, length, take, replicate}
use sephi.Ipc.MessageQueue.{
  Done, returns, blocks, throws, Slots, QueueOps, MessageQueue, send, try_send, timed_send, receive,
  try_receive, timed_receive,
}
use sephi.Ipc.MessageQueue.Priorities.{Message}

-- The three ways to send or to receive; the last waits for so many seconds.
pub data Way : Type 0 where
  waits tries : Way
  waits_for : ℕ → Way

abbrev pub blank : ℕ → Slots
blank size = record { buffer = replicate size 0; rcvd_size = 0; priority = 0 }

abbrev pub taken : Slots → Message
taken slots = (slots.priority, take slots.rcvd_size slots.buffer)

module _ {Object World : Type 0} (ops : QueueOps Object World) where
  unfoldable pub send_by : MessageQueue Object → Way → Message → World → Done (Bool × World)
  unfolding send try_send timed_send
  send_by m waits (p, c) w = elim (send ops m c (length c) p w) [
    | returns w' ↦ returns (true, w')
    | blocks ↦ blocks
    | throws ↦ throws
  ]
  send_by m tries (p, c) w = try_send ops m c (length c) p w
  send_by m (waits_for sec) (p, c) w = timed_send ops m c (length c) sec p w

  unfoldable pub receive_by : MessageQueue Object → Way → ℕ → World → Done (Bool × Slots × World)
  unfolding receive try_receive timed_receive
  receive_by m waits size w = elim (receive ops m size (blank size) w) [
    | returns (slots, w') ↦ returns (true, slots, w')
    | blocks ↦ blocks
    | throws ↦ throws
  ]
  receive_by m tries size w = try_receive ops m size (blank size) w
  receive_by m (waits_for sec) size w = timed_receive ops m size sec (blank size) w

  -- A program that sends some messages; it stops at the first that is not sent.
  unfoldable pub send_all : MessageQueue Object → List (Way × Message) → World → Done (Bool × World)
  unfolding send_by
  send_all m [] w = returns (true, w)
  send_all m ((way, msg) ∷ rest) w = elim (send_by m way msg w) [
    | returns (true, w') ↦ send_all m rest w'
    | returns (false, w') ↦ returns (false, w')
    | blocks ↦ blocks
    | throws ↦ throws
  ]

  -- A program that receives some messages.
  unfoldable pub receive_all :
      MessageQueue Object → ℕ → List Way → World → Done (List Message × World)
  unfolding receive_by
  receive_all m size [] w = returns ([], w)
  receive_all m size (way ∷ rest) w = elim (receive_by m way size w) [
    | returns (true, slots, w') ↦ elim (receive_all m size rest w') [
      | returns (ms, w'') ↦ returns (taken slots ∷ ms, w'')
      | blocks ↦ blocks
      | throws ↦ throws
    ]
    | returns (false, slots, w') ↦ returns ([], w')
    | blocks ↦ blocks
    | throws ↦ throws
  ]
