-- ===== src/Ipc/MessageQueue.antt =====
-- include/sephi/ipc/mq/message_queue.h and src/ipc/mq/message_queue.cpp, in the POSIX build: a named
-- queue of messages with priorities.
--
-- `boost_ipc::message_queue`, a changed copy of Boost's, and the clock are a parameter: the
-- constructors are `NamedObjects`, given the greatest count and size of messages, and the members
-- `QueueOps`.
mod Priorities
mod Laws
mod Programs
mod Delivery
mod Examples
use sephi.Base.{ℕ, ◌+◌, Bool, Option, none, some}
use sephi.Net.Types.{Chunk}
use sephi.Ipc.Names.{Name, NamedObjects}

-- What a call comes to: it returns, it waits for another process, or it throws.
pub data Done (A : Type 0) : Type 0 where
  returns : A → Done A
  blocks : Done A
  throws : Done A

-- The buffer and the references that a receiving call fills.
pub record Slots : Type 0 where
  pub buffer : Chunk
  pub rcvd_size : ℕ
  pub priority : ℕ

-- A time is a number of ticks of the clock.
pub record QueueOps (Object World : Type 0) : Type 0 where
  pub send_to : Object → Chunk → ℕ → ℕ → World → Done World
  pub try_send_to : Object → Chunk → ℕ → ℕ → World → Done (Bool × World)
  pub timed_send_to : Object → Chunk → ℕ → ℕ → ℕ → World → Done (Bool × World)
  pub receive_from : Object → ℕ → Slots → World → Done (Slots × World)
  pub try_receive_from : Object → ℕ → Slots → World → Done (Bool × Slots × World)
  pub timed_receive_from : Object → ℕ → ℕ → Slots → World → Done (Bool × Slots × World)
  pub max_msg : Object → ℕ
  pub max_msg_size : Object → ℕ
  pub num_msg : Object → World → ℕ
  pub universal_time : World → ℕ
  pub seconds : ℕ → ℕ

pub record MessageQueue (Object : Type 0) : Type 0 where
  pub mq : Object
  pub name : Name

-- The default argument of the sending methods.
abbrev pub priority_none : ℕ
priority_none = 0

module _ {Object World : Type 0} (names : NamedObjects (ℕ × ℕ) Object World) where
  holding : Name → Option (Object × World) → Option (MessageQueue Object × World)
  holding n none = none
  holding n (some (o, w)) = some (record { mq = o; name = n }, w)

  pub create_only : Name → ℕ → ℕ → World → Option (MessageQueue Object × World)
  unfolding holding
  create_only n max_msg_count max_msg_size w =
      holding n (names.create_only n (max_msg_count, max_msg_size) w)

  pub open_only : Name → World → Option (MessageQueue Object × World)
  unfolding holding
  open_only n w = holding n (names.open_only n w)

  pub open_or_create : Name → ℕ → ℕ → World → Option (MessageQueue Object × World)
  unfolding holding
  open_or_create n max_msg_count max_msg_size w =
      holding n (names.open_or_create n (max_msg_count, max_msg_size) w)

  -- The destructor.
  pub destroy : MessageQueue Object → World → World
  destroy m w = names.remove m.name w

module _ {Object World : Type 0} (ops : QueueOps Object World) where
  open ops use {
    send_to, try_send_to, timed_send_to, receive_from, try_receive_from, timed_receive_from,
    max_msg, max_msg_size, num_msg, universal_time, seconds,
  }

  pub posix_time_from : ℕ → World → ℕ
  posix_time_from sec w = universal_time w + seconds sec

  pub send : MessageQueue Object → Chunk → ℕ → ℕ → World → Done World
  send m buffer buffer_size priority w = send_to m.mq buffer buffer_size priority w

  pub try_send : MessageQueue Object → Chunk → ℕ → ℕ → World → Done (Bool × World)
  try_send m buffer buffer_size priority w = try_send_to m.mq buffer buffer_size priority w

  pub timed_send : MessageQueue Object → Chunk → ℕ → ℕ → ℕ → World → Done (Bool × World)
  unfolding posix_time_from
  timed_send m buffer buffer_size sec priority w =
      timed_send_to m.mq buffer buffer_size priority (posix_time_from sec w) w

  pub receive : MessageQueue Object → ℕ → Slots → World → Done (Slots × World)
  receive m buffer_size slots w = receive_from m.mq buffer_size slots w

  pub try_receive : MessageQueue Object → ℕ → Slots → World → Done (Bool × Slots × World)
  try_receive m buffer_size slots w = try_receive_from m.mq buffer_size slots w

  pub timed_receive : MessageQueue Object → ℕ → ℕ → Slots → World → Done (Bool × Slots × World)
  unfolding posix_time_from
  timed_receive m buffer_size sec slots w =
      timed_receive_from m.mq buffer_size (posix_time_from sec w) slots w

  pub get_max_msg : MessageQueue Object → ℕ
  get_max_msg m = max_msg m.mq

  pub get_max_msg_size : MessageQueue Object → ℕ
  get_max_msg_size m = max_msg_size m.mq

  pub get_num_msg : MessageQueue Object → World → ℕ
  get_num_msg m w = num_msg m.mq w
