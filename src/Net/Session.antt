-- ===== src/Net/Session.antt =====
-- include/sephi/net/tcp/server/session.h and src/net/tcp/server/session.cpp: a session of the TCP
-- server, as far as it concerns the object alone. What its handlers do to the server is in
-- Server.antt.
--
-- The record holds the members of the class and, below them, what asio has been asked to do: whether
-- the socket is shut down, how many reads are under way, the writes under way, and all the chunks
-- given to `async_write`.
pub mod Threads
use sephi.Base.{
  ℕ, ◌+◌, ◌≡◌, List, [], ◌∷◌, ◌++◌, Bool, true, false, if◌then◌else◌, is_empty, tail, arith,
  append_assoc, append-nil,
}
use sephi.Net.Types.{Chunk, PacketBuffer, zero_buffer}
use sephi.Net.SendLoop.{OneWrite, flow}

pub record Session : Type 0 where
  pub received_packet : PacketBuffer
  pub sending_messages : List Chunk
  pub is_shut : Bool
  pub reading : ℕ
  pub writing : List Chunk
  pub written : List Chunk

-- `make_shared<Session>(...)`
abbrev pub new_session : Session
new_session = record {
  received_packet = zero_buffer;
  sending_messages = [];
  is_shut = false;
  reading = 0;
  writing = [];
  written = [];
}

unfoldable pub do_read : Session → Session
do_read s = record s { reading = s.reading + 1 }

-- `front()` of an empty deque is undefined; the invariant shows that it is never taken.
start_write : List Chunk → Session → Session
start_write [] s = s
start_write (message ∷ _) s = record s {
  writing = s.writing ++ message ∷ [];
  written = s.written ++ message ∷ [];
}

unfoldable pub do_write : Session → Session
unfolding start_write
do_write s = start_write s.sending_messages s

unfoldable pub write : Chunk → Session → Session
unfolding do_write
write chunk s =
    let s' = record s { sending_messages = s.sending_messages ++ chunk ∷ [] } in
    if is_empty s.sending_messages then do_write s' else s'

-- `handle_write` without an error.
unfoldable pub pop_front : Session → Session
unfolding do_write
pop_front s =
    let s' = record s { sending_messages = tail s.sending_messages } in
    if is_empty s'.sending_messages then s' else do_write s'

-- `close`, where the shutdown succeeds.
abbrev pub shut : Session → Session
shut s = record s { is_shut = true }

abbrev pub IsSound : Session → Type 0
IsSound s = OneWrite s.writing s.sending_messages

-- The chunks given to `async_write`, and then those behind the front of the deque.
abbrev pub flow_of : Session → List Chunk
flow_of s = flow s.written s.sending_messages []

pub write-IsSound : (chunk : Chunk) (s : Session) → IsSound s → IsSound (write chunk s)
unfolding write
write-IsSound chunk s h = ground arith

pub flow_of-write :
    (chunk : Chunk) (s : Session) → flow_of (write chunk s) ≡ flow_of s ++ chunk ∷ []
unfolding write
flow_of-write chunk s = ground (
  arith,
  append-nil s.written,
  append-nil (s.written ++ chunk ∷ []),
  append-nil (tail s.sending_messages),
  append-nil (tail s.sending_messages ++ chunk ∷ []),
  append_assoc s.written (tail s.sending_messages) (chunk ∷ []),
)

pub pop_front-IsSound : (s : Session) → s.writing ≡ [] → IsSound (pop_front s)
unfolding pop_front
pop_front-IsSound s h = ground arith

pub flow_of-pop_front :
    (s : Session) (m : Chunk) (ms : List Chunk)
    → s.sending_messages ≡ m ∷ ms
    → flow_of (pop_front s) ≡ flow_of s
unfolding pop_front
flow_of-pop_front s m [] e = ground arith
flow_of-pop_front s m (n ∷ ms) e = ground (arith, append_assoc s.written (n ∷ []) (ms ++ []))

pub write-reading : (chunk : Chunk) (s : Session) → (write chunk s).reading ≡ s.reading
unfolding write
write-reading chunk s = ground arith

pub pop_front-reading : (s : Session) → (pop_front s).reading ≡ s.reading
unfolding pop_front
pop_front-reading s = ground arith
