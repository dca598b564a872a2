-- ===== src/Net/Server.antt =====
-- include/sephi/net/tcp/server/server.h and src/net/tcp/server/server.cpp: the TCP server, with the
-- handlers of its sessions (src/net/tcp/server/session.cpp).
--
-- A session is an object at an address of `heap`. It may outlive its entry in `sessions_`, since the
-- handlers that asio holds own it too, and its address, which is its id, is free again when neither
-- the map nor a handler has it. `accepting` counts the accepts under way, `reading` the reads of a
-- session. The handlers of the user are seen by the calls made to them.
mod Broadcast
mod Closing
pub mod Sending
pub mod Receiving
pub mod Invariant
pub mod Steps
pub mod Handlers
mod Unordered
mod Examples
use sephi.Base.{
  ℕ, zero, suc, ◌+◌, ◌-◌, List, [], ◌∷◌, ◌++◌, Bool, true, false, none, some, Option, if◌then◌else◌,
  ◌==◌, is_empty, pick, tail, take, length,
}
use sephi.Net.Types.{
  Chunk, PacketBuffer, zero_buffer, ConnectionState, disconnected, connected, ErrorCode, is_error,
  success, fill, Runner, running, stopped, terminated,
}
use sephi.Net.Session
use sephi.Net.Session.{Session, new_session, shut}
use sephi.Net.SessionMap.{
  SessionId, SessionPtr, SessionMap, session_ptr_to_id, find, erase, emplace,
}

pub record Server : Type 0 where
  pub sessions : SessionMap
  pub heap : SessionPtr → Session
  pub runner : Runner
  pub accepting : ℕ
  pub connection_calls : List (SessionId × ConnectionState × ErrorCode)
  pub packet_calls : List (SessionId × Chunk)

-- What the user, the runner thread and the network do next. An accepted connection names the
-- address at which its session is made; `closes` and `stops` give
-- the outcome of each session's shutdown.
pub data Input : Type 0 where
  writes_to_all : Chunk → Input
  writes_to : SessionId → Chunk → Input
  writes_to_all_except : SessionId → Chunk → Input
  closes : (SessionPtr → ErrorCode) → Input
  stops : (SessionPtr → ErrorCode) → Input
  accept_done : ErrorCode → SessionPtr → Input
  read_done : SessionPtr → ErrorCode → Chunk → Input
  write_done : SessionPtr → ℕ → ErrorCode → Input

abbrev pub update : (SessionPtr → Session) → SessionPtr → Session → SessionPtr → Session
update heap p s q = if p == q then s else heap q

abbrev pub at : SessionPtr → (Session → Session) → Server → Server
at p f server = record server { heap = update server.heap p (f (server.heap p)) }

-- The loop of `write_to_all`.
pub write_each : Chunk → SessionMap → Server → Server
write_each chunk [] server = server
write_each chunk ((id, p) ∷ m) server = write_each chunk m (at p (Session.write chunk) server)

pub write_to_all : Chunk → Server → Server
unfolding write_each
write_to_all chunk server = write_each chunk server.sessions server

pub write_to : SessionId → Chunk → Server → Server × Bool
write_to session_id chunk server = elim (find session_id server.sessions) [
  | none ↦ (server, false)
  | some session ↦ (at session (Session.write chunk) server, true)
]

-- The loop of `write_to_all_except`.
pub write_each_except : SessionId → Chunk → SessionMap → Server → Server
write_each_except session_id chunk [] server = server
write_each_except session_id chunk ((id, p) ∷ m) server =
    write_each_except session_id chunk m
      (if session_id == id then server else at p (Session.write chunk) server)

pub write_to_all_except : SessionId → Chunk → Server → Server
unfolding write_each_except
write_to_all_except session_id chunk server =
    write_each_except session_id chunk server.sessions server

pub leave : SessionPtr → ErrorCode → Server → Server
leave session ec server = record server {
  sessions = erase (session_ptr_to_id session) server.sessions;
  connection_calls = server.connection_calls ++ (session_ptr_to_id session, disconnected, ec) ∷ [];
}

-- The loop of `close`: `leave` erases the entry that the iterator has just left. A shutdown that
-- fails throws, out of `close`.
pub close_each : (SessionPtr → ErrorCode) → SessionMap → Server → Server × Bool
unfolding leave
close_each errors [] server = (server, true)
close_each errors ((id, p) ∷ m) server =
    let rest = close_each errors m (leave p success (at p shut server)) in
    if is_error (errors p) then (server, false) else rest

pub close : (SessionPtr → ErrorCode) → Server → Server × Bool
unfolding close_each
close errors server = close_each errors server.sessions server

-- The destructor: `close()`, `io_context_.stop()`, `runner_.join()`. A destructor is `noexcept`: what
-- `close` throws ends the process.
pub stop : (SessionPtr → ErrorCode) → Server → Server
unfolding close
stop errors server =
    let (server', is_closed) = close errors server in
    record server' { runner = if is_closed then stopped else terminated }

pub do_accept : Server → Server
do_accept server = record server { accepting = server.accepting + 1 }

-- The session at its address, and the call of the connection handler, which is made before the
-- session is in the map.
pub announce : ErrorCode → SessionPtr → Server → Server
announce ec session_ptr server = record server {
  heap = update server.heap session_ptr new_session;
  connection_calls = server.connection_calls ++ (session_ptr_to_id session_ptr, connected, ec) ∷ [];
}

-- `Session::start` is `do_read`.
pub register : SessionPtr → Server → Server
unfolding Session.do_read
register session_ptr server = at session_ptr Session.do_read (record server {
  sessions = emplace (session_ptr_to_id session_ptr) session_ptr server.sessions;
})

pub handle_accept : ErrorCode → SessionPtr → Server → Server
unfolding do_accept announce register
handle_accept ec session_ptr server =
    if is_error ec
    then do_accept server
    else do_accept (register session_ptr (announce ec session_ptr server))

-- The constructor: the first accept.
unfoldable pub construct : Server
unfolding do_accept
construct = do_accept (record {
  sessions = [];
  heap = λ _. new_session;
  runner = running;
  accepting = 0;
  connection_calls = [];
  packet_calls = [];
})

-- `Session::handle_read`. The packet handler is given the first `size` bytes of the buffer.
pub handle_read : SessionPtr → ErrorCode → ℕ → Server → Server
unfolding leave Session.do_read
handle_read session ec size server =
    if is_error ec
    then leave session ec server
    else at session Session.do_read (record server {
      packet_calls =
          server.packet_calls
          ++ (session_ptr_to_id session, take size (server.heap session).received_packet) ∷ [];
    })

-- `Session::handle_write`
pub handle_write : SessionPtr → ErrorCode → Server → Server
unfolding leave Session.pop_front
handle_write session ec server =
    if is_error ec then leave session ec server else at session Session.pop_front server

pub complete_accept : ℕ → ErrorCode → SessionPtr → Server → Server
unfolding handle_accept
complete_accept zero ec p server = server
complete_accept (suc others) ec p server = handle_accept ec p (record server { accepting = others })

pub complete_read : ℕ → SessionPtr → ErrorCode → Chunk → Server → Server
unfolding handle_read
complete_read zero p ec bytes server = server
complete_read (suc others) p ec bytes server = handle_read p ec (length bytes) (
    at p (λ s. record s { reading = others; received_packet = fill bytes s.received_packet })
      server)

pub complete_write : Option (Chunk × List Chunk) → SessionPtr → ErrorCode → Server → Server
unfolding handle_write
complete_write none p ec server = server
complete_write (some (_, others)) p ec server =
    handle_write p ec (at p (λ s. record s { writing = others }) server)

pub dispatch : Input → Server → Server
unfolding write_to_all write_to write_to_all_except close stop complete_accept complete_read
    complete_write
dispatch (writes_to_all chunk) server = write_to_all chunk server
dispatch (writes_to id chunk) server = (write_to id chunk server).0
dispatch (writes_to_all_except id chunk) server = write_to_all_except id chunk server
dispatch (closes errors) server = (close errors server).0
dispatch (stops errors) server = stop errors server
dispatch (accept_done ec p) server = complete_accept server.accepting ec p server
dispatch (read_done p ec bytes) server = complete_read (server.heap p).reading p ec bytes server
dispatch (write_done p i ec) server = complete_write (pick i (server.heap p).writing) p ec server

unfoldable pub step : Server → Input → Server
unfolding dispatch
step server i = elim server.runner [
  | running ↦ dispatch i server
  | stopped ↦ server
  | terminated ↦ server
]
