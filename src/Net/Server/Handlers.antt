-- ===== src/Net/Server/Handlers.antt =====
-- The server of src/net/tcp/server/server.cpp and its sessions, with handlers of the user that write.
--
-- What a handler does when it is called is up to the user: an input comes with the chunks that a
-- handler called in it writes, in order, inside of the server's own handler, for the session that it
-- is called for; `close` calls the connection handler for each of its sessions.
pub mod Calls
mod Accepting
mod Pouring
mod Ahead
pub mod Order
pub mod Sequential
pub mod Closing
mod Examples
use sephi.Base.{
  ℕ, zero, suc, List, [], ◌∷◌, ◌++◌, Bool, true, false, Option, none, some, if◌then◌else◌, pick,
  take, length, foldl,
}
use sephi.Net.Types.{Chunk, ErrorCode, is_error, fill, running, stopped, terminated, success}
use sephi.Net.Session
use sephi.Net.Session.{shut}
use sephi.Net.SessionMap.{SessionId, SessionPtr, SessionMap, session_ptr_to_id}
use sephi.Net.Server
use sephi.Net.Server.{
  Server, Input, closes, stops, accept_done, read_done, write_done, at, write_to_all, write_to,
  write_to_all_except, do_accept, announce, register,
}

pub data Call : Type 0 where
  calls_write_to_all : Chunk → Call
  calls_write_to : SessionId → Chunk → Call
  calls_write_to_all_except : SessionId → Chunk → Call

unfoldable pub call : Server → Call → Server
unfolding write_to_all write_to write_to_all_except
call server (calls_write_to_all chunk) = write_to_all chunk server
call server (calls_write_to id chunk) = (write_to id chunk server).0
call server (calls_write_to_all_except id chunk) = write_to_all_except id chunk server

pub leave : SessionPtr → ErrorCode → List Call → Server → Server
unfolding call Server.leave
leave session ec calls server = foldl call (Server.leave session ec server) calls

pub handle_read : SessionPtr → ErrorCode → ℕ → List Call → Server → Server
unfolding call leave Session.do_read
handle_read session ec size calls server =
    if is_error ec
    then leave session ec calls server
    else at session Session.do_read (
        foldl call
          (record server {
            packet_calls =
                server.packet_calls
                ++ (session_ptr_to_id session, take size (server.heap session).received_packet)
                  ∷ [];
          })
          calls)

pub handle_write : SessionPtr → ErrorCode → List Call → Server → Server
unfolding leave Session.pop_front
handle_write session ec calls server =
    if is_error ec then leave session ec calls server else at session Session.pop_front server

-- The connection handler is called before the session is in the map.
pub handle_accept : ErrorCode → SessionPtr → List Call → Server → Server
unfolding call do_accept announce register
handle_accept ec session_ptr calls server =
    if is_error ec
    then do_accept server
    else do_accept (register session_ptr (foldl call (announce ec session_ptr server) calls))

complete_accept : ℕ → ErrorCode → SessionPtr → List Call → Server → Server
unfolding handle_accept
complete_accept zero ec p calls server = server
complete_accept (suc others) ec p calls server =
    handle_accept ec p calls (record server { accepting = others })

complete_read : ℕ → SessionPtr → ErrorCode → Chunk → List Call → Server → Server
unfolding handle_read
complete_read zero p ec bytes calls server = server
complete_read (suc others) p ec bytes calls server = handle_read p ec (length bytes) calls (
    at p (λ s. record s { reading = others; received_packet = fill bytes s.received_packet })
      server)

complete_write : Option (Chunk × List Chunk) → SessionPtr → ErrorCode → List Call → Server → Server
unfolding handle_write
complete_write none p ec calls server = server
complete_write (some (_, others)) p ec calls server =
    handle_write p ec calls (at p (λ s. record s { writing = others }) server)

-- The loop of `close`: the connection handler is called for each session that has left.
close_each :
    (SessionPtr → ErrorCode) → (SessionPtr → List Call) → SessionMap → Server → Server × Bool
unfolding leave
close_each errors calls [] server = (server, true)
close_each errors calls ((id, p) ∷ m) server =
    let rest = close_each errors calls m (leave p success (calls p) (at p shut server)) in
    if is_error (errors p) then (server, false) else rest

unfoldable pub close : (SessionPtr → ErrorCode) → (SessionPtr → List Call) → Server → Server × Bool
unfolding close_each
close errors calls server = close_each errors calls server.sessions server

pub stop : (SessionPtr → ErrorCode) → (SessionPtr → List Call) → Server → Server
unfolding close
stop errors calls server =
    let (server', is_closed) = close errors calls server in
    record server' { runner = if is_closed then stopped else terminated }

-- The calls of the handler that is called for a session.
dispatch : Input → (SessionPtr → List Call) → Server → Server
unfolding complete_accept complete_read complete_write close stop Server.step
dispatch (closes errors) calls server = (close errors calls server).0
dispatch (stops errors) calls server = stop errors calls server
dispatch (accept_done ec p) calls server = complete_accept server.accepting ec p (calls p) server
dispatch (read_done p ec bytes) calls server =
    complete_read (server.heap p).reading p ec bytes (calls p) server
dispatch (write_done p i ec) calls server =
    complete_write (pick i (server.heap p).writing) p ec (calls p) server
dispatch i calls server = Server.step server i

unfoldable pub step : Server → Input × (SessionPtr → List Call) → Server
unfolding dispatch
step server (i, calls) = elim server.runner [
  | running ↦ dispatch i calls server
  | stopped ↦ server
  | terminated ↦ server
]
