-- ===== src/Net/Server/Receiving.antt =====
-- What the handlers of the server's user are told.
use sephi.Base.{
  ◌≡◌, ℕ, zero, suc, List, [], ◌∷◌, ◌++◌, foldl, foldl-log, outputs, refl, sym, if◌then◌else◌,
  arith, true, false, append-nil,
}
use sephi.Net.Types.{Chunk, ErrorCode, success, is_error, running, stopped, terminated, take-fill}
use sephi.Net.Session.{shut}
use sephi.Net.SessionMap.{SessionId, SessionPtr, SessionMap, find-emplace}
use sephi.Net.Server.{
  Server, Input, writes_to_all, writes_to_all_except, closes, stops, read_done, at, leave,
  close_each, construct, dispatch, step, write_to, announce, handle_accept,
}
use sephi.Net.Server.Broadcast.{write_each_frame, write_each_except_frame}
use sephi.Net.Server.Invariant.{IsFree}

close_each-packet_calls :
    (errors : SessionPtr → ErrorCode) (m : SessionMap) (server : Server)
    → (close_each errors m server).0.packet_calls ≡ server.packet_calls
unfolding close_each
close_each-packet_calls errors [] server = refl
close_each-packet_calls errors ((k, p) ∷ m) server =
    ground (arith, close_each-packet_calls errors m (leave p success (at p shut server)))

-- The bytes of a session's read that completes without an error.
received_by : Input → Server → List (SessionId × Chunk)
received_by (read_done p ec bytes) server = elim (server.heap p).reading [
  | zero ↦ []
  | suc _ ↦ if is_error ec then [] else (p, bytes) ∷ []
]
received_by _ server = []

unfoldable pub received : Server → Input → List (SessionId × Chunk)
unfolding received_by
received server i = elim server.runner [ running ↦ received_by i server | _ ↦ [] ]

dispatch-packet_calls :
    (i : Input) (server : Server)
    → (dispatch i server).packet_calls ≡ server.packet_calls ++ received_by i server
unfolding dispatch received_by
dispatch-packet_calls (writes_to_all chunk) server =
    ground (arith, write_each_frame chunk server.sessions server, append-nil server.packet_calls)
dispatch-packet_calls (writes_to_all_except id chunk) server =
    ground (
      arith,
      write_each_except_frame id chunk server.sessions server,
      append-nil server.packet_calls,
    )
dispatch-packet_calls (closes errors) server =
    ground
      (arith, close_each-packet_calls errors server.sessions server, append-nil server.packet_calls)
dispatch-packet_calls (stops errors) server =
    ground
      (arith, close_each-packet_calls errors server.sessions server, append-nil server.packet_calls)
dispatch-packet_calls (read_done p ec bytes) server =
    ground (arith, append-nil server.packet_calls, take-fill bytes (server.heap p).received_packet)
dispatch-packet_calls _ server = ground (arith, append-nil server.packet_calls)

pub step-packet_calls :
    (server : Server) (i : Input)
    → (step server i).packet_calls ≡ server.packet_calls ++ received server i
unfolding step received
step-packet_calls server i =
    elim server.runner
      as (λ r.
        (elim r as (λ x. Server) [
          | running ↦ dispatch i server
          | stopped ↦ server
          | terminated ↦ server
        ]).packet_calls
        ≡ server.packet_calls ++ (elim r as (λ x. List (SessionId × Chunk)) [
          | running ↦ received_by i server
          | stopped ↦ []
          | terminated ↦ []
        ])) [
          | running ↦ dispatch-packet_calls i server
          | stopped ↦ sym (append-nil _)
          | terminated ↦ sym (append-nil _)
        ]

-- In every run of a constructed server the packet handler has been called with exactly the bytes of
-- the sessions' reads that completed without an error, each with the id of its session, in order.
pub session_packets-received :
    (is : List Input) → (foldl step construct is).packet_calls ≡ outputs step received construct is
unfolding construct
session_packets-received is =
    foldl-log (λ s. s.packet_calls) step received step-packet_calls construct is

-- The completion of a read without an error asks for the next read.
pub read_done-awaits :
    (a : SessionPtr) (bytes : Chunk) (server : Server) (others : ℕ)
    → server.runner ≡ running
    → (server.heap a).reading ≡ suc others
    → let server' = step server (read_done a success bytes) in
      (server'.runner ≡ running) × ((server'.heap a).reading ≡ suc others)
unfolding step
read_done-awaits a bytes server others up waits = ground arith

-- A new session, made at a free address, is in the map after `handle_accept`, and `write_to` finds
-- it; but while the connection handler is told of it, it is not: a write to the session from that
-- call returns false and does nothing.
pub announced_before_found :
    (p : SessionPtr) (chunk : Chunk) (server : Server)
    → IsFree p server
    → (write_to p chunk (announce success p server) ≡ (announce success p server, false))
      × ((write_to p chunk (handle_accept success p server)).1 ≡ true)
unfolding announce handle_accept write_to
announced_before_found p chunk server free =
    (ground arith, ground (arith, find-emplace p p p server.sessions free.0))
