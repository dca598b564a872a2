-- ===== src/Net/Link/Echo.antt =====
-- A server whose packet handler writes back what it is given, and its client: what comes back.
pub mod Session
pub mod Return
pub mod Completion
mod Phases
pub mod Settling
use sephi.Base.{
  ◌≡◌, ◌∙◌, ap, sym, refl, ℕ, zero, suc, inl, inr, List, [], ◌∷◌, ◌++◌, tail, drop, length, foldl,
  All, foldl_inv_if, outputs, if◌then◌else◌, ◌==◌, ◌&&◌, Bool, Bool-cases, true, false, Option,
  Option-cases, none, some, arith, append-nil, append_assoc, pick,
}
use sephi.Net.Types.{Chunk, success, max_buffer_size, running, stopped, terminated}
use sephi.Net.Session.{flow_of}
use sephi.Net.SessionMap.{SessionPtr, holds}
use sephi.Net.Client
use sephi.Net.Client.{Client}
use sephi.Net.Client.Sending.{chunks}
use sephi.Net.Server
use sephi.Net.Server.{Server}
use sephi.Net.Server.Invariant.{Inv}
use sephi.Net.Server.Steps.{step-Inv}
use sephi.Net.Server.Sending.{SpareAddress, addressed, step-flow_of}
use sephi.Net.Server.Receiving.{received, step-packet_calls}
use sephi.Net.Server.Handlers
use sephi.Net.Server.Handlers.{calls_write_to}
use sephi.Net.Server.Handlers.Order.{Agrees, order, sequential, step-Agrees}
use sephi.Net.Stream.{Stream, StreamLaws, bytes_of, bytes_of-append, drop-append, transmit_all}
use sephi.Net.Link
use sephi.Net.Link.{Link, session_awaits, run_server}
use sephi.Net.Link.Upstream.{
  bytes_from, bytes_from-append, CarriedUp, run_server-CarriedUp, step-CarriedUp, received_read,
  client_flow, accepted_up, step-client_flow,
}
use sephi.Net.Link.Downstream.{
  LeavesClient, CarriedDown, run_server-CarriedDown, step-CarriedDown, addressed_read,
}

-- `session_writes` is the end of a write of the session, `server_echoes` a read of it, with what the
-- packet handler does.
pub data Input : Type 0 where
  client_does : Client.Input → Input
  client_reads : ℕ → Input
  session_writes : ℕ → Input
  server_echoes : Input

module _ {Ip S : Type 0} (stream : Stream S) (a : SessionPtr) where
  pub echo : Option (Chunk × S) → Link Ip S → Link Ip S
  echo none l = l
  echo (some (bytes, up')) l =
      let server' =
        Handlers.step l.server
          (Server.read_done a success bytes, λ _. calls_write_to a bytes ∷ []) in
      record l {
        server = server';
        up = up';
        down =
            transmit_all stream (drop (length (l.server.heap a).written) (server'.heap a).written)
              l.down;
      }

  unfoldable pub step : Link Ip S → Input → Link Ip S
  unfolding echo Link.step
  step l (client_does i) = Link.step stream a l (Link.client_does i)
  step l (client_reads k) = Link.step stream a l (Link.client_reads k)
  step l (session_writes k) =
      Link.step stream a l (Link.server_does (Server.write_done a k success))
  step l server_echoes =
      if session_awaits a l.server then echo (stream.receive max_buffer_size l.up) l else l
