-- ===== src/Net/Link/Echo/Session.antt =====
-- What the session of a server that echoes is given.
use sephi.Base.{◌≡◌, ◌∙◌, ap, sym, ℕ, [], ◌∷◌, ◌++◌, foldl, true, arith, append-nil}
use sephi.Net.Types.{Chunk, success, running}
use sephi.Net.Session.{flow_of}
use sephi.Net.SessionMap.{SessionPtr, holds}
use sephi.Net.Server
use sephi.Net.Server.{Server}
use sephi.Net.Server.Invariant.{Inv}
use sephi.Net.Server.Steps.{step-Inv}
use sephi.Net.Server.Sending.{SpareAddress, addressed, step-flow_of}
use sephi.Net.Server.Receiving.{received, step-packet_calls}
use sephi.Net.Server.Handlers
use sephi.Net.Server.Handlers.{calls_write_to}
use sephi.Net.Server.Handlers.Order.{Agrees, order, sequential, step-Agrees}
use sephi.Net.Stream.{bytes_of, bytes_of-append}
use sephi.Net.Link.{session_awaits}
use sephi.Net.Link.Upstream.{bytes_from, bytes_from-append, received_read}
use sephi.Net.Link.Downstream.{addressed_read}

-- The packet handler's write is as if made after the step.
pub handled :
    (a : SessionPtr) (server : Server) (bytes : Chunk)
    → session_awaits a server ≡ true
    → Inv server
    → Handlers.step server (Server.read_done a success bytes, λ _. calls_write_to a bytes ∷ [])
      ≡ Server.step
          (Server.step server (Server.read_done a success bytes))
          (Server.writes_to a bytes)
unfolding Agrees sequential order
handled a server bytes waits v =
    let calls = λ (_ : SessionPtr). calls_write_to a bytes ∷ [] in
    let rd = Server.read_done a success bytes in
    let in_order : sequential server (rd, calls) ≡ rd ∷ Server.writes_to a bytes ∷ [] =
      ground arith in
    step-Agrees server rd calls tt v ∙ ap (foldl Server.step server) in_order

pub written_read :
    (a : SessionPtr) (server : Server) (bytes : Chunk)
    → ((Server.step server (Server.read_done a success bytes)).heap a).written
      ≡ (server.heap a).written
unfolding Server.step
written_read a server bytes = ground arith

-- A running server with the session in its map has given the session what its packets are.
pub record Echoes (a : SessionPtr) (server : Server) : Type 0 where
  pub runs : server.runner ≡ running
  pub held : holds a server.sessions ≡ true
  pub echoed : bytes_of (flow_of (server.heap a)) ≡ bytes_from a server.packet_calls

flow_bytes :
    (a : SessionPtr) (server : Server) (j : Server.Input)
    → Inv server
    → SpareAddress a j
    → bytes_of (flow_of ((Server.step server j).heap a))
      ≡ bytes_of (flow_of (server.heap a)) ++ bytes_of (addressed a server j)
flow_bytes a server j v spare =
    ap bytes_of (step-flow_of a server j v spare)
    ∙ bytes_of-append (flow_of (server.heap a)) (addressed a server j)

packet_bytes :
    (a : SessionPtr) (server : Server) (j : Server.Input)
    → bytes_from a (Server.step server j).packet_calls
      ≡ bytes_from a server.packet_calls ++ bytes_from a (received server j)
packet_bytes a server j =
    ap (bytes_from a) (step-packet_calls server j)
    ∙ bytes_from-append a server.packet_calls (received server j)

done-held :
    (a : SessionPtr) (k : ℕ) (server : Server)
    → Echoes a server
    → let server' = Server.step server (Server.write_done a k success) in
      (server'.runner ≡ running) × (holds a server'.sessions ≡ true)
unfolding Server.step
done-held a k server h = (ground (arith, h.runs), ground (arith, h.runs, h.held))

done_nothing :
    (a : SessionPtr) (k : ℕ) (server : Server)
    → let j = Server.write_done a k success in
      (addressed a server j ≡ []) × (received server j ≡ [])
unfolding addressed received
done_nothing a k server = (ground arith, ground arith)

pub done-Echoes :
    (a : SessionPtr) (k : ℕ) (server : Server)
    → Inv server
    → Echoes a server
    → Echoes a (Server.step server (Server.write_done a k success))
done-Echoes a k server v h =
    let j = Server.write_done a k success in
    let (up, held) = done-held a k server h in
    let (none_to, none_from) = done_nothing a k server in
    record {
      runs = up;
      held = held;
      echoed =
          flow_bytes a server j v tt
          ∙ (rw (none_to) (
                append-nil (bytes_of (flow_of (server.heap a)))
                ∙ (h.echoed ∙ sym (append-nil (bytes_from a server.packet_calls))))
              ∙ sym (
                  packet_bytes a server j
                  ∙ ap (λ r. bytes_from a server.packet_calls ++ bytes_from a r) none_from));
    }

read-held :
    (a : SessionPtr) (bytes : Chunk) (server : Server)
    → Echoes a server
    → let server' = Server.step server (Server.read_done a success bytes) in
      (server'.runner ≡ running) × (holds a server'.sessions ≡ true)
unfolding Server.step
read-held a bytes server h = (ground (arith, h.runs), ground (arith, h.runs, h.held))

write-held :
    (a : SessionPtr) (bytes : Chunk) (server : Server)
    → server.runner ≡ running
    → holds a server.sessions ≡ true
    → let server' = Server.step server (Server.writes_to a bytes) in
      (server'.runner ≡ running) × (holds a server'.sessions ≡ true)
unfolding Server.step
write-held a bytes server up held = (ground arith, ground arith)

written_back :
    (a : SessionPtr) (bytes : Chunk) (server : Server)
    → server.runner ≡ running
    → holds a server.sessions ≡ true
    → let j = Server.writes_to a bytes in
      (addressed a server j ≡ bytes ∷ []) × (received server j ≡ [])
unfolding addressed received
written_back a bytes server up held = (ground arith, ground arith)

pub echo-Echoes :
    (a : SessionPtr) (server : Server) (bytes : Chunk)
    → session_awaits a server ≡ true
    → Inv server
    → Echoes a server
    → Echoes a (
        Server.step
          (Server.step server (Server.read_done a success bytes))
          (Server.writes_to a bytes))
echo-Echoes a server bytes waits v h =
    let rd = Server.read_done a success bytes in
    let wr = Server.writes_to a bytes in
    let s1 = Server.step server rd in
    let (up1, held1) = read-held a bytes server h in
    let (up2, held2) = write-held a bytes s1 up1 held1 in
    let (back, none_from) = written_back a bytes s1 up1 held1 in
    let v1 = step-Inv server rd tt v in
    record {
      runs = up2;
      held = held2;
      echoed = ground (
        arith,
        flow_bytes a server rd v tt,
        addressed_read a server bytes,
        flow_bytes a s1 wr v1 tt,
        back,
        packet_bytes a server rd,
        received_read a server bytes waits,
        packet_bytes a s1 wr,
        none_from,
        h.echoed,
        append-nil bytes,
        append-nil (bytes_of (flow_of (server.heap a))),
        append-nil (bytes_from a s1.packet_calls),
      );
    }
