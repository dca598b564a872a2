-- ===== src/Net/Server/Sending.antt =====
-- What becomes of the chunks that are written to one session.
pub mod Refinement
use sephi.Base.{
  ◌≡◌, ◌≢◌, inl, inr, List, [], ◌∷◌, ◌++◌, foldl, outputs, refl, sym, ◌∙◌, ap, if◌then◌else◌, ◌==◌,
  pick, arith, some, none, Option, true, false, Bool, not, ◌&&◌, append-nil, append_assoc, All,
  Along,
}
use sephi.Net.Types.{Chunk, ErrorCode, success, running, stopped, terminated}
use sephi.Net.SendLoop.{Picks, pick-OneWrite}
use sephi.Net.Session
use sephi.Net.Session.{Session, shut, IsSound, flow_of, flow_of-write, flow_of-pop_front}
use sephi.Net.SessionMap.{SessionPtr, SessionMap, holds}
use sephi.Net.Server.{
  Server, Input, writes_to_all, writes_to, writes_to_all_except, closes, stops, accept_done,
  read_done, write_done, at, leave, close_each, complete_write, dispatch, step,
}
use sephi.Net.Server.Broadcast.{write_to_all_lem, write_to_all_except_lem, write_to_lem}
use sephi.Net.Server.Invariant.{Inv, IsAllowed}
use sephi.Net.Server.Steps.{step-Inv}

-- No session is made at the address.
abbrev pub SpareAddress : SessionPtr → Input → Type 0
SpareAddress a (accept_done ec p) = p ≢ a
SpareAddress a _ = Unit

-- The chunks that a call is to bring to the session at an address.
addressed_by : SessionPtr → Input → SessionMap → List Chunk
addressed_by a (writes_to_all chunk) m = if holds a m then chunk ∷ [] else []
addressed_by a (writes_to id chunk) m = if holds id m && (id == a) then chunk ∷ [] else []
addressed_by a (writes_to_all_except id chunk) m =
    if holds a m && not (id == a) then chunk ∷ [] else []
addressed_by a _ m = []

unfoldable pub addressed : SessionPtr → Server → Input → List Chunk
unfolding addressed_by
addressed a server i = elim server.runner [ running ↦ addressed_by a i server.sessions | _ ↦ [] ]

flow_of_if :
    (b : Bool) (chunk : Chunk) (s : Session)
    → flow_of (if b then Session.write chunk s else s) ≡ flow_of s ++ (if b then chunk ∷ [] else [])
flow_of_if true chunk s = flow_of-write chunk s
flow_of_if false chunk s = sym (append-nil (flow_of s))

close_each-flow_of :
    (errors : SessionPtr → ErrorCode) (m : SessionMap) (server : Server) (a : SessionPtr)
    → flow_of ((close_each errors m server).0.heap a) ≡ flow_of (server.heap a)
unfolding close_each
close_each-flow_of errors [] server a = refl
close_each-flow_of errors ((k, p) ∷ m) server a =
    ground (arith, close_each-flow_of errors m (leave p success (at p shut server)) a)

complete_write-flow_of :
    (r : Option (Chunk × List Chunk)) (p : SessionPtr) (ec : ErrorCode) (server : Server)
    (a : SessionPtr)
    → Picks r (server.heap p).sending_messages
    → flow_of ((complete_write r p ec server).heap a) ≡ flow_of (server.heap a)
unfolding complete_write
complete_write-flow_of none p ec server a picks = refl
complete_write-flow_of (some (w, others)) p ec server a (inl e) = absurd (cc)
complete_write-flow_of (some (w, others)) p ec server a (inr (m, ms, e, front)) =
    ground (arith, flow_of-pop_front (record (server.heap p) { writing = others }) m ms front)

dispatch-flow_of :
    (a : SessionPtr) (i : Input) (server : Server)
    → Inv server
    → SpareAddress a i
    → flow_of ((dispatch i server).heap a)
      ≡ flow_of (server.heap a) ++ addressed_by a i server.sessions
unfolding dispatch addressed_by
dispatch-flow_of a (writes_to_all chunk) server v spare =
    ap flow_of (write_to_all_lem chunk server a v.proper).0
    ∙ flow_of_if (holds a server.sessions) chunk (server.heap a)
dispatch-flow_of a (writes_to id chunk) server v spare =
    ap flow_of (write_to_lem id chunk server a v.proper).1
    ∙ flow_of_if (holds id server.sessions && (id == a)) chunk (server.heap a)
dispatch-flow_of a (writes_to_all_except id chunk) server v spare =
    ap flow_of (write_to_all_except_lem id chunk server a v.proper).0
    ∙ flow_of_if (holds a server.sessions && not (id == a)) chunk (server.heap a)
dispatch-flow_of a (closes errors) server v spare =
    close_each-flow_of errors server.sessions server a ∙ sym (append-nil _)
dispatch-flow_of a (stops errors) server v spare =
    close_each-flow_of errors server.sessions server a ∙ sym (append-nil _)
dispatch-flow_of a (accept_done ec p) server v spare =
    ground (arith, append-nil (flow_of (server.heap a)))
dispatch-flow_of a (read_done p ec bytes) server v spare =
    ground (arith, append-nil (flow_of (server.heap a)))
dispatch-flow_of a (write_done p k ec) server v spare =
    complete_write-flow_of (pick k (server.heap p).writing) p ec server a
      (pick-OneWrite k (server.heap p).writing (server.heap p).sending_messages (v.sound p))
    ∙ sym (append-nil _)

pub step-flow_of :
    (a : SessionPtr) (server : Server) (i : Input)
    → Inv server
    → SpareAddress a i
    → flow_of ((step server i).heap a) ≡ flow_of (server.heap a) ++ addressed a server i
unfolding step addressed
step-flow_of a server i v spare =
    elim server.runner
      as (λ r.
        flow_of (
          (elim r as (λ x. Server) [
            | running ↦ dispatch i server
            | stopped ↦ server
            | terminated ↦ server
          ]).heap
            a)
        ≡ flow_of (server.heap a) ++ (elim r as (λ x. List Chunk) [
          | running ↦ addressed_by a i server.sessions
          | stopped ↦ []
          | terminated ↦ []
        ])) [
          | running ↦ dispatch-flow_of a i server v spare
          | stopped ↦ sym (append-nil _)
          | terminated ↦ sym (append-nil _)
        ]

-- From any state of the server on, and as long as no new session is made at its address, the chunks
-- that the calls of `write_to_all`, `write_to` and `write_to_all_except` address to a session in the
-- map are, in the order of the calls, those given to its `async_write` and then those that wait in
-- its deque behind the front.
pub written-addressed :
    (a : SessionPtr) (server : Server) (is : List Input)
    → Inv server
    → Along step IsAllowed server is
    → All (SpareAddress a) is
    → flow_of ((foldl step server is).heap a)
      ≡ flow_of (server.heap a) ++ outputs step (addressed a) server is
unfolding outputs
written-addressed a server [] v ok spare = sym (append-nil _)
written-addressed a server (i ∷ is) v (o, ok) (sp, spare) =
    written-addressed a (step server i) is (step-Inv server i o v) ok spare
    ∙ (ap (λ xs. xs ++ outputs step (addressed a) (step server i) is) (step-flow_of a server i v sp)
        ∙ append_assoc (flow_of (server.heap a)) (addressed a server i)
            (outputs step (addressed a) (step server i) is))
