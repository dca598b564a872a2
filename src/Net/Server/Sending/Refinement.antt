-- ===== src/Net/Server/Sending/Refinement.antt =====
-- The sending of each session of the server is a channel.
use sephi.Base.{
  ◌≡◌, Bool-cases, ◌≢◌, ◌∙◌, ap, sym, ℕ, zero, suc, inl, inr, List, [], ◌∷◌, ◌++◌, tail, refl,
  if◌then◌else◌, ◌==◌, is_empty, pick, arith, some, none, Option, true, false, Bool, not, ◌&&◌,
  append-nil,
}
use sephi.Net.Types.{Chunk, ErrorCode, is_error, success, running, stopped, terminated}
use sephi.Net.SendLoop.{OneWrite}
use sephi.Net.Channel.{
  Action, accepts, gives, Channel, act_all, act_all-given, accepted_by, channel, finish,
}
use sephi.Net.Session
use sephi.Net.Session.{Session, shut, IsSound}
use sephi.Net.SessionMap.{SessionPtr, SessionMap, holds}
use sephi.Net.Server.{
  Server, Input, writes_to_all, writes_to, writes_to_all_except, closes, stops, accept_done,
  read_done, write_done, at, leave, close_each, complete_write, dispatch, step,
}
use sephi.Net.Server.Broadcast.{write_to_all_lem, write_to_all_except_lem, write_to_lem}
use sephi.Net.Server.Invariant.{Inv}
use sephi.Net.Server.Sending.{SpareAddress, addressed_by, addressed}

abbrev pub session_channel : Session → Channel
session_channel s = channel s.written s.writing s.sending_messages []

abbrev write_actions : Chunk → Session → List Action
write_actions chunk s = accepts chunk ∷ (if is_empty s.sending_messages then gives ∷ [] else [])

write-follows :
    (chunk : Chunk) (s : Session)
    → IsSound s
    → act_all (write_actions chunk s) (session_channel s)
      ≡ some (session_channel (Session.write chunk s))
unfolding Session.write
write-follows chunk s h = ground (
  arith,
  append-nil (tail s.sending_messages),
  append-nil (tail s.sending_messages ++ chunk ∷ []),
)

write_if-follows :
    (b : Bool) (chunk : Chunk) (s : Session)
    → IsSound s
    → act_all (if b then write_actions chunk s else []) (session_channel s)
      ≡ some (session_channel (if b then Session.write chunk s else s))
write_if-follows true chunk s h = write-follows chunk s h
write_if-follows false chunk s h = refl

accepted_by-write_if :
    (b : Bool) (chunk : Chunk) (s : Session)
    → accepted_by (if b then write_actions chunk s else []) ≡ (if b then chunk ∷ [] else [])
accepted_by-write_if true chunk s = ground arith
accepted_by-write_if false chunk s = refl

abbrev done_actions : ℕ → ErrorCode → Session → List Action
done_actions k ec s = elim (pick k s.writing) [
  | none ↦ []
  | some _ ↦ finish (tail s.sending_messages) (is_error ec)
]

done-follows :
    (k : ℕ) (p : SessionPtr) (ec : ErrorCode) (server : Server) (ws ms : List Chunk)
    → (server.heap p).writing ≡ ws
    → (server.heap p).sending_messages ≡ ms
    → OneWrite ws ms
    → act_all
        (elim (pick k ws) [ none ↦ [] | some _ ↦ finish (tail ms) (is_error ec) ])
        (channel (server.heap p).written ws ms [])
      ≡ some (session_channel ((complete_write (pick k ws) p ec server).heap p))
unfolding complete_write
done-follows k p ec server [] ms e e' h = ground arith
done-follows zero p ec server (w ∷ ws) [] e e' h = ground arith
done-follows zero p ec server (w ∷ ws) (m ∷ []) e e' h = ground arith
done-follows zero p ec server (w ∷ ws) (m ∷ n ∷ ms) e e' h = ground (arith, append-nil ms)
done-follows (suc k) p ec server (w ∷ []) ms e e' h = ground arith
done-follows (suc k) p ec server (w ∷ w' ∷ ws) [] e e' h = ground arith
done-follows (suc k) p ec server (w ∷ w' ∷ ws) (m ∷ ms) e e' h = ground arith

elsewhere :
    (r : Option (Chunk × List Chunk)) (p a : SessionPtr) (ec : ErrorCode) (server : Server)
    → p ≢ a
    → (complete_write r p ec server).heap a ≡ server.heap a
unfolding complete_write
elsewhere none p a ec server other = refl
elsewhere (some (w, others)) p a ec server other = ground arith

closed :
    (errors : SessionPtr → ErrorCode) (m : SessionMap) (server : Server) (a : SessionPtr)
    → session_channel ((close_each errors m server).0.heap a) ≡ session_channel (server.heap a)
unfolding close_each
closed errors [] server a = refl
closed errors ((k, p) ∷ m) server a =
    ground (arith, closed errors m (leave p success (at p shut server)) a)

dispatch_actions : SessionPtr → Input → Server → List Action
dispatch_actions a (writes_to_all chunk) server =
    if holds a server.sessions then write_actions chunk (server.heap a) else []
dispatch_actions a (writes_to id chunk) server =
    if holds id server.sessions && (id == a) then write_actions chunk (server.heap a) else []
dispatch_actions a (writes_to_all_except id chunk) server =
    if holds a server.sessions && not (id == a) then write_actions chunk (server.heap a) else []
dispatch_actions a (write_done p k ec) server =
    if p == a then done_actions k ec (server.heap a) else []
dispatch_actions a _ server = []

dispatch-follows :
    (a : SessionPtr) (i : Input) (server : Server)
    → Inv server
    → SpareAddress a i
    → act_all (dispatch_actions a i server) (session_channel (server.heap a))
      ≡ some (session_channel ((dispatch i server).heap a))
unfolding dispatch dispatch_actions
dispatch-follows a (writes_to_all chunk) server v spare =
    write_if-follows (holds a server.sessions) chunk (server.heap a) (v.sound a)
    ∙ ap (λ s. some (session_channel s)) (sym (write_to_all_lem chunk server a v.proper).0)
dispatch-follows a (writes_to id chunk) server v spare =
    write_if-follows (holds id server.sessions && (id == a)) chunk (server.heap a) (v.sound a)
    ∙ ap (λ s. some (session_channel s)) (sym (write_to_lem id chunk server a v.proper).1)
dispatch-follows a (writes_to_all_except id chunk) server v spare =
    write_if-follows (holds a server.sessions && not (id == a)) chunk (server.heap a) (v.sound a)
    ∙ ap (λ s. some (session_channel s))
        (sym (write_to_all_except_lem id chunk server a v.proper).0)
dispatch-follows a (closes errors) server v spare =
    ap some (sym (closed errors server.sessions server a))
dispatch-follows a (stops errors) server v spare =
    ap some (sym (closed errors server.sessions server a))
dispatch-follows a (accept_done ec p) server v spare = ground arith
dispatch-follows a (read_done p ec bytes) server v spare = ground arith
dispatch-follows a (write_done p k ec) server v spare = elim (Bool-cases (p == a)) [
  | inl here ↦ ground (
    arith,
    done-follows k p ec server (server.heap p).writing (server.heap p).sending_messages refl refl
        (v.sound p),
  )
  | inr other ↦ ground (arith, elsewhere (pick k (server.heap p).writing) p a ec server)
]

dispatch-accepts :
    (a : SessionPtr) (i : Input) (server : Server)
    → accepted_by (dispatch_actions a i server) ≡ addressed_by a i server.sessions
unfolding dispatch_actions addressed_by
dispatch-accepts a (writes_to_all chunk) server =
    accepted_by-write_if (holds a server.sessions) chunk (server.heap a)
dispatch-accepts a (writes_to id chunk) server =
    accepted_by-write_if (holds id server.sessions && (id == a)) chunk (server.heap a)
dispatch-accepts a (writes_to_all_except id chunk) server =
    accepted_by-write_if (holds a server.sessions && not (id == a)) chunk (server.heap a)
dispatch-accepts a (write_done p k ec) server = ground arith
dispatch-accepts a (closes errors) server = refl
dispatch-accepts a (stops errors) server = refl
dispatch-accepts a (accept_done ec p) server = refl
dispatch-accepts a (read_done p ec bytes) server = refl

actions : SessionPtr → Server → Input → List Action
actions a server i = elim server.runner [
  | running ↦ dispatch_actions a i server
  | stopped ↦ []
  | terminated ↦ []
]

pub step-follows :
    (a : SessionPtr) (server : Server) (i : Input)
    → Inv server
    → SpareAddress a i
    → (as' : List Action) × (act_all as' (session_channel (server.heap a))
        ≡ some (session_channel ((step server i).heap a)))
      × (accepted_by as' ≡ addressed a server i)
unfolding actions step addressed
step-follows a server i v spare = (
  actions a server i,
  ground (arith, dispatch-follows a i server v spare),
  ground (arith, dispatch-accepts a i server),
)

pub step-session_written :
    (a : SessionPtr) (server : Server) (i : Input)
    → Inv server
    → SpareAddress a i
    → (more : List Chunk) × (((step server i).heap a).written ≡ (server.heap a).written ++ more)
step-session_written a server i v spare =
    let (as', f, g) = step-follows a server i v spare in
    act_all-given as' (session_channel (server.heap a)) (session_channel ((step server i).heap a)) f
