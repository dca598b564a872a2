-- ===== src/Net/Server/Handlers/Closing.antt =====
-- `Server::close` with a connection handler that writes when it is told that a session has gone: the
-- loop of src/net/tcp/server/server.cpp, of which the calls of a handler change the sessions that are
-- left.
use mathlib.Core.List.{map}
use sephi.Base.{
  ◌≡◌, ◌∙◌, ap, sym, refl, List, [], ◌∷◌, ◌++◌, foldl, true, false, ◌||◌, ◌==◌, arith, append_assoc,
  append-nil,
}
use sephi.Net.Types.{Chunk, ErrorCode, success, is_error}
use sephi.Net.Session
use sephi.Net.Session.{Session, shut, flow_of, flow_of-write}
use sephi.Net.SessionMap.{SessionPtr, SessionMap, IsProper, find, holds, erase, erase-find_none}
use sephi.Net.Server
use sephi.Net.Server.{Server, at}
use sephi.Net.Server.Closing.{farewell}
use sephi.Net.Server.Handlers.{Call, call, close_each, close}
use sephi.Net.Server.Handlers.Calls.{chunk_of, reaching, call_lem, call-sessions}

-- What the handlers write to a session: each finds the map of the sessions that are left.
abbrev pub goodbyes : SessionPtr → (SessionPtr → List Call) → SessionMap → List Chunk
goodbyes a calls [] = []
goodbyes a calls ((id, p) ∷ m) = reaching a m (calls p) ++ goodbyes a calls m

write-is_shut : (chunk : Chunk) (s : Session) → (Session.write chunk s).is_shut ≡ s.is_shut
unfolding Session.write
write-is_shut chunk s = ground arith

calls_lem :
    (server : Server) (a : SessionPtr) (calls : List Call)
    → IsProper server.sessions
    → let server' = foldl call server calls in
      (flow_of (server'.heap a) ≡ flow_of (server.heap a) ++ reaching a server.sessions calls)
      × ((server'.heap a).is_shut ≡ (server.heap a).is_shut)
      × (server'.sessions ≡ server.sessions)
      × (server'.connection_calls ≡ server.connection_calls)
calls_lem server a [] proper = (sym (append-nil _), refl, refl, refl)
calls_lem server a (x ∷ calls) proper =
    let same = call-sessions x server proper in
    let (flows, shuts, maps, told) = calls_lem (call server x) a calls (rw same proper) in
    let (one, frame) = call_lem x server a proper in
    (
      ground (
        arith,
        flow_of-write (chunk_of x) (server.heap a),
        append-nil (flow_of (server.heap a)),
        append_assoc (flow_of (server.heap a)) (chunk_of x ∷ []) (reaching a server.sessions calls),
      ),
      ground (arith, write-is_shut (chunk_of x) (server.heap a)),
      maps ∙ same,
      told ∙ ap {A = Server} (λ r. r.connection_calls) frame,
    )

-- One round of the loop, up to the calls of the handler.
left_lem :
    (k p : SessionPtr) (m : SessionMap) (server : Server) (a : SessionPtr)
    → IsProper ((k, p) ∷ m)
    → server.sessions ≡ (k, p) ∷ m
    → let left = Server.leave p success (at p shut server) in
      (left.sessions ≡ m)
      × (left.connection_calls ≡ server.connection_calls ++ farewell success (k, p) ∷ [])
      × (flow_of (left.heap a) ≡ flow_of (server.heap a))
      × ((left.heap a).is_shut ≡ ((k == a) || (server.heap a).is_shut))
unfolding Server.leave erase
left_lem k p m server a h e = ground (arith, erase-find_none k m h.1)

module _ (errors : SessionPtr → ErrorCode) (fine : (p : SessionPtr) → is_error (errors p) ≡ false)
    (calls : SessionPtr → List Call) where
  close_each_lem :
      (m : SessionMap) (server : Server) (a : SessionPtr)
      → IsProper m
      → server.sessions ≡ m
      → let (server', closed) = close_each errors calls m server in
        (closed ≡ true)
        × (server'.sessions ≡ [])
        × (server'.connection_calls ≡ server.connection_calls ++ map (farewell success) m)
        × (flow_of (server'.heap a) ≡ flow_of (server.heap a) ++ goodbyes a calls m)
        × ((server'.heap a).is_shut ≡ (holds a m || (server.heap a).is_shut))
  unfolding close_each find
  close_each_lem [] server a h e =
      ground (arith, append-nil server.connection_calls, append-nil (flow_of (server.heap a)))
  close_each_lem ((k, p) ∷ m) server a h e =
      let left = Server.leave p success (at p shut server) in
      let (sessions, tells, keeps, shuts) = left_lem k p m server a h e in
      let (flows, is_shut, maps, told) = calls_lem left a (calls p) (rw sessions h.2) in
      let (closed, empty, told', flows', shuts') =
        close_each_lem m (foldl call left (calls p)) a h.2 (maps ∙ sessions) in
      ground (
        arith,
        fine p,
        append_assoc server.connection_calls (farewell success (k, p) ∷ [])
            (map (farewell success) m),
        append_assoc (flow_of (server.heap a)) (reaching a m (calls p)) (goodbyes a calls m),
      )

  -- Where every shutdown succeeds, `close` empties the map and tells the connection handler of each
  -- session once, whatever the handler writes; every session of the map is shut, and what reaches a
  -- session is what the calls for the sessions before it in the map wrote to it, in order, and
  -- nothing from the call for the session itself on.
  pub goodbyes_reach_the_rest :
      (server : Server) (a : SessionPtr)
      → IsProper server.sessions
      → let (server', closed) = close errors calls server in
        (closed ≡ true)
        × (server'.sessions ≡ [])
        × (server'.connection_calls
            ≡ server.connection_calls ++ map (farewell success) server.sessions)
        × (flow_of (server'.heap a) ≡ flow_of (server.heap a) ++ goodbyes a calls server.sessions)
        × ((server'.heap a).is_shut ≡ (holds a server.sessions || (server.heap a).is_shut))
  unfolding close
  goodbyes_reach_the_rest server a proper = close_each_lem server.sessions server a proper refl
