-- ===== src/Net/Server/Broadcast.antt =====
-- Whom the three calls that write reach, and what closing every session does.
use sephi.Base.{◌≡◌, ℕ, [], ◌∷◌, refl, if◌then◌else◌, ◌==◌, not, ◌&&◌, arith}
use sephi.Net.Types.{Chunk}
use sephi.Net.Session
use sephi.Net.Session.{Session, shut}
use sephi.Net.SessionMap.{
  SessionId, SessionPtr, SessionMap, IsProper, find, holds, find-eq_of_IsProper,
}
use sephi.Net.Server.{
  Server, at, write_each, write_each_except, write_to, write_to_all, write_to_all_except,
}

pub write_each_frame :
    (chunk : Chunk) (m : SessionMap) (server : Server)
    → let server' = write_each chunk m server in server' ≡ record server { heap = server'.heap }
unfolding write_each
write_each_frame chunk [] server = refl
write_each_frame chunk ((k, p) ∷ m) server =
    ground (arith, write_each_frame chunk m (at p (Session.write chunk) server))

write_each-heap :
    (chunk : Chunk) (m : SessionMap) (server : Server) (a : SessionPtr)
    → IsProper m
    → (write_each chunk m server).heap a
      ≡ (if holds a m then Session.write chunk (server.heap a) else server.heap a)
unfolding write_each find
write_each-heap chunk [] server a h = refl
write_each-heap chunk ((k, p) ∷ m) server a h =
    ground (arith, write_each-heap chunk m (at p (Session.write chunk) server) a)

pub write_each_except_frame :
    (id : SessionId) (chunk : Chunk) (m : SessionMap) (server : Server)
    → let server' = write_each_except id chunk m server in
      server' ≡ record server { heap = server'.heap }
unfolding write_each_except
write_each_except_frame id chunk [] server = refl
write_each_except_frame id chunk ((k, p) ∷ m) server = ground (
  arith,
  write_each_except_frame id chunk m
      (if id == k then server else at p (Session.write chunk) server),
)

write_each_except-heap :
    (id : SessionId) (chunk : Chunk) (m : SessionMap) (server : Server) (a : SessionPtr)
    → IsProper m
    → (write_each_except id chunk m server).heap a
      ≡ (if holds a m && not (id == a) then Session.write chunk (server.heap a) else server.heap a)
unfolding write_each_except find
write_each_except-heap id chunk [] server a h = refl
write_each_except-heap id chunk ((k, p) ∷ m) server a h = ground (
  arith,
  write_each_except-heap id chunk m (if id == k then server else at p (Session.write chunk) server)
      a,
)

-- A chunk for all is written to exactly the sessions in the map, once to each, and nothing else of
-- the server changes.
pub write_to_all_lem :
    (chunk : Chunk) (server : Server) (a : SessionPtr)
    → IsProper server.sessions
    → let server' = write_to_all chunk server in
      (server'.heap a
        ≡ (if holds a server.sessions then Session.write chunk (server.heap a) else server.heap a))
      × (server' ≡ record server { heap = server'.heap })
unfolding write_to_all
write_to_all_lem chunk server a proper = (
  write_each-heap chunk server.sessions server a proper,
  write_each_frame chunk server.sessions server,
)

-- The same, without the session of the given id.
pub write_to_all_except_lem :
    (id : SessionId) (chunk : Chunk) (server : Server) (a : SessionPtr)
    → IsProper server.sessions
    → let server' = write_to_all_except id chunk server in
      (server'.heap a ≡ (
        if holds a server.sessions && not (id == a)
        then Session.write chunk (server.heap a)
        else server.heap a))
      × (server' ≡ record server { heap = server'.heap })
unfolding write_to_all_except
write_to_all_except_lem id chunk server a proper = (
  write_each_except-heap id chunk server.sessions server a proper,
  write_each_except_frame id chunk server.sessions server,
)

-- `write_to` says whether the map has the id. If so, exactly that session is written to; if not,
-- nothing changes.
pub write_to_lem :
    (id : SessionId) (chunk : Chunk) (server : Server) (a : SessionPtr)
    → IsProper server.sessions
    → let (server', found) = write_to id chunk server in
      (found ≡ holds id server.sessions)
      × (server'.heap a ≡ (
          if holds id server.sessions && (id == a)
          then Session.write chunk (server.heap a)
          else server.heap a))
      × (server' ≡ record server { heap = server'.heap })
unfolding write_to
write_to_lem id chunk server a proper =
    let same = λ (p : ℕ). find-eq_of_IsProper id p server.sessions proper in grind (arith, same)
