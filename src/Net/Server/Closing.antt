-- ===== src/Net/Server/Closing.antt =====
-- What `close` does to the sessions, and what their handlers do afterwards.
use mathlib.Core.List.{map}
use sephi.Base.{
  ◌≡◌, ℕ, suc, [], ◌∷◌, ◌++◌, refl, append_assoc, append-nil, if◌then◌else◌, arith, true, false,
}
use sephi.Net.Types.{Chunk, ErrorCode, success, is_error, ConnectionState, disconnected, running}
use sephi.Net.Session.{shut}
use sephi.Net.SessionMap.{
  SessionId, SessionPtr, SessionMap, IsProper, find, holds, erase, erase-find_none,
}
use sephi.Net.Server.{Server, read_done, at, leave, close_each, close, step}

-- The call that tells the user that a session has gone.
abbrev pub farewell : ErrorCode → SessionId × SessionPtr → SessionId × ConnectionState × ErrorCode
farewell ec (id, p) = (id, disconnected, ec)

failed_read_leaves :
    (server : Server) (p : SessionPtr) (n : ℕ) (ec : ErrorCode) (bytes : Chunk)
    → server.runner ≡ running
    → (server.heap p).reading ≡ suc n
    → is_error ec ≡ true
    → (step server (read_done p ec bytes)).connection_calls
      ≡ server.connection_calls ++ (p, disconnected, ec) ∷ []
unfolding step
failed_read_leaves server p n ec bytes up reads failed = ground arith

module _ (errors : SessionPtr → ErrorCode)
    (fine : (p : SessionPtr) → is_error (errors p) ≡ false) where
  close_each_lem :
      (m : SessionMap) (server : Server) (a : SessionPtr)
      → IsProper m
      → server.sessions ≡ m
      → let (server', closed) = close_each errors m server in
        (closed ≡ true)
        × (server'.sessions ≡ [])
        × (server'.connection_calls ≡ server.connection_calls ++ map (farewell success) m)
        × (server'.heap a ≡ (if holds a m then shut (server.heap a) else server.heap a))
  unfolding close_each find erase
  close_each_lem [] server a h e = ground (arith, append-nil server.connection_calls)
  close_each_lem ((k, p) ∷ m) server a h e = ground (
    arith,
    fine p,
    erase-find_none k m h.1,
    append_assoc server.connection_calls ((k, disconnected, success) ∷ [])
        (map (farewell success) m),
    close_each_lem m (leave p success (at p shut server)) a h.2,
  )

  -- Where every shutdown succeeds, `close` shuts every session of the map and no other, tells the
  -- connection handler of each one, once and without an error, and empties the map.
  pub close_lem :
      (server : Server) (a : SessionPtr)
      → IsProper server.sessions
      → let (server', closed) = close errors server in
        (closed ≡ true)
        × (server'.sessions ≡ [])
        × (server'.connection_calls
            ≡ server.connection_calls ++ map (farewell success) server.sessions)
        × (server'.heap a
            ≡ (if holds a server.sessions then shut (server.heap a) else server.heap a))
  unfolding close
  close_lem server a proper = close_each_lem server.sessions server a proper refl

  pub close_each_frame :
      (m : SessionMap) (server : Server)
      → let server' = (close_each errors m server).0 in
        server' ≡ record server {
          heap = server'.heap;
          sessions = server'.sessions;
          connection_calls = server'.connection_calls;
        }
  unfolding close_each
  close_each_frame [] server = refl
  close_each_frame ((k, p) ∷ m) server =
      ground (arith, fine p, close_each_frame m (leave p success (at p shut server)))

  -- The read of a session that `close` has shut completes with an error, and its handler calls
  -- `leave` again: the connection handler is told twice that the session has gone.
  pub closed_session_leaves_twice :
      (server : Server) (p : SessionPtr) (n : ℕ) (ec : ErrorCode) (bytes : Chunk)
      → server.runner ≡ running
      → IsProper server.sessions
      → holds p server.sessions ≡ true
      → (server.heap p).reading ≡ suc n
      → is_error ec ≡ true
      → (step (close errors server).0 (read_done p ec bytes)).connection_calls
        ≡ (server.connection_calls ++ map (farewell success) server.sessions)
          ++ (p, disconnected, ec) ∷ []
  unfolding close
  closed_session_leaves_twice server p n ec bytes up proper held reads failed =
      let (_, _, told, shut_there) = close_lem server p proper in
      let frame = close_each_frame server.sessions server in
      rw
        (failed_read_leaves (close errors server).0 p n ec bytes (ground arith) (ground arith)
          failed)
        (rw told refl)
