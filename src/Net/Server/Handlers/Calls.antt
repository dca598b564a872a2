-- ===== src/Net/Server/Handlers/Calls.antt =====
-- What a call of a handler does, and with what it commutes.
use mathlib.Core.List.{map}
use mathlib.Core.Path.{fun_ext}
use sephi.Base.{
  ◌≡◌, ◌∙◌, ap, sym, refl, List, [], ◌∷◌, ◌++◌, foldl, arith, Bool, true, if◌then◌else◌, ◌==◌, ◌&&◌,
  not,
}
use sephi.Net.Types.{Chunk, running}
use sephi.Net.Session
use sephi.Net.Session.{Session, new_session}
use sephi.Net.SessionMap.{SessionPtr, SessionMap, IsProper, holds}
use sephi.Net.Server
use sephi.Net.Server.{
  Server, Input, writes_to_all, writes_to, writes_to_all_except, closes, stops, accept_done,
  read_done, write_done, at, announce, do_accept, register, write_to_all, write_to,
  write_to_all_except,
}
use sephi.Net.Server.Broadcast.{write_to_all_lem, write_to_all_except_lem, write_to_lem}
use sephi.Net.Server.Handlers.{
  Call, calls_write_to_all, calls_write_to, calls_write_to_all_except, call,
}

abbrev pub input_of : Call → Input
input_of (calls_write_to_all chunk) = writes_to_all chunk
input_of (calls_write_to id chunk) = writes_to id chunk
input_of (calls_write_to_all_except id chunk) = writes_to_all_except id chunk

abbrev pub chunk_of : Call → Chunk
chunk_of (calls_write_to_all chunk) = chunk
chunk_of (calls_write_to id chunk) = chunk
chunk_of (calls_write_to_all_except id chunk) = chunk

abbrev pub reaches : Call → SessionPtr → SessionMap → Bool
reaches (calls_write_to_all chunk) a m = holds a m
reaches (calls_write_to id chunk) a m = holds id m && (id == a)
reaches (calls_write_to_all_except id chunk) a m = holds a m && not (id == a)

-- The chunks of some calls that reach a session while the map is `m`.
abbrev pub reaching : SessionPtr → SessionMap → List Call → List Chunk
reaching a m [] = []
reaching a m (x ∷ calls) = (if reaches x a m then chunk_of x ∷ [] else []) ++ reaching a m calls

-- Only the sessions that it reaches are changed by a call.
pub call_lem :
    (x : Call) (server : Server) (a : SessionPtr)
    → IsProper server.sessions
    → ((call server x).heap a ≡ (
        if reaches x a server.sessions
        then Session.write (chunk_of x) (server.heap a)
        else server.heap a))
      × (call server x ≡ record server { heap = (call server x).heap })
unfolding call
call_lem (calls_write_to_all chunk) server a proper = write_to_all_lem chunk server a proper
call_lem (calls_write_to id chunk) server a proper =
    let (found, h, frame) = write_to_lem id chunk server a proper in (h, frame)
call_lem (calls_write_to_all_except id chunk) server a proper =
    write_to_all_except_lem id chunk server a proper

write-do_read :
    (chunk : Chunk) (s : Session)
    → Session.write chunk (Session.do_read s) ≡ Session.do_read (Session.write chunk s)
unfolding Session.write Session.do_read
write-do_read chunk s = ground arith

pub same_server :
    (s t base : Server)
    → s ≡ record base { heap = s.heap }
    → t ≡ record base { heap = t.heap }
    → ((a : SessionPtr) → s.heap a ≡ t.heap a)
    → s ≡ t
same_server s t base e f same =
    e ∙ (ap {A = SessionPtr → Session} (λ heap. record base { heap = heap }) (fun_ext same) ∙ sym f)

-- A function on one session commutes with a call if it does with the write, or is out of reach.
call-at :
    (x : Call) (p : SessionPtr) (g : Session → Session) (server : Server)
    → IsProper server.sessions
    → ((s : Session)
        → reaches x p server.sessions ≡ true
        → Session.write (chunk_of x) (g s) ≡ g (Session.write (chunk_of x) s))
    → at p g (call server x) ≡ call (at p g server) x
call-at x p g server proper commutes =
    same_server (at p g (call server x)) (call (at p g server) x) server
      (ap {A = Server} (λ r. record r { heap = (at p g (call server x)).heap })
        (call_lem x server p proper).1)
      (call_lem x (at p g server) p proper).1
      (λ a. ground (
        arith,
        (call_lem x server p proper).0,
        (call_lem x server a proper).0,
        (call_lem x (at p g server) a proper).0,
        commutes (server.heap p),
      ))

pub call-sessions :
    (x : Call) (server : Server)
    → IsProper server.sessions
    → (call server x).sessions ≡ server.sessions
call-sessions x server proper = ap (λ r. r.sessions) (call_lem x server 0 proper).1

pub call-runner :
    (x : Call) (server : Server) → IsProper server.sessions → (call server x).runner ≡ server.runner
call-runner x server proper = ap (λ r. r.runner) (call_lem x server 0 proper).1

pub call-step :
    (x : Call) (server : Server)
    → server.runner ≡ running
    → Server.step server (input_of x) ≡ call server x
unfolding call Server.step
call-step (calls_write_to_all chunk) server up = ground arith
call-step (calls_write_to id chunk) server up = ground arith
call-step (calls_write_to_all_except id chunk) server up = ground arith

pub calls-steps :
    (server : Server) (calls : List Call)
    → server.runner ≡ running
    → IsProper server.sessions
    → foldl Server.step server (map input_of calls) ≡ foldl call server calls
calls-steps server [] up proper = refl
calls-steps server (x ∷ calls) up proper =
    ap (λ s. foldl Server.step s (map input_of calls)) (call-step x server up)
    ∙ calls-steps (call server x) calls (call-runner x server proper ∙ up)
        (rw (call-sessions x server proper) proper)

pub calls-do_read :
    (server : Server) (p : SessionPtr) (calls : List Call)
    → IsProper server.sessions
    → at p Session.do_read (foldl call server calls)
      ≡ foldl call (at p Session.do_read server) calls
calls-do_read server p [] proper = refl
calls-do_read server p (x ∷ calls) proper =
    calls-do_read (call server x) p calls (rw (call-sessions x server proper) proper)
    ∙ ap (λ s. foldl call s calls)
        (call-at x p Session.do_read server proper (λ s _. write-do_read (chunk_of x) s))
