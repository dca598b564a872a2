-- ===== src/Net/Server/Handlers/Pouring.antt =====
-- What calls write to the sessions of src/net/tcp/server/server.cpp, all at once, and that it commutes
-- with the leaving of one of them.
use mathlib.Core.List.{foldl-append}
use sephi.Base.{
  ◌≡◌, ◌∙◌, ap, sym, refl, List, [], ◌∷◌, ◌++◌, foldl, Bool, true, false, if◌then◌else◌, arith,
}
use sephi.Net.Types.{Chunk, success}
use sephi.Net.Session
use sephi.Net.Session.{Session, shut}
use sephi.Net.SessionMap.{SessionPtr, SessionMap, IsProper, erase, erase-find_none}
use sephi.Net.Server
use sephi.Net.Server.{Server, at}
use sephi.Net.Server.Handlers.{Call, call}
use sephi.Net.Server.Handlers.Calls.{
  chunk_of, reaches, reaching, call_lem, call-sessions, same_server,
}

unfoldable pub poured : List Chunk → Session → Session
poured chunks s = foldl (λ s' chunk. Session.write chunk s') s chunks

-- The server after these chunks have been written to its sessions.
unfoldable pub pour : (SessionPtr → List Chunk) → Server → Server
pour f server = record server { heap = λ a. poured (f a) (server.heap a) }

poured_if :
    (b : Bool) (chunk : Chunk) (chunks : List Chunk) (s : Session)
    → poured chunks (if b then Session.write chunk s else s)
      ≡ poured ((if b then chunk ∷ [] else []) ++ chunks) s
unfolding poured
poured_if true chunk chunks s = refl
poured_if false chunk chunks s = refl

pub calls-pour :
    (server : Server) (calls : List Call)
    → IsProper server.sessions
    → foldl call server calls ≡ pour (λ a. reaching a server.sessions calls) server
unfolding poured pour
calls-pour server [] h = refl
calls-pour server (x ∷ calls) h =
    let same = call-sessions x server h in
    calls-pour (call server x) calls (rw same h)
    ∙ same_server (pour (λ a. reaching a (call server x).sessions calls) (call server x))
        (pour (λ a. reaching a server.sessions (x ∷ calls)) server) server
        (ap {A = Server} (pour (λ a. reaching a (call server x).sessions calls))
          (call_lem x server 0 h).1)
        refl
        (λ a.
          rw (same, (call_lem x server a h).0)
            (poured_if (reaches x a server.sessions) (chunk_of x) (reaching a server.sessions calls)
              (server.heap a)))

poured-append : (xs ys : List Chunk) (s : Session) → poured ys (poured xs s) ≡ poured (xs ++ ys) s
unfolding poured
poured-append xs ys s = sym (foldl-append (λ s' chunk. Session.write chunk s') s xs ys)

write-shut :
    (chunk : Chunk) (s : Session) → Session.write chunk (shut s) ≡ shut (Session.write chunk s)
unfolding Session.write
write-shut chunk s = ground arith

poured-shut : (xs : List Chunk) (s : Session) → poured xs (shut s) ≡ shut (poured xs s)
unfolding poured
poured-shut [] s = refl
poured-shut (x ∷ xs) s = ap (poured xs) (write-shut x s) ∙ poured-shut xs (Session.write x s)

at-pour :
    (p : SessionPtr) (f : SessionPtr → List Chunk) (server : Server)
    → pour f (at p shut server) ≡ at p shut (pour f server)
unfolding pour
at-pour p f server =
    same_server (pour f (at p shut server)) (at p shut (pour f server)) server refl refl
      (λ a. ground (arith, poured-shut (f a) (server.heap a)))

pub pour-pour :
    (f g : SessionPtr → List Chunk) (server : Server)
    → pour g (pour f server) ≡ pour (λ a. f a ++ g a) server
unfolding pour
pour-pour f g server =
    same_server (pour g (pour f server)) (pour (λ a. f a ++ g a) server) server refl refl
      (λ a. poured-append (f a) (g a) (server.heap a))

pub leave-pour :
    (p : SessionPtr) (f : SessionPtr → List Chunk) (server : Server)
    → pour f (Server.leave p success (at p shut server))
      ≡ Server.leave p success (at p shut (pour f server))
unfolding pour Server.leave
leave-pour p f server = ap (Server.leave p success) (at-pour p f server)

pub left-sessions :
    (k p : SessionPtr) (m : SessionMap) (server : Server)
    → IsProper ((k, p) ∷ m)
    → server.sessions ≡ (k, p) ∷ m
    → (Server.leave p success (at p shut server)).sessions ≡ m
unfolding Server.leave erase
left-sessions k p m server h e = ground (arith, erase-find_none k m h.1)

pub calls-pour_left :
    (left : Server) (m : SessionMap) (calls : List Call)
    → IsProper m
    → left.sessions ≡ m
    → foldl call left calls ≡ pour (λ a. reaching a m calls) left
calls-pour_left left m calls h e =
    calls-pour left calls (rw e h) ∙ ap (λ m'. pour (λ a. reaching a m' calls) left) e

pub kept :
    (left : Server) (calls : List Call) (m : SessionMap)
    → IsProper m
    → left.sessions ≡ m
    → (foldl call left calls).sessions ≡ m
unfolding pour
kept left calls m h e = ap {A = Server} (λ s. s.sessions) (calls-pour_left left m calls h e) ∙ e
