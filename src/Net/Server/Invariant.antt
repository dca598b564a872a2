-- ===== src/Net/Server/Invariant.antt =====
-- What holds of the server between two steps.
use sephi.Base.{◌≡◌, inl, ◌≤◌, [], ◌∷◌, refl, if◌then◌else◌, ◌==◌, arith, none, true, false, Bool}
use sephi.Net.Types.{Chunk, ErrorCode, success, is_error}
use sephi.Net.Session
use sephi.Net.Session.{
  Session, shut, IsSound, write-IsSound, pop_front-IsSound, write-reading, pop_front-reading,
}
use sephi.Net.SessionMap.{
  SessionId, SessionPtr, SessionMap, IsProper, find, holds, find-erase, erase-IsProper,
}
use sephi.Net.Server.{
  Server, Input, accept_done, at, leave, close_each, write_each, write_each_except, construct,
}

pub record Inv (server : Server) : Type 0 where
  pub proper : IsProper server.sessions
  pub armed : server.accepting ≡ 1
  pub sound : (a : SessionPtr) → IsSound (server.heap a)
  pub one_read : (a : SessionPtr) → (server.heap a).reading ≤ 1
  pub read : (a : SessionPtr) → holds a server.sessions ≡ true → (server.heap a).reading ≡ 1

-- No owner is left of a session at this address: no entry of the map and no handler.
abbrev pub IsFree : SessionPtr → Server → Type 0
IsFree p server =
    (find p server.sessions ≡ none) × ((server.heap p).reading ≡ 0) × ((server.heap p).writing ≡ [])

-- `make_shared` gives an address that is free.
abbrev pub IsAllowed : Server → Input → Type 0
IsAllowed server (accept_done ec p) = IsFree p server
IsAllowed server _ = Unit

pub construct-Inv : Inv construct
unfolding construct find
construct-Inv = record {
  proper = tt;
  armed = refl;
  sound = λ a. inl refl;
  one_read = λ a. omega arith;
  read = λ a h. ground arith;
}

pub write-Inv :
    (p : SessionPtr) (chunk : Chunk) {server : Server}
    → Inv server
    → Inv (at p (Session.write chunk) server)
write-Inv p chunk {server} v = record {
  proper = v.proper;
  armed = v.armed;
  sound = λ a. ground (arith, v.sound a, v.sound p, write-IsSound chunk (server.heap p));
  one_read = λ a. ground (arith, v.one_read a, v.one_read p, write-reading chunk (server.heap p));
  read = λ a h. ground (arith, v.read a h, write-reading chunk (server.heap p));
}

shut-Inv : (p : SessionPtr) {server : Server} → Inv server → Inv (at p shut server)
shut-Inv p {server} v = record {
  proper = v.proper;
  armed = v.armed;
  sound = λ a. ground (arith, v.sound a, v.sound p);
  one_read = λ a. ground (arith, v.one_read a, v.one_read p);
  read = λ a h. ground (arith, v.read a h);
}

pub leave-Inv :
    (p : SessionPtr) (ec : ErrorCode) {server : Server} → Inv server → Inv (leave p ec server)
unfolding leave
leave-Inv p ec {server} v = record {
  proper = erase-IsProper p server.sessions v.proper;
  armed = v.armed;
  sound = v.sound;
  one_read = v.one_read;
  read = λ a h. ground (arith, v.read a, find-erase p a server.sessions);
}

pub write_each-Inv :
    (chunk : Chunk) (m : SessionMap) {server : Server}
    → Inv server
    → Inv (write_each chunk m server)
unfolding write_each
write_each-Inv chunk [] v = v
write_each-Inv chunk ((k, p) ∷ m) v = write_each-Inv chunk m (write-Inv p chunk v)

pub write_each_except-Inv :
    (id : SessionId) (chunk : Chunk) (m : SessionMap) {server : Server}
    → Inv server
    → Inv (write_each_except id chunk m server)
unfolding write_each_except
write_each_except-Inv id chunk [] v = v
write_each_except-Inv id chunk ((k, p) ∷ m) {server} v =
    write_each_except-Inv id chunk m (pick_branch (id == k))
  where
    pick_branch : (b : Bool) → Inv (if b then server else at p (Session.write chunk) server)
    pick_branch true = v
    pick_branch false = write-Inv p chunk v

pub close_each-Inv :
    (errors : SessionPtr → ErrorCode) (m : SessionMap) {server : Server}
    → Inv server
    → Inv (close_each errors m server).0
unfolding close_each
close_each-Inv errors [] v = v
close_each-Inv errors ((k, p) ∷ m) {server} v =
    pick_branch (is_error (errors p)) (close_each-Inv errors m (leave-Inv p success (shut-Inv p v)))
  where
    pick_branch :
        (b : Bool)
        → Inv (close_each errors m (leave p success (at p shut server))).0
        → Inv
            (let rest = close_each errors m (leave p success (at p shut server)) in
              if b then (server, false) else rest).0
    pick_branch true w = v
    pick_branch false w = w
