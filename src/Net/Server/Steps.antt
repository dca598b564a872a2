-- ===== src/Net/Server/Steps.antt =====
-- Every step of the server keeps its invariant.
use sephi.Base.{
  ◌≡◌, inl, inr, ℕ, zero, suc, List, foldl, refl, pick, arith, some, none, Option, true, false,
  Bool, Along, foldl_inv_along, Bool-cases,
}
use sephi.Net.Types.{Chunk, ErrorCode, is_error, running, stopped, terminated}
use sephi.Net.SendLoop.{Picks, pick-OneWrite}
use sephi.Net.Session
use sephi.Net.Session.{Session, shut, IsSound, write-IsSound, pop_front-IsSound, pop_front-reading}
use sephi.Net.SessionMap.{
  SessionId, SessionPtr, find, find-erase, erase-IsProper, find-emplace, emplace-IsProper,
}
use sephi.Net.Server.{
  Server, Input, writes_to_all, writes_to, writes_to_all_except, closes, stops, accept_done,
  read_done, write_done, at, complete_accept, complete_read, complete_write, construct, dispatch,
  step, write_to,
}
use sephi.Net.Server.Invariant.{
  Inv, IsFree, IsAllowed, construct-Inv, write-Inv, write_each-Inv, write_each_except-Inv,
  close_each-Inv,
}

write_to-Inv :
    (id : SessionId) (chunk : Chunk) {server : Server}
    → Inv server
    → Inv (write_to id chunk server).0
unfolding write_to
write_to-Inv id chunk {server} v = branch (find id server.sessions)
  where
    branch :
        (o : Option SessionPtr)
        → Inv
            (let r : Server × Bool = elim o [
              | none ↦ (server, false)
              | some session ↦ (at session (Session.write chunk) server, true)
            ] in
              r).0
    branch none = v
    branch (some p) = write-Inv p chunk v

complete_accept-Inv :
    (n : ℕ) (ec : ErrorCode) (p : SessionPtr) {server : Server}
    → server.accepting ≡ n
    → IsFree p server
    → Inv server
    → Inv (complete_accept n ec p server)
unfolding complete_accept
complete_accept-Inv zero ec p e free v = absurd (omega (arith, v.armed))
complete_accept-Inv (suc n) ec p {server} e free v = elim (Bool-cases (is_error ec)) [
  | inl failed ↦ rw failed (record {
    proper = v.proper;
    armed = omega (arith, v.armed);
    sound = v.sound;
    one_read = v.one_read;
    read = v.read;
  })
  | inr fine ↦ rw fine (record {
    proper = emplace-IsProper p server.sessions free.0 v.proper;
    armed = omega (arith, v.armed);
    sound = λ a. ground (arith, v.sound a);
    one_read = λ a. ground (arith, v.one_read a);
    read = λ a h. ground (arith, v.read a, find-emplace p a p server.sessions free.0);
  })
]

complete_read-Inv :
    (n : ℕ) (p : SessionPtr) (ec : ErrorCode) (bytes : Chunk) {server : Server}
    → (server.heap p).reading ≡ n
    → Inv server
    → Inv (complete_read n p ec bytes server)
unfolding complete_read
complete_read-Inv zero p ec bytes e v = v
complete_read-Inv (suc n) p ec bytes {server} e v = elim (Bool-cases (is_error ec)) [
  | inl failed ↦ rw failed (record {
    proper = erase-IsProper p server.sessions v.proper;
    armed = v.armed;
    sound = λ a. ground (arith, v.sound a, v.sound p);
    one_read = λ a. ground (arith, v.one_read a, v.one_read p);
    read = λ a h. ground (arith, v.read a, find-erase p a server.sessions);
  })
  | inr fine ↦ rw fine (record {
    proper = v.proper;
    armed = v.armed;
    sound = λ a. ground (arith, v.sound a, v.sound p);
    one_read = λ a. ground (arith, v.one_read a, v.one_read p);
    read = λ a h. ground (arith, v.read a, v.one_read p);
  })
]

complete_write-Inv :
    (r : Option (Chunk × List Chunk)) (p : SessionPtr) (ec : ErrorCode) {server : Server}
    → Picks r (server.heap p).sending_messages
    → Inv server
    → Inv (complete_write r p ec server)
unfolding complete_write
complete_write-Inv none p ec picks v = v
complete_write-Inv (some (m, others)) p ec {server} picks v = elim (Bool-cases (is_error ec)) [
  | inl failed ↦ rw failed (record {
    proper = erase-IsProper p server.sessions v.proper;
    armed = v.armed;
    sound = λ a. ground (arith, v.sound a);
    one_read = λ a. ground (arith, v.one_read a, v.one_read p);
    read = λ a h. ground (arith, v.read a, find-erase p a server.sessions);
  })
  | inr fine ↦ rw fine (record {
    proper = v.proper;
    armed = v.armed;
    sound = λ a. ground (arith, v.sound a);
    one_read = λ a. ground (arith, v.one_read a, v.one_read p);
    read = λ a h. ground (arith, v.read a, v.one_read p);
  })
]

pub dispatch-Inv :
    (i : Input) (server : Server) → IsAllowed server i → Inv server → Inv (dispatch i server)
unfolding dispatch
dispatch-Inv (writes_to_all chunk) server ok v = write_each-Inv chunk server.sessions v
dispatch-Inv (writes_to id chunk) server ok v = write_to-Inv id chunk v
dispatch-Inv (writes_to_all_except id chunk) server ok v =
    write_each_except-Inv id chunk server.sessions v
dispatch-Inv (closes errors) server ok v = close_each-Inv errors server.sessions v
dispatch-Inv (stops errors) server ok v =
    let v' = close_each-Inv errors server.sessions v in
    record {
      proper = v'.proper;
      armed = v'.armed;
      sound = v'.sound;
      one_read = v'.one_read;
      read = v'.read;
    }
dispatch-Inv (accept_done ec p) server ok v = complete_accept-Inv server.accepting ec p refl ok v
dispatch-Inv (read_done p ec bytes) server ok v =
    complete_read-Inv (server.heap p).reading p ec bytes refl v
dispatch-Inv (write_done p k ec) server ok v =
    complete_write-Inv (pick k (server.heap p).writing) p ec
      (pick-OneWrite k (server.heap p).writing (server.heap p).sending_messages (v.sound p)) v

pub step-Inv : (server : Server) (i : Input) → IsAllowed server i → Inv server → Inv (step server i)
unfolding step
step-Inv server i ok v =
    elim server.runner
      as (λ r. Inv (elim r as (λ x. Server) [
        | running ↦ dispatch i server
        | stopped ↦ server
        | terminated ↦ server
      ])) [ running ↦ dispatch-Inv i server ok v | stopped ↦ v | terminated ↦ v ]

-- Whatever happens to a server that was constructed, if every accepted session is made at a free
-- address: the map holds each session once, under its address; one accept is under way, whatever
-- became of those before; every session has at most one write under way, of the front of its deque,
-- and at most one read, and exactly one as long as it is in the map.
pub run-Inv : (is : List Input) → Along step IsAllowed construct is → Inv (foldl step construct is)
run-Inv is ok = foldl_inv_along Inv IsAllowed step step-Inv construct is ok construct-Inv
