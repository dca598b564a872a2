-- ===== src/Net/Server/Handlers/Sequential.antt =====
-- What handlers write is as if written before an accept or a `close`, and after any other step.
use mathlib.Core.List.{map, foldl-append}
use mathlib.Core.Path.{subst}
use sephi.Base.{
  ◌≡◌, ◌∙◌, ap, sym, refl, ℕ, zero, suc, List, [], ◌∷◌, ◌++◌, foldl, outputs, Along, Along-append,
  foldl_inv_along, Bool, true, false, Option, none, some, if◌then◌else◌, pick,
}
use sephi.Net.Types.{Chunk, ErrorCode, is_error, Runner, running, stopped, terminated}
use sephi.Net.SessionMap.{SessionPtr}
use sephi.Net.Server
use sephi.Net.Server.{
  Server, Input, writes_to_all, writes_to, writes_to_all_except, closes, stops, accept_done,
  read_done, write_done, at, announce, do_accept, register, leave,
}
use sephi.Net.Server.Invariant.{Inv, IsFree, IsAllowed}
use sephi.Net.Server.Steps.{step-Inv}
use sephi.Net.Server.Handlers.{
  Call, calls_write_to_all, calls_write_to, calls_write_to_all_except, step,
}
use sephi.Net.Server.Handlers.Calls.{input_of, calls-steps}
use sephi.Net.Server.Handlers.Ahead.{ahead}
use sephi.Net.Server.Handlers.Accepting.{calls-Unmoved}
use sephi.Net.Server.Handlers.Order.{order, sequential, step-Agrees, Agrees}

calls-Allowed :
    (server : Server) (calls : List Call) → Along Server.step IsAllowed server (map input_of calls)
calls-Allowed server [] = tt
calls-Allowed server (calls_write_to_all c ∷ calls) =
    (tt, calls-Allowed (Server.step server (input_of (calls_write_to_all c))) calls)
calls-Allowed server (calls_write_to id c ∷ calls) =
    (tt, calls-Allowed (Server.step server (input_of (calls_write_to id c))) calls)
calls-Allowed server (calls_write_to_all_except id c ∷ calls) =
    (tt, calls-Allowed (Server.step server (input_of (calls_write_to_all_except id c))) calls)

read_order-Allowed :
    (n : ℕ) (server : Server) (i : Input) (calls : List Call)
    → IsAllowed server i
    → Along Server.step IsAllowed server (elim n [ zero ↦ i ∷ [] | suc _ ↦ i ∷ map input_of calls ])
read_order-Allowed zero server i calls ok = (ok, tt)
read_order-Allowed (suc n) server i calls ok = (ok, calls-Allowed _ calls)

write_order-Allowed :
    (r : Option (Chunk × List Chunk)) (b : Bool) (server : Server) (i : Input) (calls : List Call)
    → IsAllowed server i
    → Along Server.step IsAllowed server
        (elim r [ none ↦ i ∷ [] | some _ ↦ i ∷ (if b then map input_of calls else []) ])
write_order-Allowed none b server i calls ok = (ok, tt)
write_order-Allowed (some w) true server i calls ok = (ok, calls-Allowed _ calls)
write_order-Allowed (some w) false server i calls ok = (ok, tt)

accept_order-Allowed :
    (n : ℕ) (b : Bool) (server : Server) (p : SessionPtr) (ec : ErrorCode) (calls : List Call)
    → IsFree p server
    → server.runner ≡ running
    → Inv server
    → Along Server.step IsAllowed server (elim n [
      | zero ↦ accept_done ec p ∷ []
      | suc _ ↦ if b then accept_done ec p ∷ [] else map input_of calls ++ accept_done ec p ∷ []
    ])
accept_order-Allowed zero b server p ec calls free up v = (free, tt)
accept_order-Allowed (suc n) true server p ec calls free up v = (free, tt)
accept_order-Allowed (suc n) false server p ec calls free up v =
    Along-append Server.step IsAllowed server (map input_of calls) (accept_done ec p ∷ [])
      (calls-Allowed server calls)
      (
        rw (calls-steps server calls up v.proper) ((calls-Unmoved server calls up v).free p free),
        tt,
      )

ahead-Allowed :
    (server : Server) (i : Input) (written : List Call)
    → ((server' : Server) → IsAllowed server' i)
    → Along Server.step IsAllowed server (map input_of written ++ i ∷ [])
ahead-Allowed server i written ok =
    Along-append Server.step IsAllowed server (map input_of written) (i ∷ [])
      (calls-Allowed server written) (ok (foldl Server.step server (map input_of written)), tt)

order-Allowed :
    (server : Server) (i : Input) (calls : SessionPtr → List Call)
    → IsAllowed server i
    → server.runner ≡ running
    → Inv server
    → Along Server.step IsAllowed server (order i calls server)
unfolding order
order-Allowed server (accept_done ec p) calls free up v =
    accept_order-Allowed server.accepting (is_error ec) server p ec (calls p) free up v
order-Allowed server (read_done p ec bytes) calls ok up v =
    read_order-Allowed (server.heap p).reading server (read_done p ec bytes) (calls p) ok
order-Allowed server (write_done p k ec) calls ok up v =
    write_order-Allowed (pick k (server.heap p).writing) (is_error ec) server (write_done p k ec)
      (calls p) ok
order-Allowed server (writes_to_all c) calls ok up v = (tt, tt)
order-Allowed server (writes_to id c) calls ok up v = (tt, tt)
order-Allowed server (writes_to_all_except id c) calls ok up v = (tt, tt)
order-Allowed server (closes errors) calls ok up v =
    ahead-Allowed server (closes errors) (ahead errors calls server.sessions) (λ _. tt)
order-Allowed server (stops errors) calls ok up v =
    ahead-Allowed server (stops errors) (ahead errors calls server.sessions) (λ _. tt)

sequential-Allowed :
    (server : Server) (i : Input) (calls : SessionPtr → List Call)
    → IsAllowed server i
    → Inv server
    → Along Server.step IsAllowed server (sequential server (i, calls))
unfolding sequential
sequential-Allowed server i calls ok v = at_runner server.runner refl
  where
    at_runner :
        (r : Runner)
        → server.runner ≡ r
        → Along Server.step IsAllowed server
            (elim r [ running ↦ order i calls server | stopped ↦ [] | terminated ↦ [] ])
    at_runner running e = order-Allowed server i calls ok e v
    at_runner stopped e = tt
    at_runner terminated e = tt

-- A step makes an accepted session at a free address.
abbrev pub IsAllowedStep : Server → Input × (SessionPtr → List Call) → Type 0
IsAllowedStep server (i, calls) = IsAllowed server i

-- Every run of a server, from a state in which its invariant holds and with sessions made at free
-- addresses, whose handlers write to its sessions, as they like, is a run without such calls: the one
-- in which what the handler of a read or of an error writes is written right after the step, what the
-- handler that is told of a new session writes is written right before the accept, when the session
-- is not in the map, and what the handler that `close` or the destructor calls for a session writes is
-- written right before that, to those sessions behind it in the map that it addresses; and in that run
-- too sessions are made at free addresses.
pub handlers_write_in_order :
    (server : Server) (js : List (Input × (SessionPtr → List Call)))
    → Inv server
    → Along step IsAllowedStep server js
    → let is = outputs step sequential server js in
      (foldl step server js ≡ foldl Server.step server is) × Along Server.step IsAllowed server is
unfolding outputs Agrees
handlers_write_in_order server [] v ok = (refl, tt)
handlers_write_in_order server ((i, calls) ∷ js) v (o, ok) =
    let now = sequential server (i, calls) in
    let later = outputs step sequential (step server (i, calls)) js in
    let agrees = step-Agrees server i calls o v in
    let allowed = sequential-Allowed server i calls o v in
    let v' : Inv (step server (i, calls)) =
      rw agrees (foldl_inv_along Inv IsAllowed Server.step step-Inv server now allowed v) in
    let (same, allowed') = handlers_write_in_order (step server (i, calls)) js v' ok in
    (
      same
          ∙ (ap (λ s. foldl Server.step s later) agrees
              ∙ sym (foldl-append Server.step server now later)),
      Along-append Server.step IsAllowed server now later allowed
          (subst (λ s. Along Server.step IsAllowed s later) agrees allowed'),
    )
