-- ===== src/Net/Server/Handlers/Accepting.antt =====
-- The calls of a handler that is told of a new session are as if made before the accept.
use mathlib.Core.Path.{subst}
use sephi.Base.{
  ◌≡◌, ◌∙◌, ap, refl, ℕ, List, [], ◌∷◌, foldl, arith, false, none, if◌then◌else◌, ◌==◌,
}
use sephi.Net.Types.{ErrorCode, running}
use sephi.Net.Session.{new_session}
use sephi.Net.SessionMap.{SessionPtr, SessionMap, IsProper, find}
use sephi.Net.Server.{Server, writes_to_all, writes_to, writes_to_all_except, announce}
use sephi.Net.Server.Invariant.{Inv, IsFree}
use sephi.Net.Server.Steps.{step-Inv}
use sephi.Net.Server.Handlers.{
  Call, calls_write_to_all, calls_write_to, calls_write_to_all_except, call,
}
use sephi.Net.Server.Handlers.Calls.{
  reaches, call_lem, same_server, call-step, call-sessions, call-runner,
}

-- No call reaches a session at an address that no entry of the map has.
not_reached : (x : Call) (p : SessionPtr) (m : SessionMap) → find p m ≡ none → reaches x p m ≡ false
not_reached (calls_write_to_all chunk) p m free = ground arith
not_reached (calls_write_to id chunk) p m free = ground arith
not_reached (calls_write_to_all_except id chunk) p m free = ground arith

announce-heap :
    (ec : ErrorCode) (p a : SessionPtr) (server : Server)
    → (announce ec p server).heap a ≡ (if p == a then new_session else server.heap a)
unfolding announce
announce-heap ec p a server = refl

announce_frame :
    (ec : ErrorCode) (p : SessionPtr) (s server : Server)
    → s ≡ record server { heap = s.heap }
    → announce ec p s ≡ record (announce ec p server) { heap = (announce ec p s).heap }
unfolding announce
announce_frame ec p s server e =
    ap {A = Server} (λ r. record (announce ec p r) { heap = (announce ec p s).heap }) e

announce-sessions :
    (ec : ErrorCode) (p : SessionPtr) (server : Server)
    → (announce ec p server).sessions ≡ server.sessions
unfolding announce
announce-sessions ec p server = refl

call-announce :
    (x : Call) (p : SessionPtr) (ec : ErrorCode) (server : Server)
    → IsProper server.sessions
    → find p server.sessions ≡ none
    → announce ec p (call server x) ≡ call (announce ec p server) x
call-announce x p ec server proper free =
    let same = announce-sessions ec p server in
    let proper' : IsProper (announce ec p server).sessions = rw same proper in
    same_server (announce ec p (call server x)) (call (announce ec p server) x)
      (announce ec p server)
      (announce_frame ec p (call server x) server (call_lem x server p proper).1)
      (call_lem x (announce ec p server) p proper').1
      (λ a. ground (
        arith,
        same,
        announce-heap ec p a (call server x),
        announce-heap ec p a server,
        (call_lem x server a proper).0,
        (call_lem x (announce ec p server) a proper').0,
        not_reached x p server.sessions free,
      ))

pub calls-announce :
    (server : Server) (p : SessionPtr) (ec : ErrorCode) (calls : List Call)
    → IsProper server.sessions
    → find p server.sessions ≡ none
    → announce ec p (foldl call server calls) ≡ foldl call (announce ec p server) calls
calls-announce server p ec [] proper free = refl
calls-announce server p ec (x ∷ calls) proper free =
    calls-announce (call server x) p ec calls (rw (call-sessions x server proper) proper)
      (rw (call-sessions x server proper) free)
    ∙ ap (λ s. foldl call s calls) (call-announce x p ec server proper free)

call-accepting :
    (x : Call) (n : ℕ) (server : Server)
    → IsProper server.sessions
    → record (call server x) { accepting = n } ≡ call (record server { accepting = n }) x
call-accepting x n server proper =
    let base : Server = record server { accepting = n } in
    let s : Server = record (call server x) { accepting = n } in
    same_server s (call base x) base
      (ap {A = Server} (λ r. record r { accepting = n; heap = s.heap })
        (call_lem x server 0 proper).1)
      (call_lem x base 0 proper).1
      (λ a. ground (arith, (call_lem x server a proper).0, (call_lem x base a proper).0))

pub calls-accepting :
    (server : Server) (n : ℕ) (calls : List Call)
    → IsProper server.sessions
    → record (foldl call server calls) { accepting = n }
      ≡ foldl call (record server { accepting = n }) calls
calls-accepting server n [] proper = refl
calls-accepting server n (x ∷ calls) proper =
    calls-accepting (call server x) n calls (rw (call-sessions x server proper) proper)
    ∙ ap (λ s. foldl call s calls) (call-accepting x n server proper)

call-accepting_same :
    (x : Call) (server : Server)
    → IsProper server.sessions
    → (call server x).accepting ≡ server.accepting
call-accepting_same x server proper = ap (λ r. r.accepting) (call_lem x server 0 proper).1

call-IsFree :
    (x : Call) (p : SessionPtr) (server : Server)
    → IsProper server.sessions
    → IsFree p server
    → IsFree p (call server x)
call-IsFree x p server proper (free, idle, silent) =
    let same = call-sessions x server proper in
    let untouched : (call server x).heap p ≡ server.heap p =
      ground (arith, (call_lem x server p proper).0, not_reached x p server.sessions free) in
    (
      ap (find p) same ∙ free,
      ap (λ s. s.reading) untouched ∙ idle,
      ap (λ s. s.writing) untouched ∙ silent,
    )

call-Inv : (x : Call) (server : Server) → server.runner ≡ running → Inv server → Inv (call server x)
call-Inv (calls_write_to_all c) server up v =
    subst Inv (call-step (calls_write_to_all c) server up) (step-Inv server (writes_to_all c) tt v)
call-Inv (calls_write_to id c) server up v =
    subst Inv (call-step (calls_write_to id c) server up) (step-Inv server (writes_to id c) tt v)
call-Inv (calls_write_to_all_except id c) server up v =
    subst Inv (call-step (calls_write_to_all_except id c) server up)
      (step-Inv server (writes_to_all_except id c) tt v)

-- What calls leave as it is.
pub record Unmoved (server s : Server) : Type 0 where
  pub up : s.runner ≡ running
  pub accepts : s.accepting ≡ server.accepting
  pub inv : Inv s
  pub free : (p : SessionPtr) → IsFree p server → IsFree p s

pub calls-Unmoved :
    (server : Server) (calls : List Call)
    → server.runner ≡ running
    → Inv server
    → Unmoved server (foldl call server calls)
calls-Unmoved server [] up v = record { up = up; accepts = refl; inv = v; free = λ p f. f }
calls-Unmoved server (x ∷ calls) up v =
    let rest =
      calls-Unmoved (call server x) calls (call-runner x server v.proper ∙ up)
        (call-Inv x server up v) in
    record {
      up = rest.up;
      accepts = rest.accepts ∙ call-accepting_same x server v.proper;
      inv = rest.inv;
      free = λ p f. rest.free p (call-IsFree x p server v.proper f);
    }
