-- ===== src/Net/Server/Handlers/Order.antt =====
-- The order of a step and the calls of its handler.
use mathlib.Core.List.{map, foldl-append}
use sephi.Base.{
  ◌≡◌, ◌∙◌, ap, sym, refl, ℕ, zero, suc, List, [], ◌∷◌, ◌++◌, foldl, arith, false, Bool-cases,
  Option-cases, none, some, inl, inr, if◌then◌else◌, pick, take, length,
}
use sephi.Net.Types.{Chunk, ErrorCode, is_error, fill, Runner, running, stopped, terminated}
use sephi.Net.Session
use sephi.Net.Session.{Session}
use sephi.Net.SessionMap.{SessionPtr, IsProper, session_ptr_to_id, erase-IsProper}
use sephi.Net.Server
use sephi.Net.Server.{
  Server, Input, writes_to_all, writes_to, writes_to_all_except, closes, stops, accept_done,
  read_done, write_done, at, announce, do_accept, register, leave,
}
use sephi.Net.Server.Invariant.{Inv, IsFree, IsAllowed}
use sephi.Net.Server.Handlers.{Call, call, close, stop, step}
use sephi.Net.Server.Handlers.Ahead.{ahead, close-ahead}
use sephi.Net.Server.Handlers.Calls.{input_of, calls-steps, calls-do_read}
use sephi.Net.Server.Handlers.Accepting.{calls-announce, calls-accepting, calls-Unmoved}

-- The order in which a step and the calls of its handler can be taken, if it calls one.
unfoldable pub order : Input → (SessionPtr → List Call) → Server → List Input
order (accept_done ec p) calls server = elim server.accepting [
  | zero ↦ accept_done ec p ∷ []
  | suc _ ↦
      if is_error ec then accept_done ec p ∷ [] else map input_of (calls p) ++ accept_done ec p ∷ []
]
order (read_done p ec bytes) calls server = elim (server.heap p).reading [
  | zero ↦ read_done p ec bytes ∷ []
  | suc _ ↦ read_done p ec bytes ∷ map input_of (calls p)
]
order (write_done p k ec) calls server = elim (pick k (server.heap p).writing) [
  | none ↦ write_done p k ec ∷ []
  | some _ ↦ write_done p k ec ∷ (if is_error ec then map input_of (calls p) else [])
]
order (closes errors) calls server =
    map input_of (ahead errors calls server.sessions) ++ closes errors ∷ []
order (stops errors) calls server =
    map input_of (ahead errors calls server.sessions) ++ stops errors ∷ []
order i calls server = i ∷ []

unfoldable pub sequential : Server → Input × (SessionPtr → List Call) → List Input
unfolding order
sequential server (i, calls) = elim server.runner [
  | running ↦ order i calls server
  | stopped ↦ []
  | terminated ↦ []
]

unfoldable pub Agrees : Server → Input × (SessionPtr → List Call) → Type 0
Agrees server j = step server j ≡ foldl Server.step server (sequential server j)

after_step :
    (server d : Server) (i : Input) (calls : List Call)
    → Server.step server i ≡ d
    → d.runner ≡ running
    → IsProper d.sessions
    → foldl call d calls ≡ foldl Server.step server (i ∷ map input_of calls)
after_step server d i calls e up proper =
    sym (ap (λ d'. foldl Server.step d' (map input_of calls)) e ∙ calls-steps d calls up proper)

read-Agrees :
    (server : Server) (p : SessionPtr) (ec : ErrorCode) (bytes : Chunk)
    (calls : SessionPtr → List Call) (n : ℕ)
    → server.runner ≡ running
    → Inv server
    → (server.heap p).reading ≡ n
    → Agrees server (read_done p ec bytes, calls)
unfolding Agrees step sequential Server.step leave
read-Agrees server p ec bytes calls zero up v e = ground arith
read-Agrees server p ec bytes calls (suc n) up v e =
    let server' =
      at p (λ s. record s { reading = n; received_packet = fill bytes s.received_packet }) server in
    elim (Bool-cases (is_error ec)) [
      | inl failed ↦
          let proper' = erase-IsProper p server.sessions v.proper in
          ground (
            arith,
            after_step server (leave p ec server') (read_done p ec bytes) (calls p) (ground arith)
                up proper',
          )
      | inr fine ↦
          let d = record server' {
            packet_calls =
                server'.packet_calls
                ++ (session_ptr_to_id p, take (length bytes) (server'.heap p).received_packet) ∷ [];
          } in
          ground (
            arith,
            calls-do_read d p (calls p) v.proper,
            after_step server (at p Session.do_read d) (read_done p ec bytes) (calls p)
                (ground arith) up v.proper,
          )
    ]

write-Agrees :
    (server : Server) (p : SessionPtr) (k : ℕ) (ec : ErrorCode) (calls : SessionPtr → List Call)
    → server.runner ≡ running
    → Inv server
    → Agrees server (write_done p k ec, calls)
unfolding Agrees step sequential Server.step leave
write-Agrees server p k ec calls up v = elim (Option-cases (pick k (server.heap p).writing)) [
  | inl none_there ↦ ground arith
  | inr ((w, others), there) ↦
      let server' = at p (λ s. record s { writing = others }) server in
      elim (Bool-cases (is_error ec)) [
        | inl failed ↦ ground (
          arith,
          after_step server (leave p ec server') (write_done p k ec) (calls p) (ground arith) up
              (erase-IsProper p server.sessions v.proper),
        )
        | inr fine ↦ ground arith
      ]
]

accepted_step :
    (server : Server) (p : SessionPtr) (ec : ErrorCode) (n : ℕ)
    → server.runner ≡ running
    → server.accepting ≡ suc n
    → is_error ec ≡ false
    → Server.step server (accept_done ec p)
      ≡ do_accept (register p (announce ec p (record server { accepting = n })))
unfolding Server.step
accepted_step server p ec n up e fine = ground arith

accept-Agrees :
    (server : Server) (p : SessionPtr) (ec : ErrorCode) (calls : SessionPtr → List Call) (n : ℕ)
    → server.runner ≡ running
    → Inv server
    → IsFree p server
    → server.accepting ≡ n
    → Agrees server (accept_done ec p, calls)
unfolding Agrees step sequential Server.step
accept-Agrees server p ec calls zero up v free e = ground arith
accept-Agrees server p ec calls (suc n) up v free e = elim (Bool-cases (is_error ec)) [
  | inl failed ↦ ground arith
  | inr fine ↦
      let server' = foldl call server (calls p) in
      let still = calls-Unmoved server (calls p) up v in
      let before = calls-accepting server n (calls p) v.proper in
      let announced =
        calls-announce (record server { accepting = n }) p ec (calls p) v.proper free.0 in
      let inputs = map input_of (calls p) in
      let then_accepted : Server.step (foldl Server.step server inputs) (accept_done ec p)
          ≡ do_accept (
              register p (foldl call (announce ec p (record server { accepting = n })) (calls p))) =
        ap (λ s. Server.step s (accept_done ec p)) (calls-steps server (calls p) up v.proper)
        ∙ (accepted_step server' p ec n still.up (still.accepts ∙ e) fine
            ∙ ap (λ s. do_accept (register p s)) (ap (announce ec p) before ∙ announced)) in
      ground (arith, then_accepted, foldl-append Server.step server inputs (accept_done ec p ∷ []))
]

closes_step :
    (errors : SessionPtr → ErrorCode) (server : Server)
    → server.runner ≡ running
    → (Server.step server (closes errors) ≡ (Server.close errors server).0)
      × (Server.step server (stops errors) ≡ Server.stop errors server)
unfolding Server.step
closes_step errors server up = (ground arith, ground arith)

-- Any step that does to the written-to server what the step with the calls does.
after_ahead :
    (server d : Server) (i : Input) (written : List Call)
    → server.runner ≡ running
    → IsProper server.sessions
    → d ≡ Server.step (foldl call server written) i
    → d ≡ foldl Server.step server (map input_of written ++ i ∷ [])
after_ahead server d i written up proper e =
    e
    ∙ (ap (λ s. Server.step s i) (sym (calls-steps server written up proper))
        ∙ sym (foldl-append Server.step server (map input_of written) (i ∷ [])))

close-Agrees :
    (errors : SessionPtr → ErrorCode) (server : Server) (calls : SessionPtr → List Call)
    → server.runner ≡ running
    → Inv server
    → Agrees server (closes errors, calls)
unfolding Agrees step sequential order
close-Agrees errors server calls up v =
    let written = ahead errors calls server.sessions in
    let still = calls-Unmoved server written up v in
    ground (
      arith,
      after_ahead server (close errors calls server).0 (closes errors) written up v.proper (
          ap (λ r. r.0) (close-ahead errors calls server v.proper)
          ∙ sym (closes_step errors (foldl call server written) still.up).0),
    )

stop-Agrees :
    (errors : SessionPtr → ErrorCode) (server : Server) (calls : SessionPtr → List Call)
    → server.runner ≡ running
    → Inv server
    → Agrees server (stops errors, calls)
unfolding Agrees step sequential order stop Server.stop
stop-Agrees errors server calls up v =
    let written = ahead errors calls server.sessions in
    let still = calls-Unmoved server written up v in
    ground (
      arith,
      after_ahead server (stop errors calls server) (stops errors) written up v.proper (
          ap (λ r. record r.0 { runner = if r.1 then stopped else terminated })
            (close-ahead errors calls server v.proper)
          ∙ sym (closes_step errors (foldl call server written) still.up).1),
    )

running-Agrees :
    (server : Server) (i : Input) (calls : SessionPtr → List Call)
    → IsAllowed server i
    → server.runner ≡ running
    → Inv server
    → Agrees server (i, calls)
unfolding Agrees step sequential
running-Agrees server (accept_done ec p) calls free up v =
    accept-Agrees server p ec calls server.accepting up v free refl
running-Agrees server (read_done p ec bytes) calls ok up v =
    read-Agrees server p ec bytes calls (server.heap p).reading up v refl
running-Agrees server (write_done p k ec) calls ok up v = write-Agrees server p k ec calls up v
running-Agrees server (writes_to_all c) calls ok up v = ground arith
running-Agrees server (writes_to id c) calls ok up v = ground arith
running-Agrees server (writes_to_all_except id c) calls ok up v = ground arith
running-Agrees server (closes errors) calls ok up v = close-Agrees errors server calls up v
running-Agrees server (stops errors) calls ok up v = stop-Agrees errors server calls up v

pub step-Agrees :
    (server : Server) (i : Input) (calls : SessionPtr → List Call)
    → IsAllowed server i
    → Inv server
    → Agrees server (i, calls)
unfolding Agrees step sequential
step-Agrees server i calls ok v = at_runner server.runner refl
  where
    at_runner : (r : Runner) → server.runner ≡ r → Agrees server (i, calls)
    at_runner running e = running-Agrees server i calls ok e v
    at_runner stopped e = ground arith
    at_runner terminated e = ground arith
