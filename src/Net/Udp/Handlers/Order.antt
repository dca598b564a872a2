-- ===== src/Net/Udp/Handlers/Order.antt =====
-- What the handlers of a step call, and where that may stand.
use mathlib.Core.List.{map, foldl-append}
use sephi.Base.{
  ◌≡◌, ◌∙◌, ap, refl, ℕ, zero, suc, ◌+◌, List, [], ◌∷◌, ◌++◌, foldl, arith, none, some, Bool, true,
  false, Bool-cases, inl, inr, if◌then◌else◌, ◌&&◌, pick,
}
use sephi.Net.Types.{ErrorCode, is_error, running, stopped, terminated}
use sephi.Net.Callbacks.{calls-commute, calls-steps}
use sephi.Net.Udp
use sephi.Net.Udp.{
  Receipt, got, blocks, throws, SocketOps, LoopEnd, finished, blocked, threw, out_of_fuel, Udp,
  Input, writes_to, broadcasts, closes, stops, runs_posted, read_done, write_done, by_runner, sub64,
  deliver, after_loop, do_read, to_remote, write_to, broadcast, close,
}
use sephi.Net.Udp.Handlers.{
  handle_read, Call, calls_write_to, calls_broadcast, calls_close, next, call,
}
use sephi.Net.Udp.Handlers.Commuting.{call_frame, after_loop-call, All_units}
use sephi.Net.Udp.Handlers.Calls.{input_of, call-step}
use sephi.Net.Udp.Handlers.Loop.{loop_calls, calls_after, read_loop_lem}

module _ {Sock Ip Address : Type 0} (ops : SocketOps Sock Ip Address) where
  open ops use {available}

  calls_read :
      ℕ → ErrorCode → Sock → List (List (Call Address)) → Udp Sock Ip Address → List (Call Address)
  unfolding loop_calls
  calls_read zero ec sock later u = []
  calls_read (suc n) ec sock later u =
      if is_error ec
      then next later
      else loop_calls ops (available sock + 1) (available sock) later
          (record u { socket = sock; reading = n })

  -- What the handlers that a step calls call.
  unfoldable pub handler_calls :
      Input Sock Ip Address → List (List (Call Address)) → Udp Sock Ip Address → List (Call Address)
  unfolding calls_read
  handler_calls (read_done ec sock) later u = calls_read u.reading ec sock later u
  handler_calls (write_done i ec) later u = elim (pick i u.sending) [
    | none ↦ []
    | some _ ↦ if is_error ec then next later else []
  ]
  handler_calls _ later u = []

  order :
      Bool
      → Input Sock Ip Address
      → List (List (Call Address))
      → Udp Sock Ip Address
      → List (Input Sock Ip Address)
  unfolding handler_calls
  order true i later u = i ∷ []
  order false i later u = map input_of (handler_calls i later u) ++ i ∷ []

  -- The calls of the handlers, then the step.
  unfoldable pub sequential :
      Udp Sock Ip Address
      → Input Sock Ip Address × List (List (Call Address))
      → List (Input Sock Ip Address)
  unfolding order
  sequential u (i, later) = elim u.runner [
    | running ↦ order (u.is_blocked && by_runner i) i later u
    | stopped ↦ []
    | terminated ↦ []
  ]

  -- Calls that commute with a step may stand before it.
  pub before_step :
      (u : Udp Sock Ip Address) (i : Input Sock Ip Address) (calls : List (Call Address))
      → u.runner ≡ running
      → Udp.step ops (foldl (call ops) u calls) i ≡ foldl (call ops) (Udp.step ops u i) calls
      → foldl (Udp.step ops) u (map input_of calls ++ i ∷ [])
        ≡ foldl (call ops) (Udp.step ops u i) calls
  before_step u i calls up commutes =
      foldl-append (Udp.step ops) u (map input_of calls) (i ∷ [])
      ∙ (ap (λ v. Udp.step ops v i)
            (calls-steps (Udp.step ops) (call ops) input_of (λ v. v.runner ≡ running)
              (λ v x up. (call_frame ops v x).0 ∙ up) (call-step ops) u calls up)
          ∙ commutes)

  after_loop-calls :
      (r : Udp Sock Ip Address × LoopEnd) (calls : List (Call Address))
      → after_loop ops (calls_after ops r calls) ≡ foldl (call ops) (after_loop ops r) calls
  unfolding calls_after
  after_loop-calls (u, end) [] = refl
  after_loop-calls (u, end) (x ∷ calls) =
      after_loop-calls (call ops u x, end) calls
      ∙ ap (λ v. foldl (call ops) v calls) (after_loop-call ops (u, end) x)

  call-do_read :
      (u : Udp Sock Ip Address) (x : Call Address)
      → Unit {0}
      → do_read ops (call ops u x) ≡ call ops (do_read ops u) x
  unfolding do_read call
  call-do_read u (calls_write_to remote chunk) _ = ground arith
  call-do_read u (calls_broadcast port chunk) _ = ground arith
  call-do_read u calls_close _ = ground arith

  pub handle_read-calls :
      (u : Udp Sock Ip Address) (ec : ErrorCode) (later : List (List (Call Address)))
      → handle_read ops ec later u
        ≡ foldl (call ops) (Udp.handle_read ops ec u) (
            if is_error ec
            then next later
            else loop_calls ops (available u.socket + 1) (available u.socket) later u)
  unfolding handle_read Udp.handle_read
  handle_read-calls u ec later = elim (Bool-cases (is_error ec)) [
    | inl failed ↦
        let told = record u {
          error_calls = u.error_calls ++ (to_remote ops u.sender_ep, ec) ∷ [];
        } in
        rw failed (
          calls-commute (call ops) (do_read ops) (λ x. Unit {0}) call-do_read told (next later)
            (All_units (next later)))
    | inr fine ↦
        let n = available u.socket in
        rw fine (
          ap (after_loop ops) (read_loop_lem ops (n + 1) n later u)
          ∙ after_loop-calls (Udp.read_loop ops (n + 1) n u) (loop_calls ops (n + 1) n later u))
  ]
