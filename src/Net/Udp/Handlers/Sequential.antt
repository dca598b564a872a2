-- ===== src/Net/Udp/Handlers/Sequential.antt =====
-- What handlers call is as if called right before the step.
use mathlib.Core.List.{map}
use sephi.Base.{
  ◌≡◌, ◌∙◌, ap, sym, refl, ℕ, suc, ◌+◌, List, [], ◌∷◌, ◌++◌, foldl, foldl-view, outputs, arith,
  true, false, Bool-cases, Nat-cases, Option-cases, inl, inr, if◌then◌else◌, pick,
}
use sephi.Net.Types.{ErrorCode, is_error, Runner, running, stopped, terminated}
use sephi.Net.Callbacks.{calls-commute}
use sephi.Net.Udp
use sephi.Net.Udp.{
  Receipt, got, blocks, throws, SocketOps, LoopEnd, finished, blocked, threw, out_of_fuel, Udp,
  Input, writes_to, broadcasts, closes, stops, runs_posted, read_done, write_done, by_runner, sub64,
  deliver, after_loop, do_read, to_remote, write_to, broadcast, close,
}
use sephi.Net.Udp.Handlers.{handle_read, Call, next, call, step}
use sephi.Net.Udp.Handlers.Commuting.{read-call, All_units}
use sephi.Net.Udp.Handlers.Calls.{input_of, writes-calls}
use sephi.Net.Udp.Handlers.Loop.{loop_calls}
use sephi.Net.Udp.Handlers.Order.{handler_calls, sequential, before_step, handle_read-calls}

module _ {Sock Ip Address : Type 0} (ops : SocketOps Sock Ip Address) where
  open ops use {available}

  Agrees : Udp Sock Ip Address → Input Sock Ip Address × List (List (Call Address)) → Type 0
  Agrees u j = step ops u j ≡ foldl (Udp.step ops) u (sequential ops u j)

  module _ (u : Udp Sock Ip Address) (later : List (List (Call Address))) (up : u.runner ≡ running)
      (free : u.is_blocked ≡ false) where
    free_order :
        (i : Input Sock Ip Address)
        → sequential ops u (i, later) ≡ map input_of (handler_calls ops i later u) ++ i ∷ []
    unfolding sequential
    free_order i = rw up (rw free refl)

    -- A step whose handlers' calls may stand before it.
    by_calls :
        (i : Input Sock Ip Address) (calls : List (Call Address))
        → handler_calls ops i later u ≡ calls
        → step ops u (i, later) ≡ foldl (call ops) (Udp.step ops u i) calls
        → Udp.step ops (foldl (call ops) u calls) i ≡ foldl (call ops) (Udp.step ops u i) calls
        → Agrees u (i, later)
    unfolding Agrees
    by_calls i calls called same commutes =
        same
        ∙ (sym (before_step ops u i calls up commutes)
            ∙ ap (foldl (Udp.step ops) u)
                (sym (free_order i ∙ ap (λ cs. map input_of cs ++ i ∷ []) called)))

    woken_step :
        (ec : ErrorCode) (sock : Sock) (n : ℕ)
        → u.reading ≡ suc n
        → let v = record u { socket = sock; reading = n } in
          (step ops u (read_done ec sock, later) ≡ handle_read ops ec later v)
          × (Udp.step ops u (read_done ec sock) ≡ Udp.handle_read ops ec v)
    unfolding step Udp.step
    woken_step ec sock n one = ground arith

    none_woken :
        (ec : ErrorCode) (sock : Sock)
        → u.reading ≡ 0
        → step ops u (read_done ec sock, later) ≡ Udp.step ops u (read_done ec sock)
    unfolding step Udp.step
    none_woken ec sock none_there = ground arith

    read-Agrees : (ec : ErrorCode) (sock : Sock) → Agrees u (read_done ec sock, later)
    unfolding handler_calls
    read-Agrees ec sock = elim (Nat-cases u.reading) [
      | inl none_there ↦
          by_calls (read_done ec sock) [] (rw none_there refl) (none_woken ec sock none_there) refl
      | inr (n, one) ↦
          let v = record u { socket = sock; reading = n } in
          let (same, same') = woken_step ec sock n one in
          let calls =
            if is_error ec
            then next later
            else loop_calls ops (available sock + 1) (available sock) later v in
          by_calls (read_done ec sock) calls (rw one refl)
            (same
              ∙ (handle_read-calls ops v ec later ∙ ap (λ w. foldl (call ops) w calls) (sym same')))
            (calls-commute (call ops) (λ w. Udp.step ops w (read_done ec sock)) (λ x. Unit {0})
              (λ w x. read-call ops w ec sock x) u calls (All_units calls))
    ]

    write-Agrees : (k : ℕ) (ec : ErrorCode) → Agrees u (write_done k ec, later)
    unfolding handler_calls step Udp.step
    write-Agrees k ec = elim (Option-cases (pick k u.sending)) [
      | inl none_there ↦
          by_calls (write_done k ec) [] (rw (none_there, handler_calls) refl) (ground arith) refl
      | inr ((ep, others), there) ↦
          by_calls (write_done k ec) (if is_error ec then next later else [])
            (rw (there, handler_calls) refl) (ground arith)
            (writes-calls ops u k ec ep others (if is_error ec then next later else []) there)
    ]

    running-Agrees : (i : Input Sock Ip Address) → Agrees u (i, later)
    unfolding handler_calls step
    running-Agrees (read_done ec sock) = read-Agrees ec sock
    running-Agrees (write_done k ec) = write-Agrees k ec
    running-Agrees i = by_calls i [] refl (ground arith) refl

  blocked-Agrees :
      (u : Udp Sock Ip Address) (i : Input Sock Ip Address) (later : List (List (Call Address)))
      → u.runner ≡ running
      → u.is_blocked ≡ true
      → Agrees u (i, later)
  unfolding Agrees step sequential Udp.step
  blocked-Agrees u (read_done ec sock) later up held = ground arith
  blocked-Agrees u (write_done k ec) later up held = ground arith
  blocked-Agrees u i later up held = ground arith

  step-Agrees :
      (u : Udp Sock Ip Address) (j : Input Sock Ip Address × List (List (Call Address)))
      → Unit {0}
      → Agrees u j
  unfolding Agrees step sequential
  step-Agrees u (i, later) _ = at_runner u.runner refl
    where
      at_runner : (r : Runner) → u.runner ≡ r → Agrees u (i, later)
      at_runner running up = elim (Bool-cases u.is_blocked) [
        | inl held ↦ blocked-Agrees u i later up held
        | inr free ↦ running-Agrees u later up free i
      ]
      at_runner stopped e = ground arith
      at_runner terminated e = ground arith

  -- Every run of a UDP endpoint whose handlers call it back, as they like, is a run without such
  -- calls: the one in which what the handlers that a step calls call is called right before the step,
  -- in that order. This holds too where the receive loop blocks or ends with an exception after some
  -- of the calls.
  pub handlers_call_first :
      (u : Udp Sock Ip Address) (js : List (Input Sock Ip Address × List (List (Call Address))))
      → foldl (step ops) u js ≡ foldl (Udp.step ops) u (outputs (step ops) (sequential ops) u js)
  unfolding Agrees
  handlers_call_first u js =
      foldl-view (λ v. v) (step ops) (Udp.step ops) (sequential ops) (λ j. Unit {0}) step-Agrees u
        js (All_units js)
