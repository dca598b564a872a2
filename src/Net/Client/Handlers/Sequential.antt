-- ===== src/Net/Client/Handlers/Sequential.antt =====
-- What handlers call is as if called right after the step.
use mathlib.Core.List.{map}
use sephi.Net.Callbacks
use sephi.Net.Callbacks.{calls-commute}
use sephi.Base.{
  foldl-view, ◌≡◌, ◌∙◌, refl, ℕ, List, [], ◌∷◌, ◌++◌, foldl, outputs, All, arith, Bool, true, false,
  Bool-cases, Option-cases, none, some, inl, inr, if◌then◌else◌, pick, take, length,
}
use sephi.Net.Types.{
  Chunk, connected, disconnected, ErrorCode, is_error, fill, Runner, running, stopped, terminated,
}
use sephi.Net.Client
use sephi.Net.Client.{
  Client, Input, writes, reconnects, closes, stops, runs_posted, connect_done, read_done,
  write_done, write, reconnect, close, do_read,
}
use sephi.Net.Client.Handlers.{Call, calls_write, calls_close, calls_reconnect, call, step}

abbrev pub input_of : Call → Input
input_of (calls_write chunk) = writes chunk
input_of calls_close = closes
input_of (calls_reconnect ec) = reconnects ec

abbrev pub KeepsSocket : Call → Type 0
KeepsSocket (calls_reconnect ec) = ⊥
KeepsSocket _ = Unit

-- A handler may reconnect when it is told of the end of the connection, but not where the client
-- asks for the next read when the handler returns.
abbrev pub IsOrderly : Input × List Call → Type 0
IsOrderly (connect_done k ec, calls) = is_error ec ≡ false → All KeepsSocket calls
IsOrderly (read_done k ec bytes, calls) = is_error ec ≡ false → All KeepsSocket calls
IsOrderly _ = Unit

module _ {Ip : Type 0} where
  calls_handler : Input → Client Ip → Bool
  calls_handler (connect_done k ec) c = elim (pick k c.connecting) [ none ↦ false | some _ ↦ true ]
  calls_handler (read_done k ec bytes) c = elim (pick k c.reading) [ none ↦ false | some _ ↦ true ]
  calls_handler (write_done k ec) c = elim (pick k c.writing) [
    | none ↦ false
    | some _ ↦ is_error ec
  ]
  calls_handler _ c = false

  -- The step, then the calls of the handler if it calls one.
  unfoldable pub sequential : Client Ip → Input × List Call → List Input
  unfolding calls_handler
  sequential c (i, calls) = elim c.runner [
    | running ↦ i ∷ (if calls_handler i c then map input_of calls else [])
    | stopped ↦ []
    | terminated ↦ []
  ]

  call-runner : (c : Client Ip) (x : Call) → (call c x).runner ≡ c.runner
  unfolding call write close reconnect
  call-runner c (calls_write chunk) = ground arith
  call-runner c calls_close = ground arith
  call-runner c (calls_reconnect ec) = ground arith

  call-step :
      (c : Client Ip) (x : Call) → c.runner ≡ running → Client.step c (input_of x) ≡ call c x
  unfolding call Client.step write close reconnect
  call-step c (calls_write chunk) up = ground arith
  call-step c calls_close up = ground arith
  call-step c (calls_reconnect ec) up = ground arith

  call-do_read :
      (c : Client Ip) (x : Call) → KeepsSocket x → do_read (call c x) ≡ call (do_read c) x
  unfolding call do_read write close
  call-do_read c (calls_write chunk) keeps = ground arith
  call-do_read c calls_close keeps = ground arith
  call-do_read c (calls_reconnect ec) keeps = absurd keeps

  calls-do_read :
      (c : Client Ip) (calls : List Call)
      → All KeepsSocket calls
      → do_read (foldl call c calls) ≡ foldl call (do_read c) calls
  calls-do_read = calls-commute call do_read KeepsSocket call-do_read

  after_step :
      (c d : Client Ip) (i : Input) (calls : List Call)
      → Client.step c i ≡ d
      → d.runner ≡ running
      → foldl call d calls ≡ foldl Client.step c (i ∷ map input_of calls)
  after_step =
      Callbacks.after_step Client.step call input_of (λ c. c.runner ≡ running)
        (λ c x up. call-runner c x ∙ up) call-step

  Agrees : Client Ip → Input × List Call → Type 0
  Agrees c j = step c j ≡ foldl Client.step c (sequential c j)

  connect-Agrees :
      (c : Client Ip) (k : ℕ) (ec : ErrorCode) (calls : List Call)
      → IsOrderly (connect_done k ec, calls)
      → c.runner ≡ running
      → Agrees c (connect_done k ec, calls)
  unfolding Agrees step sequential Client.step Client.call_back_connection_handler do_read
  connect-Agrees c k ec calls orderly up = elim (Option-cases (pick k c.connecting)) [
    | inl none_there ↦ ground arith
    | inr ((s, others), there) ↦
        let c' = record c { connecting = others } in
        elim (Bool-cases (is_error ec)) [
          | inl failed ↦
              let d = Client.call_back_connection_handler disconnected ec c' in
              ground (arith, after_step c d (connect_done k ec) calls (ground arith) up)
          | inr fine ↦
              let d = Client.call_back_connection_handler connected ec c' in
              ground (
                arith,
                calls-do_read d calls (orderly fine),
                after_step c (do_read d) (connect_done k ec) calls (ground arith) up,
              )
        ]
  ]

  read-Agrees :
      (c : Client Ip) (k : ℕ) (ec : ErrorCode) (bytes : Chunk) (calls : List Call)
      → IsOrderly (read_done k ec bytes, calls)
      → c.runner ≡ running
      → Agrees c (read_done k ec bytes, calls)
  unfolding Agrees step sequential Client.step Client.call_back_connection_handler do_read
  read-Agrees c k ec bytes calls orderly up = elim (Option-cases (pick k c.reading)) [
    | inl none_there ↦ ground arith
    | inr ((s, others), there) ↦
        let c' = record c { reading = others; received_packet = fill bytes c.received_packet } in
        elim (Bool-cases (is_error ec)) [
          | inl failed ↦
              let d = Client.call_back_connection_handler disconnected ec c' in
              ground (arith, after_step c d (read_done k ec bytes) calls (ground arith) up)
          | inr fine ↦
              let d = record c' {
                packet_calls =
                    c.packet_calls ++ take (length bytes) (fill bytes c.received_packet) ∷ [];
              } in
              ground (
                arith,
                calls-do_read d calls (orderly fine),
                after_step c (do_read d) (read_done k ec bytes) calls (ground arith) up,
              )
        ]
  ]

  write-Agrees :
      (c : Client Ip) (k : ℕ) (ec : ErrorCode) (calls : List Call)
      → c.runner ≡ running
      → Agrees c (write_done k ec, calls)
  unfolding Agrees step sequential Client.step Client.call_back_connection_handler
  write-Agrees c k ec calls up = elim (Option-cases (pick k c.writing)) [
    | inl none_there ↦ ground arith
    | inr ((w, others), there) ↦ elim (Bool-cases (is_error ec)) [
      | inl failed ↦
          let d =
            Client.call_back_connection_handler disconnected ec (record c { writing = others }) in
          ground (arith, after_step c d (write_done k ec) calls (ground arith) up)
      | inr fine ↦ ground arith
    ]
  ]

  running-Agrees :
      (c : Client Ip) (i : Input) (calls : List Call)
      → IsOrderly (i, calls)
      → c.runner ≡ running
      → Agrees c (i, calls)
  unfolding Agrees step sequential
  running-Agrees c (connect_done k ec) calls orderly up = connect-Agrees c k ec calls orderly up
  running-Agrees c (read_done k ec bytes) calls orderly up =
      read-Agrees c k ec bytes calls orderly up
  running-Agrees c (write_done k ec) calls orderly up = write-Agrees c k ec calls up
  running-Agrees c (writes m) calls orderly up = ground arith
  running-Agrees c (reconnects e) calls orderly up = ground arith
  running-Agrees c closes calls orderly up = ground arith
  running-Agrees c stops calls orderly up = ground arith
  running-Agrees c (runs_posted e) calls orderly up = ground arith

  step-Agrees : (c : Client Ip) (j : Input × List Call) → IsOrderly j → Agrees c j
  unfolding Agrees step sequential
  step-Agrees c (i, calls) orderly = at_runner c.runner refl
    where
      at_runner : (r : Runner) → c.runner ≡ r → Agrees c (i, calls)
      at_runner running e = running-Agrees c i calls orderly e
      at_runner stopped e = ground arith
      at_runner terminated e = ground arith

  -- Every run of a client whose handlers call it back, as they like, but do not reconnect where the
  -- client asks for the next read when they return, is a run without such calls: the one in which
  -- each step is followed by what the handler that it calls, if it calls one, called.
  pub handlers_are_sequential :
      (c : Client Ip) (js : List (Input × List Call))
      → All IsOrderly js
      → foldl step c js ≡ foldl Client.step c (outputs step sequential c js)
  unfolding Agrees
  handlers_are_sequential = foldl-view (λ c. c) step Client.step sequential IsOrderly step-Agrees
