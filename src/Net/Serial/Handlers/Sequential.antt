-- ===== src/Net/Serial/Handlers/Sequential.antt =====
-- What handlers call is as if called right after the step.
use sephi.Base.{
  ◌≡◌, refl, ℕ, List, [], ◌∷◌, ◌++◌, foldl, foldl-view, outputs, All, arith, Bool-cases,
  Option-cases, inl, inr, pick, take, length,
}
use sephi.Net.Types.{
  Chunk, disconnected, ErrorCode, is_error, fill, Runner, running, stopped, terminated,
}
use sephi.Net.SerialParams.{PortBase}
use sephi.Net.Serial
use sephi.Net.Serial.{
  Serial, Answers, Task, send, close_port, open_port, Input, writes, reopens, closes, stops,
  runs_posted, read_done, write_done, write, reopen, close, do_read, set_options, port_options,
  flush,
}
use sephi.Net.Serial.Handlers.{Call, step}
use sephi.Net.Serial.Handlers.Calls.{IsOrderly, calls-do_read, sequential, after_step, Agrees}
use sephi.Net.Serial.Handlers.Opening.{opened-Agrees}

module _ (b : PortBase) where
  read-Agrees :
      (s : Serial) (k : ℕ) (ec : ErrorCode) (bytes : Chunk) (calls : List Call)
      → IsOrderly (read_done k ec bytes, calls)
      → s.runner ≡ running
      → Agrees b s (read_done k ec bytes, calls)
  unfolding Agrees step sequential Serial.step Serial.call_back_connection_handler do_read
  read-Agrees s k ec bytes calls orderly up = elim (Option-cases (pick k s.reading)) [
    | inl none_there ↦ ground arith
    | inr ((p, others), there) ↦
        let s' = record s { reading = others; received_data = fill bytes s.received_data } in
        elim (Bool-cases (is_error ec)) [
          | inl failed ↦
              let t = Serial.call_back_connection_handler disconnected ec s' in
              ground (arith, after_step b s t (read_done k ec bytes) calls (ground arith) up)
          | inr fine ↦
              let t = record s' {
                data_calls = s.data_calls ++ take (length bytes) (fill bytes s.received_data) ∷ [];
              } in
              ground (
                arith,
                calls-do_read t calls (orderly fine),
                after_step b s (do_read t) (read_done k ec bytes) calls (ground arith) up,
              )
        ]
  ]

  write-Agrees :
      (s : Serial) (k : ℕ) (ec : ErrorCode) (calls : List Call)
      → s.runner ≡ running
      → Agrees b s (write_done k ec, calls)
  unfolding Agrees step sequential Serial.step Serial.call_back_connection_handler
  write-Agrees s k ec calls up = elim (Option-cases (pick k s.writing)) [
    | inl none_there ↦ ground arith
    | inr ((w, others), there) ↦ elim (Bool-cases (is_error ec)) [
      | inl failed ↦
          let t =
            Serial.call_back_connection_handler disconnected ec (record s { writing = others }) in
          ground (arith, after_step b s t (write_done k ec) calls (ground arith) up)
      | inr fine ↦ ground arith
    ]
  ]

  posted-Agrees :
      (s : Serial) (a : Answers) (posted : List Task) (calls : List Call)
      → IsOrderly (runs_posted a, calls)
      → s.runner ≡ running
      → s.posted ≡ posted
      → Agrees b s (runs_posted a, calls)
  unfolding Agrees step sequential Serial.step
  posted-Agrees s a [] calls orderly up first = ground arith
  posted-Agrees s a (send chunk ∷ ts) calls orderly up first = ground arith
  posted-Agrees s a (close_port ∷ ts) calls orderly up first = ground arith
  posted-Agrees s a (open_port ∷ ts) calls orderly up first =
      opened-Agrees b s a ts calls orderly up first

  running-Agrees :
      (s : Serial) (i : Input) (calls : List Call)
      → IsOrderly (i, calls)
      → s.runner ≡ running
      → Agrees b s (i, calls)
  unfolding Agrees step sequential
  running-Agrees s (runs_posted a) calls orderly up =
      posted-Agrees s a s.posted calls orderly up refl
  running-Agrees s (read_done k ec bytes) calls orderly up =
      read-Agrees s k ec bytes calls orderly up
  running-Agrees s (write_done k ec) calls orderly up = write-Agrees s k ec calls up
  running-Agrees s (writes m) calls orderly up = ground arith
  running-Agrees s reopens calls orderly up = ground arith
  running-Agrees s closes calls orderly up = ground arith
  running-Agrees s stops calls orderly up = ground arith

  step-Agrees : (s : Serial) (j : Input × List Call) → IsOrderly j → Agrees b s j
  unfolding Agrees step sequential
  step-Agrees s (i, calls) orderly = at_runner s.runner refl
    where
      at_runner : (r : Runner) → s.runner ≡ r → Agrees b s (i, calls)
      at_runner running e = running-Agrees s i calls orderly e
      at_runner stopped e = ground arith
      at_runner terminated e = ground arith

  -- Every run of a serial port whose handlers call it back, as they like, but do not reopen it where
  -- it asks for the next read when they return, is a run without such calls: the one in which each
  -- step is followed by what the handler that it calls, if it calls one, called.
  pub callbacks_are_sequential :
      (s : Serial) (js : List (Input × List Call))
      → All IsOrderly js
      → foldl (step b) s js ≡ foldl (Serial.step b) s (outputs (step b) (sequential b) s js)
  unfolding Agrees
  callbacks_are_sequential =
      foldl-view (λ s. s) (step b) (Serial.step b) (sequential b) IsOrderly step-Agrees
