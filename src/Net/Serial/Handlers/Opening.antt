-- ===== src/Net/Serial/Handlers/Opening.antt =====
-- The calls of the connection handler where the port is opened.
use sephi.Base.{◌≡◌, List, ◌∷◌, All, arith, true, false, Bool-cases, inl, inr}
use sephi.Net.Types.{connected, disconnected, is_error, running}
use sephi.Net.SerialParams.{PortBase}
use sephi.Net.Serial
use sephi.Net.Serial.{
  Serial, Answers, Task, send, close_port, open_port, Input, writes, reopens, closes, stops,
  runs_posted, read_done, write_done, write, reopen, close, do_read, set_options, port_options,
  flush,
}
use sephi.Net.Serial.Opening.{all_taken, set_options-all_taken}
use sephi.Net.Serial.Handlers.{Call, step}
use sephi.Net.Serial.Handlers.Calls.{
  KeepsPort, IsOrderly, calls-do_read, sequential, after_step, Agrees,
}

module _ (b : PortBase) where
  module _ (s : Serial) (a : Answers) (ts : List Task) (calls : List Call) (up : s.runner ≡ running)
      (first : s.posted ≡ open_port ∷ ts) where
    opening : Serial
    opening = record s { posted = ts }

    configured : Serial
    unfolding opening
    configured = (set_options (port_options b s.params) a.option_errors opening).0

    fails-Agrees : is_error a.port_error ≡ true → Agrees b s (runs_posted a, calls)
    unfolding Agrees step sequential Serial.step Serial.call_back_connection_handler opening
    fails-Agrees failed =
        let t = Serial.call_back_connection_handler disconnected a.port_error opening in
        ground (arith, after_step b s t (runs_posted a) calls (ground arith) up)

    refused-Agrees :
        is_error a.port_error ≡ false
        → all_taken a.option_errors (port_options b s.params) ≡ false
        → Agrees b s (runs_posted a, calls)
    unfolding Agrees step sequential Serial.step opening
    refused-Agrees opened refused =
        ground (arith, set_options-all_taken (port_options b s.params) a.option_errors opening)

    configured_lem :
        all_taken a.option_errors (port_options b s.params) ≡ true
        → (set_options (port_options b s.params) a.option_errors opening ≡ (configured, true))
          × (configured.runner ≡ running)
    unfolding opening configured
    configured_lem taken =
        ground (arith, set_options-all_taken (port_options b s.params) a.option_errors opening)

    flushed-Agrees :
        is_error a.port_error ≡ false
        → all_taken a.option_errors (port_options b s.params) ≡ true
        → (is_error (flush a.flush_result a.errno) ≡ false → All KeepsPort calls)
        → Agrees b s (runs_posted a, calls)
    unfolding Agrees step sequential Serial.step Serial.call_back_connection_handler do_read opening
    flushed-Agrees opened taken orderly =
        let (set, still) = configured_lem taken in
        let ec = flush a.flush_result a.errno in
        elim (Bool-cases (is_error ec)) [
          | inl failed ↦
              let t = Serial.call_back_connection_handler disconnected ec configured in
              ground (arith, after_step b s t (runs_posted a) calls (ground arith) still)
          | inr fine ↦
              let t = Serial.call_back_connection_handler connected ec configured in
              ground (
                arith,
                calls-do_read t calls (orderly fine),
                after_step b s (do_read t) (runs_posted a) calls (ground arith) still,
              )
        ]

  pub opened-Agrees :
      (s : Serial) (a : Answers) (ts : List Task) (calls : List Call)
      → IsOrderly (runs_posted a, calls)
      → s.runner ≡ running
      → s.posted ≡ open_port ∷ ts
      → Agrees b s (runs_posted a, calls)
  opened-Agrees s a ts calls orderly up first = elim (Bool-cases (is_error a.port_error)) [
    | inl failed ↦ fails-Agrees s a ts calls up first failed
    | inr opened ↦ elim (Bool-cases (all_taken a.option_errors (port_options b s.params))) [
      | inl taken ↦ flushed-Agrees s a ts calls up first opened taken (orderly opened)
      | inr refused ↦ refused-Agrees s a ts calls up first opened refused
    ]
  ]
