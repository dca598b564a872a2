-- ===== src/Net/Serial/Receiving.antt =====
-- How a serial port receives, and what closing does to it.
use Prim.Native.String.{String}
use sephi.Base.{
  ◌≡◌, List, [], ◌∷◌, ◌++◌, foldl, foldl_inv_if, outputs, foldl-log, refl, All, append-nil,
  if◌then◌else◌, arith, some, none, pick, true, false,
}
use sephi.Net.Types.{Chunk, is_error, disconnected, running, take-fill}
use sephi.Net.SerialParams.{SerialParams, PortBase}
use sephi.Net.Serial.{
  Serial, Task, send, close_port, open_port, Answers, Input, writes, runs_posted, read_done,
  construct, write, close, reopen, port_options, run_posted, step,
}
use sephi.Net.Serial.Opening.{set_options_frame}

-- No port can be opened.
abbrev pub NoPort : Input → Type 0
NoPort (runs_posted a) = is_error a.port_error ≡ true
NoPort _ = Unit

-- The bytes of a read that completes without an error.
unfoldable pub received : Serial → Input → List Chunk
received s (read_done k ec bytes) = elim s.runner [
  | running ↦ elim (pick k s.reading) [
    | none ↦ []
    | some _ ↦ if is_error ec then [] else bytes ∷ []
  ]
  | _ ↦ []
]
received s _ = []

-- What a posted handler leaves alone that has to do with receiving.
abbrev ReceivesAlike : Serial → Serial → Type 0
ReceivesAlike s s' = (s'.data_calls ≡ s.data_calls) × (s'.received_data ≡ s.received_data)

module _ (b : PortBase) where
  runs_posted-ReceivesAlike :
      (a : Answers) (s : Serial) (ts : List Task)
      → s.posted ≡ ts
      → ReceivesAlike s (run_posted b a s)
  unfolding run_posted
  runs_posted-ReceivesAlike a s [] e = ground arith
  runs_posted-ReceivesAlike a s (send m ∷ ts) e = ground arith
  runs_posted-ReceivesAlike a s (close_port ∷ ts) e = ground arith
  runs_posted-ReceivesAlike a s (open_port ∷ ts) e = ground (
    arith,
    set_options_frame (port_options b s.params) a.option_errors (record s { posted = ts }),
  )

  step-data_calls :
      (s : Serial) (i : Input) → (step b s i).data_calls ≡ s.data_calls ++ received s i
  unfolding step received
  step-data_calls s (read_done k ec bytes) =
      ground (arith, append-nil s.data_calls, take-fill bytes s.received_data)
  step-data_calls s (runs_posted a) =
      ground (arith, append-nil s.data_calls, runs_posted-ReceivesAlike a s s.posted refl)
  step-data_calls s (writes m) = ground (arith, append-nil s.data_calls)
  step-data_calls s _ = ground (arith, append-nil s.data_calls)

  -- The data handler has been called with exactly the bytes of the reads that completed without an
  -- error, in that order, whatever else happened to the port.
  pub data_calls-received :
      (port_name : String) (params : SerialParams) (is : List Input)
      → (foldl (step b) (construct port_name params) is).data_calls
        ≡ outputs (step b) received (construct port_name params) is
  unfolding construct
  data_calls-received port_name params is =
      foldl-log (λ s. s.data_calls) (step b) received step-data_calls (construct port_name params)
        is

  runs_posted-disconnected :
      (a : Answers) (s : Serial) (ts : List Task)
      → s.posted ≡ ts
      → is_error a.port_error ≡ true
      → s.connection_state ≡ disconnected
      → (run_posted b a s).connection_state ≡ disconnected
  unfolding run_posted
  runs_posted-disconnected a s [] e ok h = ground arith
  runs_posted-disconnected a s (send m ∷ ts) e ok h = ground arith
  runs_posted-disconnected a s (close_port ∷ ts) e ok h = ground arith
  runs_posted-disconnected a s (open_port ∷ ts) e ok h = ground arith

  step-disconnected :
      (s : Serial) (i : Input)
      → NoPort i
      → s.connection_state ≡ disconnected
      → (step b s i).connection_state ≡ disconnected
  unfolding step
  step-disconnected s (runs_posted a) ok h =
      ground (arith, runs_posted-disconnected a s s.posted refl ok h)
  step-disconnected s (writes m) ok h = ground arith
  step-disconnected s _ ok h = ground arith

  -- From `reopen` on, and until a port is opened, `write` returns false and changes nothing; so it
  -- is after `close`.
  pub reopening_refuses_writes :
      (s : Serial) (is : List Input) (chunk : Chunk)
      → All NoPort is
      → (write chunk (foldl (step b) (reopen s) is) ≡ (foldl (step b) (reopen s) is, false))
        × (write chunk (foldl (step b) (close s) is) ≡ (foldl (step b) (close s) is, false))
  unfolding write reopen close
  reopening_refuses_writes s is chunk ok =
      let IsOff : Serial → Type 0 = λ s. s.connection_state ≡ disconnected in
      let off = foldl_inv_if IsOff NoPort (step b) step-disconnected (reopen s) is ok refl in
      let off' = foldl_inv_if IsOff NoPort (step b) step-disconnected (close s) is ok refl in
      (ground arith, ground arith)
