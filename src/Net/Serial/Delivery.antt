-- ===== src/Net/Serial/Delivery.antt =====
-- What a serial port makes of the chunks it is given.
pub mod Refinement
use Prim.Native.String.{String}
use sephi.Base.{
  ◌≡◌, ◌≢◌, inl, List, [], ◌∷◌, ◌++◌, foldl, outputs, refl, append_assoc, append-nil, arith, Option,
  pick, true, false,
}
use sephi.Net.Types.{Chunk, ErrorCode, is_error, running}
use sephi.Net.SendLoop.{
  OneWrite, Picks, flow, SendLoop, flow-append, pick-OneWrite, run-OneWrite, run-flow, run-stalled,
}
use sephi.Net.SerialParams.{SerialParams, PortBase}
use sephi.Net.Serial.{
  Serial, send, close_port, open_port, Input, writes, reopens, closes, stops, runs_posted,
  write_done, construct, are_all_messages_sent, complete_write, step,
}
use sephi.Net.Serial.Sending.{
  chunks, chunks-append, accepted, Sound, runs_posted-Sound, runs_posted-flow, runs_posted-stalled,
}

module _ (b : PortBase) where
  step-Sound : (s : Serial) (i : Input) → Sound s → Sound (step b s i)
  unfolding step
  step-Sound s (runs_posted a) h = ground (arith, runs_posted-Sound b a s s.posted refl h)
  step-Sound s (write_done k ec) h = ground (arith, pick-OneWrite k s.writing s.sending_messages)
  step-Sound s _ h = ground arith

  complete_write-flow :
      (r : Option (Chunk × List Chunk)) (ec : ErrorCode) (s : Serial) (ms w : List Chunk)
      → s.sending_messages ≡ ms
      → Picks r ms
      → flow (complete_write r ec s).written (complete_write r ec s).sending_messages w
        ≡ flow s.written s.sending_messages w
  unfolding complete_write
  complete_write-flow r ec s [] w e h = ground arith
  complete_write-flow r ec s (m ∷ []) w e h = ground arith
  complete_write-flow r ec s (m ∷ n ∷ ms) w e h =
      ground (arith, append_assoc s.written (n ∷ []) (ms ++ w))

  step-flow :
      (s : Serial) (i : Input)
      → Sound s
      → let s' = step b s i in
        flow s'.written s'.sending_messages (chunks s'.posted)
        ≡ flow s.written s.sending_messages (chunks s.posted) ++ accepted s i
  unfolding step accepted
  step-flow s (writes chunk) h = ground (
    arith,
    chunks-append s.posted (send chunk ∷ []),
    flow-append s.written s.sending_messages (chunks s.posted) (chunk ∷ []),
    append-nil (flow s.written s.sending_messages (chunks s.posted)),
  )
  step-flow s closes h = ground (
    arith,
    chunks-append s.posted (close_port ∷ []),
    append-nil (chunks s.posted),
    append-nil (flow s.written s.sending_messages (chunks s.posted)),
  )
  step-flow s stops h = ground (
    arith,
    chunks-append s.posted (close_port ∷ []),
    append-nil (chunks s.posted),
    append-nil (flow s.written s.sending_messages (chunks s.posted)),
  )
  step-flow s reopens h = ground (
    arith,
    chunks-append s.posted (close_port ∷ []),
    chunks-append (s.posted ++ close_port ∷ []) (open_port ∷ []),
    append-nil (chunks s.posted),
    append-nil (flow s.written s.sending_messages (chunks s.posted)),
  )
  step-flow s (runs_posted a) h = ground (
    arith,
    append-nil (flow s.written s.sending_messages (chunks s.posted)),
    runs_posted-flow b a s s.posted refl h,
  )
  step-flow s (write_done k ec) h = ground (
    arith,
    append-nil (flow s.written s.sending_messages (chunks s.posted)),
    complete_write-flow (pick k s.writing) ec s s.sending_messages (chunks s.posted) refl
        (pick-OneWrite k s.writing s.sending_messages h),
  )
  step-flow s _ h = ground (arith, append-nil (flow s.written s.sending_messages (chunks s.posted)))

  step-stalled :
      (s : Serial) (i : Input)
      → s.writing ≡ []
      → s.sending_messages ≢ []
      → let s' = step b s i in
        (s'.written ≡ s.written) × (s'.writing ≡ []) × (s'.sending_messages ≢ [])
  unfolding step
  step-stalled s (runs_posted a) w n = ground (arith, runs_posted-stalled b a s s.posted refl w n)
  step-stalled s _ w n = ground arith

  pub serial_loop : SendLoop Serial Input
  serial_loop = record {
    step = step b;
    sending = λ s. s.sending_messages;
    writing = λ s. s.writing;
    written = λ s. s.written;
    waiting = λ s. chunks s.posted;
    accepted = accepted;
    keeps = step-Sound;
    flows = step-flow;
    stalls = step-stalled;
  }

  module _ (port_name : String) (params : SerialParams) (is : List Input) where
    -- Whatever happens to a serial port that was constructed, the chunks for which `write` returned
    -- true are, in the order of the calls, those given to `async_write`, then those that wait in
    -- the deque behind its front, then those still posted.
    pub port_written-accepted :
        let s = foldl (step b) (construct port_name params) is in
        flow s.written s.sending_messages (chunks s.posted)
        ≡ outputs (step b) accepted (construct port_name params) is
    unfolding construct serial_loop
    port_written-accepted = run-flow serial_loop (construct port_name params) is (inl refl)

    -- Whatever happens to a serial port that was constructed, at most one write is under way, and
    -- its buffer is the front of the deque.
    pub port_writing-front :
        OneWrite
          (foldl (step b) (construct port_name params) is).writing
          (foldl (step b) (construct port_name params) is).sending_messages
    unfolding construct serial_loop
    port_writing-front = run-OneWrite serial_loop (construct port_name params) is (inl refl)

  -- When a write to the port fails, nothing is written any more, whatever follows, `reopen` included,
  -- and `are_all_messages_sent` stays false.
  pub failed_port_write_stalls :
      (s : Serial) (m : Chunk) (ec : ErrorCode) (is : List Input)
      → s.runner ≡ running
      → s.writing ≡ m ∷ []
      → OneWrite s.writing s.sending_messages
      → is_error ec ≡ true
      → let s' = foldl (step b) (step b s (write_done 0 ec)) is in
        (s'.written ≡ s.written) × (are_all_messages_sent s' ≡ false)
  unfolding step serial_loop
  failed_port_write_stalls s m ec is up busy one failed =
      let (same, full) =
        run-stalled serial_loop (step b s (write_done 0 ec)) is (ground arith) (ground arith) in
      (ground arith, ground arith)
