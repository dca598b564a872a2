-- ===== src/Net/Serial/Sending.antt =====
-- How the serial port sends: order, one write at a time, and what a failed write leaves.
use sephi.Base.{
  ◌≡◌, ◌≢◌, List, [], ◌∷◌, ◌++◌, tail, refl, ap, append_assoc, if◌then◌else◌, arith, some, none,
  Bool, pick,
}
use sephi.Net.Types.{Chunk, ErrorCode, is_error, running}
use sephi.Net.SendLoop.{OneWrite, flow}
use sephi.Net.SerialParams.{PortBase, PortOption}
use sephi.Net.Serial.{
  Serial, Task, send, close_port, open_port, Answers, Input, writes, write_done, write, set_options,
  handle_open, port_options, run_posted,
}

-- The chunks in the lambdas that `write` has posted.
abbrev pub chunks : List Task → List Chunk
chunks [] = []
chunks (send chunk ∷ ts) = chunk ∷ chunks ts
chunks (close_port ∷ ts) = chunks ts
chunks (open_port ∷ ts) = chunks ts

pub chunks-append : (ts us : List Task) → chunks (ts ++ us) ≡ chunks ts ++ chunks us
chunks-append [] us = refl
chunks-append (send chunk ∷ ts) us = ap (◌∷◌ chunk) (chunks-append ts us)
chunks-append (close_port ∷ ts) us = chunks-append ts us
chunks-append (open_port ∷ ts) us = chunks-append ts us

-- The chunk of a call of `write` that returns true.
unfoldable pub accepted : Serial → Input → List Chunk
unfolding write
accepted s (writes chunk) = elim s.runner [
  | running ↦ if (write chunk s).1 then chunk ∷ [] else []
  | _ ↦ []
]
accepted s _ = []

-- The end of a write that is under way: whether it is an error.
unfoldable pub ended : Serial → Input → List Bool
ended s (write_done k ec) = elim s.runner [
  | running ↦ elim (pick k s.writing) [ none ↦ [] | some _ ↦ is_error ec ∷ [] ]
  | _ ↦ []
]
ended s _ = []

-- What an operation leaves alone that has nothing to do with sending.
abbrev pub SendsAlike : Serial → Serial → Type 0
SendsAlike s s' =
    (s'.sending_messages ≡ s.sending_messages)
    × (s'.writing ≡ s.writing)
    × (s'.written ≡ s.written)
    × (s'.posted ≡ s.posted)

set_options-SendsAlike :
    (os : List PortOption) (errors : PortOption → ErrorCode) (s : Serial)
    → SendsAlike s (set_options os errors s).0
unfolding set_options
set_options-SendsAlike [] errors s = (refl, refl, refl, refl)
set_options-SendsAlike (o ∷ os) errors s =
    ground (
      arith,
      set_options-SendsAlike os errors (record s { options = s.options ++ (s.port, o) ∷ [] }),
    )

-- Opening a port leaves the deque, the writes and the posted handlers alone.
pub handle_open-SendsAlike :
    (b : PortBase) (ec : ErrorCode) (a : Answers) (s : Serial) → SendsAlike s (handle_open b ec a s)
unfolding handle_open
handle_open-SendsAlike b ec a s =
    ground (arith, set_options-SendsAlike (port_options b s.params) a.option_errors s)

abbrev pub Sound : Serial → Type 0
Sound s = OneWrite s.writing s.sending_messages

abbrev popped : Serial → List Task → Serial
popped s ts = record s { posted = ts }

module _ (b : PortBase) where
  pub runs_posted-Sound :
      (a : Answers) (s : Serial) (ts : List Task)
      → s.posted ≡ ts
      → Sound s
      → Sound (run_posted b a s)
  unfolding run_posted
  runs_posted-Sound a s [] e h = ground arith
  runs_posted-Sound a s (send chunk ∷ ts) e h = ground arith
  runs_posted-Sound a s (close_port ∷ ts) e h = ground arith
  runs_posted-Sound a s (open_port ∷ ts) e h =
      ground (arith, handle_open-SendsAlike b a.port_error a (popped s ts))

  pub runs_posted-flow :
      (a : Answers) (s : Serial) (ts : List Task)
      → s.posted ≡ ts
      → Sound s
      → let s' = run_posted b a s in
        flow s'.written s'.sending_messages (chunks s'.posted)
        ≡ flow s.written s.sending_messages (chunks s.posted)
  unfolding run_posted
  runs_posted-flow a s [] e h = ground arith
  runs_posted-flow a s (send chunk ∷ ts) e h = ground (
    arith,
    append_assoc s.written (chunk ∷ []) (chunks ts),
    append_assoc (tail s.sending_messages) (chunk ∷ []) (chunks ts),
  )
  runs_posted-flow a s (close_port ∷ ts) e h = ground arith
  runs_posted-flow a s (open_port ∷ ts) e h =
      ground (arith, handle_open-SendsAlike b a.port_error a (popped s ts))

  pub runs_posted-stalled :
      (a : Answers) (s : Serial) (ts : List Task)
      → s.posted ≡ ts
      → s.writing ≡ []
      → s.sending_messages ≢ []
      → let s' = run_posted b a s in
        (s'.written ≡ s.written) × (s'.writing ≡ []) × (s'.sending_messages ≢ [])
  unfolding run_posted
  runs_posted-stalled a s [] e w n = ground arith
  runs_posted-stalled a s (send chunk ∷ ts) e w n = ground arith
  runs_posted-stalled a s (close_port ∷ ts) e w n = ground arith
  runs_posted-stalled a s (open_port ∷ ts) e w n =
      ground (arith, handle_open-SendsAlike b a.port_error a (popped s ts))
