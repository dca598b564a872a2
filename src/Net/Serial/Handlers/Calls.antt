-- ===== src/Net/Serial/Handlers/Calls.antt =====
-- A call from a handler is a step; the run of steps that a step with calls stands for.
use mathlib.Core.List.{map}
use sephi.Base.{
  ◌≡◌, ◌∙◌, List, [], ◌∷◌, foldl, All, arith, Bool, true, false, none, some, if◌then◌else◌, pick,
  ◌||◌,
}
use sephi.Net.Types.{is_error, running, stopped, terminated}
use sephi.Net.Callbacks
use sephi.Net.Callbacks.{calls-commute}
use sephi.Net.SerialParams.{PortBase}
use sephi.Net.Serial
use sephi.Net.Serial.{
  Serial, Answers, Task, send, close_port, open_port, Input, writes, reopens, closes, stops,
  runs_posted, read_done, write_done, write, reopen, close, do_read, set_options, port_options,
  flush,
}
use sephi.Net.Serial.Opening.{all_taken}
use sephi.Net.Serial.Handlers.{Call, calls_write, calls_close, calls_reopen, call, step}

abbrev pub input_of : Call → Input
input_of (calls_write chunk) = writes chunk
input_of calls_close = closes
input_of calls_reopen = reopens

abbrev pub KeepsPort : Call → Type 0
KeepsPort calls_reopen = ⊥
KeepsPort _ = Unit

-- A handler may reopen when it is told of an error, but not where the port asks for the next read
-- when the handler returns.
abbrev pub IsOrderly : Input × List Call → Type 0
IsOrderly (runs_posted a, calls) =
    is_error a.port_error ≡ false
    → is_error (flush a.flush_result a.errno) ≡ false
    → All KeepsPort calls
IsOrderly (read_done k ec bytes, calls) = is_error ec ≡ false → All KeepsPort calls
IsOrderly _ = Unit

call-runner : (s : Serial) (x : Call) → (call s x).runner ≡ s.runner
unfolding call write close reopen
call-runner s (calls_write chunk) = ground arith
call-runner s calls_close = ground arith
call-runner s calls_reopen = ground arith

call-do_read : (s : Serial) (x : Call) → KeepsPort x → do_read (call s x) ≡ call (do_read s) x
unfolding call do_read write close
call-do_read s (calls_write chunk) keeps = ground arith
call-do_read s calls_close keeps = ground arith
call-do_read s calls_reopen keeps = absurd keeps

pub calls-do_read :
    (s : Serial) (calls : List Call)
    → All KeepsPort calls
    → do_read (foldl call s calls) ≡ foldl call (do_read s) calls
calls-do_read = calls-commute call do_read KeepsPort call-do_read

module _ (b : PortBase) where
  -- The lambda that opens the port calls the connection handler, unless an option is refused.
  opening_calls : Task → Answers → Serial → Bool
  unfolding all_taken
  opening_calls open_port a s =
      is_error a.port_error || all_taken a.option_errors (port_options b s.params)
  opening_calls _ a s = false

  calls_handler : Input → Serial → Bool
  unfolding opening_calls
  calls_handler (runs_posted a) s = elim s.posted [ [] ↦ false | t ∷ _ ↦ opening_calls t a s ]
  calls_handler (read_done k ec bytes) s = elim (pick k s.reading) [ none ↦ false | some _ ↦ true ]
  calls_handler (write_done k ec) s = elim (pick k s.writing) [
    | none ↦ false
    | some _ ↦ is_error ec
  ]
  calls_handler _ s = false

  -- The step, then the calls of the handler if it calls one.
  unfoldable pub sequential : Serial → Input × List Call → List Input
  unfolding calls_handler
  sequential s (i, calls) = elim s.runner [
    | running ↦ i ∷ (if calls_handler i s then map input_of calls else [])
    | stopped ↦ []
    | terminated ↦ []
  ]

  call-step : (s : Serial) (x : Call) → s.runner ≡ running → Serial.step b s (input_of x) ≡ call s x
  unfolding call Serial.step write close reopen
  call-step s (calls_write chunk) up = ground arith
  call-step s calls_close up = ground arith
  call-step s calls_reopen up = ground arith

  pub after_step :
      (s t : Serial) (i : Input) (calls : List Call)
      → Serial.step b s i ≡ t
      → t.runner ≡ running
      → foldl call t calls ≡ foldl (Serial.step b) s (i ∷ map input_of calls)
  after_step =
      Callbacks.after_step (Serial.step b) call input_of (λ s. s.runner ≡ running)
        (λ s x up. call-runner s x ∙ up) call-step

  unfoldable pub Agrees : Serial → Input × List Call → Type 0
  Agrees s j = step b s j ≡ foldl (Serial.step b) s (sequential s j)
