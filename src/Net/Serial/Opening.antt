-- ===== src/Net/Serial/Opening.antt =====
-- How a port is opened, and what its users are told.
use Prim.Native.String.{String}
use mathlib.Core.List.{map}
use sephi.Base.{
  ◌≡◌, ◌⊎◌, inl, List, [], ◌∷◌, ◌++◌, foldl, foldl_inv, refl, sym, append_assoc, append-nil,
  if◌then◌else◌, arith, some, true, Bool, not, ◌&&◌, last?, last?-append,
}
use sephi.Net.Types.{
  ErrorCode, is_error, success, ConnectionState, connected, disconnected, terminated,
}
use sephi.Net.SerialParams.{SerialParams, PortBase, PortOption}
use sephi.Net.Serial.{
  Serial, Task, send, close_port, open_port, Answers, Input, writes, runs_posted, construct,
  is_opened, set_options, flush, port_options, handle_open, run_posted, step,
}

-- No option is refused.
unfoldable pub all_taken : (PortOption → ErrorCode) → List PortOption → Bool
all_taken errors [] = true
all_taken errors (o ∷ os) = not (is_error (errors o)) && all_taken errors os

-- Setting options changes the port's options and, where one is refused, the runner.
pub set_options_frame :
    (os : List PortOption) (errors : PortOption → ErrorCode) (s : Serial)
    → let r = (set_options os errors s).0 in r ≡ record s { options = r.options; runner = r.runner }
unfolding set_options
set_options_frame [] errors s = refl
set_options_frame (o ∷ os) errors s =
    ground
      (arith, set_options_frame os errors (record s { options = s.options ++ (s.port, o) ∷ [] }))

pub set_options-all_taken :
    (os : List PortOption) (errors : PortOption → ErrorCode) (s : Serial)
    → let (s', all_set) = set_options os errors s in
      (all_set ≡ all_taken errors os)
      × (s'.runner ≡ (if all_taken errors os then s.runner else terminated))
unfolding set_options all_taken
set_options-all_taken [] errors s = (refl, refl)
set_options-all_taken (o ∷ os) errors s =
    ground (
      arith,
      set_options-all_taken os errors (record s { options = s.options ++ (s.port, o) ∷ [] }),
    )

set_options-options :
    (os : List PortOption) (errors : PortOption → ErrorCode) (s : Serial)
    → all_taken errors os ≡ true
    → (set_options os errors s).0.options ≡ s.options ++ map (λ o. (s.port, o)) os
unfolding set_options all_taken
set_options-options [] errors s h = sym (append-nil s.options)
set_options-options (o ∷ os) errors s h = ground (
  arith,
  set_options-options os errors (record s { options = s.options ++ (s.port, o) ∷ [] }),
  append_assoc s.options ((s.port, o) ∷ []) (map (λ o. (s.port, o)) os),
)

module _ (b : PortBase) where
  -- Whether opening succeeds: the port opens, takes every option, and is flushed.
  abbrev pub opens : ErrorCode → Answers → SerialParams → Bool
  opens ec a p =
      not (is_error ec)
      && (all_taken a.option_errors (port_options b p)
          && not (is_error (flush a.flush_result a.errno)))

  -- What the connection handler is told, if it is called: the error of `open`, or that of the
  -- flush, or the success of both.
  abbrev pub told : ErrorCode → Answers → SerialParams → List (ConnectionState × ErrorCode)
  told ec a p =
      let flushed = flush a.flush_result a.errno in
      if is_error ec
      then (disconnected, ec) ∷ []
      else (if all_taken a.option_errors (port_options b p)
          then (if is_error flushed
              then (disconnected, flushed) ∷ []
              else (connected, flushed) ∷ [])
          else [])

  -- A port that opens is set to the five options of its parameters: baud rate, character size, stop
  -- bits, parity and flow control, in this order.
  pub handle_open-options :
      (ec : ErrorCode) (a : Answers) (s : Serial)
      → opens ec a s.params ≡ true
      → (handle_open b ec a s).options
        ≡ s.options ++ map (λ o. (s.port, o)) (port_options b s.params)
  unfolding handle_open
  handle_open-options ec a s h = ground (
    arith,
    set_options-all_taken (port_options b s.params) a.option_errors s,
    set_options-options (port_options b s.params) a.option_errors s,
  )

  -- Whoever is connected has been told so last, without an error.
  abbrev IsAnnounced : Serial → Type 0
  IsAnnounced s =
      (s.connection_state ≡ disconnected) ⊎ (last? s.connection_calls ≡ some (connected, success))

  runs_posted-IsAnnounced :
      (a : Answers) (s : Serial) (ts : List Task)
      → s.posted ≡ ts
      → IsAnnounced s
      → IsAnnounced (run_posted b a s)
  unfolding run_posted
  runs_posted-IsAnnounced a s [] e h = ground arith
  runs_posted-IsAnnounced a s (send m ∷ ts) e h = ground arith
  runs_posted-IsAnnounced a s (close_port ∷ ts) e h = ground arith
  runs_posted-IsAnnounced a s (open_port ∷ ts) e h = ground (
    arith,
    set_options_frame (port_options b s.params) a.option_errors (record s { posted = ts }),
    last?-append s.connection_calls (connected, success),
  )

  step-IsAnnounced : (s : Serial) (i : Input) → IsAnnounced s → IsAnnounced (step b s i)
  unfolding step
  step-IsAnnounced s (runs_posted a) h = ground (arith, runs_posted-IsAnnounced a s s.posted refl h)
  step-IsAnnounced s (writes m) h = ground arith
  step-IsAnnounced s _ h = ground arith

  -- A port that is open has told its connection handler so, with no error, in the last call that it
  -- made, whatever happened to it since its construction.
  pub opened-announced :
      (port_name : String) (params : SerialParams) (is : List Input)
      → is_opened (foldl (step b) (construct port_name params) is) ≡ true
      → last? (foldl (step b) (construct port_name params) is).connection_calls
        ≡ some (connected, success)
  unfolding construct
  opened-announced port_name params is h =
      let announced =
        foldl_inv IsAnnounced (step b) step-IsAnnounced (construct port_name params) is
          (inl refl) in
      ground arith
