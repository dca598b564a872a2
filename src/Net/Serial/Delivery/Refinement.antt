-- ===== src/Net/Serial/Delivery/Refinement.antt =====
-- The serial port's sending is a channel.
use Prim.Native.String.{String}
use sephi.Base.{
  ◌≡◌, ℕ, zero, suc, List, [], ◌∷◌, ◌++◌, tail, foldl, outputs, arith, refl, if◌then◌else◌, some,
  none, pick, inl, append_assoc, append-nil,
}
use sephi.Net.Types.{Chunk, ErrorCode, is_error, running, stopped, terminated}
use sephi.Net.SendLoop.{OneWrite}
use sephi.Net.Channel.{
  Action, accepts, gives, act_all, accepted_by, ended_by, ended_by-finish, channel, new_channel,
  finish, channel_of, Refines, run_follows,
}
use sephi.Net.SerialParams.{SerialParams, PortBase}
use sephi.Net.Serial.{
  Serial, Task, send, close_port, open_port, Answers, Input, writes, reopens, closes, stops,
  runs_posted, write_done, construct, write, step,
}
use sephi.Net.Serial.Sending.{chunks, chunks-append, accepted, ended, handle_open-SendsAlike}
use sephi.Net.Serial.Delivery.{serial_loop}

abbrev posted_actions : List Task → List Chunk → List Action
posted_actions (send _ ∷ _) [] = gives ∷ []
posted_actions _ _ = []

ended_by-posted : (ts : List Task) (ms : List Chunk) → ended_by (posted_actions ts ms) ≡ []
ended_by-posted [] ms = refl
ended_by-posted (send _ ∷ _) [] = refl
ended_by-posted (send _ ∷ _) (_ ∷ _) = refl
ended_by-posted (close_port ∷ _) ms = refl
ended_by-posted (open_port ∷ _) ms = refl

runner_actions : Serial → Input → List Action
runner_actions s (writes chunk) = if (write chunk s).1 then accepts chunk ∷ [] else []
runner_actions s (runs_posted a) = posted_actions s.posted s.sending_messages
runner_actions s (write_done k ec) = elim (pick k s.writing) [
  | none ↦ []
  | some _ ↦ finish (tail s.sending_messages) (is_error ec)
]
runner_actions s _ = []

actions : Serial → Input → List Action
actions s i = elim s.runner [ running ↦ runner_actions s i | stopped ↦ [] | terminated ↦ [] ]

accepts-accepted : (s : Serial) (i : Input) → accepted_by (actions s i) ≡ accepted s i
unfolding actions runner_actions accepted write
accepts-accepted s (writes chunk) = ground arith
accepts-accepted s _ = ground arith

ends-ended : (s : Serial) (i : Input) → ended_by (actions s i) ≡ ended s i
unfolding actions runner_actions ended
ends-ended s (writes chunk) = ground arith
ends-ended s (runs_posted a) = ground (arith, ended_by-posted s.posted s.sending_messages)
ends-ended s (write_done k ec) =
    ground (arith, ended_by-finish (tail s.sending_messages) (is_error ec))
ends-ended s _ = ground arith

module _ (b : PortBase) where
  posted-follows :
      (s : Serial) (a : Answers) (ts : List Task)
      → s.posted ≡ ts
      → s.runner ≡ running
      → OneWrite s.writing s.sending_messages
      → act_all
          (posted_actions ts s.sending_messages)
          (channel s.written s.writing s.sending_messages (chunks ts))
        ≡ some (channel_of (serial_loop b) (step b s (runs_posted a)))
  unfolding serial_loop step
  posted-follows s a [] e up h = ground arith
  posted-follows s a (send chunk ∷ ts) e up h =
      ground (arith, append_assoc (tail s.sending_messages) (chunk ∷ []) (chunks ts))
  posted-follows s a (close_port ∷ ts) e up h = ground arith
  posted-follows s a (open_port ∷ ts) e up h =
      ground (arith, handle_open-SendsAlike b a.port_error a (record s { posted = ts }))

  done-follows :
      (s : Serial) (k : ℕ) (ec : ErrorCode) (ws ms : List Chunk)
      → s.writing ≡ ws
      → s.sending_messages ≡ ms
      → s.runner ≡ running
      → OneWrite ws ms
      → act_all
          (elim (pick k ws) [ none ↦ [] | some _ ↦ finish (tail ms) (is_error ec) ])
          (channel s.written ws ms (chunks s.posted))
        ≡ some (channel_of (serial_loop b) (step b s (write_done k ec)))
  unfolding serial_loop step
  done-follows s k ec [] ms e e' up h = ground arith
  done-follows s zero ec (w ∷ ws) [] e e' up h = ground arith
  done-follows s zero ec (w ∷ ws) (m ∷ []) e e' up h = ground arith
  done-follows s zero ec (w ∷ ws) (m ∷ n ∷ ms) e e' up h = ground arith
  done-follows s (suc k) ec (w ∷ []) ms e e' up h = ground arith
  done-follows s (suc k) ec (w ∷ w' ∷ ws) [] e e' up h = ground arith
  done-follows s (suc k) ec (w ∷ w' ∷ ws) (m ∷ ms) e e' up h = ground arith

  follows :
      (s : Serial) (i : Input)
      → OneWrite s.writing s.sending_messages
      → act_all (actions s i) (channel_of (serial_loop b) s)
        ≡ some (channel_of (serial_loop b) (step b s i))
  unfolding actions runner_actions serial_loop step write
  follows s (writes chunk) h = ground (
    arith,
    chunks-append s.posted (send chunk ∷ []),
    append_assoc (tail s.sending_messages) (chunks s.posted) (chunk ∷ []),
  )
  follows s (runs_posted a) h = ground (arith, posted-follows s a s.posted refl)
  follows s (write_done k ec) h =
      ground (arith, done-follows s k ec s.writing s.sending_messages refl refl)
  follows s closes h =
      ground (arith, chunks-append s.posted (close_port ∷ []), append-nil (chunks s.posted))
  follows s stops h =
      ground (arith, chunks-append s.posted (close_port ∷ []), append-nil (chunks s.posted))
  follows s reopens h = ground (
    arith,
    chunks-append s.posted (close_port ∷ []),
    chunks-append (s.posted ++ close_port ∷ []) (open_port ∷ []),
    append-nil (chunks s.posted),
  )
  follows s _ h = ground arith

  port_channel : Refines (serial_loop b)
  unfolding serial_loop step
  port_channel = record {
    actions = actions;
    follows = follows;
    ended = ended;
    accepts-accepted = accepts-accepted;
    ends-ended = ends-ended;
  }

  -- Every run of a serial port that was constructed, whatever happens to it, is a run of the channel:
  -- the channel accepts the chunks for which `write` returned true; its writes finish and fail as
  -- those of the port complete, in order, without and with an error; and it ends with what the port
  -- has given to `async_write`, with what it has still to give, and with a write under way, none, or
  -- dead by a failed write, as the port is.
  pub serial_refines_channel :
      (port_name : String) (params : SerialParams) (is : List Input)
      → let s = foldl (step b) (construct port_name params) is in
        (as' : List Action) × (act_all as' new_channel
          ≡ some (channel s.written s.writing s.sending_messages (chunks s.posted)))
        × (accepted_by as' ≡ outputs (step b) accepted (construct port_name params) is)
        × (ended_by as' ≡ outputs (step b) ended (construct port_name params) is)
  unfolding construct serial_loop port_channel
  serial_refines_channel port_name params is =
      let (f, a, e) =
        run_follows (serial_loop b) port_channel (construct port_name params) is (inl refl) in
      (outputs (step b) actions (construct port_name params) is, f, a, e)
