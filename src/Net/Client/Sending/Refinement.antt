-- ===== src/Net/Client/Sending/Refinement.antt =====
-- The client's sending is a channel.
use sephi.Base.{
  ◌≡◌, ◌∙◌, ap, ℕ, zero, suc, List, [], ◌∷◌, ◌++◌, tail, foldl, outputs, arith, refl, if◌then◌else◌,
  Option, some, none, pick, append_assoc, append-nil,
}
use sephi.Net.Types.{Chunk, ErrorCode, Remote, is_error, running, stopped, terminated}
use sephi.Net.SendLoop.{OneWrite}
use sephi.Net.Channel.{
  Action, accepts, gives, act_all, accepted_by, ended_by, ended_by-finish, channel, new_channel,
  finish, channel_of, act_all-given, Refines, run_follows,
}
use sephi.Net.Client.{
  Client, Task, send, shut_down, Input, writes, closes, stops, runs_posted, write_done, construct,
  write, step,
}
use sephi.Net.Client.Sending.{chunks, chunks-append, accepted, ended, client_loop}

abbrev posted_actions : List Task → List Chunk → List Action
posted_actions (send _ ∷ _) [] = gives ∷ []
posted_actions _ _ = []

ended_by-posted : (ts : List Task) (ms : List Chunk) → ended_by (posted_actions ts ms) ≡ []
ended_by-posted [] ms = refl
ended_by-posted (send _ ∷ _) [] = refl
ended_by-posted (send _ ∷ _) (_ ∷ _) = refl
ended_by-posted (shut_down ∷ _) ms = refl

module _ {Ip : Type 0} where
  runner_actions : Client Ip → Input → List Action
  runner_actions c (writes chunk) = if (write chunk c).1 then accepts chunk ∷ [] else []
  runner_actions c (runs_posted ec) = posted_actions c.posted c.sending_messages
  runner_actions c (write_done k ec) = elim (pick k c.writing) [
    | none ↦ []
    | some _ ↦ finish (tail c.sending_messages) (is_error ec)
  ]
  runner_actions c _ = []

  actions : Client Ip → Input → List Action
  actions c i = elim c.runner [ running ↦ runner_actions c i | stopped ↦ [] | terminated ↦ [] ]

  accepts-accepted : (c : Client Ip) (i : Input) → accepted_by (actions c i) ≡ accepted c i
  unfolding actions runner_actions accepted write
  accepts-accepted c (writes chunk) = ground arith
  accepts-accepted c _ = ground arith

  ends-ended : (c : Client Ip) (i : Input) → ended_by (actions c i) ≡ ended c i
  unfolding actions runner_actions ended
  ends-ended c (writes chunk) = ground arith
  ends-ended c (runs_posted ec) = ground (arith, ended_by-posted c.posted c.sending_messages)
  ends-ended c (write_done k ec) =
      ground (arith, ended_by-finish (tail c.sending_messages) (is_error ec))
  ends-ended c _ = ground arith

  posted-follows :
      (c : Client Ip) (ec : ErrorCode) (ts : List Task)
      → c.posted ≡ ts
      → c.runner ≡ running
      → OneWrite c.writing c.sending_messages
      → act_all
          (posted_actions ts c.sending_messages)
          (channel c.written c.writing c.sending_messages (chunks ts))
        ≡ some (channel_of client_loop (step c (runs_posted ec)))
  unfolding client_loop step
  posted-follows c ec [] e up h = ground arith
  posted-follows c ec (send chunk ∷ ts) e up h =
      ground (arith, append_assoc (tail c.sending_messages) (chunk ∷ []) (chunks ts))
  posted-follows c ec (shut_down ∷ ts) e up h = ground arith

  done-follows :
      (c : Client Ip) (k : ℕ) (ec : ErrorCode) (ws ms : List Chunk)
      → c.writing ≡ ws
      → c.sending_messages ≡ ms
      → c.runner ≡ running
      → OneWrite ws ms
      → act_all
          (elim (pick k ws) [ none ↦ [] | some _ ↦ finish (tail ms) (is_error ec) ])
          (channel c.written ws ms (chunks c.posted))
        ≡ some (channel_of client_loop (step c (write_done k ec)))
  unfolding client_loop step
  done-follows c k ec [] ms e e' up h = ground arith
  done-follows c zero ec (w ∷ ws) [] e e' up h = ground arith
  done-follows c zero ec (w ∷ ws) (m ∷ []) e e' up h = ground arith
  done-follows c zero ec (w ∷ ws) (m ∷ n ∷ ms) e e' up h = ground arith
  done-follows c (suc k) ec (w ∷ []) ms e e' up h = ground arith
  done-follows c (suc k) ec (w ∷ w' ∷ ws) [] e e' up h = ground arith
  done-follows c (suc k) ec (w ∷ w' ∷ ws) (m ∷ ms) e e' up h = ground arith

  follows :
      (c : Client Ip) (i : Input)
      → OneWrite c.writing c.sending_messages
      → act_all (actions c i) (channel_of client_loop c) ≡ some (channel_of client_loop (step c i))
  unfolding actions runner_actions client_loop step write
  follows c (writes chunk) h = ground (
    arith,
    chunks-append c.posted (send chunk ∷ []),
    append_assoc (tail c.sending_messages) (chunks c.posted) (chunk ∷ []),
  )
  follows c (runs_posted ec) h = ground (arith, posted-follows c ec c.posted refl)
  follows c (write_done k ec) h =
      ground (arith, done-follows c k ec c.writing c.sending_messages refl refl)
  follows c closes h =
      ground (arith, chunks-append c.posted (shut_down ∷ []), append-nil (chunks c.posted))
  follows c stops h =
      ground (arith, chunks-append c.posted (shut_down ∷ []), append-nil (chunks c.posted))
  follows c _ h = ground arith

  -- A step only adds to what has been given to `async_write`.
  pub step-written :
      (c : Client Ip) (i : Input)
      → OneWrite c.writing c.sending_messages
      → (more : List Chunk) × ((step c i).written ≡ c.written ++ more)
  unfolding client_loop
  step-written c i h =
      act_all-given (actions c i) (channel_of client_loop c) (channel_of client_loop (step c i))
        (follows c i h)

  client_channel : Refines (client_loop {Ip = Ip})
  unfolding client_loop step
  client_channel = record {
    actions = actions;
    follows = follows;
    ended = ended;
    accepts-accepted = accepts-accepted;
    ends-ended = ends-ended;
  }

  -- Every run of a client that was constructed, whatever happens to it, is a run of the channel: the
  -- channel accepts the chunks for which `write` returned true; its writes finish and fail as those of
  -- the client complete, in order, without and with an error; and it ends with what the client has
  -- given to `async_write`, with what it has still to give, and with a write under way, none, or dead
  -- by a failed write, as the client is.
  pub client_refines_channel :
      {Address : Type 0} (make_address : Address → Option Ip) (r : Remote Address) (c : Client Ip)
      → construct make_address r ≡ some c
      → (is : List Input)
      → let c' = foldl step c is in
        (as' : List Action) × (act_all as' new_channel
          ≡ some (channel c'.written c'.writing c'.sending_messages (chunks c'.posted)))
        × (accepted_by as' ≡ outputs step accepted c is)
        × (ended_by as' ≡ outputs step ended c is)
  unfolding construct client_loop client_channel
  client_refines_channel make_address r c e is =
      let (f, a, b) = run_follows client_loop client_channel c is (ground arith) in
      let start : new_channel ≡ channel_of client_loop c = ground arith in
      (outputs step actions c is, ap (act_all (outputs step actions c is)) start ∙ f, a, b)
