-- ===== src/Net/Client/Sending.antt =====
-- How the client sends: order, one write at a time, and what a failed write leaves.
pub mod Refinement
use sephi.Base.{
  ◌≡◌, ◌≢◌, List, [], ◌∷◌, ◌++◌, tail, foldl, outputs, refl, ◌∙◌, ap, append_assoc, append-nil,
  if◌then◌else◌, arith, some, none, Bool, Option, pick, true, false,
}
use sephi.Net.Types.{Chunk, ErrorCode, Remote, is_error, running}
use sephi.Net.SendLoop.{
  OneWrite, Picks, flow, SendLoop, flow-append, pick-OneWrite, run-OneWrite, run-flow, run-stalled,
}
use sephi.Net.Client.{
  Client, Task, send, shut_down, Input, writes, closes, stops, runs_posted, write_done,
  are_all_messages_sent, construct, write, run_posted, complete_write, step,
}

-- The chunks in the lambdas that `write` has posted.
abbrev pub chunks : List Task → List Chunk
chunks [] = []
chunks (send chunk ∷ ts) = chunk ∷ chunks ts
chunks (shut_down ∷ ts) = chunks ts

pub chunks-append : (ts us : List Task) → chunks (ts ++ us) ≡ chunks ts ++ chunks us
chunks-append [] us = refl
chunks-append (send chunk ∷ ts) us = ap (◌∷◌ chunk) (chunks-append ts us)
chunks-append (shut_down ∷ ts) us = chunks-append ts us

module _ {Ip : Type 0} where
  -- The chunk of a call of `write` that returns true.
  unfoldable pub accepted : Client Ip → Input → List Chunk
  unfolding write
  accepted c (writes chunk) = elim c.runner [
    | running ↦ if (write chunk c).1 then chunk ∷ [] else []
    | _ ↦ []
  ]
  accepted c _ = []

  -- The end of a write that is under way: whether it is an error.
  unfoldable pub ended : Client Ip → Input → List Bool
  ended c (write_done k ec) = elim c.runner [
    | running ↦ elim (pick k c.writing) [ none ↦ [] | some _ ↦ is_error ec ∷ [] ]
    | _ ↦ []
  ]
  ended c _ = []

  abbrev Sound : Client Ip → Type 0
  Sound c = OneWrite c.writing c.sending_messages

  pub step-Sound : (c : Client Ip) (i : Input) → Sound c → Sound (step c i)
  unfolding step
  step-Sound c (writes chunk) h = ground arith
  step-Sound c (write_done k ec) h = ground (arith, pick-OneWrite k c.writing c.sending_messages)
  step-Sound c _ h = ground arith

  runs_posted-flow :
      (ec : ErrorCode) (c : Client Ip) (ts : List Task)
      → c.posted ≡ ts
      → Sound c
      → flow
          (run_posted ec c).written
          (run_posted ec c).sending_messages
          (chunks (run_posted ec c).posted)
        ≡ flow c.written c.sending_messages (chunks c.posted)
  unfolding run_posted
  runs_posted-flow ec c [] e h = ground arith
  runs_posted-flow ec c (send chunk ∷ ts) e h = ground (
    arith,
    append_assoc c.written (chunk ∷ []) (chunks ts),
    append_assoc (tail c.sending_messages) (chunk ∷ []) (chunks ts),
  )
  runs_posted-flow ec c (shut_down ∷ ts) e h = ground arith

  complete_write-flow :
      (r : Option (Chunk × List Chunk)) (ec : ErrorCode) (c : Client Ip) (ms w : List Chunk)
      → c.sending_messages ≡ ms
      → Picks r ms
      → flow (complete_write r ec c).written (complete_write r ec c).sending_messages w
        ≡ flow c.written c.sending_messages w
  unfolding complete_write
  complete_write-flow r ec c [] w e h = ground arith
  complete_write-flow r ec c (m ∷ []) w e h = ground arith
  complete_write-flow r ec c (m ∷ n ∷ ms) w e h =
      ground (arith, append_assoc c.written (n ∷ []) (ms ++ w))

  pub step-flow :
      (c : Client Ip) (i : Input)
      → Sound c
      → flow (step c i).written (step c i).sending_messages (chunks (step c i).posted)
        ≡ flow c.written c.sending_messages (chunks c.posted) ++ accepted c i
  unfolding step accepted
  step-flow c (writes chunk) h = ground (
    arith,
    chunks-append c.posted (send chunk ∷ []),
    flow-append c.written c.sending_messages (chunks c.posted) (chunk ∷ []),
    append-nil (flow c.written c.sending_messages (chunks c.posted)),
  )
  step-flow c closes h = ground (
    arith,
    chunks-append c.posted (shut_down ∷ []),
    append-nil (chunks c.posted),
    append-nil (flow c.written c.sending_messages (chunks c.posted)),
  )
  step-flow c stops h = ground (
    arith,
    chunks-append c.posted (shut_down ∷ []),
    append-nil (chunks c.posted),
    append-nil (flow c.written c.sending_messages (chunks c.posted)),
  )
  step-flow c (runs_posted ec) h = ground (
    arith,
    append-nil (flow c.written c.sending_messages (chunks c.posted)),
    runs_posted-flow ec c c.posted refl h,
  )
  step-flow c (write_done k ec) h = ground (
    arith,
    append-nil (flow c.written c.sending_messages (chunks c.posted)),
    complete_write-flow (pick k c.writing) ec c c.sending_messages (chunks c.posted) refl
        (pick-OneWrite k c.writing c.sending_messages h),
  )
  step-flow c _ h = ground (arith, append-nil (flow c.written c.sending_messages (chunks c.posted)))

  step-stalled :
      (c : Client Ip) (i : Input)
      → c.writing ≡ []
      → c.sending_messages ≢ []
      → ((step c i).written ≡ c.written)
        × ((step c i).writing ≡ [])
        × ((step c i).sending_messages ≢ [])
  unfolding step
  step-stalled c (writes chunk) w n = ground arith
  step-stalled c _ w n = ground arith

  pub client_loop : SendLoop (Client Ip) Input
  client_loop = record {
    step = step;
    sending = λ c. c.sending_messages;
    writing = λ c. c.writing;
    written = λ c. c.written;
    waiting = λ c. chunks c.posted;
    accepted = accepted;
    keeps = step-Sound;
    flows = step-flow;
    stalls = step-stalled;
  }

  -- Whatever happens to a client that was constructed, the chunks for which `write` returned true
  -- are, in the order of the calls, those given to `async_write`, then those that wait in the deque
  -- behind its front, then those still posted: none is lost, sent twice or overtaken.
  pub written-accepted :
      {Address : Type 0} (make_address : Address → Option Ip) (r : Remote Address) (c : Client Ip)
      → construct make_address r ≡ some c
      → (is : List Input)
      → let c' = foldl step c is in
        flow c'.written c'.sending_messages (chunks c'.posted) ≡ outputs step accepted c is
  unfolding construct client_loop
  written-accepted make_address r c e is =
      run-flow client_loop c is (ground (arith)) ∙ ground (arith)

  -- Whatever happens to a client that was constructed, at most one write is under way, and its
  -- buffer is the front of the deque, which is there as long as the write lasts.
  pub writing-front :
      {Address : Type 0} (make_address : Address → Option Ip) (r : Remote Address) (c : Client Ip)
      → construct make_address r ≡ some c
      → (is : List Input) → OneWrite (foldl step c is).writing (foldl step c is).sending_messages
  unfolding construct client_loop
  writing-front make_address r c e is = run-OneWrite client_loop c is (ground arith)

  -- When a write fails, nothing is written any more, whatever follows, a reconnection included, and
  -- `are_all_messages_sent` stays false: the failed chunk is left in the deque with no write under
  -- way, and every later chunk queues behind it.
  pub failed_write_stalls :
      (c : Client Ip) (m : Chunk) (ec : ErrorCode) (is : List Input)
      → c.runner ≡ running
      → c.writing ≡ m ∷ []
      → OneWrite c.writing c.sending_messages
      → is_error ec ≡ true
      → let c' = foldl step (step c (write_done 0 ec)) is in
        (c'.written ≡ c.written) × (are_all_messages_sent c' ≡ false)
  unfolding step client_loop
  failed_write_stalls c m ec is up busy one failed =
      let (same, full) =
        run-stalled client_loop (step c (write_done 0 ec)) is (ground arith) (ground arith) in
      (ground arith, ground arith)
