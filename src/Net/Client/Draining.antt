-- ===== src/Net/Client/Draining.antt =====
-- While no write fails, everything that was accepted gets written.
use mathlib.Core.List.{foldl-append}
use sephi.Base.{
  ◌≡◌, ℕ, zero, suc, ◌+◌, ◌≤◌, List, [], ◌∷◌, ◌++◌, tail, take, length, replicate, foldl, refl, sym,
  ◌∙◌, ap, append_assoc, append-nil, length-append, length-tail, eq-nil_of_length, arith, true,
  false, All, foldl_inv_if, inr, Option, some, outputs,
}
use sephi.Net.Types.{Chunk, Remote, is_error, success, running}
use sephi.Net.SendLoop.{flow, pick-OneWrite}
use sephi.Net.Client.{
  Client, Task, send, shut_down, Input, runs_posted, write_done, stops, construct,
  are_all_messages_sent, step,
}
use sephi.Net.Client.Sending.{chunks, accepted, written-accepted}

-- No write fails, no shutdown fails, and the object is not destroyed. Connections and reads may
-- fail.
abbrev pub WritesSucceed : Input → Type 0
WritesSucceed (write_done k ec) = is_error ec ≡ false
WritesSucceed (runs_posted ec) = is_error ec ≡ false
WritesSucceed stops = ⊥
WritesSucceed _ = Unit

module _ {Ip : Type 0} where
  -- A write is under way as long as the deque holds a chunk, and the runner thread runs.
  pub record IsActive (c : Client Ip) : Type 0 where
    pub up : c.runner ≡ running
    pub busy : c.writing ≡ take 1 c.sending_messages

  runs_posted-IsActive :
      (c : Client Ip) (ts : List Task)
      → c.posted ≡ ts
      → IsActive c
      → let c' = step c (runs_posted success) in
        IsActive c'
        × (c'.posted ≡ tail ts)
        × (flow c'.written c'.sending_messages (chunks c'.posted)
            ≡ flow c.written c.sending_messages (chunks ts))
        × (length c'.sending_messages ≤ length c.sending_messages + 1)
  unfolding step
  runs_posted-IsActive c [] e h = ground arith
  runs_posted-IsActive c (send chunk ∷ ts) e h = ground (
    arith,
    append_assoc c.written (chunk ∷ []) (chunks ts),
    append_assoc (tail c.sending_messages) (chunk ∷ []) (chunks ts),
    length-append c.sending_messages (chunk ∷ []),
  )
  runs_posted-IsActive c (shut_down ∷ ts) e h = ground arith

  write_done-IsActive :
      (c : Client Ip) (ms : List Chunk)
      → c.sending_messages ≡ ms
      → IsActive c
      → let c' = step c (write_done 0 success) in
        IsActive c'
        × (c'.posted ≡ c.posted)
        × (c'.sending_messages ≡ tail ms)
        × (flow c'.written c'.sending_messages [] ≡ flow c.written c.sending_messages [])
  unfolding step
  write_done-IsActive c [] e h = ground arith
  write_done-IsActive c (m ∷ []) e h = ground arith
  write_done-IsActive c (m ∷ n ∷ ms) e h =
      ground (arith, append_assoc c.written (n ∷ []) (ms ++ []))

  run_posted_all :
      (n : ℕ) (c : Client Ip)
      → IsActive c
      → length c.posted ≤ n
      → let c' = foldl step c (replicate n (runs_posted success)) in
        IsActive c'
        × (c'.posted ≡ [])
        × (flow c'.written c'.sending_messages []
            ≡ flow c.written c.sending_messages (chunks c.posted))
        × (length c'.sending_messages ≤ length c.sending_messages + n)
  run_posted_all zero c h le =
      let p = eq-nil_of_length c.posted le in
      (h, p, ap (λ ts. flow c.written c.sending_messages (chunks ts)) (sym p), omega arith)
  run_posted_all (suc n) c h le =
      let (h', e, same, more) = runs_posted-IsActive c c.posted refl h in
      let (h'', done, same', more') =
        run_posted_all n (step c (runs_posted success)) h'
          (omega (arith, ap length e, length-tail c.posted)) in
      (h'', done, same' ∙ same, omega arith)

  run_writes_all :
      (n : ℕ) (c : Client Ip)
      → IsActive c
      → length c.sending_messages ≤ n
      → let c' = foldl step c (replicate n (write_done 0 success)) in
        (c'.sending_messages ≡ [])
        × (c'.posted ≡ c.posted)
        × (c'.written ≡ flow c.written c.sending_messages [])
  run_writes_all zero c h le =
      let p = eq-nil_of_length c.sending_messages le in (p, refl, rw p (sym (append-nil c.written)))
  run_writes_all (suc n) c h le =
      let (h', p, e, same) = write_done-IsActive c c.sending_messages refl h in
      let (done, p', same') =
        run_writes_all n (step c (write_done 0 success)) h'
          (omega (arith, ap length e, length-tail c.sending_messages)) in
      (done, p' ∙ p, same' ∙ same)

  -- As many posted handlers as there are, then as many completed writes as there are chunks.
  abbrev pub drain : Client Ip → List Input
  drain c =
      replicate (length c.posted) (runs_posted success)
      ++ replicate (length c.sending_messages + length c.posted) (write_done 0 success)

  -- From any state in which no write has failed, the posted handlers and one completion for each
  -- chunk empty the deque, and then exactly what was accepted has been given to `async_write`.
  pub drain_sends_all :
      (c : Client Ip)
      → IsActive c
      → let c' = foldl step c (drain c) in
        (are_all_messages_sent c' ≡ true)
        × (c'.posted ≡ [])
        × (c'.written ≡ flow c.written c.sending_messages (chunks c.posted))
  drain_sends_all c h =
      let (h', p, same, more) = run_posted_all (length c.posted) c h (omega arith) in
      let (done, p', same') =
        run_writes_all (length c.sending_messages + length c.posted)
          (foldl step c (replicate (length c.posted) (runs_posted success))) h' more in
      rw foldl-append (rw (done) refl, p' ∙ p, same' ∙ same)

  step-IsActive : (c : Client Ip) (i : Input) → WritesSucceed i → IsActive c → IsActive (step c i)
  unfolding step
  step-IsActive c (write_done k ec) ok h =
      ground (arith, pick-OneWrite k c.writing c.sending_messages (inr h.busy))
  step-IsActive c stops ok h = absurd ok
  step-IsActive c (runs_posted ec) ok h = ground arith
  step-IsActive c _ ok h = ground arith

  run-IsActive :
      (c : Client Ip) (is : List Input)
      → All WritesSucceed is
      → IsActive c
      → IsActive (foldl step c is)
  run-IsActive = foldl_inv_if IsActive WritesSucceed step step-IsActive

  -- After any history of a constructed client in which no write fails, `drain` gets every chunk
  -- for which `write` returned true to `async_write`, in the order of the calls.
  pub accepted_writes_complete :
      {Address : Type 0} (make_address : Address → Option Ip) (r : Remote Address) (c : Client Ip)
      → construct make_address r ≡ some c
      → (is : List Input) → All WritesSucceed is
      → let c' = foldl step c is in
        ((foldl step c' (drain c')).written ≡ outputs step accepted c is)
        × (are_all_messages_sent (foldl step c' (drain c')) ≡ true)
  unfolding construct
  accepted_writes_complete make_address r c e is ok =
      let (done, _, all) = drain_sends_all _ (run-IsActive c is ok (ground arith)) in
      (all ∙ written-accepted make_address r c e is, done)
