-- ===== src/Net/Udp/Writing.antt =====
-- What the endpoint sends, and which errors it reports.
use sephi.Base.{
  ◌≡◌, ℕ, zero, suc, List, [], ◌∷◌, ◌++◌, foldl, foldl-log, outputs, refl, ◌∙◌, pick, length,
  Nat-cases, inl, inr, ◌+◌, arith, some, none, append-nil, if◌then◌else◌, ◌&&◌, not,
}
use sephi.Net.Types.{Chunk, ErrorCode, success, is_error, Remote, Endpoint, endpoint_of, running}
use sephi.Net.Udp.{
  got, blocks, throws, SocketOps, LoopEnd, Udp, Input, writes_to, broadcasts, read_done, write_done,
  sub64, to_remote, deliver, read_loop, after_loop, handle_read, finished, blocked, threw,
  out_of_fuel, construct, step,
}

module _ {Sock Ip Address : Type 0} (ops : SocketOps Sock Ip Address) where
  open ops use {available, make_address, broadcast_ip, receive_from}

  abbrev SendsAlike : Udp Sock Ip Address → Udp Sock Ip Address → Type 0
  SendsAlike u u' = (u'.sent ≡ u.sent) × (u'.error_calls ≡ u.error_calls)

  read_loop-SendsAlike :
      (fuel left : ℕ) (u : Udp Sock Ip Address) → SendsAlike u (read_loop ops fuel left u).0
  unfolding read_loop
  read_loop-SendsAlike zero left u = (refl, refl)
  read_loop-SendsAlike (suc fuel) zero u = (refl, refl)
  read_loop-SendsAlike (suc fuel) (suc left) u =
      elim (receive_from u.socket (suc left))
        as (λ r.
          SendsAlike u
            (elim r as (λ x. Udp Sock Ip Address × LoopEnd) [
              | got ep bytes sock ↦
                  read_loop ops fuel (sub64 (suc left) (length bytes)) (deliver ops ep bytes sock u)
              | blocks ↦ (u, LoopEnd.blocked)
              | throws ec ↦ (u, LoopEnd.threw)
            ]).0) [
              | got ep bytes sock ↦
                  read_loop-SendsAlike fuel (sub64 (suc left) (length bytes))
                    (deliver ops ep bytes sock u)
              | blocks ↦ (refl, refl)
              | throws ec ↦ (refl, refl)
            ]

  -- What the user asked to be sent: a chunk to a remote whose address is one, or to everybody.
  asked_by : Input Sock Ip Address → List (Endpoint Ip × Chunk)
  asked_by (writes_to remote chunk) = elim (endpoint_of make_address remote) [
    | none ↦ []
    | some ep ↦ (ep, chunk) ∷ []
  ]
  asked_by (broadcasts port chunk) = (record { ip = broadcast_ip; port = port }, chunk) ∷ []
  asked_by _ = []

  unfoldable pub asked : Udp Sock Ip Address → Input Sock Ip Address → List (Endpoint Ip × Chunk)
  unfolding asked_by
  asked u i = elim u.runner [ running ↦ asked_by i | _ ↦ [] ]

  -- The operations that fail: a read, for the sender of the last datagram, and a write, for the
  -- endpoint that it was for.
  failed_by : Input Sock Ip Address → Udp Sock Ip Address → List (Remote Address × ErrorCode)
  failed_by (read_done ec sock) u = elim u.reading [
    | zero ↦ []
    | suc _ ↦ if is_error ec && not u.is_blocked then (to_remote ops u.sender_ep, ec) ∷ [] else []
  ]
  failed_by (write_done i ec) u = elim (pick i u.sending) [
    | none ↦ []
    | some (ep, _) ↦ if is_error ec && not u.is_blocked then (to_remote ops ep, ec) ∷ [] else []
  ]
  failed_by _ u = []

  unfoldable pub failed :
      Udp Sock Ip Address → Input Sock Ip Address → List (Remote Address × ErrorCode)
  unfolding failed_by
  failed u i = elim u.runner [ running ↦ failed_by i u | _ ↦ [] ]

  after_loop-SendsAlike :
      (u : Udp Sock Ip Address) (r : Udp Sock Ip Address × LoopEnd)
      → SendsAlike u r.0
      → SendsAlike u (after_loop ops r)
  unfolding after_loop
  after_loop-SendsAlike u (v, finished) h = h
  after_loop-SendsAlike u (v, blocked) h = h
  after_loop-SendsAlike u (v, threw) h = h
  after_loop-SendsAlike u (v, out_of_fuel) h = h

  handle_read-SendsAlike :
      (ec : ErrorCode) (u : Udp Sock Ip Address)
      → let u' = handle_read ops ec u in
        (u'.sent ≡ u.sent)
        × (u'.error_calls ≡ (
            if is_error ec
            then u.error_calls ++ (to_remote ops u.sender_ep, ec) ∷ []
            else u.error_calls))
  unfolding handle_read
  handle_read-SendsAlike ec u =
      let fuel = available u.socket + 1 in
      ground (
        arith,
        after_loop-SendsAlike u (read_loop ops fuel (available u.socket) u)
            (read_loop-SendsAlike fuel (available u.socket) u),
      )

  pub step-sent :
      (u : Udp Sock Ip Address) (i : Input Sock Ip Address)
      → (step ops u i).sent ≡ u.sent ++ asked u i
  unfolding step asked
  step-sent u (read_done ec sock) = elim (Nat-cases u.reading) [
    | inl e ↦ ground (arith, append-nil u.sent)
    | inr (n, e) ↦ ground (
      arith,
      append-nil u.sent,
      handle_read-SendsAlike ec (record u { socket = sock; reading = n }),
    )
  ]
  step-sent u _ = ground (arith, append-nil u.sent)

  step-error_calls :
      (u : Udp Sock Ip Address) (i : Input Sock Ip Address)
      → (step ops u i).error_calls ≡ u.error_calls ++ failed u i
  unfolding step failed
  step-error_calls u (read_done ec sock) = elim (Nat-cases u.reading) [
    | inl e ↦ ground (arith, append-nil u.error_calls)
    | inr (n, e) ↦ ground (
      arith,
      append-nil u.error_calls,
      handle_read-SendsAlike ec (record u { socket = sock; reading = n }),
    )
  ]
  step-error_calls u _ = ground (arith, append-nil u.error_calls)

  module _ (sock : Sock) (nobody : Endpoint Ip) (u : Udp Sock Ip Address)
      (made : construct ops success sock nobody ≡ some u) (is : List (Input Sock Ip Address)) where
    -- In every run of a constructed endpoint, exactly the chunks for which `write_to` found an
    -- address, and those broadcast, have been given to `async_send_to`, in order, each for the
    -- endpoint of its remote or for the broadcast address.
    pub sent-asked : (foldl (step ops) u is).sent ≡ outputs (step ops) asked u is
    unfolding construct
    sent-asked = foldl-log (λ u. u.sent) (step ops) asked step-sent u is ∙ ground arith

    -- In every run of a constructed endpoint the error handler has been called exactly for the
    -- reads and writes that failed, in order: for a write with the remote that it was for, for a
    -- read with the sender of the last datagram before it.
    pub error_calls-failed : (foldl (step ops) u is).error_calls ≡ outputs (step ops) failed u is
    unfolding construct
    error_calls-failed =
        foldl-log (λ u. u.error_calls) (step ops) failed step-error_calls u is ∙ ground arith
