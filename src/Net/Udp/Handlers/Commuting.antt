-- ===== src/Net/Udp/Handlers/Commuting.antt =====
-- A call of a handler commutes with all that a read does.
use sephi.Base.{
  Nat-cases, Bool-cases, true, false, ◌≡◌, ◌∙◌, ap, sym, refl, ℕ, zero, suc, ◌+◌, List, [], ◌∷◌,
  foldl, arith, length, All, inl, inr,
}
use sephi.Net.Types.{is_error, ErrorCode, Chunk, Endpoint}
use sephi.Net.Udp
use sephi.Net.Udp.{
  read_done, Receipt, got, blocks, throws, SocketOps, LoopEnd, finished, blocked, threw,
  out_of_fuel, Udp, sub64, write_to, broadcast, close, deliver, after_loop, do_read, Input,
}
use sephi.Net.Callbacks.{calls-commute}
use sephi.Net.Udp.Handlers.{Call, calls_write_to, calls_broadcast, calls_close, call}

pub All_units : {A : Type 0} (xs : List A) → All (λ x. Unit {0}) xs
All_units [] = tt
All_units (x ∷ xs) = (tt, All_units xs)

module _ {Sock Ip Address : Type 0} (ops : SocketOps Sock Ip Address) where
  open ops use {available, receive_from}

  pub call-socket : (u : Udp Sock Ip Address) (x : Call Address) → (call ops u x).socket ≡ u.socket
  unfolding call
  call-socket u (calls_write_to remote chunk) = ground arith
  call-socket u (calls_broadcast port chunk) = ground arith
  call-socket u calls_close = ground arith

  pub calls-socket :
      (u : Udp Sock Ip Address) (calls : List (Call Address))
      → (foldl (call ops) u calls).socket ≡ u.socket
  calls-socket u [] = refl
  calls-socket u (x ∷ calls) = calls-socket (call ops u x) calls ∙ call-socket u x

  pub call-deliver :
      (ep : Endpoint Ip) (bytes : Chunk) (sock : Sock) (u : Udp Sock Ip Address) (x : Call Address)
      → Unit {0}
      → deliver ops ep bytes sock (call ops u x) ≡ call ops (deliver ops ep bytes sock u) x
  unfolding call deliver
  call-deliver ep bytes sock u (calls_write_to remote chunk) _ = ground arith
  call-deliver ep bytes sock u (calls_broadcast port chunk) _ = ground arith
  call-deliver ep bytes sock u calls_close _ = ground arith

  pub calls-deliver :
      (ep : Endpoint Ip) (bytes : Chunk) (sock : Sock) (u : Udp Sock Ip Address)
      (calls : List (Call Address))
      → deliver ops ep bytes sock (foldl (call ops) u calls)
        ≡ foldl (call ops) (deliver ops ep bytes sock u) calls
  calls-deliver ep bytes sock u calls =
      calls-commute (call ops) (deliver ops ep bytes sock) (λ x. Unit {0})
        (call-deliver ep bytes sock) u calls (All_units calls)

  got_lem :
      (fuel left : ℕ) (u : Udp Sock Ip Address) (ep : Endpoint Ip) (bytes : Chunk) (sock : Sock)
      → receive_from u.socket (suc left) ≡ got ep bytes sock
      → Udp.read_loop ops (suc fuel) (suc left) u
        ≡ Udp.read_loop ops fuel (sub64 (suc left) (length bytes)) (deliver ops ep bytes sock u)
  unfolding Udp.read_loop
  got_lem fuel left u ep bytes sock e = rw (e, Udp.read_loop)

  abbrev pub then_calls :
      Udp Sock Ip Address × LoopEnd → Call Address → Udp Sock Ip Address × LoopEnd
  then_calls (u, end) x = (call ops u x, end)

  blocks_lem :
      (fuel left : ℕ) (u : Udp Sock Ip Address)
      → receive_from u.socket (suc left) ≡ blocks
      → Udp.read_loop ops (suc fuel) (suc left) u ≡ (u, blocked)
  unfolding Udp.read_loop
  blocks_lem fuel left u e = rw (e, Udp.read_loop)

  throws_lem :
      (fuel left : ℕ) (u : Udp Sock Ip Address) (ec : ErrorCode)
      → receive_from u.socket (suc left) ≡ throws ec
      → Udp.read_loop ops (suc fuel) (suc left) u ≡ (u, threw)
  unfolding Udp.read_loop
  throws_lem fuel left u ec e = rw (e, Udp.read_loop)

  loop-call :
      (fuel left : ℕ) (u : Udp Sock Ip Address) (x : Call Address)
      → Udp.read_loop ops fuel left (call ops u x) ≡ then_calls (Udp.read_loop ops fuel left u) x
  unfolding Udp.read_loop
  loop-call zero left u x = refl
  loop-call (suc fuel) zero u x = refl
  loop-call (suc fuel) (suc left) u x =
      at_receipt (λ k v. loop-call fuel k v x) (receive_from u.socket (suc left)) refl
    where
      at_receipt :
          ((k : ℕ) (v : Udp Sock Ip Address)
            → Udp.read_loop ops fuel k (call ops v x) ≡ then_calls (Udp.read_loop ops fuel k v) x)
          → (r : Receipt Sock Ip) → receive_from u.socket (suc left) ≡ r
          → Udp.read_loop ops (suc fuel) (suc left) (call ops u x)
            ≡ then_calls (Udp.read_loop ops (suc fuel) (suc left) u) x
      at_receipt rest (got ep bytes sock) e =
          let k = sub64 (suc left) (length bytes) in
          let e' = ap (λ s. receive_from s (suc left)) (call-socket u x) ∙ e in
          rw (got_lem fuel left u ep bytes sock e) (
            got_lem fuel left (call ops u x) ep bytes sock e'
            ∙ (ap (Udp.read_loop ops fuel k) (call-deliver ep bytes sock u x tt)
                ∙ rest k (deliver ops ep bytes sock u)))
      at_receipt rest blocks e =
          let e' = ap (λ s. receive_from s (suc left)) (call-socket u x) ∙ e in
          rw (blocks_lem fuel left u e) (blocks_lem fuel left (call ops u x) e')
      at_receipt rest (throws ec) e =
          let e' = ap (λ s. receive_from s (suc left)) (call-socket u x) ∙ e in
          rw (throws_lem fuel left u ec e) (throws_lem fuel left (call ops u x) ec e')

  pub after_loop-call :
      (r : Udp Sock Ip Address × LoopEnd) (x : Call Address)
      → after_loop ops (then_calls r x) ≡ call ops (after_loop ops r) x
  unfolding after_loop call
  after_loop-call (u, end) (calls_write_to remote chunk) = ground arith
  after_loop-call (u, end) (calls_broadcast port chunk) = ground arith
  after_loop-call (u, end) calls_close = ground arith

  failed-call :
      (u : Udp Sock Ip Address) (ec : ErrorCode) (x : Call Address)
      → is_error ec ≡ true
      → Udp.handle_read ops ec (call ops u x) ≡ call ops (Udp.handle_read ops ec u) x
  unfolding Udp.handle_read call
  failed-call u ec (calls_write_to remote chunk) failed = ground arith
  failed-call u ec (calls_broadcast port chunk) failed = ground arith
  failed-call u ec calls_close failed = ground arith

  fine_lem :
      (u : Udp Sock Ip Address) (ec : ErrorCode)
      → is_error ec ≡ false
      → Udp.handle_read ops ec u
        ≡ after_loop ops (Udp.read_loop ops (available u.socket + 1) (available u.socket) u)
  unfolding Udp.handle_read
  fine_lem u ec fine = rw fine refl

  handle_read-call :
      (u : Udp Sock Ip Address) (ec : ErrorCode) (x : Call Address)
      → Udp.handle_read ops ec (call ops u x) ≡ call ops (Udp.handle_read ops ec u) x
  handle_read-call u ec x = elim (Bool-cases (is_error ec)) [
    | inl failed ↦ failed-call u ec x failed
    | inr fine ↦
        let n = available u.socket in
        fine_lem (call ops u x) ec fine
        ∙ (ap
              (λ s.
                after_loop ops (Udp.read_loop ops (available s + 1) (available s) (call ops u x)))
              (call-socket u x)
            ∙ (ap (after_loop ops) (loop-call (n + 1) n u x)
                ∙ (after_loop-call (Udp.read_loop ops (n + 1) n u) x
                    ∙ ap (λ v. call ops v x) (sym (fine_lem u ec fine)))))
  ]

  begin-call :
      (u : Udp Sock Ip Address) (sock : Sock) (n : ℕ) (x : Call Address)
      → record (call ops u x) { socket = sock; reading = n }
        ≡ call ops (record u { socket = sock; reading = n }) x
  unfolding call
  begin-call u sock n (calls_write_to remote chunk) = ground arith
  begin-call u sock n (calls_broadcast port chunk) = ground arith
  begin-call u sock n calls_close = ground arith

  -- What decides whether the runner takes an input.
  pub call_frame :
      (u : Udp Sock Ip Address) (x : Call Address)
      → ((call ops u x).runner ≡ u.runner)
        × ((call ops u x).is_blocked ≡ u.is_blocked)
        × ((call ops u x).reading ≡ u.reading)
  unfolding call
  call_frame u (calls_write_to remote chunk) = ground arith
  call_frame u (calls_broadcast port chunk) = ground arith
  call_frame u calls_close = ground arith

  -- The end of a wait, before or after a call.
  pub read-call :
      (u : Udp Sock Ip Address) (ec : ErrorCode) (sock : Sock) (x : Call Address)
      → Unit {0}
      → Udp.step ops (call ops u x) (read_done ec sock)
        ≡ call ops (Udp.step ops u (read_done ec sock)) x
  unfolding Udp.step
  read-call u ec sock x _ = elim (Nat-cases u.reading) [
    | inl e ↦ ground (arith, call_frame u x)
    | inr (n, e) ↦ ground (
      arith,
      call_frame u x,
      begin-call u sock n x,
      handle_read-call (record u { socket = sock; reading = n }) ec x,
    )
  ]
