-- ===== src/Net/Udp/Handlers/Loop.antt =====
-- What handlers call commutes with the loop that calls them.
use mathlib.Core.List.{foldl-append}
use sephi.Base.{
  ◌≡◌, ◌∙◌, ap, sym, refl, ℕ, zero, suc, List, [], ◌++◌, foldl, length, tail, append_assoc,
  append-nil, ◌⊎◌, inl, inr,
}
use sephi.Net.Types.{ErrorCode, Chunk, Endpoint}
use sephi.Net.Udp
use sephi.Net.Udp.{
  Receipt, got, blocks, throws, SocketOps, LoopEnd, finished, blocked, threw, out_of_fuel, Udp,
  sub64, write_to, broadcast, close, deliver, after_loop, do_read, Input,
}
use sephi.Net.Udp.Handlers.Commuting.{calls-socket, calls-deliver}
use sephi.Net.Udp.Handlers.{Call, next, call, read_loop}

module _ {Sock Ip Address : Type 0} (ops : SocketOps Sock Ip Address) where
  open ops use {available, receive_from}

  -- What the handlers that the loop calls call.
  unfoldable pub loop_calls :
      ℕ → ℕ → List (List (Call Address)) → Udp Sock Ip Address → List (Call Address)
  unfolding deliver
  loop_calls zero left later u = []
  loop_calls (suc fuel) zero later u = []
  loop_calls (suc fuel) (suc left) later u = elim (receive_from u.socket (suc left)) [
    | got ep bytes sock ↦
        next later
        ++ loop_calls fuel (sub64 (suc left) (length bytes)) (tail later)
            (deliver ops ep bytes sock u)
    | blocks ↦ []
    | throws ec ↦ []
  ]

  unfoldable pub calls_after :
      Udp Sock Ip Address × LoopEnd → List (Call Address) → Udp Sock Ip Address × LoopEnd
  calls_after (u, end) calls = (foldl (call ops) u calls, end)

  Commutes : ℕ → Type 0
  Commutes fuel =
      (left : ℕ) (later : List (List (Call Address))) (u : Udp Sock Ip Address)
      (before : List (Call Address))
      → read_loop ops fuel left later (foldl (call ops) u before)
        ≡ calls_after (Udp.read_loop ops fuel left u) (before ++ loop_calls fuel left later u)

  module _ (fuel left : ℕ) (later : List (List (Call Address))) (u : Udp Sock Ip Address) where
    plain_got :
        (ep : Endpoint Ip) (bytes : Chunk) (sock : Sock)
        → receive_from u.socket (suc left) ≡ got ep bytes sock
        → (Udp.read_loop ops (suc fuel) (suc left) u
            ≡ Udp.read_loop ops fuel
                (sub64 (suc left) (length bytes))
                (deliver ops ep bytes sock u))
          × (loop_calls (suc fuel) (suc left) later u
              ≡ next later
                ++ loop_calls fuel
                    (sub64 (suc left) (length bytes))
                    (tail later)
                    (deliver ops ep bytes sock u))
    unfolding Udp.read_loop loop_calls
    plain_got ep bytes sock e = (rw (e, Udp.read_loop), rw (e, loop_calls))

    handlers_got :
        (ep : Endpoint Ip) (bytes : Chunk) (sock : Sock)
        → receive_from u.socket (suc left) ≡ got ep bytes sock
        → read_loop ops (suc fuel) (suc left) later u
          ≡ read_loop ops fuel
              (sub64 (suc left) (length bytes))
              (tail later)
              (foldl (call ops) (deliver ops ep bytes sock u) (next later))
    unfolding read_loop
    handlers_got ep bytes sock e = rw (e, read_loop)

    ends :
        (v : Udp Sock Ip Address)
        → v.socket ≡ u.socket
        → (receive_from u.socket (suc left) ≡ blocks)
          ⊎ ((ec : ErrorCode) × (receive_from u.socket (suc left) ≡ throws ec))
        → (end : LoopEnd) × (Udp.read_loop ops (suc fuel) (suc left) u ≡ (u, end))
          × (read_loop ops (suc fuel) (suc left) later v ≡ (v, end))
          × (loop_calls (suc fuel) (suc left) later u ≡ [])
    unfolding Udp.read_loop read_loop loop_calls
    ends v same (inl e) =
        let e' = ap (λ s. receive_from s (suc left)) same ∙ e in
        (blocked, rw (e, Udp.read_loop), rw (e', read_loop), rw (e, loop_calls))
    ends v same (inr (ec, e)) =
        let e' = ap (λ s. receive_from s (suc left)) same ∙ e in
        (threw, rw (e, Udp.read_loop), rw (e', read_loop), rw (e, loop_calls))

  ends-Commutes :
      (fuel left : ℕ) (later : List (List (Call Address))) (u : Udp Sock Ip Address)
      (before : List (Call Address))
      → (receive_from u.socket (suc left) ≡ blocks)
        ⊎ ((ec : ErrorCode) × (receive_from u.socket (suc left) ≡ throws ec))
      → read_loop ops (suc fuel) (suc left) later (foldl (call ops) u before)
        ≡ calls_after
            (Udp.read_loop ops (suc fuel) (suc left) u)
            (before ++ loop_calls (suc fuel) (suc left) later u)
  unfolding calls_after
  ends-Commutes fuel left later u before e =
      let (end, plain, handled, none_called) =
        ends fuel left later u (foldl (call ops) u before) (calls-socket ops u before) e in
      rw plain (
        rw none_called
          (handled ∙ ap (λ cs. (foldl (call ops) u cs, end)) (sym (append-nil before))))

  got-Commutes :
      (fuel left : ℕ)
      → Commutes fuel
      → (later : List (List (Call Address))) (u : Udp Sock Ip Address)
        (before : List (Call Address)) (ep : Endpoint Ip) (bytes : Chunk) (sock : Sock)
      → receive_from u.socket (suc left) ≡ got ep bytes sock
      → read_loop ops (suc fuel) (suc left) later (foldl (call ops) u before)
        ≡ calls_after
            (Udp.read_loop ops (suc fuel) (suc left) u)
            (before ++ loop_calls (suc fuel) (suc left) later u)
  unfolding Commutes
  got-Commutes fuel left rest later u before ep bytes sock e =
      let u' = deliver ops ep bytes sock u in
      let left' = sub64 (suc left) (length bytes) in
      let (plain, called) = plain_got fuel left later u ep bytes sock e in
      let here =
        handlers_got fuel left later (foldl (call ops) u before) ep bytes sock
          (ap (λ s. receive_from s (suc left)) (calls-socket ops u before) ∙ e) in
      let delivered =
        ap (λ v. foldl (call ops) v (next later)) (calls-deliver ops ep bytes sock u before)
        ∙ sym (foldl-append (call ops) u' before (next later)) in
      here
      ∙ (ap (read_loop ops fuel left' (tail later)) delivered
          ∙ (rest left' (tail later) u' (before ++ next later)
              ∙ rw plain (
                  rw called (
                    ap (calls_after (Udp.read_loop ops fuel left' u'))
                      (append_assoc before (next later) (loop_calls fuel left' (tail later) u'))))))

  read_loop-Commutes : (fuel : ℕ) → Commutes fuel
  unfolding calls_after read_loop Udp.read_loop loop_calls Commutes
  read_loop-Commutes zero left later u before =
      ap (λ cs. (foldl (call ops) u cs, out_of_fuel)) (sym (append-nil before))
  read_loop-Commutes (suc fuel) zero later u before =
      ap (λ cs. (foldl (call ops) u cs, finished)) (sym (append-nil before))
  read_loop-Commutes (suc fuel) (suc left) later u before =
      at_receipt (read_loop-Commutes fuel) (receive_from u.socket (suc left)) refl
    where
      at_receipt :
          Commutes fuel
          → (r : Receipt Sock Ip) → receive_from u.socket (suc left) ≡ r
          → read_loop ops (suc fuel) (suc left) later (foldl (call ops) u before)
            ≡ calls_after
                (Udp.read_loop ops (suc fuel) (suc left) u)
                (before ++ loop_calls (suc fuel) (suc left) later u)
      at_receipt rest (got ep bytes sock) e =
          got-Commutes fuel left rest later u before ep bytes sock e
      at_receipt rest blocks e = ends-Commutes fuel left later u before (inl e)
      at_receipt rest (throws ec) e = ends-Commutes fuel left later u before (inr (ec, e))

  -- The loop with handlers does what the loop without them does, and then what they call.
  pub read_loop_lem :
      (fuel left : ℕ) (later : List (List (Call Address))) (u : Udp Sock Ip Address)
      → read_loop ops fuel left later u
        ≡ calls_after (Udp.read_loop ops fuel left u) (loop_calls fuel left later u)
  unfolding Commutes
  read_loop_lem fuel left later u = read_loop-Commutes fuel left later u []
