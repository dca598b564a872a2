-- ===== src/Net/Udp/Handlers/Calls.antt =====
-- A call of a handler is a step, and commutes with the end of a write.
use sephi.Base.{
  ◌≡◌, ◌∙◌, ap, refl, ℕ, zero, suc, List, [], ◌∷◌, ◌++◌, foldl, arith, none, some, Option-cases,
  inl, inr, pick, append-nil,
}
use sephi.Net.Types.{endpoint_of, ErrorCode, Endpoint, running}
use sephi.Net.Udp
use sephi.Net.Udp.{
  Receipt, got, blocks, throws, SocketOps, LoopEnd, finished, blocked, threw, out_of_fuel, Udp,
  Input, writes_to, broadcasts, closes, stops, runs_posted, read_done, write_done, by_runner, sub64,
  deliver, after_loop, do_read, to_remote, write_to, broadcast, close,
}
use sephi.Net.Udp.Handlers.{Call, calls_write_to, calls_broadcast, calls_close, call}
use sephi.Net.Udp.Handlers.Commuting.{call_frame}

module _ {Sock Ip Address : Type 0} where
  abbrev pub input_of : Call Address → Input Sock Ip Address
  input_of (calls_write_to remote chunk) = writes_to remote chunk
  input_of (calls_broadcast port chunk) = broadcasts port chunk
  input_of calls_close = closes

pick-append :
    {A : Type 0} (i : ℕ) (xs ys zs : List A) (x : A)
    → pick i xs ≡ some (x, ys)
    → pick i (xs ++ zs) ≡ some (x, ys ++ zs)
pick-append i [] ys zs x e = absurd (cc)
pick-append zero (y ∷ xs) ys zs x e = ground arith
pick-append (suc i) (y ∷ xs) ys zs x e = elim (Option-cases (pick i xs)) [
  | inl none_there ↦ absurd (ground arith)
  | inr ((w, ws), there) ↦ ground (arith, pick-append i xs ws zs w there)
]

module _ {Sock Ip Address : Type 0} (ops : SocketOps Sock Ip Address) where
  open ops use {available, receive_from}

  pub call-step :
      (u : Udp Sock Ip Address) (x : Call Address)
      → u.runner ≡ running
      → Udp.step ops u (input_of x) ≡ call ops u x
  unfolding call Udp.step
  call-step u (calls_write_to remote chunk) up = ground arith
  call-step u (calls_broadcast port chunk) up = ground arith
  call-step u calls_close up = ground arith

  -- The writes that a call starts.
  adds : Call Address → List (Endpoint Ip)
  adds (calls_write_to remote chunk) = elim (endpoint_of ops.make_address remote) [
    | none ↦ []
    | some ep ↦ ep ∷ []
  ]
  adds (calls_broadcast port chunk) = record { ip = ops.broadcast_ip; port = port } ∷ []
  adds calls_close = []

  call-sending :
      (u : Udp Sock Ip Address) (x : Call Address) → (call ops u x).sending ≡ u.sending ++ adds x
  unfolding call adds
  call-sending u (calls_write_to remote chunk) = ground (arith, append-nil u.sending)
  call-sending u (calls_broadcast port chunk) = ground arith
  call-sending u calls_close = ground (arith, append-nil u.sending)

  call-set_sending :
      (u : Udp Sock Ip Address) (x : Call Address) (others : List (Endpoint Ip))
      → record (call ops u x) { sending = others ++ adds x }
        ≡ call ops (record u { sending = others }) x
  unfolding call adds
  call-set_sending u (calls_write_to remote chunk) others = ground (arith, append-nil others)
  call-set_sending u (calls_broadcast port chunk) others = ground arith
  call-set_sending u calls_close others = ground (arith, append-nil others)

  handle_write-call :
      (u : Udp Sock Ip Address) (ep : Endpoint Ip) (ec : ErrorCode) (x : Call Address)
      → Udp.handle_write ops ep ec (call ops u x) ≡ call ops (Udp.handle_write ops ep ec u) x
  unfolding Udp.handle_write call
  handle_write-call u ep ec (calls_write_to remote chunk) = ground arith
  handle_write-call u ep ec (calls_broadcast port chunk) = ground arith
  handle_write-call u ep ec calls_close = ground arith

  -- The end of a write that is under way, before or after a call.
  write-call :
      (u : Udp Sock Ip Address) (i : ℕ) (ec : ErrorCode) (ep : Endpoint Ip)
      (others : List (Endpoint Ip)) (x : Call Address)
      → pick i u.sending ≡ some (ep, others)
      → (pick i (call ops u x).sending ≡ some (ep, others ++ adds x))
        × (Udp.step ops (call ops u x) (write_done i ec)
            ≡ call ops (Udp.step ops u (write_done i ec)) x)
  unfolding Udp.step
  write-call u i ec ep others x there =
      let there' =
        ap (pick i) (call-sending u x) ∙ pick-append i u.sending others (adds x) ep there in
      (
        there',
        ground (
          arith,
          call_frame ops u x,
          call-set_sending u x others,
          handle_write-call (record u { sending = others }) ep ec x,
        ),
      )

  pub writes-calls :
      (u : Udp Sock Ip Address) (i : ℕ) (ec : ErrorCode) (ep : Endpoint Ip)
      (others : List (Endpoint Ip)) (calls : List (Call Address))
      → pick i u.sending ≡ some (ep, others)
      → Udp.step ops (foldl (call ops) u calls) (write_done i ec)
        ≡ foldl (call ops) (Udp.step ops u (write_done i ec)) calls
  writes-calls u i ec ep others [] there = refl
  writes-calls u i ec ep others (x ∷ calls) there =
      let (there', one) = write-call u i ec ep others x there in
      writes-calls (call ops u x) i ec ep (others ++ adds x) calls there'
      ∙ ap (λ v. foldl (call ops) v calls) one
