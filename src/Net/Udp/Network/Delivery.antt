-- ===== src/Net/Udp/Network/Delivery.antt =====
-- What the message handlers are given is what the network brought, and that was sent.
use mathlib.Core.List.{map}
use sephi.Base.{
  ◌≡◌, ℕ, List, [], ◌++◌, foldl, foldl_inv_if, refl, sym, ◌∙◌, ap, subst, All, get_elem?, false,
  Bool, Bool-cases, inl, inr, Option, none, some, append-nil, arith,
}
use sephi.Net.Types.{Chunk, Endpoint, running}
use sephi.Net.Udp
use sephi.Net.Udp.{
  SocketOps, Udp, Input, writes_to, broadcasts, closes, stops, runs_posted, read_done, write_done,
}
use sephi.Net.Udp.Reading.{message}
use sephi.Net.Udp.Network.{
  IsDatagram, Kernel, Network, Event, takes_input, brings, reads, bring, step, AreConstructed,
  connect, HasPayload,
}
use sephi.Net.Udp.Network.Steps.{messages, IsReading, wait_lem}
use sephi.Net.Udp.Network.Invariant.{WasSentTo, IsSound, set_endpoint-IsSound, take_input-IsSound}
use sephi.Net.Udp.Network.Arrival.{brought-IsSound}

module _ {Sock Ip Address : Type 0} (ops : SocketOps Sock Ip Address) (kernel : Kernel ops)
    (address : ℕ → Endpoint Ip) (reaches : Endpoint Ip → ℕ → Bool) where
  open kernel use {queue, put, queue-put}

  bring-IsSound :
      (h s k : ℕ) (n : Network Sock Ip Address) (d : Option (Endpoint Ip × Chunk))
      → get_elem? (n.endpoint s).sent k ≡ d
      → IsSound ops kernel address reaches n
      → IsSound ops kernel address reaches (bring ops kernel address reaches h s d n)
  unfolding bring
  bring-IsSound h s k n none there v = v
  bring-IsSound h s k n (some (target, bytes)) there v = elim (Bool-cases (reaches target h)) [
    | inl hit ↦ rw hit (brought-IsSound ops kernel address reaches h s k target bytes n v there hit)
    | inr missed ↦ rw missed v
  ]

  step-IsSound :
      (n : Network Sock Ip Address) (e : Event Sock Ip Address)
      → HasPayload e
      → IsSound ops kernel address reaches n
      → IsSound ops kernel address reaches (step ops kernel address reaches n e)
  unfolding step
  step-IsSound n (takes_input h i) ok v = take_input-IsSound ops kernel address reaches h i n ok v
  step-IsSound n (brings h s k) ok v =
      bring-IsSound h s k n (get_elem? (n.endpoint s).sent k) refl v
  step-IsSound n (reads h ec) ok v =
      let u = n.endpoint h in
      let (r, same, sent) = wait_lem ops kernel u ec (v.reading h) in
      set_endpoint-IsSound ops kernel address reaches h (Udp.step ops u (read_done ec u.socket)) n
        [] v r same (sent ∙ sym (append-nil u.sent)) tt

  constructed_lem :
      (s : Sock) (nobody : Endpoint Ip) (u : Udp Sock Ip Address)
      → Udp.construct ops 0 s nobody ≡ some u
      → (u.socket ≡ s)
        × (u.message_calls ≡ [])
        × (u.sent ≡ [])
        × (u.is_blocked ≡ false)
        × (u.reading ≡ 1)
        × (u.runner ≡ running)
  unfolding Udp.construct
  constructed_lem s nobody u built = ground arith

  pub connect-IsSound :
      (us : ℕ → Udp Sock Ip Address)
      → AreConstructed ops kernel us
      → IsSound ops kernel address reaches (connect us)
  connect-IsSound us made = record {
    reading = λ h. (built h).0;
    handed = λ h. (built h).1;
    payload = λ h. subst (All IsDatagram) (sym (built h).2) tt;
    origin = λ h. tt;
  }
    where
      built :
          (h : ℕ)
          → IsReading ops kernel (us h) × (messages ops kernel (us h) ≡ []) × ((us h).sent ≡ [])
      built h =
          let (s, nobody, none_there, e) = made h in
          let (socket, calls, sent, free, one, up) = constructed_lem s nobody (us h) e in
          let empty : queue (us h).socket ≡ [] = ap queue socket ∙ none_there in
          (
            record { free = free; one = one; whole = subst (All IsDatagram) (sym empty) tt },
            ap (λ cs. cs ++ map (message ops) (queue (us h).socket)) calls
                ∙ ap (map (message ops)) empty,
            sent,
          )

  pub run-IsSound :
      (n : Network Sock Ip Address) (is : List (Event Sock Ip Address))
      → All HasPayload is
      → IsSound ops kernel address reaches n
      → IsSound ops kernel address reaches (foldl (step ops kernel address reaches) n is)
  run-IsSound =
      foldl_inv_if (IsSound ops kernel address reaches) HasPayload (step ops kernel address reaches)
        step-IsSound

  -- On a network of constructed endpoints which are asked to send only chunks that are not empty and
  -- fit into a datagram, whatever it loses, delays, reorders or repeats: what the message handler of an
  -- endpoint has been given, and then what is in its socket, are exactly the datagrams that were
  -- brought to it, whole, in that order, with their senders; and each of them is a chunk that the
  -- endpoint at the sender's address gave to `async_send_to` for an address that reaches the receiver.
  pub messages_were_sent :
      (us : ℕ → Udp Sock Ip Address) (is : List (Event Sock Ip Address)) (h : ℕ)
      → AreConstructed ops kernel us
      → All HasPayload is
      → let n = foldl (step ops kernel address reaches) (connect us) is in
        ((n.endpoint h).message_calls ++ map (message ops) (queue (n.endpoint h).socket)
          ≡ map (message ops) (n.arrived h))
        × All (WasSentTo ops kernel address reaches n h) (n.arrived h)
  messages_were_sent us is h made ok =
      let v = run-IsSound (connect us) is ok (connect-IsSound us made) in (v.handed h, v.origin h)
