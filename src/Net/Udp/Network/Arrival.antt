-- ===== src/Net/Udp/Network/Arrival.antt =====
-- A datagram that the network brings.
use mathlib.Core.List.{map, map-append}
use sephi.Base.{
  ◌≡◌, ℕ, List, [], ◌∷◌, ◌++◌, refl, sym, ◌∙◌, ap, All, All-append, All-implied, All-get_elem?,
  get_elem?, true, Bool, Bool-cases, inl, inr, some, ◌==◌, append-nil,
}
use sephi.Net.Types.{Chunk, Endpoint}
use sephi.Net.Udp.{SocketOps, Udp}
use sephi.Net.Udp.Reading.{message}
use sephi.Net.Udp.Network.{IsDatagram, Kernel, Network, update, put_datagram}
use sephi.Net.Udp.Network.Steps.{messages, IsReading}
use sephi.Net.Udp.Network.Invariant.{
  update_lem, WasSentTo, IsSound, Grows, WasSentTo-Grows, put_lem,
}

module _ {Sock Ip Address : Type 0} (ops : SocketOps Sock Ip Address) (kernel : Kernel ops)
    (address : ℕ → Endpoint Ip) (reaches : Endpoint Ip → ℕ → Bool) where
  open kernel use {queue, put, queue-put}

  module _ (h s k : ℕ) (target : Endpoint Ip) (bytes : Chunk) (n : Network Sock Ip Address)
      (v : IsSound ops kernel address reaches n)
      (there : get_elem? (n.endpoint s).sent k ≡ some (target, bytes))
      (hit : reaches target h ≡ true) where
    fits : IsDatagram (target, bytes)
    fits = All-get_elem? IsDatagram (n.endpoint s).sent k (target, bytes) (v.payload s) there

    abbrev pub receiver : Udp Sock Ip Address
    receiver = put_datagram ops kernel (address s) bytes (n.endpoint h)

    abbrev pub brought : Network Sock Ip Address
    brought = record n {
      endpoint = update n.endpoint h receiver;
      arrived = update n.arrived h (n.arrived h ++ (address s, bytes) ∷ []);
    }

    brought-Grows : Grows ops kernel address reaches n brought
    unfolding Grows
    brought-Grows =
        update_lem
          (λ g x. (more : List (Endpoint Ip × Chunk)) × (x.sent ≡ (n.endpoint g).sent ++ more))
          n.endpoint h receiver (λ g. ([], sym (append-nil (n.endpoint g).sent)))
          ([], sym (append-nil (n.endpoint h).sent))

    receiver_handed :
        messages ops kernel receiver ≡ map (message ops) (n.arrived h ++ (address s, bytes) ∷ [])
    receiver_handed =
        (put_lem ops kernel address reaches (address s) bytes (n.endpoint h) fits (v.reading h)).1
        ∙ (ap (λ ms. ms ++ message ops (address s, bytes) ∷ []) (v.handed h)
            ∙ sym (map-append (message ops) (n.arrived h) ((address s, bytes) ∷ [])))

    brought_origin :
        All
          (WasSentTo ops kernel address reaches brought h)
          (n.arrived h ++ (address s, bytes) ∷ [])
    brought_origin =
        All-append (WasSentTo ops kernel address reaches brought h) (n.arrived h)
          ((address s, bytes) ∷ [])
          (All-implied (WasSentTo ops kernel address reaches n h)
            (WasSentTo ops kernel address reaches brought h)
            (WasSentTo-Grows ops kernel address reaches n brought brought-Grows h) (n.arrived h)
            (v.origin h))
          (
            WasSentTo-Grows ops kernel address reaches n brought brought-Grows h (address s, bytes)
                (s, k, target, refl, there, hit),
            tt,
          )

    pub brought-IsSound : IsSound ops kernel address reaches brought
    brought-IsSound = record {
      reading =
          update_lem (λ g x. IsReading ops kernel x) n.endpoint h receiver v.reading
            (put_lem ops kernel address reaches (address s) bytes (n.endpoint h) fits
              (v.reading h)).0;
      payload =
          update_lem (λ g x. All IsDatagram x.sent) n.endpoint h receiver v.payload (v.payload h);
      handed = λ g. elim (Bool-cases (h == g)) [
        | inl e ↦ rw e receiver_handed
        | inr ne ↦ rw ne (v.handed g)
      ];
      origin = λ g.
          update_lem (λ g ds. All (WasSentTo ops kernel address reaches brought g) ds) n.arrived h
            (n.arrived h ++ (address s, bytes) ∷ [])
            (λ g.
              All-implied (WasSentTo ops kernel address reaches n g)
                (WasSentTo ops kernel address reaches brought g)
                (WasSentTo-Grows ops kernel address reaches n brought brought-Grows g) (n.arrived g)
                (v.origin g))
            brought_origin g;
    }
