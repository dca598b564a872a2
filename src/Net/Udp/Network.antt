-- ===== src/Net/Udp/Network.antt =====
-- UDP endpoints, each as it is modelled alone, on a network.
--
-- The network is not the repository's. It may lose datagrams, bring them late, in another order or
-- more than once; what it brings to an endpoint is a datagram that some endpoint gave to
-- `async_send_to`, whole and with the sender's address, and for an address that the endpoint is
-- reached by. `Kernel` is what the documentation says of a socket.
pub mod Steps
pub mod Invariant
pub mod Arrival
pub mod Delivery
pub mod Draining
mod Examples
use sephi.Base.{
  All, ℕ, ◌≡◌, ◌≢◌, ◌^◌, ◌<◌, List, [], ◌∷◌, ◌++◌, Bool, Option, none, some, if◌then◌else◌, ◌==◌,
  length, get_elem?,
}
use sephi.Net.Types.{Chunk, ErrorCode, Endpoint}
use sephi.Net.Udp
use sephi.Net.Udp.{SocketOps, Udp, Input, writes_to, broadcasts, read_done}
use sephi.Net.Udp.Reading.{IsQueue, total}

-- A chunk that a datagram holds; an empty one is left out.
abbrev pub IsDatagram : {Ip : Type 0} → Endpoint Ip × Chunk → Type 0
IsDatagram (ep, bytes) = (0 < length bytes) × (length bytes < 2 ^ 16)

-- `available()` counts the first datagrams of a socket, one at least: one on Linux, all elsewhere.
pub record Kernel {Sock Ip Address : Type 0} (ops : SocketOps Sock Ip Address) : Type 0 where
  pub queue : Sock → List (Endpoint Ip × Chunk)
  pub put : Endpoint Ip → Chunk → Sock → Sock
  pub ahead : Sock → List (Endpoint Ip × Chunk)
  pub behind : Sock → List (Endpoint Ip × Chunk)
  pub takes : IsQueue ops queue
  pub queue-put :
      (ep : Endpoint Ip) (bytes : Chunk) (s : Sock)
      → queue (put ep bytes s) ≡ queue s ++ (ep, bytes) ∷ []
  pub queue_split : (s : Sock) → queue s ≡ ahead s ++ behind s
  pub available-ahead : (s : Sock) → ops.available s ≡ total (ahead s)
  pub total_small : (s : Sock) → All IsDatagram (queue s) → total (ahead s) < 2 ^ 64
  pub ahead_some : (s : Sock) → ahead s ≡ [] → queue s ≡ []

-- The endpoints by number, and what has been brought to each, in order.
pub record Network (Sock Ip Address : Type 0) : Type 0 where
  pub endpoint : ℕ → Udp Sock Ip Address
  pub arrived : ℕ → List (Endpoint Ip × Chunk)

-- An endpoint takes an input that is no read; the network brings to an endpoint what another has
-- sent, which is named by its place; or the wait for a datagram ends at an endpoint.
pub data Event (Sock Ip Address : Type 0) : Type 0 where
  takes_input : ℕ → Input Sock Ip Address → Event Sock Ip Address
  brings : ℕ → ℕ → ℕ → Event Sock Ip Address
  reads : ℕ → ErrorCode → Event Sock Ip Address

abbrev pub update : {A : Type 0} → (ℕ → A) → ℕ → A → ℕ → A
update f h x g = if h == g then x else f g

abbrev pub set_endpoint :
    {Sock Ip Address : Type 0}
    → ℕ
    → Udp Sock Ip Address
    → Network Sock Ip Address
    → Network Sock Ip Address
set_endpoint h u n = record n { endpoint = update n.endpoint h u }

abbrev pub connect :
    {Sock Ip Address : Type 0} → (ℕ → Udp Sock Ip Address) → Network Sock Ip Address
connect us = record { endpoint = us; arrived = λ _. [] }

module _ {Sock Ip Address : Type 0} (ops : SocketOps Sock Ip Address) where
  pub take_input : ℕ → Input Sock Ip Address → Network Sock Ip Address → Network Sock Ip Address
  take_input h (read_done ec sock) n = n
  take_input h i n = set_endpoint h (Udp.step ops (n.endpoint h) i) n

  module _ (kernel : Kernel ops) where
    -- Constructed endpoints, with empty sockets.
    abbrev pub AreConstructed : (ℕ → Udp Sock Ip Address) → Type 0
    AreConstructed us =
        (h : ℕ)
        → (s : Sock) × (nobody : Endpoint Ip) × (kernel.queue s ≡ [])
          × (Udp.construct ops 0 s nobody ≡ some (us h))

    abbrev pub put_datagram : Endpoint Ip → Chunk → Udp Sock Ip Address → Udp Sock Ip Address
    put_datagram ep bytes u = record u { socket = kernel.put ep bytes u.socket }

    module _ (address : ℕ → Endpoint Ip) (reaches : Endpoint Ip → ℕ → Bool) where
      pub bring :
          ℕ → ℕ → Option (Endpoint Ip × Chunk) → Network Sock Ip Address → Network Sock Ip Address
      bring h s none n = n
      bring h s (some (target, bytes)) n =
          if reaches target h
          then record n {
            endpoint = update n.endpoint h (put_datagram (address s) bytes (n.endpoint h));
            arrived = update n.arrived h (n.arrived h ++ (address s, bytes) ∷ []);
          }
          else n

      pub step : Network Sock Ip Address → Event Sock Ip Address → Network Sock Ip Address
      unfolding take_input bring
      step n (takes_input h i) = take_input h i n
      step n (brings h s k) = bring h s (get_elem? (n.endpoint s).sent k) n
      step n (reads h ec) =
          set_endpoint h (Udp.step ops (n.endpoint h) (read_done ec (n.endpoint h).socket)) n

-- No endpoint is asked to send a chunk that is empty or too long for a datagram.
abbrev pub HasPayload : {Sock Ip Address : Type 0} → Event Sock Ip Address → Type 0
HasPayload (takes_input h (writes_to remote chunk)) = (0 < length chunk) × (length chunk < 2 ^ 16)
HasPayload (takes_input h (broadcasts port chunk)) = (0 < length chunk) × (length chunk < 2 ^ 16)
HasPayload _ = Unit
