-- ===== src/Net/Udp/Network/Examples.antt =====
-- Three UDP endpoints on a network, and the theorems at a concrete run of them.
use mathlib.Core.List.{map}
use sephi.Base.{
  ◌<◌, ◌^◌, ◌≡◌, ℕ, ◌++◌, List, [], ◌∷◌, foldl, refl, ◌==◌, arith, some, false, ◌&&◌, Bool, length,
  take, replicate, All, ◌||◌,
}
use sephi.Net.Types.{Chunk, Endpoint, success, Remote, running}
use sephi.Net.Udp
use sephi.Net.Udp.{got, blocks, SocketOps, Udp, Input, writes_to, broadcasts, construct}
use sephi.Net.Udp.Reading.{message, IsQueue}
use sephi.Net.Udp.Network.{
  IsDatagram, Kernel, Network, Event, takes_input, brings, reads, step, AreConstructed, connect,
  HasPayload,
}
use sephi.Net.Udp.Network.Invariant.{WasSentTo}
use sephi.Net.Udp.Network.Delivery.{messages_were_sent}
use sephi.Net.Udp.Network.Draining.{arrived_are_delivered, answers_reach_sender}

abbrev Queue : Type 0
Queue = List (Endpoint ℕ × Chunk)

abbrev linux_ops : SocketOps Queue ℕ ℕ
linux_ops = record {
  available = λ q. elim q [ [] ↦ 0 | (ep, bytes) ∷ _ ↦ length bytes ];
  receive_from = λ q n. elim q [ [] ↦ blocks | (ep, bytes) ∷ rest ↦ got ep (take n bytes) rest ];
  make_address = λ a. some a;
  to_string = λ ip. ip;
  broadcast_ip = 255;
}

abbrev first : Queue → Queue
first [] = []
first (d ∷ q) = d ∷ []

abbrev others : Queue → Queue
others [] = []
others (d ∷ q) = q

split : (q : Queue) → q ≡ first q ++ others q
split [] = refl
split (d ∷ q) = refl

available_first : (q : Queue) → linux_ops.available q ≡ Udp.Reading.total (first q)
available_first [] = refl
available_first ((ep, bytes) ∷ q) = omega arith

first_small : (q : Queue) → All IsDatagram q → Udp.Reading.total (first q) < 2 ^ 64
first_small [] h = omega arith
first_small ((ep, bytes) ∷ q) (d, h) = omega (arith, d.1)

first_some : (q : Queue) → first q ≡ [] → q ≡ []
first_some [] e = refl
first_some (d ∷ q) e = absurd (cc)

linux_ops-IsQueue : IsQueue linux_ops (λ q. q)
linux_ops-IsQueue q n ep bytes rest e = (rest, rw e refl, refl)

abbrev linux : Kernel linux_ops
linux = record {
  queue = λ q. q;
  put = λ ep bytes q. q ++ (ep, bytes) ∷ [];
  ahead = first;
  behind = others;
  takes = linux_ops-IsQueue;
  queue-put = λ ep bytes q. refl;
  queue_split = split;
  available-ahead = available_first;
  total_small = first_small;
  ahead_some = first_some;
}

-- Endpoint `h` is bound to port 9 of a host of its own.
abbrev address : ℕ → Endpoint ℕ
address h = record { ip = h; port = 9 }

abbrev reaches : Endpoint ℕ → ℕ → Bool
reaches ep h = (ep.ip == h || ep.ip == 255) && ep.port == 9

abbrev idle : Udp Queue ℕ ℕ
idle = record {
  socket = [];
  sender_ep = record { ip = 0; port = 0 };
  runner = running;
  is_blocked = false;
  reading = 1;
  sending = [];
  sent = [];
  shutdowns = 0;
  error_calls = [];
  message_calls = [];
}

made : AreConstructed linux_ops linux (λ _. idle)
unfolding construct
made h = ([], idle.sender_ep, refl, refl)

abbrev hello : Chunk
hello = 1 ∷ (2 ∷ [])

abbrev to_two : Remote ℕ
to_two = record { address = 2; port = 9 }

-- Endpoint 1 writes to endpoint 2 and broadcasts; the network brings the broadcast to 2 and to 3, and
-- then the other datagram to 2, twice; 2 reads once.
abbrev talk : List (Event Queue ℕ ℕ)
talk =
    takes_input 1 (writes_to to_two hello)
    ∷ (takes_input 1 (broadcasts 9 (3 ∷ []))
        ∷ (brings 2 1 1
            ∷ (brings 3 1 1 ∷ (brings 2 1 0 ∷ (brings 2 1 0 ∷ (reads 2 success ∷ []))))))

talk-HasPayload : All HasPayload talk
talk-HasPayload = (omega arith, (omega arith, (tt, (tt, (tt, (tt, (tt, tt)))))))

abbrev after : Network Queue ℕ ℕ
after = foldl (step linux_ops linux address reaches) (connect (λ _. idle)) talk

two_has_read :
    ((after.endpoint 2).message_calls ≡ (record { address = 1; port = 9 }, 3 ∷ []) ∷ [])
    × ((after.endpoint 2).socket ≡ (address 1, hello) ∷ ((address 1, hello) ∷ []))
unfolding step Udp.step
two_has_read = (refl, refl)

messages_were_sent_example :
    ((after.endpoint 2).message_calls ++ map (message linux_ops) (after.endpoint 2).socket
      ≡ map (message linux_ops) (after.arrived 2))
    × All (WasSentTo linux_ops linux address reaches after 2) (after.arrived 2)
messages_were_sent_example =
    messages_were_sent linux_ops linux address reaches (λ _. idle) talk 2 made talk-HasPayload

arrived_are_delivered_example :
    let waits = replicate (length (after.endpoint 2).socket) (reads 2 success) in
    ((foldl (step linux_ops linux address reaches) after waits).endpoint 2).message_calls
    ≡ map (message linux_ops) (after.arrived 2)
unfolding step Udp.step
arrived_are_delivered_example =
    arrived_are_delivered linux_ops linux address reaches (λ _. idle) talk 2 made talk-HasPayload
      refl

answers_reach_sender_example :
    let n' =
      step linux_ops linux address reaches after
        (takes_input 2 (writes_to (message linux_ops (address 1, hello)).0 (7 ∷ []))) in
    let n'' =
      step linux_ops linux address reaches n' (brings 1 2 (length (after.endpoint 2).sent)) in
    ((n'.endpoint 2).sent ≡ (after.endpoint 2).sent ++ (address 1, 7 ∷ []) ∷ [])
    × (n''.arrived 1 ≡ after.arrived 1 ++ (address 2, 7 ∷ []) ∷ [])
unfolding step Udp.step
answers_reach_sender_example =
    answers_reach_sender linux_ops linux address reaches after 2 1 hello (7 ∷ []) refl refl refl
