-- ===== src/Net/Udp/Examples.antt =====
-- Runs of the UDP endpoint: tests, and the theorems at concrete inputs.
use sephi.Base.{
  ◌≡◌, ℕ, List, [], ◌∷◌, foldl, refl, if◌then◌else◌, ◌==◌, arith, some, none, false, length, take,
  replicate,
}
use sephi.Net.Types.{Chunk, success, Endpoint, running}
use sephi.Net.Udp.{
  got, blocks, SocketOps, Udp, Input, writes_to, broadcasts, read_done, write_done, construct,
  handle_read, step,
}
use sephi.Net.Udp.Reading.{IsQueue, message, handle_read_delivers, empty_datagram_blocks_messages}

-- A socket that holds its datagrams in a list, and whose `available()` is the size of the first, as
-- on Linux. Texts of addresses stand as numbers; 0 is the one that is no address.
abbrev Queue : Type 0
Queue = List (Endpoint ℕ × Chunk)

abbrev linux_socket : SocketOps Queue ℕ ℕ
linux_socket = record {
  available = λ q. elim q [ [] ↦ 0 | (ep, bytes) ∷ _ ↦ length bytes ];
  receive_from = λ q n. elim q [ [] ↦ blocks | (ep, bytes) ∷ rest ↦ got ep (take n bytes) rest ];
  make_address = λ a. if a == 0 then none else some a;
  to_string = λ ip. ip;
  broadcast_ip = 255;
}

linux_socket-IsQueue : IsQueue linux_socket (λ q. q)
linux_socket-IsQueue q n ep bytes rest e = (rest, rw e refl, refl)

abbrev peer : Endpoint ℕ
peer = record { ip = 10; port = 7 }

abbrev nobody : Endpoint ℕ
nobody = record { ip = 0; port = 0 }

abbrev hello : Chunk
hello = 1 ∷ 2 ∷ 3 ∷ []

abbrev idle : Udp Queue ℕ ℕ
idle = record {
  socket = [];
  sender_ep = nobody;
  runner = running;
  is_blocked = false;
  reading = 1;
  sending = [];
  sent = [];
  shutdowns = 0;
  error_calls = [];
  message_calls = [];
}

made : construct linux_socket success [] nobody ≡ some idle
unfolding construct
made = refl

-- Two datagrams have come.
abbrev two_there : Udp Queue ℕ ℕ
two_there = record idle { socket = (peer, hello) ∷ (peer, 9 ∷ []) ∷ []; reading = 0 }

handle_read_delivers_example :
    let u = handle_read linux_socket success two_there in
    (u.message_calls ≡ message linux_socket (peer, hello) ∷ [])
    × (u.socket ≡ (peer, 9 ∷ []) ∷ [])
    × (u.reading ≡ 1)
    × (u.error_calls ≡ [])
    × (u.is_blocked ≡ false)
    × (u.runner ≡ running)
handle_read_delivers_example =
    handle_read_delivers linux_socket (λ q. q) linux_socket-IsQueue ((peer, hello) ∷ [])
      ((peer, 9 ∷ []) ∷ []) two_there refl (omega arith) refl (omega arith)

-- An empty datagram stands before another one.
abbrev empty_first : Udp Queue ℕ ℕ
empty_first = record idle { socket = (peer, []) ∷ (peer, hello) ∷ [] }

empty_datagram_blocks_messages_example :
    foldl (step linux_socket) empty_first (replicate 3 (read_done success empty_first.socket))
    ≡ empty_first
empty_datagram_blocks_messages_example =
    empty_datagram_blocks_messages linux_socket 3 empty_first refl refl refl refl

abbrev talk : List (Input Queue ℕ ℕ)
talk =
    writes_to (record { address = 10; port = 7 }) hello
    ∷ writes_to (record { address = 0; port = 7 }) hello
    ∷ broadcasts 9 hello
    ∷ write_done 1 101
    ∷ read_done success ((peer, hello) ∷ [])
    ∷ read_done 111 []
    ∷ []

talk_state :
    let u = foldl (step linux_socket) idle talk in
    (u.sent ≡ (peer, hello) ∷ (record { ip = 255; port = 9 }, hello) ∷ [])
    × (u.error_calls
        ≡ (record { address = 255; port = 9 }, 101) ∷ (record { address = 10; port = 7 }, 111) ∷ [])
unfolding step
talk_state = (refl, refl)
