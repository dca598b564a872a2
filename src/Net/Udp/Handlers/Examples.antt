-- ===== src/Net/Udp/Handlers/Examples.antt =====
-- A run of a UDP endpoint with handlers that call it back, and the theorem at it.
use sephi.Base.{◌+◌, ◌≡◌, ℕ, List, [], ◌∷◌, foldl, outputs, refl, some, false, length, take}
use sephi.Net.Types.{Chunk, success, Endpoint, running}
use sephi.Net.Udp
use sephi.Net.Udp.{
  got, blocks, SocketOps, Udp, Input, writes_to, broadcasts, closes, read_done, write_done,
}
use sephi.Net.Udp.Handlers.{Call, calls_write_to, calls_broadcast, calls_close, step}
use sephi.Net.Udp.Handlers.Order.{sequential}
use sephi.Net.Udp.Handlers.Sequential.{handlers_call_first}

abbrev Queue : Type 0
Queue = List (Endpoint ℕ × Chunk)

abbrev total : Queue → ℕ
total [] = 0
total ((ep, bytes) ∷ q) = length bytes + total q

-- A socket whose `available()` counts all that it holds.
abbrev bsd_socket : SocketOps Queue ℕ ℕ
bsd_socket = record {
  available = total;
  receive_from = λ q n. elim q [ [] ↦ blocks | (ep, bytes) ∷ rest ↦ got ep (take n bytes) rest ];
  make_address = λ a. some a;
  to_string = λ ip. ip;
  broadcast_ip = 255;
}

abbrev peer : Endpoint ℕ
peer = record { ip = 10; port = 7 }

abbrev idle : Udp Queue ℕ ℕ
idle = record {
  socket = [];
  sender_ep = record { ip = 0; port = 0 };
  runner = running;
  is_blocked = false;
  reading = 1;
  sending = [];
  sent = [];
  shutdowns = 0;
  error_calls = [];
  message_calls = [];
}

abbrev answer : Chunk → Call ℕ
answer chunk = calls_write_to (record { address = 10; port = 7 }) chunk

-- Two datagrams have come; the message handler answers the first, and answers the second and tells
-- everybody; the first answer fails, upon which the error handler closes the endpoint.
abbrev talk : List (Input Queue ℕ ℕ × List (List (Call ℕ)))
talk =
    (
      read_done success ((peer, 1 ∷ []) ∷ ((peer, 2 ∷ []) ∷ [])),
      (answer (1 ∷ []) ∷ []) ∷ ((answer (2 ∷ []) ∷ (calls_broadcast 9 (3 ∷ []) ∷ [])) ∷ []),
    )
    ∷ ((write_done 0 111, (calls_close ∷ []) ∷ []) ∷ [])

talk_sends :
    (foldl (step bsd_socket) idle talk).sent
    ≡ (peer, 1 ∷ []) ∷ ((peer, 2 ∷ []) ∷ ((record { ip = 255; port = 9 }, 3 ∷ []) ∷ []))
unfolding step
talk_sends = refl

talk_steps :
    outputs (step bsd_socket) (sequential bsd_socket) idle talk
    ≡ writes_to (record { address = 10; port = 7 }) (1 ∷ [])
      ∷ (writes_to (record { address = 10; port = 7 }) (2 ∷ [])
          ∷ (broadcasts 9 (3 ∷ [])
              ∷ (read_done success ((peer, 1 ∷ []) ∷ ((peer, 2 ∷ []) ∷ []))
                  ∷ (closes ∷ (write_done 0 111 ∷ [])))))
unfolding outputs step sequential
talk_steps = refl

handlers_call_first_example :
    foldl (step bsd_socket) idle talk
    ≡ foldl (Udp.step bsd_socket) idle (outputs (step bsd_socket) (sequential bsd_socket) idle talk)
handlers_call_first_example = handlers_call_first bsd_socket idle talk
