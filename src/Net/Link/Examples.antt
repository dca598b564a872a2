-- ===== src/Net/Link/Examples.antt =====
-- Runs of a client and a server over one connection, with a queue of bytes for each direction.
use sephi.Base.{
  ◌≡◌, ◌≢◌, ◌<◌, ◌≤◌, ℕ, zero, suc, List, [], ◌∷◌, ◌++◌, take, drop, tail, length, foldl, outputs,
  Along, All, refl, ap, arith, Option, some, none, replicate, inl,
}
use mathlib.Core.List.{map}
use sephi.Net.Types.{Chunk, success}
use sephi.Net.Session
use sephi.Net.Client
use sephi.Net.Client.{Client}
use sephi.Net.Client.Sending.{chunks}
use sephi.Net.Client.Draining.{drain}
use sephi.Net.Server
use sephi.Net.Server.{Server}
use sephi.Net.Server.Steps.{run-Inv}
use sephi.Net.SessionMap.{emplace, find}
use sephi.Net.Stream.{Stream, StreamLaws, bytes_of}
use sephi.Net.Link.{Link, Input, client_does, server_does, server_reads, client_reads, step}
use sephi.Net.Server.Handlers
use sephi.Net.Link.Echo
use sephi.Net.Link.Echo.Completion.{IsCompletion}
use sephi.Net.Link.Echo.Settling.{everything_returns}
use sephi.Net.Link.Echo.Return.{Echoing, accepted_from, echo_returns_accepted}
use sephi.Net.Link.Upstream.{
  bytes_from, AllowedUp, CarriedUp, accepted_up, server_receives_accepted,
}
use sephi.Net.Link.Downstream.{AllowedDown, CarriedDown, addressed_down, client_receives_addressed}
use sephi.Net.Link.Arrival.{everything_arrives}

receive_bytes : ℕ → Chunk → Option (Chunk × Chunk)
receive_bytes n [] = none
receive_bytes n (x ∷ xs) = some (take n (x ∷ xs), drop n (x ∷ xs))

abbrev queue : Stream Chunk
queue = record { transmit = λ bytes s. s ++ bytes; receive = receive_bytes }

take-drop : (n : ℕ) (xs : Chunk) → take n xs ++ drop n xs ≡ xs
take-drop zero xs = refl
take-drop (suc n) [] = refl
take-drop (suc n) (x ∷ xs) = ap (λ ys. x ∷ ys) (take-drop n xs)

length-take_le : (n : ℕ) (xs : Chunk) → length (take n xs) ≤ n
length-take_le zero xs = omega arith
length-take_le (suc n) [] = omega arith
length-take_le (suc n) (x ∷ xs) = omega (arith, length-take_le n xs)

receive_bytes-in_flight :
    (n : ℕ) (s s' bytes : Chunk) → receive_bytes n s ≡ some (bytes, s') → s ≡ bytes ++ s'
unfolding receive_bytes
receive_bytes-in_flight n [] s' bytes e = ground arith
receive_bytes-in_flight n (x ∷ xs) s' bytes e = ground (arith, take-drop n (x ∷ xs))

receive_bytes-size :
    (n : ℕ) (s s' bytes : Chunk)
    → 0 < n
    → receive_bytes n s ≡ some (bytes, s')
    → (0 < length bytes) × (length bytes ≤ n)
unfolding receive_bytes
receive_bytes-size n [] s' bytes pos e = ground arith
receive_bytes-size zero (x ∷ xs) s' bytes pos e = absurd (omega arith)
receive_bytes-size (suc n) (x ∷ xs) s' bytes pos e = ground (arith, length-take_le n xs)

receive_bytes-some :
    (n : ℕ) (s : Chunk)
    → 0 < n
    → s ≢ []
    → (bytes : Chunk) × (s' : Chunk) × (receive_bytes n s ≡ some (bytes, s'))
unfolding receive_bytes
receive_bytes-some n [] pos full = absurd (full refl)
receive_bytes-some n (x ∷ xs) pos full = (take n (x ∷ xs), drop n (x ∷ xs), refl)

abbrev queue_laws : StreamLaws queue
queue_laws = record {
  in_flight = λ s. s;
  transmit-in_flight = λ bytes s. refl;
  receive-in_flight = receive_bytes-in_flight;
  receive-size = receive_bytes-size;
  receive-some = receive_bytes-some;
}

abbrev open_client : Client ℕ
unfolding Client.initial Client.do_connect Client.step
open_client =
    Client.step (Client.do_connect (Client.initial (record { ip = 127; port = 6705 })))
      (Client.connect_done 0 success)

abbrev open_server : Server
unfolding Server.construct Server.step emplace find
open_server = Server.step Server.construct (Server.accept_done success 16)

abbrev fresh : Link ℕ Chunk
fresh = record { client = open_client; server = open_server; up = []; down = [] }

-- The client writes three chunks, of which two are put into the deque and one is read by the server;
-- another session is accepted, and a connection fails.
abbrev upload : List Input
upload =
    client_does (Client.writes (1 ∷ 2 ∷ []))
    ∷ client_does (Client.runs_posted success)
    ∷ client_does (Client.writes (3 ∷ []))
    ∷ server_reads
    ∷ server_does (Server.accept_done success 32)
    ∷ server_does (Server.read_done 32 success (9 ∷ []))
    ∷ client_does (Client.runs_posted success)
    ∷ client_does (Client.writes (4 ∷ 5 ∷ []))
    ∷ server_does (Server.accept_done 24 0)
    ∷ []

upload_state :
    let l = foldl (step queue 16) fresh upload in
    (l.server.packet_calls ≡ (16, 1 ∷ 2 ∷ []) ∷ (32, 9 ∷ []) ∷ [])
    × (l.up ≡ [])
    × (l.client.sending_messages ≡ (1 ∷ 2 ∷ []) ∷ (3 ∷ []) ∷ [])
    × (chunks l.client.posted ≡ (4 ∷ 5 ∷ []) ∷ [])
unfolding step open_client open_server Client.step Server.step emplace find receive_bytes
upload_state = (refl, refl, refl, refl)

upload-AllowedUp : Along (step queue 16) (AllowedUp queue queue_laws 16) fresh upload
unfolding step open_client open_server Client.step Server.step emplace find receive_bytes
upload-AllowedUp = (tt, (tt, (tt, (tt, (tt, (refl, (tt, (tt, (tt, tt)))))))))

fresh-CarriedUp : CarriedUp queue queue_laws 16 fresh
unfolding open_client open_server Client.step Server.step Client.initial Client.do_connect
    Server.construct emplace find
fresh-CarriedUp = record { sound = inl refl; carried = refl }

server_receives_accepted_example :
    let l = foldl (step queue 16) fresh upload in
    bytes_from 16 l.server.packet_calls
      ++ (l.up ++ bytes_of (tail l.client.sending_messages ++ chunks l.client.posted))
    ≡ bytes_of (outputs (step queue 16) (accepted_up queue queue_laws 16) fresh upload)
server_receives_accepted_example =
    server_receives_accepted queue queue_laws 16 fresh upload fresh-CarriedUp
      (unfold open_client Client.step Client.initial Client.do_connect in refl) upload-AllowedUp

everything_arrives_example :
    let l = foldl (step queue 16) fresh upload in
    let all = bytes_of (outputs (step queue 16) (accepted_up queue queue_laws 16) fresh upload) in
    bytes_from 16
      (foldl (step queue 16) l (
        map client_does (drain l.client)
        ++ replicate (length all) server_reads)).server.packet_calls
    ≡ all
unfolding step open_client open_server Client.step Server.step emplace find receive_bytes
everything_arrives_example =
    everything_arrives queue queue_laws 16 fresh upload fresh-CarriedUp refl upload-AllowedUp
      (record { up = refl; busy = refl }) (record { up = refl; others = 0; waits = refl })

-- The server writes to both its sessions, to the first of them, and to all but the first.
abbrev download : List Input
download =
    server_does (Server.writes_to_all (1 ∷ 2 ∷ []))
    ∷ server_does (Server.accept_done success 32)
    ∷ server_does (Server.writes_to 16 (3 ∷ []))
    ∷ client_reads 0
    ∷ server_does (Server.writes_to_all_except 16 (4 ∷ []))
    ∷ server_does (Server.write_done 16 0 success)
    ∷ client_does (Client.writes (5 ∷ []))
    ∷ []

download_state :
    let l = foldl (step queue 16) fresh download in
    (l.client.packet_calls ≡ (1 ∷ 2 ∷ []) ∷ []) × (l.down ≡ 3 ∷ [])
unfolding step open_client open_server Client.step Server.step emplace find Session.write
    receive_bytes
download_state = (refl, refl)

download-AllowedDown : Along (step queue 16) (AllowedDown queue queue_laws 16) fresh download
unfolding step open_client open_server Client.step Server.step emplace find Session.write
    receive_bytes
download-AllowedDown = (
  (tt, tt),
  (((refl, refl, refl), λ e. ground arith), ((tt, tt), (tt, ((tt, tt), ((tt, tt), (tt, tt)))))),
)

fresh-CarriedDown : CarriedDown queue queue_laws 16 fresh
unfolding open_client open_server Client.step Server.step Client.initial Client.do_connect
    Server.construct emplace find
fresh-CarriedDown = record {
  inv = run-Inv (Server.accept_done success 16 ∷ []) ((refl, refl, refl), tt);
  carried = refl;
}

client_receives_addressed_example :
    let l = foldl (step queue 16) fresh download in
    bytes_of l.client.packet_calls
      ++ (l.down ++ bytes_of (tail (l.server.heap 16).sending_messages))
    ≡ bytes_of (outputs (step queue 16) (addressed_down queue queue_laws 16) fresh download)
client_receives_addressed_example =
    client_receives_addressed queue queue_laws 16 fresh download fresh-CarriedDown
      (unfold open_server Server.step Server.construct emplace find in refl) download-AllowedDown

-- Two chunks are written; the first comes back, and the second is with the server.
abbrev conversation : List Echo.Input
conversation =
    Echo.client_does (Client.writes (1 ∷ 2 ∷ []))
    ∷ Echo.client_does (Client.writes (3 ∷ []))
    ∷ Echo.client_does (Client.runs_posted success)
    ∷ Echo.server_echoes
    ∷ Echo.client_does (Client.runs_posted success)
    ∷ Echo.client_does (Client.write_done 0 success)
    ∷ Echo.client_reads 0
    ∷ Echo.server_echoes
    ∷ []

conversation_state :
    let l = foldl (Echo.step queue 16) fresh conversation in
    (l.client.packet_calls ≡ (1 ∷ 2 ∷ []) ∷ [])
    × ((l.server.heap 16).sending_messages ≡ (1 ∷ 2 ∷ []) ∷ (3 ∷ []) ∷ [])
unfolding Echo.step open_client open_server Client.step Server.step Handlers.step emplace find
    Session.write receive_bytes
conversation_state = (refl, refl)

fresh-Echoing : Echoing queue queue_laws 16 fresh
unfolding open_client open_server Client.step Server.step Client.initial Client.do_connect
    Server.construct emplace find
fresh-Echoing = record {
  upward = fresh-CarriedUp;
  downward = fresh-CarriedDown;
  echoes = record { runs = refl; held = refl; echoed = refl };
}

echo_returns_accepted_example :
    let l = foldl (Echo.step queue 16) fresh conversation in
    bytes_of l.client.packet_calls
      ++ (l.down
          ++ (bytes_of (tail (l.server.heap 16).sending_messages)
              ++ (l.up ++ bytes_of (tail l.client.sending_messages ++ chunks l.client.posted))))
    ≡ bytes_of (outputs (Echo.step queue 16) (accepted_from queue queue_laws 16) fresh conversation)
echo_returns_accepted_example =
    echo_returns_accepted queue queue_laws 16 fresh conversation fresh-Echoing
      (unfold open_client Client.step Client.initial Client.do_connect in refl)
      (tt, (tt, (tt, (tt, (tt, (tt, (tt, (tt, tt))))))))

everything_returns_example :
    let l = foldl (Echo.step queue 16) fresh conversation in
    (more : List Echo.Input) × All IsCompletion more
    × (bytes_of (foldl (Echo.step queue 16) l more).client.packet_calls
        ≡ bytes_of
            (outputs (Echo.step queue 16) (accepted_from queue queue_laws 16) fresh conversation))
unfolding Echo.step open_client open_server Client.step Server.step Handlers.step emplace find
    Session.write receive_bytes
everything_returns_example =
    everything_returns queue queue_laws 16 fresh conversation fresh-Echoing refl
      (tt, (tt, (tt, (tt, (tt, (tt, (tt, (tt, tt)))))))) (record { up = refl; busy = refl })
      (refl, refl) (record { up = refl; others = 0; waits = refl }) refl
