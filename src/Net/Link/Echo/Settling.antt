-- ===== src/Net/Link/Echo/Settling.antt =====
-- Everything comes back from a server that echoes, once all that is under way has completed.
use mathlib.Core.List.{map, foldl-append}
use sephi.Base.{
  ℕ, ◌≡◌, ◌∙◌, ◌+◌, ap, sym, refl, List, [], ◌∷◌, ◌++◌, tail, length, replicate, foldl, All,
  foldl_inv_if, All-append, All-replicate, All-map, All-implied, outputs, true, arith, append-nil,
}
use sephi.Net.Types.{success}
use sephi.Net.SessionMap.{SessionPtr}
use sephi.Net.Client
use sephi.Net.Client.{Client}
use sephi.Net.Client.Sending.{chunks, accepted}
use sephi.Net.Client.Draining.{IsActive, drain, drain_sends_all}
use sephi.Net.Stream.{Stream, StreamLaws, bytes_of}
use sephi.Net.Link.{Link}
use sephi.Net.Link.Upstream.{client_flow}
use sephi.Net.Link.Arrival.{Awaits}
use sephi.Net.Link.Echo.{Input, client_does, client_reads, session_writes, server_echoes, step}
use sephi.Net.Link.Echo.Return.{IsGentle, Echoing, accepted_from, run-Echoing, accounts}
use sephi.Net.Link.Echo.Completion.{IsCompletion, IsBusy, Reads, completion-Reads}
use sephi.Net.Link.Echo.Phases.{by_client, echo_all, write_all, read_all}

IsCompletion-IsGentle : (i : Input) → IsCompletion i → IsGentle i
IsCompletion-IsGentle (client_does (Client.runs_posted ec)) h = tt
IsCompletion-IsGentle (client_does (Client.write_done k ec)) h = tt
IsCompletion-IsGentle (client_does (Client.writes m)) h = absurd h
IsCompletion-IsGentle (client_does (Client.reconnects ec)) h = absurd h
IsCompletion-IsGentle (client_does Client.closes) h = absurd h
IsCompletion-IsGentle (client_does Client.stops) h = absurd h
IsCompletion-IsGentle (client_does (Client.connect_done k ec)) h = absurd h
IsCompletion-IsGentle (client_does (Client.read_done k ec bytes)) h = absurd h
IsCompletion-IsGentle (client_reads k) h = tt
IsCompletion-IsGentle (session_writes k) h = tt
IsCompletion-IsGentle server_echoes h = tt

drain-IsCompletion :
    {Ip : Type 0} (c : Client Ip) → All (λ i. IsCompletion (client_does i)) (drain c)
drain-IsCompletion c =
    All-append (λ i. IsCompletion (client_does i))
      (replicate (length c.posted) (Client.runs_posted success))
      (replicate (length c.sending_messages + length c.posted) (Client.write_done 0 success))
      (All-replicate (λ i. IsCompletion (client_does i)) (length c.posted)
        (Client.runs_posted success) refl)
      (All-replicate (λ i. IsCompletion (client_does i))
        (length c.sending_messages + length c.posted) (Client.write_done 0 success) refl)

-- The client's posted handlers and writes, the reads of the session, its writes, and the client's
-- reads.
abbrev phases : {Ip : Type 0} → Client Ip → ℕ → ℕ → ℕ → List Input
phases c n m k =
    map client_does (drain c)
    ++ (replicate n server_echoes
        ++ (replicate m (session_writes 0) ++ replicate k (client_reads 0)))

phases-IsCompletion : {Ip : Type 0} (c : Client Ip) (n m k : ℕ) → All IsCompletion (phases c n m k)
phases-IsCompletion c n m k =
    let third = replicate m (session_writes 0) in
    let fourth = replicate k (client_reads 0) in
    let second = replicate n server_echoes in
    All-append IsCompletion (map client_does (drain c)) (second ++ (third ++ fourth))
      (All-map IsCompletion client_does (drain c) (drain-IsCompletion c))
      (All-append IsCompletion second (third ++ fourth)
        (All-replicate IsCompletion n server_echoes tt)
        (All-append IsCompletion third fourth (All-replicate IsCompletion m (session_writes 0) tt)
          (All-replicate IsCompletion k (client_reads 0) tt)))

sent_nil :
    {Ip : Type 0} (c : Client Ip) → Client.are_all_messages_sent c ≡ true → c.sending_messages ≡ []
sent_nil c h = ground arith

module _ {Ip S : Type 0} (stream : Stream S) (laws : StreamLaws stream) (a : SessionPtr) where
  open laws use {in_flight}

  completion_silent :
      (l : Link Ip S) (i : Input) → IsCompletion i → accepted_from stream laws a l i ≡ []
  unfolding accepted_from accepted
  completion_silent l (client_does (Client.runs_posted ec)) h = refl
  completion_silent l (client_does (Client.write_done k ec)) h = refl
  completion_silent l (client_does (Client.writes m)) h = absurd h
  completion_silent l (client_does (Client.reconnects ec)) h = absurd h
  completion_silent l (client_does Client.closes) h = absurd h
  completion_silent l (client_does Client.stops) h = absurd h
  completion_silent l (client_does (Client.connect_done k ec)) h = absurd h
  completion_silent l (client_does (Client.read_done k ec bytes)) h = absurd h
  completion_silent l (client_reads k) h = refl
  completion_silent l (session_writes k) h = refl
  completion_silent l server_echoes h = refl

  completions_silent :
      (l : Link Ip S) (is : List Input)
      → All IsCompletion is
      → outputs (step stream a) (accepted_from stream laws a) l is ≡ []
  unfolding outputs
  completions_silent l [] h = refl
  completions_silent l (i ∷ is) (o, h) =
      ap (λ xs. xs ++ outputs (step stream a) (accepted_from stream laws a) (step stream a l i) is)
        (completion_silent l i o)
      ∙ completions_silent (step stream a l i) is h

  -- A continuation of completions that leaves nothing under way.
  record Settled (l : Link Ip S) : Type 0 where
    pub more : List Input
    pub complete : All IsCompletion more
    pub settled :
        let l' = foldl (step stream a) l more in
        (in_flight l'.down ≡ [])
        × (in_flight l'.up ≡ [])
        × ((l'.server.heap a).sending_messages ≡ [])
        × (l'.client.sending_messages ≡ [])
        × (l'.client.posted ≡ [])

  phases_run :
      (l : Link Ip S) (c : Client Ip) (n m k : ℕ)
      → foldl (step stream a) l (phases c n m k)
        ≡ foldl
            (step stream a)
            (foldl
              (step stream a)
              (foldl
                (step stream a)
                (foldl (step stream a) l (map client_does (drain c)))
                (replicate n server_echoes))
              (replicate m (session_writes 0)))
            (replicate k (client_reads 0))
  phases_run l c n m k =
      let third = replicate m (session_writes 0) in
      let fourth = replicate k (client_reads 0) in
      let second = replicate n server_echoes in
      let l1 = foldl (step stream a) l (map client_does (drain c)) in
      foldl-append (step stream a) l (map client_does (drain c)) (second ++ (third ++ fourth))
      ∙ (foldl-append (step stream a) l1 second (third ++ fourth)
          ∙ foldl-append (step stream a) (foldl (step stream a) l1 second) third fourth)

  settle :
      (l : Link Ip S)
      → Echoing stream laws a l
      → IsActive l.client
      → Reads l.client
      → Awaits a l.server
      → IsBusy a l.server
      → Settled l
  settle l h active reads w busy =
      let first = map client_does (drain l.client) in
      let all_first =
        All-map IsCompletion client_does (drain l.client) (drain-IsCompletion l.client) in
      let l1 = foldl (step stream a) l first in
      let (client1, server1) = by_client stream laws a (drain l.client) l in
      let (sent, posted1, _) = drain_sends_all l.client active in
      let gentle = All-implied IsCompletion IsGentle IsCompletion-IsGentle first all_first in
      let h1 = (run-Echoing stream laws a l first gentle h).0 in
      let reads1 =
        foldl_inv_if Reads (λ i. IsCompletion (client_does i)) Client.step completion-Reads l.client
          (drain l.client) (drain-IsCompletion l.client) reads in
      let n = length (in_flight l1.up) in
      let (up2, client2, w2, busy2) =
        echo_all stream laws a n l1 h1 (rw server1 w) (rw server1 busy) (omega arith) in
      let l2 = foldl (step stream a) l1 (replicate n server_echoes) in
      let m = length (l2.server.heap a).sending_messages in
      let (session3, client3, up3) = write_all stream laws a m l2 w2.up busy2 (omega arith) in
      let l3 = foldl (step stream a) l2 (replicate m (session_writes 0)) in
      let k = length (in_flight l3.down) in
      let client_now : l3.client ≡ foldl Client.step l.client (drain l.client) =
        client3 ∙ (client2 ∙ client1) in
      let (down4, sending4, posted4, server4, up4) =
        read_all stream laws a k l3 (rw client_now reads1) (omega arith) in
      record {
        more = phases l.client n m k;
        complete = phases-IsCompletion l.client n m k;
        settled = rw (phases_run l l.client n m k) (
          down4,
          ap in_flight (up4 ∙ up3) ∙ up2,
          ap (λ s. (s.heap a).sending_messages) server4 ∙ session3,
          sending4
              ∙ (ap (λ c. c.sending_messages) client_now
                  ∙ sent_nil (foldl Client.step l.client (drain l.client)) sent),
          posted4 ∙ (ap (λ c. c.posted) client_now ∙ posted1),
        );
      }

  -- After any such run of a client and a server that echoes after which the client's runner runs, it
  -- has a write under way if its deque holds a chunk and reads its socket, and the server runs, reads
  -- from the session, and has a write of it under way if its deque holds a chunk: there are
  -- completions without errors, with no call of a user, after which the client's packet handler has
  -- been given exactly the bytes of the chunks for which `write` returned true, in the order of the
  -- calls.
  pub everything_returns :
      (l : Link Ip S) (is : List Input)
      → Echoing stream laws a l
      → client_flow stream laws a l ≡ []
      → All IsGentle is
      → let l' = foldl (step stream a) l is in
        IsActive l'.client
        → Reads l'.client
        → Awaits a l'.server
        → IsBusy a l'.server
        → (more : List Input) × All IsCompletion more
          × (bytes_of (foldl (step stream a) l' more).client.packet_calls
              ≡ bytes_of (outputs (step stream a) (accepted_from stream laws a) l is))
  everything_returns l is h empty ok active reads w busy =
      let l' = foldl (step stream a) l is in
      let (h', sent) = run-Echoing stream laws a l is ok h in
      let rest = settle l' h' active reads w busy in
      let l'' = foldl (step stream a) l' rest.more in
      let gentle =
        All-implied IsCompletion IsGentle IsCompletion-IsGentle rest.more rest.complete in
      let (h'', kept) = run-Echoing stream laws a l' rest.more gentle h' in
      let silent = completions_silent l' rest.more rest.complete in
      let (down, up, session, sending, posted) = rest.settled in
      let got = bytes_of l''.client.packet_calls in
      let client = l''.client in
      let nothing_left : in_flight l''.down
            ++ (bytes_of (tail (l''.server.heap a).sending_messages)
                ++ (in_flight l''.up
                    ++ bytes_of (tail client.sending_messages ++ chunks client.posted)))
          ≡ [] =
        rw (down, up, session, sending, posted) refl in
      let flow_now : client_flow stream laws a l''
          ≡ outputs (step stream a) (accepted_from stream laws a) l is =
        kept
        ∙ (ap (λ xs. client_flow stream laws a l' ++ xs) silent
            ∙ (append-nil (client_flow stream laws a l')
                ∙ (sent
                    ∙ ap (λ xs. xs ++ outputs (step stream a) (accepted_from stream laws a) l is)
                        empty))) in
      (
        rest.more,
        rest.complete,
        sym (append-nil got)
            ∙ (ap (λ xs. got ++ xs) (sym nothing_left)
                ∙ (accounts stream laws a l'' h'' ∙ ap bytes_of flow_now)),
      )
