-- ===== src/Net/Link/Echo/Phases.antt =====
-- What is under way between a client and a server that echoes completes, a direction at a time.
use mathlib.Core.List.{map}
use sephi.Base.{
  ◌≡◌, ◌∙◌, ◌≤◌, ◌-◌, length-tail, ap, refl, ℕ, zero, suc, inl, inr, List, [], ◌∷◌, drop, length,
  eq-nil_of_length, replicate, foldl, true, Option-cases, arith,
}
use sephi.Net.Types.{success, max_buffer_size, running}
use sephi.Net.SessionMap.{SessionPtr}
use sephi.Net.Client
use sephi.Net.Client.{Client}
use sephi.Net.Server
use sephi.Net.Server.{Server}
use sephi.Net.Server.Invariant.{Inv}
use sephi.Net.Server.Receiving.{read_done-awaits}
use sephi.Net.Stream.{
  nothing_received, something_received, drop_all, Stream, StreamLaws, transmit_all,
}
use sephi.Net.Link
use sephi.Net.Link.{Link, session_awaits, client_awaits}
use sephi.Net.Link.Arrival.{Awaits, Awaits-session}
use sephi.Net.Link.Echo.{client_does, client_reads, session_writes, server_echoes, echo, step}
use sephi.Net.Link.Echo.Session.{handled}
use sephi.Net.Link.Echo.Return.{Echoing, step-Echoing}
use sephi.Net.Link.Echo.Completion.{
  IsBusy, read-IsBusy, write-IsBusy, write-Awaits, done-IsBusy, read-reads, Reads,
}

Reads-client : {Ip : Type 0} (c : Client Ip) → Reads c → client_awaits 0 c ≡ true
Reads-client c (up, reads) = rw (up, reads) refl

module _ {Ip S : Type 0} (stream : Stream S) (laws : StreamLaws stream) (a : SessionPtr) where
  open laws use {in_flight}

  pub by_client :
      (is : List Client.Input) (l : Link Ip S)
      → let l' = foldl (step stream a) l (map client_does is) in
        (l'.client ≡ foldl Client.step l.client is) × (l'.server ≡ l.server)
  unfolding step Link.step
  by_client [] l = (refl, refl)
  by_client (i ∷ is) l = by_client is (step stream a l (client_does i))

  -- One read takes some of what is on the way to the server.
  echo_less :
      (l : Link Ip S)
      → Inv l.server
      → Awaits a l.server
      → IsBusy a l.server
      → let l' = step stream a l server_echoes in
        Awaits a l'.server
        × IsBusy a l'.server
        × (l'.client ≡ l.client)
        × (length (in_flight l'.up) ≤ length (in_flight l.up) - 1)
  unfolding step echo
  echo_less l v w busy = elim (Option-cases (stream.receive max_buffer_size l.up)) [
    | inl none_there ↦
        rw (Awaits-session a l.server w, none_there)
          (
            w,
            busy,
            refl,
            nothing_received stream laws max_buffer_size l.up (omega arith) none_there,
          )
    | inr ((bytes, up'), got) ↦
        let (up1, waits1) = read_done-awaits a bytes l.server w.others w.up w.waits in
        let s1 = Server.step l.server (Server.read_done a success bytes) in
        let (up2, waits2) = write-Awaits a bytes s1 w.others up1 waits1 in
        rw
          (
            Awaits-session a l.server w,
            got,
            handled a l.server bytes (Awaits-session a l.server w) v,
          )
          (
            record { up = up2; others = w.others; waits = waits2 },
            write-IsBusy a bytes s1 up1 (read-IsBusy a bytes l.server busy),
            refl,
            something_received stream laws max_buffer_size l.up up' bytes (omega arith) got,
          )
  ]

  pub echo_all :
      (n : ℕ) (l : Link Ip S)
      → Echoing stream laws a l
      → Awaits a l.server
      → IsBusy a l.server
      → length (in_flight l.up) ≤ n
      → let l' = foldl (step stream a) l (replicate n server_echoes) in
        (in_flight l'.up ≡ []) × (l'.client ≡ l.client) × Awaits a l'.server × IsBusy a l'.server
  echo_all zero l h w busy le = (eq-nil_of_length (in_flight l.up) le, refl, w, busy)
  echo_all (suc n) l h w busy le =
      let (w', busy', same, less) = echo_less l h.downward.inv w busy in
      let (empty, same', w'', busy'') =
        echo_all n (step stream a l server_echoes) (step-Echoing stream laws a l server_echoes tt h)
          w' busy' (omega arith) in
      (empty, same' ∙ same, w'', busy'')

  pub write_all :
      (n : ℕ) (l : Link Ip S)
      → l.server.runner ≡ running
      → IsBusy a l.server
      → length (l.server.heap a).sending_messages ≤ n
      → let l' = foldl (step stream a) l (replicate n (session_writes 0)) in
        ((l'.server.heap a).sending_messages ≡ []) × (l'.client ≡ l.client) × (l'.up ≡ l.up)
  unfolding step Link.step
  write_all zero l up busy le = (eq-nil_of_length (l.server.heap a).sending_messages le, refl, refl)
  write_all (suc n) l up busy le =
      let ms = (l.server.heap a).sending_messages in
      let (up', fewer, busy', _) = done-IsBusy a l.server ms up refl busy in
      write_all n (step stream a l (session_writes 0)) up' busy'
        (omega (arith, ap length fewer, length-tail ms))

  -- One read takes some of what is on the way to the client.
  read_less :
      (l : Link Ip S)
      → Reads l.client
      → let l' = step stream a l (client_reads 0) in
        Reads l'.client
        × (l'.client.sending_messages ≡ l.client.sending_messages)
        × (l'.client.posted ≡ l.client.posted)
        × (l'.server ≡ l.server)
        × (l'.up ≡ l.up)
        × (length (in_flight l'.down) ≤ length (in_flight l.down) - 1)
  unfolding step Link.step
  read_less l (up, reads) = elim (Option-cases (stream.receive max_buffer_size l.down)) [
    | inl none_there ↦
        rw (Reads-client l.client (up, reads), none_there)
          (
            (up, reads),
            refl,
            refl,
            refl,
            refl,
            nothing_received stream laws max_buffer_size l.down (omega arith) none_there,
          )
    | inr ((bytes, down'), got) ↦
        let (up', reads', same_written, same_sending, same_posted) =
          read-reads l.client bytes up reads in
        rw (Reads-client l.client (up, reads), got)
          (
            (up', reads'),
            same_sending,
            same_posted,
            refl,
            ap (λ ws. transmit_all stream (drop (length l.client.written) ws) l.up) same_written
                ∙ ap (λ ws. transmit_all stream ws l.up) (drop_all l.client.written),
            something_received stream laws max_buffer_size l.down down' bytes (omega arith) got,
          )
  ]

  pub read_all :
      (n : ℕ) (l : Link Ip S)
      → Reads l.client
      → length (in_flight l.down) ≤ n
      → let l' = foldl (step stream a) l (replicate n (client_reads 0)) in
        (in_flight l'.down ≡ [])
        × (l'.client.sending_messages ≡ l.client.sending_messages)
        × (l'.client.posted ≡ l.client.posted)
        × (l'.server ≡ l.server)
        × (l'.up ≡ l.up)
  read_all zero l h le = (eq-nil_of_length (in_flight l.down) le, refl, refl, refl, refl)
  read_all (suc n) l h le =
      let (h', s, p, v, u, less) = read_less l h in
      let (empty, s', p', v', u') =
        read_all n (step stream a l (client_reads 0)) h' (omega arith) in
      (empty, s' ∙ s, p' ∙ p, v' ∙ v, u' ∙ u)
