-- ===== src/Net/Link/Arrival.antt =====
-- While no write fails, everything that the client accepts arrives at the server.
use mathlib.Core.List.{map, foldl-append}
use sephi.Base.{
  ◌≡◌, ◌-◌, ◌≤◌, ◌∙◌, ap, sym, refl, ℕ, zero, suc, inl, inr, List, [], ◌∷◌, ◌++◌, length,
  length-append, eq-nil_of_length, replicate, foldl, outputs, Along, true, Option-cases, arith,
  append-nil,
}
use sephi.Net.Types.{max_buffer_size, running}
use sephi.Net.SessionMap.{SessionPtr}
use sephi.Net.Client
use sephi.Net.Client.{Client}
use sephi.Net.Client.Draining.{IsActive, drain, drain_sends_all}
use sephi.Net.Server.{Server}
use sephi.Net.Server.Receiving.{read_done-awaits}
use sephi.Net.Stream.{nothing_received, something_received, Stream, StreamLaws, bytes_of}
use sephi.Net.Link.{Link, Input, client_does, server_reads, session_awaits, step}
use sephi.Net.Link.Upstream.{
  bytes_from, run_client-CarriedUp, AllowedUp, CarriedUp, step-CarriedUp, client_flow, accepted_up,
  run-client_flow, run-CarriedUp,
}

-- A read of the session is under way on a running server.
pub record Awaits (a : SessionPtr) (server : Server) : Type 0 where
  pub up : server.runner ≡ running
  pub others : ℕ
  pub waits : (server.heap a).reading ≡ suc others

pub Awaits-session :
    (a : SessionPtr) (server : Server) → Awaits a server → session_awaits a server ≡ true
Awaits-session a server w = rw (w.up, w.waits) refl

module _ {Ip S : Type 0} (stream : Stream S) (laws : StreamLaws stream) (a : SessionPtr) where
  open laws use {in_flight}

  by_client :
      (is : List Client.Input) (l : Link Ip S)
      → CarriedUp stream laws a l
      → let l' = foldl (step stream a) l (map client_does is) in
        (l'.client ≡ foldl Client.step l.client is)
        × (l'.server ≡ l.server)
        × CarriedUp stream laws a l'
  unfolding step
  by_client [] l h = (refl, refl, h)
  by_client (i ∷ is) l h =
      by_client is (step stream a l (client_does i)) (run_client-CarriedUp stream laws a i l h)

  -- One read takes some of what is on the way.
  read-Awaits :
      (l : Link Ip S)
      → Awaits a l.server
      → let l' = step stream a l server_reads in
        Awaits a l'.server
        × (l'.client ≡ l.client)
        × (length (in_flight l'.up) ≤ length (in_flight l.up) - 1)
  unfolding step
  read-Awaits l w = elim (Option-cases (stream.receive max_buffer_size l.up)) [
    | inl none_there ↦
        rw (Awaits-session a l.server w, none_there)
          (w, refl, nothing_received stream laws max_buffer_size l.up (omega arith) none_there)
    | inr ((bytes, up'), got) ↦
        let (running_still, waits_still) =
          read_done-awaits a bytes l.server w.others w.up w.waits in
        rw (Awaits-session a l.server w, got)
          (
            record { up = running_still; others = w.others; waits = waits_still },
            refl,
            something_received stream laws max_buffer_size l.up up' bytes (omega arith) got,
          )
  ]

  read_all :
      (n : ℕ) (l : Link Ip S)
      → Awaits a l.server
      → CarriedUp stream laws a l
      → length (in_flight l.up) ≤ n
      → let l' = foldl (step stream a) l (replicate n server_reads) in
        (l'.client ≡ l.client) × (in_flight l'.up ≡ []) × CarriedUp stream laws a l'
  read_all zero l w h le = (refl, eq-nil_of_length (in_flight l.up) le, h)
  read_all (suc n) l w h le =
      let (w', same, less) = read-Awaits l w in
      let (same', empty, h') =
        read_all n (step stream a l server_reads) w'
          (step-CarriedUp stream laws a l server_reads tt h) (omega arith) in
      (same' ∙ same, empty, h')

  -- After any history of a client and a server over one connection in which the client's deque still
  -- has a write under way, its runner thread runs, and the server runs and reads from the session:
  -- once the client's posted handlers and writes complete without errors, as many reads of the
  -- session as bytes were accepted give the packet handler of the server all the bytes of the chunks
  -- for which the client's `write` returned true, in the order of the calls.
  pub everything_arrives :
      (l : Link Ip S) (is : List Input)
      → CarriedUp stream laws a l
      → client_flow stream laws a l ≡ []
      → Along (step stream a) (AllowedUp stream laws a) l is
      → let l' = foldl (step stream a) l is in
        IsActive l'.client
        → Awaits a l'.server
        → let all = bytes_of (outputs (step stream a) (accepted_up stream laws a) l is) in
          bytes_from a
            (foldl (step stream a) l' (
              map client_does (drain l'.client)
              ++ replicate (length all) server_reads)).server.packet_calls
          ≡ all
  everything_arrives l is h empty ok active w =
      let l' = foldl (step stream a) l is in
      let cs = outputs (step stream a) (accepted_up stream laws a) l is in
      let (same, server_same, h1) =
        by_client (drain l'.client) l' (run-CarriedUp stream laws a l is ok h) in
      let l1 = foldl (step stream a) l' (map client_does (drain l'.client)) in
      let (sent, nothing, written) = drain_sends_all l'.client active in
      let all_written : l1.client.written ≡ cs =
        ap (λ c. c.written) same
        ∙ (written ∙ (run-client_flow stream laws a l is ok h ∙ ap (λ xs. xs ++ cs) empty)) in
      let (same2, none_left, h2) = read_all (length (bytes_of cs)) l1 (rw server_same w) h1 (
        omega (
          arith,
          length-append (bytes_from a l1.server.packet_calls) (in_flight l1.up),
          ap length h1.carried,
          ap (λ ws. length (bytes_of ws)) all_written,
        )) in
      let l2 = foldl (step stream a) l1 (replicate (length (bytes_of cs)) server_reads) in
      let told = bytes_from a l2.server.packet_calls in
      rw foldl-append (
        sym (append-nil told)
        ∙ (ap (λ xs. told ++ xs) (sym none_left)
            ∙ (h2.carried ∙ ap bytes_of (ap (λ c. c.written) same2 ∙ all_written))))
