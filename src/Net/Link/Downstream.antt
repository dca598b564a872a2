-- ===== src/Net/Link/Downstream.antt =====
-- From the user of the server to the user of the client: what becomes of the bytes that are written.
use sephi.Base.{
  ◌≡◌, ◌∙◌, ap, sym, refl, ℕ, inl, inr, List, [], ◌∷◌, ◌++◌, tail, drop, length, foldl,
  foldl_inv_along, outputs, Along, Bool-cases, true, Option-cases, arith, append-nil, append_assoc,
}
use sephi.Net.Types.{Chunk, success, is_error, max_buffer_size}
use sephi.Net.Session.{flow_of}
use sephi.Net.SessionMap.{SessionPtr}
use sephi.Net.Client
use sephi.Net.Client.{Client}
use sephi.Net.Client.Receiving.{received, step-packet_calls}
use sephi.Net.Server
use sephi.Net.Server.{Server}
use sephi.Net.Server.Invariant.{Inv, IsAllowed}
use sephi.Net.Server.Steps.{step-Inv}
use sephi.Net.Server.Sending.{SpareAddress, addressed, step-flow_of}
use sephi.Net.Server.Sending.Refinement.{step-session_written}
use sephi.Net.Stream.{
  Stream, StreamLaws, bytes_of, bytes_of-append, drop-append, transmit_all, transmit_all-in_flight,
}
use sephi.Net.Link.{
  Link, Input, client_does, server_does, server_reads, client_reads, session_awaits, client_awaits,
  run_client, run_server, step,
}

-- The client keeps its connection, and a read of it that completes without an error is `client_reads`.
abbrev pub LeavesClient : Client.Input → Type 0
LeavesClient (Client.reconnects ec) = ⊥
LeavesClient (Client.read_done k ec bytes) = is_error ec ≡ true
LeavesClient _ = Unit

module _ {Ip : Type 0} where
  received_none : (c : Client Ip) (i : Client.Input) → LeavesClient i → received c i ≡ []
  unfolding received
  received_none c (Client.read_done k ec bytes) h = ground arith
  received_none c (Client.writes m) h = refl
  received_none c (Client.reconnects ec) h = absurd h
  received_none c Client.closes h = refl
  received_none c Client.stops h = refl
  received_none c (Client.runs_posted ec) h = refl
  received_none c (Client.connect_done k ec) h = refl
  received_none c (Client.write_done k ec) h = refl

  received_read :
      (c : Client Ip) (k : ℕ) (bytes : Chunk)
      → client_awaits k c ≡ true
      → received c (Client.read_done k success bytes) ≡ bytes ∷ []
  unfolding received
  received_read c k bytes h = ground arith

pub addressed_read :
    (a : SessionPtr) (server : Server) (bytes : Chunk)
    → addressed a server (Server.read_done a success bytes) ≡ []
unfolding addressed
addressed_read a server bytes = ground arith

module _ {Ip S : Type 0} (stream : Stream S) (laws : StreamLaws stream) (a : SessionPtr) where
  open laws use {in_flight}

  abbrev pub AllowedDown : Link Ip S → Input → Type 0
  AllowedDown l (client_does i) = LeavesClient i
  AllowedDown l (server_does j) = IsAllowed l.server j × SpareAddress a j
  AllowedDown l _ = Unit

  -- The bytes given to `async_write` of the session are those of the client's packets and those on
  -- the way.
  pub record CarriedDown (l : Link Ip S) : Type 0 where
    pub inv : Inv l.server
    pub carried :
        bytes_of l.client.packet_calls ++ in_flight l.down ≡ bytes_of (l.server.heap a).written

  pub run_server-CarriedDown :
      (j : Server.Input) (l : Link Ip S)
      → IsAllowed l.server j
      → SpareAddress a j
      → CarriedDown l
      → CarriedDown (run_server stream a j l)
  run_server-CarriedDown j l allowed spare h =
      let (more, e) = step-session_written a l.server j h.inv spare in
      let written = (l.server.heap a).written in
      record {
        inv = step-Inv l.server j allowed h.inv;
        carried =
            ap (λ new. bytes_of l.client.packet_calls ++ in_flight (transmit_all stream new l.down))
              (ap (drop (length written)) e ∙ drop-append written more)
            ∙ (ap (λ xs. bytes_of l.client.packet_calls ++ xs)
                  (transmit_all-in_flight stream laws more l.down)
                ∙ (sym (
                      append_assoc (bytes_of l.client.packet_calls) (in_flight l.down)
                        (bytes_of more))
                    ∙ (ap (λ xs. xs ++ bytes_of more) h.carried
                        ∙ (sym (bytes_of-append written more) ∙ ap bytes_of (sym e)))));
      }

  run_client-CarriedDown :
      (i : Client.Input) (l : Link Ip S) (packets : List Chunk) (down' : S)
      → received l.client i ≡ packets
      → in_flight l.down ≡ bytes_of packets ++ in_flight down'
      → CarriedDown l
      → CarriedDown (run_client stream a i (record l { down = down' }))
  run_client-CarriedDown i l packets down' r taken h = record {
    inv = h.inv;
    carried =
        ap (λ calls. bytes_of calls ++ in_flight down')
          (step-packet_calls l.client i ∙ ap (λ xs. l.client.packet_calls ++ xs) r)
        ∙ (ap (λ xs. xs ++ in_flight down') (bytes_of-append l.client.packet_calls packets)
            ∙ (append_assoc (bytes_of l.client.packet_calls) (bytes_of packets) (in_flight down')
                ∙ (ap (λ xs. bytes_of l.client.packet_calls ++ xs) (sym taken) ∙ h.carried)));
  }

  pub step-CarriedDown :
      (l : Link Ip S) (i : Input)
      → AllowedDown l i
      → CarriedDown l
      → CarriedDown (step stream a l i)
  unfolding step
  step-CarriedDown l (client_does i) ok h =
      run_client-CarriedDown i l [] l.down (received_none l.client i ok) refl h
  step-CarriedDown l (server_does j) (allowed, spare) h = run_server-CarriedDown j l allowed spare h
  step-CarriedDown l server_reads ok h = elim (Bool-cases (session_awaits a l.server)) [
    | inr e ↦ rw e h
    | inl e ↦ elim (Option-cases (stream.receive max_buffer_size l.up)) [
      | inl none_there ↦ rw (e, none_there) h
      | inr ((bytes, up'), got) ↦
          rw (e, got)
            (run_server-CarriedDown (Server.read_done a success bytes) (record l { up = up' }) tt tt
              (record { inv = h.inv; carried = h.carried }))
    ]
  ]
  step-CarriedDown l (client_reads k) ok h = elim (Bool-cases (client_awaits k l.client)) [
    | inr e ↦ rw e h
    | inl e ↦ elim (Option-cases (stream.receive max_buffer_size l.down)) [
      | inl none_there ↦ rw (e, none_there) h
      | inr ((bytes, down'), got) ↦
          rw (e, got)
            (run_client-CarriedDown (Client.read_done k success bytes) l (bytes ∷ []) down'
              (received_read l.client k bytes e)
              (laws.receive-in_flight max_buffer_size l.down down' bytes got
                ∙ ap (λ xs. xs ++ in_flight down') (sym (append-nil bytes)))
              h)
    ]
  ]

  -- The chunks that a call of the server addresses to the session.
  unfoldable pub addressed_down : Link Ip S → Input → List Chunk
  unfolding addressed
  addressed_down l (server_does j) = addressed a l.server j
  addressed_down l _ = []

  abbrev session_flow : Link Ip S → List Chunk
  session_flow l = flow_of (l.server.heap a)

  step-session_flow :
      (l : Link Ip S) (i : Input)
      → AllowedDown l i
      → CarriedDown l
      → session_flow (step stream a l i) ≡ session_flow l ++ addressed_down l i
  unfolding step addressed_down addressed
  step-session_flow l (server_does j) (allowed, spare) h = step-flow_of a l.server j h.inv spare
  step-session_flow l (client_does i) ok h = sym (append-nil (session_flow l))
  step-session_flow l (client_reads k) ok h = elim (Bool-cases (client_awaits k l.client)) [
    | inr e ↦ rw e (sym (append-nil (session_flow l)))
    | inl e ↦ elim (Option-cases (stream.receive max_buffer_size l.down)) [
      | inl none_there ↦ rw (e, none_there) (sym (append-nil (session_flow l)))
      | inr ((bytes, down'), got) ↦ rw (e, got) (sym (append-nil (session_flow l)))
    ]
  ]
  step-session_flow l server_reads ok h = elim (Bool-cases (session_awaits a l.server)) [
    | inr e ↦ rw e (sym (append-nil (session_flow l)))
    | inl e ↦ elim (Option-cases (stream.receive max_buffer_size l.up)) [
      | inl none_there ↦ rw (e, none_there) (sym (append-nil (session_flow l)))
      | inr ((bytes, up'), got) ↦
          rw (e, got)
            (step-flow_of a l.server (Server.read_done a success bytes) h.inv tt
              ∙ ap (λ xs. session_flow l ++ xs) (addressed_read a l.server bytes))
    ]
  ]

  run-session_flow :
      (l : Link Ip S) (is : List Input)
      → Along (step stream a) AllowedDown l is
      → CarriedDown l
      → session_flow (foldl (step stream a) l is)
        ≡ session_flow l ++ outputs (step stream a) addressed_down l is
  unfolding outputs
  run-session_flow l [] ok h = sym (append-nil (session_flow l))
  run-session_flow l (i ∷ is) (o, ok) h =
      run-session_flow (step stream a l i) is ok (step-CarriedDown l i o h)
      ∙ (ap (λ xs. xs ++ outputs (step stream a) addressed_down (step stream a l i) is)
            (step-session_flow l i o h)
          ∙ append_assoc (session_flow l) (addressed_down l i)
              (outputs (step stream a) addressed_down (step stream a l i) is))

  -- In every run of a client and a server over one connection, from a state in which the session has
  -- been written nothing, and in which accepted sessions are made at free addresses other than its
  -- own: the bytes that the client's packet handler has been given, then those on the way, then those
  -- that the session has still to give to `async_write`, are exactly those of the chunks that the
  -- server's `write_to_all`, `write_to` and `write_to_all_except` addressed to the session while it was
  -- in the map, in the order of the calls.
  pub client_receives_addressed :
      (l : Link Ip S) (is : List Input)
      → CarriedDown l
      → flow_of (l.server.heap a) ≡ []
      → Along (step stream a) AllowedDown l is
      → let l' = foldl (step stream a) l is in
        bytes_of l'.client.packet_calls
          ++ (in_flight l'.down ++ bytes_of (tail (l'.server.heap a).sending_messages))
        ≡ bytes_of (outputs (step stream a) addressed_down l is)
  client_receives_addressed l is h empty ok =
      let l' = foldl (step stream a) l is in
      let h' = foldl_inv_along CarriedDown AllowedDown (step stream a) step-CarriedDown l is ok h in
      let behind = tail (l'.server.heap a).sending_messages in
      sym (append_assoc (bytes_of l'.client.packet_calls) (in_flight l'.down) (bytes_of behind))
      ∙ (ap (λ xs. xs ++ bytes_of behind) h'.carried
          ∙ (sym (bytes_of-append (l'.server.heap a).written behind)
              ∙ (ap (λ xs. bytes_of ((l'.server.heap a).written ++ xs)) (sym (append-nil behind))
                  ∙ (ap bytes_of (run-session_flow l is ok h)
                      ∙ ap (λ xs. bytes_of (xs ++ outputs (step stream a) addressed_down l is))
                          empty))))
