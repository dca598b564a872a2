-- ===== src/Net/Link/Upstream.antt =====
-- From the user of the client to the user of the server: what becomes of the bytes that are written.
use sephi.Base.{
  ◌≡◌, ◌∙◌, ap, sym, refl, inl, inr, List, [], ◌∷◌, ◌++◌, tail, drop, length, foldl,
  foldl_inv_along, outputs, Along, if◌then◌else◌, ◌==◌, not, ◌&&◌, Bool-cases, true, false,
  Option-cases, arith, append-nil, append_assoc,
}
use sephi.Net.Types.{Chunk, success, is_error, max_buffer_size}
use sephi.Net.SendLoop.{OneWrite, flow}
use sephi.Net.SessionMap.{SessionId, SessionPtr}
use sephi.Net.Client
use sephi.Net.Client.{Client}
use sephi.Net.Client.Sending.{chunks, accepted, step-Sound, step-flow}
use sephi.Net.Client.Sending.Refinement.{step-written}
use sephi.Net.Server
use sephi.Net.Server.{Server}
use sephi.Net.Server.Receiving.{received, step-packet_calls}
use sephi.Net.Stream.{
  Stream, StreamLaws, bytes_of, bytes_of-append, drop-append, transmit_all, transmit_all-in_flight,
}
use sephi.Net.Link.{
  Link, Input, client_does, server_does, server_reads, client_reads, session_awaits, client_awaits,
  run_client, run_server, step,
}

-- The bytes of the packets of one session.
abbrev pub bytes_from : SessionId → List (SessionId × Chunk) → Chunk
bytes_from a [] = []
bytes_from a ((id, bytes) ∷ calls) =
    if id == a then bytes ++ bytes_from a calls else bytes_from a calls

pub bytes_from-append :
    (a : SessionId) (cs ds : List (SessionId × Chunk))
    → bytes_from a (cs ++ ds) ≡ bytes_from a cs ++ bytes_from a ds
bytes_from-append a [] ds = refl
bytes_from-append a ((id, bytes) ∷ cs) ds =
    ground
      (arith, bytes_from-append a cs ds, append_assoc bytes (bytes_from a cs) (bytes_from a ds))

-- The client keeps its connection.
abbrev pub KeepsClient : Client.Input → Type 0
KeepsClient (Client.reconnects ec) = ⊥
KeepsClient _ = Unit

-- A read of the session that completes without an error is `server_reads`, and one of the client is
-- `client_reads`.
abbrev pub LeavesSession : SessionPtr → Server.Input → Type 0
LeavesSession a (Server.read_done p ec bytes) = ((p == a) && not (is_error ec)) ≡ false
LeavesSession a _ = Unit

pub received_none :
    (a : SessionPtr) (server : Server) (j : Server.Input)
    → LeavesSession a j
    → bytes_from a (received server j) ≡ []
unfolding received
received_none a server (Server.read_done p ec bytes) h = ground arith
received_none a server (Server.writes_to_all c) h = ground arith
received_none a server (Server.writes_to id c) h = ground arith
received_none a server (Server.writes_to_all_except id c) h = ground arith
received_none a server (Server.closes e) h = ground arith
received_none a server (Server.stops e) h = ground arith
received_none a server (Server.accept_done ec p) h = ground arith
received_none a server (Server.write_done p k ec) h = ground arith

pub received_read :
    (a : SessionPtr) (server : Server) (bytes : Chunk)
    → session_awaits a server ≡ true
    → bytes_from a (received server (Server.read_done a success bytes)) ≡ bytes
unfolding received
received_read a server bytes h = ground (arith, append-nil bytes)

module _ {Ip S : Type 0} (stream : Stream S) (laws : StreamLaws stream) (a : SessionPtr) where
  open laws use {in_flight}

  abbrev pub AllowedUp : Link Ip S → Input → Type 0
  AllowedUp l (client_does i) = KeepsClient i
  AllowedUp l (server_does j) = LeavesSession a j
  AllowedUp l _ = Unit

  -- The bytes given to `async_write` of the client are those of the session's packets and those on
  -- the way.
  pub record CarriedUp (l : Link Ip S) : Type 0 where
    pub sound : OneWrite l.client.writing l.client.sending_messages
    pub carried : bytes_from a l.server.packet_calls ++ in_flight l.up ≡ bytes_of l.client.written

  pub run_client-CarriedUp :
      (i : Client.Input) (l : Link Ip S) → CarriedUp l → CarriedUp (run_client stream a i l)
  run_client-CarriedUp i l h =
      let (more, e) = step-written l.client i h.sound in
      record {
        sound = step-Sound l.client i h.sound;
        carried =
            ap
              (λ new.
                bytes_from a l.server.packet_calls ++ in_flight (transmit_all stream new l.up))
              (ap (drop (length l.client.written)) e ∙ drop-append l.client.written more)
            ∙ (ap (λ xs. bytes_from a l.server.packet_calls ++ xs)
                  (transmit_all-in_flight stream laws more l.up)
                ∙ (sym (
                      append_assoc (bytes_from a l.server.packet_calls) (in_flight l.up)
                        (bytes_of more))
                    ∙ (ap (λ xs. xs ++ bytes_of more) h.carried
                        ∙ (sym (bytes_of-append l.client.written more) ∙ ap bytes_of (sym e)))));
      }

  -- A step of the server after which the session's packets have so many bytes more, and as many have
  -- left the stream.
  pub run_server-CarriedUp :
      (j : Server.Input) (l : Link Ip S) (bytes : Chunk) (up' : S)
      → bytes_from a (received l.server j) ≡ bytes
      → in_flight l.up ≡ bytes ++ in_flight up'
      → CarriedUp l
      → CarriedUp (run_server stream a j (record l { up = up' }))
  run_server-CarriedUp j l bytes up' r taken h = record {
    sound = h.sound;
    carried =
        ap (λ calls. bytes_from a calls ++ in_flight up') (step-packet_calls l.server j)
        ∙ (ap (λ xs. xs ++ in_flight up')
              (bytes_from-append a l.server.packet_calls (received l.server j)
                ∙ ap (λ xs. bytes_from a l.server.packet_calls ++ xs) r)
            ∙ (append_assoc (bytes_from a l.server.packet_calls) bytes (in_flight up')
                ∙ (ap (λ xs. bytes_from a l.server.packet_calls ++ xs) (sym taken) ∙ h.carried)));
  }

  pub step-CarriedUp :
      (l : Link Ip S) (i : Input) → AllowedUp l i → CarriedUp l → CarriedUp (step stream a l i)
  unfolding step
  step-CarriedUp l (client_does i) ok h = run_client-CarriedUp i l h
  step-CarriedUp l (server_does j) ok h =
      run_server-CarriedUp j l [] l.up (received_none a l.server j ok) refl h
  step-CarriedUp l server_reads ok h = elim (Bool-cases (session_awaits a l.server)) [
    | inr e ↦ rw e h
    | inl e ↦ elim (Option-cases (stream.receive max_buffer_size l.up)) [
      | inl none_there ↦ rw (e, none_there) h
      | inr ((bytes, up'), got) ↦
          rw (e, got)
            (run_server-CarriedUp (Server.read_done a success bytes) l bytes up'
              (received_read a l.server bytes e)
              (laws.receive-in_flight max_buffer_size l.up up' bytes got) h)
    ]
  ]
  step-CarriedUp l (client_reads k) ok h = elim (Bool-cases (client_awaits k l.client)) [
    | inr e ↦ rw e h
    | inl e ↦ elim (Option-cases (stream.receive max_buffer_size l.down)) [
      | inl none_there ↦ rw (e, none_there) h
      | inr ((bytes, down'), got) ↦
          rw (e, got)
            (run_client-CarriedUp (Client.read_done k success bytes) (record l { down = down' })
              (record { sound = h.sound; carried = h.carried }))
    ]
  ]

  pub run-CarriedUp :
      (l : Link Ip S) (is : List Input)
      → Along (step stream a) AllowedUp l is
      → CarriedUp l
      → CarriedUp (foldl (step stream a) l is)
  run-CarriedUp = foldl_inv_along CarriedUp AllowedUp (step stream a) step-CarriedUp

  abbrev pub client_flow : Link Ip S → List Chunk
  client_flow l = flow l.client.written l.client.sending_messages (chunks l.client.posted)

  -- The chunk of a call of the client's `write` that returns true.
  unfoldable pub accepted_up : Link Ip S → Input → List Chunk
  unfolding accepted
  accepted_up l (client_does i) = accepted l.client i
  accepted_up l _ = []

  pub step-client_flow :
      (l : Link Ip S) (i : Input)
      → CarriedUp l
      → client_flow (step stream a l i) ≡ client_flow l ++ accepted_up l i
  unfolding step accepted_up accepted
  step-client_flow l (client_does i) h = step-flow l.client i h.sound
  step-client_flow l (server_does j) h = sym (append-nil (client_flow l))
  step-client_flow l server_reads h = elim (Bool-cases (session_awaits a l.server)) [
    | inr e ↦ rw e (sym (append-nil (client_flow l)))
    | inl e ↦ elim (Option-cases (stream.receive max_buffer_size l.up)) [
      | inl none_there ↦ rw (e, none_there) (sym (append-nil (client_flow l)))
      | inr ((bytes, up'), got) ↦ rw (e, got) (sym (append-nil (client_flow l)))
    ]
  ]
  step-client_flow l (client_reads k) h = elim (Bool-cases (client_awaits k l.client)) [
    | inr e ↦ rw e (sym (append-nil (client_flow l)))
    | inl e ↦ elim (Option-cases (stream.receive max_buffer_size l.down)) [
      | inl none_there ↦ rw (e, none_there) (sym (append-nil (client_flow l)))
      | inr ((bytes, down'), got) ↦
          rw (e, got) (step-flow l.client (Client.read_done k success bytes) h.sound)
    ]
  ]

  pub run-client_flow :
      (l : Link Ip S) (is : List Input)
      → Along (step stream a) AllowedUp l is
      → CarriedUp l
      → client_flow (foldl (step stream a) l is)
        ≡ client_flow l ++ outputs (step stream a) accepted_up l is
  unfolding outputs
  run-client_flow l [] ok h = sym (append-nil (client_flow l))
  run-client_flow l (i ∷ is) (o, ok) h =
      run-client_flow (step stream a l i) is ok (step-CarriedUp l i o h)
      ∙ (ap (λ xs. xs ++ outputs (step stream a) accepted_up (step stream a l i) is)
            (step-client_flow l i h)
          ∙ append_assoc (client_flow l) (accepted_up l i)
              (outputs (step stream a) accepted_up (step stream a l i) is))

  -- In every run of a client and a server over one connection, from a state in which the client has
  -- written nothing: the bytes that the server's packet handler has been given with the id of the
  -- session, then those on the way, then those that the client has still to give to `async_write`, are
  -- exactly those of the chunks for which the client's `write` returned true, in the order of the calls.
  pub server_receives_accepted :
      (l : Link Ip S) (is : List Input)
      → CarriedUp l
      → client_flow l ≡ []
      → Along (step stream a) AllowedUp l is
      → let l' = foldl (step stream a) l is in
        bytes_from a l'.server.packet_calls
          ++ (in_flight l'.up
              ++ bytes_of (tail l'.client.sending_messages ++ chunks l'.client.posted))
        ≡ bytes_of (outputs (step stream a) accepted_up l is)
  server_receives_accepted l is h empty ok =
      let l' = foldl (step stream a) l is in
      let h' = run-CarriedUp l is ok h in
      let behind = tail l'.client.sending_messages ++ chunks l'.client.posted in
      sym (append_assoc (bytes_from a l'.server.packet_calls) (in_flight l'.up) (bytes_of behind))
      ∙ (ap (λ xs. xs ++ bytes_of behind) h'.carried
          ∙ (sym (bytes_of-append l'.client.written behind)
              ∙ (ap bytes_of (run-client_flow l is ok h)
                  ∙ ap (λ xs. bytes_of (xs ++ outputs (step stream a) accepted_up l is)) empty)))
