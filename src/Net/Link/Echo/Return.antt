-- ===== src/Net/Link/Echo/Return.antt =====
-- What comes back to a client from a server that echoes.
use sephi.Base.{
  ◌≡◌, ◌∙◌, ap, sym, refl, ℕ, inl, inr, List, [], ◌∷◌, ◌++◌, tail, foldl, All, outputs, Bool-cases,
  true, Option, Option-cases, none, some, arith, append-nil, append_assoc,
}
use sephi.Net.Types.{Chunk, success, max_buffer_size}
use sephi.Net.SessionMap.{SessionPtr}
use sephi.Net.Client
use sephi.Net.Client.{Client}
use sephi.Net.Client.Sending.{chunks, accepted}
use sephi.Net.Server
use sephi.Net.Server.{Server}
use sephi.Net.Server.Invariant.{Inv}
use sephi.Net.Stream.{drop_all, Stream, StreamLaws, bytes_of, bytes_of-append}
use sephi.Net.Link
use sephi.Net.Link.{Link, session_awaits, client_awaits, run_server}
use sephi.Net.Link.Upstream as Up
use sephi.Net.Link.Upstream.{
  KeepsClient, bytes_from, bytes_from-append, CarriedUp, run_server-CarriedUp, step-CarriedUp,
  received_read, client_flow,
}
use sephi.Net.Link.Downstream.{LeavesClient, CarriedDown, run_server-CarriedDown, step-CarriedDown}
use sephi.Net.Link.Echo.{
  Input, client_does, client_reads, session_writes, server_echoes, echo, step,
}
use sephi.Net.Link.Echo.Session.{handled, written_read, Echoes, done-Echoes, echo-Echoes}

-- The client keeps its connection, and its reads are `client_reads`.
abbrev pub IsGentle : Input → Type 0
IsGentle (client_does i) = LeavesClient i
IsGentle _ = Unit

LeavesClient-KeepsClient : (i : Client.Input) → LeavesClient i → KeepsClient i
LeavesClient-KeepsClient (Client.reconnects ec) h = h
LeavesClient-KeepsClient (Client.read_done k ec bytes) h = tt
LeavesClient-KeepsClient (Client.writes m) h = tt
LeavesClient-KeepsClient Client.closes h = tt
LeavesClient-KeepsClient Client.stops h = tt
LeavesClient-KeepsClient (Client.runs_posted ec) h = tt
LeavesClient-KeepsClient (Client.connect_done k ec) h = tt
LeavesClient-KeepsClient (Client.write_done k ec) h = tt

module _ {Ip S : Type 0} (stream : Stream S) (laws : StreamLaws stream) (a : SessionPtr) where
  open laws use {in_flight}

  echo_twice :
      (l : Link Ip S) (bytes : Chunk) (up' : S)
      → session_awaits a l.server ≡ true
      → Inv l.server
      → echo stream a (some (bytes, up')) l
        ≡ run_server stream a
            (Server.writes_to a bytes)
            (run_server stream a (Server.read_done a success bytes) (record l { up = up' }))
  unfolding echo
  echo_twice l bytes up' waits v = ground (
    arith,
    handled a l.server bytes waits v,
    written_read a l.server bytes,
    drop_all (l.server.heap a).written,
  )

  -- What holds of the two between steps.
  pub record Echoing (l : Link Ip S) : Type 0 where
    pub upward : CarriedUp stream laws a l
    pub downward : CarriedDown stream laws a l
    pub echoes : Echoes a l.server

  reads-server :
      (l : Link Ip S) (k : ℕ) → (Link.step stream a l (Link.client_reads k)).server ≡ l.server
  unfolding Link.step
  reads-server l k = elim (Bool-cases (client_awaits k l.client)) [
    | inr e ↦ rw e refl
    | inl e ↦ elim (Option-cases (stream.receive max_buffer_size l.down)) [
      | inl none_there ↦ rw (e, none_there) refl
      | inr ((bytes, down'), got) ↦ rw (e, got) refl
    ]
  ]

  echo-Echoing :
      (l : Link Ip S) (bytes : Chunk) (up' : S)
      → session_awaits a l.server ≡ true
      → in_flight l.up ≡ bytes ++ in_flight up'
      → Echoing l
      → Echoing (echo stream a (some (bytes, up')) l)
  unfolding Link.step
  echo-Echoing l bytes up' waits taken h =
      let rd = Server.read_done a success bytes in
      let wr = Server.writes_to a bytes in
      let l1 = run_server stream a rd (record l { up = up' }) in
      let upward1 =
        run_server-CarriedUp stream laws a rd l bytes up' (received_read a l.server bytes waits)
          taken h.upward in
      let downward0 : CarriedDown stream laws a (record l { up = up' }) = record {
        inv = h.downward.inv;
        carried = h.downward.carried;
      } in
      let downward1 =
        run_server-CarriedDown stream laws a rd (record l { up = up' }) tt tt downward0 in
      rw (echo_twice l bytes up' waits h.downward.inv) (record {
        upward = step-CarriedUp stream laws a l1 (Link.server_does wr) tt upward1;
        downward = run_server-CarriedDown stream laws a wr l1 tt tt downward1;
        echoes = echo-Echoes a l.server bytes waits h.downward.inv h.echoes;
      })

  pub step-Echoing :
      (l : Link Ip S) (i : Input) → IsGentle i → Echoing l → Echoing (step stream a l i)
  unfolding step
  step-Echoing l (client_does i) ok h = record {
    upward =
        step-CarriedUp stream laws a l (Link.client_does i) (LeavesClient-KeepsClient i ok)
          h.upward;
    downward = step-CarriedDown stream laws a l (Link.client_does i) ok h.downward;
    echoes = unfold Link.step in h.echoes;
  }
  step-Echoing l (client_reads k) ok h = record {
    upward = step-CarriedUp stream laws a l (Link.client_reads k) tt h.upward;
    downward = step-CarriedDown stream laws a l (Link.client_reads k) tt h.downward;
    echoes = rw (reads-server l k) h.echoes;
  }
  step-Echoing l (session_writes k) ok h =
      let j = Link.server_does (Server.write_done a k success) in
      record {
        upward = step-CarriedUp stream laws a l j tt h.upward;
        downward = step-CarriedDown stream laws a l j (tt, tt) h.downward;
        echoes = unfold Link.step in done-Echoes a k l.server h.downward.inv h.echoes;
      }
  step-Echoing l server_echoes ok h = elim (Bool-cases (session_awaits a l.server)) [
    | inr e ↦ rw e h
    | inl e ↦ elim (Option-cases (stream.receive max_buffer_size l.up)) [
      | inl none_there ↦ rw (e, none_there) (unfold echo in h)
      | inr ((bytes, up'), got) ↦
          rw (e, got)
            (echo-Echoing l bytes up' e (laws.receive-in_flight max_buffer_size l.up up' bytes got)
              h)
    ]
  ]

  -- The chunk of a call of the client's `write` that returns true.
  unfoldable pub accepted_from : Link Ip S → Input → List Chunk
  accepted_from l (client_does i) = accepted l.client i
  accepted_from l _ = []

  echo-client_flow :
      (r : Option (Chunk × S)) (l : Link Ip S)
      → client_flow stream laws a (echo stream a r l) ≡ client_flow stream laws a l
  unfolding echo
  echo-client_flow none l = refl
  echo-client_flow (some (bytes, up')) l = refl

  step-client_flow :
      (l : Link Ip S) (i : Input)
      → Echoing l
      → client_flow stream laws a (step stream a l i)
        ≡ client_flow stream laws a l ++ accepted_from l i
  unfolding step accepted_from Up.accepted_up
  step-client_flow l (client_does i) h =
      Up.step-client_flow stream laws a l (Link.client_does i) h.upward
  step-client_flow l (client_reads k) h =
      Up.step-client_flow stream laws a l (Link.client_reads k) h.upward
  step-client_flow l (session_writes k) h =
      Up.step-client_flow stream laws a l (Link.server_does (Server.write_done a k success))
        h.upward
  step-client_flow l server_echoes h = elim (Bool-cases (session_awaits a l.server)) [
    | inr e ↦ rw e (sym (append-nil (client_flow stream laws a l)))
    | inl e ↦ rw e (
        echo-client_flow (stream.receive max_buffer_size l.up) l
        ∙ sym (append-nil (client_flow stream laws a l)))
  ]

  pub run-Echoing :
      (l : Link Ip S) (is : List Input)
      → All IsGentle is
      → Echoing l
      → Echoing (foldl (step stream a) l is)
        × (client_flow stream laws a (foldl (step stream a) l is)
            ≡ client_flow stream laws a l ++ outputs (step stream a) accepted_from l is)
  unfolding outputs
  run-Echoing l [] ok h = (h, sym (append-nil (client_flow stream laws a l)))
  run-Echoing l (i ∷ is) (o, ok) h =
      let (h', e) = run-Echoing (step stream a l i) is ok (step-Echoing l i o h) in
      (
        h',
        e
            ∙ (ap (λ xs. xs ++ outputs (step stream a) accepted_from (step stream a l i) is)
                  (step-client_flow l i h)
                ∙ append_assoc (client_flow stream laws a l) (accepted_from l i)
                    (outputs (step stream a) accepted_from (step stream a l i) is)),
      )

  -- All that was accepted is somewhere on the way round, in order.
  pub accounts :
      (l : Link Ip S)
      → Echoing l
      → bytes_of l.client.packet_calls
          ++ (in_flight l.down
              ++ (bytes_of (tail (l.server.heap a).sending_messages)
                  ++ (in_flight l.up
                      ++ bytes_of (tail l.client.sending_messages ++ chunks l.client.posted))))
        ≡ bytes_of (client_flow stream laws a l)
  accounts l h =
      let got = bytes_of l.client.packet_calls in
      let session = l.server.heap a in
      let behind = tail session.sending_messages in
      let later = tail l.client.sending_messages ++ chunks l.client.posted in
      let rest = in_flight l.up ++ bytes_of later in
      let given : (got ++ in_flight l.down) ++ bytes_of behind
          ≡ bytes_from a l.server.packet_calls =
        ap (λ xs. xs ++ bytes_of behind) h.downward.carried
        ∙ (sym (bytes_of-append session.written behind)
            ∙ (ap (λ xs. bytes_of (session.written ++ xs)) (sym (append-nil behind))
                ∙ h.echoes.echoed)) in
      let taken : bytes_from a l.server.packet_calls ++ rest
          ≡ bytes_of (client_flow stream laws a l) =
        sym (append_assoc (bytes_from a l.server.packet_calls) (in_flight l.up) (bytes_of later))
        ∙ (ap (λ xs. xs ++ bytes_of later) h.upward.carried
            ∙ sym (bytes_of-append l.client.written later)) in
      sym (append_assoc got (in_flight l.down) (bytes_of behind ++ rest))
      ∙ (sym (append_assoc (got ++ in_flight l.down) (bytes_of behind) rest)
          ∙ (ap (λ xs. xs ++ rest) given ∙ taken))

  -- In every run of a client and a server that echoes, over one connection and from a state in which
  -- the client has written nothing and the session is in the map and has been given what its packets
  -- were, in which the client does not reconnect, the server does nothing else, and no write of the
  -- session fails: the bytes that the client's packet handler has been given, then those on the way
  -- back, those that the session has still to give to `async_write`, those on the way to the server,
  -- and those that the client has still to give to `async_write`, are exactly those of the chunks for
  -- which the client's `write` returned true, in the order of the calls.
  pub echo_returns_accepted :
      (l : Link Ip S) (is : List Input)
      → Echoing l
      → client_flow stream laws a l ≡ []
      → All IsGentle is
      → let l' = foldl (step stream a) l is in
        bytes_of l'.client.packet_calls
          ++ (in_flight l'.down
              ++ (bytes_of (tail (l'.server.heap a).sending_messages)
                  ++ (in_flight l'.up
                      ++ bytes_of (tail l'.client.sending_messages ++ chunks l'.client.posted))))
        ≡ bytes_of (outputs (step stream a) accepted_from l is)
  echo_returns_accepted l is h empty ok =
      let (h', sent) = run-Echoing l is ok h in
      accounts (foldl (step stream a) l is) h'
      ∙ ap bytes_of (sent ∙ ap (λ xs. xs ++ outputs (step stream a) accepted_from l is) empty)
