-- ===== src/Net/Link.antt =====
-- A client of src/net/tcp/client/client.cpp connected to a session of a server of
-- src/net/tcp/server/server.cpp: the two endpoints and the two directions of their connection.
--
-- What an endpoint gives to `async_write` goes into the stream of its direction; a read that completes
-- without an error takes its bytes from the stream of the other. All else that can happen to the two,
-- other sessions of the server included, happens as in their own models.
mod Upstream
mod Downstream
mod Arrival
mod Echo
mod Examples
use sephi.Base.{
  ℕ, zero, suc, List, [], ◌∷◌, drop, length, Bool, true, false, Option, none, some, if◌then◌else◌,
  pick,
}
use sephi.Net.Types.{Chunk, success, max_buffer_size, running, stopped, terminated}
use sephi.Net.SessionMap.{SessionPtr}
use sephi.Net.Client
use sephi.Net.Client.{Client}
use sephi.Net.Server
use sephi.Net.Server.{Server}
use sephi.Net.Stream.{Stream, transmit_all}

pub record Link (Ip S : Type 0) : Type 0 where
  pub client : Client Ip
  pub server : Server
  pub up : S
  pub down : S

pub data Input : Type 0 where
  client_does : Client.Input → Input
  server_does : Server.Input → Input
  server_reads : Input
  client_reads : ℕ → Input

-- Whether a read of the session is under way.
abbrev pub session_awaits : SessionPtr → Server → Bool
session_awaits a server = elim server.runner [
  | running ↦ elim (server.heap a).reading [ zero ↦ false | suc _ ↦ true ]
  | stopped ↦ false
  | terminated ↦ false
]

abbrev pub client_awaits : {Ip : Type 0} → ℕ → Client Ip → Bool
client_awaits k client = elim client.runner [
  | running ↦ elim (pick k client.reading) [ none ↦ false | some _ ↦ true ]
  | stopped ↦ false
  | terminated ↦ false
]

module _ {Ip S : Type 0} (stream : Stream S) (a : SessionPtr) where
  abbrev pub run_client : Client.Input → Link Ip S → Link Ip S
  run_client i l =
      let client' = Client.step l.client i in
      record l {
        client = client';
        up = transmit_all stream (drop (length l.client.written) client'.written) l.up;
      }

  abbrev pub run_server : Server.Input → Link Ip S → Link Ip S
  run_server j l =
      let server' = Server.step l.server j in
      record l {
        server = server';
        down =
            transmit_all stream (drop (length (l.server.heap a).written) (server'.heap a).written)
              l.down;
      }

  pub server_read : Option (Chunk × S) → Link Ip S → Link Ip S
  server_read none l = l
  server_read (some (bytes, up')) l =
      run_server (Server.read_done a success bytes) (record l { up = up' })

  pub client_read : ℕ → Option (Chunk × S) → Link Ip S → Link Ip S
  client_read k none l = l
  client_read k (some (bytes, down')) l =
      run_client (Client.read_done k success bytes) (record l { down = down' })

  unfoldable pub step : Link Ip S → Input → Link Ip S
  unfolding server_read client_read
  step l (client_does i) = run_client i l
  step l (server_does j) = run_server j l
  step l server_reads =
      if session_awaits a l.server then server_read (stream.receive max_buffer_size l.up) l else l
  step l (client_reads k) =
      if client_awaits k l.client
      then client_read k (stream.receive max_buffer_size l.down) l
      else l
