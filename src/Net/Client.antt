-- ===== src/Net/Client.antt =====
-- include/sephi/net/tcp/client/client.h and src/net/tcp/client/client.cpp: the TCP client.
--
-- The record holds the members of the class and, below them, what asio has been asked to do: the
-- posted handlers in order, the operations under way, and the chunks given to `async_write`. The
-- two handlers of the user are seen by the calls made to them.
pub mod Sending
mod Examples
mod Lifecycle
pub mod Receiving
pub mod Draining
mod Handlers
use mathlib.Core.Option
use sephi.Base.{ℕ, ◌+◌, List, [], ◌∷◌, ◌++◌, Bool, true, false, none, some, Option}
use sephi.Base.{if◌then◌else◌, is_empty, pick, tail, take, length}
use sephi.Net.Types.{Chunk, PacketBuffer, zero_buffer, ConnectionState, disconnected, connected}
use sephi.Net.Types.{ErrorCode, is_error, fill, Remote, Endpoint, endpoint_of}
use sephi.Net.Types.{Runner, running, stopped, terminated}

-- The lambdas that the class posts to its `io_context_`.
pub data Task : Type 0 where
  send : Chunk → Task
  shut_down : Task

pub record Client (Ip : Type 0) : Type 0 where
  pub connection_state : ConnectionState
  pub endpoint : Endpoint Ip
  pub socket : ℕ
  pub received_packet : PacketBuffer
  pub sending_messages : List Chunk
  pub runner : Runner
  pub posted : List Task
  pub connecting : List ℕ
  pub reading : List ℕ
  pub writing : List Chunk
  pub written : List Chunk
  pub connection_calls : List (ConnectionState × ErrorCode)
  pub packet_calls : List Chunk

-- What the user, the runner thread and the network do next. A completion names the operation by
-- its position among those under way; a posted handler takes the outcome of what it calls.
pub data Input : Type 0 where
  writes : Chunk → Input
  reconnects : ErrorCode → Input
  closes : Input
  stops : Input
  runs_posted : ErrorCode → Input
  connect_done : ℕ → ErrorCode → Input
  read_done : ℕ → ErrorCode → Chunk → Input
  write_done : ℕ → ErrorCode → Input

module _ {Ip : Type 0} where
  abbrev pub is_connected : Client Ip → Bool
  is_connected c = elim c.connection_state [ connected ↦ true | disconnected ↦ false ]

  abbrev pub are_all_messages_sent : Client Ip → Bool
  are_all_messages_sent c = is_empty c.sending_messages

  -- A socket is named by its number in the order of creation.
  unfoldable pub do_connect : Client Ip → Client Ip
  do_connect c = record c {
    connection_state = disconnected;
    socket = c.socket + 1;
    connecting = c.connecting ++ (c.socket + 1) ∷ [];
  }

  -- The object before the body of the constructor.
  unfoldable pub initial : Endpoint Ip → Client Ip
  initial e = record {
    connection_state = disconnected;
    endpoint = e;
    socket = 0;
    received_packet = zero_buffer;
    sending_messages = [];
    runner = running;
    posted = [];
    connecting = [];
    reading = [];
    writing = [];
    written = [];
    connection_calls = [];
    packet_calls = [];
  }

  -- `none`: the address is refused, and no object is made.
  pub construct : {Address : Type 0} → (Address → Option Ip) → Remote Address → Option (Client Ip)
  unfolding initial do_connect
  construct make_address r = Option.map (λ e. do_connect (initial e)) (endpoint_of make_address r)

  -- `socket_->close()` throws on an error, and the exception reaches the caller.
  pub reconnect : ErrorCode → Client Ip → Client Ip
  unfolding do_connect
  reconnect ec c = if is_error ec then c else do_connect c

  pub close : Client Ip → Client Ip
  close c =
      if is_connected c
      then record c { connection_state = disconnected; posted = c.posted ++ shut_down ∷ [] }
      else c

  -- The destructor: `close()`, `io_context_.stop()`, `runner_.join()`.
  pub stop : Client Ip → Client Ip
  unfolding close
  stop c = record (close c) { runner = stopped }

  pub write : Chunk → Client Ip → Client Ip × Bool
  write chunk c =
      if is_connected c
      then (record c { posted = c.posted ++ send chunk ∷ [] }, true)
      else (c, false)

  -- `front()` of an empty deque is undefined; the invariant shows that it is never taken.
  start_write : List Chunk → Client Ip → Client Ip
  start_write [] c = c
  start_write (message ∷ _) c = record c {
    writing = c.writing ++ message ∷ [];
    written = c.written ++ message ∷ [];
  }

  pub do_write : Client Ip → Client Ip
  unfolding start_write
  do_write c = start_write c.sending_messages c

  -- The lambda of `write`.
  pub send_posted : Chunk → Client Ip → Client Ip
  unfolding do_write
  send_posted chunk c =
      let c' = record c { sending_messages = c.sending_messages ++ chunk ∷ [] } in
      if is_empty c.sending_messages then do_write c' else c'

  run_task : Task → ErrorCode → Client Ip → Client Ip
  unfolding send_posted
  run_task (send chunk) ec c = send_posted chunk c
  run_task shut_down ec c = if is_error ec then record c { runner = terminated } else c

  pub run_posted : ErrorCode → Client Ip → Client Ip
  unfolding run_task
  run_posted ec c = elim c.posted [ [] ↦ c | t ∷ ts ↦ run_task t ec (record c { posted = ts }) ]

  pub call_back_connection_handler : ConnectionState → ErrorCode → Client Ip → Client Ip
  call_back_connection_handler state ec c = record c {
    connection_state = state;
    connection_calls = c.connection_calls ++ (state, ec) ∷ [];
  }

  pub do_read : Client Ip → Client Ip
  do_read c = record c { reading = c.reading ++ c.socket ∷ [] }

  pub handle_connect : ErrorCode → Client Ip → Client Ip
  unfolding call_back_connection_handler do_read
  handle_connect ec c =
      if is_error ec
      then call_back_connection_handler disconnected ec c
      else do_read (call_back_connection_handler connected ec c)

  -- The packet handler is given the first `size` bytes of the buffer.
  pub handle_read : ErrorCode → ℕ → Client Ip → Client Ip
  unfolding call_back_connection_handler do_read
  handle_read ec size c =
      if is_error ec
      then call_back_connection_handler disconnected ec c
      else do_read (record c { packet_calls = c.packet_calls ++ take size c.received_packet ∷ [] })

  pub handle_write : ErrorCode → Client Ip → Client Ip
  unfolding call_back_connection_handler do_write
  handle_write ec c =
      if is_error ec
      then call_back_connection_handler disconnected ec c
      else (let c' = record c { sending_messages = tail c.sending_messages } in
          if is_empty c'.sending_messages then c' else do_write c')

  complete_connect : Option (ℕ × List ℕ) → ErrorCode → Client Ip → Client Ip
  unfolding handle_connect
  complete_connect none ec c = c
  complete_connect (some (_, others)) ec c = handle_connect ec (record c { connecting = others })

  complete_read : Option (ℕ × List ℕ) → ErrorCode → Chunk → Client Ip → Client Ip
  unfolding handle_read
  complete_read none ec bytes c = c
  complete_read (some (_, others)) ec bytes c =
      handle_read ec (length bytes)
        (record c { reading = others; received_packet = fill bytes c.received_packet })

  complete_write : Option (Chunk × List Chunk) → ErrorCode → Client Ip → Client Ip
  unfolding handle_write
  complete_write none ec c = c
  complete_write (some (_, others)) ec c = handle_write ec (record c { writing = others })

  dispatch : Input → Client Ip → Client Ip
  unfolding write reconnect close stop run_posted complete_connect complete_read complete_write
  dispatch (writes chunk) c = (write chunk c).0
  dispatch (reconnects ec) c = reconnect ec c
  dispatch closes c = close c
  dispatch stops c = stop c
  dispatch (runs_posted ec) c = run_posted ec c
  dispatch (connect_done i ec) c = complete_connect (pick i c.connecting) ec c
  dispatch (read_done i ec bytes) c = complete_read (pick i c.reading) ec bytes c
  dispatch (write_done i ec) c = complete_write (pick i c.writing) ec c

  unfoldable pub step : Client Ip → Input → Client Ip
  unfolding dispatch
  step c i = elim c.runner [ running ↦ dispatch i c | stopped ↦ c | terminated ↦ c ]
