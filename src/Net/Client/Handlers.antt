-- ===== src/Net/Client/Handlers.antt =====
-- The client of src/net/tcp/client/client.cpp with handlers of the user that call it back.
--
-- What a handler does when it is called is up to the user: an input names the calls of the client
-- that the handlers make in it, in order. They run inside of the client's own handler, where
-- `connection_handler_` or `packet_handler_` is called. An exception of `reconnect` is caught by the
-- handler that called it.
pub mod Sequential
pub mod Reconnecting
mod Examples
use sephi.Base.{
  ℕ, List, [], ◌∷◌, ◌++◌, Bool, true, false, Option, none, some, if◌then◌else◌, pick, take, tail,
  length, is_empty, foldl,
}
use sephi.Net.Types.{
  Chunk, ConnectionState, connected, disconnected, ErrorCode, is_error, fill, running, stopped,
  terminated,
}
use sephi.Net.Client
use sephi.Net.Client.{
  Client, Input, writes, reconnects, closes, stops, runs_posted, connect_done, read_done,
  write_done, write, reconnect, close, do_read, do_write,
}

-- A call of a method from a handler.
pub data Call : Type 0 where
  calls_write : Chunk → Call
  calls_close : Call
  calls_reconnect : ErrorCode → Call

module _ {Ip : Type 0} where
  call : Client Ip → Call → Client Ip
  unfolding write close reconnect
  call c (calls_write chunk) = (write chunk c).0
  call c calls_close = close c
  call c (calls_reconnect ec) = reconnect ec c

  pub call_back_connection_handler : ConnectionState → ErrorCode → List Call → Client Ip → Client Ip
  unfolding call Client.call_back_connection_handler
  call_back_connection_handler state ec calls c =
      foldl call (Client.call_back_connection_handler state ec c) calls

  pub handle_connect : ErrorCode → List Call → Client Ip → Client Ip
  unfolding call_back_connection_handler do_read
  handle_connect ec calls c =
      if is_error ec
      then call_back_connection_handler disconnected ec calls c
      else do_read (call_back_connection_handler connected ec calls c)

  pub handle_read : ErrorCode → ℕ → List Call → Client Ip → Client Ip
  unfolding call call_back_connection_handler do_read
  handle_read ec size calls c =
      if is_error ec
      then call_back_connection_handler disconnected ec calls c
      else do_read (
          foldl call
            (record c { packet_calls = c.packet_calls ++ take size c.received_packet ∷ [] }) calls)

  pub handle_write : ErrorCode → List Call → Client Ip → Client Ip
  unfolding call_back_connection_handler do_write
  handle_write ec calls c =
      if is_error ec
      then call_back_connection_handler disconnected ec calls c
      else (let c' = record c { sending_messages = tail c.sending_messages } in
          if is_empty c'.sending_messages then c' else do_write c')

  complete_connect : Option (ℕ × List ℕ) → ErrorCode → List Call → Client Ip → Client Ip
  unfolding handle_connect
  complete_connect none ec calls c = c
  complete_connect (some (_, others)) ec calls c =
      handle_connect ec calls (record c { connecting = others })

  complete_read : Option (ℕ × List ℕ) → ErrorCode → Chunk → List Call → Client Ip → Client Ip
  unfolding handle_read
  complete_read none ec bytes calls c = c
  complete_read (some (_, others)) ec bytes calls c =
      handle_read ec (length bytes) calls
        (record c { reading = others; received_packet = fill bytes c.received_packet })

  complete_write : Option (Chunk × List Chunk) → ErrorCode → List Call → Client Ip → Client Ip
  unfolding handle_write
  complete_write none ec calls c = c
  complete_write (some (_, others)) ec calls c =
      handle_write ec calls (record c { writing = others })

  dispatch : Input → List Call → Client Ip → Client Ip
  unfolding complete_connect complete_read complete_write Client.step
  dispatch (connect_done i ec) calls c = complete_connect (pick i c.connecting) ec calls c
  dispatch (read_done i ec bytes) calls c = complete_read (pick i c.reading) ec bytes calls c
  dispatch (write_done i ec) calls c = complete_write (pick i c.writing) ec calls c
  dispatch i calls c = Client.step c i

  -- The calls count only where the step calls a handler.
  pub step : Client Ip → Input × List Call → Client Ip
  unfolding dispatch
  step c (i, calls) = elim c.runner [ running ↦ dispatch i calls c | stopped ↦ c | terminated ↦ c ]
