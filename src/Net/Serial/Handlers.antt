-- ===== src/Net/Serial/Handlers.antt =====
-- The serial port of src/net/serial/serial.cpp with handlers of the user that call it back.
--
-- As in Net/Client/Handlers.antt, an input names the calls that the handlers of the user make in it,
-- in order, from inside of the port's own handler. The one that opens the port runs in a posted
-- lambda.
pub mod Calls
pub mod Opening
pub mod Sequential
pub mod Reopening
mod Examples
use sephi.Base.{
  ℕ, List, [], ◌∷◌, ◌++◌, Bool, true, false, Option, none, some, if◌then◌else◌, pick, take, tail,
  length, is_empty, foldl,
}
use sephi.Net.Types.{
  Chunk, ConnectionState, connected, disconnected, ErrorCode, is_error, fill, running, stopped,
  terminated,
}
use sephi.Net.SerialParams.{PortBase}
use sephi.Net.Serial
use sephi.Net.Serial.{
  Serial, Answers, Task, send, close_port, open_port, Input, writes, reopens, closes, stops,
  runs_posted, read_done, write_done, write, reopen, close, do_read, do_write, set_options,
  port_options, flush, send_posted,
}

-- A call of a method from a handler.
pub data Call : Type 0 where
  calls_write : Chunk → Call
  calls_close : Call
  calls_reopen : Call

pub call : Serial → Call → Serial
unfolding write close reopen
call s (calls_write chunk) = (write chunk s).0
call s calls_close = close s
call s calls_reopen = reopen s

pub call_back_connection_handler : ConnectionState → ErrorCode → List Call → Serial → Serial
unfolding call Serial.call_back_connection_handler
call_back_connection_handler state ec calls s =
    foldl call (Serial.call_back_connection_handler state ec s) calls

-- The end of `handle_open`, after `flush()`.
flushed : ErrorCode → List Call → Serial → Serial
unfolding call_back_connection_handler do_read
flushed err_code calls s =
    if is_error err_code
    then call_back_connection_handler disconnected err_code calls s
    else do_read (call_back_connection_handler connected err_code calls s)

pub handle_read : ErrorCode → ℕ → List Call → Serial → Serial
unfolding call call_back_connection_handler do_read
handle_read ec size calls s =
    if is_error ec
    then call_back_connection_handler disconnected ec calls s
    else do_read (
        foldl call (record s { data_calls = s.data_calls ++ take size s.received_data ∷ [] }) calls)

pub handle_write : ErrorCode → List Call → Serial → Serial
unfolding call_back_connection_handler do_write
handle_write ec calls s =
    if is_error ec
    then call_back_connection_handler disconnected ec calls s
    else (let s' = record s { sending_messages = tail s.sending_messages } in
        if is_empty s'.sending_messages then s' else do_write s')

complete_read : Option (ℕ × List ℕ) → ErrorCode → Chunk → List Call → Serial → Serial
unfolding handle_read
complete_read none ec bytes calls s = s
complete_read (some (_, others)) ec bytes calls s =
    handle_read ec (length bytes) calls
      (record s { reading = others; received_data = fill bytes s.received_data })

complete_write : Option (Chunk × List Chunk) → ErrorCode → List Call → Serial → Serial
unfolding handle_write
complete_write none ec calls s = s
complete_write (some (_, others)) ec calls s = handle_write ec calls (record s { writing = others })

module _ (b : PortBase) where
  pub handle_open : ErrorCode → Answers → List Call → Serial → Serial
  unfolding call_back_connection_handler flush flushed
  handle_open ec a calls s =
      if is_error ec
      then call_back_connection_handler disconnected ec calls s
      else (let (s', all_set) = set_options (port_options b s.params) a.option_errors s in
          if all_set then flushed (flush a.flush_result a.errno) calls s' else s')

  run_task : Task → Answers → List Call → Serial → Serial
  unfolding send_posted handle_open
  run_task (send chunk) a calls s = send_posted chunk s
  run_task close_port a calls s =
      if is_error a.port_error then record s { runner = terminated } else s
  run_task open_port a calls s = handle_open a.port_error a calls s

  pub run_posted : Answers → List Call → Serial → Serial
  unfolding run_task
  run_posted a calls s = elim s.posted [
    | [] ↦ s
    | t ∷ ts ↦ run_task t a calls (record s { posted = ts })
  ]

  dispatch : Input → List Call → Serial → Serial
  unfolding run_posted complete_read complete_write Serial.step
  dispatch (runs_posted a) calls s = run_posted a calls s
  dispatch (read_done i ec bytes) calls s = complete_read (pick i s.reading) ec bytes calls s
  dispatch (write_done i ec) calls s = complete_write (pick i s.writing) ec calls s
  dispatch i calls s = Serial.step b s i

  -- The calls count only where the step calls a handler.
  pub step : Serial → Input × List Call → Serial
  unfolding dispatch
  step s (i, calls) = elim s.runner [ running ↦ dispatch i calls s | stopped ↦ s | terminated ↦ s ]
