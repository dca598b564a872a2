-- ===== src/Net/Serial.antt =====
-- include/sephi/net/serial/serial.h and src/net/serial/serial.cpp: the serial port.
--
-- The record holds the members of the class and, below them, what asio has been asked to do: the
-- posted handlers in order, the operations under way, the options set on a port, and the chunks
-- given to `async_write`. The two handlers of the user are seen by the calls made to them. The
-- branch of `flush` for POSIX is modelled.
mod Sending
mod Receiving
mod Delivery
mod Opening
pub mod Settings
pub mod Handlers
mod Examples
use Prim.Native.String.{String}
use sephi.Base.{
  ℕ, ◌+◌, List, [], ◌∷◌, ◌++◌, Bool, true, false, none, some, Option, if◌then◌else◌, ◌==◌, is_empty,
  pick, tail, take, length,
}
use sephi.Net.Types.{
  Chunk, PacketBuffer, zero_buffer, ConnectionState, disconnected, connected, ErrorCode, is_error,
  success, fill, Runner, running, stopped, terminated,
}
use sephi.Net.SerialParams.{
  SerialParams, PortBase, PortOption, baud_rate_option, character_size_option, parity_option,
  stop_bits_option, flow_control_option,
}

-- The lambdas that the class posts to its `io_context_`.
pub data Task : Type 0 where
  send : Chunk → Task
  close_port : Task
  open_port : Task

pub record Serial : Type 0 where
  pub port_name : String
  pub params : SerialParams
  pub connection_state : ConnectionState
  pub port : ℕ
  pub received_data : PacketBuffer
  pub sending_messages : List Chunk
  pub runner : Runner
  pub posted : List Task
  pub reading : List ℕ
  pub writing : List Chunk
  pub written : List Chunk
  pub options : List (ℕ × PortOption)
  pub connection_calls : List (ConnectionState × ErrorCode)
  pub data_calls : List Chunk

-- What the operating system answers while one posted handler runs: to `open` or `close`, to each of
-- the five `set_option` calls, and to `tcflush`, with the `errno` that it leaves.
pub record Answers : Type 0 where
  pub port_error : ErrorCode
  pub option_errors : PortOption → ErrorCode
  pub flush_result : ℕ
  pub errno : ErrorCode

pub data Input : Type 0 where
  writes : Chunk → Input
  reopens : Input
  closes : Input
  stops : Input
  runs_posted : Answers → Input
  read_done : ℕ → ErrorCode → Chunk → Input
  write_done : ℕ → ErrorCode → Input

abbrev pub is_opened : Serial → Bool
is_opened s = elim s.connection_state [ connected ↦ true | disconnected ↦ false ]

abbrev pub are_all_messages_sent : Serial → Bool
are_all_messages_sent s = is_empty s.sending_messages

-- A port is named by its number in the order of creation.
pub do_open : Serial → Serial
do_open s = record s {
  connection_state = disconnected;
  port = s.port + 1;
  posted = s.posted ++ open_port ∷ [];
}

-- The object before the body of the constructor.
pub initial : String → SerialParams → Serial
initial port_name params = record {
  port_name = port_name;
  params = params;
  connection_state = disconnected;
  port = 0;
  received_data = zero_buffer;
  sending_messages = [];
  runner = running;
  posted = [];
  reading = [];
  writing = [];
  written = [];
  options = [];
  connection_calls = [];
  data_calls = [];
}

pub construct : String → SerialParams → Serial
unfolding initial do_open
construct port_name params = do_open (initial port_name params)

pub close : Serial → Serial
close s = record s { connection_state = disconnected; posted = s.posted ++ close_port ∷ [] }

pub reopen : Serial → Serial
unfolding close do_open
reopen s = do_open (close s)

-- The destructor: `close()`, `io_context_.stop()`, `runner_.join()`.
pub stop : Serial → Serial
unfolding close
stop s = record (close s) { runner = stopped }

-- `is_flushed = !::tcflush(...)`, and the `errno` if it is false.
pub flush : ℕ → ErrorCode → ErrorCode
flush result errno = if result == 0 then success else errno

pub write : Chunk → Serial → Serial × Bool
write chunk s =
    if is_opened s then (record s { posted = s.posted ++ send chunk ∷ [] }, true) else (s, false)

-- `front()` of an empty deque is undefined; the invariant shows that it is never taken.
start_write : List Chunk → Serial → Serial
start_write [] s = s
start_write (message ∷ _) s = record s {
  writing = s.writing ++ message ∷ [];
  written = s.written ++ message ∷ [];
}

pub do_write : Serial → Serial
unfolding start_write
do_write s = start_write s.sending_messages s

-- The lambda of `write`.
pub send_posted : Chunk → Serial → Serial
unfolding do_write
send_posted chunk s =
    let s' = record s { sending_messages = s.sending_messages ++ chunk ∷ [] } in
    if is_empty s.sending_messages then do_write s' else s'

pub call_back_connection_handler : ConnectionState → ErrorCode → Serial → Serial
call_back_connection_handler state ec s = record s {
  connection_state = state;
  connection_calls = s.connection_calls ++ (state, ec) ∷ [];
}

pub do_read : Serial → Serial
do_read s = record s { reading = s.reading ++ s.port ∷ [] }

-- `set_option` throws on an error: the later options are not set, and the thread ends.
pub set_options : List PortOption → (PortOption → ErrorCode) → Serial → Serial × Bool
set_options [] errors s = (s, true)
set_options (o ∷ os) errors s =
    let rest = set_options os errors (record s { options = s.options ++ (s.port, o) ∷ [] }) in
    if is_error (errors o) then (record s { runner = terminated }, false) else rest

-- The options of `handle_open`, in its order.
pub port_options : PortBase → SerialParams → List PortOption
port_options b p =
    baud_rate_option p
    ∷ character_size_option p
    ∷ stop_bits_option b p
    ∷ parity_option b p
    ∷ flow_control_option b p
    ∷ []

-- The end of `handle_open`, after `flush()`.
flushed : ErrorCode → Serial → Serial
unfolding call_back_connection_handler do_read
flushed err_code s =
    if is_error err_code
    then call_back_connection_handler disconnected err_code s
    else do_read (call_back_connection_handler connected err_code s)

-- The data handler is given the first `size` bytes of the buffer.
pub handle_read : ErrorCode → ℕ → Serial → Serial
unfolding call_back_connection_handler do_read
handle_read ec size s =
    if is_error ec
    then call_back_connection_handler disconnected ec s
    else do_read (record s { data_calls = s.data_calls ++ take size s.received_data ∷ [] })

pub handle_write : ErrorCode → Serial → Serial
unfolding call_back_connection_handler do_write
handle_write ec s =
    if is_error ec
    then call_back_connection_handler disconnected ec s
    else (let s' = record s { sending_messages = tail s.sending_messages } in
        if is_empty s'.sending_messages then s' else do_write s')

complete_read : Option (ℕ × List ℕ) → ErrorCode → Chunk → Serial → Serial
unfolding handle_read
complete_read none ec bytes s = s
complete_read (some (_, others)) ec bytes s =
    handle_read ec (length bytes)
      (record s { reading = others; received_data = fill bytes s.received_data })

complete_write : Option (Chunk × List Chunk) → ErrorCode → Serial → Serial
unfolding handle_write
complete_write none ec s = s
complete_write (some (_, others)) ec s = handle_write ec (record s { writing = others })

module _ (b : PortBase) where
  pub handle_open : ErrorCode → Answers → Serial → Serial
  unfolding call_back_connection_handler flush flushed
  handle_open ec a s =
      if is_error ec
      then call_back_connection_handler disconnected ec s
      else (let (s', all_set) = set_options (port_options b s.params) a.option_errors s in
          if all_set then flushed (flush a.flush_result a.errno) s' else s')

  run_task : Task → Answers → Serial → Serial
  unfolding send_posted handle_open
  run_task (send chunk) a s = send_posted chunk s
  run_task close_port a s = if is_error a.port_error then record s { runner = terminated } else s
  run_task open_port a s = handle_open a.port_error a s

  pub run_posted : Answers → Serial → Serial
  unfolding run_task
  run_posted a s = elim s.posted [ [] ↦ s | t ∷ ts ↦ run_task t a (record s { posted = ts }) ]

  dispatch : Input → Serial → Serial
  unfolding write reopen close stop run_posted complete_read complete_write
  dispatch (writes chunk) s = (write chunk s).0
  dispatch reopens s = reopen s
  dispatch closes s = close s
  dispatch stops s = stop s
  dispatch (runs_posted a) s = run_posted a s
  dispatch (read_done i ec bytes) s = complete_read (pick i s.reading) ec bytes s
  dispatch (write_done i ec) s = complete_write (pick i s.writing) ec s

  pub step : Serial → Input → Serial
  unfolding dispatch
  step s i = elim s.runner [ running ↦ dispatch i s | stopped ↦ s | terminated ↦ s ]
