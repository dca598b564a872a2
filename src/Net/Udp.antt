-- ===== src/Net/Udp.antt =====
-- include/sephi/net/udp/udp.h and src/net/udp/udp.cpp: the UDP endpoint.
--
-- The record holds the members of the class and, below them, what asio has been asked to do. The
-- socket, the addresses and the broadcast address are asio's and the system's: a parameter,
-- `SocketOps`. The two handlers of the user are seen by the calls made to them. A chunk is sent as it
-- was when `write_to` was called, which Net/Udp/Buffers.antt shows to hold for callers that keep it.
mod Reading
mod Writing
mod Network
mod Handlers
mod Buffers
mod Examples
use sephi.Base.{
  ℕ, zero, suc, ◌+◌, ◌-◌, ◌%◌, ◌^◌, List, [], ◌∷◌, ◌++◌, Bool, true, false, none, some, Option,
  if◌then◌else◌, ◌==◌, pick, length, ◌&&◌,
}
use sephi.Net.Types.{
  Chunk, ErrorCode, is_error, Remote, Endpoint, endpoint_of, Runner, running, stopped, terminated,
}

-- What the blocking call of `receive_from` comes to: a datagram with its sender and the socket that
-- is left, no datagram to wait for, or an exception.
pub data Receipt (Sock Ip : Type 0) : Type 0 where
  got : Endpoint Ip → Chunk → Sock → Receipt Sock Ip
  blocks : Receipt Sock Ip
  throws : ErrorCode → Receipt Sock Ip

pub record SocketOps (Sock Ip Address : Type 0) : Type 0 where
  pub available : Sock → ℕ
  pub receive_from : Sock → ℕ → Receipt Sock Ip
  pub make_address : Address → Option Ip
  pub to_string : Ip → Address
  pub broadcast_ip : Ip

-- What the loop of `handle_read` comes to. `out_of_fuel` is none of the program's ends: the fuel is
-- shown to suffice.
pub data LoopEnd : Type 0 where
  finished blocked threw out_of_fuel : LoopEnd

pub record Udp (Sock Ip Address : Type 0) : Type 0 where
  pub socket : Sock
  pub sender_ep : Endpoint Ip
  pub runner : Runner
  pub is_blocked : Bool
  pub reading : ℕ
  pub sending : List (Endpoint Ip)
  pub sent : List (Endpoint Ip × Chunk)
  pub shutdowns : ℕ
  pub error_calls : List (Remote Address × ErrorCode)
  pub message_calls : List (Remote Address × Chunk)

-- What the user, the runner thread and the network do next. A read that completes finds the socket
-- as the network has left it.
pub data Input (Sock Ip Address : Type 0) : Type 0 where
  writes_to : Remote Address → Chunk → Input Sock Ip Address
  broadcasts : ℕ → Chunk → Input Sock Ip Address
  closes : Input Sock Ip Address
  stops : Input Sock Ip Address
  runs_posted : ErrorCode → Input Sock Ip Address
  read_done : ErrorCode → Sock → Input Sock Ip Address
  write_done : ℕ → ErrorCode → Input Sock Ip Address

-- `available -= read` on `size_t`.
abbrev pub sub64 : ℕ → ℕ → ℕ
sub64 a b = (a + 2 ^ 64 - b) % 2 ^ 64

-- The inputs that the runner thread takes: none while a blocking call holds it.
abbrev by_runner : {Sock Ip Address : Type 0} → Input Sock Ip Address → Bool
by_runner (writes_to remote chunk) = false
by_runner (broadcasts port chunk) = false
by_runner closes = false
by_runner stops = false
by_runner _ = true

module _ {Sock Ip Address : Type 0} (ops : SocketOps Sock Ip Address) where
  open ops use {available, receive_from, make_address, to_string, broadcast_ip}

  pub to_remote : Endpoint Ip → Remote Address
  to_remote ep = record { address = to_string ep.ip; port = ep.port }

  pub do_read : Udp Sock Ip Address → Udp Sock Ip Address
  do_read u = record u { reading = u.reading + 1 }

  -- The options and the binding throw on an error, and no object is made.
  pub construct : ErrorCode → Sock → Endpoint Ip → Option (Udp Sock Ip Address)
  unfolding do_read
  construct ec sock nobody =
      if is_error ec
      then none
      else some (
          do_read (record {
            socket = sock;
            sender_ep = nobody;
            runner = running;
            is_blocked = false;
            reading = 0;
            sending = [];
            sent = [];
            shutdowns = 0;
            error_calls = [];
            message_calls = [];
          }))

  -- The destructor: `io_context_.stop()`, `runner_.join()`.
  pub stop : Udp Sock Ip Address → Udp Sock Ip Address
  stop u = record u { runner = stopped }

  pub close : Udp Sock Ip Address → Udp Sock Ip Address
  close u = record u { shutdowns = u.shutdowns + 1 }

  -- The handler posted by `close`; `shutdown` throws on an error.
  pub run_posted : ℕ → ErrorCode → Udp Sock Ip Address → Udp Sock Ip Address
  run_posted zero ec u = u
  run_posted (suc others) ec u =
      let u' = record u { shutdowns = others } in
      if is_error ec then record u' { runner = terminated } else u'

  send_to : Endpoint Ip → Chunk → Udp Sock Ip Address → Udp Sock Ip Address
  send_to ep chunk u = record u {
    sending = u.sending ++ ep ∷ [];
    sent = u.sent ++ (ep, chunk) ∷ [];
  }

  -- An address that is none makes `make_address` throw, and nothing is sent.
  pub write_to : Remote Address → Chunk → Udp Sock Ip Address → Udp Sock Ip Address × Bool
  unfolding send_to
  write_to remote chunk u = elim (endpoint_of make_address remote) [
    | none ↦ (u, false)
    | some ep ↦ (send_to ep chunk u, true)
  ]

  pub broadcast : ℕ → Chunk → Udp Sock Ip Address → Udp Sock Ip Address
  unfolding send_to
  broadcast port chunk u = send_to (record { ip = broadcast_ip; port = port }) chunk u

  -- The body of the loop after `receive_from` has returned a datagram.
  pub deliver : Endpoint Ip → Chunk → Sock → Udp Sock Ip Address → Udp Sock Ip Address
  unfolding to_remote
  deliver ep bytes sock u = record u {
    socket = sock;
    sender_ep = ep;
    message_calls = u.message_calls ++ (to_remote ep, bytes) ∷ [];
  }

  -- `while (available -= read)`, entered with the difference.
  pub read_loop : ℕ → ℕ → Udp Sock Ip Address → Udp Sock Ip Address × LoopEnd
  unfolding deliver
  read_loop zero left u = (u, out_of_fuel)
  read_loop (suc fuel) zero u = (u, finished)
  read_loop (suc fuel) (suc left) u = elim (receive_from u.socket (suc left)) [
    | got ep bytes sock ↦ read_loop fuel (sub64 (suc left) (length bytes)) (deliver ep bytes sock u)
    | blocks ↦ (u, blocked)
    | throws ec ↦ (u, threw)
  ]

  pub after_loop : Udp Sock Ip Address × LoopEnd → Udp Sock Ip Address
  unfolding do_read
  after_loop (u, finished) = do_read u
  after_loop (u, blocked) = record u { is_blocked = true }
  after_loop (u, threw) = record u { runner = terminated }
  after_loop (u, out_of_fuel) = u

  pub handle_read : ErrorCode → Udp Sock Ip Address → Udp Sock Ip Address
  unfolding to_remote do_read read_loop after_loop
  handle_read ec u =
      if is_error ec
      then do_read (record u { error_calls = u.error_calls ++ (to_remote u.sender_ep, ec) ∷ [] })
      else after_loop (read_loop (available u.socket + 1) (available u.socket) u)

  pub handle_write : Endpoint Ip → ErrorCode → Udp Sock Ip Address → Udp Sock Ip Address
  unfolding to_remote
  handle_write ep ec u =
      if is_error ec then record u { error_calls = u.error_calls ++ (to_remote ep, ec) ∷ [] } else u

  complete_read : ℕ → ErrorCode → Sock → Udp Sock Ip Address → Udp Sock Ip Address
  unfolding handle_read
  complete_read zero ec sock u = u
  complete_read (suc others) ec sock u =
      handle_read ec (record u { socket = sock; reading = others })

  complete_write :
      Option (Endpoint Ip × List (Endpoint Ip))
      → ErrorCode
      → Udp Sock Ip Address
      → Udp Sock Ip Address
  unfolding handle_write
  complete_write none ec u = u
  complete_write (some (ep, others)) ec u = handle_write ep ec (record u { sending = others })

  pub dispatch : Input Sock Ip Address → Udp Sock Ip Address → Udp Sock Ip Address
  unfolding write_to broadcast close stop run_posted complete_read complete_write
  dispatch (writes_to remote chunk) u = (write_to remote chunk u).0
  dispatch (broadcasts port chunk) u = broadcast port chunk u
  dispatch closes u = close u
  dispatch stops u = stop u
  dispatch (runs_posted ec) u = run_posted u.shutdowns ec u
  dispatch (read_done ec sock) u = complete_read u.reading ec sock u
  dispatch (write_done i ec) u = complete_write (pick i u.sending) ec u

  pub step : Udp Sock Ip Address → Input Sock Ip Address → Udp Sock Ip Address
  unfolding dispatch
  step u i = elim u.runner [
    | running ↦ if u.is_blocked && by_runner i then u else dispatch i u
    | stopped ↦ u
    | terminated ↦ u
  ]
