-- ===== src/Net/Udp/Handlers.antt =====
-- The UDP endpoint of src/net/udp/udp.cpp with handlers of the user that call it back.
--
-- As in Net/Client/Handlers.antt, an input names what the handlers call in it. The loop of
-- `handle_read` may call the message handler more than once: there is a list of calls for each time,
-- in order. An exception of `write_to` is caught by the handler that called it.
pub mod Commuting
pub mod Loop
pub mod Calls
pub mod Order
pub mod Sequential
mod Examples
use sephi.Base.{
  ℕ, zero, suc, ◌+◌, List, [], ◌∷◌, ◌++◌, Bool, true, false, none, some, Option, if◌then◌else◌,
  pick, length, foldl, tail, ◌&&◌,
}
use sephi.Net.Types.{Chunk, ErrorCode, is_error, Remote, Endpoint, running, stopped, terminated}
use sephi.Net.Udp
use sephi.Net.Udp.{
  got, blocks, throws, SocketOps, LoopEnd, finished, blocked, threw, out_of_fuel, Udp, Input,
  writes_to, broadcasts, closes, stops, runs_posted, read_done, write_done, sub64, by_runner,
  to_remote, do_read, write_to, broadcast, close, deliver, after_loop,
}

-- A call of a method from a handler.
pub data Call (Address : Type 0) : Type 0 where
  calls_write_to : Remote Address → Chunk → Call Address
  calls_broadcast : ℕ → Chunk → Call Address
  calls_close : Call Address

-- The calls that a handler makes the next time.
abbrev pub next : {Address : Type 0} → List (List (Call Address)) → List (Call Address)
next [] = []
next (calls ∷ later) = calls

module _ {Sock Ip Address : Type 0} (ops : SocketOps Sock Ip Address) where
  open ops use {available, receive_from}

  pub call : Udp Sock Ip Address → Call Address → Udp Sock Ip Address
  unfolding write_to broadcast close
  call u (calls_write_to remote chunk) = (write_to ops remote chunk u).0
  call u (calls_broadcast port chunk) = broadcast ops port chunk u
  call u calls_close = close ops u

  pub call_back_error_handler :
      Remote Address → ErrorCode → List (Call Address) → Udp Sock Ip Address → Udp Sock Ip Address
  unfolding call
  call_back_error_handler remote ec calls u =
      foldl call (record u { error_calls = u.error_calls ++ (remote, ec) ∷ [] }) calls

  -- `while (available -= read)`, entered with the difference.
  pub read_loop :
      ℕ → ℕ → List (List (Call Address)) → Udp Sock Ip Address → Udp Sock Ip Address × LoopEnd
  unfolding call deliver
  read_loop zero left later u = (u, out_of_fuel)
  read_loop (suc fuel) zero later u = (u, finished)
  read_loop (suc fuel) (suc left) later u = elim (receive_from u.socket (suc left)) [
    | got ep bytes sock ↦
        read_loop fuel (sub64 (suc left) (length bytes)) (tail later)
          (foldl call (deliver ops ep bytes sock u) (next later))
    | blocks ↦ (u, blocked)
    | throws ec ↦ (u, threw)
  ]

  pub handle_read :
      ErrorCode → List (List (Call Address)) → Udp Sock Ip Address → Udp Sock Ip Address
  unfolding to_remote do_read call_back_error_handler read_loop after_loop
  handle_read ec later u =
      if is_error ec
      then do_read ops (call_back_error_handler (to_remote ops u.sender_ep) ec (next later) u)
      else after_loop ops (read_loop (available u.socket + 1) (available u.socket) later u)

  pub handle_write :
      Endpoint Ip → ErrorCode → List (Call Address) → Udp Sock Ip Address → Udp Sock Ip Address
  unfolding to_remote call_back_error_handler
  handle_write ep ec calls u =
      if is_error ec then call_back_error_handler (to_remote ops ep) ec calls u else u

  complete_read :
      ℕ → ErrorCode → Sock → List (List (Call Address)) → Udp Sock Ip Address → Udp Sock Ip Address
  unfolding handle_read
  complete_read zero ec sock later u = u
  complete_read (suc others) ec sock later u =
      handle_read ec later (record u { socket = sock; reading = others })

  complete_write :
      Option (Endpoint Ip × List (Endpoint Ip))
      → ErrorCode
      → List (Call Address)
      → Udp Sock Ip Address
      → Udp Sock Ip Address
  unfolding handle_write
  complete_write none ec calls u = u
  complete_write (some (ep, others)) ec calls u =
      handle_write ep ec calls (record u { sending = others })

  dispatch :
      Input Sock Ip Address → List (List (Call Address)) → Udp Sock Ip Address → Udp Sock Ip Address
  unfolding complete_read complete_write Udp.step
  dispatch (read_done ec sock) later u = complete_read u.reading ec sock later u
  dispatch (write_done i ec) later u = complete_write (pick i u.sending) ec (next later) u
  dispatch i later u = Udp.step ops u i

  pub step :
      Udp Sock Ip Address → Input Sock Ip Address × List (List (Call Address)) → Udp Sock Ip Address
  unfolding dispatch
  step u (i, later) = elim u.runner [
    | running ↦ if u.is_blocked && by_runner i then u else dispatch i later u
    | stopped ↦ u
    | terminated ↦ u
  ]
