-- ===== src/Net/Client/Handlers/Reconnecting.antt =====
-- A packet handler that reconnects: the next read is asked for on the new socket before that is
-- connected.
use sephi.Base.{pick_last, ◌≡◌, ℕ, List, [], ◌∷◌, ◌++◌, some, pick, length, arith, false, ◌+◌}
use sephi.Net.Types.{Chunk, success, running}
use sephi.Net.Client
use sephi.Net.Client.{Client, read_done, connect_done, is_connected, reconnect}
use sephi.Net.Client.Handlers.{calls_reconnect, call, step}

module _ {Ip : Type 0} where
  -- When the packet handler of a running client reconnects, the client asks for the next read on the
  -- new socket while it is not connected; once it is, and the client has asked for a read again, two
  -- reads of one socket are under way, both into the one packet buffer.
  pub reconnecting_handler_reads_twice :
      (c : Client Ip) (k s : ℕ) (others : List ℕ) (bytes : Chunk)
      → c.runner ≡ running
      → pick k c.reading ≡ some (s, others)
      → let c' = step c (read_done k success bytes, calls_reconnect success ∷ []) in
        let c'' = Client.step c' (connect_done (length c.connecting) success) in
        (is_connected c' ≡ false)
        × (c'.reading ≡ others ++ c'.socket ∷ [])
        × (c'.connecting ≡ c.connecting ++ c'.socket ∷ [])
        × (c''.reading ≡ (others ++ c'.socket ∷ []) ++ c'.socket ∷ [])
  unfolding step Client.step call reconnect
  reconnecting_handler_reads_twice c k s others bytes up there = (
    ground arith,
    ground arith,
    ground arith,
    ground (arith, pick_last c.connecting (c.socket + 1)),
  )
