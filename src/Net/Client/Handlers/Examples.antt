-- ===== src/Net/Client/Handlers/Examples.antt =====
-- Runs of a client with handlers that call it back: tests, and the theorems at concrete inputs.
use sephi.Base.{◌≡◌, ℕ, List, [], ◌∷◌, foldl, outputs, refl, length, false, ◌++◌}
use sephi.Net.Types.{success}
use sephi.Net.Client
use sephi.Net.Client.{
  Client, Input, initial, do_connect, connect_done, read_done, write_done, runs_posted, writes,
  reconnects, is_connected,
}
use sephi.Net.Client.Handlers.{Call, calls_write, calls_reconnect, step}
use sephi.Net.Client.Handlers.Sequential.{sequential, handlers_are_sequential}
use sephi.Net.Client.Handlers.Reconnecting.{reconnecting_handler_reads_twice}

abbrev fresh : Client ℕ
unfolding initial do_connect
fresh = do_connect (initial (record { ip = 127; port = 6705 }))

-- The connection handler greets, the packet handler echoes, and the write of the greeting fails, upon
-- which the connection handler reconnects.
abbrev talk : List (Input × List Call)
talk =
    (connect_done 0 success, calls_write (1 ∷ []) ∷ [])
    ∷ (read_done 0 success (2 ∷ []), calls_write (2 ∷ []) ∷ [])
    ∷ (runs_posted success, [])
    ∷ (write_done 0 32, calls_reconnect success ∷ [])
    ∷ []

talk_steps :
    outputs step sequential fresh talk
    ≡ connect_done 0 success
      ∷ writes (1 ∷ [])
      ∷ read_done 0 success (2 ∷ [])
      ∷ writes (2 ∷ [])
      ∷ runs_posted success
      ∷ write_done 0 32
      ∷ reconnects success
      ∷ []
unfolding outputs step sequential fresh Client.step
talk_steps = refl

handlers_are_sequential_example :
    foldl step fresh talk ≡ foldl Client.step fresh (outputs step sequential fresh talk)
handlers_are_sequential_example =
    handlers_are_sequential fresh talk ((λ e. (tt, tt)), ((λ e. (tt, tt)), (tt, (tt, tt))))

-- A client with one read under way.
abbrev reading : Client ℕ
reading = Client.step fresh (connect_done 0 success)

reconnecting_handler_reads_twice_example :
    let c' = step reading (read_done 0 success (2 ∷ []), calls_reconnect success ∷ []) in
    let c'' = Client.step c' (connect_done (length reading.connecting) success) in
    (is_connected c' ≡ false)
    × (c'.reading ≡ [] ++ c'.socket ∷ [])
    × (c'.connecting ≡ reading.connecting ++ c'.socket ∷ [])
    × (c''.reading ≡ ([] ++ c'.socket ∷ []) ++ c'.socket ∷ [])
reconnecting_handler_reads_twice_example =
    reconnecting_handler_reads_twice reading 0 1 [] (2 ∷ []) (unfold fresh Client.step in refl)
      (unfold fresh Client.step in refl)
