-- ===== src/Net/Link/Echo/Completion.antt =====
-- What the completions of what is under way leave to complete.
use sephi.Base.{◌≡◌, ℕ, suc, List, [], ◌∷◌, tail, take, false, arith}
use sephi.Net.Types.{Chunk, success, is_error, running}
use sephi.Net.Session
use sephi.Net.SessionMap.{SessionPtr}
use sephi.Net.Client
use sephi.Net.Client.{Client}
use sephi.Net.Server
use sephi.Net.Server.{Server}
use sephi.Net.Link.Echo.{Input, client_does}

-- The completions of what is under way, without errors: no call of a user.
abbrev pub IsCompletion : Input → Type 0
IsCompletion (client_does (Client.runs_posted ec)) = is_error ec ≡ false
IsCompletion (client_does (Client.write_done k ec)) = is_error ec ≡ false
IsCompletion (client_does i) = ⊥
IsCompletion _ = Unit

abbrev pub IsBusy : SessionPtr → Server → Type 0
IsBusy a server = (server.heap a).writing ≡ take 1 (server.heap a).sending_messages

pub read-IsBusy :
    (a : SessionPtr) (bytes : Chunk) (server : Server)
    → IsBusy a server
    → IsBusy a (Server.step server (Server.read_done a success bytes))
unfolding Server.step
read-IsBusy a bytes server busy = ground arith

pub write-IsBusy :
    (a : SessionPtr) (bytes : Chunk) (server : Server)
    → server.runner ≡ running
    → IsBusy a server
    → IsBusy a (Server.step server (Server.writes_to a bytes))
unfolding Server.step Session.write
write-IsBusy a bytes server up busy = ground arith

pub write-Awaits :
    (a : SessionPtr) (bytes : Chunk) (server : Server) (others : ℕ)
    → server.runner ≡ running
    → (server.heap a).reading ≡ suc others
    → let server' = Server.step server (Server.writes_to a bytes) in
      (server'.runner ≡ running) × ((server'.heap a).reading ≡ suc others)
unfolding Server.step Session.write
write-Awaits a bytes server others up waits = (ground arith, ground arith)

-- The end of the front's write.
pub done-IsBusy :
    (a : SessionPtr) (server : Server) (ms : List Chunk)
    → server.runner ≡ running
    → (server.heap a).sending_messages ≡ ms
    → IsBusy a server
    → let server' = Server.step server (Server.write_done a 0 success) in
      (server'.runner ≡ running)
      × ((server'.heap a).sending_messages ≡ tail ms)
      × IsBusy a server'
      × ((server'.heap a).reading ≡ (server.heap a).reading)
unfolding Server.step
done-IsBusy a server [] up e busy = (ground arith, ground arith, ground arith, ground arith)
done-IsBusy a server (m ∷ []) up e busy = (ground arith, ground arith, ground arith, ground arith)
done-IsBusy a server (m ∷ n ∷ ms) up e busy =
    (ground arith, ground arith, ground arith, ground arith)

module _ {Ip : Type 0} where
  -- A completed read of the one that is under way asks for the next.
  pub read-reads :
      (c : Client Ip) (bytes : Chunk)
      → c.runner ≡ running
      → c.reading ≡ c.socket ∷ []
      → let c' = Client.step c (Client.read_done 0 success bytes) in
        (c'.runner ≡ running)
        × (c'.reading ≡ c'.socket ∷ [])
        × (c'.written ≡ c.written)
        × (c'.sending_messages ≡ c.sending_messages)
        × (c'.posted ≡ c.posted)
  unfolding Client.step
  read-reads c bytes up reads = ground arith

  abbrev pub Reads : Client Ip → Type 0
  Reads c = (c.runner ≡ running) × (c.reading ≡ c.socket ∷ [])

  pub completion-Reads :
      (c : Client Ip) (i : Client.Input)
      → IsCompletion (client_does i)
      → Reads c
      → Reads (Client.step c i)
  unfolding Client.step
  completion-Reads c (Client.runs_posted ec) ok h = ground arith
  completion-Reads c (Client.write_done k ec) ok h = ground arith
  completion-Reads c (Client.writes m) ok h = absurd ok
  completion-Reads c (Client.reconnects ec) ok h = absurd ok
  completion-Reads c Client.closes ok h = absurd ok
  completion-Reads c Client.stops ok h = absurd ok
  completion-Reads c (Client.connect_done k ec) ok h = absurd ok
  completion-Reads c (Client.read_done k ec bytes) ok h = absurd ok
