-- ===== src/Net/Server/Handlers/Examples.antt =====
-- A run of a server with handlers that write: a test, and the theorem at that run.
use mathlib.Core.List.{map}
use sephi.Base.{◌≡◌, true, List, [], ◌∷◌, ◌++◌, ◌||◌, foldl, outputs, Along, refl}
use sephi.Net.Types.{success}
use sephi.Net.Session
use sephi.Net.Session.{flow_of}
use sephi.Net.SessionMap.{SessionPtr, find, holds, emplace, erase}
use sephi.Net.Server
use sephi.Net.Server.{
  Server, Input, construct, accept_done, read_done, write_done, writes_to, writes_to_all, closes,
}
use sephi.Net.Server.Invariant.{IsAllowed, construct-Inv}
use sephi.Net.Server.Handlers.{Call, calls_write_to, calls_write_to_all, close, step}
use sephi.Net.Server.Closing.{farewell}
use sephi.Net.Server.Handlers.Closing.{goodbyes, goodbyes_reach_the_rest}
use sephi.Net.Server.Handlers.Order.{sequential}
use sephi.Net.Server.Handlers.Sequential.{IsAllowedStep, handlers_write_in_order}

-- A session is greeted when it is announced; what it sends is echoed; the end of another is told.
abbrev talk : List (Input × (SessionPtr → List Call))
talk =
    (accept_done success 16, λ _. calls_write_to 16 (1 ∷ []) ∷ [])
    ∷ (accept_done success 32, λ _. calls_write_to_all (2 ∷ []) ∷ [])
    ∷ (read_done 16 success (3 ∷ []), λ _. calls_write_to 16 (3 ∷ []) ∷ [])
    ∷ (read_done 32 2 [], λ _. calls_write_to_all (4 ∷ []) ∷ [])
    ∷ (write_done 16 0 success, λ _. calls_write_to_all (5 ∷ []) ∷ [])
    ∷ []

talk_steps :
    outputs step sequential construct talk
    ≡ writes_to 16 (1 ∷ [])
      ∷ accept_done success 16
      ∷ writes_to_all (2 ∷ [])
      ∷ accept_done success 32
      ∷ read_done 16 success (3 ∷ [])
      ∷ writes_to 16 (3 ∷ [])
      ∷ read_done 32 2 []
      ∷ writes_to_all (4 ∷ [])
      ∷ write_done 16 0 success
      ∷ []
unfolding outputs step sequential construct Server.step find emplace erase Session.write
talk_steps = refl

-- The greeting does not reach the session.
talk_state :
    let server = foldl step construct talk in
    ((server.heap 16).written ≡ (2 ∷ []) ∷ (3 ∷ []) ∷ [])
    × ((server.heap 16).sending_messages ≡ (3 ∷ []) ∷ (4 ∷ []) ∷ [])
    × (server.sessions ≡ (16, 16) ∷ [])
unfolding step construct Server.step find emplace erase Session.write
talk_state = (refl, refl, refl)

talk-IsAllowedStep : Along step IsAllowedStep construct talk
unfolding step construct Server.step find emplace erase Session.write
talk-IsAllowedStep = ((refl, refl, refl), ((refl, refl, refl), (tt, (tt, (tt, tt)))))

handlers_write_in_order_example :
    let is = outputs step sequential construct talk in
    (foldl step construct talk ≡ foldl Server.step construct is)
    × Along Server.step IsAllowed construct is
handlers_write_in_order_example =
    handlers_write_in_order construct talk construct-Inv talk-IsAllowedStep

-- As the server is closed, all the sessions that are left are told which one has gone.
abbrev two_sessions : Server
two_sessions =
    foldl step construct
      ((accept_done success 16, λ _. []) ∷ (accept_done success 32, λ _. []) ∷ [])

abbrev tell_all : SessionPtr → List Call
tell_all p = calls_write_to_all (p ∷ []) ∷ []

closing_tells :
    let (server', closed) = close (λ p. success) tell_all two_sessions in
    (two_sessions.sessions ≡ (32, 32) ∷ (16, 16) ∷ [])
    × ((server'.heap 32).written ≡ [])
    × ((server'.heap 16).written ≡ (32 ∷ []) ∷ [])
unfolding step construct Server.step find emplace erase Session.write close
closing_tells = (refl, refl, refl)

-- Without such calls: the same is written before the `close`.
closing_steps :
    outputs step sequential two_sessions ((closes (λ _. success), tell_all) ∷ [])
    ≡ writes_to 16 (32 ∷ []) ∷ closes (λ _. success) ∷ []
unfolding outputs step sequential construct Server.step find emplace erase Session.write
closing_steps = refl

goodbyes_reach_the_rest_example :
    let (server', closed) = close (λ p. success) tell_all two_sessions in
    (closed ≡ true)
    × (server'.sessions ≡ [])
    × (server'.connection_calls
        ≡ two_sessions.connection_calls ++ map (farewell success) two_sessions.sessions)
    × (flow_of (server'.heap 16)
        ≡ flow_of (two_sessions.heap 16) ++ goodbyes 16 tell_all two_sessions.sessions)
    × ((server'.heap 16).is_shut
        ≡ (holds 16 two_sessions.sessions || (two_sessions.heap 16).is_shut))
unfolding step construct Server.step find emplace erase
goodbyes_reach_the_rest_example =
    goodbyes_reach_the_rest (λ p. success) (λ p. refl) tell_all two_sessions 16
      (refl, refl, (refl, refl, tt))
