-- ===== src/Net/Server/Examples.antt =====
-- Runs of the server: tests, and the theorems at concrete inputs.
use mathlib.Core.List.{map}
use sephi.Base.{◌≡◌, List, [], ◌∷◌, ◌++◌, foldl, refl, arith, Along}
use sephi.Net.Types.{Chunk, success, connected, disconnected}
use sephi.Net.Session
use sephi.Net.Session.{Session, shut, flow_of, new_session}
use sephi.Net.SessionMap.{find, erase, emplace}
use sephi.Net.Server.{
  Server, Input, writes_to_all, writes_to, writes_to_all_except, accept_done, read_done, write_done,
  construct, step, close,
}
use sephi.Net.Server.Closing.{farewell, closed_session_leaves_twice}
use sephi.Net.Server.Invariant.{Inv, IsAllowed}
use sephi.Net.Server.Steps.{run-Inv}

abbrev hello : Chunk
hello = 1 ∷ 2 ∷ []

-- Two sessions, and a failed accept between them.
abbrev two : List Input
two = accept_done success 16 ∷ accept_done 24 0 ∷ accept_done success 32 ∷ []

abbrev serving : Server
serving = foldl step construct two

serving_state :
    (serving.sessions ≡ (32, 32) ∷ (16, 16) ∷ [])
    × (serving.accepting ≡ 1)
    × (serving.connection_calls ≡ (16, connected, 0) ∷ (32, connected, 0) ∷ [])
unfolding step construct emplace find
serving_state = (refl, refl, refl)

two-IsAllowed : Along step IsAllowed construct two
unfolding step construct emplace find
two-IsAllowed = ground arith

serving-Inv : Inv serving
serving-Inv = run-Inv two two-IsAllowed

run-Inv_example : Inv serving
run-Inv_example = run-Inv two two-IsAllowed

abbrev talk : List Input
talk =
    writes_to_all hello
    ∷ writes_to 16 (3 ∷ [])
    ∷ writes_to_all_except 16 (4 ∷ [])
    ∷ write_done 16 0 success
    ∷ write_done 32 0 104
    ∷ writes_to 32 hello
    ∷ []

talk_state :
    let server = foldl step serving talk in
    ((server.heap 16).written ≡ hello ∷ (3 ∷ []) ∷ [])
    × ((server.heap 32).sending_messages ≡ hello ∷ (4 ∷ []) ∷ [])
    × (server.sessions ≡ (16, 16) ∷ [])
unfolding step construct emplace find erase Session.write
talk_state = (refl, refl, refl)

closed_session_leaves_twice_example :
    (step (close (λ p. success) serving).0 (read_done 16 2 [])).connection_calls
    ≡ (serving.connection_calls ++ map (farewell success) serving.sessions)
      ++ (16, disconnected, 2) ∷ []
unfolding step construct emplace find
closed_session_leaves_twice_example =
    closed_session_leaves_twice (λ p. success) (λ p. refl) serving 16 0 2 [] refl
      (unfold find emplace step construct in serving-Inv.proper) refl refl refl
