-- ===== src/Net/Server/Unordered/Examples.antt =====
-- A run of a server with its map in two orders: a test, and the theorem at that run.
use mathlib.Core.List.{Permᴰ}
use sephi.Base.{◌≡◌, List, [], ◌∷◌, foldl, refl}
use sephi.Net.Types.{success, connected, disconnected}
use sephi.Net.Session
use sephi.Net.SessionMap.{SessionMap, find, emplace, erase}
use sephi.Net.Server.{
  Server, Input, construct, step, accept_done, read_done, writes_to_all, writes_to_all_except,
  closes,
}
use sephi.Net.Server.Invariant.{Inv}
use sephi.Net.Server.Steps.{run-Inv}
use sephi.Net.Server.Unordered.{Reorders}
use sephi.Net.Server.Unordered.Runs.{entries_in_any_order}

abbrev three : List Input
three = accept_done success 16 ∷ accept_done success 32 ∷ accept_done success 48 ∷ []

abbrev serving : Server
serving = foldl step construct three

serving-Inv : Inv serving
unfolding step construct emplace find
serving-Inv = run-Inv three ((refl, refl, refl), ((refl, refl, refl), ((refl, refl, refl), tt)))

abbrev other_order : SessionMap
other_order = (16, 16) ∷ (48, 48) ∷ (32, 32) ∷ []

in_other_order : Permᴰ serving.sessions other_order
unfolding step construct emplace find
in_other_order = Permᴰ.trans (Permᴰ.cons refl (Permᴰ.swap refl refl)) (Permᴰ.swap refl refl)

abbrev talk : List Input
talk =
    writes_to_all (1 ∷ [])
    ∷ read_done 32 2 []
    ∷ writes_to_all_except 16 (2 ∷ [])
    ∷ closes (λ p. success)
    ∷ []

-- The calls of the connection handler come in the order of the map.
talk_calls :
    (foldl step (record serving { sessions = other_order }) talk).connection_calls
    ≡ (16, connected, 0)
      ∷ (32, connected, 0)
      ∷ (48, connected, 0)
      ∷ (32, disconnected, 2)
      ∷ (16, disconnected, 0)
      ∷ (48, disconnected, 0)
      ∷ []
unfolding step construct emplace find erase Session.write
talk_calls = refl

entries_in_any_order_example :
    Reorders (foldl step serving talk) (foldl step (record serving { sessions = other_order }) talk)
entries_in_any_order_example =
    entries_in_any_order talk serving other_order serving-Inv (tt, (tt, (tt, (tt, tt))))
      (tt, (tt, (tt, ((λ p. refl), tt)))) in_other_order
