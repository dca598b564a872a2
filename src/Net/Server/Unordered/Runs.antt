-- ===== src/Net/Server/Unordered/Runs.antt =====
-- Every run of the server is the same in any order of the map.
use mathlib.Core.List.{Permᴰ}
use mathlib.Core.List.Permᴰ
use sephi.Base.{refl, List, [], ◌∷◌, foldl, All, Along, pick}
use sephi.Net.Types.{Runner, running, stopped, terminated}
use sephi.Net.SessionMap.{SessionMap}
use sephi.Net.Server.{
  Server, Input, writes_to_all, writes_to, writes_to_all_except, closes, stops, accept_done,
  read_done, write_done, dispatch, step,
}
use sephi.Net.Server.Invariant.{Inv, IsAllowed}
use sephi.Net.Server.Steps.{step-Inv}
use sephi.Net.Server.Handlers.{calls_write_to_all, calls_write_to, calls_write_to_all_except, call}
use sephi.Net.Server.Unordered.{reorder, Reorders, ClosesWell}
use sephi.Net.Server.Unordered.Operations.{
  Told, write-Reorders, accept-Reorders, read-Reorders, done-Reorders, close-Reorders,
  stop-Reorders,
}

module _ (server : Server) (m : SessionMap) (calls : Told) (order : Permᴰ server.sessions m)
    (told : Permᴰ server.connection_calls calls) where
  dispatch-Reorders :
      (i : Input)
      → Inv server
      → IsAllowed server i
      → ClosesWell i
      → Reorders (dispatch i server) (dispatch i (reorder m calls server))
  unfolding dispatch call
  dispatch-Reorders (writes_to_all c) v ok well =
      write-Reorders (calls_write_to_all c) server m calls v.proper order told
  dispatch-Reorders (writes_to id c) v ok well =
      write-Reorders (calls_write_to id c) server m calls v.proper order told
  dispatch-Reorders (writes_to_all_except id c) v ok well =
      write-Reorders (calls_write_to_all_except id c) server m calls v.proper order told
  dispatch-Reorders (closes errors) v ok well =
      close-Reorders server m calls order told errors well v.proper
  dispatch-Reorders (stops errors) v ok well =
      stop-Reorders server m calls order told errors well v.proper
  dispatch-Reorders (accept_done ec p) v free well =
      accept-Reorders server m calls order told server.accepting ec p v.proper free.0
  dispatch-Reorders (read_done p ec bytes) v ok well =
      read-Reorders server m calls order told (server.heap p).reading p ec bytes
  dispatch-Reorders (write_done p k ec) v ok well =
      done-Reorders server m calls order told (pick k (server.heap p).writing) p ec

  step-Reorders :
      (i : Input)
      → Inv server
      → IsAllowed server i
      → ClosesWell i
      → Reorders (step server i) (step (reorder m calls server) i)
  unfolding step
  step-Reorders i v ok well = at_runner server.runner
    where
      at_runner :
          (r : Runner)
          → Reorders
              (elim r [ running ↦ dispatch i server | stopped ↦ server | terminated ↦ server ])
              (elim r [
                | running ↦ dispatch i (reorder m calls server)
                | stopped ↦ reorder m calls server
                | terminated ↦ reorder m calls server
              ])
      at_runner running = dispatch-Reorders i v ok well
      at_runner stopped = record {
        entries = m;
        calls = calls;
        same = refl;
        order = order;
        told = told;
      }
      at_runner terminated = record {
        entries = m;
        calls = calls;
        same = refl;
        order = order;
        told = told;
      }

-- Whatever order the entries of the map come in: from a state in which the invariant holds, every run
-- in which sessions are made at free addresses and no shutdown of `close` throws ends in the same
-- state, up to the order of the map and of the calls of the connection handler.
pub entries_in_any_order :
    (is : List Input) (server : Server) (m : SessionMap)
    → Inv server
    → Along step IsAllowed server is
    → All ClosesWell is
    → Permᴰ server.sessions m
    → Reorders (foldl step server is) (foldl step (record server { sessions = m }) is)
entries_in_any_order is server m v ok well order =
    from_any is server m server.connection_calls v ok well order
      (Permᴰ.refl server.connection_calls)
  where
    from_any :
        (is : List Input) (server : Server) (m : SessionMap) (calls : Told)
        → Inv server
        → Along step IsAllowed server is
        → All ClosesWell is
        → Permᴰ server.sessions m
        → Permᴰ server.connection_calls calls
        → Reorders (foldl step server is) (foldl step (reorder m calls server) is)
    from_any [] server m calls v ok well order told = record {
      entries = m;
      calls = calls;
      same = refl;
      order = order;
      told = told;
    }
    from_any (i ∷ is) server m calls v (o, ok) (w, well) order told =
        let next = step-Reorders server m calls order told i v o w in
        rw next.same (
          from_any is (step server i) next.entries next.calls (step-Inv server i o v) ok well
            next.order next.told)
