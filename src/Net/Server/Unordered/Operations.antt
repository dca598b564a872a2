-- ===== src/Net/Server/Unordered/Operations.antt =====
-- What the operations and handlers of the server do is the same in any order of the map.
use mathlib.Core.List.{map, Permᴰ}
use mathlib.Core.List.Permᴰ
use mathlib.Core.Path.{fun_ext, subst}
use sephi.Base.{
  ◌≡◌, ◌∙◌, ap, sym, refl, ℕ, zero, suc, List, [], ◌∷◌, ◌++◌, arith, false, Bool-cases, Option,
  none, some, inl, inr,
}
use sephi.Net.Types.{
  Chunk, ConnectionState, connected, disconnected, ErrorCode, success, is_error, stopped,
}
use sephi.Net.Session.{Session}
use sephi.Net.SessionMap.{SessionId, SessionPtr, SessionMap, IsProper, find, erase, emplace}
use sephi.Net.Server.{Server, close, stop, leave, complete_accept, complete_read, complete_write}
use sephi.Net.Server.Closing.{farewell, close_lem, close_each_frame}
use sephi.Net.Server.Handlers.{
  Call, calls_write_to_all, calls_write_to, calls_write_to_all_except, call,
}
use sephi.Net.Server.Handlers.Calls.{reaches, call_lem, same_server}
use sephi.Net.Server.Unordered.{reorder, Reorders}
use sephi.Net.Server.Unordered.Entries.{
  SameEntries, Permᴰ-SameEntries, erase-Permᴰ, emplace-Permᴰ, map-Permᴰ,
}

abbrev pub Told : Type 0
Told = List (SessionId × ConnectionState × ErrorCode)

reaches_same :
    (x : Call) (a : SessionPtr) {m m' : SessionMap}
    → SameEntries m m'
    → reaches x a m' ≡ reaches x a m
reaches_same (calls_write_to_all c) a h = ground (arith, h.found a)
reaches_same (calls_write_to id c) a h = ground (arith, h.found id)
reaches_same (calls_write_to_all_except id c) a h = ground (arith, h.found a)

pub write-Reorders :
    (x : Call) (server : Server) (m : SessionMap) (calls : Told)
    → IsProper server.sessions
    → Permᴰ server.sessions m
    → Permᴰ server.connection_calls calls
    → Reorders (call server x) (call (reorder m calls server) x)
write-Reorders x server m calls proper order told =
    let t = reorder m calls server in
    let h = Permᴰ-SameEntries order proper in
    let frame = (call_lem x server 0 proper).1 in
    record {
      entries = m;
      calls = calls;
      same =
          same_server (call t x) (reorder m calls (call server x)) t (call_lem x t 0 h.proper).1
            (ap {A = Server} (λ r. record (reorder m calls r) { heap = (call server x).heap })
              frame)
            (λ a. ground (
              arith,
              (call_lem x t a h.proper).0,
              (call_lem x server a proper).0,
              reaches_same x a h,
            ));
      order = subst (λ r. Permᴰ r.sessions m) (sym frame) order;
      told = subst (λ r. Permᴰ r.connection_calls calls) (sym frame) told;
    }

module _ (server : Server) (m : SessionMap) (calls : Told) (order : Permᴰ server.sessions m)
    (told : Permᴰ server.connection_calls calls) where
  pub accept-Reorders :
      (n : ℕ) (ec : ErrorCode) (p : SessionPtr)
      → IsProper server.sessions
      → find p server.sessions ≡ none
      → Reorders (complete_accept n ec p server) (complete_accept n ec p (reorder m calls server))
  unfolding complete_accept
  accept-Reorders zero ec p proper free = record {
    entries = m;
    calls = calls;
    same = refl;
    order = order;
    told = told;
  }
  accept-Reorders (suc n) ec p proper free = elim (Bool-cases (is_error ec)) [
    | inl failed ↦
        rw failed (record { entries = m; calls = calls; same = refl; order = order; told = told })
    | inr fine ↦ rw fine (record {
      entries = emplace p p m;
      calls = calls ++ (p, connected, ec) ∷ [];
      same = refl;
      order = emplace-Permᴰ p order free ((Permᴰ-SameEntries order proper).found p ∙ free);
      told = Permᴰ.append_right ((p, connected, ec) ∷ []) told;
    })
  ]

  pub read-Reorders :
      (n : ℕ) (p : SessionPtr) (ec : ErrorCode) (bytes : Chunk)
      → Reorders
          (complete_read n p ec bytes server)
          (complete_read n p ec bytes (reorder m calls server))
  unfolding complete_read leave
  read-Reorders zero p ec bytes = record {
    entries = m;
    calls = calls;
    same = refl;
    order = order;
    told = told;
  }
  read-Reorders (suc n) p ec bytes = elim (Bool-cases (is_error ec)) [
    | inl failed ↦ rw failed (record {
      entries = erase p m;
      calls = calls ++ (p, disconnected, ec) ∷ [];
      same = refl;
      order = erase-Permᴰ p order;
      told = Permᴰ.append_right ((p, disconnected, ec) ∷ []) told;
    })
    | inr fine ↦
        rw fine (record { entries = m; calls = calls; same = refl; order = order; told = told })
  ]

  pub done-Reorders :
      (r : Option (Chunk × List Chunk)) (p : SessionPtr) (ec : ErrorCode)
      → Reorders (complete_write r p ec server) (complete_write r p ec (reorder m calls server))
  unfolding complete_write leave
  done-Reorders none p ec = record {
    entries = m;
    calls = calls;
    same = refl;
    order = order;
    told = told;
  }
  done-Reorders (some (w, others)) p ec = elim (Bool-cases (is_error ec)) [
    | inl failed ↦ rw failed (record {
      entries = erase p m;
      calls = calls ++ (p, disconnected, ec) ∷ [];
      same = refl;
      order = erase-Permᴰ p order;
      told = Permᴰ.append_right ((p, disconnected, ec) ∷ []) told;
    })
    | inr fine ↦
        rw fine (record { entries = m; calls = calls; same = refl; order = order; told = told })
  ]

  pub close-Reorders :
      (errors : SessionPtr → ErrorCode)
      → ((p : SessionPtr) → is_error (errors p) ≡ false)
      → IsProper server.sessions
      → Reorders (close errors server).0 (close errors (reorder m calls server)).0
  unfolding close
  close-Reorders errors fine proper =
      let t = reorder m calls server in
      let h = Permᴰ-SameEntries order proper in
      let s' = (close errors server).0 in
      let t' = (close errors t).0 in
      let (_, gone, told_s, _) = close_lem errors fine server 0 proper in
      let (_, gone', told_t, _) = close_lem errors fine t 0 h.proper in
      let heaps : (a : SessionPtr) → t'.heap a ≡ s'.heap a = λ a. ground (
        arith,
        (close_lem errors fine server a proper).3,
        (close_lem errors fine t a h.proper).3,
        h.found a,
      ) in
      record {
        entries = [];
        calls = t'.connection_calls;
        same =
            close_each_frame errors fine m t
            ∙ (ap {A = SessionPtr → Session}
                  (λ heap. record server {
                    heap = heap;
                    sessions = t'.sessions;
                    connection_calls = t'.connection_calls;
                  })
                  (fun_ext heaps)
                ∙ (ap {A = SessionMap}
                      (λ ms. record server {
                        heap = s'.heap;
                        sessions = ms;
                        connection_calls = t'.connection_calls;
                      })
                      gone'
                    ∙ sym (
                        ap {A = Server} (reorder [] t'.connection_calls)
                          (close_each_frame errors fine server.sessions server))));
        order = subst (λ ms. Permᴰ ms []) (sym gone) Permᴰ.nil;
        told =
            subst (λ cs. Permᴰ cs t'.connection_calls) (sym told_s)
              (subst
                (λ cs. Permᴰ (server.connection_calls ++ map (farewell success) server.sessions) cs)
                (sym told_t)
                (Permᴰ.trans (Permᴰ.append_right (map (farewell success) server.sessions) told)
                  (Permᴰ.append_left calls (map-Permᴰ (farewell success) order))));
      }

  pub stop-Reorders :
      (errors : SessionPtr → ErrorCode)
      → ((p : SessionPtr) → is_error (errors p) ≡ false)
      → IsProper server.sessions
      → Reorders (stop errors server) (stop errors (reorder m calls server))
  unfolding stop
  stop-Reorders errors fine proper =
      let h = Permᴰ-SameEntries order proper in
      let closed = close-Reorders errors fine proper in
      record {
        entries = closed.entries;
        calls = closed.calls;
        same =
            rw
              (
                (close_lem errors fine server 0 proper).0,
                (close_lem errors fine (reorder m calls server) 0 h.proper).0,
              )
              (ap {A = Server} (λ r. record r { runner = stopped }) closed.same);
        order = closed.order;
        told = closed.told;
      }
