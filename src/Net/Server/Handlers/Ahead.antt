-- ===== src/Net/Server/Handlers/Ahead.antt =====
-- What the connection handler writes when `close` of src/net/tcp/server/server.cpp calls it is as if
-- written before the `close`, to those of the sessions that are then left.
use mathlib.Core.Path.{fun_ext}
use sephi.Base.{
  ◌≡◌, ◌∙◌, ap, sym, refl, List, [], ◌∷◌, ◌++◌, foldl, Bool, Bool-cases, inl, inr, true, false,
  if◌then◌else◌, ◌&&◌, arith, append_assoc,
}
use sephi.Net.Types.{Chunk, ErrorCode, success, is_error}
use sephi.Net.Session.{shut}
use sephi.Net.SessionMap.{SessionPtr, SessionMap, IsProper, find, holds}
use sephi.Net.Server
use sephi.Net.Server.{Server, at}
use sephi.Net.Server.Handlers.{
  Call, calls_write_to_all, calls_write_to, calls_write_to_all_except, call, leave, close_each,
  close,
}
use sephi.Net.Server.Handlers.Calls.{chunk_of, reaches, reaching, same_server}
use sephi.Net.Server.Handlers.Pouring.{
  poured, pour, calls-pour, pour-pour, leave-pour, left-sessions, calls-pour_left, kept,
}

-- A call as calls that write to one session each, in the order of a map.
abbrev spread : (SessionPtr → Bool) → Chunk → SessionMap → List Call
spread b chunk [] = []
spread b chunk ((k, p) ∷ m) = (if b p then calls_write_to k chunk ∷ [] else []) ++ spread b chunk m

abbrev spread_calls : SessionMap → List Call → List Call
spread_calls m [] = []
spread_calls m (x ∷ calls) = spread (λ a. reaches x a m) (chunk_of x) m ++ spread_calls m calls

-- What is written ahead of `close`: for each session in turn, up to one whose shutdown fails, what
-- its handler writes to those behind it in the map.
abbrev pub ahead : (SessionPtr → ErrorCode) → (SessionPtr → List Call) → SessionMap → List Call
ahead errors calls [] = []
ahead errors calls ((k, p) ∷ m) =
    if is_error (errors p) then [] else spread_calls m (calls p) ++ ahead errors calls m

-- What of it reaches a session.
abbrev said :
    (SessionPtr → ErrorCode) → (SessionPtr → List Call) → SessionMap → SessionPtr → List Chunk
said errors calls [] a = []
said errors calls ((k, p) ∷ m) a =
    if is_error (errors p) then [] else reaching a m (calls p) ++ said errors calls m a

abbrev Within : SessionMap → SessionMap → Type 0
Within m m' = (a : SessionPtr) → holds a m ≡ true → holds a m' ≡ true

Within-tail : (k p : SessionPtr) (m all : SessionMap) → Within ((k, p) ∷ m) all → Within m all
unfolding find
Within-tail k p m all w a held = w a (ground arith)

reaching-append :
    (a : SessionPtr) (m : SessionMap) (xs ys : List Call)
    → reaching a m (xs ++ ys) ≡ reaching a m xs ++ reaching a m ys
reaching-append a m [] ys = refl
reaching-append a m (x ∷ xs) ys =
    ap (λ cs. (if reaches x a m then chunk_of x ∷ [] else []) ++ cs) (reaching-append a m xs ys)
    ∙ sym (
        append_assoc (if reaches x a m then chunk_of x ∷ [] else []) (reaching a m xs)
          (reaching a m ys))

reaching-spread :
    (a : SessionPtr) (all : SessionMap) (b : SessionPtr → Bool) (chunk : Chunk) (m : SessionMap)
    → IsProper m
    → Within m all
    → reaching a all (spread b chunk m) ≡ (if holds a m && b a then chunk ∷ [] else [])
unfolding find
reaching-spread a all b chunk [] h w = refl
reaching-spread a all b chunk ((k, p) ∷ m) h w =
    let rest = reaching-spread a all b chunk m h.2 (Within-tail k p m all w) in
    let here : holds k all ≡ true = w k (ground arith) in ground (arith, rest, here)

reaches-holds :
    (x : Call) (a : SessionPtr) (m : SessionMap) → (holds a m && reaches x a m) ≡ reaches x a m
reaches-holds (calls_write_to_all chunk) a m = ground arith
reaches-holds (calls_write_to id chunk) a m = ground arith
reaches-holds (calls_write_to_all_except id chunk) a m = ground arith

reaching-spread_calls :
    (a : SessionPtr) (all m : SessionMap) (calls : List Call)
    → IsProper m
    → Within m all
    → reaching a all (spread_calls m calls) ≡ reaching a m calls
reaching-spread_calls a all m [] h w = refl
reaching-spread_calls a all m (x ∷ calls) h w =
    reaching-append a all (spread (λ a'. reaches x a' m) (chunk_of x) m) (spread_calls m calls)
    ∙ rw
        (
          reaching-spread a all (λ a'. reaches x a' m) (chunk_of x) m h w,
          reaches-holds x a m,
          reaching-spread_calls a all m calls h w,
        )
        refl

reaching-ahead :
    (errors : SessionPtr → ErrorCode) (calls : SessionPtr → List Call) (a : SessionPtr)
    (all m : SessionMap)
    → IsProper m
    → Within m all
    → reaching a all (ahead errors calls m) ≡ said errors calls m a
reaching-ahead errors calls a all [] h w = refl
reaching-ahead errors calls a all ((k, p) ∷ m) h w =
    let w' = Within-tail k p m all w in
    ground (
      arith,
      reaching-append a all (spread_calls m (calls p)) (ahead errors calls m),
      reaching-spread_calls a all m (calls p) h.2 w',
      reaching-ahead errors calls a all m h.2 w',
    )

said_on :
    (errors : SessionPtr → ErrorCode) (calls : SessionPtr → List Call) (k p : SessionPtr)
    (m : SessionMap)
    → is_error (errors p) ≡ false
    → said errors calls ((k, p) ∷ m) ≡ (λ a. reaching a m (calls p) ++ said errors calls m a)
said_on errors calls k p m fine = fun_ext (λ a. rw fine refl)

said_no_more :
    (errors : SessionPtr → ErrorCode) (calls : SessionPtr → List Call) (k p : SessionPtr)
    (m : SessionMap) (server : Server)
    → is_error (errors p) ≡ true
    → server ≡ pour (said errors calls ((k, p) ∷ m)) server
unfolding pour poured
said_no_more errors calls k p m server failed =
    same_server server (pour (said errors calls ((k, p) ∷ m)) server) server refl refl
      (λ a. rw failed refl)

-- One round of the loop.
round :
    (errors : SessionPtr → ErrorCode) (calls : SessionPtr → List Call) (k p : SessionPtr)
    (m : SessionMap) (server : Server)
    → is_error (errors p) ≡ false
    → (close_each errors calls ((k, p) ∷ m) server
        ≡ close_each errors calls m
            (foldl call (Server.leave p success (at p shut server)) (calls p)))
      × (Server.close_each errors ((k, p) ∷ m) server
          ≡ Server.close_each errors m (Server.leave p success (at p shut server)))
unfolding close_each leave Server.close_each
round errors calls k p m server fine = (rw fine refl, rw fine refl)

failed_round :
    (errors : SessionPtr → ErrorCode) (calls : SessionPtr → List Call) (k p : SessionPtr)
    (m : SessionMap) (server : Server)
    → is_error (errors p) ≡ true
    → (close_each errors calls ((k, p) ∷ m) server ≡ (server, false))
      × (Server.close_each errors ((k, p) ∷ m) server ≡ (server, false))
unfolding close_each Server.close_each
failed_round errors calls k p m server failed = (rw failed refl, rw failed refl)

-- Writing to the sessions does not change which of them are left, nor what `close` does to them.
close_each-said :
    (errors : SessionPtr → ErrorCode) (calls : SessionPtr → List Call) (m : SessionMap)
    (server : Server)
    → IsProper m
    → server.sessions ≡ m
    → close_each errors calls m server
      ≡ Server.close_each errors m (pour (said errors calls m) server)
close_each-said errors calls [] server h e =
    unfold close_each in unfold Server.close_each in unfold pour in unfold poured in refl
close_each-said errors calls ((k, p) ∷ m) server h e = elim (Bool-cases (is_error (errors p))) [
  | inl failed ↦
      (failed_round errors calls k p m server failed).0
      ∙ (sym (failed_round errors calls k p m server failed).1
          ∙ ap (Server.close_each errors ((k, p) ∷ m))
              (said_no_more errors calls k p m server failed))
  | inr fine ↦
      let left = Server.leave p success (at p shut server) in
      let left_sessions = left-sessions k p m server h e in
      let poured_left = calls-pour_left left m (calls p) h.2 left_sessions in
      let then_said = λ (a : SessionPtr). reaching a m (calls p) ++ said errors calls m a in
      let poured_all : pour (said errors calls m) (foldl call left (calls p))
          ≡ Server.leave p success (at p shut (pour then_said server)) =
        ap (pour (said errors calls m)) poured_left
        ∙ (pour-pour (λ a. reaching a m (calls p)) (said errors calls m) left
            ∙ leave-pour p then_said server) in
      (round errors calls k p m server fine).0
      ∙ (close_each-said errors calls m (foldl call left (calls p)) h.2
            (kept left (calls p) m h.2 left_sessions)
          ∙ (ap (Server.close_each errors m) poured_all
              ∙ (sym (round errors calls k p m (pour then_said server) fine).1
                  ∙ ap (λ f. Server.close_each errors ((k, p) ∷ m) (pour f server))
                      (sym (said_on errors calls k p m fine)))))
]

-- `close` with the calls of its handlers is those calls, spread, and then `close`.
pub close-ahead :
    (errors : SessionPtr → ErrorCode) (calls : SessionPtr → List Call) (server : Server)
    → IsProper server.sessions
    → close errors calls server
      ≡ Server.close errors (foldl call server (ahead errors calls server.sessions))
unfolding close Server.close pour
close-ahead errors calls server h =
    let poured_ahead = calls-pour server (ahead errors calls server.sessions) h in
    let said_ahead : (λ (a : SessionPtr).
      reaching a server.sessions (ahead errors calls server.sessions))
        ≡ said errors calls server.sessions =
      fun_ext
        (λ a. reaching-ahead errors calls a server.sessions server.sessions h (λ _ held. held)) in
    close_each-said errors calls server.sessions server h refl
    ∙ (ap (λ f. Server.close_each errors server.sessions (pour f server)) (sym said_ahead)
        ∙ sym (ap {A = Server} (λ s. Server.close_each errors s.sessions s) poured_ahead))
