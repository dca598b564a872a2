-- ===== src/Net/Session/Threads.antt =====
-- src/net/tcp/server/session.cpp: `write` and `handle_write`, a statement at a time.
--
-- `Server::write_to` and its siblings call `Session::write` in the caller's thread, and the thread
-- `runner_` calls `handle_write`. Neither takes a lock. Here each thread stands between two
-- statements of what it runs, and a schedule says which of them goes on. A statement is taken to be
-- one step, which is more than the language promises.
mod Runner
mod Races
mod Examples
use sephi.Base.{
  ℕ, ◌≡◌, List, [], ◌∷◌, ◌++◌, tail, Bool, true, false, not, Option, none, some, if◌then◌else◌,
  ◌==◌, pick, is_empty,
}
use sephi.Net.Types.{Chunk}
use sephi.Net.Session.{Session, do_write}

pub data Place : Type 0 where
  outside : Place
  looked : Chunk → Bool → Place  -- in `write`, after `write_in_progress` got its value
  emplaced : Bool → Place  -- in `write`, after `emplace_back`
  completed : Place  -- in `handle_write`, after the test of `ec`
  popped : Place  -- in `handle_write`, after `pop_front`

pub record Threads : Type 0 where
  pub session : Session
  pub place : ℕ → Place

abbrev pub runner : ℕ
runner = 0

abbrev pub move : (ℕ → Place) → ℕ → Place → ℕ → Place
move place i p j = if i == j then p else place j

-- Thread `i` has got to `p`, with the session as it left it.
abbrev pub arrive : ℕ → Place → Session → Threads → Threads
arrive i p s t = record { session = s; place = move t.place i p }

-- `sending_messages_.emplace_back(chunk)`
abbrev pub emplace : Chunk → Session → Session
emplace chunk s = record s { sending_messages = s.sending_messages ++ chunk ∷ [] }

-- `sending_messages_.pop_front()`
abbrev pub pop : Session → Session
pop s = record s { sending_messages = tail s.sending_messages }

-- A call of `write` runs its first statement.
enter : ℕ → Chunk → Place → Threads → Threads
enter i chunk outside t =
    arrive i (looked chunk (not (is_empty t.session.sending_messages))) t.session t
enter i chunk _ t = t

-- `if (!write_in_progress) do_write();`
end_write : Bool → Session → Session
unfolding do_write
end_write write_in_progress s = if write_in_progress then s else do_write s

-- `if (!sending_messages_.empty()) do_write();`
end_handle_write : Session → Session
unfolding do_write
end_handle_write s = if is_empty s.sending_messages then s else do_write s

proceed : ℕ → Place → Threads → Threads
unfolding end_write end_handle_write
proceed i outside t = t
proceed i (looked chunk write_in_progress) t =
    arrive i (emplaced write_in_progress) (emplace chunk t.session) t
proceed i (emplaced write_in_progress) t =
    arrive i outside (end_write write_in_progress t.session) t
proceed i completed t = arrive i popped (pop t.session) t
proceed i popped t = arrive i outside (end_handle_write t.session) t

-- A write that is over is no longer under way, and its handler starts in the thread of the runner,
-- which has no other to run. With an error the handler returns, once `Server::leave` has; what that
-- does to the server is in Net/Server.antt.
complete : Option (Chunk × List Chunk) → Place → Place → Threads → Threads
complete (some (_, others)) next outside t =
    arrive runner next (record t.session { writing = others }) t
complete _ next _ t = t

pub data Input : Type 0 where
  calls_write : ℕ → Chunk → Input
  proceeds : ℕ → Input
  write_done : ℕ → Input  -- which of the writes under way
  write_fails : ℕ → Input

pub step : Threads → Input → Threads
unfolding enter proceed complete
step t (calls_write i chunk) = enter i chunk (t.place i) t
step t (proceeds i) = proceed i (t.place i) t
step t (write_done k) = complete (pick k t.session.writing) completed (t.place runner) t
step t (write_fails k) = complete (pick k t.session.writing) outside (t.place runner) t

-- No thread is in either function.
abbrev pub at_rest : Session → Threads
at_rest s = record { session = s; place = λ _. outside }
