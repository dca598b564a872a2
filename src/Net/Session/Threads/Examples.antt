-- ===== src/Net/Session/Threads/Examples.antt =====
-- The statements of session.cpp on small schedules, and the theorems at concrete sessions.
use sephi.Base.{All, ℕ, ◌≡◌, ◌≢◌, refl, List, [], ◌∷◌, ◌++◌, foldl, inr, outputs}
use sephi.Net.Types.{Chunk}
use sephi.Net.Session.{Session, new_session, write, IsSound, flow_of}
use sephi.Net.Session.Threads.{
  outside, completed, runner, Input, calls_write, proceeds, write_done, write_fails, step, at_rest,
}
use sephi.Net.Session.Threads.Runner.{OfRunner, settled, accepted, runner_calls_lose_nothing}
use sephi.Net.Session.Threads.Races.{
  both_write, both_complete, none_writes, after, chunk_is_written_twice, racing_write_stalls,
}

abbrev ping : Chunk
ping = 1 ∷ (2 ∷ [])

abbrev pong : Chunk
pong = 3 ∷ []

abbrev busy : Session
busy = record new_session { sending_messages = ping ∷ []; writing = ping ∷ []; written = ping ∷ [] }

-- A session gets there by one call of `write`.
busy_lem : write ping new_session ≡ busy
unfolding write
busy_lem = refl

-- The runner writes a chunk from a packet handler, then the write of the first one ends, and while
-- the runner is in `handle_write` nothing else begins.
abbrev orderly : List Input
orderly =
    calls_write runner pong
    ∷ (proceeds runner
        ∷ (proceeds runner
            ∷ (write_done 0
                ∷ (calls_write runner ping ∷ (proceeds runner ∷ (proceeds runner ∷ []))))))

orderly_writes : (foldl step (at_rest busy) orderly).session.written ≡ ping ∷ (pong ∷ [])
unfolding step
orderly_writes = refl

-- A failed write leaves its chunk at the front.
failure_keeps_front :
    (foldl step (at_rest busy) (write_fails 0 ∷ [])).session.sending_messages ≡ ping ∷ []
unfolding step
failure_keeps_front = refl

of_runner : All OfRunner orderly
of_runner = (refl, (refl, (refl, (tt, (refl, (refl, (refl, tt)))))))

runner_calls_lose_nothing_example :
    IsSound (settled (foldl step (at_rest busy) orderly))
    × (flow_of (settled (foldl step (at_rest busy) orderly))
        ≡ flow_of (settled (at_rest busy)) ++ outputs step accepted (at_rest busy) orderly)
unfolding settled
runner_calls_lose_nothing_example =
    runner_calls_lose_nothing (at_rest busy) orderly of_runner (inr refl)

chunk_is_written_twice_example :
    ((after busy (both_write 0 pong)).session.writing ≡ pong ∷ (pong ∷ []))
    × ((after busy (both_write 0 pong)).session.written ≡ busy.written ++ pong ∷ (pong ∷ []))
    × ((j : ℕ) → (after busy (both_write 0 pong)).place j ≡ outside)
    × ((after busy (both_write 0 pong ++ both_complete)).place runner ≡ completed)
    × ((after busy (both_write 0 pong ++ both_complete)).session.sending_messages ≡ [])
chunk_is_written_twice_example = chunk_is_written_twice busy ping refl refl 0 pong

racing_write_stalls_example :
    ((after busy (none_writes 0 pong ++ calls_write 2 ping ∷ [])).session.written ≡ busy.written)
    × ((after busy (none_writes 0 pong ++ calls_write 2 ping ∷ [])).session.sending_messages ≢ [])
racing_write_stalls_example =
    racing_write_stalls busy ping refl refl 0 pong (calls_write 2 ping ∷ [])
