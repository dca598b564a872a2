-- ===== src/Net/Session/Threads/Races.antt =====
-- What goes wrong when a thread calls `write` while the runner is in `handle_write`.
use sephi.Base.{ℕ, suc, ◌≡◌, ◌≢◌, ◌∙◌, refl, List, [], ◌∷◌, ◌++◌, foldl, true, arith, append_assoc}
use sephi.Net.Types.{Chunk}
use sephi.Net.Session.{Session, do_write}
use sephi.Net.Session.Threads.{
  Place, outside, looked, emplaced, completed, popped, Threads, runner, Input, calls_write,
  proceeds, write_done, write_fails, step, at_rest,
}

-- The runner has popped the chunk that was written, and a thread finds the deque empty; its chunk is
-- in the deque when the runner looks, and both call `do_write`.
abbrev pub both_write : ℕ → Chunk → List Input
both_write u chunk =
    write_done 0
    ∷ (proceeds runner
        ∷ (calls_write (suc u) chunk
            ∷ (proceeds (suc u) ∷ (proceeds runner ∷ (proceeds (suc u) ∷ [])))))

-- Both writes end; the runner is in the second `handle_write`.
abbrev pub both_complete : List Input
both_complete = write_done 0 ∷ (proceeds runner ∷ (proceeds runner ∷ (write_done 0 ∷ [])))

-- A thread finds a write in progress; it ends, and the runner finds nothing more to write before the
-- thread's chunk is in the deque.
abbrev pub none_writes : ℕ → Chunk → List Input
none_writes u chunk =
    calls_write (suc u) chunk
    ∷ (write_done 0
        ∷ (proceeds runner ∷ (proceeds runner ∷ (proceeds (suc u) ∷ (proceeds (suc u) ∷ [])))))

-- What a schedule makes of a session that no thread is in.
abbrev pub after : Session → List Input → Threads
after s is = foldl step (at_rest s) is

-- A thread at the place gives nothing to `async_write`.
abbrev IsIdle : Place → Type 0
IsIdle outside = Unit
IsIdle (looked chunk write_in_progress) = write_in_progress ≡ true
IsIdle (emplaced write_in_progress) = write_in_progress ≡ true
IsIdle completed = ⊥
IsIdle popped = ⊥

record IsStalled (t : Threads) : Type 0 where
  none_under_way : t.session.writing ≡ []
  some_left : t.session.sending_messages ≢ []
  idle : (j : ℕ) → IsIdle (t.place j)

append-ne-nil : (xs : List Chunk) (chunk : Chunk) → xs ++ chunk ∷ [] ≢ []
append-ne-nil [] chunk e = cc
append-ne-nil (x ∷ xs) chunk e = cc

step-IsStalled :
    (t : Threads) (i : Input)
    → IsStalled t
    → IsStalled (step t i) × ((step t i).session.written ≡ t.session.written)
unfolding step
step-IsStalled t (calls_write i chunk) h = (
  record {
    none_under_way = ground (arith, h.idle i);
    some_left = ground (arith, h.idle i);
    idle = λ j. ground (arith, h.idle j, h.idle i);
  },
  ground (arith, h.idle i),
)
step-IsStalled t (proceeds i) h = (
  record {
    none_under_way = ground (arith, h.idle i);
    some_left = ground (arith, h.idle i, append-ne-nil t.session.sending_messages);
    idle = λ j. ground (arith, h.idle j, h.idle i);
  },
  ground (arith, h.idle i),
)
step-IsStalled t (write_done k) h = (
  record {
    none_under_way = ground (arith, h.idle runner);
    some_left = ground (arith, h.idle runner);
    idle = λ j. ground (arith, h.idle j, h.idle runner);
  },
  ground (arith, h.idle runner),
)
step-IsStalled t (write_fails k) h = (
  record {
    none_under_way = ground (arith, h.idle runner);
    some_left = ground (arith, h.idle runner);
    idle = λ j. ground (arith, h.idle j, h.idle runner);
  },
  ground (arith, h.idle runner),
)

run-IsStalled :
    (t : Threads) (is : List Input)
    → IsStalled t
    → ((foldl step t is).session.written ≡ t.session.written)
      × ((foldl step t is).session.sending_messages ≢ [])
run-IsStalled t [] h = (refl, h.some_left)
run-IsStalled t (i ∷ is) h =
    let (h', same) = step-IsStalled t i h in
    let (same', left) = run-IsStalled (step t i) is h' in (same' ∙ same, left)

module _ (s : Session) (m : Chunk) (queued : s.sending_messages ≡ m ∷ [])
    (under_way : s.writing ≡ m ∷ []) where
  -- From a session with one chunk in its deque, which is under way, any thread's call of `write` can
  -- meet the end of that write so that its chunk is given to `async_write` twice, both writes being
  -- under way at once, with every thread out of the functions; and when both have ended,
  -- `handle_write` is about to pop from an empty deque.
  pub chunk_is_written_twice :
      (u : ℕ) (chunk : Chunk)
      → ((after s (both_write u chunk)).session.writing ≡ chunk ∷ (chunk ∷ []))
        × ((after s (both_write u chunk)).session.written ≡ s.written ++ chunk ∷ (chunk ∷ []))
        × ((j : ℕ) → (after s (both_write u chunk)).place j ≡ outside)
        × ((after s (both_write u chunk ++ both_complete)).place runner ≡ completed)
        × ((after s (both_write u chunk ++ both_complete)).session.sending_messages ≡ [])
  unfolding step do_write
  chunk_is_written_twice u chunk = (
    ground arith,
    ground (arith, append_assoc s.written (chunk ∷ []) (chunk ∷ [])),
    λ j. ground arith,
    ground arith,
    ground arith,
  )

  none_writes-IsStalled :
      (u : ℕ) (chunk : Chunk)
      → IsStalled (after s (none_writes u chunk))
        × ((after s (none_writes u chunk)).session.written ≡ s.written)
  unfolding step do_write
  none_writes-IsStalled u chunk = (
    record { none_under_way = ground arith; some_left = ground arith; idle = λ j. ground arith },
    ground arith,
  )

  -- From a session with one chunk in its deque, which is under way, any thread's call of `write` can
  -- meet the end of that write so that nothing is given to `async_write` ever again, whatever the
  -- threads call and the runner does after it, while the deque never gets empty.
  pub racing_write_stalls :
      (u : ℕ) (chunk : Chunk) (is : List Input)
      → ((after s (none_writes u chunk ++ is)).session.written ≡ s.written)
        × ((after s (none_writes u chunk ++ is)).session.sending_messages ≢ [])
  racing_write_stalls u chunk is =
      let (h, same) = none_writes-IsStalled u chunk in
      let (same', left) = run-IsStalled (after s (none_writes u chunk)) is h in (same' ∙ same, left)
