-- ===== src/Net/Session/Threads/Runner.antt =====
-- Session.antt takes `write` and `handle_write` as steps of one thread. Here the thread of the
-- runner is the only one, as in a packet handler that writes.
use sephi.Base.{
  ℕ, ◌≡◌, ◌∙◌, refl, sym, ap, List, [], ◌∷◌, ◌++◌, foldl, Option, none, some, if◌then◌else◌, pick,
  is_empty, outputs, arith, All, append-nil, inl, inr, append_assoc,
}
use sephi.Net.Types.{Chunk}
use sephi.Net.Session.{
  Session, do_write, write, pop_front, IsSound, flow_of, write-IsSound, flow_of-write,
  pop_front-IsSound, flow_of-pop_front,
}
use sephi.Net.SendLoop.{Picks, pick-OneWrite}
use sephi.Net.Session.Threads.{
  Place, outside, looked, emplaced, completed, popped, Threads, runner, emplace, Input, calls_write,
  proceeds, write_done, write_fails, step,
}

-- What a thread that stands at a place has still to do.
finish : Place → Session → Session
finish outside s = s
finish (looked chunk write_in_progress) s =
    let s' = emplace chunk s in if write_in_progress then s' else do_write s'
finish (emplaced write_in_progress) s = if write_in_progress then s else do_write s
finish completed s = pop_front s
finish popped s = if is_empty s.sending_messages then s else do_write s

-- The session as it will be when the runner has left the function that it is in.
unfoldable pub settled : Threads → Session
unfolding finish
settled t = finish (t.place runner) t.session

-- The operations of the session, each in one step.
pub data Operation : Type 0 where
  writes : Chunk → Operation
  finds_written : ℕ → Operation
  finds_failed : ℕ → Operation

-- `handle_write`, with and without an error.
written : Option (Chunk × List Chunk) → Session → Session
written none s = s
written (some (_, others)) s = pop_front (record s { writing = others })

failed : Option (Chunk × List Chunk) → Session → Session
failed none s = s
failed (some (_, others)) s = record s { writing = others }

pub apply : Session → Operation → Session
unfolding written failed
apply s (writes chunk) = write chunk s
apply s (finds_written k) = written (pick k s.writing) s
apply s (finds_failed k) = failed (pick k s.writing) s

starts : Place → Input → List Operation
starts outside (calls_write i chunk) = writes chunk ∷ []
starts outside (write_done k) = finds_written k ∷ []
starts outside (write_fails k) = finds_failed k ∷ []
starts _ _ = []

-- What the runner starts with an input.
pub started : Threads → Input → List Operation
unfolding starts
started t i = starts (t.place runner) i

abbrev pub OfRunner : Input → Type 0
OfRunner (calls_write i chunk) = i ≡ runner
OfRunner (proceeds i) = i ≡ runner
OfRunner _ = Unit

step-settled :
    (t : Threads) (i : Input)
    → OfRunner i
    → settled (step t i) ≡ foldl apply (settled t) (started t i)
unfolding step settled started apply write pop_front
step-settled t (calls_write i chunk) h = ground arith
step-settled t (proceeds i) h = ground arith
step-settled t (write_done k) h = ground arith
step-settled t (write_fails k) h = ground arith

abbrev pub chunks : Session → Operation → List Chunk
chunks s (writes chunk) = chunk ∷ []
chunks s _ = []

written-IsSound :
    (r : Option (Chunk × List Chunk)) (s : Session)
    → Picks r s.sending_messages
    → IsSound s
    → IsSound (written r s)
unfolding written
written-IsSound none s picks h = h
written-IsSound (some (_, others)) s (inl e) h = absurd (cc)
written-IsSound (some (_, others)) s (inr (m, ms, e, front)) h =
    pop_front-IsSound (record s { writing = others }) (cc)

apply-IsSound : (s : Session) (o : Operation) → IsSound s → IsSound (apply s o)
unfolding apply
apply-IsSound s (writes chunk) h = write-IsSound chunk s h
apply-IsSound s (finds_written k) h =
    written-IsSound (pick k s.writing) s (pick-OneWrite k s.writing s.sending_messages h) h
apply-IsSound s (finds_failed k) h = ground (arith, pick-OneWrite k s.writing s.sending_messages h)

written-flow_of :
    (r : Option (Chunk × List Chunk)) (s : Session)
    → Picks r s.sending_messages
    → flow_of (written r s) ≡ flow_of s
unfolding written
written-flow_of none s picks = refl
written-flow_of (some (_, others)) s (inl e) = absurd (cc)
written-flow_of (some (_, others)) s (inr (m, ms, e, front)) =
    flow_of-pop_front (record s { writing = others }) m ms front

failed-flow_of : (r : Option (Chunk × List Chunk)) (s : Session) → flow_of (failed r s) ≡ flow_of s
unfolding failed
failed-flow_of none s = refl
failed-flow_of (some (_, others)) s = refl

apply-flow_of :
    (s : Session) (o : Operation) → IsSound s → flow_of (apply s o) ≡ flow_of s ++ chunks s o
unfolding apply
apply-flow_of s (writes chunk) h = flow_of-write chunk s
apply-flow_of s (finds_written k) h =
    written-flow_of (pick k s.writing) s (pick-OneWrite k s.writing s.sending_messages h)
    ∙ sym (append-nil (flow_of s))
apply-flow_of s (finds_failed k) h =
    failed-flow_of (pick k s.writing) s ∙ sym (append-nil (flow_of s))

-- The chunks of the calls of `write` that begin.
accepts : Place → Input → List Chunk
accepts outside (calls_write i chunk) = chunk ∷ []
accepts _ _ = []

pub accepted : Threads → Input → List Chunk
unfolding accepts
accepted t i = accepts (t.place runner) i

apply_lem :
    (s : Session) (o : Operation)
    → IsSound s
    → IsSound (apply s o) × (flow_of (apply s o) ≡ flow_of s ++ chunks s o)
apply_lem s o h = (apply-IsSound s o h, apply-flow_of s o h)

starts_lem :
    (p : Place) (s : Session) (i : Input)
    → IsSound s
    → IsSound (foldl apply s (starts p i))
      × (flow_of (foldl apply s (starts p i)) ≡ flow_of s ++ accepts p i)
unfolding starts accepts
starts_lem outside s (calls_write i chunk) h = apply_lem s (writes chunk) h
starts_lem outside s (write_done k) h = apply_lem s (finds_written k) h
starts_lem outside s (write_fails k) h = apply_lem s (finds_failed k) h
starts_lem _ s _ h = (h, sym (append-nil (flow_of s)))

step-flow_of :
    (t : Threads) (i : Input)
    → OfRunner i
    → IsSound (settled t)
    → IsSound (settled (step t i))
      × (flow_of (settled (step t i)) ≡ flow_of (settled t) ++ accepted t i)
unfolding started accepted
step-flow_of t i r h = rw (step-settled t i r) (starts_lem (t.place runner) (settled t) i h)

-- While no thread but the runner's is in `write` or `handle_write`, no chunk is lost, sent twice or
-- overtaken, and no two writes are under way at once: from a session with at most the front of its
-- deque under way, every schedule leaves one which, when the runner has left the function that it is
-- in, has so again, and whose chunks given to `async_write`, with those behind the front of the deque,
-- are those of before and then those of all calls of `write`, in the order of the calls.
pub runner_calls_lose_nothing :
    (t : Threads) (is : List Input)
    → All OfRunner is
    → IsSound (settled t)
    → IsSound (settled (foldl step t is))
      × (flow_of (settled (foldl step t is)) ≡ flow_of (settled t) ++ outputs step accepted t is)
unfolding outputs
runner_calls_lose_nothing t [] h sound = (sound, sym (append-nil _))
runner_calls_lose_nothing t (i ∷ is) (h, hs) sound =
    let (sound', e) = step-flow_of t i h sound in
    let (sound'', e') = runner_calls_lose_nothing (step t i) is hs sound' in
    (
      sound'',
      e'
          ∙ (ap (λ xs. xs ++ outputs step accepted (step t i) is) e
              ∙ append_assoc _ (accepted t i) _),
    )
