-- ===== src/Ipc/MessageQueue/Priorities.antt =====
-- What a queue of messages with priorities promises: the highest priority first, and messages of one
-- priority in the order in which they were sent.
use sephi.Base.{
  ℕ, suc, ◌+◌, ◌≡◌, ◌≤◌, ◌<◌, List, [], ◌∷◌, ◌++◌, if◌then◌else◌, ◌==◌, ltb, length, arith, refl,
  ◌∙◌, append_assoc, append-nil, All, Bool-cases, inl, inr, sym,
}
use sephi.Net.Types.{Chunk}

-- A priority and the bytes.
abbrev pub Message : Type 0
Message = ℕ × Chunk

abbrev pub insert : Message → List Message → List Message
insert m [] = m ∷ []
insert m (n ∷ ns) = if ltb n.0 m.0 then m ∷ n ∷ ns else n ∷ insert m ns

abbrev pub of_priority : ℕ → List Message → List Message
of_priority p [] = []
of_priority p (m ∷ ms) = if m.0 == p then m ∷ of_priority p ms else of_priority p ms

-- No message stands before one of a higher priority.
abbrev pub Descending : List Message → Type 0
Descending [] = Unit
Descending (m ∷ ms) = All (λ n. n.0 ≤ m.0) ms × Descending ms

insert-All :
    (q : ℕ) (m : Message) (ns : List Message)
    → m.0 ≤ q
    → All (λ n. n.0 ≤ q) ns
    → All (λ n. n.0 ≤ q) (insert m ns)
insert-All q m [] h a = (h, tt)
insert-All q m (n ∷ ns) h (x, a) = ground (arith, insert-All q m ns h a)

All-weaken : (q r : ℕ) (ns : List Message) → q ≤ r → All (λ n. n.0 ≤ q) ns → All (λ n. n.0 ≤ r) ns
All-weaken q r [] h a = tt
All-weaken q r (n ∷ ns) h (x, a) = (omega arith, All-weaken q r ns h a)

above-of_priority :
    (p q : ℕ) (ns : List Message) → q < p → All (λ n. n.0 ≤ q) ns → of_priority p ns ≡ []
above-of_priority p q [] h a = refl
above-of_priority p q (n ∷ ns) h (x, a) = ground (arith, above-of_priority p q ns h a)

pub insert-Descending : (m : Message) (ns : List Message) → Descending ns → Descending (insert m ns)
insert-Descending m [] h = (tt, tt)
insert-Descending m (n ∷ ns) (a, h) = elim (Bool-cases (ltb n.0 m.0)) [
  | inl less ↦ rw less ((ground arith, All-weaken n.0 m.0 ns (ground arith) a), (a, h))
  | inr not_less ↦ rw not_less (insert-All n.0 m ns (ground arith) a, insert-Descending m ns h)
]

pub of_priority-insert :
    (p : ℕ) (m : Message) (ns : List Message)
    → Descending ns
    → of_priority p (insert m ns) ≡ of_priority p ns ++ of_priority p (m ∷ [])
of_priority-insert p m [] h = refl
of_priority-insert p m (n ∷ ns) (a, h) = elim (Bool-cases (ltb n.0 m.0)) [
  | inl less ↦ elim (Bool-cases (m.0 == p)) [
    | inl same ↦ ground (arith, above-of_priority p n.0 ns (ground arith) a)
    | inr other ↦ rw (less, other) (sym (append-nil (of_priority p (n ∷ ns))))
  ]
  | inr not_less ↦ ground (arith, of_priority-insert p m ns h)
]

pub length-insert : (m : Message) (ns : List Message) → length (insert m ns) ≡ suc (length ns)
length-insert m [] = refl
length-insert m (n ∷ ns) = ground (arith, length-insert m ns)

-- What a queue that held nothing holds after messages were put in.
abbrev pub queued : List Message → List Message → List Message
queued ns [] = ns
queued ns (m ∷ ms) = queued (insert m ns) ms

pub queued-Descending : (ns ms : List Message) → Descending ns → Descending (queued ns ms)
queued-Descending ns [] h = h
queued-Descending ns (m ∷ ms) h = queued-Descending (insert m ns) ms (insert-Descending m ns h)

pub of_priority-queued :
    (p : ℕ) (ns ms : List Message)
    → Descending ns
    → of_priority p (queued ns ms) ≡ of_priority p ns ++ of_priority p ms
of_priority-queued p ns [] h = sym (append-nil (of_priority p ns))
of_priority-queued p ns (m ∷ ms) h =
    of_priority-queued p (insert m ns) ms (insert-Descending m ns h)
    ∙ ground (
      arith,
      of_priority-insert p m ns h,
      append_assoc (of_priority p ns) (of_priority p (m ∷ [])) (of_priority p ms),
    )

pub length-queued : (ns ms : List Message) → length (queued ns ms) ≡ length ns + length ms
length-queued ns [] = omega arith
length-queued ns (m ∷ ms) = omega (arith, length-queued (insert m ns) ms, length-insert m ns)
