-- ===== src/Net/SendLoop.antt =====
-- The sending that client.cpp, serial.cpp and session.cpp share: a deque of chunks of which the
-- front is given to `async_write`, and the next one when that has completed. `SendLoop` is what an
-- endpoint shows of it, and the theorems below hold for every endpoint that has it.
use sephi.Base.{
  ◌≡◌, ◌≢◌, ◌⊎◌, inl, inr, ℕ, zero, suc, List, [], ◌∷◌, ◌++◌, tail, take, pick, refl, sym, ◌∙◌, ap,
  Option, none, some, append_assoc, append-nil, foldl, foldl_inv, outputs, arith,
}
use sephi.Net.Types.{Chunk}

-- At most one write is under way, and its buffer is the front of the deque.
abbrev pub OneWrite : List Chunk → List Chunk → Type 0
OneWrite writing sending = (writing ≡ []) ⊎ (writing ≡ take 1 sending)

-- The chunks given to `async_write`, then those behind the front, then those posted.
abbrev pub flow : List Chunk → List Chunk → List Chunk → List Chunk
flow written sending waiting = written ++ (tail sending ++ waiting)

pub flow-append :
    (written sending waiting more : List Chunk)
    → flow written sending (waiting ++ more) ≡ flow written sending waiting ++ more
flow-append written sending waiting more = simp append_assoc

-- A write that completes is the front, and no other is under way.
abbrev pub Picks : Option (Chunk × List Chunk) → List Chunk → Type 0
Picks r sending =
    (r ≡ none) ⊎ ((m : Chunk) × (others : List Chunk) × (r ≡ some (m, [])) × (sending ≡ m ∷ others))

pub pick-OneWrite :
    (i : ℕ) (writing sending : List Chunk)
    → OneWrite writing sending
    → Picks (pick i writing) sending
pick-OneWrite i [] sending h = inl refl
pick-OneWrite i (w ∷ ws) [] h = absurd (ground arith)
pick-OneWrite zero (w ∷ ws) (m ∷ ms) h = inr (m, ms, ground arith, refl)
pick-OneWrite (suc i) (w ∷ ws) (m ∷ ms) h = inl (ground arith)

pub record SendLoop (S I : Type 0) : Type 0 where
  pub step : S → I → S
  pub sending : S → List Chunk
  pub writing : S → List Chunk
  pub written : S → List Chunk
  pub waiting : S → List Chunk
  pub accepted : S → I → List Chunk
  pub keeps :
      (s : S) (i : I)
      → OneWrite (writing s) (sending s)
      → OneWrite (writing (step s i)) (sending (step s i))
  pub flows :
      (s : S) (i : I)
      → OneWrite (writing s) (sending s)
      → flow (written (step s i)) (sending (step s i)) (waiting (step s i))
        ≡ flow (written s) (sending s) (waiting s) ++ accepted s i
  pub stalls :
      (s : S) (i : I)
      → writing s ≡ []
      → sending s ≢ []
      → (written (step s i) ≡ written s) × (writing (step s i) ≡ []) × (sending (step s i) ≢ [])

module _ {S I : Type 0} (l : SendLoop S I) where
  open l use {step, sending, writing, written, waiting, accepted, keeps, flows, stalls}

  pub run-OneWrite :
      (s : S) (is : List I)
      → OneWrite (writing s) (sending s)
      → OneWrite (writing (foldl step s is)) (sending (foldl step s is))
  run-OneWrite = foldl_inv (λ s. OneWrite (writing s) (sending s)) step keeps

  -- Nothing is lost, sent twice or reordered.
  pub run-flow :
      (s : S) (is : List I)
      → OneWrite (writing s) (sending s)
      → flow (written (foldl step s is)) (sending (foldl step s is)) (waiting (foldl step s is))
        ≡ flow (written s) (sending s) (waiting s) ++ outputs step accepted s is
  unfolding outputs
  run-flow s [] h = sym (append-nil _)
  run-flow s (i ∷ is) h =
      run-flow (step s i) is (keeps s i h)
      ∙ (ap (λ xs. xs ++ outputs step accepted (step s i) is) (flows s i h)
          ∙ append_assoc _ (accepted s i) (outputs step accepted (step s i) is))

  -- With chunks left and no write under way, nothing is ever written again.
  pub run-stalled :
      (s : S) (is : List I)
      → writing s ≡ []
      → sending s ≢ []
      → (written (foldl step s is) ≡ written s) × (sending (foldl step s is) ≢ [])
  run-stalled s [] w n = (refl, n)
  run-stalled s (i ∷ is) w n =
      let (same, idle, full) = stalls s i w n in
      let (same', full') = run-stalled (step s i) is idle full in (same' ∙ same, full')
