-- ===== src/Net/Stream.antt =====
-- One direction of a TCP connection, as an interface: asio's socket and the network, which are not
-- part of the repository, take bytes on one side and give them on the other.
use sephi.Base.{
  ◌⊎◌, inl, inr, none, ◌-◌, length-append, arith, ◌≡◌, ◌≢◌, ◌≤◌, ◌<◌, ℕ, List, [], ◌∷◌, ◌++◌, refl,
  sym, ◌∙◌, ap, append-nil, append_assoc, length, drop, Option, some,
}
use sephi.Net.Types.{Chunk}

-- `receive` gives some bytes, at most so many; `none` is that there is nothing to give yet.
pub record Stream (S : Type 0) : Type 0 where
  pub transmit : Chunk → S → S
  pub receive : ℕ → S → Option (Chunk × S)

-- What TCP promises: the bytes that are given are those that were taken, in order, and if any are on
-- the way then some are given.
pub record StreamLaws {S : Type 0} (stream : Stream S) : Type 0 where
  pub in_flight : S → Chunk
  pub transmit-in_flight :
      (bytes : Chunk) (s : S) → in_flight (stream.transmit bytes s) ≡ in_flight s ++ bytes
  pub receive-in_flight :
      (n : ℕ) (s s' : S) (bytes : Chunk)
      → stream.receive n s ≡ some (bytes, s')
      → in_flight s ≡ bytes ++ in_flight s'
  pub receive-size :
      (n : ℕ) (s s' : S) (bytes : Chunk)
      → 0 < n
      → stream.receive n s ≡ some (bytes, s')
      → (0 < length bytes) × (length bytes ≤ n)
  pub receive-some :
      (n : ℕ) (s : S)
      → 0 < n
      → in_flight s ≢ []
      → (bytes : Chunk) × (s' : S) × (stream.receive n s ≡ some (bytes, s'))

abbrev pub bytes_of : List Chunk → Chunk
bytes_of [] = []
bytes_of (c ∷ cs) = c ++ bytes_of cs

pub bytes_of-append : (cs ds : List Chunk) → bytes_of (cs ++ ds) ≡ bytes_of cs ++ bytes_of ds
bytes_of-append [] ds = refl
bytes_of-append (c ∷ cs) ds =
    ap (λ xs. c ++ xs) (bytes_of-append cs ds) ∙ sym (append_assoc c (bytes_of cs) (bytes_of ds))

pub drop-append : (cs ds : List Chunk) → drop (length cs) (cs ++ ds) ≡ ds
drop-append [] ds = refl
drop-append (c ∷ cs) ds = drop-append cs ds

module _ {S : Type 0} (stream : Stream S) where
  -- The buffers of some `async_write`, one after the other.
  abbrev pub transmit_all : List Chunk → S → S
  transmit_all [] s = s
  transmit_all (c ∷ cs) s = transmit_all cs (stream.transmit c s)

  pub transmit_all-in_flight :
      (laws : StreamLaws stream) (cs : List Chunk) (s : S)
      → laws.in_flight (transmit_all cs s) ≡ laws.in_flight s ++ bytes_of cs
  transmit_all-in_flight laws [] s = sym (append-nil (laws.in_flight s))
  transmit_all-in_flight laws (c ∷ cs) s =
      transmit_all-in_flight laws cs (stream.transmit c s)
      ∙ (ap (λ xs. xs ++ bytes_of cs) (laws.transmit-in_flight c s)
          ∙ append_assoc (laws.in_flight s) c (bytes_of cs))

pub drop_all : (cs : List Chunk) → drop (length cs) cs ≡ []
drop_all [] = refl
drop_all (c ∷ cs) = drop_all cs

empty_or_not : {A : Type 0} (xs : List A) → (xs ≡ []) ⊎ (xs ≢ [])
empty_or_not [] = inl refl
empty_or_not (x ∷ xs) = inr (λ e. ground arith)

module _ {S : Type 0} (stream : Stream S) (laws : StreamLaws stream) where
  open laws use {in_flight}

  -- Where a read gives nothing, nothing is on the way.
  pub nothing_received :
      (n : ℕ) (s : S)
      → 0 < n
      → stream.receive n s ≡ none
      → length (in_flight s) ≤ length (in_flight s) - 1
  nothing_received n s room none_there = elim (empty_or_not (in_flight s)) [
    | inl e ↦ omega (arith, ap length e)
    | inr full ↦
        let (bytes, s', got) = laws.receive-some n s room full in
        absurd (ground (arith, none_there, got))
  ]

  -- A read that gives something leaves less on the way.
  pub something_received :
      (n : ℕ) (s s' : S) (bytes : Chunk)
      → 0 < n
      → stream.receive n s ≡ some (bytes, s')
      → length (in_flight s') ≤ length (in_flight s) - 1
  something_received n s s' bytes room got = omega (
    arith,
    ap length (laws.receive-in_flight n s s' bytes got),
    length-append bytes (in_flight s'),
    (laws.receive-size n s s' bytes room got).0,
  )
