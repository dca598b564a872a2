-- ===== src/Net/Udp/Buffers/Examples.antt =====
-- The buffers of the UDP endpoint at small runs.
use mathlib.Core.List.{Permᴰ}
use sephi.Base.{ℕ, ◌≡◌, refl, List, [], ◌∷◌, ◌++◌, foldl, outputs, Along, Option, none, some}
use sephi.Net.Types.{Chunk, Remote}
use sephi.Net.Udp.Buffers.{
  Lender, Input, assigns, destroys, writes_to, broadcasts, transmits, IsKept, step, asked,
}
use sephi.Net.Udp.Buffers.Keeping.{in_all, kept_chunks_are_sent}

abbrev address_of : ℕ → Option ℕ
address_of a = some a

abbrev peer : Remote ℕ
peer = record { address = 10; port = 7 }

abbrev hello : Chunk
hello = 1 ∷ (2 ∷ [])

abbrev other : Chunk
other = 3 ∷ []

abbrev fresh : Lender ℕ
fresh = record { memory = λ w. some hello; lent = []; datagrams = [] }

-- The first chunk is sent to a peer and to everybody; both operations are performed, the second first,
-- and then the chunk is destroyed.
abbrev careful : List (Input ℕ)
careful = writes_to peer 0 ∷ (broadcasts 9 0 ∷ (transmits 1 ∷ (transmits 0 ∷ (destroys 0 ∷ []))))

careful_sends :
    (foldl (step address_of 255) fresh careful).datagrams
    ≡ (record { ip = 255; port = 9 }, some hello)
      ∷ ((record { ip = 10; port = 7 }, some hello) ∷ [])
unfolding step
careful_sends = refl

careful-IsKept : Along (step address_of 255) IsKept fresh careful
unfolding step
careful-IsKept = (tt, (tt, (tt, (tt, (tt, tt)))))

kept_chunks_are_sent_example :
    Permᴰ
      (in_all (foldl (step address_of 255) fresh careful))
      (in_all fresh ++ outputs (step address_of 255) (asked address_of 255) fresh careful)
kept_chunks_are_sent_example = kept_chunks_are_sent address_of 255 fresh careful careful-IsKept

-- The chunk is given another value before the operation is performed, or destroyed.
changed_chunk :
    let run = λ (is : List (Input ℕ)). (foldl (step address_of 255) fresh is).datagrams in
    (run (writes_to peer 0 ∷ (assigns 0 other ∷ (transmits 0 ∷ [])))
      ≡ (record { ip = 10; port = 7 }, some other) ∷ [])
    × (run (writes_to peer 0 ∷ (destroys 0 ∷ (transmits 0 ∷ [])))
        ≡ (record { ip = 10; port = 7 }, none) ∷ [])
unfolding step
changed_chunk = (refl, refl)
