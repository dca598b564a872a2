-- ===== src/Net/Udp/Reading.antt =====
-- Which datagrams the receive loop hands to the message handler.
use mathlib.Core.List.{map}
use sephi.Base.{
  ◌≡◌, ℕ, zero, suc, ◌+◌, ◌^◌, ◌≤◌, ◌<◌, List, [], ◌∷◌, ◌++◌, foldl, refl, sym, ◌∙◌, ap, length,
  take, replicate, All, arith, false, append-nil, append_assoc, take_self,
}
use sephi.Net.Types.{Chunk, success, Remote, Endpoint, running}
use sephi.Net.Udp.{
  got, SocketOps, LoopEnd, finished, Udp, read_done, sub64, to_remote, deliver, read_loop,
  handle_read, step,
}

-- The bytes of some datagrams.
abbrev pub total : {Ip : Type 0} → List (Endpoint Ip × Chunk) → ℕ
total [] = 0
total ((ep, bytes) ∷ ds) = length bytes + total ds

abbrev pub HasBytes : {Ip : Type 0} → Endpoint Ip × Chunk → Type 0
HasBytes (ep, bytes) = 0 < length bytes

module _ {Sock Ip Address : Type 0} (ops : SocketOps Sock Ip Address) where
  open ops use {available, receive_from, to_string}

  -- A socket is a queue of datagrams: a blocking receive takes the oldest, cut to the buffer's size.
  abbrev pub IsQueue : (Sock → List (Endpoint Ip × Chunk)) → Type 0
  IsQueue queue =
      (s : Sock) (n : ℕ) (ep : Endpoint Ip) (bytes : Chunk) (rest : List (Endpoint Ip × Chunk))
      → queue s ≡ (ep, bytes) ∷ rest
      → (s' : Sock) × (receive_from s n ≡ got ep (take n bytes) s') × (queue s' ≡ rest)

  -- The call of the message handler for a datagram.
  unfoldable pub message : Endpoint Ip × Chunk → Remote Address × Chunk
  unfolding to_remote
  message (ep, bytes) = (to_remote ops ep, bytes)

  read_loop_got :
      (fuel left : ℕ) (u : Udp Sock Ip Address) (ep : Endpoint Ip) (bytes : Chunk) (s : Sock)
      → receive_from u.socket (suc left) ≡ got ep bytes s
      → read_loop ops (suc fuel) (suc left) u
        ≡ read_loop ops fuel (sub64 (suc left) (length bytes)) (deliver ops ep bytes s u)
  unfolding read_loop
  read_loop_got fuel left u ep bytes s e = rw (e, read_loop)

  -- One completion with an empty datagram at the front.
  spins :
      (u : Udp Sock Ip Address)
      → u.runner ≡ running
      → u.is_blocked ≡ false
      → u.reading ≡ 1
      → available u.socket ≡ 0
      → step ops u (read_done success u.socket) ≡ u
  unfolding step
  spins u up free one none_there = ground arith

  module _ (queue : Sock → List (Endpoint Ip × Chunk)) (takes : IsQueue queue) where
    abbrev Delivers :
        List (Endpoint Ip × Chunk)
        → List (Endpoint Ip × Chunk)
        → Udp Sock Ip Address
        → Udp Sock Ip Address × LoopEnd
        → Type 0
    Delivers ds rest u (u', end) =
        (end ≡ finished)
        × (u'.message_calls ≡ u.message_calls ++ map message ds)
        × (queue u'.socket ≡ rest)
        × (u'.reading ≡ u.reading)
        × (u'.error_calls ≡ u.error_calls)
        × (u'.is_blocked ≡ u.is_blocked)
        × (u'.runner ≡ u.runner)

    read_loop-Delivers :
        (ds rest : List (Endpoint Ip × Chunk)) (fuel left : ℕ) (u : Udp Sock Ip Address)
        → queue u.socket ≡ ds ++ rest
        → All HasBytes ds
        → left ≡ total ds
        → left < 2 ^ 64
        → length ds < fuel
        → Delivers ds rest u (read_loop ops fuel left u)
    unfolding read_loop message
    read_loop-Delivers ds rest zero left u q h e small lt = absurd (omega arith)
    read_loop-Delivers [] rest (suc fuel) zero u q h e small lt =
        (refl, sym (append-nil u.message_calls), q, refl, refl, refl, refl)
    read_loop-Delivers [] rest (suc fuel) (suc left) u q h e small lt = absurd (omega arith)
    read_loop-Delivers ((ep, d) ∷ ds) rest (suc fuel) zero u q h e small lt =
        absurd (omega (arith, h.0))
    read_loop-Delivers ((ep, d) ∷ ds) rest (suc fuel) (suc left) u q h e small lt =
        let (s', received, q') = takes u.socket (suc left) ep d (ds ++ rest) q in
        let whole = ap (λ b. got ep b s') (take_self (suc left) d (omega arith)) in
        let next = deliver ops ep d s' u in
        let (done, told, kept, same, same', free, up) =
          read_loop-Delivers ds rest fuel (sub64 (suc left) (length d)) next q' h.1 (omega arith)
            (omega arith) (omega arith) in
        rw (read_loop_got fuel left u ep d s' (received ∙ whole)) (
          done,
          told ∙ append_assoc u.message_calls (message (ep, d) ∷ []) (map message ds),
          kept,
          same,
          same',
          free,
          up,
        )

    length-le-total : (ds : List (Endpoint Ip × Chunk)) → All HasBytes ds → length ds ≤ total ds
    length-le-total [] h = omega arith
    length-le-total ((ep, d) ∷ ds) h = omega (arith, h.0, length-le-total ds h.1)

    -- If `available()` tells the size of the first few datagrams in the socket, none of them empty,
    -- then `handle_read` ends, has handed exactly these to the message handler, whole and in order,
    -- each with its sender, leaves the others in the socket, and has asked for the next read, with the
    -- runner neither blocked nor ended. This holds where `available()` counts the first datagram, as on Linux, and where it counts all.
    pub handle_read_delivers :
        (ds rest : List (Endpoint Ip × Chunk)) (u : Udp Sock Ip Address)
        → queue u.socket ≡ ds ++ rest
        → All HasBytes ds
        → available u.socket ≡ total ds
        → total ds < 2 ^ 64
        → let u' = handle_read ops success u in
          (u'.message_calls ≡ u.message_calls ++ map message ds)
          × (queue u'.socket ≡ rest)
          × (u'.reading ≡ u.reading + 1)
          × (u'.error_calls ≡ u.error_calls)
          × (u'.is_blocked ≡ u.is_blocked)
          × (u'.runner ≡ u.runner)
    unfolding handle_read
    handle_read_delivers ds rest u q h e small =
        let (done, told, kept, same, same', free, up) =
          read_loop-Delivers ds rest (available u.socket + 1) (available u.socket) u q h e
            (omega arith) (omega (arith, length-le-total ds h)) in
        ground arith

  -- An empty datagram at the front of the socket is never taken: `available()` is 0, so the loop
  -- does not run, and the next read completes at once for the same datagram. However often that
  -- happens, no message is delivered and one read is asked for each time.
  pub empty_datagram_blocks_messages :
      (k : ℕ) (u : Udp Sock Ip Address)
      → u.runner ≡ running
      → u.is_blocked ≡ false
      → u.reading ≡ 1
      → available u.socket ≡ 0
      → let u' = foldl (step ops) u (replicate k (read_done success u.socket)) in u' ≡ u
  empty_datagram_blocks_messages zero u up free one none_there = refl
  empty_datagram_blocks_messages (suc k) u up free one none_there =
      let same = spins u up free one none_there in
      ap (λ v. foldl (step ops) v (replicate k (read_done success u.socket))) same
      ∙ empty_datagram_blocks_messages k u up free one none_there
