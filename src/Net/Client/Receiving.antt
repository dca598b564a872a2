-- ===== src/Net/Client/Receiving.antt =====
-- How the client receives, and what its handlers are told.
use sephi.Base.{
  ◌≡◌, ◌⊎◌, List, [], ◌∷◌, ◌++◌, pick, foldl, outputs, ◌∙◌, last?, last?-append, append-nil,
  if◌then◌else◌, foldl_inv, foldl-log, Option, some, none, arith, true,
}
use sephi.Net.Types.{Chunk, Remote, connected, disconnected, is_error, success, running, take-fill}
use sephi.Net.Client.{Client, Input, writes, connect_done, read_done, construct, is_connected, step}

module _ {Ip : Type 0} where
  -- The bytes of a read that completes without an error.
  unfoldable pub received : Client Ip → Input → List Chunk
  received c (read_done k ec bytes) = elim c.runner [
    | running ↦ elim (pick k c.reading) [
      | none ↦ []
      | some _ ↦ if is_error ec then [] else bytes ∷ []
    ]
    | _ ↦ []
  ]
  received c _ = []

  pub step-packet_calls :
      (c : Client Ip) (i : Input) → (step c i).packet_calls ≡ c.packet_calls ++ received c i
  unfolding step received
  step-packet_calls c (read_done k ec bytes) =
      ground (arith, append-nil c.packet_calls, take-fill bytes c.received_packet)
  step-packet_calls c (writes m) = ground (arith, append-nil c.packet_calls)
  step-packet_calls c _ = ground (arith, append-nil c.packet_calls)

  -- Whoever is connected has been told so last, without an error.
  abbrev pub IsAnnounced : Client Ip → Type 0
  IsAnnounced c =
      (c.connection_state ≡ disconnected) ⊎ (last? c.connection_calls ≡ some (connected, success))

  step-IsAnnounced : (c : Client Ip) (i : Input) → IsAnnounced c → IsAnnounced (step c i)
  unfolding step
  step-IsAnnounced c (connect_done k ec) h =
      ground (arith, last?-append c.connection_calls (connected, ec))
  step-IsAnnounced c (writes m) h = ground arith
  step-IsAnnounced c _ h = ground arith

  module _ {Address : Type 0} (make_address : Address → Option Ip) (r : Remote Address)
      (c : Client Ip) (made : construct make_address r ≡ some c) (is : List Input) where
    -- The packet handler has been called with exactly the bytes of the reads that completed without
    -- an error, in that order, whatever else happened to the client since its construction.
    pub packet_calls-received : (foldl step c is).packet_calls ≡ outputs step received c is
    unfolding construct
    packet_calls-received =
        foldl-log (λ s. s.packet_calls) step received step-packet_calls c is ∙ ground arith

    -- A client that is connected has told its connection handler so, with no error, in the last
    -- call that it made.
    pub connected-announced :
        is_connected (foldl step c is) ≡ true
        → last? (foldl step c is).connection_calls ≡ some (connected, success)
    unfolding construct
    connected-announced h =
        let told = foldl_inv IsAnnounced step step-IsAnnounced c is (ground arith) in ground arith
