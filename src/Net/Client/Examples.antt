-- ===== src/Net/Client/Examples.antt =====
-- Runs of the client: tests, and the theorems at concrete inputs.
use sephi.Base.{
  ◌≡◌, ℕ, List, [], ◌∷◌, foldl, outputs, refl, Option, some, none, true, false, if◌then◌else◌, ◌==◌,
  inr, arith,
}
use sephi.Net.Types.{Chunk, Remote, success}
use sephi.Net.Client.{
  Client, Input, writes, reconnects, runs_posted, connect_done, read_done, write_done, initial,
  do_connect, construct, is_connected, are_all_messages_sent, step,
}
use sephi.Net.Client.Sending.{chunks, accepted, ended, failed_write_stalls}
use sephi.Net.Client.Draining.{drain, accepted_writes_complete}
use sephi.Net.Client.Receiving.{received}
use sephi.Base.{◌++◌}
use sephi.Net.Channel.{Action, act_all, accepted_by, ended_by, channel, new_channel}
use sephi.Net.Client.Sending.Refinement.{client_refines_channel}

-- Texts stand as numbers; 0 is the one that is no address.
abbrev parse_address : ℕ → Option ℕ
parse_address a = if a == 0 then none else some a

abbrev local_host : Remote ℕ
local_host = record { address = 127; port = 6705 }

abbrev fresh : Client ℕ
unfolding initial do_connect
fresh = do_connect (initial (record { ip = 127; port = 6705 }))

made : construct parse_address local_host ≡ some fresh
unfolding construct
made = refl

bad_address : construct parse_address (record local_host { address = 0 }) ≡ none
unfolding construct
bad_address = refl

abbrev first : Chunk
first = 1 ∷ 2 ∷ []

abbrev second : Chunk
second = 3 ∷ []

abbrev third : Chunk
third = 4 ∷ []

-- Three accepted writes, of which the first two have been put into the deque.
abbrev busy : List Input
busy =
    connect_done 0 success
    ∷ writes first
    ∷ writes second
    ∷ writes third
    ∷ runs_posted success
    ∷ runs_posted success
    ∷ []

busy_state :
    let c = foldl step fresh busy in
    (c.written ≡ first ∷ [])
    × (c.sending_messages ≡ first ∷ second ∷ [])
    × (chunks c.posted ≡ third ∷ [])
unfolding step fresh
busy_state = (refl, refl, refl)

-- The second write fails; the client reconnects, and a new chunk is accepted.
abbrev broken : List Input
broken =
    write_done 0 success
    ∷ write_done 0 32
    ∷ reconnects success
    ∷ connect_done 0 success
    ∷ writes first
    ∷ runs_posted success
    ∷ runs_posted success
    ∷ []

broken_state :
    let c = foldl step (foldl step fresh busy) broken in
    (is_connected c ≡ true)
    × (c.written ≡ first ∷ second ∷ [])
    × (c.sending_messages ≡ second ∷ third ∷ first ∷ [])
unfolding step fresh
broken_state = (refl, refl, refl)

-- The second write of `busy` is under way.
abbrev writing_second : Client ℕ
writing_second = foldl step fresh (
    connect_done 0 success
    ∷ writes first
    ∷ writes second
    ∷ runs_posted success
    ∷ runs_posted success
    ∷ write_done 0 success
    ∷ [])

failed_write_stalls_example :
    let c = foldl step (step writing_second (write_done 0 32)) broken in
    (c.written ≡ writing_second.written) × (are_all_messages_sent c ≡ false)
unfolding step fresh
failed_write_stalls_example =
    failed_write_stalls writing_second second 32 broken refl refl (inr refl) refl

accepted_writes_complete_example :
    let c = foldl step fresh busy in
    ((foldl step c (drain c)).written ≡ outputs step accepted fresh busy)
    × (are_all_messages_sent (foldl step c (drain c)) ≡ true)
accepted_writes_complete_example =
    accepted_writes_complete parse_address local_host fresh made busy (ground arith)

-- Two reads, of which the second ends the connection.
abbrev reads : List Input
reads = connect_done 0 success ∷ read_done 0 success first ∷ read_done 0 2 [] ∷ []

reads_deliver : outputs step received fresh reads ≡ first ∷ []
unfolding outputs received step fresh
reads_deliver = refl

abbrev reads_fail : List Input
reads_fail = read_done 0 2 [] ∷ reconnects success ∷ connect_done 0 111 ∷ []

client_refines_channel_example :
    let c' = foldl step fresh (busy ++ broken) in
    (as' : List Action) × (act_all as' new_channel
      ≡ some (channel c'.written c'.writing c'.sending_messages (chunks c'.posted)))
    × (accepted_by as' ≡ outputs step accepted fresh (busy ++ broken))
    × (ended_by as' ≡ outputs step ended fresh (busy ++ broken))
client_refines_channel_example =
    client_refines_channel parse_address local_host fresh made (busy ++ broken)
