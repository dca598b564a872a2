-- ===== src/Net/Udp/Network/Draining.antt =====
-- What the network brought does reach the message handler, and answers reach the sender.
use mathlib.Core.List.{map}
use sephi.Base.{
  All-replicate, ◌≡◌, ℕ, zero, suc, ◌≤◌, List, [], ◌∷◌, ◌++◌, foldl, refl, sym, ◌∙◌, ap, All,
  replicate, get_elem?, get_elem?-append_last, Bool, true, some, append-nil, length, length-append,
  arith, eq-nil_of_length,
}
use sephi.Net.Types.{Chunk, success, Endpoint, running}
use sephi.Net.Udp
use sephi.Net.Udp.{SocketOps, Udp, Input, writes_to, read_done}
use sephi.Net.Udp.Reading.{message}
use sephi.Net.Udp.Network.{
  Kernel, Network, Event, takes_input, brings, reads, update, set_endpoint, take_input, bring, step,
  AreConstructed, connect, HasPayload,
}
use sephi.Net.Udp.Network.Steps.{IsReading, delivers}
use sephi.Net.Udp.Network.Delivery.{connect-IsSound, run-IsSound}

update_self : {A : Type 0} (f : ℕ → A) (h : ℕ) (x : A) → update f h x h ≡ x
update_self f h x = ground arith

by_ahead :
    {A : Type 0} {q : List A} (ahead behind : List A) (k : ℕ)
    → q ≡ ahead ++ behind
    → (ahead ≡ [] → q ≡ [])
    → length q ≤ suc k
    → length behind ≤ k
by_ahead [] behind k split some_ahead le =
    let none_left : behind ≡ [] = sym split ∙ some_ahead refl in rw none_left (omega arith)
by_ahead (x ∷ ahead) behind k split some_ahead le =
    omega (arith, ap length split, length-append ahead behind)

module _ {Sock Ip Address : Type 0} (ops : SocketOps Sock Ip Address) (kernel : Kernel ops)
    (address : ℕ → Endpoint Ip) (reaches : Endpoint Ip → ℕ → Bool) where
  open kernel use {queue, ahead, behind, queue_split, ahead_some}

  behind_lem : (s : Sock) (k : ℕ) → length (queue s) ≤ suc k → length (behind s) ≤ k
  behind_lem s k le = by_ahead (ahead s) (behind s) k (queue_split s) (ahead_some s) le

  abbrev IsDrained : ℕ → Network Sock Ip Address → Network Sock Ip Address → Type 0
  IsDrained h n n' = (queue (n'.endpoint h).socket ≡ []) × (n'.arrived ≡ n.arrived)

  drains :
      (k h : ℕ) (n : Network Sock Ip Address)
      → IsReading ops kernel (n.endpoint h)
      → (n.endpoint h).runner ≡ running
      → length (queue (n.endpoint h).socket) ≤ k
      → IsDrained h n (foldl (step ops kernel address reaches) n (replicate k (reads h success)))
  unfolding step
  drains zero h n r up le = (eq-nil_of_length (queue (n.endpoint h).socket) le, refl)
  drains (suc k) h n r up le =
      let u = n.endpoint h in
      let u' = Udp.step ops u (read_done success u.socket) in
      let n' = set_endpoint h u' n in
      let (r', _, up', left) = delivers ops kernel u r up in
      let here : n'.endpoint h ≡ u' = update_self n.endpoint h u' in
      let (drained, same) =
        drains k h n' (rw here r') (rw here up') (rw here (rw left (behind_lem u.socket k le))) in
      (drained, same)

  -- What was brought to an endpoint of such a network gets to its message handler: if the runner runs,
  -- then after as many waits that end without an error as there are datagrams in the socket, the
  -- handler has been given exactly all that was brought.
  pub arrived_are_delivered :
      (us : ℕ → Udp Sock Ip Address) (is : List (Event Sock Ip Address)) (h : ℕ)
      → AreConstructed ops kernel us
      → All HasPayload is
      → ((foldl (step ops kernel address reaches) (connect us) is).endpoint h).runner ≡ running
      → let n = foldl (step ops kernel address reaches) (connect us) is in
        let waits = replicate (length (queue (n.endpoint h).socket)) (reads h success) in
        ((foldl (step ops kernel address reaches) n waits).endpoint h).message_calls
        ≡ map (message ops) (n.arrived h)
  arrived_are_delivered us is h made ok up =
      let run = foldl (step ops kernel address reaches) in
      let n = run (connect us) is in
      let k = length (queue (n.endpoint h).socket) in
      let n' = run n (replicate k (reads h success)) in
      let v =
        run-IsSound ops kernel address reaches (connect us) is ok
          (connect-IsSound ops kernel address reaches us made) in
      let v' =
        run-IsSound ops kernel address reaches n (replicate k (reads h success))
          (All-replicate HasPayload k (reads h success) tt) v in
      let (drained, same) = drains k h n (v.reading h) up (omega arith) in
      sym (append-nil (n'.endpoint h).message_calls)
      ∙ (sym (ap (λ q. (n'.endpoint h).message_calls ++ map (message ops) q) drained)
          ∙ (v'.handed h ∙ ap (λ a. map (message ops) (a h)) same))

  answer_lem :
      (u : Udp Sock Ip Address) (ep : Endpoint Ip) (bytes answer : Chunk)
      → u.runner ≡ running
      → ops.make_address (ops.to_string ep.ip) ≡ some ep.ip
      → (Udp.step ops u (writes_to (message ops (ep, bytes)).0 answer)).sent
        ≡ u.sent ++ (ep, answer) ∷ []
  unfolding Udp.step message
  answer_lem u ep bytes answer up readable = ground arith

  bring_lem :
      (h s : ℕ) (target : Endpoint Ip) (bytes : Chunk) (n : Network Sock Ip Address)
      → reaches target s ≡ true
      → (bring ops kernel address reaches s h (some (target, bytes)) n).arrived s
        ≡ n.arrived s ++ (address h, bytes) ∷ []
  unfolding bring
  bring_lem h s target bytes n hit =
      rw hit (update_self n.arrived s (n.arrived s ++ (address h, bytes) ∷ []))

  -- A message handler can answer: where the text of an address is read back, a chunk that a running
  -- endpoint writes to the remote of a datagram is given to `async_send_to` for the endpoint at the
  -- sender's address, and can be brought to it, as a datagram of the one that answers.
  pub answers_reach_sender :
      (n : Network Sock Ip Address) (h s : ℕ) (bytes answer : Chunk)
      → (n.endpoint h).runner ≡ running
      → ops.make_address (ops.to_string (address s).ip) ≡ some (address s).ip
      → reaches (address s) s ≡ true
      → let remote = (message ops (address s, bytes)).0 in
        let n' = step ops kernel address reaches n (takes_input h (writes_to remote answer)) in
        let n'' = step ops kernel address reaches n' (brings s h (length (n.endpoint h).sent)) in
        ((n'.endpoint h).sent ≡ (n.endpoint h).sent ++ (address s, answer) ∷ [])
        × (n''.arrived s ≡ n.arrived s ++ (address h, answer) ∷ [])
  unfolding step take_input
  answers_reach_sender n h s bytes answer up readable hit =
      let u = n.endpoint h in
      let u' = Udp.step ops u (writes_to (message ops (address s, bytes)).0 answer) in
      let sent =
        ap (λ x. x.sent) (update_self n.endpoint h u')
        ∙ answer_lem u (address s) bytes answer up readable in
      (
        sent,
        rw
            (ap (λ xs. get_elem? xs (length u.sent)) sent
              ∙ get_elem?-append_last u.sent (address s, answer))
            (bring_lem h s (address s) answer (set_endpoint h u' n) hit),
      )
