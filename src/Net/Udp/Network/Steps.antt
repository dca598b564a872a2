-- ===== src/Net/Udp/Network/Steps.antt =====
-- What one input does to an endpoint whose socket is a kernel's.
use mathlib.Core.List.{map, map-append}
use sephi.Base.{
  All-implied, ◌≢◌, ◌≡◌, ◌+◌, List, ◌++◌, refl, sym, ◌∙◌, ap, All, All_split, true, false, arith,
  Bool-cases, inl, inr, append_assoc, append-nil, subst,
}
use sephi.Net.Types.{
  Chunk, ErrorCode, success, is_error, Remote, Runner, running, stopped, terminated,
}
use sephi.Net.Udp
use sephi.Net.Udp.{
  SocketOps, Udp, Input, writes_to, broadcasts, closes, stops, runs_posted, read_done, write_done,
  handle_read,
}
use sephi.Net.Udp.Reading.{HasBytes, message, handle_read_delivers}
use sephi.Net.Udp.Writing.{asked, step-sent}
use sephi.Net.Udp.Network.{IsDatagram, Kernel}

abbrev pub IsOwn : {Sock Ip Address : Type 0} → Input Sock Ip Address → Type 0
IsOwn (read_done ec sock) = ⊥
IsOwn _ = Unit

module _ {Sock Ip Address : Type 0} (ops : SocketOps Sock Ip Address) (kernel : Kernel ops) where
  open kernel use {queue, ahead, behind, takes, queue_split, available-ahead, total_small}

  -- The messages that have been handed over, and those in the socket.
  abbrev pub messages : Udp Sock Ip Address → List (Remote Address × Chunk)
  messages u = u.message_calls ++ map (message ops) (queue u.socket)

  -- One wait for a datagram is under way, and no datagram is empty.
  pub record IsReading (u : Udp Sock Ip Address) : Type 0 where
    pub free : u.is_blocked ≡ false
    pub one : u.reading ≡ 1
    pub whole : All IsDatagram (queue u.socket)

  own_frame :
      (u : Udp Sock Ip Address) (i : Input Sock Ip Address)
      → IsOwn i
      → let u' = Udp.step ops u i in
        (u'.socket ≡ u.socket)
        × (u'.message_calls ≡ u.message_calls)
        × (u'.is_blocked ≡ u.is_blocked)
        × (u'.reading ≡ u.reading)
  unfolding Udp.step
  own_frame u (read_done ec sock) own = absurd own
  own_frame u _ own = ground arith

  pub own_lem :
      (u : Udp Sock Ip Address) (i : Input Sock Ip Address)
      → IsOwn i
      → IsReading u
      → IsReading (Udp.step ops u i) × (messages (Udp.step ops u i) ≡ messages u)
  own_lem u i own h =
      let (socket, calls, free, one) = own_frame u i own in
      (
        record {
          free = free ∙ h.free;
          one = one ∙ h.one;
          whole = subst (λ s. All IsDatagram (queue s)) (sym socket) h.whole;
        },
        cc,
      )

  -- The handler of a wait that ended well.
  delivered :
      (u : Udp Sock Ip Address)
      → All IsDatagram (queue u.socket)
      → let u' = handle_read ops success u in
        (u'.message_calls ≡ u.message_calls ++ map (message ops) (ahead u.socket))
        × (queue u'.socket ≡ behind u.socket)
        × (u'.reading ≡ u.reading + 1)
        × (u'.error_calls ≡ u.error_calls)
        × (u'.is_blocked ≡ u.is_blocked)
        × (u'.runner ≡ u.runner)
  delivered u h =
      handle_read_delivers ops queue takes (ahead u.socket) (behind u.socket) u
        (queue_split u.socket)
        (All-implied IsDatagram HasBytes (λ d w. w.0) (ahead u.socket)
          (All_split IsDatagram (ahead u.socket) (behind u.socket)
            (subst (All IsDatagram) (queue_split u.socket) h)).0)
        (available-ahead u.socket) (total_small u.socket h)

  -- The state in which the handler of a wait begins.
  abbrev pub woken : Udp Sock Ip Address → Udp Sock Ip Address
  woken u = record u { reading = 0 }

  read_frame :
      (u : Udp Sock Ip Address) (ec : ErrorCode)
      → u.is_blocked ≡ false
      → u.reading ≡ 1
      → u.runner ≡ running
      → Udp.step ops u (read_done ec u.socket) ≡ handle_read ops ec (woken u)
  unfolding Udp.step
  read_frame u ec free one up = ground arith

  failed_frame :
      (u : Udp Sock Ip Address) (ec : ErrorCode)
      → is_error ec ≡ true
      → let u' = handle_read ops ec u in
        (u'.socket ≡ u.socket)
        × (u'.message_calls ≡ u.message_calls)
        × (u'.is_blocked ≡ u.is_blocked)
        × (u'.reading ≡ u.reading + 1)
        × (u'.runner ≡ u.runner)
  unfolding handle_read
  failed_frame u ec failed = ground arith

  -- What is handed over is what was ahead in the socket.
  pub delivers :
      (u : Udp Sock Ip Address)
      → IsReading u
      → u.runner ≡ running
      → let u' = Udp.step ops u (read_done success u.socket) in
        IsReading u'
        × (messages u' ≡ messages u)
        × (u'.runner ≡ running)
        × (queue u'.socket ≡ behind u.socket)
  delivers u h up =
      let (calls, left, one, _, free, still) = delivered (woken u) h.whole in
      let (_, bytes) =
        All_split IsDatagram (ahead u.socket) (behind u.socket)
          (subst (All IsDatagram) (queue_split u.socket) h.whole) in
      rw (read_frame u success h.free h.one up) (
        record { free = free ∙ h.free; one = one; whole = subst (All IsDatagram) (sym left) bytes },
        ap (λ cs. cs ++ map (message ops) (queue (handle_read ops success (woken u)).socket)) calls
            ∙ (ap
                  (λ q.
                    (u.message_calls ++ map (message ops) (ahead u.socket)) ++ map (message ops) q)
                  left
                ∙ (append_assoc u.message_calls (map (message ops) (ahead u.socket))
                      (map (message ops) (behind u.socket))
                    ∙ ap (λ ms. u.message_calls ++ ms)
                        (sym (map-append (message ops) (ahead u.socket) (behind u.socket))
                          ∙ ap (map (message ops)) (sym (queue_split u.socket))))),
        still ∙ up,
        left,
      )

  read_lem :
      (u : Udp Sock Ip Address) (ec : ErrorCode)
      → IsReading u
      → u.runner ≡ running
      → let u' = Udp.step ops u (read_done ec u.socket) in IsReading u' × (messages u' ≡ messages u)
  read_lem u ec h up = elim (Bool-cases (is_error ec)) [
    | inr fine ↦
        let e : ec ≡ success = ground arith in
        let (reading, same, _, _) = delivers u h up in rw e (reading, same)
    | inl failed ↦
        let (socket, calls, free, one, still) = failed_frame (woken u) ec failed in
        rw (read_frame u ec h.free h.one up) (
          record {
            free = free ∙ h.free;
            one = one;
            whole = subst (λ s. All IsDatagram (queue s)) (sym socket) h.whole;
          },
          cc,
        )
  ]

  wait-sent :
      (u : Udp Sock Ip Address) (ec : ErrorCode)
      → (Udp.step ops u (read_done ec u.socket)).sent ≡ u.sent
  unfolding asked
  wait-sent u ec = ground (arith, step-sent ops u (read_done ec u.socket), append-nil u.sent)

  ended_lem :
      (u : Udp Sock Ip Address) (i : Input Sock Ip Address)
      → u.runner ≢ running
      → Udp.step ops u i ≡ u
  unfolding Udp.step
  ended_lem u i down = ground arith

  -- The end of a wait moves messages from the socket to the handler, and sends nothing.
  pub wait_lem :
      (u : Udp Sock Ip Address) (ec : ErrorCode)
      → IsReading u
      → let u' = Udp.step ops u (read_done ec u.socket) in
        IsReading u' × (messages u' ≡ messages u) × (u'.sent ≡ u.sent)
  wait_lem u ec h = at_runner u.runner refl
    where
      at_runner :
          (r : Runner)
          → u.runner ≡ r
          → let u' = Udp.step ops u (read_done ec u.socket) in
            IsReading u' × (messages u' ≡ messages u) × (u'.sent ≡ u.sent)
      at_runner running up = let (r, m) = read_lem u ec h up in (r, m, wait-sent u ec)
      at_runner stopped e = rw (ended_lem u (read_done ec u.socket) (λ up. cc)) (h, refl, refl)
      at_runner terminated e = rw (ended_lem u (read_done ec u.socket) (λ up. cc)) (h, refl, refl)
