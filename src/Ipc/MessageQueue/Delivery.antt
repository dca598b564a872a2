-- ===== src/Ipc/MessageQueue/Delivery.antt =====
-- What is sent through one object of a queue is received through another.
use sephi.Base.{
  ℕ, suc, ◌+◌, ◌≡◌, ◌≤◌, ◌<◌, List, [], ◌∷◌, true, length, take, take_self, replicate, All, arith,
  refl, sym, ap, ◌∙◌,
}
use mathlib.Core.List.{map}
use sephi.Net.Types.{Chunk, take-fill}
use sephi.Ipc.MessageQueue.{
  returns, QueueOps, MessageQueue, send, try_send, timed_send, receive, try_receive, timed_receive,
  posix_time_from,
}
use sephi.Ipc.MessageQueue.Priorities.{
  Message, insert, of_priority, Descending, queued, queued-Descending, of_priority-queued,
  length-insert, length-queued,
}
use sephi.Ipc.MessageQueue.Laws.{filled, QueueLaws}
use sephi.Ipc.MessageQueue.Programs.{
  Way, waits, tries, waits_for, blank, send_by, receive_by, send_all, receive_all,
}

length-messages : (sent : List (Way × Message)) → length (map (λ s. s.1) sent) ≡ length sent
length-messages [] = refl
length-messages (s ∷ sent) = ap suc (length-messages sent)

module _ {Object World : Type 0} (ops : QueueOps Object World) where
  module _ (same : Object → Object → Type 0) (laws : QueueLaws ops same) where
    open laws use {messages}

    whole :
        (o : Object) (p : ℕ) (c : Chunk) (w : World)
        → insert (p, take (length c) c) (messages o w) ≡ insert (p, c) (messages o w)
    whole o p c w = rw (take_self (length c) c (omega arith)) refl

    send_by-room :
        (m : MessageQueue Object) (way : Way) (p : ℕ) (c : Chunk) (w : World)
        → ops.num_msg m.mq w < ops.max_msg m.mq
        → length c ≤ ops.max_msg_size m.mq
        → (w' : World) × (send_by ops m way (p, c) w ≡ returns (true, w'))
          × (messages m.mq w' ≡ insert (p, c) (messages m.mq w))
    unfolding send_by send try_send timed_send
    send_by-room m waits p c w room small =
        let (w', e, q) = laws.send-room m.mq c (length c) p w room small in
        (w', rw (send_by, e) refl, q ∙ whole m.mq p c w)
    send_by-room m tries p c w room small =
        let (w', e, q) = laws.try_send-room m.mq c (length c) p w room small in
        (w', e, q ∙ whole m.mq p c w)
    send_by-room m (waits_for sec) p c w room small =
        let (w', e, q) =
          laws.timed_send-room m.mq c (length c) p (posix_time_from ops sec w) w room small in
        (w', e, q ∙ whole m.mq p c w)

    receive_by-first :
        (m : MessageQueue Object) (way : Way) (size p : ℕ) (c : Chunk) (ms : List Message)
        (w : World)
        → messages m.mq w ≡ (p, c) ∷ ms
        → ops.max_msg_size m.mq ≤ size
        → (w' : World) × (receive_by ops m way size w
            ≡ returns (true, filled ops (p, c) (blank size), w'))
          × (messages m.mq w' ≡ ms)
    unfolding receive_by receive try_receive timed_receive
    receive_by-first m waits size p c ms w first fits =
        let (w', e, q) = laws.receive-first m.mq size (blank size) w (p, c) ms first fits in
        (w', rw (receive_by, e) refl, q)
    receive_by-first m tries size p c ms w first fits =
        laws.try_receive-first m.mq size (blank size) w (p, c) ms first fits
    receive_by-first m (waits_for sec) size p c ms w first fits =
        laws.timed_receive-first m.mq size (posix_time_from ops sec w) (blank size) w (p, c) ms
          first fits

    send_all-queued :
        (m : MessageQueue Object) (sent : List (Way × Message)) (w : World)
        → length (messages m.mq w) + length sent ≤ ops.max_msg m.mq
        → All (λ s. length s.1.1 ≤ ops.max_msg_size m.mq) sent
        → (w' : World) × (send_all ops m sent w ≡ returns (true, w'))
          × (messages m.mq w' ≡ queued (messages m.mq w) (map (λ s. s.1) sent))
    unfolding send_all
    send_all-queued m [] w room small = (w, refl, refl)
    send_all-queued m ((way, (p, c)) ∷ rest) w room (s, small) =
        let (w', e, q) = send_by-room m way p c w (omega (arith, laws.num_msg-messages m.mq w)) s in
        let (w'', e', q') =
          send_all-queued m rest w' (ground (arith, q, length-insert (p, c) (messages m.mq w)))
            small in
        (w'', rw (send_all, e) e', q' ∙ ap (λ ms. queued ms (map (λ s. s.1) rest)) q)

    receive_all-messages :
        (m : MessageQueue Object) (size : ℕ) (ways : List Way) (ms : List Message) (w : World)
        → messages m.mq w ≡ ms
        → length ways ≡ length ms
        → ops.max_msg_size m.mq ≤ size
        → (w' : World) × (receive_all ops m size ways w ≡ returns (ms, w'))
          × (messages m.mq w' ≡ [])
    unfolding receive_all
    receive_all-messages m size [] [] w h l fits = (w, refl, h)
    receive_all-messages m size [] (n ∷ ms) w h l fits = ground (arith, l)
    receive_all-messages m size (way ∷ ways) [] w h l fits = ground (arith, l)
    receive_all-messages m size (way ∷ ways) ((p, c) ∷ ms) w h l fits =
        let (w', e, q) = receive_by-first m way size p c ms w h fits in
        let (w'', e', q') = receive_all-messages m size ways ms w' q (ground arith) fits in
        (w'', rw (receive_all, e, e', take-fill c (replicate size 0)) refl, q')

    -- Messages that are sent, each by send, try_send or timed_send, through one object of an empty
    -- queue that has room for all of them, and then received, each by receive, try_receive or
    -- timed_receive, through an object of the same queue, into a large enough buffer, are all received
    -- and nothing else: no priority comes after a lower one, and the messages of each priority come
    -- as they were sent, bytes and order.
    pub sent_is_received :
        (a b : MessageQueue Object) (sent : List (Way × Message)) (ways : List Way) (size : ℕ)
        (w : World)
        → same a.mq b.mq
        → messages a.mq w ≡ []
        → length sent ≤ ops.max_msg a.mq
        → All (λ s. length s.1.1 ≤ ops.max_msg_size a.mq) sent
        → ops.max_msg_size b.mq ≤ size
        → length ways ≡ length sent
        → (w' w'' : World) × (received : List Message) × (send_all ops a sent w
            ≡ returns (true, w'))
          × (receive_all ops b size ways w' ≡ returns (received, w''))
          × Descending received
          × ((p : ℕ) → of_priority p received ≡ of_priority p (map (λ s. s.1) sent))
          × (messages b.mq w'' ≡ [])
    sent_is_received a b sent ways size w s empty room small fits l =
        let (w', e, q) = send_all-queued a sent w (ground (arith, empty)) small in
        let ms = map (λ s. s.1) sent in
        let content : messages b.mq w' ≡ queued [] ms =
          sym (laws.same-messages a.mq b.mq w' s) ∙ q ∙ ap (λ ns. queued ns ms) empty in
        let (w'', e', q') =
          receive_all-messages b size ways (queued [] ms) w' content
            (omega (arith, length-queued [] ms, length-messages sent)) fits in
        (
          w',
          w'',
          queued [] ms,
          e,
          e',
          queued-Descending [] ms tt,
          λ p. of_priority-queued p [] ms tt,
          q',
        )
