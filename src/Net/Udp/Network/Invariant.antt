-- ===== src/Net/Udp/Network/Invariant.antt =====
-- What holds of a network, and what an endpoint's inputs keep.
use mathlib.Core.List.{map, map-append}
use sephi.Base.{
  ◌≡◌, ℕ, List, [], ◌∷◌, ◌++◌, sym, ◌∙◌, ap, subst, All, All-append, All-implied, get_elem?,
  get_elem?-append, true, Bool, Bool-cases, inl, inr, some, ◌==◌, append_assoc, append-nil, arith,
}
use sephi.Net.Types.{Chunk, Endpoint}
use sephi.Net.Udp
use sephi.Net.Udp.{
  SocketOps, Udp, Input, writes_to, broadcasts, closes, stops, runs_posted, read_done, write_done,
}
use sephi.Net.Udp.Reading.{message}
use sephi.Net.Udp.Writing.{asked, step-sent}
use sephi.Net.Udp.Network.{
  IsDatagram, Kernel, Network, takes_input, update, set_endpoint, take_input, put_datagram,
  HasPayload,
}
use sephi.Net.Udp.Network.Steps.{IsOwn, messages, IsReading, own_lem}

-- What holds of all entries and of a new one holds after an update.
pub update_lem :
    {A : Type 0} (P : ℕ → A → Type 0) (f : ℕ → A) (h : ℕ) (x : A)
    → ((g : ℕ) → P g (f g))
    → P h x
    → (g : ℕ) → P g (update f h x g)
update_lem P f h x all new g = elim (Bool-cases (h == g)) [
  | inl e ↦ let same : h ≡ g = ground arith in rw e (subst (λ k. P k x) same new)
  | inr ne ↦ rw ne (all g)
]

module _ {Sock Ip Address : Type 0} (ops : SocketOps Sock Ip Address) (kernel : Kernel ops)
    (address : ℕ → Endpoint Ip) (reaches : Endpoint Ip → ℕ → Bool) where
  open kernel use {queue, put, queue-put}

  -- A datagram from the address of an endpoint which gave it to `async_send_to`, for an address that
  -- `h` is reached by.
  abbrev pub WasSentTo : Network Sock Ip Address → ℕ → Endpoint Ip × Chunk → Type 0
  WasSentTo n h (ep, bytes) =
      (s : ℕ) × (k : ℕ) × (target : Endpoint Ip) × (address s ≡ ep)
      × (get_elem? (n.endpoint s).sent k ≡ some (target, bytes))
      × (reaches target h ≡ true)

  pub record IsSound (n : Network Sock Ip Address) : Type 0 where
    pub reading : (h : ℕ) → IsReading ops kernel (n.endpoint h)
    pub handed : (h : ℕ) → messages ops kernel (n.endpoint h) ≡ map (message ops) (n.arrived h)
    pub payload : (h : ℕ) → All IsDatagram (n.endpoint h).sent
    pub origin : (h : ℕ) → All (WasSentTo n h) (n.arrived h)

  unfoldable pub Grows : Network Sock Ip Address → Network Sock Ip Address → Type 0
  Grows n n' =
      (s : ℕ)
      → (more : List (Endpoint Ip × Chunk)) × ((n'.endpoint s).sent ≡ (n.endpoint s).sent ++ more)

  pub WasSentTo-Grows :
      (n n' : Network Sock Ip Address)
      → Grows n n'
      → (h : ℕ) (d : Endpoint Ip × Chunk) → WasSentTo n h d
      → WasSentTo n' h d
  unfolding Grows
  WasSentTo-Grows n n' grows h (ep, bytes) (s, k, target, e, there, hit) =
      let (more, longer) = grows s in
      (
        s,
        k,
        target,
        e,
        ap (λ xs. get_elem? xs k) longer
            ∙ get_elem?-append (n.endpoint s).sent more k (target, bytes) there,
        hit,
      )

  pub set_endpoint-IsSound :
      (h : ℕ) (u : Udp Sock Ip Address) (n : Network Sock Ip Address)
      (more : List (Endpoint Ip × Chunk))
      → IsSound n
      → IsReading ops kernel u
      → messages ops kernel u ≡ messages ops kernel (n.endpoint h)
      → u.sent ≡ (n.endpoint h).sent ++ more
      → All IsDatagram more
      → IsSound (set_endpoint h u n)
  unfolding Grows
  set_endpoint-IsSound h u n more v r same longer bytes = record {
    reading = update_lem (λ g x. IsReading ops kernel x) n.endpoint h u v.reading r;
    handed =
        update_lem (λ g x. messages ops kernel x ≡ map (message ops) (n.arrived g)) n.endpoint h u
          v.handed (same ∙ v.handed h);
    payload =
        update_lem (λ g x. All IsDatagram x.sent) n.endpoint h u v.payload
          (subst (All IsDatagram) (sym longer)
            (All-append IsDatagram (n.endpoint h).sent more (v.payload h) bytes));
    origin = λ g.
        All-implied (WasSentTo n g) (WasSentTo (set_endpoint h u n) g)
          (WasSentTo-Grows n (set_endpoint h u n)
            (update_lem
              (λ s x.
                (more' : List (Endpoint Ip × Chunk)) × (x.sent ≡ (n.endpoint s).sent ++ more'))
              n.endpoint h u (λ s. ([], sym (append-nil (n.endpoint s).sent))) (more, longer))
            g)
          (n.arrived g) (v.origin g);
  }

  own-IsSound :
      (h : ℕ) (i : Input Sock Ip Address) (n : Network Sock Ip Address)
      → IsOwn i
      → All IsDatagram (asked ops (n.endpoint h) i)
      → IsSound n
      → IsSound (set_endpoint h (Udp.step ops (n.endpoint h) i) n)
  own-IsSound h i n own bytes v =
      let (r, same) = own_lem ops kernel (n.endpoint h) i own (v.reading h) in
      set_endpoint-IsSound h (Udp.step ops (n.endpoint h) i) n (asked ops (n.endpoint h) i) v r same
        (step-sent ops (n.endpoint h) i) bytes

  asked_bytes :
      (h : ℕ) (i : Input Sock Ip Address) (u : Udp Sock Ip Address)
      → HasPayload (takes_input h i)
      → All IsDatagram (asked ops u i)
  unfolding asked
  asked_bytes h (writes_to remote chunk) u ok = ground arith
  asked_bytes h (broadcasts port chunk) u ok = ground arith
  asked_bytes h _ u ok = ground arith

  pub take_input-IsSound :
      (h : ℕ) (i : Input Sock Ip Address) (n : Network Sock Ip Address)
      → HasPayload (takes_input h i)
      → IsSound n
      → IsSound (take_input ops h i n)
  unfolding take_input
  take_input-IsSound h (read_done ec sock) n ok v = v
  take_input-IsSound h i n ok v = own-IsSound h i n tt (asked_bytes h i (n.endpoint h) ok) v

  pub put_lem :
      (ep : Endpoint Ip) (bytes : Chunk) (u : Udp Sock Ip Address)
      → IsDatagram (ep, bytes)
      → IsReading ops kernel u
      → let u' = put_datagram ops kernel ep bytes u in
        IsReading ops kernel u'
        × (messages ops kernel u' ≡ messages ops kernel u ++ message ops (ep, bytes) ∷ [])
  put_lem ep bytes u fits r = (
    record {
      free = r.free;
      one = r.one;
      whole =
          subst (All IsDatagram) (sym (queue-put ep bytes u.socket))
            (All-append IsDatagram (queue u.socket) ((ep, bytes) ∷ []) r.whole (fits, tt));
    },
    ap (λ q. u.message_calls ++ map (message ops) q) (queue-put ep bytes u.socket)
        ∙ (ap (λ ms. u.message_calls ++ ms)
              (map-append (message ops) (queue u.socket) ((ep, bytes) ∷ []))
            ∙ sym (
                append_assoc u.message_calls (map (message ops) (queue u.socket))
                  (message ops (ep, bytes) ∷ []))),
  )
