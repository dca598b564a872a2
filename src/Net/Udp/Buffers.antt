-- ===== src/Net/Udp/Buffers.antt =====
-- What `buffer(chunk.data(), chunk.size())` of src/net/udp/udp.cpp refers to: the chunk of the caller.
--
-- `write_to` and `broadcast` take the chunk by reference and keep no copy. asio reads the bytes when
-- the operation is performed, which may be at any time until its handler is called, and asks its
-- callers to leave them alone until then. Net/Udp.antt takes the chunk as it is when `write_to` is
-- called; here it stands in a variable of the caller.
mod Keeping
mod Examples
use sephi.Base.{
  ℕ, ◌≡◌, List, [], ◌∷◌, ◌++◌, Bool, false, Option, none, some, if◌then◌else◌, ◌==◌, pick, All,
  length,
}
use sephi.Net.Types.{Chunk, Remote, Endpoint, endpoint_of}

-- The variables, `none` where the chunk is destroyed; the operations under way, by the variable that
-- each refers to; and what has been sent, `none` where the bytes of a destroyed chunk were read.
pub record Lender (Ip : Type 0) : Type 0 where
  pub memory : ℕ → Option Chunk
  pub lent : List (Endpoint Ip × ℕ)
  pub datagrams : List (Endpoint Ip × Option Chunk)

pub data Input (Address : Type 0) : Type 0 where
  assigns : ℕ → Chunk → Input Address
  destroys : ℕ → Input Address
  writes_to : Remote Address → ℕ → Input Address
  broadcasts : ℕ → ℕ → Input Address
  transmits : ℕ → Input Address

abbrev pub assign : {Ip : Type 0} → ℕ → Option Chunk → Lender Ip → Lender Ip
assign v chunk s = record s { memory = λ w. if w == v then chunk else s.memory w }

lend : {Ip : Type 0} → Endpoint Ip → ℕ → Lender Ip → Lender Ip
lend ep v s = record s { lent = s.lent ++ (ep, v) ∷ [] }

-- The operation is performed.
transmit :
    {Ip : Type 0} → Option ((Endpoint Ip × ℕ) × List (Endpoint Ip × ℕ)) → Lender Ip → Lender Ip
transmit none s = s
transmit (some ((ep, v), others)) s = record s {
  lent = others;
  datagrams = s.datagrams ++ (ep, s.memory v) ∷ [];
}

-- No operation under way refers to the variable.
abbrev pub IsFree : {Ip : Type 0} → ℕ → Lender Ip → Type 0
IsFree v s = All (λ (ep, w). (w == v) ≡ false) s.lent

-- The caller leaves a chunk alone while an operation refers to it.
abbrev pub IsKept : {Ip Address : Type 0} → Lender Ip → Input Address → Type 0
IsKept s (assigns v chunk) = IsFree v s
IsKept s (destroys v) = IsFree v s
IsKept s _ = Unit

module _ {Ip Address : Type 0} (make_address : Address → Option Ip) (broadcast_ip : Ip) where
  write_to : Remote Address → ℕ → Lender Ip → Lender Ip
  unfolding lend
  write_to remote v s = elim (endpoint_of make_address remote) [ none ↦ s | some ep ↦ lend ep v s ]

  broadcast : ℕ → ℕ → Lender Ip → Lender Ip
  unfolding lend
  broadcast port v s = lend (record { ip = broadcast_ip; port = port }) v s

  pub step : Lender Ip → Input Address → Lender Ip
  unfolding write_to broadcast transmit
  step s (assigns v chunk) = assign v (some chunk) s
  step s (destroys v) = assign v none s
  step s (writes_to remote v) = write_to remote v s
  step s (broadcasts port v) = broadcast port v s
  step s (transmits k) = transmit (pick k s.lent) s

  -- The chunks as they are when they are given.
  pub asked : Lender Ip → Input Address → List (Endpoint Ip × Option Chunk)
  asked s (writes_to remote v) = elim (endpoint_of make_address remote) [
    | none ↦ []
    | some ep ↦ (ep, s.memory v) ∷ []
  ]
  asked s (broadcasts port v) = (record { ip = broadcast_ip; port = port }, s.memory v) ∷ []
  asked s _ = []
