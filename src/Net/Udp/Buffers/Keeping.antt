-- ===== src/Net/Udp/Buffers/Keeping.antt =====
-- When what is sent is what was given.
use mathlib.Core.List.{map, map-append, Permᴰ}
use mathlib.Core.List.Permᴰ
use sephi.Base.{
  ℕ, zero, suc, ◌≡◌, ◌∙◌, refl, sym, ap, subst, List, [], ◌∷◌, ◌++◌, foldl, outputs, Along, All,
  false, Option, none, some, if◌then◌else◌, ◌==◌, pick, arith, append_assoc, append-nil,
  Option-cases, inl, inr,
}
use sephi.Net.Types.{Chunk, Endpoint, endpoint_of}
use sephi.Net.Udp.Buffers.{
  Lender, Input, assigns, destroys, writes_to, broadcasts, transmits, IsKept, step, asked,
}

perm_of_eq : {A : Type 0} {xs ys : List A} → xs ≡ ys → Permᴰ xs ys
perm_of_eq {xs = xs} e = subst (Permᴰ xs) e (Permᴰ.refl xs)

pick-Perm :
    {A : Type 0} (k : ℕ) (xs ys : List A) (x : A) → pick k xs ≡ some (x, ys) → Permᴰ xs (x ∷ ys)
pick-Perm k [] ys x e = absurd (cc)
pick-Perm zero (y ∷ xs) ys x e = perm_of_eq (ground arith)
pick-Perm (suc k) (y ∷ xs) ys x e = elim (Option-cases (pick k xs)) [
  | inl none_there ↦ absurd (ground arith)
  | inr ((w, ws), there) ↦
      Permᴰ.trans (Permᴰ.cons refl (pick-Perm k xs ws w there))
        (Permᴰ.trans (Permᴰ.swap refl refl) (perm_of_eq (ground arith)))
]

module _ {Ip : Type 0} where
  abbrev content : (ℕ → Option Chunk) → Endpoint Ip × ℕ → Endpoint Ip × Option Chunk
  content memory (ep, v) = (ep, memory v)

  -- What the operations under way would send now.
  abbrev pub pending : Lender Ip → List (Endpoint Ip × Option Chunk)
  pending s = map (content s.memory) s.lent

  assign_lem :
      (v : ℕ) (chunk : Option Chunk) (memory : ℕ → Option Chunk) (lent : List (Endpoint Ip × ℕ))
      → All (λ (ep, w). (w == v) ≡ false) lent
      → map (content (λ w. if w == v then chunk else memory w)) lent ≡ map (content memory) lent
  assign_lem v chunk memory [] free = refl
  assign_lem v chunk memory ((ep, w) ∷ lent) (other, free) =
      ground (arith, assign_lem v chunk memory lent free)

  -- What has been sent, and what would be.
  abbrev pub in_all : Lender Ip → List (Endpoint Ip × Option Chunk)
  in_all s = s.datagrams ++ pending s

  lend_lem :
      (ep : Endpoint Ip) (v : ℕ) (s : Lender Ip)
      → s.datagrams ++ map (content s.memory) (s.lent ++ (ep, v) ∷ [])
        ≡ in_all s ++ (ep, s.memory v) ∷ []
  lend_lem ep v s =
      ap (λ xs. s.datagrams ++ xs) (map-append (content s.memory) s.lent ((ep, v) ∷ []))
      ∙ sym (append_assoc s.datagrams (pending s) ((ep, s.memory v) ∷ []))

  transmit_lem :
      (ep : Endpoint Ip) (v k : ℕ) (others : List (Endpoint Ip × ℕ)) (s : Lender Ip)
      → pick k s.lent ≡ some ((ep, v), others)
      → Permᴰ ((s.datagrams ++ (ep, s.memory v) ∷ []) ++ map (content s.memory) others) (in_all s)
  transmit_lem ep v k others s there =
      Permᴰ.trans
        (perm_of_eq
          (append_assoc s.datagrams ((ep, s.memory v) ∷ []) (map (content s.memory) others)))
        (Permᴰ.append_left s.datagrams
          (Permᴰ.symm (Permᴰ.map (content s.memory) (pick-Perm k s.lent others (ep, v) there))))

module _ {Ip Address : Type 0} (make_address : Address → Option Ip) (broadcast_ip : Ip) where
  step-Perm :
      (s : Lender Ip) (i : Input Address)
      → IsKept s i
      → Permᴰ
          (in_all (step make_address broadcast_ip s i))
          (in_all s ++ asked make_address broadcast_ip s i)
  unfolding step asked
  step-Perm s (assigns v chunk) free =
      perm_of_eq
        (ground (arith, assign_lem v (some chunk) s.memory s.lent free, append-nil (in_all s)))
  step-Perm s (destroys v) free =
      perm_of_eq (ground (arith, assign_lem v none s.memory s.lent free, append-nil (in_all s)))
  step-Perm s (writes_to remote v) kept = elim (Option-cases (endpoint_of make_address remote)) [
    | inl none_there ↦ perm_of_eq (ground (arith, append-nil (in_all s)))
    | inr (ep, there) ↦ perm_of_eq (ground (arith, lend_lem ep v s))
  ]
  step-Perm s (broadcasts port v) kept =
      perm_of_eq (lend_lem (record { ip = broadcast_ip; port = port }) v s)
  step-Perm s (transmits k) kept = elim (Option-cases (pick k s.lent)) [
    | inl none_there ↦ perm_of_eq (ground (arith, append-nil (in_all s)))
    | inr (((ep, v), others), there) ↦ Permᴰ.trans (perm_of_eq (ground arith)) (
        Permᴰ.trans (transmit_lem ep v k others s there) (perm_of_eq (sym (append-nil (in_all s)))))
  ]

  -- If no chunk is changed or destroyed while an operation refers to it, then what has been sent, with
  -- what the operations under way would send, is, up to order, what had been and would have been sent
  -- before, with the chunks that `write_to` and `broadcast` were given since, as they were then.
  pub kept_chunks_are_sent :
      (s : Lender Ip) (is : List (Input Address))
      → Along (step make_address broadcast_ip) IsKept s is
      → Permᴰ (in_all (foldl (step make_address broadcast_ip) s is)) (
          in_all s
          ++ outputs (step make_address broadcast_ip) (asked make_address broadcast_ip) s is)
  unfolding outputs
  kept_chunks_are_sent s [] kept = perm_of_eq (sym (append-nil (in_all s)))
  kept_chunks_are_sent s (i ∷ is) (k, kept) =
      let later =
        outputs (step make_address broadcast_ip) (asked make_address broadcast_ip)
          (step make_address broadcast_ip s i) is in
      Permᴰ.trans (kept_chunks_are_sent (step make_address broadcast_ip s i) is kept) (
        Permᴰ.trans (Permᴰ.append_right later (step-Perm s i k))
          (perm_of_eq (append_assoc (in_all s) (asked make_address broadcast_ip s i) later)))
