-- ===== src/Net/Server/Unordered/Entries.antt =====
-- The map of the sessions, up to the order of its entries.
use mathlib.Core.List.{map}
use mathlib.Core.List.{Permᴰ}
use mathlib.Core.List.Permᴰ
use sephi.Base.{◌≡◌, ◌∙◌, ap, refl, List, ◌∷◌, none, if◌then◌else◌, ◌==◌, arith, Bool, true, false}
use sephi.Net.SessionMap.{SessionId, SessionPtr, SessionMap, IsProper, find, erase, emplace}

-- Another order has the same entries, once each.
pub record SameEntries (m m' : SessionMap) : Type 0 where
  pub proper : IsProper m'
  pub found : (id : SessionId) → find id m' ≡ find id m

pub Permᴰ-SameEntries : {m m' : SessionMap} → Permᴰ m m' → IsProper m → SameEntries m m'
unfolding find
Permᴰ-SameEntries Permᴰ.nil h = record { proper = tt; found = λ id. refl }
Permᴰ-SameEntries (Permᴰ.cons {a = (k, p)} {b = (k', p')} e d) h =
    let rest = Permᴰ-SameEntries d h.2 in
    let key = ap (λ entry. entry.0) e in
    let value = ap (λ entry. entry.1) e in
    record {
      proper = (ground (arith, h.0), ground (arith, h.1, rest.found k), rest.proper);
      found = λ id. ground (arith, rest.found id);
    }
Permᴰ-SameEntries (Permᴰ.swap {a = (k, p)} {b = (j, q)} {a' = (j', q')} {b' = (k', p')} e e') h =
    let key = ap (λ entry. entry.0) e in
    let value = ap (λ entry. entry.1) e in
    let key' = ap (λ entry. entry.0) e' in
    let value' = ap (λ entry. entry.1) e' in
    record {
      proper =
          (ground (arith, h), ground (arith, h), (ground (arith, h), ground (arith, h), h.2.2));
      found = λ id. ground (arith, h);
    }
Permᴰ-SameEntries (Permᴰ.trans d d') h =
    let first = Permᴰ-SameEntries d h in
    let second = Permᴰ-SameEntries d' first.proper in
    record { proper = second.proper; found = λ id. second.found id ∙ first.found id }

module _ {A : Type 0} where
  keep_cons :
      (b b' : Bool) {x y : A} {l l' : List A}
      → b ≡ b'
      → x ≡ y
      → Permᴰ l l'
      → Permᴰ (if b then l else x ∷ l) (if b' then l' else y ∷ l')
  keep_cons true true same e d = d
  keep_cons false false same e d = Permᴰ.cons e d
  keep_cons true false same e d = absurd (ground arith)
  keep_cons false true same e d = absurd (ground arith)

  keep_swap :
      (b c : Bool) (x y : A) (l : List A)
      → Permᴰ
          (let rest = if c then l else y ∷ l in if b then rest else x ∷ rest)
          (let rest = if b then l else x ∷ l in if c then rest else y ∷ rest)
  keep_swap true true x y l = Permᴰ.refl l
  keep_swap true false x y l = Permᴰ.refl (y ∷ l)
  keep_swap false true x y l = Permᴰ.refl (x ∷ l)
  keep_swap false false x y l = Permᴰ.swap refl refl

pub erase-Permᴰ :
    (id : SessionId) {m m' : SessionMap} → Permᴰ m m' → Permᴰ (erase id m) (erase id m')
unfolding erase
erase-Permᴰ id Permᴰ.nil = Permᴰ.nil
erase-Permᴰ id (Permᴰ.cons {a = (k, p)} {b = (k', p')} e d) =
    keep_cons (k == id) (k' == id) (ap (λ entry. entry.0 == id) e) e (erase-Permᴰ id d)
erase-Permᴰ id (Permᴰ.swap {a = (k, p)} {b = (j, q)} {a' = (j', q')} {b' = (k', p')} {l = l} e e') =
    Permᴰ.trans (keep_swap (k == id) (j == id) (k, p) (j, q) (erase id l)) (
      keep_cons (j == id) (j' == id) (ap (λ entry. entry.0 == id) e') e' (
        keep_cons (k == id) (k' == id) (ap (λ entry. entry.0 == id) e) e (Permᴰ.refl (erase id l))))
erase-Permᴰ id (Permᴰ.trans d d') = Permᴰ.trans (erase-Permᴰ id d) (erase-Permᴰ id d')

pub emplace-Permᴰ :
    (p : SessionPtr) {m m' : SessionMap}
    → Permᴰ m m'
    → find p m ≡ none
    → find p m' ≡ none
    → Permᴰ (emplace p p m) (emplace p p m')
unfolding emplace
emplace-Permᴰ p d free free' = rw (free, free') (Permᴰ.cons refl d)

pub map-Permᴰ : {A B : Type 0} (f : A → B) {l l' : List A} → Permᴰ l l' → Permᴰ (map f l) (map f l')
map-Permᴰ f Permᴰ.nil = Permᴰ.nil
map-Permᴰ f (Permᴰ.cons e d) = Permᴰ.cons (ap f e) (map-Permᴰ f d)
map-Permᴰ f (Permᴰ.swap e e') = Permᴰ.swap (ap f e) (ap f e')
map-Permᴰ f (Permᴰ.trans d d') = Permᴰ.trans (map-Permᴰ f d) (map-Permᴰ f d')
