-- ===== src/Net/SessionMap.antt =====
-- `sessions_` of include/sephi/net/tcp/server/server.h: the `std::unordered_map` from session ids to
-- sessions, as an association list. The order of its entries, which is unspecified in C++, is that
-- of the list; Server/Unordered.antt is about other orders.
use sephi.Base.{
  ◌≡◌, ℕ, List, [], ◌∷◌, Option, none, some, Bool, true, false, ◌==◌, if◌then◌else◌, refl, arith,
}

-- `using SessionId = uint64_t`
abbrev pub SessionId : Type 0
SessionId = ℕ

-- The address that a `std::shared_ptr<Session>` holds.
abbrev pub SessionPtr : Type 0
SessionPtr = ℕ

-- `reinterpret_cast<SessionId>(session_ptr.get())`: the id of a session is its address.
abbrev pub session_ptr_to_id : SessionPtr → SessionId
session_ptr_to_id session_ptr = session_ptr

abbrev pub SessionMap : Type 0
SessionMap = List (SessionId × SessionPtr)

unfoldable pub find : SessionId → SessionMap → Option SessionPtr
find id [] = none
find id ((k, p) ∷ m) = if k == id then some p else find id m

unfoldable pub erase : SessionId → SessionMap → SessionMap
erase id [] = []
erase id ((k, p) ∷ m) = if k == id then erase id m else (k, p) ∷ erase id m

abbrev pub holds : SessionId → SessionMap → Bool
holds id m = elim (find id m) [ none ↦ false | some _ ↦ true ]

-- `emplace` leaves an entry that is there.
emplace_if : Option SessionPtr → SessionId → SessionPtr → SessionMap → SessionMap
emplace_if none id p m = (id, p) ∷ m
emplace_if (some _) id p m = m

unfoldable pub emplace : SessionId → SessionPtr → SessionMap → SessionMap
unfolding emplace_if
emplace id p m = emplace_if (find id m) id p m

-- Each id is there once, and is the address of its session.
abbrev pub IsProper : SessionMap → Type 0
IsProper [] = Unit
IsProper ((k, p) ∷ m) = (k ≡ session_ptr_to_id p) × (find k m ≡ none) × IsProper m

pub find-erase :
    (id j : SessionId) (m : SessionMap) → find j (erase id m) ≡ (if id == j then none else find j m)
unfolding find erase
find-erase id j [] = ground arith
find-erase id j ((k, p) ∷ m) = ground (arith, find-erase id j m)

pub find-emplace :
    (id j : SessionId) (p : SessionPtr) (m : SessionMap)
    → find id m ≡ none
    → find j (emplace id p m) ≡ (if id == j then some p else find j m)
unfolding find emplace
find-emplace id j p m h = ground arith

pub erase-IsProper : (id : SessionId) (m : SessionMap) → IsProper m → IsProper (erase id m)
unfolding erase
erase-IsProper id [] h = tt
erase-IsProper id ((k, p) ∷ m) h = ground (arith, erase-IsProper id m, find-erase id k m)

pub emplace-IsProper :
    (p : SessionPtr) (m : SessionMap)
    → find (session_ptr_to_id p) m ≡ none
    → IsProper m
    → IsProper (emplace (session_ptr_to_id p) p m)
unfolding emplace
emplace-IsProper p m free h = ground arith

-- In a proper map an id is found at itself.
pub find-eq_of_IsProper : (id p : ℕ) (m : SessionMap) → IsProper m → find id m ≡ some p → p ≡ id
unfolding find
find-eq_of_IsProper id p [] h e = ground arith
find-eq_of_IsProper id p ((k, q) ∷ m) h e = ground (arith, find-eq_of_IsProper id p m h.2)

pub erase-find_none : (id : SessionId) (m : SessionMap) → find id m ≡ none → erase id m ≡ m
unfolding find erase
erase-find_none id [] h = refl
erase-find_none id ((k, p) ∷ m) h = ground (arith, erase-find_none id m)
