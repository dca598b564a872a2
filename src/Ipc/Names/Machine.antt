-- ===== src/Ipc/Names/Machine.antt =====
-- A machine that keeps the names of src/ipc: the interface and its laws hold of a concrete program.
use sephi.Base.{
  ℕ, suc, ◌<◌, ◌≡◌, ◌≢◌, List, [], ◌∷◌, Bool, true, false, ◌&&◌, Option, none, some, if◌then◌else◌,
  ◌==◌, ltb, arith, refl, inl, inr, Bool-cases,
}
use sephi.Ipc.Names.{Name, NamedObjects, NamesLaws}

-- What has happened to the names, the last event first.
pub data Event : Type 0 where
  binds unbinds : Name → Event

abbrev pub Journal : Type 0
Journal = List Event

abbrev pub is_name : Name → Name → Bool
is_name [] [] = true
is_name (x ∷ xs) (y ∷ ys) = (x == y) && is_name xs ys
is_name _ _ = false

pub is_name_refl : (n : Name) → is_name n n ≡ true
is_name_refl [] = refl
is_name_refl (x ∷ xs) = ground (arith, is_name_refl xs)

pub is_name-eq : (n m : Name) → is_name n m ≡ true → n ≡ m
is_name-eq [] [] h = refl
is_name-eq [] (y ∷ ys) h = ground (arith, h)
is_name-eq (x ∷ xs) [] h = ground (arith, h)
is_name-eq (x ∷ xs) (y ∷ ys) h = ground (arith, is_name-eq xs ys)

abbrev pub resources : Journal → ℕ
resources [] = 0
resources (binds n ∷ w) = suc (resources w)
resources (unbinds n ∷ w) = resources w

abbrev pub lookup : Name → Journal → Option ℕ
lookup n [] = none
lookup n (binds m ∷ w) = if is_name n m then some (resources w) else lookup n w
lookup n (unbinds m ∷ w) = if is_name n m then none else lookup n w

abbrev pub create : Name → Journal → Option (ℕ × Journal)
create n w = elim (lookup n w) [ none ↦ some (resources w, binds n ∷ w) | some _ ↦ none ]

abbrev pub open_bound : Name → Journal → Option (ℕ × Journal)
open_bound n w = elim (lookup n w) [ none ↦ none | some r ↦ some (r, w) ]

abbrev pub machine : {Args : Type 0} → NamedObjects Args ℕ Journal
machine = record {
  create_only = λ n a w. create n w;
  open_only = open_bound;
  open_or_create = λ n a w. elim (lookup n w) [ none ↦ create n w | some _ ↦ open_bound n w ];
  remove = λ n w. unbinds n ∷ w;
}

pub lookup-bound : (n : Name) (w : Journal) (r : ℕ) → lookup n w ≡ some r → r < resources w
lookup-bound n [] r h = ground (arith, h)
lookup-bound n (binds m ∷ w) r h = ground (arith, lookup-bound n w r)
lookup-bound n (unbinds m ∷ w) r h = ground (arith, lookup-bound n w r)

pub lookup_other : (n m : Name) (w : Journal) → m ≢ n → lookup m (unbinds n ∷ w) ≡ lookup m w
lookup_other n m w other = ground (arith, is_name-eq m n)

pub create-keeps :
    (n m : Name) (w w' : Journal) (o r : ℕ)
    → create n w ≡ some (o, w')
    → lookup m w ≡ some r
    → lookup m w' ≡ some r
create-keeps n m w w' o r h b = elim (Bool-cases (is_name m n)) [
  | inl same ↦ ground (arith, is_name-eq m n same)
  | inr other ↦ ground (arith)
]

abbrev pub machine_laws : {Args : Type 0} → NamesLaws (machine {Args = Args}) ℕ
machine_laws = record {
  resource = λ o. o;
  bound = lookup;
  made = λ r w. ltb r (resources w);
  bound-made = λ n w r h. ground (arith, lookup-bound n w r h);
  create-free = λ n a w w' o h. ground (arith);
  create-new = λ n a w w' o h. ground (arith);
  create-bound = λ n a w w' o h. ground (arith, is_name_refl n);
  create-keeps = λ n a w w' o h m r b. create-keeps n m w w' o r h b;
  create-made = λ n a w w' o h r t. ground (arith);
  open-resource = λ n w w' o h. ground (arith);
  open-bound = λ n w w' o h m. ground (arith);
  open-made = λ n w w' o h r. ground (arith);
  open_free = λ n w h. ground (arith);
  open_or_create_free = λ n a w h. ground (arith);
  open_or_create_taken = λ n a w r h. ground (arith);
  removed = λ n w. ground (arith, is_name_refl n);
  remove-others = λ n w m other. lookup_other n m w other;
  remove-made = λ n w r. refl;
}
