-- ===== src/Base.antt =====
-- The names that the modules share: the libraries', passed on, and small helpers for the list
-- and arithmetic idioms of the C++ code.
pub use Prim.Native.Nat.{ℕ, zero, suc, ◌+◌, ◌-◌, ◌*◌, ◌%◌, ◌^◌, ◌≤◌, ◌<◌, compare, Ordering}
pub use mathlib.Core.Path.{◌≡◌, refl, sym, ap, subst, ◌∙◌}
pub use mathlib.Core.Logic.{◌≢◌, ◌⊎◌, ◌↔◌, inl, inr}
pub use mathlib.Core.Bool.{Bool, true, false, not, ◌&&◌, ◌||◌}
pub use mathlib.Core.Option.{Option, none, some}
use mathlib.Core.List.{map}
pub use mathlib.Core.List.{List, [], ◌∷◌, ◌++◌, tail, foldl, append-nil, append_assoc}
use mathlib.Core.List.{foldl-append}
pub use native.Mathlib.Omega.{arith}
unfoldable pub use native.Mathlib.Decide.{ℕ_discrete}

infix 50 ◌==◌
abbrev pub ◌==◌ : ℕ → ℕ → Bool
a == b = elim (compare a b) [ Ordering.eq ↦ true | _ ↦ false ]

abbrev pub ltb : ℕ → ℕ → Bool
ltb a b = elim (compare a b) [ Ordering.lt ↦ true | _ ↦ false ]

infix 1 if◌then◌else◌
abbrev pub if◌then◌else◌ {ℓ} : {A : Type ℓ} → Bool → A → A → A
if true then x else y = x
if false then x else y = y

pub Bool-cases : (b : Bool) → (b ≡ true) ⊎ (b ≡ false)
Bool-cases true = inl refl
Bool-cases false = inr refl

pub Nat-cases : (n : ℕ) → (n ≡ 0) ⊎ ((m : ℕ) × (n ≡ suc m))
Nat-cases zero = inl refl
Nat-cases (suc n) = inr (n, refl)

-- Every entry has a property.
abbrev pub All {ℓ κ} : {A : Type ℓ} → (A → Type κ) → List A → Type κ
All P [] = Unit
All P (x ∷ xs) = P x × All P xs

-- An invariant that needs something of each input.
pub foldl_inv_if {ℓ κ ι θ} :
    {S : Type ℓ} {I : Type κ} (P : S → Type ι) (Ok : I → Type θ) (step : S → I → S)
    → ((s : S) (i : I) → Ok i → P s → P (step s i))
    → (s : S) (is : List I) → All Ok is
    → P s
    → P (foldl step s is)
foldl_inv_if P Ok step keep s [] ok h = h
foldl_inv_if P Ok step keep s (i ∷ is) (o, ok) h =
    foldl_inv_if P Ok step keep (step s i) is ok (keep s i o h)

-- Each input has a property of the state that it meets.
abbrev pub Along {ℓ κ ι} :
    {S : Type ℓ} {I : Type κ} → (S → I → S) → (S → I → Type ι) → S → List I → Type ι
Along step Ok s [] = Unit
Along step Ok s (i ∷ is) = Ok s i × Along step Ok (step s i) is

pub foldl_inv_along {ℓ κ ι θ} :
    {S : Type ℓ} {I : Type κ} (P : S → Type ι) (Ok : S → I → Type θ) (step : S → I → S)
    → ((s : S) (i : I) → Ok s i → P s → P (step s i))
    → (s : S) (is : List I) → Along step Ok s is
    → P s
    → P (foldl step s is)
foldl_inv_along P Ok step keep s [] ok h = h
foldl_inv_along P Ok step keep s (i ∷ is) (o, ok) h =
    foldl_inv_along P Ok step keep (step s i) is ok (keep s i o h)

module _ {ℓ} {A : Type ℓ} where
  abbrev pub length : List A → ℕ
  length [] = 0
  length (x ∷ xs) = suc (length xs)

  -- `empty()` of a container.
  abbrev pub is_empty : List A → Bool
  is_empty [] = true
  is_empty (x ∷ xs) = false

  abbrev pub take : ℕ → List A → List A
  take zero xs = []
  take (suc n) [] = []
  take (suc n) (x ∷ xs) = x ∷ take n xs

  abbrev pub drop : ℕ → List A → List A
  drop zero xs = xs
  drop (suc n) [] = []
  drop (suc n) (x ∷ xs) = drop n xs

  abbrev pub replicate : ℕ → A → List A
  replicate zero a = []
  replicate (suc n) a = a ∷ replicate n a

  -- The entry at a position, with the entries that remain.
  abbrev pub pick : ℕ → List A → Option (A × List A)
  pick i [] = none
  pick zero (x ∷ xs) = some (x, xs)
  pick (suc i) (x ∷ xs) = elim (pick i xs) [ none ↦ none | some (y, ys) ↦ some (y, x ∷ ys) ]

  abbrev pub get_elem? : List A → ℕ → Option A
  get_elem? [] i = none
  get_elem? (x ∷ xs) zero = some x
  get_elem? (x ∷ xs) (suc i) = get_elem? xs i

  -- The last entry.
  abbrev pub last? : List A → Option A
  last? [] = none
  last? (x ∷ []) = some x
  last? (x ∷ y ∷ ys) = last? (y ∷ ys)

-- What the steps of a run give out, in order.
unfoldable pub outputs {ℓ κ ι} :
    {S : Type ℓ} {I : Type κ} {O : Type ι} → (S → I → S) → (S → I → List O) → S → List I → List O
outputs step out s [] = []
outputs step out s (i ∷ is) = out s i ++ outputs step out (step s i) is

-- An invariant of the steps holds after a run.
pub foldl_inv {ℓ κ ι} :
    {S : Type ℓ} {I : Type κ} (P : S → Type ι) (step : S → I → S)
    → ((s : S) (i : I) → P s → P (step s i))
    → (s : S) (is : List I) → P s
    → P (foldl step s is)
foldl_inv P step keep s [] h = h
foldl_inv P step keep s (i ∷ is) h = foldl_inv P step keep (step s i) is (keep s i h)

-- A log to which every step appends what it gives out.
pub foldl-log {ℓ κ ι} :
    {S : Type ℓ} {I : Type κ} {O : Type ι} (log : S → List O) (step : S → I → S)
    (out : S → I → List O)
    → ((s : S) (i : I) → log (step s i) ≡ log s ++ out s i)
    → (s : S) (is : List I) → log (foldl step s is) ≡ log s ++ outputs step out s is
unfolding outputs
foldl-log log step out grows s [] = sym (append-nil (log s))
foldl-log log step out grows s (i ∷ is) =
    foldl-log log step out grows (step s i) is
    ∙ (ap (λ xs. xs ++ outputs step out (step s i) is) (grows s i)
        ∙ append_assoc (log s) (out s i) (outputs step out (step s i) is))

-- If each step does what some operations do to a view of the state, so does a run.
pub foldl-view {ℓ κ ι θ ξ} :
    {S : Type ℓ} {I : Type κ} {T : Type ι} {O : Type θ} (view : S → T) (step : S → I → S)
    (apply : T → O → T) (ops : S → I → List O) (Ok : I → Type ξ)
    → ((s : S) (i : I) → Ok i → view (step s i) ≡ foldl apply (view s) (ops s i))
    → (s : S) (is : List I) → All Ok is
    → view (foldl step s is) ≡ foldl apply (view s) (outputs step ops s is)
unfolding outputs
foldl-view view step apply ops Ok agree s [] ok = refl
foldl-view view step apply ops Ok agree s (i ∷ is) (o, ok) =
    foldl-view view step apply ops Ok agree (step s i) is ok
    ∙ (ap (λ t. foldl apply t (outputs step ops (step s i) is)) (agree s i o)
        ∙ sym (foldl-append apply (view s) (ops s i) (outputs step ops (step s i) is)))

pub Along-append {ℓ κ θ} :
    {S : Type ℓ} {I : Type κ} (step : S → I → S) (Ok : S → I → Type θ) (s : S) (is js : List I)
    → Along step Ok s is
    → Along step Ok (foldl step s is) js
    → Along step Ok s (is ++ js)
Along-append step Ok s [] js ok ok' = ok'
Along-append step Ok s (i ∷ is) js (o, ok) ok' = (o, Along-append step Ok (step s i) is js ok ok')

module _ {ℓ} {A : Type ℓ} where
  pub length-append : (xs ys : List A) → length (xs ++ ys) ≡ length xs + length ys
  length-append [] ys = omega arith
  length-append (x ∷ xs) ys = omega (arith, length-append xs ys)

  pub length-tail : (xs : List A) → length (tail xs) ≡ length xs - 1
  length-tail [] = omega arith
  length-tail (x ∷ xs) = omega arith

  pub eq-nil_of_length : (xs : List A) → length xs ≤ 0 → xs ≡ []
  eq-nil_of_length [] h = refl
  eq-nil_of_length (x ∷ xs) h = absurd (omega arith)

  pub take-append : (xs ys : List A) → take (length xs) (xs ++ ys) ≡ xs
  take-append [] ys = refl
  take-append (x ∷ xs) ys = ap (◌∷◌ x) (take-append xs ys)

  pub take_self : (n : ℕ) (xs : List A) → length xs ≤ n → take n xs ≡ xs
  take_self zero [] h = refl
  take_self zero (x ∷ xs) h = absurd (omega arith)
  take_self (suc n) [] h = refl
  take_self (suc n) (x ∷ xs) h = ap (◌∷◌ x) (take_self n xs (omega arith))

  pub length-drop : (n : ℕ) (xs : List A) → length (drop n xs) ≡ length xs - n
  length-drop zero xs = omega arith
  length-drop (suc n) [] = omega arith
  length-drop (suc n) (x ∷ xs) = omega (arith, length-drop n xs)

  pub length-replicate : (n : ℕ) (a : A) → length (replicate n a) ≡ n
  length-replicate zero a = refl
  length-replicate (suc n) a = ap suc (length-replicate n a)

  pub get_elem?-append :
      (xs ys : List A) (i : ℕ) (a : A) → get_elem? xs i ≡ some a → get_elem? (xs ++ ys) i ≡ some a
  get_elem?-append [] ys i a h = absurd (cc)
  get_elem?-append (x ∷ xs) ys zero a h = h
  get_elem?-append (x ∷ xs) ys (suc i) a h = get_elem?-append xs ys i a h

  pub pick_last : (xs : List A) (x : A) → pick (length xs) (xs ++ x ∷ []) ≡ some (x, xs)
  pick_last [] x = refl
  pick_last (y ∷ xs) x = ground (arith, pick_last xs x)

  pub get_elem?-append_last : (xs : List A) (a : A) → get_elem? (xs ++ a ∷ []) (length xs) ≡ some a
  get_elem?-append_last [] a = refl
  get_elem?-append_last (x ∷ xs) a = get_elem?-append_last xs a

  pub last?-append : (xs : List A) (a : A) → last? (xs ++ a ∷ []) ≡ some a
  last?-append [] a = refl
  last?-append (x ∷ []) a = refl
  last?-append (x ∷ y ∷ ys) a = last?-append (y ∷ ys) a

pub Option-cases {ℓ} : {A : Type ℓ} (x : Option A) → (x ≡ none) ⊎ ((a : A) × (x ≡ some a))
Option-cases none = inl refl
Option-cases (some a) = inr (a, refl)

pub All-append {ℓ κ} :
    {A : Type ℓ} (P : A → Type κ) (xs ys : List A) → All P xs → All P ys → All P (xs ++ ys)
All-append P [] ys h h' = h'
All-append P (x ∷ xs) ys (p, h) h' = (p, All-append P xs ys h h')

pub All-replicate {ℓ κ} :
    {A : Type ℓ} (P : A → Type κ) (n : ℕ) (x : A) → P x → All P (replicate n x)
All-replicate P zero x h = tt
All-replicate P (suc n) x h = (h, All-replicate P n x h)

pub All-map {ℓ κ} :
    {A B : Type ℓ} (P : B → Type κ) (f : A → B) (xs : List A)
    → All (λ x. P (f x)) xs
    → All P (map f xs)
All-map P f [] h = tt
All-map P f (x ∷ xs) (p, h) = (p, All-map P f xs h)

pub All-implied {ℓ κ} :
    {A : Type ℓ} (P Q : A → Type κ) → ((x : A) → P x → Q x) → (xs : List A) → All P xs → All Q xs
All-implied P Q f [] h = tt
All-implied P Q f (x ∷ xs) (p, h) = (f x p, All-implied P Q f xs h)

pub All-get_elem? {ℓ κ} :
    {A : Type ℓ} (P : A → Type κ) (xs : List A) (i : ℕ) (a : A)
    → All P xs
    → get_elem? xs i ≡ some a
    → P a
All-get_elem? P [] i a h e = absurd (cc)
All-get_elem? P (x ∷ xs) zero a h e = subst P (ground arith) h.0
All-get_elem? P (x ∷ xs) (suc i) a h e = All-get_elem? P xs i a h.1 e

pub All_split {ℓ κ} :
    {A : Type ℓ} (P : A → Type κ) (xs ys : List A) → All P (xs ++ ys) → All P xs × All P ys
All_split P [] ys h = (tt, h)
All_split P (x ∷ xs) ys (p, h) = let (h', h'') = All_split P xs ys h in ((p, h'), h'')
