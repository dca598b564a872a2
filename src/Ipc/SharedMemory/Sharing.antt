-- ===== src/Ipc/SharedMemory/Sharing.antt =====
-- Which segment the objects of a name have: a program of several objects, and what destruction does.
use sephi.Base.{
  ℕ, ◌≡◌, ◌≢◌, ◌∙◌, List, foldl, Along, inl, inr, Option-cases, foldl_inv_along, Option, none, some,
  arith,
}
use sephi.Ipc.Names.{Name, NamedObjects, NamesLaws}
use sephi.Ipc.SharedMemory.{
  SharedMemory, create_only, open_only, open_or_create, destroy, move_assign, holding,
}
use sephi.Ipc.SharedMemory.Program.{
  Program, Input, creates, opens, opens_or_creates, destroys, moves, place, begin, end, move, step,
}

module _ {Object World : Type 0} (names : NamedObjects ℕ Object World) where
  holding-made :
      (n : Name) (r : Option (Object × World)) (c : SharedMemory Object) (w' : World) (o' : Object)
      → holding names n r ≡ some (c, w')
      → c.memory ≡ some o'
      → r ≡ some (o', w')
  unfolding holding
  holding-made n none c w' o' made has_o = ground (arith, made)
  holding-made n (some (o, w)) c w' o' made has_o = ground (arith, made, has_o)

  module _ {Segment : Type 0} (laws : NamesLaws names Segment) (n : Name) where
    open laws use {resource, bound}

    -- Every object of the name that has a mapping has one of the segment that the name finds.
    pub Shared : Program Object World → Type 0
    Shared p =
        (i : ℕ) (m : SharedMemory Object) (o : Object)
        → p.live i ≡ some m
        → m.name ≡ n
        → m.memory ≡ some o
        → bound n p.world ≡ some (resource o)

    -- The input destroys no object of the name.
    abbrev pub Keeps : Program Object World → Input → Type 0
    Keeps p (destroys i) = (m : SharedMemory Object) → p.live i ≡ some m → m.name ≢ n
    Keeps p _ = Unit

    -- What a constructor leaves: the new object's name finds its segment, and a name that found a
    -- segment still finds it.
    abbrev Made : World → Option (SharedMemory Object × World) → Type 0
    Made w none = Unit
    Made w (some (m, w')) =
        ((o : Object) → m.memory ≡ some o → bound m.name w' ≡ some (resource o))
        × ((s : Segment) → bound n w ≡ some s → bound n w' ≡ some s)

    place-Shared :
        (i : ℕ) (p : Program Object World) (made : Option (SharedMemory Object × World))
        → Made p.world made
        → Shared p
        → Shared (place i p made)
    unfolding Shared
    place-Shared i p none h sh = sh
    place-Shared i p (some (m', w')) (fresh, kept) sh =
        λ j m o is_m is_n has_o. ground (arith, fresh o, kept (resource o), sh j m o)

    begin-Shared :
        (i : ℕ) (p : Program Object World) (made : Option (SharedMemory Object × World))
        → Made p.world made
        → Shared p
        → Shared (begin i p made)
    unfolding begin
    begin-Shared i p made h sh = ground (arith, place-Shared i p made h sh)

    create_only-Made : (w : World) (m : Name) (size : ℕ) → Made w (create_only names m size w)
    unfolding create_only holding
    create_only-Made w m size = elim (Option-cases (names.create_only m size w)) [
      | inl e ↦ rw e tt
      | inr ((o, w'), e) ↦ rw e (
        λ o' is. ground (arith, laws.create-bound m size w w' o e),
        laws.create-keeps m size w w' o e n,
      )
    ]

    end-Shared :
        (i : ℕ) (p : Program Object World)
        → Keeps p (destroys i)
        → Shared p
        → Shared (end names i p)
    unfolding Shared end destroy
    end-Shared i p keeps sh j m o is_m is_n has_o = elim (Option-cases (p.live i)) [
      | inl e ↦ ground (arith, sh j m o)
      | inr (m', e) ↦ ground (arith, sh j m o, keeps m' e, laws.remove-others m'.name p.world n)
    ]

    move-Shared : (i j : ℕ) (p : Program Object World) → Shared p → Shared (move i j p)
    unfolding Shared move move_assign
    move-Shared i j p sh k m o is_m is_n has_o = ground (arith, sh k m o, sh j m o)

    open_only-Made : (w : World) (m : Name) → Made w (open_only names m w)
    unfolding open_only holding
    open_only-Made w m = elim (Option-cases (names.open_only m w)) [
      | inl e ↦ rw e tt
      | inr ((o, w'), e) ↦ rw e (
        λ o' is. ground (arith, laws.open-resource m w w' o e, laws.open-bound m w w' o e m),
        λ s b. laws.open-bound m w w' o e n ∙ b,
      )
    ]

    open_or_create-Made : (w : World) (m : Name) (size : ℕ) → Made w (open_or_create names m size w)
    unfolding open_or_create open_only create_only holding
    open_or_create-Made w m size = elim (Option-cases (bound m w)) [
      | inl e ↦ rw (laws.open_or_create_free m size w e) (create_only-Made w m size)
      | inr (s, e) ↦ rw (laws.open_or_create_taken m size w s e) (open_only-Made w m)
    ]

    step-Shared :
        (p : Program Object World) (input : Input)
        → Keeps p input
        → Shared p
        → Shared (step names p input)
    unfolding step
    step-Shared p (creates i m size) k =
        begin-Shared i p (create_only names m size p.world) (create_only-Made p.world m size)
    step-Shared p (opens i m) k =
        begin-Shared i p (open_only names m p.world) (open_only-Made p.world m)
    step-Shared p (opens_or_creates i m size) k =
        begin-Shared i p (open_or_create names m size p.world) (open_or_create-Made p.world m size)
    step-Shared p (destroys i) k = end-Shared i p k
    step-Shared p (moves i j) k = move-Shared i j p

    -- In every run that begins without objects and destroys none of a given name, all objects of the
    -- name, those created, those opened and those moved, have the same segment.
    pub objects_share_segment :
        (w : World) (is : List Input)
        → Along (step names) Keeps (record { world = w; live = λ _. none }) is
        → (i j : ℕ) (m m' : SharedMemory Object) (o o' : Object)
        → (foldl (step names) (record { world = w; live = λ _. none }) is).live i ≡ some m
        → (foldl (step names) (record { world = w; live = λ _. none }) is).live j ≡ some m'
        → m.name ≡ n
        → m'.name ≡ n
        → m.memory ≡ some o
        → m'.memory ≡ some o'
        → resource o ≡ resource o'
    unfolding Shared
    objects_share_segment w is keeps i j m m' o o' at_i at_j is_n is_n' has_o has_o' =
        let sh =
          foldl_inv_along Shared Keeps (step names) step-Shared
            (record { world = w; live = λ _. none }) is keeps (λ i m o no. ground (arith, no)) in
        ground (arith, sh i m o at_i is_n has_o, sh j m' o' at_j is_n' has_o')

    -- When an object of a name is destroyed while another one still has the segment, the name cannot
    -- be opened any more, and an object that is then created under it has another segment.
    pub destroyed_name_splits :
        (w : World) (a b c : SharedMemory Object) (o o' : Object) (size : ℕ) (w' : World)
        → a.memory ≡ some o
        → bound n w ≡ some (resource o)
        → b.name ≡ n
        → create_only names n size (destroy names b w) ≡ some (c, w')
        → c.memory ≡ some o'
        → (open_only names n (destroy names b w) ≡ none) × (resource o' ≢ resource o)
    unfolding create_only open_only destroy holding
    destroyed_name_splits w a b c o o' size w' has_o is_bound is_n made has_o' =
        let gone = laws.removed n w in
        let lost = laws.open_free n (names.remove n w) gone in
        (
          ground (arith, lost),
          λ same.
              let new = laws.create-new n size (names.remove n w) w' o' (
                holding-made n (names.create_only n size (names.remove n w)) c w' o'
                  (ground (arith, made)) has_o') in
              ground (
                arith,
                new,
                laws.remove-made n w (resource o),
                laws.bound-made n w (resource o) is_bound,
                same,
              ),
        )
