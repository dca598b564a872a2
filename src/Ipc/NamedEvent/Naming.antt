-- ===== src/Ipc/NamedEvent/Naming.antt =====
-- Which condition and mutex the events of a name have.
use sephi.Base.{◌≡◌, ◌≢◌, ◌++◌, true, none, some, arith, sym, ◌∙◌, ap, inl, inr, Option-cases}
use sephi.Ipc.Names.{Name, NamedObjects, NamesLaws}
use sephi.Ipc.NamedEvent.{cv_prefix, mtx_prefix, NamedEvent, construct, destroy}

-- A condition's name is no mutex's.
pub prefixes-differ : (n m : Name) → cv_prefix ++ n ≢ mtx_prefix ++ m
prefixes-differ n m h = ground (arith, h)

module _ {Condition Mutex World Cv Mtx : Type 0} (conditions : NamedObjects Unit Condition World)
    (mutexes : NamedObjects Unit Mutex World) (cv_laws : NamesLaws conditions Cv)
    (mtx_laws : NamesLaws mutexes Mtx) where
  -- Making or removing a mutex leaves the conditions of other names alone.
  pub record Apart : Type 0 where
    pub cv-mutex :
        (n : Name) (w w' : World) (m : Mutex)
        → mutexes.open_or_create n tt w ≡ some (m, w')
        → (k : Name) → k ≢ n
        → cv_laws.bound k w' ≡ cv_laws.bound k w
    pub cv-remove :
        (n k : Name) (w : World) → k ≢ n → cv_laws.bound k (mutexes.remove n w) ≡ cv_laws.bound k w
    pub cv-made :
        (n : Name) (w : World) (r : Cv) → cv_laws.made r (mutexes.remove n w) ≡ cv_laws.made r w

  opened-bound :
      (n : Name) (w w' : World) (c : Condition)
      → conditions.open_or_create n tt w ≡ some (c, w')
      → cv_laws.bound n w' ≡ some (cv_laws.resource c)
  opened-bound n w w' c h = elim (Option-cases (cv_laws.bound n w)) [
    | inl free ↦
        cv_laws.create-bound n tt w w' c (sym (cv_laws.open_or_create_free n tt w free) ∙ h)
    | inr (r, taken) ↦
        let opens = sym (cv_laws.open_or_create_taken n tt w r taken) ∙ h in
        cv_laws.open-bound n w w' c opens n ∙ cv_laws.open-resource n w w' c opens
  ]

  opened-taken :
      (n : Name) (w w' : World) (c : Condition) (r : Cv)
      → conditions.open_or_create n tt w ≡ some (c, w')
      → cv_laws.bound n w ≡ some r
      → cv_laws.resource c ≡ r
  opened-taken n w w' c r h taken = ground (
    arith,
    cv_laws.open-resource n w w' c (sym (cv_laws.open_or_create_taken n tt w r taken) ∙ h),
  )

  opened-new :
      (n : Name) (w w' : World) (c : Condition) (r : Cv)
      → conditions.open_or_create n tt w ≡ some (c, w')
      → cv_laws.bound n w ≡ none
      → cv_laws.made r w ≡ true
      → cv_laws.resource c ≢ r
  opened-new n w w' c r h free old same = ground (
    arith,
    cv_laws.create-new n tt w w' c (sym (cv_laws.open_or_create_free n tt w free) ∙ h),
    same,
  )

  -- What a construction that succeeds has done.
  constructed :
      (n : Name) (w w' : World) (e : NamedEvent Condition Mutex)
      → construct conditions mutexes n w ≡ (some e, w')
      → (v : World) × (conditions.open_or_create (cv_prefix ++ n) tt w ≡ some (e.condition, v))
        × (mutexes.open_or_create (mtx_prefix ++ n) tt v ≡ some (e.mutex, w'))
        × (e.cv_name ≡ cv_prefix ++ n)
        × (e.mtx_name ≡ mtx_prefix ++ n)
  unfolding construct
  constructed n w w' e h = elim (Option-cases (conditions.open_or_create (cv_prefix ++ n) tt w)) [
    | inl failed ↦ ground (arith, h)
    | inr ((c, v), made) ↦ elim (Option-cases (mutexes.open_or_create (mtx_prefix ++ n) tt v)) [
      | inl failed ↦ ground (arith, h)
      | inr ((m, v'), made') ↦
          (v, ground (arith, h), ground (arith, h), ground (arith, h), ground (arith, h))
    ]
  ]

  module _ (apart : Apart) where
    -- The name of an event's condition finds the condition of one that has just been constructed.
    condition-bound :
        (n : Name) (w w' : World) (e : NamedEvent Condition Mutex)
        → construct conditions mutexes n w ≡ (some e, w')
        → cv_laws.bound (cv_prefix ++ n) w' ≡ some (cv_laws.resource e.condition)
    condition-bound n w w' e h =
        let (v, cv, mtx, cn, mn) = constructed n w w' e h in
        apart.cv-mutex (mtx_prefix ++ n) v w' e.mutex mtx (cv_prefix ++ n) (prefixes-differ n n)
        ∙ opened-bound (cv_prefix ++ n) w v e.condition cv

    -- Two events that are constructed with one name have the same condition, so that a `set` of one
    -- can wake a `wait` of the other; but when one of them is destroyed, an event that is then
    -- constructed with that name has another condition than the one that is left.
    pub named_events_split :
        (n : Name) (w w1 w2 w3 : World) (a b c : NamedEvent Condition Mutex)
        → construct conditions mutexes n w ≡ (some a, w1)
        → construct conditions mutexes n w1 ≡ (some b, w2)
        → construct conditions mutexes n (destroy conditions mutexes b w2) ≡ (some c, w3)
        → (cv_laws.resource b.condition ≡ cv_laws.resource a.condition)
          × (cv_laws.resource c.condition ≢ cv_laws.resource a.condition)
    unfolding destroy
    named_events_split n w w1 w2 w3 a b c ha hb hc =
        let (vb, cvb, mtxb, nb, mb) = constructed n w1 w2 b hb in
        let (vc, cvc, mtxc, nc, mc) =
          constructed n (mutexes.remove b.mtx_name (conditions.remove b.cv_name w2)) w3 c hc in
        let cv = cv_prefix ++ n in
        let same =
          opened-taken cv w1 vb b.condition (cv_laws.resource a.condition) cvb
            (condition-bound n w w1 a ha) in
        let made : cv_laws.made (cv_laws.resource a.condition) w2 ≡ true =
          cv_laws.bound-made cv w2 (cv_laws.resource a.condition)
            (condition-bound n w1 w2 b hb ∙ ap some same) in
        let free : cv_laws.bound cv (mutexes.remove b.mtx_name (conditions.remove b.cv_name w2))
            ≡ none =
          rw (nb, mb)
            (apart.cv-remove (mtx_prefix ++ n) cv (conditions.remove cv w2) (prefixes-differ n n)
              ∙ cv_laws.removed cv w2) in
        (
          same,
          opened-new cv (mutexes.remove b.mtx_name (conditions.remove b.cv_name w2)) vc c.condition
              (cv_laws.resource a.condition) cvc free
              (apart.cv-made b.mtx_name (conditions.remove b.cv_name w2)
                  (cv_laws.resource a.condition)
                ∙ cv_laws.remove-made b.cv_name w2 (cv_laws.resource a.condition)
                ∙ made),
        )
