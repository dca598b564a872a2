-- ===== src/Ipc/SharedMemory.antt =====
-- include/sephi/ipc/shm/shared_memory.h and src/ipc/shm/shared_memory.cpp, in the POSIX build: a
-- named segment of memory, and the objects in it.
--
-- `ManagedSharedMemory` is Boost's: its constructors are `NamedObjects`, its members `Mapping`. The
-- template argument of the members is the type of the value, a parameter. An `assert` that fails
-- ends the process.
mod Program
mod Sharing
mod Examples
use sephi.Base.{ℕ, List, [], Bool, true, false, Option, none, some, if◌then◌else◌}
use sephi.Ipc.Names.{Name, NamedObjects}

-- The members of a mapping of a segment. `construct` is `none` where Boost throws, and `find` where
-- it returns a null pointer.
pub record Mapping (Object World Value Address Handle : Type 0) : Type 0 where
  pub construct_at : Object → Name → Value → World → Option (Address × World)
  pub find_at : Object → Name → World → Option Address
  pub destroy_ptr : Object → Address → World → World
  pub belongs_to_segment : Object → Address → Bool
  pub get_free_memory : Object → World → ℕ
  pub get_handle_from_address : Object → Address → Handle
  pub get_address_from_handle : Object → Handle → Address
  pub atomic_func : Object → (World → World) → World → World

-- What a member function comes to. `undefined` is a call through the null pointer that a move leaves.
pub data Outcome (A : Type 0) : Type 0 where
  returns : A → Outcome A
  throws_not_found : Outcome A
  throws_interprocess : Outcome A
  assertion_fails : Outcome A
  undefined : Outcome A

pub record SharedMemory (Object : Type 0) : Type 0 where
  pub memory : Option Object
  pub name : Name

module _ {Object World : Type 0} (names : NamedObjects ℕ Object World) where
  holding : Name → Option (Object × World) → Option (SharedMemory Object × World)
  holding n none = none
  holding n (some (o, w)) = some (record { memory = some o; name = n }, w)

  pub create_only : Name → ℕ → World → Option (SharedMemory Object × World)
  unfolding holding
  create_only n size w = holding n (names.create_only n size w)

  pub open_only : Name → World → Option (SharedMemory Object × World)
  unfolding holding
  open_only n w = holding n (names.open_only n w)

  pub open_or_create : Name → ℕ → World → Option (SharedMemory Object × World)
  unfolding holding
  open_or_create n size w = holding n (names.open_or_create n size w)

  -- The destructor.
  pub destroy : SharedMemory Object → World → World
  destroy m w = names.remove m.name w

-- `target = std::move(source)` of two objects: what they are then. The standard library leaves the
-- text that is moved from empty.
pub move_assign :
    {Object : Type 0}
    → SharedMemory Object
    → SharedMemory Object
    → SharedMemory Object × SharedMemory Object
move_assign target source = (source, record { memory = none; name = [] })

-- `SharedMemory{std::move(source)}`: the new object, and what the source is then.
pub move_construct :
    {Object : Type 0} → SharedMemory Object → SharedMemory Object × SharedMemory Object
move_construct source = (source, record { memory = none; name = [] })

through : {Object A : Type 0} → SharedMemory Object → (Object → Outcome A) → Outcome A
through m f = elim m.memory [ none ↦ undefined | some o ↦ f o ]

module _ {Object World Value Address Handle : Type 0}
    (mapping : Mapping Object World Value Address Handle) where
  open mapping use {
    construct_at, find_at, destroy_ptr, belongs_to_segment, get_free_memory,
    get_handle_from_address, get_address_from_handle, atomic_func,
  }

  pub construct : SharedMemory Object → Name → Value → World → Outcome (Address × World)
  unfolding through
  construct m n v w =
      through m
        λ o. elim (construct_at o n v w) [ none ↦ throws_interprocess | some made ↦ returns made ]

  pub find : SharedMemory Object → Name → World → Outcome Address
  unfolding through
  find m n w =
      through m λ o. elim (find_at o n w) [ some obj ↦ returns obj | none ↦ throws_not_found ]

  pub destruct : SharedMemory Object → Address → World → Outcome World
  unfolding through
  destruct m obj w =
      through m
        λ o. if belongs_to_segment o obj then returns (destroy_ptr o obj w) else assertion_fails

  pub contains : SharedMemory Object → Address → Outcome Bool
  unfolding through
  contains m ptr = through m λ o. returns (belongs_to_segment o ptr)

  pub to_handle : SharedMemory Object → Address → Outcome Handle
  unfolding through
  to_handle m obj = through m λ o.
      if belongs_to_segment o obj then returns (get_handle_from_address o obj) else assertion_fails

  pub from_handle : SharedMemory Object → Handle → Outcome Address
  unfolding through
  from_handle m handle = through m λ o.
      let ptr = get_address_from_handle o handle in
      if belongs_to_segment o ptr then returns ptr else assertion_fails

  pub invoke_atomic : SharedMemory Object → (World → World) → World → Outcome World
  unfolding through
  invoke_atomic m func w = through m λ o. returns (atomic_func o func w)

  pub free_size : SharedMemory Object → World → Outcome ℕ
  unfolding through
  free_size m w = through m λ o. returns (get_free_memory o w)
