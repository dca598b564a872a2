-- ===== src/Ipc/SharedMemory/Program.antt =====
-- A program of several objects of shared_memory.h: constructions, destructions and moves.
use sephi.Base.{ℕ, Option, none, some, if◌then◌else◌, ◌==◌}
use sephi.Ipc.Names.{Name, NamedObjects}
use sephi.Ipc.SharedMemory.{
  SharedMemory, create_only, open_only, open_or_create, destroy, move_assign,
}

-- The objects that are alive, in whichever processes, by the variable that holds each.
pub record Program (Object World : Type 0) : Type 0 where
  pub world : World
  pub live : ℕ → Option (SharedMemory Object)

pub data Input : Type 0 where
  creates : ℕ → Name → ℕ → Input
  opens : ℕ → Name → Input
  opens_or_creates : ℕ → Name → ℕ → Input
  destroys : ℕ → Input
  moves : ℕ → ℕ → Input

abbrev pub set_live :
    {Object : Type 0}
    → ℕ
    → Option (SharedMemory Object)
    → (ℕ → Option (SharedMemory Object))
    → ℕ
    → Option (SharedMemory Object)
set_live i m live j = if i == j then m else live j

-- A constructor that throws makes no object.
abbrev pub place :
    {Object World : Type 0}
    → ℕ
    → Program Object World
    → Option (SharedMemory Object × World)
    → Program Object World
place i p none = p
place i p (some (m, w)) = record p { world = w; live = set_live i (some m) p.live }

module _ {Object World : Type 0} where
  -- A variable is given an object only while it has none.
  unfoldable pub begin :
      ℕ → Program Object World → Option (SharedMemory Object × World) → Program Object World
  begin i p made = elim (p.live i) [ some _ ↦ p | none ↦ place i p made ]

  unfoldable pub move : ℕ → ℕ → Program Object World → Program Object World
  unfolding move_assign
  move i j p = elim (p.live i) [
    | none ↦ p
    | some target ↦ elim (p.live j) [
      | none ↦ p
      | some source ↦
          let (target', source') = move_assign target source in
          if i == j
          then p
          else record p { live = set_live i (some target') (set_live j (some source') p.live) }
    ]
  ]

module _ {Object World : Type 0} (names : NamedObjects ℕ Object World) where
  unfoldable pub end : ℕ → Program Object World → Program Object World
  unfolding destroy
  end i p = elim (p.live i) [
    | none ↦ p
    | some m ↦ record p { world = destroy names m p.world; live = set_live i none p.live }
  ]

  unfoldable pub step : Program Object World → Input → Program Object World
  unfolding begin end move create_only open_only open_or_create
  step p (creates i n size) = begin i p (create_only names n size p.world)
  step p (opens i n) = begin i p (open_only names n p.world)
  step p (opens_or_creates i n size) = begin i p (open_or_create names n size p.world)
  step p (destroys i) = end i p
  step p (moves i j) = move i j p
