-- ===== src/Ipc/Names.antt =====
-- The named objects of Boost.Interprocess that src/ipc stands on: an interface with its laws.
--
-- Boost and the kernel are not part of the repository. Their calls are the fields of `NamedObjects`,
-- and `NamesLaws` says of them what Boost's documentation says.
pub mod Machine
use sephi.Base.{ℕ, ◌≡◌, ◌≢◌, List, Bool, true, false, Option, none, some}

-- A text, as the numbers of its characters.
abbrev pub Name : Type 0
Name = List ℕ

-- `Object` is a C++ object of Boost, `Args` what a creation is given besides the name, `World` the
-- state of the machine. `none` is the `interprocess_exception`.
pub record NamedObjects (Args Object World : Type 0) : Type 0 where
  pub create_only : Name → Args → World → Option (Object × World)
  pub open_only : Name → World → Option (Object × World)
  pub open_or_create : Name → Args → World → Option (Object × World)
  pub remove : Name → World → World

-- `resource` is what an object stands for, which several objects may share; `bound` is the resource
-- that a name finds; `made` tells of the resources that have ever been made.
pub record NamesLaws {Args Object World : Type 0} (ops : NamedObjects Args Object World)
    (Resource : Type 0) : Type 0 where
  pub resource : Object → Resource
  pub bound : Name → World → Option Resource
  pub made : Resource → World → Bool
  pub bound-made : (n : Name) (w : World) (r : Resource) → bound n w ≡ some r → made r w ≡ true
  pub create-free :
      (n : Name) (a : Args) (w w' : World) (o : Object)
      → ops.create_only n a w ≡ some (o, w')
      → bound n w ≡ none
  pub create-new :
      (n : Name) (a : Args) (w w' : World) (o : Object)
      → ops.create_only n a w ≡ some (o, w')
      → made (resource o) w ≡ false
  pub create-bound :
      (n : Name) (a : Args) (w w' : World) (o : Object)
      → ops.create_only n a w ≡ some (o, w')
      → bound n w' ≡ some (resource o)
  pub create-keeps :
      (n : Name) (a : Args) (w w' : World) (o : Object)
      → ops.create_only n a w ≡ some (o, w')
      → (m : Name) (r : Resource) → bound m w ≡ some r
      → bound m w' ≡ some r
  pub create-made :
      (n : Name) (a : Args) (w w' : World) (o : Object)
      → ops.create_only n a w ≡ some (o, w')
      → (r : Resource) → made r w ≡ true
      → made r w' ≡ true
  pub open-resource :
      (n : Name) (w w' : World) (o : Object)
      → ops.open_only n w ≡ some (o, w')
      → bound n w ≡ some (resource o)
  pub open-bound :
      (n : Name) (w w' : World) (o : Object)
      → ops.open_only n w ≡ some (o, w')
      → (m : Name) → bound m w' ≡ bound m w
  pub open-made :
      (n : Name) (w w' : World) (o : Object)
      → ops.open_only n w ≡ some (o, w')
      → (r : Resource) → made r w' ≡ made r w
  pub open_free : (n : Name) (w : World) → bound n w ≡ none → ops.open_only n w ≡ none
  pub open_or_create_free :
      (n : Name) (a : Args) (w : World)
      → bound n w ≡ none
      → ops.open_or_create n a w ≡ ops.create_only n a w
  pub open_or_create_taken :
      (n : Name) (a : Args) (w : World) (r : Resource)
      → bound n w ≡ some r
      → ops.open_or_create n a w ≡ ops.open_only n w
  pub removed : (n : Name) (w : World) → bound n (ops.remove n w) ≡ none
  pub remove-others :
      (n : Name) (w : World) (m : Name) → m ≢ n → bound m (ops.remove n w) ≡ bound m w
  pub remove-made : (n : Name) (w : World) (r : Resource) → made r (ops.remove n w) ≡ made r w
