-- ===== src/Base/Maps.antt =====
-- `BTreeMap<usize, String>`: an association list in the order of its keys, without repetition.
use Prim.Native.Nat.{ℕ}
use mathlib.Core.Path.{◌≡◌, refl}
use mathlib.Core.Option.{Option, none, some}
use mathlib.Core.List.{List, [], ◌∷◌}
use native.Mathlib.Omega.{arith}
use btrm.Base.Logic.{ltb, ◌==◌, if◌then◌else◌, Bytes}

abbrev pub Map : Type 0
Map = List (ℕ × Bytes)

pub lookup : Map → ℕ → Option Bytes
lookup [] k = none
lookup ((j, v) ∷ m) k = if j == k then some v else lookup m k

pub insert : ℕ → Bytes → Map → Map
insert k v [] = (k, v) ∷ []
insert k v ((j, w) ∷ m) =
    if j == k then (k, v) ∷ m else if ltb k j then (k, v) ∷ (j, w) ∷ m else (j, w) ∷ insert k v m

pub remove : ℕ → Map → Map
remove k [] = []
remove k ((j, w) ∷ m) = let rest = remove k m in if j == k then rest else (j, w) ∷ rest

pub lookup-insert :
    (k j : ℕ) (v : Bytes) (m : Map)
    → lookup (insert k v m) j ≡ (if k == j then some v else lookup m j)
unfolding lookup insert
lookup-insert k j v [] = refl
lookup-insert k j v ((i, w) ∷ m) = ground (arith, lookup-insert k j v m)

pub lookup-remove :
    (k j : ℕ) (m : Map) → lookup (remove k m) j ≡ (if k == j then none else lookup m j)
unfolding lookup remove
lookup-remove k j [] = ground arith
lookup-remove k j ((i, w) ∷ m) = ground (arith, lookup-remove k j m)
