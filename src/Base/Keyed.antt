-- ===== src/Base/Keyed.antt =====
-- Maps and sets keyed by numbers, `HashMap<u16, V>` and `HashSet<u16>`: association lists, whose first
-- entry of a key counts.
use Prim.Native.Nat.{ℕ}
use mathlib.Core.Path.{◌≡◌, refl}
use mathlib.Core.Bool.{Bool, true, false}
use mathlib.Core.Option.{Option, none, some}
use mathlib.Core.List.{List, [], ◌∷◌}
use native.Mathlib.Omega.{arith}
use btrm.Base.Logic.{◌==◌, if◌then◌else◌}

abbrev pub Keyed {ℓ} : Type ℓ → Type ℓ
Keyed V = List (ℕ × V)

module _ {ℓ} {V : Type ℓ} where
  unfoldable pub get : Keyed V → ℕ → Option V
  get [] k = none
  get ((j, v) ∷ m) k = if j == k then some v else get m k

  unfoldable pub put : ℕ → V → Keyed V → Keyed V
  put k v [] = (k, v) ∷ []
  put k v ((j, w) ∷ m) = if j == k then (k, v) ∷ m else (j, w) ∷ put k v m

  unfoldable pub del : ℕ → Keyed V → Keyed V
  del k [] = []
  del k ((j, w) ∷ m) = let rest = del k m in if j == k then rest else (j, w) ∷ rest

  abbrev pub is_some : Option V → Bool
  is_some none = false
  is_some (some v) = true

  abbrev pub has : Keyed V → ℕ → Bool
  has m k = is_some (get m k)

  -- `get_mut`: a change of the value, where there is one.
  unfoldable pub modify : ℕ → (V → V) → Keyed V → Keyed V
  modify k f [] = []
  modify k f ((j, w) ∷ m) = if j == k then (j, f w) ∷ m else (j, w) ∷ modify k f m

  -- `values_mut`
  unfoldable pub map_values : (V → V) → Keyed V → Keyed V
  map_values f [] = []
  map_values f ((j, w) ∷ m) = (j, f w) ∷ map_values f m

  abbrev pub map_option : (V → V) → Option V → Option V
  map_option f none = none
  map_option f (some v) = some (f v)

  pub get-put :
      (k j : ℕ) (v : V) (m : Keyed V) → get (put k v m) j ≡ (if k == j then some v else get m j)
  unfolding get put
  get-put k j v [] = refl
  get-put k j v ((i, w) ∷ m) = ground (arith, get-put k j v m)

  pub get-del : (k j : ℕ) (m : Keyed V) → get (del k m) j ≡ (if k == j then none else get m j)
  unfolding get del
  get-del k j [] = ground arith
  get-del k j ((i, w) ∷ m) = ground (arith, get-del k j m)

  pub get-modify :
      (k j : ℕ) (f : V → V) (m : Keyed V)
      → get (modify k f m) j ≡ (if k == j then map_option f (get m j) else get m j)
  unfolding get modify
  get-modify k j f [] = ground arith
  get-modify k j f ((i, w) ∷ m) = ground (arith, get-modify k j f m)

  pub get-map_values :
      (j : ℕ) (f : V → V) (m : Keyed V) → get (map_values f m) j ≡ map_option f (get m j)
  unfolding get map_values
  get-map_values j f [] = refl
  get-map_values j f ((i, w) ∷ m) = ground (arith, get-map_values j f m)

-- A set is the keys of it.
abbrev pub Ids : Type 0
Ids = List ℕ

unfoldable pub member : ℕ → Ids → Bool
member k [] = false
member k (j ∷ s) = if j == k then true else member k s

-- `insert`: whether the key is new is `not (member k s)`.
unfoldable pub insert_id : ℕ → Ids → Ids
insert_id k [] = k ∷ []
insert_id k (j ∷ s) = if j == k then j ∷ s else j ∷ insert_id k s

unfoldable pub remove_id : ℕ → Ids → Ids
remove_id k [] = []
remove_id k (j ∷ s) = let rest = remove_id k s in if j == k then rest else j ∷ rest

pub member-insert_id :
    (k j : ℕ) (s : Ids) → member j (insert_id k s) ≡ (if k == j then true else member j s)
unfolding member insert_id
member-insert_id k j [] = ground arith
member-insert_id k j (i ∷ s) = ground (arith, member-insert_id k j s)

pub member-remove_id :
    (k j : ℕ) (s : Ids) → member j (remove_id k s) ≡ (if k == j then false else member j s)
unfolding member remove_id
member-remove_id k j [] = ground arith
member-remove_id k j (i ∷ s) = ground (arith, member-remove_id k j s)
