-- ===== src/Base/Slices.antt =====
-- Slices of a buffer: `&data[off..off + n]`, and `copy_from_slice` into one. A read past the end of
-- the buffer gives fewer items here, and a write past the end is dropped.
use Prim.Native.Nat.{ℕ, zero, suc, ◌+◌, ◌-◌, ◌<◌, ◌≤◌}
use mathlib.Core.Path.{◌≡◌, refl, ap, ◌∙◌}
use mathlib.Core.Bool.{◌&&◌}
use mathlib.Core.List.{List, [], ◌∷◌, ◌++◌}
use native.Mathlib.Nat.{zero-add, suc-add}
use native.Mathlib.Omega.{arith}
use btrm.Base.Logic.{ltb, leb, ◌==◌, if◌then◌else◌}
use btrm.Base.Lists.{length, get_or, set, take, drop, length-take, length-drop, take-append}

module _ {ℓ} {A : Type ℓ} where
  abbrev pub slice : List A → ℕ → ℕ → List A
  slice xs off n = take n (drop off xs)

  abbrev pub write : List A → ℕ → List A → List A
  write [] off bs = []
  write (x ∷ xs) zero [] = x ∷ xs
  write (x ∷ xs) zero (b ∷ bs) = b ∷ write xs zero bs
  write (x ∷ xs) (suc off) bs = x ∷ write xs off bs

  pub length-write : (xs : List A) (off : ℕ) (bs : List A) → length (write xs off bs) ≡ length xs
  length-write [] off bs = refl
  length-write (x ∷ xs) zero [] = refl
  length-write (x ∷ xs) zero (b ∷ bs) = ap suc (length-write xs zero bs)
  length-write (x ∷ xs) (suc off) bs = ap suc (length-write xs off bs)

  pub length-slice : (xs : List A) (off n : ℕ) → off + n ≤ length xs → length (slice xs off n) ≡ n
  length-slice xs off n h = omega (arith, length-take n (drop off xs), length-drop off xs)

  pub get_or-append :
      (xs ys : List A) (i : ℕ) (d : A)
      → get_or (xs ++ ys) i d
        ≡ (if ltb i (length xs) then get_or xs i d else get_or ys (i - length xs) d)
  get_or-append [] ys i d = ground arith
  get_or-append (x ∷ xs) ys zero d = ground arith
  get_or-append (x ∷ xs) ys (suc i) d = ground (arith, get_or-append xs ys i d)

  pub get_or-append_left :
      (xs ys : List A) (i : ℕ) (d : A) → i < length xs → get_or (xs ++ ys) i d ≡ get_or xs i d
  get_or-append_left [] ys i d h = absurd (omega arith)
  get_or-append_left (x ∷ xs) ys zero d h = refl
  get_or-append_left (x ∷ xs) ys (suc i) d h = get_or-append_left xs ys i d (omega arith)

  pub get_or-append_right :
      (xs ys : List A) (i k : ℕ) (d : A) → i ≡ length xs + k → get_or (xs ++ ys) i d ≡ get_or ys k d
  get_or-append_right [] ys i k d e = ap (λ (n : ℕ). get_or ys n d) (omega arith)
  get_or-append_right (x ∷ xs) ys zero k d e = absurd (omega arith)
  get_or-append_right (x ∷ xs) ys (suc i) k d e = get_or-append_right xs ys i k d (omega arith)

  pub get_or-drop :
      (off i : ℕ) (xs : List A) (d : A) → get_or (drop off xs) i d ≡ get_or xs (off + i) d
  get_or-drop zero i xs d = ground arith
  get_or-drop (suc off) i [] d = refl
  get_or-drop (suc off) i (x ∷ xs) d = ground (arith, get_or-drop off i xs d)

  pub get_or-take : (n i : ℕ) (xs : List A) (d : A) → i < n → get_or (take n xs) i d ≡ get_or xs i d
  get_or-take zero i xs d h = absurd (omega arith)
  get_or-take (suc n) i [] d h = refl
  get_or-take (suc n) zero (x ∷ xs) d h = refl
  get_or-take (suc n) (suc i) (x ∷ xs) d h = get_or-take n i xs d (omega arith)

  pub get_or-slice :
      (xs : List A) (off n i : ℕ) (d : A)
      → i < n
      → get_or (slice xs off n) i d ≡ get_or xs (off + i) d
  get_or-slice xs off n i d h = get_or-take n i (drop off xs) d h ∙ get_or-drop off i xs d

  -- The slice at the end of `front` is the front of what follows it.
  pub drop-append_length :
      (front rest : List A) (k : ℕ) → drop (length front + k) (front ++ rest) ≡ drop k rest
  drop-append_length [] rest k = rw zero-add
  drop-append_length (x ∷ front) rest k = rw suc-add (drop-append_length front rest k)

  pub slice-append :
      (front mid rest : List A) → slice (front ++ (mid ++ rest)) (length front) (length mid) ≡ mid
  slice-append [] mid rest = take-append mid rest
  slice-append (x ∷ front) mid rest = slice-append front mid rest

-- Reads after a write.
module _ {A : Type 0} where
  pub get_or-set :
      (xs : List A) (j i : ℕ) (v d : A)
      → j < length xs
      → get_or (set xs j v) i d ≡ (if j == i then v else get_or xs i d)
  get_or-set [] j i v d h = absurd (omega arith)
  get_or-set (x ∷ xs) zero zero v d h = ground arith
  get_or-set (x ∷ xs) zero (suc i) v d h = ground arith
  get_or-set (x ∷ xs) (suc j) zero v d h = ground arith
  get_or-set (x ∷ xs) (suc j) (suc i) v d h = ground (arith, get_or-set xs j i v d (omega arith))

  pub get_or-write :
      (xs : List A) (off i : ℕ) (bs : List A) (d : A)
      → off + length bs ≤ length xs
      → get_or (write xs off bs) i d
        ≡ (if leb off i && ltb i (off + length bs) then get_or bs (i - off) d else get_or xs i d)
  get_or-write [] off i [] d h = ground arith
  get_or-write [] off i (b ∷ bs) d h = absurd (omega arith)
  get_or-write (x ∷ xs) zero i [] d h = ground arith
  get_or-write (x ∷ xs) zero zero (b ∷ bs) d h = ground arith
  get_or-write (x ∷ xs) zero (suc i) (b ∷ bs) d h = ground (arith, get_or-write xs zero i bs d)
  get_or-write (x ∷ xs) (suc off) zero bs d h = ground arith
  get_or-write (x ∷ xs) (suc off) (suc i) bs d h = ground (arith, get_or-write xs off i bs d)
