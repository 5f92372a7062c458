-- ===== src/Base/Loops.antt =====
-- `for i in lo..hi` over a state, and its rules.
use Prim.Native.Nat.{ℕ, zero, suc, ◌+◌, ◌-◌, ◌<◌, ◌≤◌}
use mathlib.Core.Path.{◌≡◌}
use native.Mathlib.Nat.{add-zero}
use native.Mathlib.Omega.{arith}

module _ {ℓ} {S : Type ℓ} where
  -- `k` rounds, the first at index `i`.
  abbrev pub rounds : ℕ → ℕ → (ℕ → S → S) → S → S
  rounds zero i body s = s
  rounds (suc k) i body s = rounds k (i + 1) body (body i s)

  abbrev pub for_range : ℕ → ℕ → (ℕ → S → S) → S → S
  for_range lo hi body s = rounds (hi - lo) lo body s

  -- What each round keeps, the loop keeps.
  pub rounds_keep {κ} :
      (P : S → Type κ) (k i : ℕ) (body : ℕ → S → S) (s : S)
      → ((j : ℕ) (t : S) → P t → P (body j t))
      → P s
      → P (rounds k i body s)
  rounds_keep P zero i body s keep h = h
  rounds_keep P (suc k) i body s keep h = rounds_keep P k (i + 1) body (body i s) keep (keep i s h)

  -- `P j` holds before round `j`.
  pub rounds_inv {κ} :
      (P : ℕ → S → Type κ) (k i : ℕ) (body : ℕ → S → S) (s : S) (n : ℕ)
      → n ≡ i + k
      → ((j : ℕ) (t : S) → i ≤ j → j < n → P j t → P (j + 1) (body j t))
      → P i s
      → P n (rounds k i body s)
  rounds_inv P zero i body s n e keep h = rw e at_zero
    where
      at_zero : P (i + 0) s
      at_zero = rw add-zero h
  rounds_inv P (suc k) i body s n e keep h =
      rounds_inv P k (i + 1) body (body i s) n (omega arith)
        (λ j t a b p. keep j t (omega arith) b p) (keep i s (omega arith) (omega arith) h)

-- Two loops over the same indices whose rounds keep a relation.
module _ {ℓ κ μ} {S : Type ℓ} {T : Type κ} where
  pub rounds_rel :
      (R : S → T → Type μ) (k i : ℕ) (f : ℕ → S → S) (g : ℕ → T → T) (s : S) (t : T)
      → ((j : ℕ) (s' : S) (t' : T) → i ≤ j → j < i + k → R s' t' → R (f j s') (g j t'))
      → R s t
      → R (rounds k i f s) (rounds k i g t)
  rounds_rel R zero i f g s t keep h = h
  rounds_rel R (suc k) i f g s t keep h =
      rounds_rel R k (i + 1) f g (f i s) (g i t)
        (λ j s' t' a b p. keep j s' t' (omega arith) (omega arith) p)
        (keep i s t (omega arith) (omega arith) h)
