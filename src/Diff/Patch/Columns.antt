-- ===== src/Diff/Patch/Columns.antt =====
-- The layout of the cells of a patch: byte `p` of the dirty cell number `d` stands at
-- `p * dirty_count + d`.
use native.Mathlib.Nat.{zero-add, add-zero, zero-mul, suc-mul}
use btrm.Base.{
  ℕ, zero, suc, ◌+◌, ◌*◌, ◌<◌, ◌≡◌, refl, ap, ◌∙◌, true, Bytes, length, length-append, get_or,
  arith, Bool-cases, inl, inr,
}
use btrm.Base.Slices.{get_or-append_left, get_or-append_right}
use btrm.Base.Words.{byte_at}
use btrm.Base.Bits.{test_bit}
use btrm.Cell.{cell_size}
use btrm.Terminal.Ops.{count_bits}
use btrm.Terminal.Ops.Count.{count_bits-lt, count_bits_cons, count_bits_nil}
use btrm.Diff.Patch.{column, columns}

module _ (mask current : Bytes) where
  length-column :
      (k i byte_pos : ℕ) → length (column k i mask current byte_pos) ≡ count_bits k i mask
  unfolding column
  length-column zero i byte_pos = rw count_bits_nil
  length-column (suc k) i byte_pos = elim (Bool-cases (test_bit mask i)) [
    | inl t ↦
        rw t (omega (arith, rw t at (count_bits_cons k i mask), length-column k (i + 1) byte_pos))
    | inr t ↦
        rw t (omega (arith, rw t at (count_bits_cons k i mask), length-column k (i + 1) byte_pos))
  ]

  one-add : (n : ℕ) → 1 + n ≡ suc n
  one-add n = omega arith

  -- The item of the column for cell `c`.
  get_or-column :
      (k i j c byte_pos : ℕ)
      → c ≡ i + j
      → j < k
      → test_bit mask c ≡ true
      → get_or (column k i mask current byte_pos) (count_bits j i mask) 0
        ≡ byte_at current (c * cell_size + byte_pos)
  unfolding column
  get_or-column zero i j c byte_pos e h t = absurd (omega arith)
  get_or-column (suc k) i zero c byte_pos e h t =
      let c_is_i : c ≡ i = omega arith in rw (c_is_i, rw c_is_i at t, count_bits_nil) refl
  get_or-column (suc k) i (suc j) c byte_pos e h t = elim (Bool-cases (test_bit mask i)) [
    | inl s ↦
        rw (count_bits_cons, s, one-add)
          (get_or-column k (i + 1) j c byte_pos (omega arith) (omega arith) t)
    | inr s ↦
        rw (count_bits_cons, s, zero-add)
          (get_or-column k (i + 1) j c byte_pos (omega arith) (omega arith) t)
  ]

  -- The item of the columns for byte `p` of the dirty cell number `d`.
  get_or-columns :
      (k total byte_pos p d : ℕ)
      → p < k
      → d < count_bits total 0 mask
      → get_or (columns k total mask current byte_pos) (p * count_bits total 0 mask + d) 0
        ≡ get_or (column total 0 mask current (byte_pos + p)) d 0
  unfolding columns
  get_or-columns zero total byte_pos p d hp hd = absurd (omega arith)
  get_or-columns (suc k) total byte_pos zero d hp hd =
      rw (zero-mul, zero-add, add-zero)
        (get_or-append_left (column total 0 mask current byte_pos) _ d 0
          (omega (arith, length-column total 0 byte_pos)))
  get_or-columns (suc k) total byte_pos (suc p) d hp hd =
      let dc : ℕ = count_bits total 0 mask in
      get_or-append_right (column total 0 mask current byte_pos) _ _ (p * dc + d) 0
        (omega (arith, length-column total 0 byte_pos, suc-mul p dc))
      ∙ get_or-columns k total (byte_pos + 1) p d (omega arith) hd
      ∙ ap (λ (n : ℕ). get_or (column total 0 mask current n) d 0) (omega arith)

  pub length-columns :
      (k total byte_pos : ℕ)
      → length (columns k total mask current byte_pos) ≡ k * count_bits total 0 mask
  unfolding columns
  length-columns zero total byte_pos = omega arith
  length-columns (suc k) total byte_pos =
      rw length-append
        (omega (arith, length-column total 0 byte_pos, length-columns k total (byte_pos + 1)))

  -- What the receiver reads for byte `p` of a dirty cell is that byte of the cell.
  pub byte_at-columns :
      (total c p : ℕ)
      → c < total
      → p < cell_size
      → test_bit mask c ≡ true
      → byte_at
          (columns cell_size total mask current 0)
          (p * count_bits total 0 mask + count_bits c 0 mask)
        ≡ byte_at current (c * cell_size + p)
  byte_at-columns total c p hc hp t =
      get_or-columns cell_size total 0 p (count_bits c 0 mask) hp (count_bits-lt c total mask hc t)
      ∙ rw zero-add (get_or-column total 0 c c p (omega arith) hc t)
