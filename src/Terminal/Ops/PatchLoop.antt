-- ===== src/Terminal/Ops/PatchLoop.antt =====
-- `apply_patch_cells` at work: where the mask marks each cell that differs, and the patch holds the
-- bytes of the marked cells, the cells of the frame become the new ones.
use mathlib.Core.Path.{subst}
use btrm.Base.{
  ℕ, zero, suc, ◌+◌, ◌-◌, ◌*◌, ◌≤◌, ◌<◌, ◌≡◌, refl, sym, ap, ◌∙◌, true, false, ◌&&◌, Bytes, ltb,
  leb, if◌then◌else◌, length, length-set, set, arith, Bool-cases, inl, inr, eq_of_get_or,
}
use btrm.Base.Slices.{get_or-set}
use btrm.Base.Words.{byte_at}
use btrm.Base.Bits.{test_bit}
use btrm.Base.Loops.{rounds_inv}
use btrm.Cell.{cell_size}
use btrm.Frame.{FrameState}
use btrm.Terminal.Ops.{
  count_bits, patch_bytes, patch_cell, patch_loop, apply_patch_cells, total_cells,
}
use btrm.Terminal.Ops.Count.{count_bits_next, count_bits_nil}

abbrev set_byte : Bytes → ℕ → ℕ → ℕ → ℕ → Bytes → Bytes
set_byte patch dirty_count dirty_idx cell_idx byte_pos cs =
    set cs (cell_idx + byte_pos) (byte_at patch (byte_pos * dirty_count + dirty_idx))

module _ (patch : Bytes) (dirty_count dirty_idx cell_idx : ℕ) (cells : Bytes) where
  -- The first `n` bytes of the cell are new.
  abbrev Patched : ℕ → Bytes → Type 0
  Patched n cs =
      (length cs ≡ length cells)
      × ((x : ℕ)
          → byte_at cs x ≡ (
              if leb cell_idx x && ltb x (cell_idx + n)
              then byte_at patch ((x - cell_idx) * dirty_count + dirty_idx)
              else byte_at cells x))

  set_byte-Patched :
      (j : ℕ) (cs : Bytes)
      → cell_idx + j < length cells
      → Patched j cs
      → Patched (j + 1) (set_byte patch dirty_count dirty_idx cell_idx j cs)
  set_byte-Patched j cs h (same_length, reads) = (
    length-set cs _ _ ∙ same_length,
    λ x.
        let at_x =
          get_or-set cs (cell_idx + j) x (byte_at patch (j * dirty_count + dirty_idx)) 0
            (omega arith) in
        ground (
          arith,
          at_x,
          reads x,
          λ (e : x - cell_idx ≡ j). ap (λ (n : ℕ). byte_at patch (n * dirty_count + dirty_idx)) e,
        ),
  )

  pub patch_bytes-Patched :
      cell_idx + cell_size ≤ length cells
      → Patched cell_size (patch_bytes patch dirty_count dirty_idx cell_idx cells)
  unfolding patch_bytes
  patch_bytes-Patched h =
      rounds_inv Patched cell_size 0 (set_byte patch dirty_count dirty_idx cell_idx) cells cell_size
        refl (λ j cs a b p. set_byte-Patched j cs (omega arith) p) (refl, λ x. ground arith)

-- One round of the loop.
module _ (mask patch : Bytes) (dirty_count k i d : ℕ) (f : FrameState) where
  patch_loop_dirty :
      test_bit mask i ≡ true
      → patch_loop (suc k) i d mask patch dirty_count f
        ≡ patch_loop k (i + 1) (d + 1) mask patch dirty_count (patch_cell patch dirty_count d i f)
  unfolding patch_loop
  patch_loop_dirty t = rw (t, patch_loop)

  patch_loop_clean :
      test_bit mask i ≡ false
      → patch_loop (suc k) i d mask patch dirty_count f
        ≡ patch_loop k (i + 1) d mask patch dirty_count f
  unfolding patch_loop
  patch_loop_clean t = rw (t, patch_loop)

-- The mask marks each cell in which the two differ, and the patch holds the marked ones.
module _ (current previous mask patch : Bytes) (total dirty_count : ℕ)
    (clean : (c p : ℕ)
      → c < total
      → p < cell_size
      → test_bit mask c ≡ false
      → byte_at current (c * cell_size + p) ≡ byte_at previous (c * cell_size + p))
    (dirty : (c p : ℕ)
      → c < total
      → p < cell_size
      → test_bit mask c ≡ true
      → byte_at patch (p * dirty_count + count_bits c 0 mask)
        ≡ byte_at current (c * cell_size + p)) where
  -- The cells before `i` are new.
  abbrev Halfway : ℕ → Bytes → Type 0
  Halfway i cells =
      (length cells ≡ total * cell_size)
      × ((x : ℕ)
          → byte_at cells x
            ≡ (if ltb x (i * cell_size) then byte_at current x else byte_at previous x))

  clean-Halfway :
      (i : ℕ) (cells : Bytes)
      → i < total
      → test_bit mask i ≡ false
      → Halfway i cells
      → Halfway (i + 1) cells
  clean-Halfway i cells h t (e, reads) = (
    e,
    λ x.
        let whole = λ (le : i * cell_size ≤ x) (lt : x < i * cell_size + cell_size).
          clean_at x (x - i * cell_size) (omega arith) (omega arith) in
        ground (arith, reads x, whole),
  )
    where
      clean_at :
          (x p : ℕ) → x ≡ i * cell_size + p → p < cell_size → byte_at current x ≡ byte_at previous x
      clean_at x p e lt = rw e (clean i p h lt t)

  dirty-Halfway :
      (i : ℕ) (cells : Bytes)
      → i < total
      → test_bit mask i ≡ true
      → Halfway i cells
      → Halfway (i + 1) (patch_bytes patch dirty_count (count_bits i 0 mask) (i * cell_size) cells)
  dirty-Halfway i cells h t (e, reads) =
      let p =
        patch_bytes-Patched patch dirty_count (count_bits i 0 mask) (i * cell_size) cells
          (omega arith) in
      (
        p.0 ∙ e,
        λ x.
            let whole = λ (le : i * cell_size ≤ x) (lt : x < i * cell_size + cell_size).
              dirty_at x (x - i * cell_size) (omega arith) (omega arith) in
            ground (arith, reads x, p.1 x, whole),
      )
    where
      dirty_at :
          (x p : ℕ)
          → x ≡ i * cell_size + p
          → p < cell_size
          → byte_at patch (p * dirty_count + count_bits i 0 mask) ≡ byte_at current x
      dirty_at x p e lt = rw e (dirty i p h lt t)

  patch_loop-Halfway :
      (k i d : ℕ) (f : FrameState)
      → i + k ≡ total
      → d ≡ count_bits i 0 mask
      → Halfway i f.cells
      → Halfway total (patch_loop k i d mask patch dirty_count f).cells
  unfolding patch_cell
  patch_loop-Halfway zero i d f e c h =
      let i_is_total : i ≡ total = omega arith in
      unfold patch_loop in subst (λ n. Halfway n f.cells) i_is_total h
  patch_loop-Halfway (suc k) i d f e c h = elim (Bool-cases (test_bit mask i)) [
    | inl t ↦ rw (patch_loop_dirty mask patch dirty_count k i d f t) (
        patch_loop-Halfway k (i + 1) (d + 1) (patch_cell patch dirty_count d i f) (omega arith)
          (omega (arith, c, rw t at (count_bits_next i mask)))
          (rw c (dirty-Halfway i f.cells (omega arith) t h)))
    | inr t ↦ rw (patch_loop_clean mask patch dirty_count k i d f t) (
        patch_loop-Halfway k (i + 1) d f (omega arith)
          (omega (arith, c, rw t at (count_bits_next i mask)))
          (clean-Halfway i f.cells (omega arith) t h))
  ]

  -- The patch turns the old cells into the new ones.
  pub apply_patch_cells-current :
      (f : FrameState)
      → total_cells f ≡ total
      → length current ≡ total * cell_size
      → length previous ≡ total * cell_size
      → f.cells ≡ previous
      → (apply_patch_cells f mask patch dirty_count).cells ≡ current
  unfolding apply_patch_cells
  apply_patch_cells-current f t lc lp e =
      let start : Halfway 0 f.cells = rw e (lp, λ x. ground arith) in
      let done =
        patch_loop-Halfway (total_cells f) 0 0 f (omega arith) (sym (count_bits_nil 0 mask))
          start in
      eq_of_get_or 0 _ current (done.0 ∙ sym lc) (λ x h. rw (done.1 x) (ground (arith, done.0)))
