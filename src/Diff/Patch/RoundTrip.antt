-- ===== src/Diff/Patch/RoundTrip.antt =====
-- What `build_patch_op` writes, the receiver's `patch_op` applies.
use mathlib.Core.Option.{some-injective}
use btrm.Base.{
  ℕ, zero, suc, ◌+◌, ◌*◌, ◌/◌, ◌%◌, ◌≤◌, ◌<◌, ◌≡◌, sym, ap, ◌∙◌, ◌∷◌, ◌++◌, Bool, false, Bytes,
  none, some, ◌==◌, length, length-append, arith, Bool-cases, inl, inr, bytes_eq_iff, ==_iff,
  eq_of_get_or,
}
use btrm.Base.Holds.{Holds}
use btrm.Terminal.Ops.Count.{count_true, count_bits-count_true}
use btrm.Terminal.Ops.Keeps.{apply_patch_cells-Keeps}
use btrm.Terminal.Payload.{op_patch_cells}
use btrm.Terminal.Payload.Read.{apply_op-patch}
use btrm.Terminal.Payload.Runs.{Runs, Runs-one}
use btrm.Base.Slices.{slice, get_or-slice}
use btrm.Base.Words.{byte_at}
use btrm.Cell.{cell_size}
use btrm.Frame.{FrameState}
use btrm.Terminal.Ops.{total_cells, bitmask_len, count_bits, apply_patch_cells}
use btrm.Terminal.Ops.PatchLoop.{apply_patch_cells-current}
use btrm.Diff.Patch.{is_dirty, dirty_mask, columns, build_patch_op}
use btrm.Diff.Patch.Mask.{length-dirty_mask, test_bit-dirty_mask, count-dirty_mask}
use btrm.Diff.Patch.Columns.{length-columns, byte_at-columns}

cell_of : (x : ℕ) → x ≡ x / cell_size * cell_size + x % cell_size
cell_of x = omega arith

-- A cell that is not dirty has equal bytes.
clean_byte :
    (current previous : Bytes) (c p : ℕ)
    → p < cell_size
    → is_dirty current previous c ≡ false
    → byte_at current (c * cell_size + p) ≡ byte_at previous (c * cell_size + p)
unfolding is_dirty
clean_byte current previous c p h e =
    let same : slice current (c * cell_size) cell_size ≡ slice previous (c * cell_size) cell_size =
      (bytes_eq_iff _ _).0 (ground arith) in
    sym (get_or-slice current (c * cell_size) cell_size p 0 h)
    ∙ ap (λ (s : Bytes). byte_at s p) same
    ∙ get_or-slice previous (c * cell_size) cell_size p 0 h

-- The cells of the operation behind its tag and its mask.
abbrev pub patch_data : FrameState → FrameState → Bytes
patch_data current previous =
    columns cell_size (total_cells current) (dirty_mask current previous).0 current.cells 0

module _ (current previous f : FrameState) (same_total : total_cells f ≡ total_cells current)
    (current_fill : length current.cells ≡ total_cells current * cell_size)
    (previous_fill : length previous.cells ≡ total_cells current * cell_size)
    (old_cells : f.cells ≡ previous.cells) where
  -- Applying the patch gives the current cells.
  pub apply_patch_cells-dirty_mask :
      (apply_patch_cells f
        (dirty_mask current previous).0
        (patch_data current previous)
        (count_bits (total_cells current) 0 (dirty_mask current previous).0)).cells
      ≡ current.cells
  apply_patch_cells-dirty_mask =
      apply_patch_cells-current current.cells previous.cells _ _ (total_cells current) _
        (λ c p h lt t.
          clean_byte current.cells previous.cells c p lt
            (sym (test_bit-dirty_mask current previous c h) ∙ t))
        (λ c p h lt t. byte_at-columns _ current.cells (total_cells current) c p h lt t) f
        same_total current_fill previous_fill old_cells

-- No patch is written only where no cell differs.
count_none :
    (k i : ℕ) (p : ℕ → Bool) (j : ℕ) → count_true k i p ≡ 0 → i ≤ j → j < i + k → p j ≡ false
unfolding count_true
count_none zero i p j e a b = absurd (omega arith)
count_none (suc k) i p j e a b = elim (Bool-cases (p i)) [
  | inl t ↦ absurd (omega (arith, rw t at e))
  | inr t ↦ elim (Bool-cases (i == j)) [
    | inl q ↦ rw (← (==_iff i j).0 q) t
    | inr q ↦ count_none k (i + 1) p j (omega (arith, rw t at e)) (ground arith) (omega arith)
  ]
]

module _ (current previous f : FrameState) (same_total : total_cells f ≡ total_cells current)
    (current_fill : length current.cells ≡ total_cells current * cell_size)
    (previous_fill : length previous.cells ≡ total_cells current * cell_size)
    (old_cells : f.cells ≡ previous.cells) where
  pub build_patch_op-none : build_patch_op current previous ≡ none → previous.cells ≡ current.cells
  unfolding build_patch_op
  build_patch_op-none e = elim (Bool-cases ((dirty_mask current previous).1 == 0)) [
    | inr z ↦ cc (rw z at e)
    | inl z ↦
        let zero_bits : count_bits (total_cells current) 0 (dirty_mask current previous).0 ≡ 0 =
          sym (count-dirty_mask current previous) ∙ (==_iff _ 0).0 z in
        eq_of_get_or 0 previous.cells current.cells (previous_fill ∙ sym current_fill)
          (λ x lt. sym (split_at x (omega (arith, previous_fill)) zero_bits))
  ]
    where
      split_at :
          (x : ℕ)
          → x < total_cells current * cell_size
          → count_bits (total_cells current) 0 (dirty_mask current previous).0 ≡ 0
          → byte_at current.cells x ≡ byte_at previous.cells x
      split_at x lt z = rw (cell_of x) (
          clean_byte current.cells previous.cells (x / cell_size) (x % cell_size) (omega arith) (
            sym (test_bit-dirty_mask current previous (x / cell_size) (omega arith))
            ∙ count_none (total_cells current) 0 _ (x / cell_size)
                (sym (count_bits-count_true _ 0 _) ∙ z) (omega arith) (omega arith)))

  -- The patch of a frame against another, run by a receiver that has the cells of the other, is one
  -- operation that ends behind the patch and gives the cells of the frame. The receiver has as many
  -- cells as the frame, and the cells of both fill its grid.
  pub build_patch_op-Runs :
      (op payload : Bytes) (off : ℕ)
      → build_patch_op current previous ≡ some op
      → Holds payload off op
      → (g : FrameState) × Runs 1 payload off f g (off + length op) × (g.cells ≡ current.cells)
  unfolding build_patch_op
  build_patch_op-Runs op payload off e h =
      elim (Bool-cases ((dirty_mask current previous).1 == 0)) [
        | inl z ↦ cc (rw z at e)
        | inr z ↦
            let written = some-injective _ op (rw z at e) in
            (
              apply_patch_cells f mask (patch_data current previous)
                  (count_bits (total_cells f) 0 mask),
              rw (← written) (
                  rw ends (
                    Runs-one payload off _ f _ _
                      (apply_op-patch f payload off mask (patch_data current previous)
                        (rw (← written) at h) same_mask same_patch)
                      (apply_patch_cells-Keeps f mask (patch_data current previous) _))),
              rw same_total (
                  apply_patch_cells-dirty_mask current previous f same_total current_fill
                    previous_fill old_cells),
            )
      ]
    where
      mask : Bytes
      mask = (dirty_mask current previous).0

      same_mask : length mask ≡ bitmask_len f
      same_mask = length-dirty_mask current previous ∙ ap (λ (n : ℕ). (n + 7) / 8) (sym same_total)

      same_patch :
          length (patch_data current previous) ≡ count_bits (total_cells f) 0 mask * cell_size
      same_patch =
          rw (ap (λ (n : ℕ). count_bits n 0 mask) same_total)
            (omega (arith, length-columns mask current.cells cell_size (total_cells current) 0))

      ends :
          off + length (op_patch_cells ∷ (mask ++ patch_data current previous))
          ≡ off + 1 + length mask + length (patch_data current previous)
      ends = omega (arith, length-append {0} mask (patch_data current previous))
