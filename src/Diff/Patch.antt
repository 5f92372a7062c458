-- ===== src/Diff/Patch.antt =====
-- `build_patch_op` of crates/remote/src/lib.rs: a bitmask of the cells that differ, and the new cells
-- byte by byte.
pub mod Mask
pub mod Columns
pub mod RoundTrip
use btrm.Base.{
  ℕ, zero, suc, ◌+◌, ◌*◌, [], ◌∷◌, ◌++◌, Bool, not, Option, none, some, Bytes, ◌==◌, if◌then◌else◌,
  replicate, bytes_eq,
}
use btrm.Base.Slices.{slice}
use btrm.Base.Words.{byte_at}
use btrm.Base.Bits.{test_bit, set_bit}
use btrm.Cell.{cell_size}
use btrm.Frame.{FrameState}
use btrm.Terminal.Ops.{total_cells, bitmask_len}
use btrm.Terminal.Payload.{op_patch_cells}

-- Whether cell `i` differs.
unfoldable pub is_dirty : Bytes → Bytes → ℕ → Bool
is_dirty current previous i =
    not (
      bytes_eq (slice current (i * cell_size) cell_size) (slice previous (i * cell_size) cell_size))

-- The bitmask and the number of dirty cells, `k` rounds from cell `i` on.
unfoldable pub mask_loop : ℕ → ℕ → Bytes → Bytes → Bytes → ℕ → Bytes × ℕ
mask_loop zero i current previous mask dirty_count = (mask, dirty_count)
mask_loop (suc k) i current previous mask dirty_count =
    let dirty = is_dirty current previous i in
    mask_loop k (i + 1) current previous (if dirty then set_bit mask i else mask)
      (if dirty then dirty_count + 1 else dirty_count)

-- Byte `byte_pos` of each dirty cell.
unfoldable pub column : ℕ → ℕ → Bytes → Bytes → ℕ → Bytes
column zero i mask current byte_pos = []
column (suc k) i mask current byte_pos =
    let rest = column k (i + 1) mask current byte_pos in
    if test_bit mask i then byte_at current (i * cell_size + byte_pos) ∷ rest else rest

-- `k` columns from `byte_pos` on.
unfoldable pub columns : ℕ → ℕ → Bytes → Bytes → ℕ → Bytes
columns zero total mask current byte_pos = []
columns (suc k) total mask current byte_pos =
    column total 0 mask current byte_pos ++ columns k total mask current (byte_pos + 1)

unfoldable pub dirty_mask : FrameState → FrameState → Bytes × ℕ
dirty_mask current previous =
    mask_loop (total_cells current) 0 current.cells previous.cells
      (replicate (bitmask_len current) 0) 0

unfoldable pub build_patch_op : FrameState → FrameState → Option Bytes
unfolding dirty_mask
build_patch_op current previous =
    let found = dirty_mask current previous in
    if found.1 == 0
    then none
    else some (
        op_patch_cells
        ∷ (found.0 ++ columns cell_size (total_cells current) found.0 current.cells 0))
