-- ===== src/Diff/Fill.antt =====
-- `uniform_row_cell` and `append_full_width_fill_ops` of crates/remote/src/lib.rs.
pub mod Agree
pub mod Runs
use btrm.Base.{
  ℕ, zero, suc, ◌+◌, ◌-◌, ◌*◌, bit_and, ◌∷◌, ◌++◌, Bool, true, false, not, ◌&&◌, ◌||◌, Option, none,
  some, Bytes, ltb, leb, ◌==◌, if◌then◌else◌, bytes_eq, u16_max,
}
use btrm.Base.Slices.{slice, write}
use btrm.Base.Words.{u16_to_le, byte_at}
use btrm.Base.Loops.{for_range}
use btrm.Cell.{cell_size}
use btrm.Frame.{FrameState, offset_in}
use btrm.Terminal.Payload.{op_fill_rect}

-- Whether the `k` cells from `off` on are all `first`.
unfoldable pub all_cells : ℕ → Bytes → ℕ → Bytes → Bool
all_cells zero cells off first = true
all_cells (suc k) cells off first =
    bytes_eq (slice cells off cell_size) first && all_cells k cells (off + cell_size) first

-- The cell that fills a row; no half of a wide character counts.
unfoldable pub uniform_row_cell : FrameState → ℕ → Option Bytes
unfolding all_cells
uniform_row_cell f row =
    let start = row * f.cols * cell_size in
    let first = slice f.cells start cell_size in
    if leb f.rows row || f.cols == 0
    then none
    else if not (bit_and (byte_at first 1) 6 == 0)
    then none
    else if all_cells (f.cols - 1) f.cells (start + cell_size) first
    then some first
    else none

abbrev pub is_cell : Option Bytes → Bytes → Bool
is_cell none cell = false
is_cell (some c) cell = bytes_eq c cell

-- `while end < rows`: the first row from `end` on that `cell` does not fill. `rows` rounds of fuel
-- are enough.
unfoldable pub run_end : ℕ → FrameState → ℕ → Bytes → ℕ
unfolding uniform_row_cell
run_end zero current end cell = end
run_end (suc fuel) current end cell =
    let rest = run_end fuel current (end + 1) cell in
    if ltb end current.rows && is_cell (uniform_row_cell current end) cell then rest else end

unfoldable pub fill_bytes : FrameState → ℕ → ℕ → Bytes → Bytes
fill_bytes current row end cell =
    op_fill_rect
    ∷ (u16_to_le row
        ++ (u16_to_le 0 ++ (u16_to_le (end - row) ++ (u16_to_le current.cols ++ cell))))

-- The rows `row`, …, `end - 1` of the basis become `cell`.
unfoldable pub fill_rows : ℕ → Bytes → ℕ → ℕ → ℕ → Bytes → Bytes
fill_rows basis_cols cells row end cols cell =
    for_range row end
      (λ r cs.
        for_range 0 cols (λ c ds. write ds (offset_in basis_cols r 0 + c * cell_size) cell) cs)
      cells

unfoldable pub fill_basis : FrameState → ℕ → ℕ → ℕ → Bytes → FrameState
unfolding fill_rows
fill_basis basis row end cols cell = record basis {
  cells = fill_rows basis.cols basis.cells row end cols cell;
}

-- The basis, the bytes of the operations, and their number.
pub record Filling : Type 0 where
  pub basis : FrameState
  pub out : Bytes
  pub op_count : ℕ

unfoldable pub add_fill : FrameState → ℕ → ℕ → Bytes → Filling → Filling
unfolding fill_bytes fill_basis
add_fill current row end cell s = record {
  basis = fill_basis s.basis row end current.cols cell;
  out = s.out ++ fill_bytes current row end cell;
  op_count = s.op_count + 1;
}

-- One round of the loop: the next row, or the end of the loop.
unfoldable pub fill_round : FrameState → ℕ → Filling → Option (ℕ × Filling)
unfolding add_fill
fill_round current row s =
    let row_bytes = current.cols * cell_size in
    let same =
      bytes_eq (slice current.cells (row * row_bytes) row_bytes)
        (slice s.basis.cells (row * row_bytes) row_bytes) in
    if ltb row current.rows
    then (if same then some (row + 1, s) else elim (uniform_row_cell current row) [
      | none ↦ some (row + 1, s)
      | some cell ↦
          let end = run_end current.rows current (row + 1) cell in
          if s.op_count == u16_max then none else some (end, add_fill current row end cell s)
    ])
    else none

-- `while row < rows`: each round goes on by one row at least, so `rows` rounds of fuel are enough.
unfoldable pub fill_loop : ℕ → FrameState → ℕ → Filling → Filling
unfolding fill_round run_end uniform_row_cell
fill_loop zero current row s = s
fill_loop (suc fuel) current row s = elim (fill_round current row s) [
  | none ↦ s
  | some (next, t) ↦ fill_loop fuel current next t
]

unfoldable pub append_full_width_fill_ops : FrameState → Filling → Filling
unfolding fill_loop
append_full_width_fill_ops current s =
    if current.rows == 0 || current.cols == 0 then s else fill_loop current.rows current 0 s
