-- ===== src/Diff/Fill/Agree.antt =====
-- The rows that the sender fills on its own copy of the frame are those that the receiver fills on
-- reading the operations.
use btrm.Base.{
  ℕ, zero, suc, ◌+◌, ◌-◌, ◌*◌, ◌≤◌, ◌<◌, ◌≡◌, ◌∙◌, false, not, ◌||◌, Bytes, some, arith, ltb, min,
  length, u16_max,
}
use btrm.Base.Slices.{slice, write, length-slice}
use btrm.Base.Loops.{for_range}
use btrm.Base.Words.{IsU16}
use btrm.Cell.{cell_size}
use btrm.Frame.{FrameState, offset_in}
use btrm.Terminal.Ops.{fill_cells}
use btrm.Terminal.Ops.Cells.{filled_cells, fill_cells_lem}
use btrm.Diff.Fill.{uniform_row_cell, run_end, fill_rows}

offset_sum : (cols r c : ℕ) → offset_in cols r c ≡ offset_in cols r 0 + c * cell_size
offset_sum cols r c = omega arith

fill_cells-fill_rows :
    (cols row end : ℕ) (cells cell : Bytes)
    → fill_cells cols cells row end 0 cols cell ≡ fill_rows cols cells row end cols cell
unfolding fill_rows
fill_cells-fill_rows cols row end cells cell = fill_cells_lem cols cells row end 0 cols cell ∙ (λ i.
    for_range row end (λ r cs. for_range 0 cols (λ c ds. write ds (offset_sum cols r c i) cell) cs)
      cells)

-- A run of rows inside the frame is not clipped.
pub filled_cells_rows :
    (rows cols row end : ℕ) (cells cell : Bytes)
    → row < end
    → end ≤ rows
    → IsU16 rows
    → 0 < cols
    → IsU16 cols
    → filled_cells rows cols cells row 0 (end - row) cols cell
      ≡ fill_rows cols cells row end cols cell
filled_cells_rows rows cols row end cells cell h1 h2 h3 h4 h5 =
    let row_end : min (min (row + (end - row)) u16_max) rows ≡ end = omega arith in
    let col_end : min (min (0 + cols) u16_max) cols ≡ cols = omega arith in
    let inside : (not (ltb row end) || not (ltb 0 cols)) ≡ false = ground arith in
    rw (row_end, col_end, inside) (fill_cells-fill_rows cols row end cells cell)

uniform_row_cell_lem :
    (f : FrameState) (row : ℕ) (cell : Bytes)
    → uniform_row_cell f row ≡ some cell
    → cell ≡ slice f.cells (row * f.cols * cell_size) cell_size
unfolding uniform_row_cell
uniform_row_cell_lem f row cell e = ground arith

pub length-uniform_row_cell :
    (f : FrameState) (row : ℕ) (cell : Bytes)
    → length f.cells ≡ f.rows * f.cols * cell_size
    → row < f.rows
    → 0 < f.cols
    → uniform_row_cell f row ≡ some cell
    → length cell ≡ cell_size
length-uniform_row_cell f row cell fill lt pos e =
    rw (uniform_row_cell_lem f row cell e)
      (length-slice f.cells (row * f.cols * cell_size) cell_size (rw fill (grind arith)))

pub run_end_bounds :
    (fuel : ℕ) (current : FrameState) (end : ℕ) (cell : Bytes)
    → end ≤ current.rows
    → (end ≤ run_end fuel current end cell) × (run_end fuel current end cell ≤ current.rows)
unfolding run_end
run_end_bounds zero current end cell h = omega arith
run_end_bounds (suc fuel) current end cell h =
    ground (arith, run_end_bounds fuel current (end + 1) cell)
