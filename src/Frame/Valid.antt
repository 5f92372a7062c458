-- ===== src/Frame/Valid.antt =====
-- The invariant of a `FrameState`: the cells fill the grid exactly, so every cell of the grid can be
-- read, and there is a byte of flags for each row.
use btrm.Base.{
  ℕ, ◌+◌, ◌-◌, ◌*◌, ◌≤◌, ◌<◌, ◌≡◌, length, length-replicate, length-set, arith, Bytes, Bool,
}
use btrm.Cell.{cell_size}
use btrm.Frame.{FrameState, new, from_parts, set_wrapped, resize, cell_offset}

pub record IsValid (f : FrameState) : Type 0 where
  pub cells_fill : length f.cells ≡ f.rows * f.cols * cell_size
  pub flags_fill : length f.line_flags ≡ f.rows

-- The cursor stands inside the grid, or at its origin where the grid is empty.
pub record CursorInside (f : FrameState) : Type 0 where
  pub row_inside : f.cursor_row ≤ f.rows - 1
  pub col_inside : f.cursor_col ≤ f.cols - 1

pub new-IsValid : (rows cols : ℕ) → IsValid (new rows cols)
unfolding new
new-IsValid rows cols = record {
  cells_fill = length-replicate (rows * cols * cell_size) 0;
  flags_fill = length-replicate rows 0;
}

pub from_parts-IsValid :
    (rows cols cursor_row cursor_col mode : ℕ) (title cells : Bytes)
    → IsValid (from_parts rows cols cursor_row cursor_col mode title cells)
unfolding from_parts
from_parts-IsValid rows cols cursor_row cursor_col mode title cells =
    ground
      (arith, length-replicate {A = ℕ} (rows * cols * cell_size) 0, length-replicate {A = ℕ} rows 0)

pub resize-IsValid : (f : FrameState) (rows cols : ℕ) → IsValid f → IsValid (resize f rows cols)
unfolding resize
resize-IsValid f rows cols v =
    ground
      (arith, length-replicate {A = ℕ} (rows * cols * cell_size) 0, length-replicate {A = ℕ} rows 0)

pub set_wrapped-IsValid :
    (f : FrameState) (row : ℕ) (wrapped : Bool) → IsValid f → IsValid (set_wrapped f row wrapped)
unfolding set_wrapped
set_wrapped-IsValid f row wrapped v = record {
  cells_fill = v.cells_fill;
  flags_fill = rw length-set v.flags_fill;
}

pub resize-CursorInside :
    (f : FrameState) (rows cols : ℕ) → CursorInside f → CursorInside (resize f rows cols)
unfolding resize
resize-CursorInside f rows cols c = ground arith

-- Every byte of a cell of the grid lies inside the cells.
pub cell_in_bounds :
    (f : FrameState) (row col : ℕ)
    → IsValid f
    → row < f.rows
    → col < f.cols
    → cell_offset f row col + cell_size ≤ length f.cells
cell_in_bounds f row col v hr hc = rw v.cells_fill (grind arith)
