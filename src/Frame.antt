-- ===== src/Frame.antt =====
-- `FrameState` of crates/remote/src/lib.rs: its fields, the simple operations and the invariant.
-- `Frame/Draw` writes text into the cells, `Frame/Read` reads it back, `Frame/Wrap` breaks lines.
-- Every field is a plain number below 2 ^ 16 (`scrollback_lines` below 2 ^ 32); `title` and the
-- overflow strings are their UTF-8 bytes.
pub mod Draw
pub mod Read
pub mod Wrap
pub mod Valid
use btrm.Base.{
  ℕ, ◌+◌, ◌-◌, ◌*◌, min, ◌≡◌, [], Bool, true, false, not, ◌&&◌, Bytes, ◌==◌, if◌then◌else◌, bit_and,
  bit_or, length, get_or, set, replicate, bytes_eq, ltb,
}
use btrm.Base.Maps.{Map}
use btrm.Cell.{cell_size}

pub record FrameState : Type 0 where
  pub rows : ℕ
  pub cols : ℕ
  pub cells : Bytes
  pub cursor_row : ℕ
  pub cursor_col : ℕ
  pub mode : ℕ
  pub title : Bytes
  pub overflow : Map
  pub line_flags : Bytes
  pub scrollback_lines : ℕ

pub record Rect : Type 0 where
  pub row : ℕ
  pub col : ℕ
  pub rows : ℕ
  pub cols : ℕ

-- `FrameState::new`
unfoldable pub new : ℕ → ℕ → FrameState
new rows cols = record {
  rows = rows;
  cols = cols;
  cells = replicate (rows * cols * cell_size) 0;
  cursor_row = 0;
  cursor_col = 0;
  mode = 0;
  title = [];
  overflow = [];
  line_flags = replicate rows 0;
  scrollback_lines = 0;
}

-- Cells of a wrong length are dropped. The cursor is taken as it is.
pub from_parts : ℕ → ℕ → ℕ → ℕ → ℕ → Bytes → Bytes → FrameState
unfolding new
from_parts rows cols cursor_row cursor_col mode title cells =
    let state = new rows cols in
    record state {
      cells = if length cells == length state.cells then cells else state.cells;
      cursor_row = cursor_row;
      cursor_col = cursor_col;
      mode = mode;
      title = title;
    }

pub set_scrollback_lines : FrameState → ℕ → FrameState
set_scrollback_lines f lines = record f { scrollback_lines = lines }

-- `ROW_FLAG_WRAPPED`, and the mask of the other bits of a byte.
abbrev row_flag_wrapped : ℕ
row_flag_wrapped = 1

abbrev other_flags : ℕ
other_flags = 254

pub is_wrapped : FrameState → ℕ → Bool
is_wrapped f row = not (bit_and (get_or f.line_flags row 0) row_flag_wrapped == 0)

-- A row out of range is left alone.
pub set_wrapped : FrameState → ℕ → Bool → FrameState
set_wrapped f row wrapped =
    let flags = get_or f.line_flags row 0 in
    record f {
      line_flags =
          set f.line_flags row
            (if wrapped then bit_or flags row_flag_wrapped else bit_and flags other_flags);
    }

unfoldable pub resize : FrameState → ℕ → ℕ → FrameState
resize f rows cols = if rows == f.rows && cols == f.cols then f else record f {
  rows = rows;
  cols = cols;
  cells = replicate (rows * cols * cell_size) 0;
  overflow = [];
  line_flags = replicate rows 0;
  cursor_row = min f.cursor_row (rows - 1);
  cursor_col = min f.cursor_col (cols - 1);
}

pub set_cursor : FrameState → ℕ → ℕ → FrameState
set_cursor f row col = record f {
  cursor_row = min row (f.rows - 1);
  cursor_col = min col (f.cols - 1);
}

pub set_mode : FrameState → ℕ → FrameState
set_mode f mode = record f { mode = mode }

-- The flag says whether the title changed.
unfoldable pub set_title : FrameState → Bytes → FrameState × Bool
set_title f title =
    if bytes_eq f.title title then (f, false) else (record f { title = title }, true)

-- Where the bytes of a cell start.
abbrev pub offset_in : ℕ → ℕ → ℕ → ℕ
offset_in cols row col = (row * cols + col) * cell_size

abbrev pub cell_offset : FrameState → ℕ → ℕ → ℕ
cell_offset f = offset_in f.cols

abbrev pub in_frame : FrameState → ℕ → ℕ → Bool
in_frame f row col = ltb row f.rows && ltb col f.cols
