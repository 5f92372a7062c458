-- ===== src/Diff/Scroll.antt =====
-- `detect_vertical_scroll`, `encode_copy_rect_op`, `apply_vertical_scroll_copy` and
-- `apply_copy_rect_frame` of crates/remote/src/lib.rs. A signed number of rows is a direction and
-- a distance.
pub mod Agree
use btrm.Base.{
  ℕ, ◌+◌, ◌-◌, ◌*◌, min, ◌∷◌, ◌++◌, Bool, true, false, ◌&&◌, ◌||◌, Option, none, some, Bytes, ltb,
  leb, ◌==◌, if◌then◌else◌, bytes_eq,
}
use btrm.Base.Slices.{slice}
use btrm.Base.Words.{u16_to_le}
use btrm.Base.Loops.{for_range}
use btrm.Cell.{cell_size}
use btrm.Frame.{FrameState}
use btrm.Terminal.Ops.{copy_rows, copy_cols, copy_temp, paste_temp}
use btrm.Terminal.Payload.{op_copy_rect}

-- `delta_rows`: `up d` is -d, and `down d` is d.
pub data Shift : Type 0 where
  up : ℕ → Shift
  down : ℕ → Shift

-- `delta.unsigned_abs()`
abbrev pub distance : Shift → ℕ
distance (up d) = d
distance (down d) = d

-- The row that would have moved to `row`, if it is a row of the frame.
unfoldable pub source_row : ℕ → ℕ → Shift → Option ℕ
source_row rows row (up d) = if ltb (row + d) rows then some (row + d) else none
source_row rows row (down d) = if ltb row d then none else some (row - d)

abbrev row_of : Bytes → ℕ → ℕ → Bytes
row_of cells row row_bytes = slice cells (row * row_bytes) row_bytes

row_matches : FrameState → FrameState → Shift → ℕ → Bool
row_matches current previous delta row = elim (source_row current.rows row delta) [
  | none ↦ false
  | some src ↦
      bytes_eq (row_of current.cells row (current.cols * cell_size))
        (row_of previous.cells src (current.cols * cell_size))
]

unfoldable pub matched_rows : FrameState → FrameState → Shift → ℕ
unfolding row_matches source_row
matched_rows current previous delta =
    for_range 0 current.rows (λ row n. if row_matches current previous delta row then n + 1 else n)
      0

abbrev pub Best : Type 0
Best = Option (ℕ × Shift)

-- Of two candidates with as many matching rows the shorter one stays, the first of two as long.
unfoldable pub better : ℕ → Shift → Best → Bool
better matched delta none = true
better matched delta (some (best_matched, best_delta)) =
    ltb best_matched matched
    || matched == best_matched && ltb (distance delta) (distance best_delta)

-- A candidate needs four fifths of the rows that overlap.
unfoldable pub try_shift : FrameState → FrameState → ℕ → Shift → Best → Best
unfolding matched_rows better
try_shift current previous overlap delta best =
    let matched = matched_rows current previous delta in
    if ltb (matched * 5) (overlap * 4)
    then best
    else if better matched delta best
    then some (matched, delta)
    else best

unfoldable pub try_distance : FrameState → FrameState → ℕ → Best → Best
unfolding try_shift
try_distance current previous d best =
    let overlap = current.rows - d in
    if ltb overlap 3
    then best
    else try_shift current previous overlap (down d)
        (try_shift current previous overlap (up d) best)

abbrev shift_of : Best → Option Shift
shift_of none = none
shift_of (some (matched, delta)) = some delta

unfoldable pub detect_vertical_scroll : FrameState → FrameState → Option Shift
unfolding try_distance
detect_vertical_scroll current previous =
    let max_delta = min (current.rows - 1) 8 in
    if ltb current.rows 4 || current.cols == 0
    then none
    else shift_of
        (for_range 1 (max_delta + 1) (λ d best. try_distance current previous d best) none)

-- The first row that is read and the first that is written.
abbrev pub src_of : Shift → ℕ
src_of (up d) = d
src_of (down d) = 0

abbrev pub dst_of : Shift → ℕ
dst_of (up d) = 0
dst_of (down d) = d

unfoldable pub encode_copy_rect_op : FrameState → Shift → Bytes
encode_copy_rect_op current delta =
    op_copy_rect
    ∷ (u16_to_le (src_of delta)
        ++ (u16_to_le 0
            ++ (u16_to_le (dst_of delta)
                ++ (u16_to_le 0
                    ++ (u16_to_le (current.rows - distance delta) ++ u16_to_le current.cols)))))

-- The cells alone: the overflow strings stay where they are.
unfoldable pub apply_copy_rect_frame : FrameState → ℕ → ℕ → ℕ → ℕ → ℕ → ℕ → FrameState
apply_copy_rect_frame f src_row src_col dst_row dst_col rows0 cols0 =
    let rows = copy_rows f src_row dst_row rows0 in
    let cols = copy_cols f src_col dst_col cols0 in
    let temp = copy_temp f.cols f.cells src_row src_col rows cols in
    if rows == 0 || cols == 0
    then f
    else record f { cells = paste_temp f.cols f.cells dst_row dst_col rows cols temp }

unfoldable pub apply_vertical_scroll_copy : FrameState → Shift → FrameState
unfolding apply_copy_rect_frame
apply_vertical_scroll_copy f delta =
    let d = distance delta in
    if d == 0 || leb f.rows d
    then f
    else apply_copy_rect_frame f (src_of delta) 0 (dst_of delta) 0 (f.rows - d) f.cols
