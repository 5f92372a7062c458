-- ===== src/Terminal/Ops.antt =====
-- The operations on cells that an update holds: `apply_patch_cells`, `apply_copy_rect`,
-- `apply_fill_rect`, `apply_overflow_strings`, and the loops that read them.
pub mod Count
pub mod PatchLoop
pub mod Keeps
pub mod Cells
pub mod Size
use btrm.Base.{
  ℕ, zero, suc, ◌+◌, ◌-◌, ◌*◌, ◌/◌, min, bit_and, [], ◌∷◌, Bool, true, false, not, ◌||◌, Option,
  none, some, Bytes, ltb, ◌==◌, if◌then◌else◌, length, set, u16_max, replicate,
}
use btrm.Base.Slices.{slice, write}
use btrm.Base.Words.{byte_at, u16_at, u32_at}
use btrm.Base.Bits.{test_bit}
use btrm.Base.Loops.{for_range}
use btrm.Base.Maps.{Map, lookup, insert, remove}
use btrm.Base.Utf8.{is_utf8}
use btrm.Cell.{cell_size, content_overflow}
use btrm.Frame.{FrameState, offset_in}

abbrev pub total_cells : FrameState → ℕ
total_cells f = f.rows * f.cols

-- `total_cells.div_ceil(8)`
abbrev pub bitmask_len : FrameState → ℕ
bitmask_len f = (total_cells f + 7) / 8

-- `(0..k).filter(|&i| bit i).count()`, from index `i` on.
unfoldable pub count_bits : ℕ → ℕ → Bytes → ℕ
count_bits zero i mask = 0
count_bits (suc k) i mask = (if test_bit mask i then 1 else 0) + count_bits k (i + 1) mask

-- The 12 bytes of one cell; byte `p` of all dirty cells stands before byte `p + 1` of any.
unfoldable pub patch_bytes : Bytes → ℕ → ℕ → ℕ → Bytes → Bytes
patch_bytes patch dirty_count dirty_idx cell_idx cells =
    for_range 0 cell_size
      (λ byte_pos cs.
        set cs (cell_idx + byte_pos) (byte_at patch (byte_pos * dirty_count + dirty_idx)))
      cells

-- An updated cell loses its overflow string, unless it still has one.
unfoldable pub patch_cell : Bytes → ℕ → ℕ → ℕ → FrameState → FrameState
unfolding patch_bytes
patch_cell patch dirty_count dirty_idx i f =
    let cell_idx = i * cell_size in
    let cells = patch_bytes patch dirty_count dirty_idx cell_idx f.cells in
    let content_len = bit_and (byte_at cells (cell_idx + 1) / 8) 7 in
    record f {
      cells = cells;
      overflow = if content_len == content_overflow then f.overflow else remove i f.overflow;
    }

-- `for i in 0..total_cells`, with the number of dirty cells before `i`.
unfoldable pub patch_loop : ℕ → ℕ → ℕ → Bytes → Bytes → ℕ → FrameState → FrameState
patch_loop zero i dirty_idx mask patch dirty_count f = f
patch_loop (suc k) i dirty_idx mask patch dirty_count f =
    let dirty = test_bit mask i in
    patch_loop k (i + 1) (if dirty then dirty_idx + 1 else dirty_idx) mask patch dirty_count
      (if dirty then patch_cell patch dirty_count dirty_idx i f else f)

unfoldable pub apply_patch_cells : FrameState → Bytes → Bytes → ℕ → FrameState
unfolding patch_loop patch_cell
apply_patch_cells f mask patch dirty_count = patch_loop (total_cells f) 0 0 mask patch dirty_count f

-- The clipped size of a rectangle that is copied.
abbrev pub copy_rows : FrameState → ℕ → ℕ → ℕ → ℕ
copy_rows f src_row dst_row rows = min (min rows (f.rows - src_row)) (f.rows - dst_row)

abbrev pub copy_cols : FrameState → ℕ → ℕ → ℕ → ℕ
copy_cols f src_col dst_col cols = min (min cols (f.cols - src_col)) (f.cols - dst_col)

-- `temp`: the source rows, one behind the other. The frame is its width and its cells.
unfoldable pub copy_temp : ℕ → Bytes → ℕ → ℕ → ℕ → ℕ → Bytes
copy_temp frame_cols cells src_row src_col rows cols =
    for_range 0 rows
      (λ r temp.
        write temp (r * cols * cell_size)
          (slice cells (offset_in frame_cols (src_row + r) src_col) (cols * cell_size)))
      (replicate (rows * cols * cell_size) 0)

unfoldable pub paste_temp : ℕ → Bytes → ℕ → ℕ → ℕ → ℕ → Bytes → Bytes
paste_temp frame_cols cells dst_row dst_col rows cols temp =
    for_range 0 rows
      (λ r cs.
        write cs (offset_in frame_cols (dst_row + r) dst_col)
          (slice temp (r * cols * cell_size) (cols * cell_size)))
      cells

abbrev cons_some : ℕ → Option Bytes → Map → Map
cons_some k none m = m
cons_some k (some s) m = (k, s) ∷ m

-- The overflow strings of the source, at their destinations, the last cell first.
unfoldable pub overflow_temp : FrameState → ℕ → ℕ → ℕ → ℕ → ℕ → ℕ → Map
overflow_temp f src_row src_col dst_row dst_col rows cols =
    for_range 0 rows
      (λ r temp.
        for_range 0 cols
          (λ c t.
            cons_some ((dst_row + r) * f.cols + dst_col + c)
              (lookup f.overflow ((src_row + r) * f.cols + src_col + c)) t)
          temp)
      []

-- `for r in row..row_end { for c in col..col_end { overflow.remove(r * cols + c) } }`
unfoldable pub clear_overflow : ℕ → ℕ → ℕ → ℕ → ℕ → Map → Map
clear_overflow frame_cols row row_end col col_end m =
    for_range row row_end (λ r n. for_range col col_end (λ c o. remove (r * frame_cols + c) o) n) m

-- The cells of `temp` have different numbers, so the order in which they are inserted is of no
-- account.
unfoldable pub insert_all : Map → Map → Map
insert_all [] m = m
insert_all ((k, s) ∷ temp) m = insert_all temp (insert k s m)

unfoldable pub apply_copy_rect : FrameState → ℕ → ℕ → ℕ → ℕ → ℕ → ℕ → FrameState × Bool
unfolding copy_temp paste_temp overflow_temp clear_overflow insert_all
apply_copy_rect f src_row src_col dst_row dst_col rows0 cols0 =
    let rows = copy_rows f src_row dst_row rows0 in
    let cols = copy_cols f src_col dst_col cols0 in
    let strings = overflow_temp f src_row src_col dst_row dst_col rows cols in
    let temp = copy_temp f.cols f.cells src_row src_col rows cols in
    let cleared =
      clear_overflow f.cols dst_row (dst_row + rows) dst_col (dst_col + cols) f.overflow in
    if rows == 0 || cols == 0 then (f, false) else (
      record f {
        cells = paste_temp f.cols f.cells dst_row dst_col rows cols temp;
        overflow = insert_all strings cleared;
      },
      true,
    )

abbrev pub sat_add : ℕ → ℕ → ℕ
sat_add a b = min (a + b) u16_max

unfoldable pub fill_cells : ℕ → Bytes → ℕ → ℕ → ℕ → ℕ → Bytes → Bytes
fill_cells frame_cols cells row row_end col col_end cell =
    for_range row row_end
      (λ r cs. for_range col col_end (λ c ds. write ds (offset_in frame_cols r c) cell) cs) cells

unfoldable pub apply_fill_rect : FrameState → ℕ → ℕ → ℕ → ℕ → Bytes → FrameState × Bool
unfolding fill_cells clear_overflow
apply_fill_rect f row col rows cols cell =
    let row_end = min (sat_add row rows) f.rows in
    let col_end = min (sat_add col cols) f.cols in
    let g = record f { overflow = clear_overflow f.cols row row_end col col_end f.overflow } in
    if not (ltb row row_end) || not (ltb col col_end)
    then (g, false)
    else (record g { cells = fill_cells f.cols f.cells row row_end col col_end cell }, true)

-- A string that is no UTF-8 is passed over.
unfoldable pub insert_string : ℕ → Bytes → FrameState → FrameState
insert_string cell_idx s f =
    if is_utf8 s then record f { overflow = insert cell_idx s f.overflow } else f

-- A truncated string ends the loop, and the offset stays behind its six bytes.
unfoldable pub strings_loop : ℕ → Bytes → ℕ → FrameState → FrameState × ℕ
strings_loop zero text off f = (f, off)
strings_loop (suc count) text off f =
    let cell_idx = u32_at text off in
    let len = u16_at text (off + 4) in
    let body = off + 6 in
    let rest =
      strings_loop count text (body + len) (insert_string cell_idx (slice text body len) f) in
    if ltb (length text) (off + 6)
    then (f, off)
    else if ltb (length text) (body + len)
    then (f, body)
    else rest

-- The number is that of the bytes read.
unfoldable pub apply_overflow_strings : FrameState → Bytes → FrameState × ℕ
unfolding strings_loop insert_string
apply_overflow_strings f text =
    if ltb (length text) 2 then (f, 0) else strings_loop (u16_at text 0) text 2 f
