-- ===== src/Frame/Draw.antt =====
-- Writing into the cells: `set_cell`, `set_blank_cell`, `clear`, `fill_rect`, `write_text`,
-- `write_wrapped_text` and `write_scrolling_text`. Texts are lists of code points. The display
-- width of a character is that of the crate `unicode-width`, a parameter.
pub mod Valid
use btrm.Base.{
  ℕ, zero, suc, ◌+◌, ◌-◌, ◌%◌, min, List, [], ◌∷◌, ◌++◌, Bool, true, false, ◌&&◌, ◌||◌, Option,
  none, some, ltb, ◌==◌, if◌then◌else◌, length, take, drop, Bytes, u16_max,
}
use btrm.Base.Slices.{slice}
use btrm.Base.Loops.{for_range}
use btrm.Cell.{CellStyle, encode_cell}
use btrm.Frame.{FrameState, Rect, cell_offset, in_frame}
use btrm.Frame.Wrap.{wrap_text_lines}

-- `saturating_add` on a `u16`
abbrev sat_add : ℕ → ℕ → ℕ
sat_add a b = min (a + b) u16_max

-- A slice of the cells that is written over. Where the source panics, since the slice is out of range, the
-- cells become more than the grid has, which no valid frame has.
abbrev copy_into : Bytes → ℕ → Bytes → Bytes
copy_into cells off bs = take off cells ++ (bs ++ drop (off + length bs) cells)

abbrev put_cell : FrameState → ℕ → ℕ → Option ℕ → CellStyle → Bool → Bool → FrameState
put_cell f row col ch style wide wide_cont = record f {
  cells = copy_into f.cells (cell_offset f row col) (encode_cell ch style wide wide_cont);
}

pub set_blank_cell : FrameState → ℕ → ℕ → CellStyle → FrameState
set_blank_cell f row col style =
    if in_frame f row col then put_cell f row col none style false false else f

pub clear : FrameState → CellStyle → FrameState
unfolding set_blank_cell
clear f style =
    for_range 0 f.rows (λ row g. for_range 0 f.cols (λ col h. set_blank_cell h row col style) g) f

-- `UnicodeWidthChar::width` and `UnicodeWidthStr::width`
module _ (char_width : ℕ → Option ℕ) (str_width : List ℕ → ℕ) where
  raw_width : ℕ → ℕ
  raw_width ch = elim (char_width ch) [ none ↦ 0 | some w ↦ w ]

  -- A wide character takes one column where there is no second one.
  unfoldable pub set_cell : FrameState → ℕ → ℕ → ℕ → CellStyle → FrameState × ℕ
  unfolding raw_width
  set_cell f row col ch style =
      let wide = ltb 1 (raw_width ch) && ltb (col + 1) f.cols in
      let g = put_cell f row col (some ch) style wide false in
      if in_frame f row col
      then (if raw_width ch == 0
          then (f, 0)
          else if wide
          then (put_cell g row (col + 1) none style false true, 2)
          else (g, 1))
      else (f, 0)

  -- `while col < col_end`; each round goes on by one column at least, so `col_end - col` rounds of
  -- fuel are enough.
  pub fill_row : ℕ → FrameState → ℕ → ℕ → ℕ → ℕ → CellStyle → FrameState
  fill_row zero f row col col_end ch style = f
  fill_row (suc fuel) f row col col_end ch style =
      let cell = set_cell f row col ch style in
      let rest = fill_row fuel cell.0 row (sat_add col cell.1) col_end ch style in
      if ltb col col_end then (if cell.1 == 0 then cell.0 else rest) else f

  pub fill_rect : FrameState → Rect → ℕ → CellStyle → FrameState
  unfolding fill_row set_cell
  fill_rect f rect ch style =
      let row_end = min (sat_add rect.row rect.rows) f.rows in
      let col_end = min (sat_add rect.col rect.cols) f.cols in
      for_range rect.row row_end
        (λ row g. fill_row (col_end - rect.col) g row rect.col col_end ch style) f

  -- The loop over the characters, from column `cur_col` on; it gives the column behind the last.
  pub write_chars : FrameState → ℕ → ℕ → List ℕ → CellStyle → FrameState × ℕ
  write_chars f row cur_col [] style = (f, cur_col)
  write_chars f row cur_col (ch ∷ text) style =
      let cell = set_cell f row cur_col ch style in
      let rest = write_chars cell.0 row (sat_add cur_col cell.1) text style in
      if ltb cur_col f.cols then rest else (f, cur_col)

  pub write_text : FrameState → ℕ → ℕ → List ℕ → CellStyle → FrameState × ℕ
  unfolding write_chars set_cell
  write_text f row col text style =
      if in_frame f row col then write_chars f row col text style else (f, col)

  -- One line to each row, from `row` on.
  pub write_lines : FrameState → ℕ → ℕ → List (List ℕ) → CellStyle → FrameState
  write_lines f row col [] style = f
  write_lines f row col (line ∷ lines) style =
      write_lines (write_text f row col line style).0 ((row + 1) % 65536) col lines style

  -- The number is that of the lines, also of those that do not fit.
  pub write_wrapped_text : FrameState → Rect → List ℕ → CellStyle → FrameState × ℕ
  unfolding write_lines write_text
  write_wrapped_text f rect text style =
      let lines = wrap_text_lines char_width str_width text rect.cols in
      let max_rows = min rect.rows (f.rows - rect.row) in
      if rect.rows == 0 || rect.cols == 0
      then (f, 0)
      else (write_lines f rect.row rect.col (take max_rows lines) style, length lines)

  wrap_all : List (List ℕ) → ℕ → List (List ℕ)
  wrap_all [] width = []
  wrap_all (line ∷ lines) width =
      let out = wrap_text_lines char_width str_width line width in
      (elim out [ [] ↦ [] ∷ [] | l ∷ ls ↦ l ∷ ls ]) ++ wrap_all lines width

  -- The lines that end `offset_from_bottom` lines above the last, over a blank rectangle.
  pub write_scrolling_text : FrameState → Rect → List (List ℕ) → ℕ → CellStyle → FrameState
  unfolding write_lines write_text fill_rect wrap_all
  write_scrolling_text f rect lines offset_from_bottom style =
      let wrapped = wrap_all lines rect.cols in
      let end = length wrapped - offset_from_bottom in
      let start = end - rect.rows in
      let blank = λ (row : ℕ) (g : FrameState).
        fill_rect g
          (record { row = (rect.row + row) % 65536; col = rect.col; rows = 1; cols = rect.cols })
          b' ' style in
      if rect.rows == 0 || rect.cols == 0
      then f
      else write_lines (for_range 0 rect.rows blank f) rect.row rect.col
          (slice wrapped start (end - start)) style
