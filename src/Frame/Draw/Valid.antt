-- ===== src/Frame/Draw/Valid.antt =====
-- Writing keeps the invariant of a frame, wherever the text lands.
use btrm.Base.{
  ℕ, zero, suc, ◌+◌, ◌-◌, ◌%◌, List, [], ◌∷◌, Bool, true, false, ◌&&◌, ◌||◌, Option, none, some,
  ◌∙◌, if◌then◌else◌, min, ltb, ◌==◌, take, drop, length, ◌≡◌, ◌<◌, ◌≤◌, ◌++◌, Bytes, arith,
  if_keeps,
}
use btrm.Base.Slices.{slice}
use btrm.Base.Lists.{length-append, length-take, length-drop}
use btrm.Base.Loops.{for_range, rounds_keep}
use btrm.Cell.{CellStyle, encode_cell}
use btrm.Cell.Size.{length-encode_cell}
use btrm.Frame.{FrameState, Rect, cell_offset, in_frame}
use btrm.Frame.Valid.{IsValid, cell_in_bounds}
use btrm.Frame.Wrap.{wrap_text_lines}
use btrm.Frame.Draw.{
  copy_into, put_cell, sat_add, set_blank_cell, clear, set_cell, fill_row, fill_rect, write_chars,
  write_text, write_lines, write_wrapped_text, write_scrolling_text, raw_width, wrap_all,
}

length-copy_into :
    (cells : Bytes) (off : ℕ) (bs : Bytes)
    → off + length bs ≤ length cells
    → length (copy_into cells off bs) ≡ length cells
length-copy_into cells off bs h = omega (
  arith,
  length-append {0} (take off cells) (bs ++ drop (off + length bs) cells),
  length-append {0} bs (drop (off + length bs) cells),
  length-take {0} off cells,
  length-drop {0} (off + length bs) cells,
)

put_cell-IsValid :
    (f : FrameState) (row col : ℕ) (ch : Option ℕ) (style : CellStyle) (a b : Bool)
    → row < f.rows
    → col < f.cols
    → IsValid f
    → IsValid (put_cell f row col ch style a b)
put_cell-IsValid f row col ch style a b hr hc v = record {
  cells_fill =
      length-copy_into f.cells (cell_offset f row col) (encode_cell ch style a b)
        (omega (arith, cell_in_bounds f row col v hr hc, length-encode_cell ch style a b))
      ∙ v.cells_fill;
  flags_fill = v.flags_fill;
}

in_frame-row : (f : FrameState) (row col : ℕ) → in_frame f row col ≡ true → row < f.rows
in_frame-row f row col h = ground (arith, h)

in_frame-col : (f : FrameState) (row col : ℕ) → in_frame f row col ≡ true → col < f.cols
in_frame-col f row col h = ground (arith, h)

either : (b : Bool) (f g : FrameState) → IsValid f → IsValid g → IsValid (if b then f else g)
either true f g p q = p
either false f g p q = q

either-pair :
    (b : Bool) (x y : FrameState × ℕ) → IsValid x.0 → IsValid y.0 → IsValid (if b then x else y).0
either-pair true x y p q = p
either-pair false x y p q = q

set_blank_cell-IsValid :
    (f : FrameState) (row col : ℕ) (style : CellStyle)
    → IsValid f
    → IsValid (set_blank_cell f row col style)
unfolding set_blank_cell
set_blank_cell-IsValid f row col style v =
    if_keeps IsValid (in_frame f row col)
      (λ is.
        put_cell-IsValid f row col none style false false (in_frame-row f row col is)
          (in_frame-col f row col is) v)
      (λ outside. v)

pub clear-IsValid : (f : FrameState) (style : CellStyle) → IsValid f → IsValid (clear f style)
unfolding clear
clear-IsValid f style v =
    rounds_keep IsValid (f.rows - 0) 0
      (λ row g. for_range 0 f.cols (λ col h. set_blank_cell h row col style) g) f
      (λ row g vg.
        rounds_keep IsValid (f.cols - 0) 0 (λ col h. set_blank_cell h row col style) g
          (λ col h vh. set_blank_cell-IsValid h row col style vh) vg)
      v

abbrev Kept : FrameState × ℕ → Type 0
Kept r = IsValid r.0

module _ (char_width : ℕ → Option ℕ) (str_width : List ℕ → ℕ) where
  set_cell-IsValid :
      (f : FrameState) (row col ch : ℕ) (style : CellStyle)
      → IsValid f
      → IsValid (set_cell char_width str_width f row col ch style).0
  unfolding set_cell
  set_cell-IsValid f row col ch style v =
      let wide = ltb 1 (raw_width char_width str_width ch) && ltb (col + 1) f.cols in
      let g = put_cell f row col (some ch) style wide false in
      if_keeps Kept (in_frame f row col)
        (λ is.
          let hr = in_frame-row f row col is in
          let vg =
            put_cell-IsValid f row col (some ch) style wide false hr (in_frame-col f row col is)
              v in
          if_keeps Kept (raw_width char_width str_width ch == 0) (λ none_wide. v)
            (λ some_wide.
              if_keeps Kept wide
                (λ two.
                  let hc : col + 1 < f.cols = ground (arith, two) in
                  put_cell-IsValid g row (col + 1) none style false true hr hc vg)
                (λ one. vg)))
        (λ outside. v)

  fill_row-IsValid :
      (fuel : ℕ) (f : FrameState) (row col col_end ch : ℕ) (style : CellStyle)
      → IsValid f
      → IsValid (fill_row char_width str_width fuel f row col col_end ch style)
  unfolding fill_row
  fill_row-IsValid zero f row col col_end ch style v = v
  fill_row-IsValid (suc fuel) f row col col_end ch style v =
      let vc = set_cell-IsValid f row col ch style v in
      let cell = set_cell char_width str_width f row col ch style in
      either (ltb col col_end) _ f
        (either (cell.1 == 0) cell.0 _ vc
          (fill_row-IsValid fuel cell.0 row (sat_add col cell.1) col_end ch style vc))
        v

  pub fill_rect-IsValid :
      (f : FrameState) (rect : Rect) (ch : ℕ) (style : CellStyle)
      → IsValid f
      → IsValid (fill_rect char_width str_width f rect ch style)
  unfolding fill_rect
  fill_rect-IsValid f rect ch style v =
      rounds_keep IsValid (min (sat_add rect.row rect.rows) f.rows - rect.row) rect.row
        (λ row g.
          fill_row char_width str_width (min (sat_add rect.col rect.cols) f.cols - rect.col) g row
            rect.col (min (sat_add rect.col rect.cols) f.cols) ch style)
        f
        (λ row g vg.
          fill_row-IsValid (min (sat_add rect.col rect.cols) f.cols - rect.col) g row rect.col
            (min (sat_add rect.col rect.cols) f.cols) ch style vg)
        v

  write_chars-IsValid :
      (f : FrameState) (row col : ℕ) (text : List ℕ) (style : CellStyle)
      → IsValid f
      → IsValid (write_chars char_width str_width f row col text style).0
  unfolding write_chars
  write_chars-IsValid f row col [] style v = v
  write_chars-IsValid f row col (ch ∷ text) style v =
      let cell = set_cell char_width str_width f row col ch style in
      either-pair (ltb col f.cols) _ (f, col)
        (write_chars-IsValid cell.0 row (sat_add col cell.1) text style
          (set_cell-IsValid f row col ch style v))
        v

  pub write_text-IsValid :
      (f : FrameState) (row col : ℕ) (text : List ℕ) (style : CellStyle)
      → IsValid f
      → IsValid (write_text char_width str_width f row col text style).0
  unfolding write_text
  write_text-IsValid f row col text style v =
      either-pair (in_frame f row col) _ (f, col) (write_chars-IsValid f row col text style v) v

  write_lines-IsValid :
      (f : FrameState) (row col : ℕ) (lines : List (List ℕ)) (style : CellStyle)
      → IsValid f
      → IsValid (write_lines char_width str_width f row col lines style)
  unfolding write_lines
  write_lines-IsValid f row col [] style v = v
  write_lines-IsValid f row col (line ∷ lines) style v =
      write_lines-IsValid (write_text char_width str_width f row col line style).0
        ((row + 1) % 65536) col lines style (write_text-IsValid f row col line style v)

  pub write_wrapped_text-IsValid :
      (f : FrameState) (rect : Rect) (text : List ℕ) (style : CellStyle)
      → IsValid f
      → IsValid (write_wrapped_text char_width str_width f rect text style).0
  unfolding write_wrapped_text
  write_wrapped_text-IsValid f rect text style v =
      either-pair (rect.rows == 0 || rect.cols == 0) (f, 0) _ v
        (write_lines-IsValid f rect.row rect.col
          (take (min rect.rows (f.rows - rect.row))
            (wrap_text_lines char_width str_width text rect.cols))
          style v)

  pub write_scrolling_text-IsValid :
      (f : FrameState) (rect : Rect) (lines : List (List ℕ)) (offset : ℕ) (style : CellStyle)
      → IsValid f
      → IsValid (write_scrolling_text char_width str_width f rect lines offset style)
  unfolding write_scrolling_text
  write_scrolling_text-IsValid f rect lines offset style v =
      let wrapped = wrap_all char_width str_width lines rect.cols in
      let end = length wrapped - offset in
      let blank = λ (row : ℕ) (g : FrameState).
        fill_rect char_width str_width g
          (record { row = (rect.row + row) % 65536; col = rect.col; rows = 1; cols = rect.cols })
          b' ' style in
      let blanked =
        rounds_keep IsValid (rect.rows - 0) 0 blank f
          (λ row g vg. fill_rect-IsValid g _ b' ' style vg) v in
      either (rect.rows == 0 || rect.cols == 0) f _ v (
        write_lines-IsValid (for_range 0 rect.rows blank f) rect.row rect.col
          (slice wrapped (end - rect.rows) (end - (end - rect.rows))) style blanked)
