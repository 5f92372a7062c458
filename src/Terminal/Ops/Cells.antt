-- ===== src/Terminal/Ops/Cells.antt =====
-- The cells behind `apply_copy_rect` and `apply_fill_rect`, without the overflow strings.
use btrm.Base.{
  ℕ, ◌+◌, ◌-◌, ◌*◌, ◌≡◌, refl, ◌∙◌, length, not, ◌||◌, Bytes, min, ltb, ◌==◌, if◌then◌else◌,
  Bool-cases, inl, inr,
}
use btrm.Base.Slices.{write, slice, length-write}
use btrm.Base.Loops.{for_range, rounds_keep}
use btrm.Cell.{cell_size}
use btrm.Frame.{FrameState, offset_in}
use btrm.Terminal.Ops.{
  copy_rows, copy_cols, copy_temp, paste_temp, apply_copy_rect, sat_add, fill_cells,
  apply_fill_rect,
}

abbrev pub copied_cells : ℕ → Bytes → ℕ → ℕ → ℕ → ℕ → ℕ → ℕ → Bytes
copied_cells frame_cols cells a b c d rows cols =
    if rows == 0 || cols == 0
    then cells
    else paste_temp frame_cols cells c d rows cols (copy_temp frame_cols cells a b rows cols)

pub apply_copy_rect-cells :
    (f : FrameState) (a b c d rows cols : ℕ)
    → (apply_copy_rect f a b c d rows cols).0.cells
      ≡ copied_cells f.cols f.cells a b c d (copy_rows f a c rows) (copy_cols f b d cols)
unfolding apply_copy_rect
apply_copy_rect-cells f a b c d rows cols =
    elim (Bool-cases (copy_rows f a c rows == 0 || copy_cols f b d cols == 0)) [
      | inl e ↦ rw e
      | inr e ↦ rw e
    ]

abbrev pub filled_cells : ℕ → ℕ → Bytes → ℕ → ℕ → ℕ → ℕ → Bytes → Bytes
filled_cells frame_rows frame_cols cells row col rows cols cell =
    let row_end = min (sat_add row rows) frame_rows in
    let col_end = min (sat_add col cols) frame_cols in
    if not (ltb row row_end) || not (ltb col col_end)
    then cells
    else fill_cells frame_cols cells row row_end col col_end cell

pub apply_fill_rect-cells :
    (f : FrameState) (row col rows cols : ℕ) (cell : Bytes)
    → (apply_fill_rect f row col rows cols cell).0.cells
      ≡ filled_cells f.rows f.cols f.cells row col rows cols cell
unfolding apply_fill_rect
apply_fill_rect-cells f row col rows cols cell =
    elim (Bool-cases (
      not (ltb row (min (sat_add row rows) f.rows))
      || not (ltb col (min (sat_add col cols) f.cols)))) [ inl e ↦ rw e | inr e ↦ rw e ]

pub fill_cells_lem :
    (cols : ℕ) (cells : Bytes) (row row_end col col_end : ℕ) (cell : Bytes)
    → fill_cells cols cells row row_end col col_end cell
      ≡ for_range row row_end
          (λ r cs. for_range col col_end (λ c ds. write ds (offset_in cols r c) cell) cs)
          cells
unfolding fill_cells
fill_cells_lem cols cells row row_end col col_end cell = refl

-- Neither operation changes the number of cells.
pub length-paste_temp :
    (frame_cols : ℕ) (cells : Bytes) (c d rows cols : ℕ) (temp : Bytes)
    → length (paste_temp frame_cols cells c d rows cols temp) ≡ length cells
unfolding paste_temp
length-paste_temp frame_cols cells c d rows cols temp =
    rounds_keep (λ cs. length cs ≡ length cells) (rows - 0) 0
      (λ r cs.
        write cs (offset_in frame_cols (c + r) d)
          (slice temp (r * cols * cell_size) (cols * cell_size)))
      cells (λ r cs e. length-write cs (offset_in frame_cols (c + r) d) _ ∙ e) refl

pub length-copied_cells :
    (frame_cols : ℕ) (cells : Bytes) (a b c d rows cols : ℕ)
    → length (copied_cells frame_cols cells a b c d rows cols) ≡ length cells
length-copied_cells frame_cols cells a b c d rows cols =
    elim (Bool-cases (rows == 0 || cols == 0)) [
      | inl e ↦ rw e
      | inr e ↦ rw e (length-paste_temp frame_cols cells c d rows cols _)
    ]

length-fill_cells :
    (frame_cols : ℕ) (cells : Bytes) (row row_end col col_end : ℕ) (cell : Bytes)
    → length (fill_cells frame_cols cells row row_end col col_end cell) ≡ length cells
unfolding fill_cells
length-fill_cells frame_cols cells row row_end col col_end cell =
    rounds_keep (λ cs. length cs ≡ length cells) (row_end - row) row
      (λ r cs. for_range col col_end (λ c ds. write ds (offset_in frame_cols r c) cell) cs) cells
      (λ r cs e.
        rounds_keep (λ ds. length ds ≡ length cells) (col_end - col) col
          (λ c ds. write ds (offset_in frame_cols r c) cell) cs
          (λ c ds e'. length-write ds (offset_in frame_cols r c) cell ∙ e') e)
      refl

pub length-filled_cells :
    (frame_rows frame_cols : ℕ) (cells : Bytes) (row col rows cols : ℕ) (cell : Bytes)
    → length (filled_cells frame_rows frame_cols cells row col rows cols cell) ≡ length cells
length-filled_cells frame_rows frame_cols cells row col rows cols cell =
    elim (Bool-cases (
      not (ltb row (min (sat_add row rows) frame_rows))
      || not (ltb col (min (sat_add col cols) frame_cols)))) [
        | inl e ↦ rw e
        | inr e ↦ rw e (length-fill_cells frame_cols cells row _ col _ cell)
      ]
