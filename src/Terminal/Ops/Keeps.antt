-- ===== src/Terminal/Ops/Keeps.antt =====
-- What the operations on cells leave alone: all but the cells and the overflow strings.
use btrm.Base.{
  ℕ, zero, suc, ◌+◌, ◌≡◌, refl, Bool, true, false, Bytes, if◌then◌else◌, arith, ◌∙◌, Bool-cases,
  inl, inr, ltb, length,
}
use btrm.Base.Slices.{slice}
use btrm.Base.Words.{u16_at, u32_at}
use btrm.Base.Utf8.{is_utf8}
use btrm.Base.Bits.{test_bit}
use btrm.Frame.{FrameState}
use btrm.Terminal.Ops.{
  total_cells, patch_cell, patch_loop, insert_string, apply_patch_cells, apply_copy_rect,
  apply_fill_rect, strings_loop, apply_overflow_strings,
}

pub record Keeps (f g : FrameState) : Type 0 where
  pub rows_kept : g.rows ≡ f.rows
  pub cols_kept : g.cols ≡ f.cols
  pub cursor_row_kept : g.cursor_row ≡ f.cursor_row
  pub cursor_col_kept : g.cursor_col ≡ f.cursor_col
  pub mode_kept : g.mode ≡ f.mode
  pub title_kept : g.title ≡ f.title
  pub line_flags_kept : g.line_flags ≡ f.line_flags
  pub scrollback_kept : g.scrollback_lines ≡ f.scrollback_lines

pub Keeps-refl : (f : FrameState) → Keeps f f
Keeps-refl f = ground arith

pub Keeps-trans : (f g h : FrameState) → Keeps f g → Keeps g h → Keeps f h
Keeps-trans f g h p q = record {
  rows_kept = q.rows_kept ∙ p.rows_kept;
  cols_kept = q.cols_kept ∙ p.cols_kept;
  cursor_row_kept = q.cursor_row_kept ∙ p.cursor_row_kept;
  cursor_col_kept = q.cursor_col_kept ∙ p.cursor_col_kept;
  mode_kept = q.mode_kept ∙ p.mode_kept;
  title_kept = q.title_kept ∙ p.title_kept;
  line_flags_kept = q.line_flags_kept ∙ p.line_flags_kept;
  scrollback_kept = q.scrollback_kept ∙ p.scrollback_kept;
}

patch_loop-Keeps :
    (k i d : ℕ) (mask patch : Bytes) (n : ℕ) (f : FrameState)
    → Keeps f (patch_loop k i d mask patch n f)
unfolding patch_loop
patch_loop-Keeps zero i d mask patch n f = Keeps-refl f
patch_loop-Keeps (suc k) i d mask patch n f =
    Keeps-trans f _ _ (one (test_bit mask i)) (patch_loop-Keeps k (i + 1) _ mask patch n _)
  where
    one : (b : Bool) → Keeps f (if b then patch_cell patch n d i f else f)
    one true = unfold patch_cell in ground arith
    one false = Keeps-refl f

pub apply_patch_cells-Keeps :
    (f : FrameState) (mask patch : Bytes) (n : ℕ) → Keeps f (apply_patch_cells f mask patch n)
unfolding apply_patch_cells
apply_patch_cells-Keeps f mask patch n = patch_loop-Keeps (total_cells f) 0 0 mask patch n f

pub apply_copy_rect-Keeps :
    (f : FrameState) (a b c d rows cols : ℕ) → Keeps f (apply_copy_rect f a b c d rows cols).0
unfolding apply_copy_rect
apply_copy_rect-Keeps f a b c d rows cols = ground arith

pub apply_fill_rect-Keeps :
    (f : FrameState) (row col rows cols : ℕ) (cell : Bytes)
    → Keeps f (apply_fill_rect f row col rows cols cell).0
unfolding apply_fill_rect
apply_fill_rect-Keeps f row col rows cols cell = ground arith

-- The strings leave the cells alone as well.
pub record KeepsCells (f g : FrameState) : Type 0 where
  pub keeps : Keeps f g
  pub cells_kept : g.cells ≡ f.cells

insert_string-KeepsCells : (i : ℕ) (s : Bytes) (f : FrameState) → KeepsCells f (insert_string i s f)
unfolding insert_string
insert_string-KeepsCells i s f = elim (Bool-cases (is_utf8 s)) [
  | inl e ↦ rw e (record { keeps = ground arith; cells_kept = refl })
  | inr e ↦ rw e (record { keeps = Keeps-refl f; cells_kept = refl })
]

strings_loop-KeepsCells :
    (count : ℕ) (text : Bytes) (off : ℕ) (f : FrameState)
    → KeepsCells f (strings_loop count text off f).0
unfolding strings_loop
strings_loop-KeepsCells zero text off f = record { keeps = Keeps-refl f; cells_kept = refl }
strings_loop-KeepsCells (suc count) text off f =
    one_of (strings_loop-KeepsCells count text (off + 6 + u16_at text (off + 4)) _)
      (ltb (length text) (off + 6)) (ltb (length text) (off + 6 + u16_at text (off + 4)))
  where
    inserted : FrameState
    inserted = insert_string (u32_at text off) (slice text (off + 6) (u16_at text (off + 4))) f

    step : KeepsCells f inserted
    step = insert_string-KeepsCells _ _ f

    rest : FrameState × ℕ
    rest = strings_loop count text (off + 6 + u16_at text (off + 4)) inserted

    one_of :
        KeepsCells inserted rest.0
        → (a b : Bool) → KeepsCells f (if a then (f, off) else if b then (f, off + 6) else rest).0
    one_of later true b = record { keeps = Keeps-refl f; cells_kept = refl }
    one_of later false true = record { keeps = Keeps-refl f; cells_kept = refl }
    one_of later false false = record {
      keeps = Keeps-trans f _ _ step.keeps later.keeps;
      cells_kept = later.cells_kept ∙ step.cells_kept;
    }

pub apply_overflow_strings-KeepsCells :
    (f : FrameState) (text : Bytes) → KeepsCells f (apply_overflow_strings f text).0
unfolding apply_overflow_strings
apply_overflow_strings-KeepsCells f text = elim (Bool-cases (ltb (length text) 2)) [
  | inl e ↦ rw e (record { keeps = Keeps-refl f; cells_kept = refl })
  | inr e ↦ rw e (strings_loop-KeepsCells (u16_at text 0) text 2 f)
]
