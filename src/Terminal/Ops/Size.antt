-- ===== src/Terminal/Ops/Size.antt =====
-- No operation changes the number of bytes of the cells.
use btrm.Base.{
  ℕ, zero, suc, ◌+◌, ◌*◌, ◌≡◌, refl, ap, ◌∙◌, Bool, true, false, Bytes, if◌then◌else◌, length,
  length-set, set,
}
use btrm.Base.Words.{byte_at}
use btrm.Base.Bits.{test_bit}
use btrm.Base.Loops.{rounds_keep}
use btrm.Cell.{cell_size}
use btrm.Frame.{FrameState}
use btrm.Terminal.Ops.{
  copy_rows, copy_cols, patch_bytes, patch_cell, patch_loop, total_cells, apply_patch_cells,
  apply_copy_rect, apply_fill_rect,
}
use btrm.Terminal.Ops.Cells.{
  apply_copy_rect-cells, length-copied_cells, apply_fill_rect-cells, length-filled_cells,
}
use btrm.Terminal.Ops.Keeps.{
  Keeps, Keeps-refl, Keeps-trans, apply_patch_cells-Keeps, apply_copy_rect-Keeps,
  apply_fill_rect-Keeps,
}

-- Only the cells and the strings differ, and the cells have the same length.
pub record KeepsSize (f g : FrameState) : Type 0 where
  pub keeps : Keeps f g
  pub same_length : length g.cells ≡ length f.cells

pub KeepsSize-refl : (f : FrameState) → KeepsSize f f
KeepsSize-refl f = record { keeps = Keeps-refl f; same_length = refl }

pub KeepsSize-trans : (f g h : FrameState) → KeepsSize f g → KeepsSize g h → KeepsSize f h
KeepsSize-trans f g h p q = record {
  keeps = Keeps-trans f g h p.keeps q.keeps;
  same_length = q.same_length ∙ p.same_length;
}

length-patch_bytes :
    (patch : Bytes) (n d i : ℕ) (cells : Bytes)
    → length (patch_bytes patch n d i cells) ≡ length cells
unfolding patch_bytes
length-patch_bytes patch n d i cells =
    rounds_keep (λ cs. length cs ≡ length cells) 12 0
      (λ p cs. set cs (i + p) (byte_at patch (p * n + d))) cells
      (λ p cs e. length-set cs (i + p) _ ∙ e) refl

length-patch_loop :
    (k i d : ℕ) (mask patch : Bytes) (n : ℕ) (f : FrameState)
    → length (patch_loop k i d mask patch n f).cells ≡ length f.cells
unfolding patch_loop
length-patch_loop zero i d mask patch n f = refl
length-patch_loop (suc k) i d mask patch n f =
    length-patch_loop k (i + 1) _ mask patch n _ ∙ one (test_bit mask i)
  where
    one : (b : Bool) → length (if b then patch_cell patch n d i f else f).cells ≡ length f.cells
    one true = unfold patch_cell in length-patch_bytes patch n d (i * cell_size) f.cells
    one false = refl

pub apply_patch_cells-KeepsSize :
    (f : FrameState) (mask patch : Bytes) (n : ℕ) → KeepsSize f (apply_patch_cells f mask patch n)
unfolding apply_patch_cells
apply_patch_cells-KeepsSize f mask patch n = record {
  keeps = apply_patch_cells-Keeps f mask patch n;
  same_length = length-patch_loop (total_cells f) 0 0 mask patch n f;
}

pub apply_copy_rect-KeepsSize :
    (f : FrameState) (a b c d rows cols : ℕ) → KeepsSize f (apply_copy_rect f a b c d rows cols).0
apply_copy_rect-KeepsSize f a b c d rows cols = record {
  keeps = apply_copy_rect-Keeps f a b c d rows cols;
  same_length =
      ap length (apply_copy_rect-cells f a b c d rows cols)
      ∙ length-copied_cells f.cols f.cells a b c d (copy_rows f a c rows) (copy_cols f b d cols);
}

pub apply_fill_rect-KeepsSize :
    (f : FrameState) (row col rows cols : ℕ) (cell : Bytes)
    → KeepsSize f (apply_fill_rect f row col rows cols cell).0
apply_fill_rect-KeepsSize f row col rows cols cell = record {
  keeps = apply_fill_rect-Keeps f row col rows cols cell;
  same_length =
      ap length (apply_fill_rect-cells f row col rows cols cell)
      ∙ length-filled_cells f.rows f.cols f.cells row col rows cols cell;
}
