-- ===== src/Diff/Scroll/Agree.antt =====
-- The scroll that the sender makes on its own copy of the frame is the one that the receiver makes
-- of the operation.
use mathlib.Core.Path.{subst}
use mathlib.Core.Option.{some-injective}
use btrm.Base.{
  ℕ, ◌+◌, ◌-◌, ◌*◌, ◌<◌, ◌≡◌, refl, sym, ap, ap₂, ◌∙◌, Bool, true, false, Bytes, none, some,
  if◌then◌else◌, arith, inl, inr, Bool-cases, ltb, leb, length, min, ◌==◌, ◌||◌,
}
use btrm.Base.Holds.{Holds}
use btrm.Base.Loops.{rounds_inv}
use btrm.Base.Words.{IsU16}
use btrm.Frame.{FrameState}
use btrm.Terminal.Ops.{copy_rows, copy_cols, apply_copy_rect}
use btrm.Terminal.Ops.Cells.{copied_cells, length-copied_cells, apply_copy_rect-cells}
use btrm.Terminal.Ops.Keeps.{apply_copy_rect-Keeps}
use btrm.Terminal.Payload.Read.{apply_op-copy}
use btrm.Terminal.Payload.Runs.{Runs, Runs-one}
use btrm.Diff.Scroll.{
  Shift, up, down, distance, shift_of, src_of, dst_of, Best, better, matched_rows, try_shift,
  try_distance, detect_vertical_scroll, encode_copy_rect_op, apply_vertical_scroll_copy,
  apply_copy_rect_frame,
}

-- A frame of the same size with the same cells.
pub record SameCells (f g : FrameState) : Type 0 where
  pub same_rows : f.rows ≡ g.rows
  pub same_cols : f.cols ≡ g.cols
  pub same_cells : f.cells ≡ g.cells

apply_copy_rect_frame-cells :
    (g : FrameState) (a b c d rows cols : ℕ)
    → (apply_copy_rect_frame g a b c d rows cols).cells
      ≡ copied_cells g.cols g.cells a b c d (copy_rows g a c rows) (copy_cols g b d cols)
unfolding apply_copy_rect_frame
apply_copy_rect_frame-cells g a b c d rows cols =
    elim (Bool-cases (copy_rows g a c rows == 0 || copy_cols g b d cols == 0)) [
      | inl e ↦ rw e
      | inr e ↦ rw e
    ]

-- The same cells, of a frame of the same size.
copied_cells_cong :
    (f g : FrameState) (a b c d rows cols : ℕ)
    → SameCells f g
    → copied_cells f.cols f.cells a b c d (copy_rows f a c rows) (copy_cols f b d cols)
      ≡ copied_cells g.cols g.cells a b c d (copy_rows g a c rows) (copy_cols g b d cols)
copied_cells_cong f g a b c d rows cols s = λ i.
    copied_cells (s.same_cols i) (s.same_cells i) a b c d
      (min (min rows (s.same_rows i - a)) (s.same_rows i - c))
      (min (min cols (s.same_cols i - b)) (s.same_cols i - d))

apply_copy_rect_agrees :
    (f g : FrameState) (a b c d rows cols : ℕ)
    → SameCells f g
    → (apply_copy_rect f a b c d rows cols).0.cells
      ≡ (apply_copy_rect_frame g a b c d rows cols).cells
apply_copy_rect_agrees f g a b c d rows cols s =
    apply_copy_rect-cells f a b c d rows cols
    ∙ copied_cells_cong f g a b c d rows cols s
    ∙ sym (apply_copy_rect_frame-cells g a b c d rows cols)

-- A scroll that is found is by at least one row, and by less than all.
abbrev Within : ℕ → Best → Type 0
Within rows none = Unit
Within rows (some (matched, delta)) = (0 < distance delta) × (distance delta < rows)

try_shift-Within :
    (current previous : FrameState) (overlap : ℕ) (delta : Shift) (best : Best)
    → (0 < distance delta) × (distance delta < current.rows)
    → Within current.rows best
    → Within current.rows (try_shift current previous overlap delta best)
unfolding try_shift
try_shift-Within current previous overlap delta best h w =
    pick (ltb (matched_rows current previous delta * 5) (overlap * 4))
      (better (matched_rows current previous delta) delta best)
  where
    pick :
        (a b : Bool)
        → Within current.rows (
            if a
            then best
            else if b
            then some (matched_rows current previous delta, delta)
            else best)
    pick true b = w
    pick false true = h
    pick false false = w

try_distance-Within :
    (current previous : FrameState) (d : ℕ) (best : Best)
    → 0 < d
    → Within current.rows best
    → Within current.rows (try_distance current previous d best)
unfolding try_distance
try_distance-Within current previous d best p w = elim (Bool-cases (ltb (current.rows - d) 3)) [
  | inl e ↦ rw e w
  | inr e ↦
      let h : d < current.rows = ground arith in
      rw e (
        try_shift-Within current previous _ (down d) _ (p, h)
          (try_shift-Within current previous _ (up d) best (p, h) w))
]

from_best :
    (rows : ℕ) (delta : Shift) (b : Best)
    → Within rows b
    → shift_of b ≡ some delta
    → (0 < distance delta) × (distance delta < rows)
from_best rows delta none w e = cc
from_best rows delta (some (m, d)) w e =
    subst (λ x. (0 < distance x) × (distance x < rows)) (some-injective d delta e) w

-- A scroll that is found goes by one row at least and by fewer rows than the frame has.
pub detect_vertical_scroll_bounds :
    (current previous : FrameState) (delta : Shift)
    → detect_vertical_scroll current previous ≡ some delta
    → (0 < distance delta) × (distance delta < current.rows)
unfolding detect_vertical_scroll
detect_vertical_scroll_bounds current previous delta e =
    elim (Bool-cases (ltb current.rows 4 || current.cols == 0)) [
      | inl g ↦ cc (rw g at e)
      | inr g ↦
          from_best current.rows delta _
            (rounds_inv (λ j b. (0 < j) × Within current.rows b) (min (current.rows - 1) 8 + 1 - 1)
              1 (try_distance current previous) none (1 + (min (current.rows - 1) 8 + 1 - 1)) refl
              (λ j b le lt w. (omega arith, try_distance-Within current previous j b w.0 w.1))
              (omega arith, tt)).1
            (rw g at e)
    ]

vertical_lem :
    (f : FrameState) (delta : Shift)
    → 0 < distance delta
    → distance delta < f.rows
    → apply_vertical_scroll_copy f delta
      ≡ apply_copy_rect_frame f (src_of delta) 0 (dst_of delta) 0 (f.rows - distance delta) f.cols
unfolding apply_vertical_scroll_copy
vertical_lem f delta pos lt =
    let moves : (distance delta == 0 || leb f.rows (distance delta)) ≡ false = ground arith in
    rw moves

-- The copy that is encoded for a scroll, run by a receiver that has the cells of the previous frame,
-- is one operation of 13 bytes, and gives the cells of the sender's own scrolled copy. The two frames
-- have the same size, which fits its words, and the scroll goes by fewer rows than that.
pub scroll-Runs :
    (current previous f : FrameState) (delta : Shift) (payload : Bytes) (off : ℕ)
    → IsU16 current.rows
    → IsU16 current.cols
    → SameCells f previous
    → previous.rows ≡ current.rows
    → previous.cols ≡ current.cols
    → (0 < distance delta) × (distance delta < current.rows)
    → Holds payload off (encode_copy_rect_op current delta)
    → (g : FrameState) × Runs 1 payload off f g (off + 1 + 12)
      × (g.cells ≡ (apply_vertical_scroll_copy previous delta).cells)
unfolding encode_copy_rect_op
scroll-Runs current previous f delta payload off ur uc s er ec (pos, lt) h =
    let rows = current.rows - distance delta in
    let read =
      apply_op-copy f payload off (src_of delta) 0 (dst_of delta) 0 rows current.cols
        (src-le delta lt) (omega arith) (dst-le delta lt) (omega arith) (omega arith) uc h in
    (
      (apply_copy_rect f (src_of delta) 0 (dst_of delta) 0 rows current.cols).0,
      Runs-one payload off (off + 1 + 12) f _ _ read (apply_copy_rect-Keeps f _ _ _ _ _ _),
      apply_copy_rect_agrees f previous (src_of delta) 0 (dst_of delta) 0 rows current.cols s
          ∙ ap₂
              (λ (r c : ℕ).
                (apply_copy_rect_frame previous (src_of delta) 0 (dst_of delta) 0
                  (r - distance delta) c).cells)
              (sym er) (sym ec)
          ∙ sym (ap (λ (g : FrameState). g.cells) (vertical_lem previous delta pos (omega arith))),
    )
  where
    src-le : (d : Shift) → distance d < current.rows → IsU16 (src_of d)
    src-le (up d) h = omega arith
    src-le (down d) h = omega arith

    dst-le : (d : Shift) → distance d < current.rows → IsU16 (dst_of d)
    dst-le (up d) h = omega arith
    dst-le (down d) h = omega arith

pub detect_vertical_scroll_cols :
    (current previous : FrameState) (delta : Shift)
    → detect_vertical_scroll current previous ≡ some delta
    → 0 < current.cols
unfolding detect_vertical_scroll
detect_vertical_scroll_cols current previous delta e =
    elim (Bool-cases (ltb current.rows 4 || current.cols == 0)) [
      | inl g ↦ cc (rw g at e)
      | inr g ↦ ground arith
    ]

copy_kept :
    (g : FrameState) (a b c d rows cols : ℕ)
    → ((apply_copy_rect_frame g a b c d rows cols).rows ≡ g.rows)
      × ((apply_copy_rect_frame g a b c d rows cols).cols ≡ g.cols)
      × (length (apply_copy_rect_frame g a b c d rows cols).cells ≡ length g.cells)
unfolding apply_copy_rect_frame
copy_kept g a b c d rows cols = (
  ground arith,
  ground arith,
  rw (apply_copy_rect_frame-cells g a b c d rows cols)
      (length-copied_cells g.cols g.cells a b c d (copy_rows g a c rows) (copy_cols g b d cols)),
)

-- The scroll keeps the size of the frame and the number of its cells.
pub vertical_kept :
    (f : FrameState) (delta : Shift)
    → ((apply_vertical_scroll_copy f delta).rows ≡ f.rows)
      × ((apply_vertical_scroll_copy f delta).cols ≡ f.cols)
      × (length (apply_vertical_scroll_copy f delta).cells ≡ length f.cells)
unfolding apply_vertical_scroll_copy
vertical_kept f delta = elim (Bool-cases (distance delta == 0 || leb f.rows (distance delta))) [
  | inl e ↦ rw (e, apply_vertical_scroll_copy) (refl, refl, refl)
  | inr e ↦
      rw (e, apply_vertical_scroll_copy) (copy_kept f (src_of delta) 0 (dst_of delta) 0 _ f.cols)
]

pub length-encode_copy_rect_op :
    (f : FrameState) (delta : Shift) → length (encode_copy_rect_op f delta) ≡ 13
unfolding encode_copy_rect_op
length-encode_copy_rect_op f delta = refl
