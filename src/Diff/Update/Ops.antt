-- ===== src/Diff/Update/Ops.antt =====
-- The operations that the sender chooses turn the previous cells into the current ones.
use native.Mathlib.Nat.{add-zero}
use btrm.Base.{
  ℕ, ◌+◌, ◌*◌, ◌%◌, ◌≤◌, ◌≡◌, refl, sym, ap₂, ◌∙◌, [], ◌++◌, Bool, true, false, Bytes, Option, none,
  some, if◌then◌else◌, arith, inl, inr, ◌≢◌, Bool-cases, ◌==◌, length, length-append, u16_max,
  bytes_eq_iff,
}
use btrm.Base.Holds.{Holds, Holds-left, Holds-right, Holds-at}
use btrm.Base.Words.{IsU16, IsU32}
use btrm.Cell.{cell_size}
use btrm.Frame.{FrameState, new}
use btrm.Frame.Valid.{IsValid, new-IsValid}
use btrm.Terminal.Ops.{total_cells}
use btrm.Terminal.Payload.Runs.{Runs, Runs-none, Runs-then}
use btrm.Diff.Patch.{build_patch_op}
use btrm.Diff.Patch.RoundTrip.{build_patch_op-Runs, build_patch_op-none}
use btrm.Diff.Scroll.{
  Shift, detect_vertical_scroll, encode_copy_rect_op, apply_vertical_scroll_copy,
}
use btrm.Diff.Scroll.Agree.{
  SameCells, scroll-Runs, detect_vertical_scroll_bounds, detect_vertical_scroll_cols, vertical_kept,
  length-encode_copy_rect_op,
}
use btrm.Diff.Fill.{Filling, append_full_width_fill_ops}
use btrm.Diff.Fill.Runs.{Filled, append_full_width_fill_ops-Filled}
use btrm.Diff.Update.{
  Ops, add_patch, scroll_ops, ops_for, may_scroll, try_scroll_ops, is_same_size, basis_of, or_patch,
  choose_ops, build_ops,
}

-- Every field fits the word that carries it.
pub record IsWire (f : FrameState) : Type 0 where
  pub rows_fit : IsU16 f.rows
  pub cols_fit : IsU16 f.cols
  pub cursor_row_fit : IsU16 f.cursor_row
  pub cursor_col_fit : IsU16 f.cursor_col
  pub mode_fit : IsU16 f.mode
  pub scrollback_fit : IsU32 f.scrollback_lines

-- `ops`, run by a receiver that has the cells of `basis`, gives those of `current`.
pub record Makes (current basis : FrameState) (ops : Ops) : Type 0 where
  pub count_fit : IsU16 ops.1
  pub makes :
      (payload : Bytes) (off : ℕ) (f : FrameState)
      → Holds payload off ops.0
      → SameCells f basis
      → (g : FrameState) × Runs ops.1 payload off f g (off + length ops.0)
        × (g.cells ≡ current.cells)

module _ (current previous : FrameState) (vc : IsValid current) (vp : IsValid previous)
    (same_rows : previous.rows ≡ current.rows) (same_cols : previous.cols ≡ current.cols) where
  previous_fill : length previous.cells ≡ total_cells current * cell_size
  previous_fill = vp.cells_fill ∙ ap₂ (λ (r c : ℕ). r * c * cell_size) same_rows same_cols

  total_of : (f : FrameState) → SameCells f previous → total_cells f ≡ total_cells current
  total_of f s = ap₂ ◌*◌ (s.same_rows ∙ same_rows) (s.same_cols ∙ same_cols)

  patch-Makes :
      (op : Bytes) → build_patch_op current previous ≡ some op → Makes current previous (op, 1)
  patch-Makes op e = record {
    count_fit = omega arith;
    makes = λ payload off f h s.
        build_patch_op-Runs current previous f (total_of f s) vc.cells_fill previous_fill
          s.same_cells op payload off e h;
  }

  nothing-Makes : build_patch_op current previous ≡ none → Makes current previous ([], 0)
  nothing-Makes e = record {
    count_fit = omega arith;
    makes = λ payload off f h s. (
      f,
      rw add-zero (Runs-none payload off f),
      s.same_cells
          ∙ build_patch_op-none current previous previous
              (total_of previous (record { same_rows = refl; same_cols = refl; same_cells = refl }))
              vc.cells_fill previous_fill refl e,
    );
  }

  -- The sender's copy of the frame after the scroll and the fills.
  module _ (delta : Shift) (wire : IsWire current)
      (found : detect_vertical_scroll current previous ≡ some delta) where
    scrolled : FrameState
    scrolled = apply_vertical_scroll_copy previous delta

    start : Filling
    start = record { basis = scrolled; out = encode_copy_rect_op current delta; op_count = 1 }

    filled : Filling
    filled = append_full_width_fill_ops current start

    filled-Filled : Filled current start filled
    unfolding filled
    filled-Filled =
        append_full_width_fill_ops-Filled current wire.rows_fit wire.cols_fit
          (detect_vertical_scroll_cols current previous delta found) vc.cells_fill start

    -- The receiver's cells after the scroll and the fills are those of that copy.
    filled-Runs :
        (payload : Bytes) (off : ℕ) (f : FrameState)
        → Holds payload off filled.out
        → SameCells f previous
        → (g : FrameState) × Runs filled.op_count payload off f g (off + length filled.out)
          × SameCells g filled.basis
    unfolding start scrolled
    filled-Runs payload off f h s =
        let fills = filled-Filled in
        let op = encode_copy_rect_op current delta in
        let l = length-encode_copy_rect_op current delta in
        let h' : Holds payload off (op ++ fills.extra) = rw fills.out_grows at h in
        let (g, r, c) =
          scroll-Runs current previous f delta payload off wire.rows_fit wire.cols_fit s same_rows
            same_cols (detect_vertical_scroll_bounds current previous delta found)
            (Holds-left op fills.extra h') in
        let kept = vertical_kept previous delta in
        let (k, r', c') =
          fills.runs payload (off + 1 + 12) g
            (Holds-at (off + 1 + 12) (omega (arith, l)) (Holds-right op fills.extra h'))
            (record {
              same_rows = r.keeps.rows_kept ∙ s.same_rows ∙ sym kept.0;
              same_cols = r.keeps.cols_kept ∙ s.same_cols ∙ sym kept.1;
              same_cells = c;
            })
            (kept.0 ∙ same_rows) (kept.1 ∙ same_cols) in
        let ends : off + length filled.out ≡ off + 1 + 12 + length fills.extra =
          rw (fills.out_grows, length-append) (omega (arith, l)) in
        (k, rw (ends, fills.count_grows) (Runs-then payload 1 fills.added off _ _ f g k r r'), c')

    basis_kept :
        (filled.basis.rows ≡ previous.rows)
        × (filled.basis.cols ≡ previous.cols)
        × (length filled.basis.cells ≡ length previous.cells)
    unfolding start scrolled
    basis_kept =
        let fills = filled-Filled in
        let kept = vertical_kept previous delta in
        (fills.basis_rows ∙ kept.0, fills.basis_cols ∙ kept.1, fills.basis_length ∙ kept.2)

    basis_total : (g : FrameState) → SameCells g filled.basis → total_cells g ≡ total_cells current
    basis_total g s =
        ap₂ ◌*◌ (s.same_rows ∙ basis_kept.0 ∙ same_rows) (s.same_cols ∙ basis_kept.1 ∙ same_cols)

    count_le : filled.op_count ≤ u16_max
    unfolding start
    count_le = filled-Filled.count_fits (omega arith)

    add_patch-Makes :
        (p : Option Bytes)
        → build_patch_op current filled.basis ≡ p
        → (add_patch p filled.out filled.op_count).1 ≢ 0
        → Makes current previous (add_patch p filled.out filled.op_count)
    unfolding add_patch
    add_patch-Makes none e ne = record {
      count_fit = omega (arith, count_le);
      makes = λ payload off f h s.
          let (g, r, c) = filled-Runs payload off f h s in
          (
            g,
            r,
            c.same_cells
                ∙ build_patch_op-none current filled.basis g (basis_total g c) vc.cells_fill
                    (basis_kept.2 ∙ previous_fill) c.same_cells e,
          );
    }
    add_patch-Makes (some op) e ne = record {
      count_fit = omega arith;
      makes = λ payload off f h s.
          let (g, r, c) = filled-Runs payload off f (Holds-left filled.out op h) s in
          let (k, r', c') =
            build_patch_op-Runs current filled.basis g (basis_total g c) vc.cells_fill
              (basis_kept.2 ∙ previous_fill) c.same_cells op payload (off + length filled.out) e
              (Holds-right filled.out op h) in
          let one_more : (filled.op_count + 1) % 65536 ≡ filled.op_count + 1 =
            omega (arith, count_le, ne) in
          let ends : off + length (filled.out ++ op) ≡ off + length filled.out + length op =
            rw length-append (omega arith) in
          (k, rw (one_more, ends) (Runs-then payload filled.op_count 1 off _ _ f g k r r'), c');
    }

    scroll_ops-Makes :
        (scroll_ops current previous delta).1 ≢ 0
        → Makes current previous (scroll_ops current previous delta)
    unfolding scroll_ops filled start scrolled
    scroll_ops-Makes ne = add_patch-Makes (build_patch_op current filled.basis) refl ne

  ops_for-Makes :
      (found : Option Shift)
      → IsWire current
      → detect_vertical_scroll current previous ≡ found
      → (ops_for current previous found).1 ≢ 0
      → Makes current previous (ops_for current previous found)
  unfolding ops_for
  ops_for-Makes none wire e ne = absurd (ne refl)
  ops_for-Makes (some delta) wire e ne = scroll_ops-Makes delta wire e ne

  try_scroll_ops-Makes :
      IsWire current
      → (try_scroll_ops current previous).1 ≢ 0
      → Makes current previous (try_scroll_ops current previous)
  unfolding try_scroll_ops
  try_scroll_ops-Makes wire = pick (may_scroll current previous)
    where
      pick :
          (b : Bool)
          → (if b
              then ops_for current previous (detect_vertical_scroll current previous)
              else ([], 0)).1
            ≢ 0
          → Makes current previous (
              if b
              then ops_for current previous (detect_vertical_scroll current previous)
              else ([], 0))
      pick true ne = ops_for-Makes (detect_vertical_scroll current previous) wire refl ne
      pick false ne = absurd (ne refl)

  -- Equal cells are no reason to scroll.
  try_scroll_ops_same : previous.cells ≡ current.cells → try_scroll_ops current previous ≡ ([], 0)
  unfolding try_scroll_ops may_scroll
  try_scroll_ops_same e = ground (arith, (bytes_eq_iff previous.cells current.cells).1 e)

  or_patch-Makes :
      (p : Option Bytes)
      → build_patch_op current previous ≡ p
      → Makes current previous (or_patch (try_scroll_ops current previous) p)
  or_patch-Makes none e =
      let same =
        build_patch_op-none current previous previous same_total vc.cells_fill previous_fill refl
          e in
      rw (try_scroll_ops_same same) (nothing-Makes e)
    where
      same_total : total_cells previous ≡ total_cells current
      same_total =
          total_of previous (record { same_rows = refl; same_cols = refl; same_cells = refl })
  or_patch-Makes (some op) e = patch-Makes op e

  choose-Makes :
      IsWire current
      → Makes current previous
          (choose_ops (try_scroll_ops current previous) (build_patch_op current previous))
  choose-Makes wire = pick ((try_scroll_ops current previous).1 == 0) refl
    where
      pick :
          (b : Bool)
          → ((try_scroll_ops current previous).1 == 0) ≡ b
          → Makes current previous (
              if b
              then or_patch (try_scroll_ops current previous) (build_patch_op current previous)
              else try_scroll_ops current previous)
      pick true e = or_patch-Makes (build_patch_op current previous) refl
      pick false e = try_scroll_ops-Makes wire (ground arith)

-- Against a blank frame there is no scroll.
blank-Makes :
    (current : FrameState) (p : Option Bytes)
    → IsValid current
    → build_patch_op current (new current.rows current.cols) ≡ p
    → Makes current (new current.rows current.cols) (or_patch ([], 0) p)
blank-Makes current none vc e =
    nothing-Makes current _ vc (new-IsValid current.rows current.cols) (unfold new in refl)
      (unfold new in refl) e
blank-Makes current (some op) vc e =
    patch-Makes current _ vc (new-IsValid current.rows current.cols) (unfold new in refl)
      (unfold new in refl) op e

module _ (current previous : FrameState) where
  build_ops_lem :
      build_ops current previous
      ≡ choose_ops
          (try_scroll_ops current previous)
          (build_patch_op current (basis_of current previous))
  unfolding build_ops
  build_ops_lem = refl

  basis_of_same : is_same_size current previous ≡ true → basis_of current previous ≡ previous
  unfolding basis_of
  basis_of_same e = ground arith

  basis_of_other :
      is_same_size current previous ≡ false
      → (basis_of current previous ≡ new current.rows current.cols)
        × (try_scroll_ops current previous ≡ ([], 0))
  unfolding basis_of try_scroll_ops may_scroll
  basis_of_other e = (ground arith, ground arith)

  same_size_lem :
      is_same_size current previous ≡ true
      → (previous.rows ≡ current.rows) × (previous.cols ≡ current.cols)
  unfolding is_same_size
  same_size_lem e = ground arith

  -- Whatever operations the sender chooses, a receiver that has the cells of the basis has the
  -- current cells after them.
  pub build_ops-Makes :
      IsValid current
      → IsValid previous
      → IsWire current
      → Makes current (basis_of current previous) (build_ops current previous)
  build_ops-Makes vc vp wire = elim (Bool-cases (is_same_size current previous)) [
    | inl e ↦
        let (r, c) = same_size_lem e in
        rw (build_ops_lem, basis_of_same e) (choose-Makes current previous vc vp r c wire)
    | inr e ↦
        let (b, t) = basis_of_other e in rw (build_ops_lem, b, t) (blank-Makes current _ vc refl)
  ]
