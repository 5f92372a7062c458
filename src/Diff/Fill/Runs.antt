-- ===== src/Diff/Fill/Runs.antt =====
-- The fills that the sender writes, run by the receiver, make its cells those of the sender's copy.
use native.Mathlib.Nat.{add_assoc, add-zero}
use btrm.Base.{
  ℕ, zero, suc, ◌+◌, ◌-◌, ◌*◌, ◌≤◌, ◌<◌, ◌≡◌, refl, sym, ap, ◌∙◌, [], ◌++◌, false, ◌||◌, Bytes,
  Option, none, some, if◌then◌else◌, arith, inl, inr, Bool-cases, Option-cases, ltb, ◌==◌, length,
  length-append, append-nil, append_assoc, u16_max, bytes_eq, ltb→lt,
}
use btrm.Base.Holds.{Holds, Holds-left, Holds-right}
use btrm.Base.Slices.{slice, write, length-write}
use btrm.Base.Loops.{rounds_keep}
use btrm.Base.Words.{IsU16}
use btrm.Cell.{cell_size}
use btrm.Frame.{FrameState, offset_in}
use btrm.Terminal.Ops.{apply_fill_rect}
use btrm.Terminal.Ops.Cells.{filled_cells, apply_fill_rect-cells}
use btrm.Terminal.Ops.Keeps.{apply_fill_rect-Keeps}
use btrm.Terminal.Payload.Read.{apply_op-fill}
use btrm.Terminal.Payload.Runs.{Runs, Runs-none, Runs-one, Runs-then}
use btrm.Diff.Scroll.Agree.{SameCells}
use btrm.Diff.Fill.{
  uniform_row_cell, run_end, fill_bytes, fill_rows, fill_basis, Filling, add_fill, fill_round,
  fill_loop, append_full_width_fill_ops,
}
use btrm.Diff.Fill.Agree.{filled_cells_rows, length-uniform_row_cell, run_end_bounds}

length-fill_rows :
    (basis_cols : ℕ) (cells : Bytes) (row end cols : ℕ) (cell : Bytes)
    → length (fill_rows basis_cols cells row end cols cell) ≡ length cells
unfolding fill_rows
length-fill_rows basis_cols cells row end cols cell =
    rounds_keep (λ cs. length cs ≡ length cells) (end - row) row _ cells
      (λ r cs e.
        rounds_keep (λ ds. length ds ≡ length cells) (cols - 0) 0
          (λ c ds. write ds (offset_in basis_cols r 0 + c * cell_size) cell) cs
          (λ c ds e'. length-write ds (offset_in basis_cols r 0 + c * cell_size) cell ∙ e') e)
      refl

-- `t` has more operations than `s`, and a receiver whose cells are those of the basis of `s` has
-- those of the basis of `t` after them.
pub record Filled (current : FrameState) (s t : Filling) : Type 0 where
  pub extra : Bytes
  pub added : ℕ
  pub out_grows : t.out ≡ s.out ++ extra
  pub count_grows : t.op_count ≡ s.op_count + added
  pub count_fits : s.op_count ≤ u16_max → t.op_count ≤ u16_max
  pub basis_rows : t.basis.rows ≡ s.basis.rows
  pub basis_cols : t.basis.cols ≡ s.basis.cols
  pub basis_length : length t.basis.cells ≡ length s.basis.cells
  pub runs :
      (payload : Bytes) (off : ℕ) (f : FrameState)
      → Holds payload off extra
      → SameCells f s.basis
      → s.basis.rows ≡ current.rows
      → s.basis.cols ≡ current.cols
      → (g : FrameState) × Runs added payload off f g (off + length extra) × SameCells g t.basis

module _ (current : FrameState) where
  Filled-refl : (s : Filling) → Filled current s s
  Filled-refl s = record {
    extra = [];
    added = 0;
    out_grows = sym (append-nil s.out);
    count_grows = omega arith;
    count_fits = λ h. h;
    basis_rows = refl;
    basis_cols = refl;
    basis_length = refl;
    runs = λ payload off f h c er ec. (f, rw add-zero (Runs-none payload off f), c);
  }

  Filled-trans : (s t u : Filling) → Filled current s t → Filled current t u → Filled current s u
  Filled-trans s t u p q = record {
    extra = p.extra ++ q.extra;
    added = p.added + q.added;
    out_grows = q.out_grows ∙ rw p.out_grows (append_assoc s.out p.extra q.extra);
    count_grows = omega (arith, p.count_grows, q.count_grows);
    count_fits = λ h. q.count_fits (p.count_fits h);
    basis_rows = q.basis_rows ∙ p.basis_rows;
    basis_cols = q.basis_cols ∙ p.basis_cols;
    basis_length = q.basis_length ∙ p.basis_length;
    runs = λ payload off f h c er ec.
        let (g, r, d) = p.runs payload off f (Holds-left p.extra q.extra h) c er ec in
        let (k, r', d') =
          q.runs payload (off + length p.extra) g (Holds-right p.extra q.extra h) d
            (p.basis_rows ∙ er) (p.basis_cols ∙ ec) in
        (
          k,
          rw (length-append, ← add_assoc) (Runs-then payload p.added q.added off _ _ f g k r r'),
          d',
        );
  }

module _ (current : FrameState) (u16_rows : IsU16 current.rows) (u16_cols : IsU16 current.cols)
    (some_cols : 0 < current.cols)
    (fill : length current.cells ≡ current.rows * current.cols * cell_size) where
  add_fill-Filled :
      (row end : ℕ) (cell : Bytes) (s : Filling)
      → row < end
      → end ≤ current.rows
      → length cell ≡ cell_size
      → (s.op_count == u16_max) ≡ false
      → Filled current s (add_fill current row end cell s)
  unfolding add_fill fill_bytes fill_basis
  add_fill-Filled row end cell s lt le lc room = record {
    extra = fill_bytes current row end cell;
    added = 1;
    out_grows = refl;
    count_grows = refl;
    count_fits = λ h. ground arith;
    basis_rows = refl;
    basis_cols = refl;
    basis_length = length-fill_rows s.basis.cols s.basis.cells row end current.cols cell;
    runs = λ payload off f h c er ec.
        let read =
          apply_op-fill f payload off row 0 (end - row) current.cols cell (omega arith)
            (omega arith) (omega arith) u16_cols lc h in
        let ends : off + length (fill_bytes current row end cell) ≡ off + 1 + 8 + cell_size =
          omega (arith, lc) in
        let keeps = apply_fill_rect-Keeps f row 0 (end - row) current.cols cell in
        let same_cols : f.cols ≡ current.cols = c.same_cols ∙ ec in
        let same_rows : f.rows ≡ current.rows = c.same_rows ∙ er in
        (
          (apply_fill_rect f row 0 (end - row) current.cols cell).0,
          rw ends (Runs-one payload off (off + 1 + 8 + cell_size) f _ _ read keeps),
          record {
            same_rows = keeps.rows_kept ∙ c.same_rows;
            same_cols = keeps.cols_kept ∙ c.same_cols;
            same_cells =
                apply_fill_rect-cells f row 0 (end - row) current.cols cell
                ∙ (λ i.
                    filled_cells (same_rows i) (same_cols i) (c.same_cells i) row 0 (end - row)
                      current.cols cell)
                ∙ filled_cells_rows current.rows current.cols row end s.basis.cells cell lt le
                    u16_rows some_cols u16_cols
                ∙ ap (λ (k : ℕ). fill_rows k s.basis.cells row end current.cols cell) (sym ec);
          },
        );
  }

  -- What a round that goes on makes of `s`.
  abbrev RoundFilled : Filling → Option (ℕ × Filling) → Type 0
  RoundFilled s none = Unit
  RoundFilled s (some (next, t)) = Filled current s t

  fill_or_stop :
      (row : ℕ) (s : Filling) (cell : Bytes)
      → row < current.rows
      → uniform_row_cell current row ≡ some cell
      → RoundFilled s (
          if s.op_count == u16_max
          then none
          else some (
            run_end current.rows current (row + 1) cell,
            add_fill current row (run_end current.rows current (row + 1) cell) cell s,
          ))
  fill_or_stop row s cell lt e = elim (Bool-cases (s.op_count == u16_max)) [
    | inl full ↦ rw full tt
    | inr room ↦
        let bounds = run_end_bounds current.rows current (row + 1) cell (omega arith) in
        rw room (
          add_fill-Filled row _ cell s (omega (arith, bounds.0)) bounds.1
            (length-uniform_row_cell current row cell fill lt some_cols e) room)
  ]

  fill_round-RoundFilled : (row : ℕ) (s : Filling) → RoundFilled s (fill_round current row s)
  unfolding fill_round
  fill_round-RoundFilled row s = elim (Bool-cases (ltb row current.rows)) [
    | inr out ↦ rw out tt
    | inl inside ↦
        rw inside (elim (Bool-cases (bytes_eq (row_of current.cells) (row_of s.basis.cells))) [
          | inl same ↦ rw same (Filled-refl current s)
          | inr differs ↦ rw differs (elim (Option-cases (uniform_row_cell current row)) [
            | inl e ↦ rw e (Filled-refl current s)
            | inr (cell, e) ↦ rw e (fill_or_stop row s cell (ltb→lt row current.rows inside) e)
          ])
        ])
  ]
    where
      row_of : Bytes → Bytes
      row_of cells = slice cells (row * (current.cols * cell_size)) (current.cols * cell_size)

  pub fill_loop-Filled :
      (fuel row : ℕ) (s : Filling) → Filled current s (fill_loop fuel current row s)
  unfolding fill_loop
  fill_loop-Filled zero row s = Filled-refl current s
  fill_loop-Filled (suc fuel) row s = elim (Option-cases (fill_round current row s)) [
    | inl e ↦ rw (e, fill_loop) (Filled-refl current s)
    | inr ((next, t), e) ↦
        rw (e, fill_loop)
          (Filled-trans current s t _ (rw e at (fill_round-RoundFilled row s))
            (fill_loop-Filled fuel next t))
  ]

  pub append_full_width_fill_ops-Filled :
      (s : Filling) → Filled current s (append_full_width_fill_ops current s)
  unfolding append_full_width_fill_ops
  append_full_width_fill_ops-Filled s = elim (Bool-cases (current.rows == 0 || current.cols == 0)) [
    | inl e ↦ rw e (Filled-refl current s)
    | inr e ↦ rw e (fill_loop-Filled current.rows 0 s)
  ]
