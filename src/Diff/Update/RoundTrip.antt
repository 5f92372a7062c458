-- ===== src/Diff/Update/RoundTrip.antt =====
-- The payload of `build_update_msg`, applied by a receiver that shows the previous frame, makes it
-- show the current one.
use btrm.Base.{
  ℕ, ◌+◌, ◌*◌, ◌≤◌, ◌≡◌, refl, sym, ◌∙◌, [], ◌++◌, Bool, true, false, not, ◌&&◌, ◌||◌, Bytes, ◌==◌,
  if◌then◌else◌, length, take, arith, Bool-cases, inl, inr, bytes_eq_iff, drop, take-length,
}
use btrm.Base.Holds.{Holds, Holds-left, Holds-right, Holds-le, slice-Holds}
use btrm.Base.Words.{u16_to_le, IsU16}
use btrm.Base.Utf8.{is_utf8, from_utf8_lossy-is_utf8}
use btrm.Cell.{cell_size}
use btrm.Frame.{FrameState, new, resize, set_title}
use btrm.Frame.Valid.{IsValid, CursorInside}
use btrm.Terminal.Payload.{ne, title_len_mask, apply_body, apply_payload}
use btrm.Terminal.Payload.Runs.{Runs}
use btrm.Terminal.Payload.Whole.{
  apply_ops_payload-Runs, apply_content-ops, Shows, apply_body-Shows, titled, resized,
  apply_payload-body,
}
use btrm.Diff.Scroll.Agree.{SameCells}
use btrm.Diff.Update.{
  Ops, is_same_size, basis_of, build_ops, is_title_changed, has_line_flags, is_empty_map, title_len,
  build_payload,
}
use btrm.Diff.Update.Ops.{IsWire, build_ops-Makes}
use btrm.Diff.Update.Parts

-- The receiver has the new title, and is otherwise as it was.
record Titled (f g : FrameState) (title : Bytes) : Type 0 where
  rows_kept : g.rows ≡ f.rows
  cols_kept : g.cols ≡ f.cols
  cells_kept : g.cells ≡ f.cells
  title_new : g.title ≡ title

set_title-Titled : (f : FrameState) (t : Bytes) → Titled f (set_title f t).0 t
unfolding set_title
set_title-Titled f t = ground (arith, bytes_eq_iff f.title t)

-- The title that is sent is the whole title, where it fits the title field.
sent_whole :
    (current : FrameState)
    → length current.title ≤ title_len_mask
    → take (title_len current) current.title ≡ current.title
sent_whole current h =
    let n : title_len current ≡ length current.title = ground arith in
    rw n (take-length current.title)

-- The receiver resizes exactly where the sender starts from a blank frame.
same_size_same :
    (current previous f : FrameState)
    → SameCells f previous
    → is_same_size current previous ≡ true
    → (ne current.rows f.rows || ne current.cols f.cols) ≡ false
unfolding is_same_size
same_size_same current previous f s e = ground (arith, s.same_rows, s.same_cols)

other_size :
    (current previous f : FrameState)
    → IsValid current
    → IsValid previous
    → SameCells f previous
    → is_same_size current previous ≡ false
    → ((ne current.rows f.rows || ne current.cols f.cols) ≡ true)
      × ((current.rows == f.rows && current.cols == f.cols) ≡ false)
unfolding is_same_size
other_size current previous f vc vp s e =
    let differ = λ (r : previous.rows ≡ current.rows) (c : previous.cols ≡ current.cols).
      vp.cells_fill ∙ (λ i. r i * c i * cell_size) ∙ sym vc.cells_fill in
    (
      ground (arith, s.same_rows, s.same_cols, differ),
      ground (arith, s.same_rows, s.same_cols, differ),
    )

resize_blank :
    (g : FrameState) (rows cols : ℕ)
    → (rows == g.rows && cols == g.cols) ≡ false
    → SameCells (resize g rows cols) (new rows cols)
unfolding resize new
resize_blank g rows cols e = rw e (record { same_rows = refl; same_cols = refl; same_cells = refl })

resized-SameCells :
    (current previous f g : FrameState)
    → IsValid current
    → IsValid previous
    → SameCells f previous
    → SameCells g f
    → SameCells (resized f current.rows current.cols g) (basis_of current previous)
unfolding basis_of
resized-SameCells current previous f g vc vp s k =
    elim (Bool-cases (is_same_size current previous)) [
      | inl e ↦
          rw (e, same_size_same current previous f s e)
            (record {
              same_rows = k.same_rows ∙ s.same_rows;
              same_cols = k.same_cols ∙ s.same_cols;
              same_cells = k.same_cells ∙ s.same_cells;
            })
      | inr e ↦
          let (differs, guard) = other_size current previous f vc vp s e in
          rw (e, differs)
            (resize_blank g current.rows current.cols (rw (k.same_rows, k.same_cols) guard))
    ]

-- The basis has the size of the current frame.
basis_size :
    (current previous : FrameState)
    → ((basis_of current previous).rows ≡ current.rows)
      × ((basis_of current previous).cols ≡ current.cols)
unfolding basis_of is_same_size new
basis_size current previous = elim (Bool-cases (is_same_size current previous)) [
  | inl e ↦ rw e (ground arith)
  | inr e ↦ rw e (refl, refl)
]

-- What the receiver shows is the frame of the sender, but for its strings, flags and scrollback.
pub record ShowsFrame (current g : FrameState) : Type 0 where
  pub same_rows : g.rows ≡ current.rows
  pub same_cols : g.cols ≡ current.cols
  pub same_cells : g.cells ≡ current.cells
  pub same_title : g.title ≡ current.title
  pub same_cursor_row : g.cursor_row ≡ current.cursor_row
  pub same_cursor_col : g.cursor_col ≡ current.cursor_col
  pub same_mode : g.mode ≡ current.mode

module _ (current previous f : FrameState) (short : length current.title ≤ title_len_mask)
    (valid_title : is_utf8 current.title ≡ true) (same_title : f.title ≡ previous.title) where
  sent_length :
      (b : Bool)
      → length (if b then take (title_len current) current.title else [])
        ≡ (if b then title_len current else 0)
  sent_length true = rw (sent_whole current short) (ground arith)
  sent_length false = refl

  titled-Titled :
      (b : Bool) (payload : Bytes)
      → is_title_changed current previous ≡ b
      → Holds payload 12 (if b then take (title_len current) current.title else [])
      → Titled f (titled f payload (if b then title_len current else 0) b).0 current.title
  unfolding is_title_changed
  titled-Titled true payload e h =
      let held = rw (sent_whole current short) at h in
      let n : title_len current ≡ length current.title = ground arith in
      rw (n, slice-Holds current.title held, from_utf8_lossy-is_utf8 current.title valid_title)
        (set_title-Titled f current.title)
  titled-Titled false payload e h = record {
    rows_kept = refl;
    cols_kept = refl;
    cells_kept = refl;
    title_new = same_title ∙ sym (ground (arith, bytes_eq_iff current.title previous.title));
  }

  module _ (ops : Ops) (wire : IsWire current)
      (fld : Parts.Field
        (is_title_changed current previous)
        (title_len current)
        (Parts.field current previous ops)) where
    abbrev payload : Bytes
    payload = build_payload current previous ops

    header : Parts.Header current previous ops
    header = Parts.payload-Header current previous ops wire fld.fits

    abbrev titled_frame : FrameState
    titled_frame =
        (titled f payload (if is_title_changed current previous then title_len current else 0)
          (is_title_changed current previous)).0

    abbrev base : FrameState
    base = resized f current.rows current.cols titled_frame

    length-sent_title :
        length (Parts.sent_title current previous ops)
        ≡ (if is_title_changed current previous then title_len current else 0)
    length-sent_title = sent_length (is_title_changed current previous)

    abbrev is_changed : Bool
    is_changed =
        (ne current.rows f.rows || ne current.cols f.cols)
        || (titled f payload (if is_title_changed current previous then title_len current else 0)
            (is_title_changed current previous)).1

    whole_lem :
        apply_payload f payload
        ≡ apply_body base payload (12 + length (Parts.sent_title current previous ops)) is_changed
    whole_lem =
        let le = Holds-le (u16_to_le ops.1) (
          Holds-left (u16_to_le ops.1) _
            (Holds-right (Parts.sent_title current previous ops) _ header.rest_held)) in
        let lens = length-sent_title in
        apply_payload-body f payload (rw (header.field_read, fld.len_read, ← lens) le)
        ∙ rw
            (
              header.field_read, fld.len_read, fld.is_title, header.rows_read, header.cols_read,
              lens,
            )
            refl

    base-SameCells :
        IsValid current
        → IsValid previous
        → SameCells f previous
        → SameCells base (basis_of current previous)
    base-SameCells vc vp s =
        let t =
          titled-Titled (is_title_changed current previous) payload refl
            (Holds-left (Parts.sent_title current previous ops) _ header.rest_held) in
        resized-SameCells current previous f titled_frame vc vp s
          (record { same_rows = t.rows_kept; same_cols = t.cols_kept; same_cells = t.cells_kept })

    base_title : base.title ≡ current.title
    base_title =
        let t =
          titled-Titled (is_title_changed current previous) payload refl
            (Holds-left (Parts.sent_title current previous ops) _ header.rest_held) in
        pick (ne current.rows f.rows || ne current.cols f.cols) t.title_new
      where
        pick :
            (b : Bool)
            → titled_frame.title ≡ current.title
            → (if b then resize titled_frame current.rows current.cols else titled_frame).title
              ≡ current.title
        pick true e = unfold resize in ground (arith, e)
        pick false e = e

    -- The cells, the title and the size come from what stands behind the header; the cursor and
    -- the mode from the header.
    shows_frame :
        (g : FrameState) (off : ℕ)
        → Runs ops.1
            (drop (12 + length (Parts.sent_title current previous ops)) payload)
            2
            base
            g
            off
        → IsU16 ops.1
        → g.cells ≡ current.cells
        → SameCells base (basis_of current previous)
        → CursorInside current
        → ShowsFrame current (apply_payload f payload).0
    shows_frame g off r fit cells s inside =
        let title_end = 12 + length (Parts.sent_title current previous ops) in
        let (c, e) =
          apply_ops_payload-Runs ops.1 (ops.0 ++ Parts.tail current previous ops)
            (drop title_end payload) base g off fit (Parts.dropped_held current previous ops) r in
        let content = apply_content-ops base g payload title_end off c e in
        let shows : Shows g current.cursor_row current.cursor_col current.mode
            (apply_body base payload title_end is_changed).0 =
          rw
            (
              header.row_read, header.col_read, header.mode_read, header.field_read, fld.is_ops,
              content,
            )
            at (apply_body-Shows base payload title_end is_changed) in
        let size = basis_size current previous in
        let rows : g.rows ≡ current.rows = r.keeps.rows_kept ∙ s.same_rows ∙ size.0 in
        let cols : g.cols ≡ current.cols = r.keeps.cols_kept ∙ s.same_cols ∙ size.1 in
        rw whole_lem (record {
          same_rows = shows.rows_shown ∙ rows;
          same_cols = shows.cols_shown ∙ cols;
          same_cells = shows.cells_shown ∙ cells;
          same_title = shows.title_shown ∙ r.keeps.title_kept ∙ base_title;
          same_cursor_row = shows.row_shown ∙ rw rows (omega (arith, inside.row_inside));
          same_cursor_col = shows.col_shown ∙ rw cols (omega (arith, inside.col_inside));
          same_mode = shows.mode_shown;
        })

-- A receiver that shows the size, the cells and the title of the previous frame shows the current
-- one after it applies the payload that the sender builds from the two: its size, cells, title,
-- cursor and mode. Both frames are valid, the fields of the current one fit their words, its cursor
-- is inside, and its title is UTF-8 of at most 4095 bytes.
pub apply_payload-build_payload :
    (current previous f : FrameState)
    → IsValid current
    → IsValid previous
    → IsWire current
    → CursorInside current
    → length current.title ≤ title_len_mask
    → is_utf8 current.title ≡ true
    → SameCells f previous
    → f.title ≡ previous.title
    → ShowsFrame current
        (apply_payload f (build_payload current previous (build_ops current previous))).0
apply_payload-build_payload current previous f vc vp wire inside short valid_title s same_title =
    let ops = build_ops current previous in
    let fld =
      Parts.title_field_of-Field (not (is_empty_map current.overflow))
        (has_line_flags current previous) (is_title_changed current previous) (title_len current)
        (omega (arith, short)) in
    let m = build_ops-Makes current previous vc vp wire in
    let base =
      base-SameCells current previous f short valid_title same_title ops wire fld vc vp s in
    let (g, r, cells) =
      m.makes _ 2 _
        (Holds-left ops.0 _
          (Holds-right (u16_to_le ops.1) _ (Parts.dropped_held current previous ops)))
        base in
    shows_frame current previous f short valid_title same_title ops wire fld g _ r m.count_fit cells
      base inside
