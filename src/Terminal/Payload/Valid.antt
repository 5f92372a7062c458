-- ===== src/Terminal/Payload/Valid.antt =====
-- Whatever the bytes of a payload, the frame behind it is valid and its cursor is inside.
use btrm.Base.{
  ℕ, zero, suc, ◌+◌, ◌≤◌, ◌≡◌, refl, ap, ◌∙◌, Bool, true, false, ◌&&◌, ◌||◌, Bytes, some, none, ltb,
  leb, ◌==◌, if◌then◌else◌, length, drop, arith, Bool-cases, inl, inr, bit_and, min,
}
use btrm.Base.Slices.{length-slice}
use btrm.Base.Words.{byte_at, u16_at}
use btrm.Cell.{cell_size}
use btrm.Frame.{FrameState, resize, set_title}
use btrm.Frame.Valid.{IsValid, CursorInside, resize-IsValid, resize-CursorInside}
use btrm.Terminal.Ops.{bitmask_len}
use btrm.Terminal.Ops.Keeps.{apply_overflow_strings-KeepsCells}
use btrm.Terminal.Ops.Size.{
  KeepsSize, KeepsSize-refl, KeepsSize-trans, apply_patch_cells-KeepsSize,
  apply_copy_rect-KeepsSize, apply_fill_rect-KeepsSize,
}
use btrm.Terminal.Payload.Whole.{titled, resized}
use btrm.Terminal.Payload.{
  op_copy_rect, op_fill_rect, op_patch_cells, Applied, apply_legacy_patch_payload, copy_op, fill_op,
  patch_op, apply_op, ops_loop, apply_ops_payload, apply_content, apply_strings, apply_line_flags,
  apply_scrollback, apply_body, apply_payload, has, ne, ops_present, strings_present,
  line_flags_present, title_present, title_len_mask,
}

-- A branch that gives the frame back, or one that keeps its size.
either :
    (b : Bool) (f : FrameState) (x y : Applied)
    → KeepsSize f x.0
    → KeepsSize f y.0
    → KeepsSize f (if b then x else y).0
either true f x y p q = p
either false f x y p q = q

apply_op-KeepsSize :
    (f : FrameState) (payload : Bytes) (off : ℕ) → KeepsSize f (apply_op f payload off).0
unfolding apply_op copy_op fill_op patch_op
apply_op-KeepsSize f payload off =
    let same = KeepsSize-refl f in
    let copied =
      either (ltb (length payload) (off + 1 + 12)) f (f, none) _ same
        (apply_copy_rect-KeepsSize f _ _ _ _ _ _) in
    let filled =
      either (ltb (length payload) (off + 1 + 8 + cell_size)) f (f, none) _ same
        (apply_fill_rect-KeepsSize f _ _ _ _ _) in
    let patched =
      either (ltb (length payload) (off + 1 + bitmask_len f)) f (f, none) _ same
        (either _ f (f, none) _ same (apply_patch_cells-KeepsSize f _ _ _)) in
    either (leb (length payload) off) f _ _ same (
      either (byte_at payload off == op_copy_rect) f _ _ copied (
        either (byte_at payload off == op_fill_rect) f _ _ filled
          (either (byte_at payload off == op_patch_cells) f _ _ patched same)))

legacy-KeepsSize :
    (f : FrameState) (payload : Bytes) → KeepsSize f (apply_legacy_patch_payload f payload).0
unfolding apply_legacy_patch_payload
legacy-KeepsSize f payload =
    let same = KeepsSize-refl f in
    either _ f (f, none) _ same (either _ f (f, none) _ same (apply_patch_cells-KeepsSize f _ _ _))

-- The rounds behind an operation, by what it gives.
after : ℕ → Bytes → Bool → Applied → Applied
after count payload changed r = elim r.1 [
  | none ↦ (r.0, none)
  | some (here, next) ↦ ops_loop count payload (changed || here) next r.0
]

ops_loop-KeepsSize :
    (count : ℕ) (payload : Bytes) (changed : Bool) (off : ℕ) (f : FrameState)
    → KeepsSize f (ops_loop count payload changed off f).0
unfolding ops_loop after
ops_loop-KeepsSize zero payload changed off f = KeepsSize-refl f
ops_loop-KeepsSize (suc count) payload changed off f =
    next (apply_op f payload off) (apply_op-KeepsSize f payload off)
      (λ c off' g. ops_loop-KeepsSize count payload c off' g)
  where
    next :
        (r : Applied)
        → KeepsSize f r.0
        → ((c : Bool) (off' : ℕ) (g : FrameState) → KeepsSize g (ops_loop count payload c off' g).0)
        → KeepsSize f (after count payload changed r).0
    next (g, none) k rest = k
    next (g, some (here, off')) k rest = KeepsSize-trans f g _ k (rest (changed || here) off' g)

content-KeepsSize :
    (f : FrameState) (payload : Bytes) (title_end : ℕ) (ops : Bool)
    → KeepsSize f (apply_content f payload title_end ops).0
unfolding apply_content apply_ops_payload
content-KeepsSize f payload title_end true =
    either (ltb (length (drop title_end payload)) 2) f (f, none)
      (ops_loop (u16_at (drop title_end payload) 0) (drop title_end payload) false 2 f)
      (KeepsSize-refl f) (ops_loop-KeepsSize _ _ false 2 f)
content-KeepsSize f payload title_end false = legacy-KeepsSize f (drop title_end payload)

KeepsSize-IsValid : (f g : FrameState) → KeepsSize f g → IsValid f → IsValid g
KeepsSize-IsValid f g k v = record {
  cells_fill = rw (k.keeps.rows_kept, k.keeps.cols_kept) (k.same_length ∙ v.cells_fill);
  flags_fill = rw (k.keeps.rows_kept, k.keeps.line_flags_kept) v.flags_fill;
}

strings-KeepsSize :
    (f : FrameState) (payload : Bytes) (off : ℕ) (b : Bool)
    → KeepsSize f (apply_strings f payload off b).0
unfolding apply_strings
strings-KeepsSize f payload off true =
    let k = apply_overflow_strings-KeepsCells f (drop off payload) in
    record { keeps = k.keeps; same_length = ap length k.cells_kept }
strings-KeepsSize f payload off false = KeepsSize-refl f

-- New line flags are as many as the rows.
flags-IsValid :
    (f : FrameState) (payload : Bytes) (off : ℕ) (b : Bool)
    → IsValid f
    → IsValid (apply_line_flags f payload off f.rows b).0
unfolding apply_line_flags
flags-IsValid f payload off b v =
    pick (b && leb (off + f.rows) (length payload)) _ (f, false, off) v
      (λ e. record {
        cells_fill = v.cells_fill;
        flags_fill = length-slice payload off f.rows (ground arith);
      })
  where
    pick :
        (c : Bool) (x y : FrameState × Bool × ℕ)
        → IsValid y.0
        → (c ≡ true → IsValid x.0)
        → IsValid (if c then x else y).0
    pick false x y p q = p
    pick true x y p q = q refl

scrollback-IsValid :
    (f : FrameState) (payload : Bytes) (off : ℕ)
    → IsValid f
    → IsValid (apply_scrollback f payload off)
unfolding apply_scrollback
scrollback-IsValid f payload off v = ground arith

line_flags-size :
    (f : FrameState) (payload : Bytes) (off n off' : ℕ) (b : Bool)
    → (let g = apply_scrollback (apply_line_flags f payload off n b).0 payload off' in
        (g.rows ≡ f.rows) × (g.cols ≡ f.cols))
unfolding apply_line_flags apply_scrollback
line_flags-size f payload off n off' b = ground arith

min_inside : (a n : ℕ) → min a n ≤ n
min_inside a n = omega arith

-- The frame behind the header has the size that the header asks for.
apply_body-IsValid :
    (f : FrameState) (payload : Bytes) (title_end : ℕ) (changed : Bool)
    → u16_at payload 0 ≡ f.rows
    → IsValid f
    → IsValid (apply_body f payload title_end changed).0
      × CursorInside (apply_body f payload title_end changed).0
unfolding apply_body
apply_body-IsValid f payload title_end changed e v =
    let content = apply_content f payload title_end (has (u16_at payload 10) ops_present) in
    let strings =
      apply_strings content.0 payload content.2 (has (u16_at payload 10) strings_present) in
    let k =
      KeepsSize-trans f content.0 strings.0 (content-KeepsSize f payload title_end _)
        (strings-KeepsSize content.0 payload content.2 _) in
    let flags =
      apply_line_flags strings.0 payload strings.1 (u16_at payload 0)
        (has (u16_at payload 10) line_flags_present) in
    let rows : u16_at payload 0 ≡ strings.0.rows = rw k.keeps.rows_kept e in
    let vf : IsValid flags.0 =
      rw rows (flags-IsValid strings.0 payload strings.1 _ (KeepsSize-IsValid f strings.0 k v)) in
    let vg = scrollback-IsValid flags.0 payload flags.2 vf in
    (
      record { cells_fill = vg.cells_fill; flags_fill = vg.flags_fill },
      record { row_inside = min_inside _ _; col_inside = min_inside _ _ },
    )

abbrev pub Sound : FrameState → Type 0
Sound f = IsValid f × CursorInside f

set_title-Sound : (f : FrameState) (t : Bytes) → Sound f → Sound (set_title f t).0
unfolding set_title
set_title-Sound f t (v, c) = (ground arith, ground arith)

titled-Sound :
    (f : FrameState) (payload : Bytes) (len : ℕ) (b : Bool)
    → Sound f
    → Sound (titled f payload len b).0 × ((titled f payload len b).0.rows ≡ f.rows)
unfolding set_title
titled-Sound f payload len true s = (set_title-Sound f _ s, ground arith)
titled-Sound f payload len false s = (s, refl)

resize_rows : (f : FrameState) (rows cols : ℕ) → rows ≡ (resize f rows cols).rows
unfolding resize
resize_rows f rows cols = ground arith

resized-Sound :
    (f g : FrameState) (rows cols : ℕ)
    → g.rows ≡ f.rows
    → Sound g
    → Sound (resized f rows cols g) × (rows ≡ (resized f rows cols g).rows)
resized-Sound f g rows cols e (v, c) = elim (Bool-cases (ne rows f.rows || ne cols f.cols)) [
  | inl t ↦
      rw t
        ((resize-IsValid g rows cols v, resize-CursorInside g rows cols c), resize_rows g rows cols)
  | inr t ↦ rw t ((v, c), ground arith)
]

ladder :
    (a b c : Bool) (w x y z : FrameState × Bool)
    → Sound w.0
    → Sound x.0
    → Sound y.0
    → Sound z.0
    → Sound (if a then w else if b then x else if c then y else z).0
ladder true b c w x y z p q r s = p
ladder false true c w x y z p q r s = q
ladder false false true w x y z p q r s = r
ladder false false false w x y z p q r s = s

-- Any payload, however short or damaged, leaves a valid frame valid: its cells fill the grid, there
-- is a byte of flags for each row, and its cursor is inside.
pub apply_payload-IsValid :
    (f : FrameState) (payload : Bytes)
    → IsValid f
    → CursorInside f
    → IsValid (apply_payload f payload).0 × CursorInside (apply_payload f payload).0
unfolding apply_payload
apply_payload-IsValid f payload v c =
    let len = bit_and (u16_at payload 10) title_len_mask in
    let t = titled f payload len (has (u16_at payload 10) title_present) in
    let st = titled-Sound f payload len (has (u16_at payload 10) title_present) (v, c) in
    let g = resized f (u16_at payload 0) (u16_at payload 2) t.0 in
    let sg = resized-Sound f t.0 (u16_at payload 0) (u16_at payload 2) st.1 st.0 in
    let changed = (ne (u16_at payload 0) f.rows || ne (u16_at payload 2) f.cols) || t.1 in
    ladder (ltb (length payload) 12) (ltb (length payload) (12 + len))
      (has (u16_at payload 10) ops_present && ltb (length payload) (12 + len + 2)) (f, false)
      (f, false) (g, false) (apply_body g payload (12 + len) changed) (v, c) (v, c) sg.0
      (apply_body-IsValid g payload (12 + len) changed sg.1 sg.0.0)
