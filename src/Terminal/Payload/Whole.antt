-- ===== src/Terminal/Payload/Whole.antt =====
-- A payload as a whole: the fields in front, and what `apply_body` makes of what stands behind them.
use btrm.Base.{
  ℕ, ◌+◌, ◌-◌, ◌≤◌, ◌≡◌, refl, ◌∙◌, ◌++◌, Bool, true, false, ◌&&◌, ◌||◌, Bytes, some, ltb,
  if◌then◌else◌, length, drop, arith, bit_and, min,
}
use native.Mathlib.Nat.{add-zero}
use mathlib.Core.Bool.{true≢false}
use btrm.Base.Slices.{slice}
use btrm.Base.Holds.{Holds, Holds-left, Holds-le, u16_at-Holds}
use btrm.Base.Words.{u16_at, u16_to_le, IsU16}
use btrm.Base.Utf8.{from_utf8_lossy}
use btrm.Frame.{FrameState, resize, set_title}
use btrm.Terminal.Ops.Keeps.{Keeps-refl, KeepsCells, apply_overflow_strings-KeepsCells}
use btrm.Terminal.Payload.{
  ops_present, strings_present, line_flags_present, title_present, title_len_mask, has, ne,
  ops_loop, apply_ops_payload, apply_content, apply_strings, apply_line_flags, apply_scrollback,
  apply_body, apply_payload,
}
use btrm.Terminal.Payload.Runs.{Runs}

-- The operations behind their number.
pub apply_ops_payload-Runs :
    (n : ℕ) (ops payload : Bytes) (f g : FrameState) (off : ℕ)
    → IsU16 n
    → Holds payload 0 (u16_to_le n ++ ops)
    → Runs n payload 2 f g off
    → (c : Bool) × (apply_ops_payload f payload ≡ (g, some (c, off)))
unfolding apply_ops_payload ops_loop
apply_ops_payload-Runs n ops payload f g off fit h r =
    let (c, e) = r.runs 0 false in
    let count = u16_at-Holds n fit (Holds-left (u16_to_le n) ops h) in
    let le = Holds-le (u16_to_le n) (Holds-left (u16_to_le n) ops h) in
    let long : ltb (length payload) 2 ≡ false = ground (arith, le) in
    (c, rw (count, long) (rw add-zero at e))

-- The operations stand in the payload behind the title.
pub apply_content-ops :
    (f g : FrameState) (payload : Bytes) (title_end off : ℕ) (c : Bool)
    → apply_ops_payload f (drop title_end payload) ≡ (g, some (c, off))
    → (apply_content f payload title_end true).0 ≡ g
unfolding apply_content
apply_content-ops f g payload title_end off c e = rw e

apply_strings-KeepsCells :
    (f : FrameState) (payload : Bytes) (off : ℕ) (strings : Bool)
    → KeepsCells f (apply_strings f payload off strings).0
unfolding apply_strings
apply_strings-KeepsCells f payload off true = apply_overflow_strings-KeepsCells f (drop off payload)
apply_strings-KeepsCells f payload off false = record { keeps = Keeps-refl f; cells_kept = refl }

-- What an update has set: all but its strings, its flags and its scrollback.
pub record Shows (content : FrameState) (row col mode : ℕ) (g : FrameState) : Type 0 where
  pub rows_shown : g.rows ≡ content.rows
  pub cols_shown : g.cols ≡ content.cols
  pub cells_shown : g.cells ≡ content.cells
  pub title_shown : g.title ≡ content.title
  pub row_shown : g.cursor_row ≡ min row (content.rows - 1)
  pub col_shown : g.cursor_col ≡ min col (content.cols - 1)
  pub mode_shown : g.mode ≡ mode

-- The line flags and the scrollback change nothing of it.
flags_and_scrollback :
    (f : FrameState) (payload : Bytes) (off new_rows off' row col mode : ℕ) (b : Bool)
    → (let g = apply_scrollback (apply_line_flags f payload off new_rows b).0 payload off' in
        Shows f row col mode (record g {
          cursor_row = min row (g.rows - 1);
          cursor_col = min col (g.cols - 1);
          mode = mode;
        }))
unfolding apply_line_flags apply_scrollback
flags_and_scrollback f payload off new_rows off' row col mode b = ground arith

pub apply_body-Shows :
    (f : FrameState) (payload : Bytes) (title_end : ℕ) (changed : Bool)
    → Shows
        (apply_content f payload title_end (has (u16_at payload 10) ops_present)).0
        (u16_at payload 4)
        (u16_at payload 6)
        (u16_at payload 8)
        (apply_body f payload title_end changed).0
unfolding apply_body
apply_body-Shows f payload title_end changed =
    let content = apply_content f payload title_end (has (u16_at payload 10) ops_present) in
    let strings =
      apply_strings content.0 payload content.2 (has (u16_at payload 10) strings_present) in
    let k =
      apply_strings-KeepsCells content.0 payload content.2
        (has (u16_at payload 10) strings_present) in
    let flags =
      apply_line_flags strings.0 payload strings.1 (u16_at payload 0)
        (has (u16_at payload 10) line_flags_present) in
    let s =
      flags_and_scrollback strings.0 payload strings.1 (u16_at payload 0) flags.2 (u16_at payload 4)
        (u16_at payload 6) (u16_at payload 8) (has (u16_at payload 10) line_flags_present) in
    record {
      rows_shown = s.rows_shown ∙ k.keeps.rows_kept;
      cols_shown = s.cols_shown ∙ k.keeps.cols_kept;
      cells_shown = s.cells_shown ∙ k.cells_kept;
      title_shown = s.title_shown ∙ k.keeps.title_kept;
      row_shown = rw s.row_shown (rw k.keeps.rows_kept);
      col_shown = rw s.col_shown (rw k.keeps.cols_kept);
      mode_shown = s.mode_shown;
    }

-- The title and the size that the fields in front ask for.
abbrev pub titled : FrameState → Bytes → ℕ → Bool → FrameState × Bool
titled f payload len b =
    if b then set_title f (from_utf8_lossy (slice payload 12 len)) else (f, false)

abbrev pub resized : FrameState → ℕ → ℕ → FrameState → FrameState
resized f rows cols g = if ne rows f.rows || ne cols f.cols then resize g rows cols else g

long_enough :
    (a b c d : Bool) (w x y z : FrameState × Bool)
    → a ≡ false
    → b ≡ false
    → d ≡ false
    → (if a then w else if b then x else if c && d then y else z) ≡ z
long_enough false false true false w x y z p q r = refl
long_enough false false false d w x y z p q r = refl
long_enough false false true true w x y z p q r = absurd (true≢false r)
long_enough false true c d w x y z p q r = absurd (true≢false q)
long_enough true b c d w x y z p q r = absurd (true≢false p)

-- A payload that is long enough is applied whole.
pub apply_payload-body :
    (f : FrameState) (payload : Bytes)
    → (let len = bit_and (u16_at payload 10) title_len_mask in
        let t = titled f payload len (has (u16_at payload 10) title_present) in
        12 + len + 2 ≤ length payload
        → (apply_payload f payload
            ≡ apply_body
                (resized f (u16_at payload 0) (u16_at payload 2) t.0)
                payload
                (12 + len)
                ((ne (u16_at payload 0) f.rows || ne (u16_at payload 2) f.cols) || t.1)))
unfolding apply_payload
apply_payload-body f payload le =
    let len = bit_and (u16_at payload 10) title_len_mask in
    let t = titled f payload len (has (u16_at payload 10) title_present) in
    let g = resized f (u16_at payload 0) (u16_at payload 2) t.0 in
    let l1 : ltb (length payload) 12 ≡ false = ground arith in
    let l2 : ltb (length payload) (12 + len) ≡ false = ground arith in
    let l3 : ltb (length payload) (12 + len + 2) ≡ false = ground arith in
    long_enough _ _ (has (u16_at payload 10) ops_present) _ (f, false) (f, false) (g, false) _ l1 l2
      l3
