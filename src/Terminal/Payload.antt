-- ===== src/Terminal/Payload.antt =====
-- `apply_legacy_patch_payload`, `apply_ops_payload` and `apply_payload`. An operation that fails
-- leaves the frame as the operations before it made it, so each gives the frame beside its result.
pub mod Read
pub mod Runs
pub mod Whole
pub mod Valid
use btrm.Base.{
  ℕ, zero, suc, ◌+◌, ◌-◌, ◌*◌, min, bit_and, Bool, false, not, ◌&&◌, ◌||◌, Option, none, some,
  Bytes, ltb, leb, ◌==◌, if◌then◌else◌, length, take, drop, bytes_eq,
}
use btrm.Base.Slices.{slice}
use btrm.Base.Words.{byte_at, u16_at, u32_at}
use btrm.Base.Utf8.{from_utf8_lossy}
use btrm.Cell.{cell_size}
use btrm.Frame.{FrameState, resize, set_title}
use btrm.Terminal.Ops.{
  total_cells, bitmask_len, count_bits, apply_patch_cells, apply_copy_rect, apply_fill_rect,
  apply_overflow_strings,
}

abbrev pub title_present : ℕ
title_present = 32768

abbrev pub ops_present : ℕ
ops_present = 16384

abbrev pub strings_present : ℕ
strings_present = 8192

abbrev pub line_flags_present : ℕ
line_flags_present = 4096

abbrev pub title_len_mask : ℕ
title_len_mask = 4095

abbrev pub op_copy_rect : ℕ
op_copy_rect = 1

abbrev pub op_fill_rect : ℕ
op_fill_rect = 2

abbrev pub op_patch_cells : ℕ
op_patch_cells = 3

-- The frame, whether it changed, and the number of bytes read; or the frame and a failure.
abbrev pub Applied : Type 0
Applied = FrameState × Option (Bool × ℕ)

pub apply_legacy_patch_payload : FrameState → Bytes → Applied
apply_legacy_patch_payload f payload =
    let mask = take (bitmask_len f) payload in
    let dirty_count = count_bits (total_cells f) 0 mask in
    let patch = drop (bitmask_len f) payload in
    let n = dirty_count * cell_size in
    if ltb (length payload) (bitmask_len f)
    then (f, none)
    else if ltb (length patch) n
    then (f, none)
    else (
      apply_patch_cells f mask (take n patch) dirty_count,
      some (ltb 0 dirty_count, bitmask_len f + n),
    )

-- `OP_COPY_RECT`, from the byte behind its tag on.
pub copy_op : FrameState → Bytes → ℕ → Applied
copy_op f payload off =
    let copied =
      apply_copy_rect f (u16_at payload off) (u16_at payload (off + 2)) (u16_at payload (off + 4))
        (u16_at payload (off + 6)) (u16_at payload (off + 8)) (u16_at payload (off + 10)) in
    if ltb (length payload) (off + 12) then (f, none) else (copied.0, some (copied.1, off + 12))

-- `OP_FILL_RECT`
pub fill_op : FrameState → Bytes → ℕ → Applied
fill_op f payload off =
    let filled =
      apply_fill_rect f (u16_at payload off) (u16_at payload (off + 2)) (u16_at payload (off + 4))
        (u16_at payload (off + 6)) (slice payload (off + 8) cell_size) in
    if ltb (length payload) (off + 8 + cell_size)
    then (f, none)
    else (filled.0, some (filled.1, off + 8 + cell_size))

-- `OP_PATCH_CELLS`
pub patch_op : FrameState → Bytes → ℕ → Applied
patch_op f payload off =
    let mask = slice payload off (bitmask_len f) in
    let body = off + bitmask_len f in
    let dirty_count = count_bits (total_cells f) 0 mask in
    let n = dirty_count * cell_size in
    if ltb (length payload) (off + bitmask_len f)
    then (f, none)
    else if ltb (length payload) (body + n)
    then (f, none)
    else (
      apply_patch_cells f mask (slice payload body n) dirty_count,
      some (ltb 0 dirty_count, body + n),
    )

pub apply_op : FrameState → Bytes → ℕ → Applied
apply_op f payload off =
    let op = byte_at payload off in
    if leb (length payload) off
    then (f, none)
    else if op == op_copy_rect
    then copy_op f payload (off + 1)
    else if op == op_fill_rect
    then fill_op f payload (off + 1)
    else if op == op_patch_cells
    then patch_op f payload (off + 1)
    else (f, none)

-- `for _ in 0..op_count`, with the flag and the offset so far.
pub ops_loop : ℕ → Bytes → Bool → ℕ → FrameState → Applied
ops_loop zero payload changed off f = (f, some (changed, off))
ops_loop (suc count) payload changed off f =
    let applied = apply_op f payload off in
    elim applied.1 [
      | none ↦ (applied.0, none)
      | some (here, next) ↦ ops_loop count payload (changed || here) next applied.0
    ]

pub apply_ops_payload : FrameState → Bytes → Applied
apply_ops_payload f payload =
    if ltb (length payload) 2 then (f, none) else ops_loop (u16_at payload 0) payload false 2 f

-- `.unwrap_or((false, 0))`
abbrev or_nothing : Option (Bool × ℕ) → Bool × ℕ
or_nothing none = (false, 0)
or_nothing (some r) = r

-- `field & bit != 0`
abbrev pub has : ℕ → ℕ → Bool
has field bit = not (bit_and field bit == 0)

-- The cells of an update: the operations, or one patch in the older format.
pub apply_content : FrameState → Bytes → ℕ → Bool → FrameState × Bool × ℕ
apply_content f payload title_end ops =
    let applied =
      if ops
      then apply_ops_payload f (drop title_end payload)
      else apply_legacy_patch_payload f (drop title_end payload) in
    let r = or_nothing applied.1 in (applied.0, r.0, title_end + r.1)

-- The frame, and the offset behind the overflow strings.
pub apply_strings : FrameState → Bytes → ℕ → Bool → FrameState × ℕ
apply_strings f payload ops_end strings =
    let applied = apply_overflow_strings f (drop ops_end payload) in
    if strings then (applied.0, ops_end + applied.1) else (f, ops_end)

-- The frame, whether its line flags changed, and the offset behind them.
pub apply_line_flags : FrameState → Bytes → ℕ → ℕ → Bool → FrameState × Bool × ℕ
apply_line_flags f payload lf_start new_rows line_flags =
    let lf_end = lf_start + new_rows in
    let new_flags = slice payload lf_start new_rows in
    if line_flags && leb lf_end (length payload)
    then (record f { line_flags = new_flags }, not (bytes_eq f.line_flags new_flags), lf_end)
    else (f, false, lf_start)

pub apply_scrollback : FrameState → Bytes → ℕ → FrameState
apply_scrollback f payload off =
    if leb (off + 4) (length payload) then record f { scrollback_lines = u32_at payload off } else f

abbrev pub ne : ℕ → ℕ → Bool
ne a b = not (a == b)

-- What stands behind the title: content, strings, flags, scrollback, cursor and mode. `f` has its
-- new title and size, and `changed` says whether these changed it.
pub apply_body : FrameState → Bytes → ℕ → Bool → FrameState × Bool
unfolding apply_content apply_strings apply_line_flags apply_scrollback
apply_body f payload title_end changed =
    let field = u16_at payload 10 in
    let row = u16_at payload 4 in
    let col = u16_at payload 6 in
    let mode = u16_at payload 8 in
    let content = apply_content f payload title_end (has field ops_present) in
    let strings = apply_strings content.0 payload content.2 (has field strings_present) in
    let flags =
      apply_line_flags strings.0 payload strings.1 (u16_at payload 0)
        (has field line_flags_present) in
    let g = apply_scrollback flags.0 payload flags.2 in
    (
      record g {
        cursor_row = min row (g.rows - 1);
        cursor_col = min col (g.cols - 1);
        mode = mode;
      },
      changed
          || content.1
          || flags.1
          || ne row f.cursor_row
          || ne col f.cursor_col
          || ne mode f.mode,
    )

pub apply_payload : FrameState → Bytes → FrameState × Bool
unfolding apply_body
apply_payload f payload =
    let new_rows = u16_at payload 0 in
    let new_cols = u16_at payload 2 in
    let field = u16_at payload 10 in
    let title_end = 12 + bit_and field title_len_mask in
    let titled =
      if has field title_present
      then set_title f (from_utf8_lossy (slice payload 12 (bit_and field title_len_mask)))
      else (f, false) in
    let resized = ne new_rows f.rows || ne new_cols f.cols in
    let g = if resized then resize titled.0 new_rows new_cols else titled.0 in
    if ltb (length payload) 12
    then (f, false)
    else if ltb (length payload) title_end
    then (f, false)
    else if has field ops_present && ltb (length payload) (title_end + 2)
    then (g, false)
    else apply_body g payload title_end (resized || titled.1)
