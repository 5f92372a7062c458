-- ===== src/Diff/Update.antt =====
-- `mode_is_cooked`, `serialize_overflow_strings` and `build_update_msg` of
-- crates/remote/src/lib.rs. The compression of the crate `lz4_flex` is a parameter.
pub mod Ops
pub mod Parts
pub mod RoundTrip
pub mod Message
use btrm.Base.{
  ℕ, ◌+◌, ◌%◌, min, bit_or, [], ◌∷◌, ◌++◌, Bool, true, false, not, ◌&&◌, ◌||◌, Option, none, some,
  Bytes, ◌==◌, if◌then◌else◌, length, take, bytes_eq, u16_max,
}
use btrm.Base.Words.{u16_to_le, u32_to_le}
use btrm.Base.Maps.{Map}
use btrm.Frame.{FrameState, new}
use btrm.Terminal.Payload.{
  title_present, ops_present, strings_present, line_flags_present, title_len_mask, has,
}
use btrm.Wire.{s2c_update}
use btrm.Diff.Patch.{build_patch_op}
use btrm.Diff.Scroll.{
  Shift, detect_vertical_scroll, encode_copy_rect_op, apply_vertical_scroll_copy,
}
use btrm.Diff.Fill.{append_full_width_fill_ops}

abbrev pub mode_echo : ℕ
mode_echo = 512

abbrev pub mode_icanon : ℕ
mode_icanon = 1024

abbrev pub mode_alt_screen : ℕ
mode_alt_screen = 2048

pub mode_is_cooked : ℕ → Bool
mode_is_cooked mode = has mode mode_echo && has mode mode_icanon && not (has mode mode_alt_screen)

-- The bytes of the operations and their number.
abbrev pub Ops : Type 0
Ops = Bytes × ℕ

pub add_patch : Option Bytes → Bytes → ℕ → Ops
add_patch none out op_count = (out, op_count)
add_patch (some patch) out op_count = (out ++ patch, (op_count + 1) % 65536)

-- A copy of the rows that moved, fills, and a patch for what is still different.
pub scroll_ops : FrameState → FrameState → Shift → Ops
unfolding add_patch
scroll_ops current previous delta =
    let filled = append_full_width_fill_ops current (record {
      basis = apply_vertical_scroll_copy previous delta;
      out = encode_copy_rect_op current delta;
      op_count = 1;
    }) in
    add_patch (build_patch_op current filled.basis) filled.out filled.op_count

unfoldable pub is_same_size : FrameState → FrameState → Bool
is_same_size current previous =
    previous.rows == current.rows
    && previous.cols == current.cols
    && length previous.cells == length current.cells

pub is_scroll_eligible : FrameState → FrameState → Bool
unfolding mode_is_cooked
is_scroll_eligible current previous =
    mode_is_cooked current.mode && mode_is_cooked previous.mode
    || current.mode == 0
    || previous.mode == 0

pub ops_for : FrameState → FrameState → Option Shift → Ops
unfolding scroll_ops
ops_for current previous none = ([], 0)
ops_for current previous (some delta) = scroll_ops current previous delta

pub may_scroll : FrameState → FrameState → Bool
unfolding is_same_size is_scroll_eligible
may_scroll current previous =
    is_same_size current previous
    && not (bytes_eq previous.cells current.cells)
    && is_scroll_eligible current previous

-- `ENABLE_SCROLL_OPS` is true.
pub try_scroll_ops : FrameState → FrameState → Ops
unfolding ops_for may_scroll
try_scroll_ops current previous =
    if may_scroll current previous
    then ops_for current previous (detect_vertical_scroll current previous)
    else ([], 0)

pub basis_of : FrameState → FrameState → FrameState
unfolding is_same_size
basis_of current previous =
    if is_same_size current previous then previous else new current.rows current.cols

abbrev pub or_patch : Ops → Option Bytes → Ops
or_patch scrolled none = scrolled
or_patch scrolled (some patch) = (patch, 1)

abbrev pub choose_ops : Ops → Option Bytes → Ops
choose_ops scrolled patch = if scrolled.1 == 0 then or_patch scrolled patch else scrolled

-- Without a scroll, one patch against the previous frame, or a blank one of another size.
pub build_ops : FrameState → FrameState → Ops
unfolding try_scroll_ops basis_of
build_ops current previous =
    choose_ops (try_scroll_ops current previous)
      (build_patch_op current (basis_of current previous))

abbrev pub cell_idx_mod : ℕ
cell_idx_mod = 4294967296

pub string_entries : Map → Bytes
string_entries [] = []
string_entries ((cell_idx, s) ∷ m) =
    let len = min (length s) u16_max in
    u32_to_le (cell_idx % cell_idx_mod) ++ (u16_to_le len ++ (take len s ++ string_entries m))

-- `[u16 count]`, and for each string its cell, its length and its bytes.
pub serialize_overflow_strings : FrameState → Bytes
unfolding string_entries
serialize_overflow_strings f =
    let count = min (length f.overflow) u16_max in
    u16_to_le count ++ string_entries (take count f.overflow)

abbrev pub is_empty_map : Map → Bool
is_empty_map [] = true
is_empty_map (x ∷ m) = false

pub all_zero : Bytes → Bool
all_zero [] = true
all_zero (b ∷ bs) = b == 0 && all_zero bs

pub is_title_changed : FrameState → FrameState → Bool
is_title_changed current previous = not (bytes_eq current.title previous.title)

-- Flags that are all zero are not sent.
pub has_line_flags : FrameState → FrameState → Bool
unfolding all_zero
has_line_flags current previous =
    (not (bytes_eq current.line_flags previous.line_flags) || not (current.rows == previous.rows))
    && not (all_zero current.line_flags)

abbrev pub title_len : FrameState → ℕ
title_len f = min (length f.title) title_len_mask

pub title_field_of : Bool → Bool → Bool → ℕ → ℕ
title_field_of has_overflow line_flags title_changed len =
    bit_or
      (bit_or (bit_or ops_present (if has_overflow then strings_present else 0))
        (if line_flags then line_flags_present else 0))
      (if title_changed then bit_or title_present len else 0)

-- The payload before compression, around the operations.
pub build_payload : FrameState → FrameState → Ops → Bytes
unfolding title_field_of is_title_changed has_line_flags serialize_overflow_strings
build_payload current previous ops =
    let title_changed = is_title_changed current previous in
    let has_overflow = not (is_empty_map current.overflow) in
    let line_flags = has_line_flags current previous in
    u16_to_le current.rows
    ++ (u16_to_le current.cols
        ++ (u16_to_le current.cursor_row
            ++ (u16_to_le current.cursor_col
                ++ (u16_to_le current.mode
                    ++ (u16_to_le
                          (title_field_of has_overflow line_flags title_changed (title_len current))
                        ++ ((if title_changed then take (title_len current) current.title else [])
                            ++ (u16_to_le ops.1
                                ++ (ops.0
                                    ++ ((if has_overflow
                                          then serialize_overflow_strings current
                                          else [])
                                        ++ ((if line_flags then current.line_flags else [])
                                            ++ u32_to_le current.scrollback_lines))))))))))

-- Nothing is sent where neither a cell nor the title, the cursor or the mode changed.
pub is_unchanged : FrameState → FrameState → Ops → Bool
unfolding is_title_changed
is_unchanged current previous ops =
    ops.1 == 0
    && not (is_title_changed current previous)
    && current.cursor_row == previous.cursor_row
    && current.cursor_col == previous.cursor_col
    && current.mode == previous.mode

module _ (compress : Bytes → Bytes) where
  unfoldable pub build_update_msg : ℕ → FrameState → FrameState → Option Bytes
  unfolding build_ops is_unchanged build_payload
  build_update_msg pty_id current previous =
      let ops = build_ops current previous in
      if is_unchanged current previous ops
      then none
      else some (s2c_update ∷ (u16_to_le pty_id ++ compress (build_payload current previous ops)))
