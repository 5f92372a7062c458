-- ===== src/Diff/Update/Parts.antt =====
-- The parts of the payload that `build_update_msg` builds, and what a receiver reads of its header.
use mathlib.Core.Path.{subst}
use btrm.Base.{
  ℕ, ◌+◌, ◌<◌, ◌≡◌, refl, [], ◌++◌, Bool, true, false, not, ◌&&◌, Bytes, ltb, ◌==◌, if◌then◌else◌,
  length, drop, take, arith, bit_and, ltb→lt,
}
use btrm.Base.Bits.{every_below, every_below_at, same, same-eq}
use btrm.Base.Holds.{Holds, Holds-all, Holds-left, Holds-right, Holds-drop, u16_at-Holds}
use btrm.Base.Words.{u16_at, u16_to_le, u32_to_le, IsU16}
use btrm.Frame.{FrameState}
use btrm.Terminal.Payload.{ops_present, title_present, title_len_mask, has}
use btrm.Diff.Update.{
  Ops, is_empty_map, is_title_changed, has_line_flags, title_len, title_field_of,
  serialize_overflow_strings, build_payload,
}
use btrm.Diff.Update.Ops.{IsWire}

abbrev title_field_test : Bool → Bool → Bool → ℕ → Bool
title_field_test strings flags title len =
    let field = title_field_of strings flags title len in
    ltb field 65536
    && has field ops_present
    && same (has field title_present) title
    && (bit_and field title_len_mask == (if title then len else 0))

abbrev all_tests : ℕ → Bool
all_tests len =
    title_field_test true true true len
    && title_field_test true true false len
    && title_field_test true false true len
    && title_field_test true false false len
    && title_field_test false true true len
    && title_field_test false true false len
    && title_field_test false false true len
    && title_field_test false false false len

title_field_table : every_below 4096 all_tests ≡ true
unfolding every_below title_field_of same
title_field_table = refl

title_field_passes :
    (strings flags title : Bool) (len : ℕ)
    → len < 4096
    → title_field_test strings flags title len ≡ true
title_field_passes strings flags title len h =
    pick strings flags title (every_below_at 4096 all_tests len title_field_table h)
  where
    pick :
        (strings flags title : Bool)
        → all_tests len ≡ true
        → title_field_test strings flags title len ≡ true
    pick true true true e = ground arith
    pick true true false e = ground arith
    pick true false true e = ground arith
    pick true false false e = ground arith
    pick false true true e = ground arith
    pick false true false e = ground arith
    pick false false true e = ground arith
    pick false false false e = ground arith

-- What a receiver reads of the title field.
pub record Field (title : Bool) (len field : ℕ) : Type 0 where
  pub fits : IsU16 field
  pub is_ops : has field ops_present ≡ true
  pub is_title : has field title_present ≡ title
  pub len_read : bit_and field title_len_mask ≡ (if title then len else 0)

pub title_field_of-Field :
    (strings flags title : Bool) (len : ℕ)
    → len < 4096
    → Field title len (title_field_of strings flags title len)
title_field_of-Field strings flags title len h =
    let field = title_field_of strings flags title len in
    let (a, b, c, d) =
      split (ltb field 65536) (has field ops_present) (same (has field title_present) title) _
        (title_field_passes strings flags title len h) in
    record {
      fits = ltb→lt field 65536 a;
      is_ops = b;
      is_title = same-eq _ _ c;
      len_read = ground (arith, d);
    }
  where
    split :
        (a b c d : Bool)
        → (a && b && c && d) ≡ true
        → (a ≡ true) × (b ≡ true) × (c ≡ true) × (d ≡ true)
    split a b c d e = ground arith

-- The parts of the payload.
module _ (current previous : FrameState) (ops : Ops) where
  abbrev pub title_changed : Bool
  title_changed = is_title_changed current previous

  abbrev pub field : ℕ
  field =
      title_field_of (not (is_empty_map current.overflow)) (has_line_flags current previous)
        title_changed (title_len current)

  abbrev pub sent_title : Bytes
  sent_title = if title_changed then take (title_len current) current.title else []

  abbrev pub tail : Bytes
  tail =
      (if not (is_empty_map current.overflow) then serialize_overflow_strings current else [])
      ++ ((if has_line_flags current previous then current.line_flags else [])
          ++ u32_to_le current.scrollback_lines)

  abbrev pub content : Bytes
  content = u16_to_le ops.1 ++ (ops.0 ++ tail)

  abbrev pub payload : Bytes
  payload = build_payload current previous ops

  payload_lem :
      payload
      ≡ u16_to_le current.rows
        ++ (u16_to_le current.cols
            ++ (u16_to_le current.cursor_row
                ++ (u16_to_le current.cursor_col
                    ++ (u16_to_le current.mode ++ (u16_to_le field ++ (sent_title ++ content))))))
  unfolding build_payload
  payload_lem = refl

  pub record Header : Type 0 where
    pub rows_read : u16_at payload 0 ≡ current.rows
    pub cols_read : u16_at payload 2 ≡ current.cols
    pub row_read : u16_at payload 4 ≡ current.cursor_row
    pub col_read : u16_at payload 6 ≡ current.cursor_col
    pub mode_read : u16_at payload 8 ≡ current.mode
    pub field_read : u16_at payload 10 ≡ field
    pub rest_held : Holds payload 12 (sent_title ++ content)

  pub payload-Header : IsWire current → IsU16 field → Header
  payload-Header w fit =
      let h0 : Holds payload 0 (
          u16_to_le current.rows
          ++ (u16_to_le current.cols
              ++ (u16_to_le current.cursor_row
                  ++ (u16_to_le current.cursor_col
                      ++ (u16_to_le current.mode
                          ++ (u16_to_le field ++ (sent_title ++ content))))))) =
        subst (λ (p : Bytes). Holds payload 0 p) payload_lem (Holds-all payload) in
      let h2 = Holds-right (u16_to_le current.rows) _ h0 in
      let h4 = Holds-right (u16_to_le current.cols) _ h2 in
      let h6 = Holds-right (u16_to_le current.cursor_row) _ h4 in
      let h8 = Holds-right (u16_to_le current.cursor_col) _ h6 in
      let h10 = Holds-right (u16_to_le current.mode) _ h8 in
      record {
        rows_read = u16_at-Holds current.rows w.rows_fit (Holds-left (u16_to_le current.rows) _ h0);
        cols_read = u16_at-Holds current.cols w.cols_fit (Holds-left (u16_to_le current.cols) _ h2);
        row_read =
            u16_at-Holds current.cursor_row w.cursor_row_fit
              (Holds-left (u16_to_le current.cursor_row) _ h4);
        col_read =
            u16_at-Holds current.cursor_col w.cursor_col_fit
              (Holds-left (u16_to_le current.cursor_col) _ h6);
        mode_read = u16_at-Holds current.mode w.mode_fit (Holds-left (u16_to_le current.mode) _ h8);
        field_read = u16_at-Holds field fit (Holds-left (u16_to_le field) _ h10);
        rest_held = Holds-right (u16_to_le field) _ h10;
      }

  -- What stands behind the title is the content.
  pub dropped_held : Holds (drop (12 + length sent_title) payload) 0 content
  dropped_held =
      Holds-drop
        (u16_to_le current.rows
          ++ (u16_to_le current.cols
              ++ (u16_to_le current.cursor_row
                  ++ (u16_to_le current.cursor_col
                      ++ (u16_to_le current.mode ++ (u16_to_le field ++ sent_title))))))
        content (12 + length sent_title) payload_lem (omega arith) (Holds-all content)
