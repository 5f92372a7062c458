-- ===== src/Tests.antt =====
-- Concrete frames and messages, and each theorem at one of them.
mod Stun
mod Server
mod Delivery
mod Text
use btrm.Base.{
  ℕ, ◌+◌, ◌<◌, List, ◌∷◌, [], ◌++◌, map, Bytes, Option, some, none, ◌≡◌, refl, arith, replicate,
  true, false, length, All, if◌then◌else◌, ltb,
}
use btrm.Base.Holds.{Holds-all}
use btrm.Base.Utf8.{is_utf8}
use btrm.Base.Bits.{test_bit, set_bit, bit_on}
use btrm.Terminal.Ops.{copy_temp, paste_temp}
use btrm.Diff.Patch.{build_patch_op, mask_loop, is_dirty, column, columns}
use btrm.Diff.Scroll.{
  up, distance, detect_vertical_scroll, matched_rows, encode_copy_rect_op,
  apply_vertical_scroll_copy,
}
use btrm.Diff.Fill.{
  append_full_width_fill_ops, fill_loop, fill_round, add_fill, uniform_row_cell, all_cells, run_end,
  fill_bytes, fill_rows, fill_basis,
}
use btrm.Frame.{FrameState}
use btrm.Frame.Valid.{IsValid, CursorInside}
use btrm.Terminal.Payload.{apply_payload}
use btrm.Terminal.Payload.Runs.{Runs}
use btrm.Terminal.Payload.Valid.{apply_payload-IsValid}
use btrm.Terminal.Feed.{feed_compressed, feed_compressed_batch}
use btrm.Base.Words.{IsU32, u32_to_le}
use btrm.Terminal.Feed.Batch.{
  framed, feed_each, feed_compressed_batch-framed, feed_compressed_batch-cut,
}
use btrm.Cell.{default_style, CellStyle, rgb, indexed, encode_cell, style_at}
use btrm.Cell.RoundTrip.{style_at-encode_cell}
use btrm.Dom.{Dom, Node, empty_dom, push_node, render}
use btrm.Dom.Valid.{render-IsValid}
use btrm.Wire.{update, list, search_results, text, created_n, exited}
use btrm.Wire.Client.{msg_exited}
use btrm.Wire.Server.{
  Ptys, ids, pty_at, sort_ids, pty_list_msg, SearchResultRow, build_search_results_msg, text_msg,
  created_n_msg,
}
use btrm.Wire.Parse.Messages.{
  parse_server_msg-short, parse_server_msg-text_msg, parse_server_msg-created_n_msg,
  parse_server_msg-msg_exited,
}
use btrm.Wire.Parse.Ptys.{IsWirePty, entry_of, parse_server_msg-pty_list_msg}
use btrm.Wire.Parse.Search.{received, parse_server_msg-build_search_results_msg}
use btrm.Wire.Parse.{parse_server_msg}
use btrm.Diff.Scroll.Agree.{SameCells, detect_vertical_scroll_bounds, scroll-Runs}
use btrm.Diff.Patch.RoundTrip.{build_patch_op-Runs}
use btrm.Diff.Update.{build_update_msg, build_payload, build_ops, is_same_size}
use btrm.Diff.Update.Ops.{IsWire}
use btrm.Diff.Update.RoundTrip.{ShowsFrame, apply_payload-build_payload}
use btrm.Diff.Update.Message.{feed_compressed-build_update_msg, build_update_msg-none}

-- Four rows of one cell each.
abbrev rows_of : ℕ → ℕ → ℕ → ℕ → Bytes
rows_of a b c d = replicate 12 a ++ (replicate 12 b ++ (replicate 12 c ++ replicate 12 d))

abbrev pub shell : FrameState
shell = record {
  rows = 4;
  cols = 1;
  cells = rows_of 1 2 3 4;
  cursor_row = 3;
  cursor_col = 0;
  mode = 0;
  title = b's' ∷ b'h' ∷ [];
  overflow = [];
  line_flags = replicate 4 0;
  scrollback_lines = 0;
}

-- The same shell, one row further.
abbrev pub scrolled : FrameState
scrolled = record shell {
  cells = rows_of 2 3 4 5;
  cursor_row = 2;
  title = b'v' ∷ b'i' ∷ [];
  scrollback_lines = 1;
}

pub shell-IsValid : IsValid shell
shell-IsValid = record { cells_fill = refl; flags_fill = refl }

pub scrolled-IsValid : IsValid scrolled
scrolled-IsValid = record { cells_fill = refl; flags_fill = refl }

pub scrolled-IsWire : IsWire scrolled
scrolled-IsWire = record {
  rows_fit = omega arith;
  cols_fit = omega arith;
  cursor_row_fit = omega arith;
  cursor_col_fit = omega arith;
  mode_fit = omega arith;
  scrollback_fit = omega arith;
}

pub scrolled-CursorInside : CursorInside scrolled
scrolled-CursorInside = record { row_inside = omega arith; col_inside = omega arith }

shell-SameCells : SameCells shell shell
shell-SameCells = record { same_rows = refl; same_cols = refl; same_cells = refl }

pub title_is_utf8 : is_utf8 scrolled.title ≡ true
unfolding is_utf8
title_is_utf8 = refl

abbrev pub stored : Bytes → Bytes
stored p = p

pub sent : Bytes
unfolding build_update_msg
sent = elim (build_update_msg stored 7 scrolled shell) [ none ↦ [] | some msg ↦ msg ]

pub built : build_update_msg stored 7 scrolled shell ≡ some sent
unfolding build_update_msg detect_vertical_scroll matched_rows build_patch_op mask_loop is_dirty
    test_bit set_bit bit_on column columns encode_copy_rect_op apply_vertical_scroll_copy copy_temp
    paste_temp append_full_width_fill_ops fill_loop fill_round add_fill uniform_row_cell all_cells
    run_end fill_bytes fill_rows fill_basis sent
built = refl

pub stores : (p : Bytes) → some (stored p) ≡ some p
stores p = refl

feed_compressed-build_update_msg_example :
    (payload : Bytes) × (parse_server_msg sent ≡ some (update 7 payload))
    × ShowsFrame scrolled (feed_compressed some shell payload).0
feed_compressed-build_update_msg_example =
    feed_compressed-build_update_msg stored some stores 7 scrolled shell shell sent (omega arith)
      scrolled-IsValid shell-IsValid scrolled-IsWire scrolled-CursorInside (omega arith)
      title_is_utf8 shell-SameCells refl built

apply_payload-build_payload_example :
    ShowsFrame scrolled
      (apply_payload shell (build_payload scrolled shell (build_ops scrolled shell))).0
apply_payload-build_payload_example =
    apply_payload-build_payload scrolled shell shell scrolled-IsValid shell-IsValid scrolled-IsWire
      scrolled-CursorInside (omega arith) title_is_utf8 shell-SameCells refl

shell-IsWire : IsWire shell
shell-IsWire = record {
  rows_fit = omega arith;
  cols_fit = omega arith;
  cursor_row_fit = omega arith;
  cursor_col_fit = omega arith;
  mode_fit = omega arith;
  scrollback_fit = omega arith;
}

unsent : build_update_msg stored 7 shell shell ≡ none
unfolding build_update_msg detect_vertical_scroll matched_rows build_patch_op mask_loop is_dirty
    test_bit set_bit bit_on column columns encode_copy_rect_op apply_vertical_scroll_copy copy_temp
    paste_temp append_full_width_fill_ops fill_loop fill_round add_fill uniform_row_cell all_cells
    run_end fill_bytes fill_rows fill_basis
unsent = refl

shell_same_size : is_same_size shell shell ≡ true
unfolding is_same_size
shell_same_size = refl

build_update_msg-none_example : ShowsFrame shell shell
build_update_msg-none_example =
    build_update_msg-none stored 7 shell shell shell-IsValid shell-IsValid shell-IsWire
      shell_same_size unsent

shell-CursorInside : CursorInside shell
shell-CursorInside = record { row_inside = omega arith; col_inside = omega arith }

-- A payload for a smaller frame, cut off behind its header.
abbrev cut_payload : Bytes
cut_payload = 2 ∷ 0 ∷ 3 ∷ 0 ∷ 9 ∷ 0 ∷ 9 ∷ 0 ∷ 0 ∷ 0 ∷ 0 ∷ 0 ∷ 255 ∷ []

abbrev batch_of_one : Bytes
batch_of_one = 13 ∷ 0 ∷ 0 ∷ 0 ∷ cut_payload

apply_payload-IsValid_example :
    IsValid (apply_payload shell cut_payload).0 × CursorInside (apply_payload shell cut_payload).0
apply_payload-IsValid_example =
    apply_payload-IsValid shell cut_payload shell-IsValid shell-CursorInside

abbrev updates : List Bytes
updates = cut_payload ∷ [] ∷ cut_payload ∷ []

updates_fit : IsU32 (length (framed updates))
unfolding framed
updates_fit = omega arith

feed_compressed_batch-framed_example :
    feed_compressed_batch some shell (framed updates) ≡ some (feed_each some updates (shell, false))
feed_compressed_batch-framed_example = feed_compressed_batch-framed some updates shell updates_fit

cut_fits : IsU32 (length (framed updates ++ (u32_to_le 0xffffffff ++ 1 ∷ [])))
unfolding framed
cut_fits = omega arith

-- The greatest length, with one byte behind it.
feed_compressed_batch-cut_example :
    feed_compressed_batch some shell (framed updates ++ (u32_to_le 0xffffffff ++ 1 ∷ [])) ≡ (
      if ltb (length (framed updates) + 4 + 0xffffffff) 4294967296
      then some (feed_each some updates (shell, false))
      else none)
feed_compressed_batch-cut_example =
    feed_compressed_batch-cut some updates shell 0xffffffff (1 ∷ []) (omega arith) (omega arith)
      cut_fits

abbrev two_ptys : Ptys
two_ptys =
    (9, record { tag = b'a' ∷ []; command = none })
    ∷ (4, record { tag = b'b' ∷ b'c' ∷ []; command = some (b'l' ∷ b's' ∷ []) })
    ∷ []

two_ptys-IsWirePty : All (λ id. IsWirePty id (pty_at two_ptys id)) (ids two_ptys)
unfolding ids pty_at is_utf8
two_ptys-IsWirePty = (
  record {
    id_fits = omega arith;
    tag_fits = omega arith;
    command_fits = omega arith;
    tag_is_utf8 = refl;
    command_is_utf8 = refl;
  },
  (
    record {
      id_fits = omega arith;
      tag_fits = omega arith;
      command_fits = omega arith;
      tag_is_utf8 = refl;
      command_is_utf8 = refl;
    },
    tt,
  ),
)

parse_server_msg-pty_list_msg_example :
    parse_server_msg (pty_list_msg two_ptys)
    ≡ some (list (map (λ id. entry_of id (pty_at two_ptys id)) (sort_ids (ids two_ptys))))
parse_server_msg-pty_list_msg_example =
    parse_server_msg-pty_list_msg two_ptys (omega arith) two_ptys-IsWirePty

abbrev two_rows : List SearchResultRow
two_rows =
    record {
      pty_id = 4;
      score = 70000;
      primary_source = 1;
      matched_sources = 3;
      context = b'l' ∷ b's' ∷ [];
      scroll_offset = some 300;
    }
    ∷ record {
      pty_id = 9;
      score = 5;
      primary_source = 2;
      matched_sources = 2;
      context = [];
      scroll_offset = none;
    }
    ∷ []

parse_server_msg-build_search_results_msg_example :
    parse_server_msg (build_search_results_msg 6 two_rows)
    ≡ some (search_results 6 (map received two_rows))
parse_server_msg-build_search_results_msg_example =
    parse_server_msg-build_search_results_msg 6 two_rows (omega arith) (omega arith) (
      record { id_fits = omega arith; score_fits = omega arith },
      (record { id_fits = omega arith; score_fits = omega arith }, tt),
    )

parse_server_msg-text_msg_example :
    parse_server_msg (text_msg 3 7 100 40 (b'h' ∷ b'i' ∷ []))
    ≡ some (text 3 7 100 40 (b'h' ∷ b'i' ∷ []))
parse_server_msg-text_msg_example =
    parse_server_msg-text_msg 7 (omega arith) 3 100 40 (b'h' ∷ b'i' ∷ []) (omega arith)
      (omega arith) (omega arith) (unfold is_utf8 in refl)

parse_server_msg-created_n_msg_example :
    parse_server_msg (created_n_msg 3 7 (b'h' ∷ [])) ≡ some (created_n 3 7 (b'h' ∷ []))
parse_server_msg-created_n_msg_example =
    parse_server_msg-created_n_msg 7 (omega arith) 3 (b'h' ∷ []) (omega arith)
      (unfold is_utf8 in refl)

parse_server_msg-msg_exited_example : parse_server_msg (msg_exited 7 137) ≡ some (exited 7 137)
parse_server_msg-msg_exited_example = parse_server_msg-msg_exited 7 (omega arith) 137 (omega arith)

abbrev one_column : ℕ → Option ℕ
one_column ch = some 1

abbrev columns_of : List ℕ → ℕ
columns_of cs = length cs

abbrev ask : Dom → Dom
ask d = push_node d (Node.text 1 0 (b'o' ∷ b'k' ∷ []) default_style)

render-IsValid_example : IsValid (render one_column columns_of ask (empty_dom, shell)).1
render-IsValid_example = render-IsValid one_column columns_of ask empty_dom shell shell-IsValid

patch : Bytes
unfolding build_patch_op mask_loop is_dirty test_bit set_bit bit_on column columns
patch = elim (build_patch_op scrolled shell) [ none ↦ [] | some op ↦ op ]

patch_built : build_patch_op scrolled shell ≡ some patch
unfolding build_patch_op mask_loop is_dirty test_bit set_bit bit_on column columns patch
patch_built = refl

build_patch_op-Runs_example :
    (g : FrameState) × Runs 1 patch 0 shell g (0 + length patch) × (g.cells ≡ scrolled.cells)
build_patch_op-Runs_example =
    build_patch_op-Runs scrolled shell shell refl refl refl refl patch patch 0 patch_built
      (Holds-all patch)

scroll_found : detect_vertical_scroll scrolled shell ≡ some (up 1)
unfolding detect_vertical_scroll matched_rows
scroll_found = refl

detect_vertical_scroll_bounds_example : (0 < distance (up 1)) × (distance (up 1) < scrolled.rows)
detect_vertical_scroll_bounds_example =
    detect_vertical_scroll_bounds scrolled shell (up 1) scroll_found

scroll-Runs_example :
    (g : FrameState) × Runs 1 (encode_copy_rect_op scrolled (up 1)) 0 shell g (0 + 1 + 12)
    × (g.cells ≡ (apply_vertical_scroll_copy shell (up 1)).cells)
scroll-Runs_example =
    scroll-Runs scrolled shell shell (up 1) (encode_copy_rect_op scrolled (up 1)) 0 (omega arith)
      (omega arith) shell-SameCells refl refl (omega arith, omega arith)
      (Holds-all (encode_copy_rect_op scrolled (up 1)))

abbrev marked : CellStyle
marked = record default_style { fg = rgb 200 100 50; bg = indexed 4; bold = true; inverse = true }

style_at-encode_cell_example : style_at (encode_cell (some b'x') marked true false) 0 ≡ marked
style_at-encode_cell_example = style_at-encode_cell (some b'x') marked true false

parse_server_msg-short_example : parse_server_msg (2 ∷ 7 ∷ []) ≡ none
parse_server_msg-short_example = parse_server_msg-short 2 (7 ∷ []) (omega arith) (omega arith)
