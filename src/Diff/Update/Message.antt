-- ===== src/Diff/Update/Message.antt =====
-- The whole way of an update: `build_update_msg`, `parse_server_msg` and `feed_compressed`.
use btrm.Base.{
  ℕ, ◌≤◌, ◌≡◌, refl, ap, ◌∙◌, ◌∷◌, ◌++◌, Bool, true, false, Bytes, Option, some, none,
  if◌then◌else◌, length, arith, bytes_eq_iff,
}
use mathlib.Core.Option.{some-injective}
use btrm.Base.Holds.{Holds-all}
use btrm.Base.Words.{u16_to_le, IsU16}
use btrm.Base.Utf8.{is_utf8}
use btrm.Frame.{FrameState}
use btrm.Frame.Valid.{IsValid, CursorInside}
use btrm.Terminal.Payload.{title_len_mask, apply_payload}
use btrm.Terminal.Payload.Runs.{Runs-zero}
use btrm.Terminal.Feed.{feed_compressed}
use btrm.Wire.{s2c_update, update}
use btrm.Wire.Parse.{parse_server_msg}
use btrm.Wire.Parse.Messages.{parse_server_msg-update}
use btrm.Diff.Scroll.Agree.{SameCells}
use btrm.Diff.Update.{
  is_same_size, basis_of, build_ops, build_payload, is_unchanged, is_title_changed,
  build_update_msg,
}
use btrm.Diff.Update.Ops.{IsWire, build_ops-Makes}
use btrm.Diff.Update.RoundTrip.{ShowsFrame, apply_payload-build_payload}

if_none : {A : Type 0} (b : Bool) (m x : A) → (if b then none else some m) ≡ some x → m ≡ x
if_none true m x e = cc
if_none false m x e = some-injective m x e

module _ (compress : Bytes → Bytes) (decompress : Bytes → Option Bytes)
    (decompress-compress : (p : Bytes) → decompress (compress p) ≡ some p) where
  feed_compress :
      (f : FrameState) (p : Bytes) → feed_compressed decompress f (compress p) ≡ apply_payload f p
  unfolding feed_compressed
  feed_compress f p = rw (decompress-compress p, feed_compressed) refl

  -- Where the sender builds a message, the receiver's parser reads it as an update of that PTY, and
  -- a receiver that shows the size, the cells and the title of the previous frame shows the current
  -- one after it is fed the update: its size, cells, title, cursor and mode. The decompression
  -- undoes the compression, both frames are valid, the number of the PTY and the fields of the
  -- current frame fit their words, its cursor is inside, and its title is UTF-8 of at most 4095
  -- bytes.
  pub feed_compressed-build_update_msg :
      (id : ℕ) (current previous f : FrameState) (msg : Bytes)
      → IsU16 id
      → IsValid current
      → IsValid previous
      → IsWire current
      → CursorInside current
      → length current.title ≤ title_len_mask
      → is_utf8 current.title ≡ true
      → SameCells f previous
      → f.title ≡ previous.title
      → build_update_msg compress id current previous ≡ some msg
      → (payload : Bytes) × (parse_server_msg msg ≡ some (update id payload))
        × ShowsFrame current (feed_compressed decompress f payload).0
  unfolding build_update_msg
  feed_compressed-build_update_msg id current previous f msg fit vc vp wire inside short valid_title
        s same_title built =
      let ops = build_ops current previous in
      let p = compress (build_payload current previous ops) in
      let is_msg : s2c_update ∷ (u16_to_le id ++ p) ≡ msg =
        if_none (is_unchanged current previous ops) _ msg built in
      (
        p,
        rw (← is_msg) (parse_server_msg-update id fit p),
        rw feed_compress (
            apply_payload-build_payload current previous f vc vp wire inside short valid_title s
              same_title),
      )

if_some : {A : Type 0} (b : Bool) (m : A) → (if b then none else some m) ≡ none → b ≡ true
if_some true m e = refl
if_some false m e = cc

no_ops :
    (current previous : FrameState)
    → IsValid current
    → IsValid previous
    → IsWire current
    → is_same_size current previous ≡ true
    → (build_ops current previous).1 ≡ 0
    → previous.cells ≡ current.cells
unfolding basis_of
no_ops current previous vc vp wire same none_left =
    let m = build_ops-Makes current previous vc vp wire in
    let basis : SameCells previous (basis_of current previous) =
      rw same (record { same_rows = refl; same_cols = refl; same_cells = refl }) in
    let (g, r, cells) = m.makes (build_ops current previous).0 0 previous (Holds-all _) basis in
    let same_frame = Runs-zero _ 0 _ previous g (rw none_left at r) in
    ap (λ (f : FrameState). f.cells) same_frame ∙ cells

-- Where no message is built for frames of the same size, the previous frame already shows the
-- current one: its cells, title, cursor and mode are the same. Both frames are valid, and the
-- fields of the current one fit their words.
pub build_update_msg-none :
    (compress : Bytes → Bytes) (id : ℕ) (current previous : FrameState)
    → IsValid current
    → IsValid previous
    → IsWire current
    → is_same_size current previous ≡ true
    → build_update_msg compress id current previous ≡ none
    → ShowsFrame current previous
unfolding build_update_msg is_unchanged is_title_changed is_same_size
build_update_msg-none compress id current previous vc vp wire same unsent =
    let ops = build_ops current previous in
    let still = if_some (is_unchanged current previous ops) _ unsent in
    let cells = λ (e : ops.1 ≡ 0). no_ops current previous vc vp wire same e in
    let titles = (bytes_eq_iff current.title previous.title).0 in
    record {
      same_rows = ground arith;
      same_cols = ground arith;
      same_cells = cells (ground arith);
      same_title = ground (arith, titles);
      same_cursor_row = ground arith;
      same_cursor_col = ground arith;
      same_mode = ground arith;
    }
