-- ===== src/Terminal/Feed.antt =====
-- `feed_compressed` and `feed_compressed_batch`. The decompression of the crate `lz4_flex` is a
-- parameter.
pub mod Batch
use btrm.Base.{
  ℕ, zero, suc, ◌+◌, ◌%◌, Bool, false, ◌||◌, Option, none, some, Bytes, leb, ltb, if◌then◌else◌,
  length,
}
use btrm.Base.Slices.{slice}
use btrm.Base.Words.{u32_at}
use btrm.Frame.{FrameState}
use btrm.Terminal.Payload.{apply_payload}

module _ (decompress : Bytes → Option Bytes) where
  unfoldable pub feed_compressed : FrameState → Bytes → FrameState × Bool
  feed_compressed f update = elim (decompress update) [
    | none ↦ (f, false)
    | some payload ↦ apply_payload f payload
  ]

  -- `while off + 4 <= batch.len()`: each round reads four bytes at least, so a round for each byte
  -- is enough. The sum of the length and its place wraps, as a `usize` of 32 bits does (the one
  -- caller is the browser's module, for wasm32); where it does, the slice ends before it begins,
  -- which panics: `none`.
  pub batch_loop : ℕ → Bytes → ℕ → FrameState → Bool → Option (FrameState × Bool)
  batch_loop zero batch off f changed = some (f, changed)
  batch_loop (suc fuel) batch off f changed =
      let len = u32_at batch off in
      let body = off + 4 in
      let end = (body + len) % 4294967296 in
      let fed = feed_compressed f (slice batch body len) in
      let rest = batch_loop fuel batch end fed.0 (changed || fed.1) in
      if leb (off + 4) (length batch)
      then (if ltb (length batch) end
          then some (f, changed)
          else if ltb end body
          then none
          else rest)
      else some (f, changed)

  pub feed_compressed_batch : FrameState → Bytes → Option (FrameState × Bool)
  feed_compressed_batch f batch = batch_loop (length batch) batch 0 f false
