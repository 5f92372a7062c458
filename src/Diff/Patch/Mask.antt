-- ===== src/Diff/Patch/Mask.antt =====
-- The bitmask that `build_patch_op` computes: bit `i` is set exactly when cell `i` differs, and the
-- counter is the number of bits that the receiver counts.
use btrm.Base.{
  ℕ, zero, suc, ◌+◌, ◌*◌, ◌≤◌, ◌<◌, ◌≡◌, refl, sym, ◌∙◌, ◌&&◌, ◌||◌, Bytes, ltb, leb, if◌then◌else◌,
  length, replicate, length-replicate, arith, Bool-cases, inl, inr,
}
use btrm.Base.Bits.{
  test_bit, set_bit, AreBytes, length-set_bit, set_bit-AreBytes, test_bit-set_bit,
  test_bit-replicate, replicate-AreBytes,
}
use native.Mathlib.Nat.{zero-add}
use btrm.Frame.{FrameState}
use btrm.Terminal.Ops.{total_cells, bitmask_len, count_bits}
use btrm.Terminal.Ops.Count.{count_true, count_true_ext, count_bits-count_true}
use btrm.Diff.Patch.{is_dirty, mask_loop, dirty_mask}

module _ (current previous : Bytes) where
  -- What the loop from cell `i` on makes of a mask and a count.
  record Marks (k i : ℕ) (mask : Bytes) (count : ℕ) (found : Bytes × ℕ) : Type 0 where
    same_length : length found.0 ≡ length mask
    bytes : AreBytes found.0
    marked :
        (j : ℕ)
        → test_bit found.0 j ≡ (
            if leb i j && ltb j (i + k)
            then is_dirty current previous j || test_bit mask j
            else test_bit mask j)
    counted : found.1 ≡ count + count_true k i (is_dirty current previous)

  marked_step :
      (k i j : ℕ) (mask : Bytes) (found : Bytes)
      → AreBytes mask
      → i < 8 * length mask
      → test_bit found j ≡ (
          if leb (i + 1) j && ltb j (i + 1 + k)
          then is_dirty current previous j
            || test_bit (if is_dirty current previous i then set_bit mask i else mask) j
          else test_bit (if is_dirty current previous i then set_bit mask i else mask) j)
      → test_bit found j ≡ (
          if leb i j && ltb j (i + suc k)
          then is_dirty current previous j || test_bit mask j
          else test_bit mask j)
  marked_step k i j mask found b h e = elim (Bool-cases (is_dirty current previous i)) [
    | inl d ↦ ground (arith, rw d at e, test_bit-set_bit mask i j (omega arith) b)
    | inr d ↦ ground (arith, rw d at e)
  ]

  mask_loop-Marks :
      (k i : ℕ) (mask : Bytes) (count : ℕ)
      → AreBytes mask
      → i + k ≤ 8 * length mask
      → Marks k i mask count (mask_loop k i current previous mask count)
  unfolding mask_loop count_true
  mask_loop-Marks zero i mask count b h = record {
    same_length = refl;
    bytes = b;
    marked = λ j. ground arith;
    counted = omega arith;
  }
  mask_loop-Marks (suc k) i mask count b h = elim (Bool-cases (is_dirty current previous i)) [
    | inl d ↦
        let m =
          mask_loop-Marks k (i + 1) (set_bit mask i) (count + 1)
            (set_bit-AreBytes mask i (omega arith) b) (rw length-set_bit (omega arith)) in
        rw d (record {
          same_length = m.same_length ∙ length-set_bit mask i;
          bytes = m.bytes;
          marked = λ j. marked_step k i j mask _ b (omega arith) (rw d (m.marked j));
          counted = rw d (omega (arith, m.counted));
        })
    | inr d ↦
        let m = mask_loop-Marks k (i + 1) mask count b (omega arith) in
        rw d (record {
          same_length = m.same_length;
          bytes = m.bytes;
          marked = λ j. marked_step k i j mask _ b (omega arith) (rw d (m.marked j));
          counted = rw d (omega (arith, m.counted));
        })
  ]

-- The mask of two frames of one size.
module _ (current previous : FrameState) where
  dirty_mask-Marks :
      Marks current.cells previous.cells
        (total_cells current)
        0
        (replicate (bitmask_len current) 0)
        0
        (dirty_mask current previous)
  unfolding dirty_mask
  dirty_mask-Marks =
      mask_loop-Marks current.cells previous.cells (total_cells current) 0
        (replicate (bitmask_len current) 0) 0 (replicate-AreBytes (bitmask_len current))
        (omega (arith, length-replicate {A = ℕ} (bitmask_len current) 0))

  pub length-dirty_mask : length (dirty_mask current previous).0 ≡ bitmask_len current
  length-dirty_mask =
      dirty_mask-Marks.same_length ∙ length-replicate {A = ℕ} (bitmask_len current) 0

  pub test_bit-dirty_mask :
      (i : ℕ)
      → i < total_cells current
      → test_bit (dirty_mask current previous).0 i ≡ is_dirty current.cells previous.cells i
  test_bit-dirty_mask i h =
      ground (arith, dirty_mask-Marks.marked i, test_bit-replicate (bitmask_len current) i)

  pub count-dirty_mask :
      (dirty_mask current previous).1
      ≡ count_bits (total_cells current) 0 (dirty_mask current previous).0
  count-dirty_mask =
      dirty_mask-Marks.counted
      ∙ rw (count_bits-count_true, zero-add)
          (count_true_ext (total_cells current) 0 _ _
            (λ j a b. sym (test_bit-dirty_mask j (omega arith))))
