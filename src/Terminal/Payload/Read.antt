-- ===== src/Terminal/Payload/Read.antt =====
-- An operation that stands whole in the payload is read as it was written.
use btrm.Base.{
  ℕ, ◌+◌, ◌*◌, ◌≡◌, ◌∷◌, ◌++◌, false, Bytes, some, ltb, leb, length, arith, length-append,
}
use btrm.Base.Holds.{
  Holds, Holds-left, Holds-right, Holds-tail, Holds-at, Holds-le, slice-Holds, byte_at-Holds,
  u16_at-Holds,
}
use btrm.Base.Words.{byte_at, u16_to_le, IsU16}
use btrm.Cell.{cell_size}
use btrm.Frame.{FrameState}
use btrm.Terminal.Ops.{
  total_cells, bitmask_len, count_bits, apply_patch_cells, apply_copy_rect, apply_fill_rect,
}
use btrm.Terminal.Payload.{
  op_copy_rect, op_fill_rect, op_patch_cells, copy_op, fill_op, patch_op, apply_op,
}

module _ (f : FrameState) (payload : Bytes) (off : ℕ) where
  -- The tag chooses the operation.
  apply_op_tag :
      (tag : ℕ) (body : Bytes)
      → Holds payload off (tag ∷ body)
      → (byte_at payload off ≡ tag) × (leb (length payload) off ≡ false)
  apply_op_tag tag body h = (byte_at-Holds tag body h, ground (arith, Holds-le (tag ∷ body) h))

  patch_op-Holds :
      (mask patch : Bytes)
      → Holds payload off (mask ++ patch)
      → length mask ≡ bitmask_len f
      → length patch ≡ count_bits (total_cells f) 0 mask * cell_size
      → patch_op f payload off ≡ (
        apply_patch_cells f mask patch (count_bits (total_cells f) 0 mask),
        some (ltb 0 (count_bits (total_cells f) 0 mask), off + length mask + length patch),
      )
  unfolding patch_op
  patch_op-Holds mask patch h lm lp =
      let hm = slice-Holds mask (Holds-left mask patch h) in
      let hp = slice-Holds patch (Holds-right mask patch h) in
      let le = Holds-le (mask ++ patch) h in
      rw (← lm, hm, ← lp, hp) (ground (arith, length-append {0} mask patch))

  copy_op-Holds :
      (a b c d rows cols : ℕ)
      → IsU16 a
      → IsU16 b
      → IsU16 c
      → IsU16 d
      → IsU16 rows
      → IsU16 cols
      → Holds payload off (
          u16_to_le a
          ++ (u16_to_le b ++ (u16_to_le c ++ (u16_to_le d ++ (u16_to_le rows ++ u16_to_le cols)))))
      → copy_op f payload off ≡ (
        (apply_copy_rect f a b c d rows cols).0,
        some ((apply_copy_rect f a b c d rows cols).1, off + 12),
      )
  unfolding copy_op
  copy_op-Holds a b c d rows cols ua ub uc ud ur uk h =
      let h2 = Holds-right (u16_to_le a) _ h in
      let h4 = Holds-right (u16_to_le b) _ h2 in
      let h6 = Holds-right (u16_to_le c) _ h4 in
      let h8 = Holds-right (u16_to_le d) _ h6 in
      let h10 = Holds-right (u16_to_le rows) (u16_to_le cols) h8 in
      let ra = u16_at-Holds a ua (Holds-left (u16_to_le a) _ h) in
      let rb = u16_at-Holds b ub (Holds-left (u16_to_le b) _ h2) in
      let rc =
        u16_at-Holds c uc (Holds-left (u16_to_le c) _ (Holds-at (off + 4) (omega arith) h4)) in
      let rd =
        u16_at-Holds d ud (Holds-left (u16_to_le d) _ (Holds-at (off + 6) (omega arith) h6)) in
      let rr =
        u16_at-Holds rows ur
          (Holds-left (u16_to_le rows) _ (Holds-at (off + 8) (omega arith) h8)) in
      let rk = u16_at-Holds cols uk (Holds-at (off + 10) (omega arith) h10) in
      let le = Holds-le _ h in rw (ra, rb, rc, rd, rr, rk) (ground arith)

  fill_op-Holds :
      (row col rows cols : ℕ) (cell : Bytes)
      → IsU16 row
      → IsU16 col
      → IsU16 rows
      → IsU16 cols
      → length cell ≡ cell_size
      → Holds payload off
          (u16_to_le row ++ (u16_to_le col ++ (u16_to_le rows ++ (u16_to_le cols ++ cell))))
      → fill_op f payload off ≡ (
        (apply_fill_rect f row col rows cols cell).0,
        some ((apply_fill_rect f row col rows cols cell).1, off + 8 + cell_size),
      )
  unfolding fill_op
  fill_op-Holds row col rows cols cell ur uc us uk lc h =
      let h2 = Holds-right (u16_to_le row) _ h in
      let h4 = Holds-at (off + 4) (omega arith) (Holds-right (u16_to_le col) _ h2) in
      let h6 = Holds-at (off + 6) (omega arith) (Holds-right (u16_to_le rows) _ h4) in
      let h8 = Holds-at (off + 8) (omega arith) (Holds-right (u16_to_le cols) cell h6) in
      let ra = u16_at-Holds row ur (Holds-left (u16_to_le row) _ h) in
      let rb = u16_at-Holds col uc (Holds-left (u16_to_le col) _ h2) in
      let rc = u16_at-Holds rows us (Holds-left (u16_to_le rows) _ h4) in
      let rd = u16_at-Holds cols uk (Holds-left (u16_to_le cols) cell h6) in
      let rs = slice-Holds cell h8 in
      let le = Holds-le cell h8 in rw (ra, rb, rc, rd, ← lc, rs) (ground arith)

-- One operation, its tag included.
module _ (f : FrameState) (payload : Bytes) (off : ℕ) where
  pub apply_op-patch :
      (mask patch : Bytes)
      → Holds payload off (op_patch_cells ∷ (mask ++ patch))
      → length mask ≡ bitmask_len f
      → length patch ≡ count_bits (total_cells f) 0 mask * cell_size
      → apply_op f payload off ≡ (
        apply_patch_cells f mask patch (count_bits (total_cells f) 0 mask),
        some (ltb 0 (count_bits (total_cells f) 0 mask), off + 1 + length mask + length patch),
      )
  unfolding apply_op
  apply_op-patch mask patch h lm lp =
      let (t, le) = apply_op_tag f payload off op_patch_cells (mask ++ patch) h in
      rw (le, t) (patch_op-Holds f payload (off + 1) mask patch (Holds-tail _ _ h) lm lp)

  pub apply_op-copy :
      (a b c d rows cols : ℕ)
      → IsU16 a
      → IsU16 b
      → IsU16 c
      → IsU16 d
      → IsU16 rows
      → IsU16 cols
      → Holds payload off (
          op_copy_rect
          ∷ (u16_to_le a
              ++ (u16_to_le b
                  ++ (u16_to_le c ++ (u16_to_le d ++ (u16_to_le rows ++ u16_to_le cols))))))
      → apply_op f payload off ≡ (
        (apply_copy_rect f a b c d rows cols).0,
        some ((apply_copy_rect f a b c d rows cols).1, off + 1 + 12),
      )
  unfolding apply_op
  apply_op-copy a b c d rows cols ua ub uc ud ur uk h =
      let (t, le) = apply_op_tag f payload off op_copy_rect _ h in
      rw (le, t)
        (copy_op-Holds f payload (off + 1) a b c d rows cols ua ub uc ud ur uk (Holds-tail _ _ h))

  pub apply_op-fill :
      (row col rows cols : ℕ) (cell : Bytes)
      → IsU16 row
      → IsU16 col
      → IsU16 rows
      → IsU16 cols
      → length cell ≡ cell_size
      → Holds payload off (
          op_fill_rect
          ∷ (u16_to_le row ++ (u16_to_le col ++ (u16_to_le rows ++ (u16_to_le cols ++ cell)))))
      → apply_op f payload off ≡ (
        (apply_fill_rect f row col rows cols cell).0,
        some ((apply_fill_rect f row col rows cols cell).1, off + 1 + 8 + cell_size),
      )
  unfolding apply_op
  apply_op-fill row col rows cols cell ur uc us uk lc h =
      let (t, le) = apply_op_tag f payload off op_fill_rect _ h in
      rw (le, t)
        (fill_op-Holds f payload (off + 1) row col rows cols cell ur uc us uk lc (Holds-tail _ _ h))
