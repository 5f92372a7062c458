-- ===== src/Transport/Framing.antt =====
-- A frame is read as what was written.
use btrm.Base.{
  ◌+◌, ◌≤◌, ◌≡◌, sym, [], ◌∷◌, ◌++◌, false, none, some, Bytes, ltb, if◌then◌else◌, length, drop,
  arith, u32_max,
}
use btrm.Base.Lists.{length-append, take-append, drop-append}
use btrm.Base.Words.{u32_at, u32_from_le-u32_to_le}
use btrm.Transport.{make_frame, read_frame, max_frame_size}

module _ (payload rest : Bytes) where
  header_read : length payload ≤ u32_max → u32_at (make_frame payload ++ rest) 0 ≡ length payload
  unfolding u32_at make_frame
  header_read h = u32_from_le-u32_to_le (length payload) (omega arith)

  long_enough : ltb (length (make_frame payload ++ rest)) (4 + length payload) ≡ false
  unfolding make_frame
  long_enough = ground (arith, length-append {0} payload rest)

  behind_header : drop (4 + length payload) (make_frame payload ++ rest) ≡ rest
  unfolding make_frame
  behind_header = rw (sym (length-frame)) (drop-append (make_frame payload) rest)
    where
      length-frame : length (make_frame payload) ≡ 4 + length payload
      length-frame = omega arith

-- Of a stream that begins with a frame, the payload is read, and what is behind the frame is left; but
-- a payload of more than 16 MiB is refused, which may be written. The length of the payload fits its
-- word.
pub read_frame-make_frame :
    (payload rest : Bytes)
    → length payload ≤ u32_max
    → read_frame (make_frame payload ++ rest)
      ≡ (if ltb max_frame_size (length payload) then none else some (payload, rest))
unfolding read_frame make_frame u32_at
read_frame-make_frame [] rest h = ground arith
read_frame-make_frame (x ∷ xs) rest h =
    rw
      (
        header_read (x ∷ xs) rest h,
        long_enough (x ∷ xs) rest,
        behind_header (x ∷ xs) rest,
        take-append xs rest,
      )
      (ground arith)
