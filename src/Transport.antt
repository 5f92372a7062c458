-- ===== src/Transport.antt =====
-- The framing of messages on a stream: `read_frame` and `write_frame` of crates/server/src/lib.rs, and
-- the same with `make_frame` in crates/cli/src/transport.rs.
pub mod Framing
use btrm.Base.{
  ℕ, ◌+◌, ◌-◌, ◌∷◌, ◌++◌, [], Option, none, some, Bytes, ltb, ◌==◌, if◌then◌else◌, length, drop,
  u32_max,
}
use btrm.Base.Slices.{slice}
use btrm.Base.Words.{u32_at, u32_to_le}

-- `16 * 1024 * 1024`
abbrev pub max_frame_size : ℕ
max_frame_size = 16777216

pub make_frame : Bytes → Bytes
make_frame payload = u32_to_le (length payload) ++ payload

-- What is written to the stream, if anything.
pub write_frame : Bytes → Option Bytes
unfolding make_frame
write_frame payload = if ltb u32_max (length payload) then none else some (make_frame payload)

-- The payload, and what is left of the stream. Of a stream that ends within a frame there is none.
pub read_frame : Bytes → Option (Bytes × Bytes)
read_frame stream =
    let len = u32_at stream 0 in
    if ltb (length stream) 4
    then none
    else if len == 0
    then some ([], drop 4 stream)
    else if ltb max_frame_size len
    then none
    else if ltb (length stream) (4 + len)
    then none
    else some (slice stream 4 len, drop (4 + len) stream)
