-- ===== src/Server/Create.antt =====
-- What the messages that create a PTY ask for: the arms `C2S_CREATE`, `C2S_CREATE_N`, `C2S_CREATE_AT`
-- and `C2S_CREATE2` of `handle_client` in crates/server/src/lib.rs, up to the call of `spawn_pty`.
pub mod Decode
pub mod Program
use btrm.Base.{
  ℕ, zero, suc, ◌+◌, List, [], ◌∷◌, ◌++◌, Bool, false, not, ◌&&◌, ◌||◌, Option, none, some, Bytes,
  ltb, leb, ◌==◌, if◌then◌else◌, length, drop, bit_and,
}
use btrm.Base.Slices.{slice}
use btrm.Base.Words.{byte_at, u16_at}
use btrm.Base.Utf8.{is_utf8}

-- The encodings of the characters that `trim` takes away.
abbrev whitespace : List Bytes
whitespace =
    (9 ∷ [])
    ∷ (10 ∷ [])
    ∷ (11 ∷ [])
    ∷ (12 ∷ [])
    ∷ (13 ∷ [])
    ∷ (32 ∷ [])
    ∷ (0xc2 ∷ 0x85 ∷ [])
    ∷ (0xc2 ∷ 0xa0 ∷ [])
    ∷ (0xe1 ∷ 0x9a ∷ 0x80 ∷ [])
    ∷ (0xe2 ∷ 0x80 ∷ 0x80 ∷ [])
    ∷ (0xe2 ∷ 0x80 ∷ 0x81 ∷ [])
    ∷ (0xe2 ∷ 0x80 ∷ 0x82 ∷ [])
    ∷ (0xe2 ∷ 0x80 ∷ 0x83 ∷ [])
    ∷ (0xe2 ∷ 0x80 ∷ 0x84 ∷ [])
    ∷ (0xe2 ∷ 0x80 ∷ 0x85 ∷ [])
    ∷ (0xe2 ∷ 0x80 ∷ 0x86 ∷ [])
    ∷ (0xe2 ∷ 0x80 ∷ 0x87 ∷ [])
    ∷ (0xe2 ∷ 0x80 ∷ 0x88 ∷ [])
    ∷ (0xe2 ∷ 0x80 ∷ 0x89 ∷ [])
    ∷ (0xe2 ∷ 0x80 ∷ 0x8a ∷ [])
    ∷ (0xe2 ∷ 0x80 ∷ 0xa8 ∷ [])
    ∷ (0xe2 ∷ 0x80 ∷ 0xa9 ∷ [])
    ∷ (0xe2 ∷ 0x80 ∷ 0xaf ∷ [])
    ∷ (0xe2 ∷ 0x81 ∷ 0x9f ∷ [])
    ∷ (0xe3 ∷ 0x80 ∷ 0x80 ∷ [])
    ∷ []

-- `bs` without `front`, where it begins with it.
abbrev without : Bytes → Bytes → Option Bytes
without [] bs = some bs
without (x ∷ front) [] = none
without (x ∷ front) (b ∷ bs) = if x == b then without front bs else none

abbrev without_one : List Bytes → Bytes → Option Bytes
without_one [] bs = none
without_one (w ∷ ws) bs =
    let rest = without_one ws bs in elim (without w bs) [ none ↦ rest | some t ↦ some t ]

abbrev reverse_onto : Bytes → Bytes → Bytes
reverse_onto [] acc = acc
reverse_onto (x ∷ xs) acc = reverse_onto xs (x ∷ acc)

abbrev reverse : Bytes → Bytes
reverse xs = reverse_onto xs []

abbrev reverse_each : List Bytes → List Bytes
reverse_each [] = []
reverse_each (w ∷ ws) = reverse w ∷ reverse_each ws

-- Each round takes a byte at least, so a round for each byte is enough.
abbrev strip : List Bytes → ℕ → Bytes → Bytes
strip ws zero bs = bs
strip ws (suc fuel) bs = elim (without_one ws bs) [ none ↦ bs | some rest ↦ strip ws fuel rest ]

-- `str::trim`
unfoldable pub trim : Bytes → Bytes
trim bs =
    let front = strip whitespace (length bs) bs in
    reverse (strip (reverse_each whitespace) (length front) (reverse front))

-- `payload.contains('\0')`
pub has_nul : Bytes → Bool
has_nul [] = false
has_nul (b ∷ bs) = (b == 0) || has_nul bs

abbrev non_empty : Bytes → List Bytes → List Bytes
non_empty [] args = args
non_empty (b ∷ bs) args = (b ∷ bs) ∷ args

-- The pieces between the zeros that are not empty; `piece` is what the current one has so far.
pub split_nul : Bytes → Bytes → List Bytes
split_nul piece [] = non_empty piece []
split_nul piece (b ∷ bs) =
    let next = split_nul [] bs in
    let more = split_nul (piece ++ b ∷ []) bs in if b == 0 then non_empty piece next else more

abbrev if_filled : {A : Type 0} → List A → Option (List A)
if_filled [] = none
if_filled (x ∷ xs) = some (x ∷ xs)

-- The command and the arguments of a payload.
abbrev pub command_of : Option Bytes → Option Bytes
command_of none = none
command_of (some payload) = if has_nul payload then none else if_filled (trim payload)

abbrev pub argv_of : Option Bytes → Option (List Bytes)
argv_of none = none
argv_of (some payload) = if has_nul payload then if_filled (split_nul [] payload) else none

-- `data.get(start..)`, as text.
abbrev text_from : Bytes → ℕ → Option Bytes
text_from bs start =
    if ltb (length bs) start
    then none
    else if is_utf8 (drop start bs)
    then some (drop start bs)
    else none

-- The tag of `tag_len` bytes at `start`, empty where it is cut off or no text.
abbrev tag_at : Bytes → ℕ → ℕ → Bytes
tag_at bs start tag_len =
    if leb (start + tag_len) (length bs) && is_utf8 (slice bs start tag_len)
    then slice bs start tag_len
    else []

-- The arguments of `spawn_pty` that come from the message, with the PTY whose directory is taken.
pub record CreateRequest : Type 0 where
  pub nonce : Option ℕ
  pub rows : ℕ
  pub cols : ℕ
  pub tag : Bytes
  pub src_pty : Option ℕ
  pub command : Option Bytes
  pub argv : Option (List Bytes)

abbrev u16_or : ℕ → Bytes → ℕ → ℕ
u16_or d bs off = if leb (off + 2) (length bs) then u16_at bs off else d

-- The rows and columns at `off`, where both are there, or else 24 and 80.
abbrev size_at : Bytes → ℕ → ℕ × ℕ
size_at bs off =
    if leb (off + 4) (length bs) then (u16_at bs off, u16_at bs (off + 2)) else (24, 80)

-- `C2S_CREATE`: size at 1, tag at 7.
pub decode_create : Bytes → CreateRequest
unfolding has_nul split_nul
decode_create bs =
    let size = size_at bs 1 in
    let tag_len = u16_or 0 bs 5 in
    let payload = text_from bs (7 + tag_len) in
    record {
      nonce = none;
      rows = size.0;
      cols = size.1;
      tag = tag_at bs 7 tag_len;
      src_pty = none;
      command = command_of payload;
      argv = argv_of payload;
    }

-- `C2S_CREATE_N`: nonce at 1, size at 3, tag at 9.
pub decode_create_n : Bytes → CreateRequest
unfolding has_nul split_nul
decode_create_n bs =
    let size = size_at bs 3 in
    let tag_len = u16_or 0 bs 7 in
    let payload = text_from bs (9 + tag_len) in
    record {
      nonce = some (u16_or 0 bs 1);
      rows = size.0;
      cols = size.1;
      tag = tag_at bs 9 tag_len;
      src_pty = none;
      command = command_of payload;
      argv = argv_of payload;
    }

-- `C2S_CREATE_AT`: size at 1, tag at 7, and behind it the PTY whose directory is taken.
pub decode_create_at : Bytes → CreateRequest
decode_create_at bs =
    let size = size_at bs 1 in
    let tag_len = u16_or 0 bs 5 in
    let src_start = 7 + tag_len in
    record {
      nonce = none;
      rows = size.0;
      cols = size.1;
      tag = tag_at bs 7 tag_len;
      src_pty = if leb (src_start + 2) (length bs) then some (u16_at bs src_start) else none;
      command = none;
      argv = none;
    }

abbrev pub create2_has_src_pty : ℕ
create2_has_src_pty = 1

abbrev pub create2_has_command : ℕ
create2_has_command = 2

-- `C2S_CREATE2`: nonce at 1, size at 3, features at 7, tag at 10, and behind it the fields that the
-- features name.
pub decode_create2 : Bytes → Option CreateRequest
unfolding has_nul split_nul
decode_create2 bs =
    let features = byte_at bs 7 in
    let tag_len = u16_at bs 8 in
    let cursor = 10 + tag_len in
    let has_src = not (bit_and features create2_has_src_pty == 0) && leb (cursor + 2) (length bs) in
    let payload =
      if bit_and features create2_has_command == 0
      then none
      else text_from bs (if has_src then cursor + 2 else cursor) in
    if ltb (length bs) 10
    then none
    else some (record {
      nonce = some (u16_at bs 1);
      rows = u16_at bs 3;
      cols = u16_at bs 5;
      tag = tag_at bs 10 tag_len;
      src_pty = if has_src then some (u16_at bs cursor) else none;
      command = command_of payload;
      argv = argv_of payload;
    })
