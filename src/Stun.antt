-- ===== src/Stun.antt =====
-- STUN messages of crates/webrtc-forwarder/src/turn.rs: the writer, the parser, and the addresses in
-- them. A random transaction id, and the hash HMAC-SHA1 of the crates `hmac` and `sha1`, are
-- arguments. `Stun/Turn` has the requests and the replies of STUN and TURN.
pub mod Address
pub mod RoundTrip
pub mod Indication
pub mod Integrity
pub mod Turn
use btrm.Base.{
  ℕ, zero, suc, ◌+◌, ◌-◌, ◌*◌, ◌/◌, ◌%◌, List, [], ◌∷◌, ◌++◌, Bool, true, false, not, Option, none,
  some, Bytes, ltb, leb, ◌==◌, if◌then◌else◌, length, drop, replicate, bit_and, bit_xor,
}
use btrm.Base.Slices.{slice}
use btrm.Base.Words.{byte_at}
use btrm.Base.BigEndian.{u16_to_be, u32_to_be, u16_be_at, u32_be_at}

abbrev pub magic_cookie : ℕ
magic_cookie = 0x2112A442

abbrev pub attr_message_integrity : ℕ
attr_message_integrity = 0x0008

abbrev pub attr_xor_peer_address : ℕ
attr_xor_peer_address = 0x0012

abbrev pub attr_data : ℕ
attr_data = 0x0013

abbrev pub send_indication : ℕ
send_indication = 0x0016

abbrev pub data_indication : ℕ
data_indication = 0x0017

-- An address of version 4 is its 32 bits, one of version 6 its 16 octets.
pub data SocketAddr : Type 0 where
  v4 : (ip port : ℕ) → SocketAddr
  v6 : (ip : Bytes) (port : ℕ) → SocketAddr

-- `(MAGIC_COOKIE >> 16) as u16`
abbrev pub cookie_high : ℕ
cookie_high = 0x2112

-- Each octet with that of the key.
pub xor_octets : Bytes → Bytes → Bytes
xor_octets (x ∷ xs) (k ∷ key) = bit_xor x k ∷ xor_octets xs key
xor_octets _ _ = []

abbrev pub xor_key : Bytes → Bytes
xor_key tid = u32_to_be magic_cookie ++ tid

unfoldable pub xor_addr_encode : SocketAddr → Bytes → Bytes
unfolding xor_octets
xor_addr_encode (v4 ip port) tid =
    0 ∷ 1 ∷ (u16_to_be (bit_xor port cookie_high) ++ u32_to_be (bit_xor ip magic_cookie))
xor_addr_encode (v6 ip port) tid =
    0 ∷ 2 ∷ (u16_to_be (bit_xor port cookie_high) ++ xor_octets ip (xor_key tid))

unfoldable pub xor_addr_decode : Bytes → Bytes → Option SocketAddr
unfolding xor_octets
xor_addr_decode bs tid =
    let family = byte_at bs 1 in
    let port = bit_xor (u16_be_at bs 2) cookie_high in
    if ltb (length bs) 4
    then none
    else if family == 1
    then (if ltb (length bs) 8
        then none
        else some (v4 (bit_xor (u32_be_at bs 4) magic_cookie) port))
    else if family == 2
    then (if ltb (length bs) 20
        then none
        else some (v6 (xor_octets (slice bs 4 16) (xor_key tid)) port))
    else none

pub record StunWriter : Type 0 where
  pub msg_type : ℕ
  pub tid : Bytes
  pub attrs : Bytes

-- `StunWriter::new`, given the transaction id.
pub new_writer : ℕ → Bytes → StunWriter
new_writer msg_type tid = record { msg_type = msg_type; tid = tid; attrs = [] }

-- A value ends at a multiple of four bytes.
pub padding : ℕ → ℕ
padding n = (4 - n % 4) % 4

pub attr_bytes : ℕ → Bytes → Bytes
unfolding padding
attr_bytes atype value =
    u16_to_be atype
    ++ (u16_to_be (length value % 65536) ++ (value ++ replicate (padding (length value)) 0))

pub attr : ℕ → Bytes → StunWriter → StunWriter
unfolding attr_bytes
attr atype value w = record w { attrs = w.attrs ++ attr_bytes atype value }

pub build : StunWriter → Bytes
build w =
    u16_to_be w.msg_type
    ++ (u16_to_be (length w.attrs % 65536) ++ (u32_to_be magic_cookie ++ (w.tid ++ w.attrs)))

-- The length counts the 24 bytes of the hash, which is taken of what stands before it.
module _ (hmac_sha1 : Bytes → Bytes → Bytes) where
  pub build_with_integrity : StunWriter → Bytes → Bytes
  build_with_integrity w key =
      let msg =
        u16_to_be w.msg_type
        ++ (u16_to_be ((length w.attrs + 24) % 65536)
            ++ (u32_to_be magic_cookie ++ (w.tid ++ w.attrs))) in
      msg ++ (u16_to_be attr_message_integrity ++ (u16_to_be 20 ++ hmac_sha1 key msg))

abbrev pub Attrs : Type 0
Attrs = List (ℕ × Bytes)

-- `(alen + 3) & !3`
abbrev pub padded : ℕ → ℕ
padded alen = (alen + 3) / 4 * 4

-- `while off + 4 <= data.len()`: each round goes on by four bytes at least, so a round for each byte
-- is enough. A truncated value ends the loop.
pub attrs_loop : ℕ → Bytes → ℕ → Attrs
attrs_loop zero bs off = []
attrs_loop (suc fuel) bs off =
    let atype = u16_be_at bs off in
    let alen = u16_be_at bs (off + 2) in
    let body = off + 4 in
    let rest = attrs_loop fuel bs (body + padded alen) in
    if leb (off + 4) (length bs)
    then (if ltb (length bs) (body + alen) then [] else (atype, slice bs body alen) ∷ rest)
    else []

pub parse_attrs : Bytes → Attrs
unfolding attrs_loop
parse_attrs bs = attrs_loop (length bs) bs 0

-- The type, the transaction id and the attributes.
abbrev pub Stun : Type 0
Stun = ℕ × Bytes × Attrs

unfoldable pub parse_stun : Bytes → Option Stun
unfolding parse_attrs
parse_stun bs =
    let msg_len = u16_be_at bs 2 in
    if ltb (length bs) 20
    then none
    else if not (bit_and (byte_at bs 0) 0xc0 == 0)
    then none
    else if not (u32_be_at bs 4 == magic_cookie)
    then none
    else if ltb (length bs) (20 + msg_len)
    then none
    else some (u16_be_at bs 0, slice bs 8 12, parse_attrs (slice bs 20 msg_len))

pub build_send_indication : Bytes → SocketAddr → Bytes → Bytes
unfolding build attr new_writer
build_send_indication tid peer_addr payload = build (
    attr attr_data payload
      (attr attr_xor_peer_address (xor_addr_encode peer_addr tid) (new_writer send_indication tid)))

-- The peer and the payload: of two attributes of a kind the last one counts.
pub collect_indication :
    Bytes → Attrs → Option SocketAddr × Option Bytes → Option SocketAddr × Option Bytes
collect_indication tid [] found = found
collect_indication tid ((atype, value) ∷ attrs) (peer_addr, payload) =
    collect_indication tid attrs (
      if atype == attr_xor_peer_address then xor_addr_decode value tid else peer_addr,
      if atype == attr_data then some value else payload,
    )

abbrev both_of : Option SocketAddr × Option Bytes → Option (SocketAddr × Bytes)
both_of (some peer_addr, some payload) = some (peer_addr, payload)
both_of (some peer_addr, none) = none
both_of (none, payload) = none

pub decode_data_indication : Bytes → Option (SocketAddr × Bytes)
unfolding parse_stun collect_indication
decode_data_indication bs = elim (parse_stun bs) [
  | none ↦ none
  | some (mtype, tid, attrs) ↦
      if mtype == data_indication then both_of (collect_indication tid attrs (none, none)) else none
]
