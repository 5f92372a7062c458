-- ===== src/Stun/RoundTrip.antt =====
-- `parse_stun` and `decode_data_indication` of what `StunWriter` builds.
use btrm.Base.{
  ℕ, zero, suc, ◌+◌, ◌/◌, ◌%◌, ◌<◌, ◌≤◌, ◌≡◌, refl, sym, ap, ◌∙◌, [], ◌∷◌, ◌++◌, append-nil,
  append_assoc, Bytes, true, false, some, length, replicate, bit_and, ◌==◌, arith, ltb, le→leb,
}
use btrm.Base.Lists.{All, length-append, length-replicate}
use btrm.Base.Slices.{slice}
use btrm.Base.Words.{IsU16, byte_at}
use btrm.Base.Bits.{every_below, every_below_at}
use btrm.Base.BigEndian.{
  u16_to_be, u32_to_be, u16_be_at, u32_be_at, u16_be_at-Holds, u32_be_at-Holds,
}
use btrm.Base.Holds.{Holds, Holds-all, Holds-left, Holds-right, Holds-at, Holds-le, slice-Holds}
use btrm.Stun.{
  Attrs, StunWriter, new_writer, padding, padded, attr_bytes, attr, build, attrs_loop, parse_attrs,
  parse_stun, magic_cookie,
}

-- The attributes added one after the other.
unfoldable pub with_attrs : Attrs → StunWriter → StunWriter
with_attrs [] w = w
with_attrs ((atype, value) ∷ attrs) w = with_attrs attrs (attr atype value w)

-- Their bytes.
unfoldable pub write_attrs : Attrs → Bytes
unfolding attr_bytes
write_attrs [] = []
write_attrs ((atype, value) ∷ attrs) = attr_bytes atype value ++ write_attrs attrs

-- Types and lengths fit their words.
unfoldable pub IsWireAttr : ℕ × Bytes → Type 0
IsWireAttr (atype, value) = IsU16 atype × IsU16 (length value)

abbrev pub writer_of : ℕ → Bytes → Bytes → StunWriter
writer_of msg_type tid attrs = record { msg_type = msg_type; tid = tid; attrs = attrs }

pub with_attrs_lem :
    (attrs : Attrs) (w : StunWriter)
    → with_attrs attrs w ≡ writer_of w.msg_type w.tid (w.attrs ++ write_attrs attrs)
unfolding with_attrs write_attrs attr
with_attrs_lem [] w = rw append-nil refl
with_attrs_lem ((atype, value) ∷ attrs) w =
    with_attrs_lem attrs (attr atype value w)
    ∙ ap (λ (bs : Bytes). writer_of w.msg_type w.tid bs)
        (append_assoc w.attrs (attr_bytes atype value) (write_attrs attrs))

pub length-attr_bytes :
    (atype : ℕ) (value : Bytes) → length (attr_bytes atype value) ≡ 4 + padded (length value)
unfolding attr_bytes padding
length-attr_bytes atype value = omega (
  arith,
  length-append {0} value (replicate (padding (length value)) 0),
  length-replicate {A = ℕ} (padding (length value)) 0,
)

pub le→not_ltb : (a b : ℕ) → b ≤ a → ltb a b ≡ false
le→not_ltb a b h = ground arith

module _ {bs : Bytes} where
  attrs_loop-write_attrs :
      (fuel off : ℕ) (attrs : Attrs)
      → All IsWireAttr attrs
      → Holds bs off (write_attrs attrs)
      → length bs ≡ off + length (write_attrs attrs)
      → length (write_attrs attrs) ≤ fuel
      → attrs_loop fuel bs off ≡ attrs
  unfolding attrs_loop write_attrs IsWireAttr
  attrs_loop-write_attrs zero off [] wire h e enough = refl
  attrs_loop-write_attrs (suc fuel) off [] wire h e enough = ground arith
  attrs_loop-write_attrs zero off ((atype, value) ∷ attrs) wire h e enough = absurd (
      omega (
        arith,
        length-append {0} (attr_bytes atype value) (write_attrs attrs),
        length-attr_bytes atype value,
      ))
  attrs_loop-write_attrs (suc fuel) off ((atype, value) ∷ attrs) ((t, l), wire) h e enough =
      let len = length value in
      let pad : Bytes = replicate (padding len) 0 in
      let item_length = length-attr_bytes atype value in
      let total = length-append {0} (attr_bytes atype value) (write_attrs attrs) in
      let front = Holds-left (attr_bytes atype value) (write_attrs attrs) h in
      let h1 = Holds-right (u16_to_be atype) (u16_to_be (len % 65536) ++ (value ++ pad)) front in
      let h2 = Holds-right (u16_to_be (len % 65536)) (value ++ pad) h1 in
      let at_value = Holds-left value pad (Holds-at (off + 4) (omega arith) h2) in
      let behind =
        Holds-at (off + 4 + padded len) (omega (arith, item_length))
          (Holds-right (attr_bytes atype value) (write_attrs attrs) h) in
      let type_read = u16_be_at-Holds atype t (Holds-left (u16_to_be atype) _ front) in
      let len_read : u16_be_at bs (off + 2) ≡ len = omega (
        arith,
        u16_be_at-Holds (len % 65536) (omega arith) (Holds-left (u16_to_be (len % 65536)) _ h1),
      ) in
      let rest =
        attrs_loop-write_attrs fuel (off + 4 + padded len) attrs wire behind
          (omega (arith, item_length, total)) (omega (arith, item_length, total)) in
      rw
        (
          type_read,
          len_read,
          rest,
          slice-Holds value at_value,
          le→leb (off + 4) (length bs) (omega (arith, item_length, total)),
          le→not_ltb (length bs) (off + 4 + len) (omega (arith, Holds-le value at_value)),
        )
        refl

high_bits_table : every_below 64 (λ b. bit_and b 0xc0 == 0) ≡ true
unfolding every_below
high_bits_table = refl

-- What the parser gives of a message whose header it accepts.
parse_stun_lem :
    (bs : Bytes) (len : ℕ)
    → bit_and (byte_at bs 0) 0xc0 == 0 ≡ true
    → u32_be_at bs 4 ≡ magic_cookie
    → u16_be_at bs 2 ≡ len
    → 20 + len ≤ length bs
    → parse_stun bs ≡ some (u16_be_at bs 0, slice bs 8 12, parse_attrs (slice bs 20 len))
unfolding parse_stun
parse_stun_lem bs len high cookie len_read fits =
    rw
      (
        high,
        cookie,
        len_read,
        le→not_ltb (length bs) 20 (omega arith),
        le→not_ltb (length bs) (20 + len) fits,
      )
      refl

-- A message built from attributes is parsed as its type, its transaction id and these attributes, in
-- their order. The two highest bits of the type are zero, the id has 12 bytes, the types and the
-- lengths of the attributes fit their words, and so does the length of them all.
pub parse_stun-build :
    (msg_type : ℕ) (tid : Bytes) (attrs : Attrs)
    → msg_type < 16384
    → length tid ≡ 12
    → All IsWireAttr attrs
    → IsU16 (length (write_attrs attrs))
    → parse_stun (build (with_attrs attrs (new_writer msg_type tid))) ≡ some (msg_type, tid, attrs)
unfolding parse_attrs build new_writer
parse_stun-build msg_type tid attrs low tid_length wire fits =
    let body = write_attrs attrs in
    let len = length body in
    let after_len : Bytes = u32_to_be magic_cookie ++ (tid ++ body) in
    let after_type : Bytes = u16_to_be (len % 65536) ++ after_len in
    let msg : Bytes = u16_to_be msg_type ++ after_type in
    let h0 = Holds-all msg in
    let h2 = Holds-right (u16_to_be msg_type) after_type h0 in
    let h4 = Holds-right (u16_to_be (len % 65536)) after_len h2 in
    let h8 = Holds-right (u32_to_be magic_cookie) (tid ++ body) h4 in
    let h20 = Holds-at 20 (omega (arith, tid_length)) (Holds-right tid body h8) in
    let type_read = u16_be_at-Holds msg_type (omega arith) (Holds-left (u16_to_be msg_type) _ h0) in
    let len_read : u16_be_at msg 2 ≡ len = omega (
      arith,
      u16_be_at-Holds (len % 65536) (omega arith) (Holds-left (u16_to_be (len % 65536)) _ h2),
    ) in
    let cookie_read =
      u32_be_at-Holds magic_cookie (omega arith) (Holds-left (u32_to_be magic_cookie) _ h4) in
    let high : bit_and (msg_type / 256 % 256) 0xc0 == 0 ≡ true =
      every_below_at 64 (λ b. bit_and b 0xc0 == 0) (msg_type / 256 % 256) high_bits_table
        (omega arith) in
    let tid_read : slice msg 8 12 ≡ tid =
      rw (sym tid_length) (slice-Holds tid (Holds-left tid body h8)) in
    let parsed =
      attrs_loop-write_attrs len 0 attrs wire (Holds-all body) (omega arith) (omega arith) in
    rw with_attrs_lem (
      parse_stun_lem msg len high cookie_read len_read (Holds-le body h20)
      ∙ rw (type_read, tid_read, slice-Holds body h20, parsed) refl)
