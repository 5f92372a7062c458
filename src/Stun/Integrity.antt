-- ===== src/Stun/Integrity.antt =====
-- Messages with a hash: `build_with_integrity`.
use btrm.Base.{
  ℕ, ◌+◌, ◌%◌, ◌<◌, ◌≡◌, refl, sym, ap, ◌∙◌, [], ◌∷◌, ◌++◌, append-nil, append_assoc, Bytes, some,
  length, arith,
}
use btrm.Base.Lists.{All, length-append}
use btrm.Base.Words.{IsU16}
use btrm.Base.BigEndian.{u16_to_be, u32_to_be}
use btrm.Stun.{
  Attrs, new_writer, attr_bytes, padding, build, build_with_integrity, parse_stun, magic_cookie,
  attr_message_integrity,
}
use btrm.Stun.RoundTrip.{with_attrs, with_attrs_lem, write_attrs, IsWireAttr, parse_stun-build}

write_attrs-append : (a b : Attrs) → write_attrs (a ++ b) ≡ write_attrs a ++ write_attrs b
unfolding write_attrs
write_attrs-append [] b = refl
write_attrs-append ((atype, value) ∷ a) b =
    ap (λ (bs : Bytes). attr_bytes atype value ++ bs) (write_attrs-append a b)
    ∙ sym (append_assoc (attr_bytes atype value) (write_attrs a) (write_attrs b))

All-append : (a b : Attrs) → All IsWireAttr a → All IsWireAttr b → All IsWireAttr (a ++ b)
All-append [] b p q = q
All-append (x ∷ a) b (h, p) q = (h, All-append a b p q)

-- What the hash is taken of: the message without it, whose length counts it.
abbrev pub signed_part : ℕ → Bytes → Attrs → Bytes
signed_part msg_type tid attrs =
    u16_to_be msg_type
    ++ (u16_to_be ((length (write_attrs attrs) + 24) % 65536)
        ++ (u32_to_be magic_cookie ++ (tid ++ write_attrs attrs)))

module _ (hmac_sha1 : Bytes → Bytes → Bytes)
    (length-hmac_sha1 : (key msg : Bytes) → length (hmac_sha1 key msg) ≡ 20) where
  abbrev hash_attr : ℕ → Bytes → Attrs → Bytes → Attrs
  hash_attr msg_type tid attrs key =
      (attr_message_integrity, hmac_sha1 key (signed_part msg_type tid attrs)) ∷ []

  hash_bytes :
      (mac : Bytes)
      → length mac ≡ 20
      → attr_bytes attr_message_integrity mac
        ≡ u16_to_be attr_message_integrity ++ (u16_to_be 20 ++ mac)
  unfolding attr_bytes padding
  hash_bytes mac l = rw (l, append-nil) refl

  hashed_attrs :
      (attrs : Attrs) (mac : Bytes)
      → length mac ≡ 20
      → write_attrs (attrs ++ (attr_message_integrity, mac) ∷ [])
        ≡ write_attrs attrs ++ (u16_to_be attr_message_integrity ++ (u16_to_be 20 ++ mac))
  unfolding write_attrs
  hashed_attrs attrs mac l =
      write_attrs-append attrs ((attr_message_integrity, mac) ∷ [])
      ∙ ap (λ (bs : Bytes). write_attrs attrs ++ bs)
          (append-nil (attr_bytes attr_message_integrity mac) ∙ hash_bytes mac l)

  integrity_built :
      (msg_type : ℕ) (tid : Bytes) (attrs : Attrs) (key : Bytes)
      → build_with_integrity hmac_sha1 (with_attrs attrs (new_writer msg_type tid)) key
        ≡ build (with_attrs (attrs ++ hash_attr msg_type tid attrs key) (new_writer msg_type tid))
  unfolding build build_with_integrity new_writer
  integrity_built msg_type tid attrs key =
      let mac = hmac_sha1 key (signed_part msg_type tid attrs) in
      let l = length-hmac_sha1 key (signed_part msg_type tid attrs) in
      let body = write_attrs attrs in
      let mac_bytes : Bytes = u16_to_be attr_message_integrity ++ (u16_to_be 20 ++ mac) in
      let total : length (body ++ mac_bytes) ≡ length body + 24 =
        omega (arith, l, length-append {0} body mac_bytes) in
      rw
        (
          with_attrs_lem attrs (new_writer msg_type tid),
          with_attrs_lem (attrs ++ hash_attr msg_type tid attrs key) (new_writer msg_type tid),
          hashed_attrs attrs mac l,
          total,
        )
        (simp append_assoc)

  -- A message that is built with a hash is parsed as its attributes and, behind them, the hash of
  -- what stands before it. The two highest bits of the type are zero, the id has 12 bytes, the types
  -- and the lengths of the attributes fit their words, and so does the length of them all with the
  -- hash, which has 20 bytes.
  pub parse_stun-build_with_integrity :
      (msg_type : ℕ) (tid : Bytes) (attrs : Attrs) (key : Bytes)
      → msg_type < 16384
      → length tid ≡ 12
      → All IsWireAttr attrs
      → IsU16 (length (write_attrs attrs) + 24)
      → parse_stun (build_with_integrity hmac_sha1 (with_attrs attrs (new_writer msg_type tid)) key)
        ≡ some (
          msg_type,
          tid,
          attrs ++ (attr_message_integrity, hmac_sha1 key (signed_part msg_type tid attrs)) ∷ [],
        )
  unfolding IsWireAttr
  parse_stun-build_with_integrity msg_type tid attrs key low t wire fits =
      let mac = hmac_sha1 key (signed_part msg_type tid attrs) in
      let l = length-hmac_sha1 key (signed_part msg_type tid attrs) in
      let mac_bytes : Bytes = u16_to_be attr_message_integrity ++ (u16_to_be 20 ++ mac) in
      let total : length (write_attrs attrs ++ mac_bytes) ≡ length (write_attrs attrs) + 24 =
        omega (arith, l, length-append {0} (write_attrs attrs) mac_bytes) in
      ap parse_stun (integrity_built msg_type tid attrs key)
      ∙ parse_stun-build msg_type tid (attrs ++ hash_attr msg_type tid attrs key) low t
          (All-append attrs _ wire ((omega arith, omega (arith, l)), tt))
          (rw (hashed_attrs attrs mac l) (omega (arith, total)))
