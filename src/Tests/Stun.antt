-- ===== src/Tests/Stun.antt =====
-- STUN messages and exchanges at concrete ones.
use btrm.Base.{◌+◌, ◌≡◌, refl, [], ◌∷◌, ◌++◌, replicate, some, Bytes, arith, length, List}
use btrm.Base.Lists.{All}
use btrm.Base.Words.{IsU16}
use btrm.Stun.{
  SocketAddr, v4, Attrs, new_writer, attr, build, build_with_integrity, parse_stun, xor_addr_encode,
  xor_addr_decode, attr_xor_peer_address, attr_data, attr_message_integrity, send_indication,
  data_indication, build_send_indication, decode_data_indication,
}
use btrm.Stun.Address.{IsAddr, xor_addr_decode-xor_addr_encode}
use btrm.Stun.RoundTrip.{with_attrs, write_attrs, IsWireAttr, parse_stun-build}
use btrm.Stun.Indication.{
  indication, decode_data_indication-build, parse_stun-build_send_indication,
}
use btrm.Stun.Integrity.{signed_part, parse_stun-build_with_integrity}
use btrm.Stun.Turn.{
  binding_response, attr_xor_mapped_address, attr_xor_relayed_address, attr_nonce, attr_realm,
  allocate_error, read_stun_message,
}
use btrm.Stun.Turn.Exchange.{signed_attrs}
use btrm.Stun.Turn.Framing.{read_stun_message-build}

abbrev tid : Bytes
tid = replicate 12 7

-- 192.0.2.1, port 32853.
abbrev host : SocketAddr
host = v4 3221225985 32853

host-IsAddr : IsAddr host
unfolding IsAddr
host-IsAddr = (omega arith, omega arith)

xor_addr_decode-xor_addr_encode_example : xor_addr_decode (xor_addr_encode host tid) tid ≡ some host
xor_addr_decode-xor_addr_encode_example = xor_addr_decode-xor_addr_encode host tid refl host-IsAddr

abbrev two_attrs : Attrs
two_attrs = (attr_realm, b'r' ∷ []) ∷ (attr_nonce, b'n' ∷ b'o' ∷ []) ∷ []

two_attrs-IsWire : All IsWireAttr two_attrs
unfolding IsWireAttr
two_attrs-IsWire = ((omega arith, omega arith), ((omega arith, omega arith), tt))

two_attrs_fit : IsU16 (length (write_attrs two_attrs))
unfolding write_attrs
two_attrs_fit = omega arith

parse_stun-build_example :
    parse_stun (build (with_attrs two_attrs (new_writer allocate_error tid)))
    ≡ some (allocate_error, tid, two_attrs)
parse_stun-build_example =
    parse_stun-build allocate_error tid two_attrs (omega arith) refl two_attrs-IsWire two_attrs_fit

-- A stand-in for the hash.
abbrev no_hash : Bytes → Bytes → Bytes
no_hash key msg = replicate 20 1

length-no_hash : (key msg : Bytes) → length (no_hash key msg) ≡ 20
length-no_hash key msg = refl

two_attrs_fit_hash : IsU16 (length (write_attrs two_attrs) + 24)
unfolding write_attrs
two_attrs_fit_hash = omega arith

parse_stun-build_with_integrity_example :
    parse_stun
      (build_with_integrity no_hash (with_attrs two_attrs (new_writer allocate_error tid)) [])
    ≡ some (
      allocate_error,
      tid,
      two_attrs
          ++ (attr_message_integrity, no_hash [] (signed_part allocate_error tid two_attrs)) ∷ [],
    )
parse_stun-build_with_integrity_example =
    parse_stun-build_with_integrity no_hash length-no_hash allocate_error tid two_attrs []
      (omega arith) refl two_attrs-IsWire two_attrs_fit_hash

parse_stun-build_send_indication_example :
    parse_stun (build_send_indication tid host (1 ∷ 2 ∷ 3 ∷ []))
    ≡ some (send_indication, tid, indication tid host (1 ∷ 2 ∷ 3 ∷ []))
parse_stun-build_send_indication_example =
    parse_stun-build_send_indication tid host (1 ∷ 2 ∷ 3 ∷ []) refl host-IsAddr (omega arith)

decode_data_indication-build_example :
    decode_data_indication (
      build (
        attr attr_data
          (1 ∷ 2 ∷ 3 ∷ [])
          (attr attr_xor_peer_address (xor_addr_encode host tid) (new_writer data_indication tid))))
    ≡ some (host, 1 ∷ 2 ∷ 3 ∷ [])
decode_data_indication-build_example =
    decode_data_indication-build tid host (1 ∷ 2 ∷ 3 ∷ []) refl host-IsAddr (omega arith)

read_stun_message-build_example :
    read_stun_message (build (with_attrs two_attrs (new_writer allocate_error tid)) ++ (9 ∷ 9 ∷ []))
    ≡ some (build (with_attrs two_attrs (new_writer allocate_error tid)), 9 ∷ 9 ∷ [])
read_stun_message-build_example =
    read_stun_message-build allocate_error tid two_attrs (9 ∷ 9 ∷ []) (omega arith) refl
      two_attrs_fit

abbrev mapped : Attrs
mapped = (attr_xor_mapped_address, xor_addr_encode host tid) ∷ []

-- A datagram that is no message, and the response to another request.
abbrev other_tid : Bytes
other_tid = replicate 12 1

abbrev noise : List Bytes
noise = (1 ∷ 2 ∷ []) ∷ build (with_attrs mapped (new_writer binding_response other_tid)) ∷ []

abbrev relayed : Attrs
relayed = (attr_xor_relayed_address, xor_addr_encode host tid) ∷ []

abbrev same_text : Bytes → Bytes
same_text bs = bs

abbrev creds : Attrs
creds = signed_attrs (b'u' ∷ []) (b'r' ∷ []) (b'n' ∷ b'o' ∷ [])
