-- ===== src/Stun/Indication.antt =====
-- Payloads on their way through a relay: `build_send_indication` and `decode_data_indication`.
use btrm.Base.{ℕ, ◌≤◌, ◌<◌, ◌≡◌, refl, [], ◌∷◌, Bytes, some, length, arith}
use btrm.Base.Lists.{length-append}
use btrm.Stun.{
  SocketAddr, Attrs, new_writer, attr, build, parse_stun, attr_xor_peer_address, attr_data,
  xor_addr_encode, xor_addr_decode, send_indication, data_indication, build_send_indication,
  decode_data_indication, collect_indication, attr_bytes,
}
use btrm.Stun.Address.{IsAddr, xor_addr_decode-xor_addr_encode, length-xor_addr_encode}
use btrm.Stun.RoundTrip.{with_attrs, write_attrs, length-attr_bytes, IsWireAttr, parse_stun-build}

-- The attributes of an indication, either way.
abbrev pub indication : Bytes → SocketAddr → Bytes → Attrs
indication tid peer payload =
    (attr_xor_peer_address, xor_addr_encode peer tid) ∷ (attr_data, payload) ∷ []

-- A payload that the length of a message leaves room for.
abbrev pub max_payload : ℕ
max_payload = 65504

module _ (tid : Bytes) (peer : SocketAddr) (payload : Bytes) where
  indication_parsed :
      (msg_type : ℕ)
      → msg_type < 16384
      → length tid ≡ 12
      → IsAddr peer
      → length payload ≤ max_payload
      → parse_stun (build (with_attrs (indication tid peer payload) (new_writer msg_type tid)))
        ≡ some (msg_type, tid, indication tid peer payload)
  unfolding IsWireAttr write_attrs
  indication_parsed msg_type low t addr fits =
      let l = length-xor_addr_encode peer tid t addr in
      let item = length-attr_bytes attr_xor_peer_address (xor_addr_encode peer tid) in
      let item' = length-attr_bytes attr_data payload in
      let total =
        length-append {0} (attr_bytes attr_xor_peer_address (xor_addr_encode peer tid))
          (write_attrs ((attr_data, payload) ∷ [])) in
      let total' = length-append {0} (attr_bytes attr_data payload) [] in
      parse_stun-build msg_type tid (indication tid peer payload) low t
        ((omega arith, omega (arith, l)), ((omega arith, omega arith), tt))
        (omega (arith, l, item, item', total, total'))

-- The indication that sends a payload to a peer is parsed as one, with the peer's address, encoded,
-- and the payload. The transaction id has 12 bytes, the address fits its words, and the payload has
-- at most 65504 bytes.
pub parse_stun-build_send_indication :
    (tid : Bytes) (peer : SocketAddr) (payload : Bytes)
    → length tid ≡ 12
    → IsAddr peer
    → length payload ≤ max_payload
    → parse_stun (build_send_indication tid peer payload)
      ≡ some (send_indication, tid, indication tid peer payload)
unfolding build_send_indication with_attrs
parse_stun-build_send_indication tid peer payload t addr fits =
    indication_parsed tid peer payload send_indication (omega arith) t addr fits

-- The address and the payload of an indication, found among its attributes.
indication_found :
    (bs tid : Bytes) (peer : SocketAddr) (payload : Bytes)
    → parse_stun bs ≡ some (data_indication, tid, indication tid peer payload)
    → xor_addr_decode (xor_addr_encode peer tid) tid ≡ some peer
    → decode_data_indication bs ≡ some (peer, payload)
unfolding decode_data_indication collect_indication
indication_found bs tid peer payload parsed decoded =
    rw (parsed, decode_data_indication, decoded) refl

-- The payload that a relay passes on in an indication from a peer is decoded as that peer and that
-- payload. The transaction id has 12 bytes, the address fits its words, and the payload has at most
-- 65504 bytes.
pub decode_data_indication-build :
    (tid : Bytes) (peer : SocketAddr) (payload : Bytes)
    → length tid ≡ 12
    → IsAddr peer
    → length payload ≤ max_payload
    → decode_data_indication (
        build (
          attr attr_data payload (
            attr attr_xor_peer_address
              (xor_addr_encode peer tid)
              (new_writer data_indication tid))))
      ≡ some (peer, payload)
unfolding with_attrs
decode_data_indication-build tid peer payload t addr fits =
    indication_found _ tid peer payload
      (indication_parsed tid peer payload data_indication (omega arith) t addr fits)
      (xor_addr_decode-xor_addr_encode peer tid t addr)
