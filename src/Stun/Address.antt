-- ===== src/Stun/Address.antt =====
-- `xor_addr_decode` undoes `xor_addr_encode`.
use btrm.Base.{
  ℕ, ◌+◌, ◌*◌, ◌/◌, ◌%◌, ◌≤◌, ◌≡◌, refl, ap₂, [], ◌∷◌, Bytes, some, length, bit_xor, arith,
}
use btrm.Base.Lists.{take-all}
use btrm.Base.Words.{IsU16, IsU32}
use btrm.Base.BigEndian.{u16_be_at, u32_be_at}
use btrm.Base.Xor.{bit_xor_undone, bit_xor-lt}
use btrm.Stun.{
  SocketAddr, v4, v6, xor_octets, xor_key, xor_addr_encode, xor_addr_decode, magic_cookie,
  cookie_high,
}

-- The port, and the address of version 4, fit their words; an address of version 6 has 16 octets.
unfoldable pub IsAddr : SocketAddr → Type 0
IsAddr (v4 ip port) = IsU32 ip × IsU16 port
IsAddr (v6 ip port) = (length ip ≡ 16) × IsU16 port

xor_octets_undone :
    (ip key : Bytes) → length ip ≤ length key → xor_octets (xor_octets ip key) key ≡ ip
unfolding xor_octets
xor_octets_undone [] key h = refl
xor_octets_undone (x ∷ ip) [] h = absurd (omega arith)
xor_octets_undone (x ∷ ip) (k ∷ key) h =
    ap₂ ◌∷◌ (bit_xor_undone x k) (xor_octets_undone ip key (omega arith))

length-xor_octets :
    (ip key : Bytes) → length ip ≤ length key → length (xor_octets ip key) ≡ length ip
unfolding xor_octets
length-xor_octets [] key h = refl
length-xor_octets (x ∷ ip) [] h = absurd (omega arith)
length-xor_octets (x ∷ ip) (k ∷ key) h = omega (arith, length-xor_octets ip key (omega arith))

-- A word that was written and read is the word.
be_16 : (n : ℕ) → IsU16 n → 256 * (n / 256 % 256) + n % 256 ≡ n
be_16 n b = omega arith

be_32 :
    (n : ℕ)
    → IsU32 n
    → 16777216 * (n / 16777216 % 256) + 65536 * (n / 65536 % 256) + 256 * (n / 256 % 256) + n % 256
      ≡ n
be_32 n b = omega arith

module _ (tid : Bytes) where
  v4_undone :
      (ip port : ℕ)
      → IsU32 ip
      → IsU16 port
      → xor_addr_decode (xor_addr_encode (v4 ip port) tid) tid ≡ some (v4 ip port)
  unfolding xor_addr_decode xor_addr_encode u16_be_at u32_be_at
  v4_undone ip port a b =
      rw
        (
          be_16 (bit_xor port cookie_high)
              (bit_xor-lt 16 port cookie_high (omega arith) (omega arith)),
          be_32 (bit_xor ip magic_cookie)
              (bit_xor-lt 32 ip magic_cookie (omega arith) (omega arith)),
          bit_xor_undone port cookie_high,
          bit_xor_undone ip magic_cookie,
        )
        refl

  v6_undone :
      (ip : Bytes) (port : ℕ)
      → length tid ≡ 12
      → length ip ≡ 16
      → IsU16 port
      → xor_addr_decode (xor_addr_encode (v6 ip port) tid) tid ≡ some (v6 ip port)
  unfolding xor_addr_decode xor_addr_encode u16_be_at
  v6_undone ip port t l b =
      let key_length : length (xor_key tid) ≡ 16 = omega (arith, t) in
      let octets : length (xor_octets ip (xor_key tid)) ≡ 16 =
        omega (arith, length-xor_octets ip (xor_key tid) (omega arith)) in
      rw
        (
          be_16 (bit_xor port cookie_high)
              (bit_xor-lt 16 port cookie_high (omega arith) (omega arith)),
          bit_xor_undone port cookie_high,
          octets,
          take-all 16 (xor_octets ip (xor_key tid)) (omega arith),
          xor_octets_undone ip (xor_key tid) (omega arith),
        )
        refl

pub length-xor_addr_encode :
    (addr : SocketAddr) (tid : Bytes)
    → length tid ≡ 12
    → IsAddr addr
    → length (xor_addr_encode addr tid) ≤ 20
unfolding IsAddr xor_addr_encode
length-xor_addr_encode (v4 ip port) tid t fit = omega arith
length-xor_addr_encode (v6 ip port) tid t (l, b) =
    omega (arith, length-xor_octets ip (xor_key tid) (omega (arith, t, l)))

-- An address that is encoded under a transaction id is decoded under that id as the address. The id
-- has 12 bytes, the port and an address of version 4 fit their words, and an address of version 6
-- has 16 octets.
pub xor_addr_decode-xor_addr_encode :
    (addr : SocketAddr) (tid : Bytes)
    → length tid ≡ 12
    → IsAddr addr
    → xor_addr_decode (xor_addr_encode addr tid) tid ≡ some addr
unfolding IsAddr
xor_addr_decode-xor_addr_encode (v4 ip port) tid t (a, b) = v4_undone tid ip port a b
xor_addr_decode-xor_addr_encode (v6 ip port) tid t (a, b) = v6_undone tid ip port t a b
