-- ===== src/Stun/Turn.antt =====
-- The exchanges of crates/webrtc-forwarder/src/turn.rs: a STUN binding, and the allocation, the
-- permissions and the refreshing of a TURN relay over UDP, and the framing of messages over TCP. The
-- datagrams that arrive in time are a list; where it ends, the deadline has passed. The transaction
-- ids, and the hashes of the crates `hmac`, `sha1` and `md5`, are arguments, and so is
-- `String::from_utf8_lossy`.
pub mod Exchange
pub mod Framing
use btrm.Base.{
  ℕ, ◌+◌, ◌-◌, ◌*◌, ◌%◌, List, [], ◌∷◌, ◌++◌, Bool, true, false, ◌&&◌, Option, none, some, Bytes,
  ltb, ◌==◌, if◌then◌else◌, length, drop, take, bit_and, bytes_eq,
}
use btrm.Base.Words.{byte_at}
use btrm.Base.BigEndian.{u16_be_at, u32_to_be}
use btrm.Stun.{
  SocketAddr, Attrs, Stun, StunWriter, new_writer, attr, build, build_with_integrity, parse_stun,
  xor_addr_encode, xor_addr_decode, attr_xor_peer_address, padded,
}

abbrev pub binding_request : ℕ
binding_request = 0x0001

abbrev pub binding_response : ℕ
binding_response = 0x0101

abbrev pub allocate_request : ℕ
allocate_request = 0x0003

abbrev pub allocate_response : ℕ
allocate_response = 0x0103

abbrev pub allocate_error : ℕ
allocate_error = 0x0113

abbrev pub create_perm_request : ℕ
create_perm_request = 0x0008

abbrev pub create_perm_response : ℕ
create_perm_response = 0x0108

abbrev pub refresh_request : ℕ
refresh_request = 0x0004

abbrev pub refresh_response : ℕ
refresh_response = 0x0104

abbrev pub attr_username : ℕ
attr_username = 0x0006

abbrev pub attr_error_code : ℕ
attr_error_code = 0x0009

abbrev pub attr_realm : ℕ
attr_realm = 0x0014

abbrev pub attr_nonce : ℕ
attr_nonce = 0x0015

abbrev pub attr_xor_relayed_address : ℕ
attr_xor_relayed_address = 0x0016

abbrev pub attr_lifetime : ℕ
attr_lifetime = 0x000D

abbrev pub attr_requested_transport : ℕ
attr_requested_transport = 0x0019

abbrev pub attr_xor_mapped_address : ℕ
attr_xor_mapped_address = 0x0020

pub data TurnError : Type 0 where
  timed_out : TurnError
  no_mapped_address : TurnError
  no_nonce : TurnError
  no_realm : TurnError
  no_relayed_address : TurnError
  allocate_failed : (code : ℕ) → TurnError
  request_failed : TurnError

pub data Result (A : Type 0) : Type 0 where
  ok : A → Result A
  err : TurnError → Result A

-- The first attribute of a type that decodes to an address.
unfoldable pub find_addr : ℕ → Bytes → Attrs → Option SocketAddr
find_addr kind tid [] = none
find_addr kind tid ((atype, value) ∷ attrs) =
    let rest = find_addr kind tid attrs in
    if atype == kind
    then (elim (xor_addr_decode value tid) [ none ↦ rest | some addr ↦ some addr ])
    else rest

-- The value of the last attribute of a type.
unfoldable pub last_value : ℕ → Attrs → Option Bytes → Option Bytes
last_value kind [] found = found
last_value kind ((atype, value) ∷ attrs) found =
    last_value kind attrs (if atype == kind then some value else found)

-- The value of the first one.
pub first_value : ℕ → Attrs → Option Bytes
first_value kind [] = none
first_value kind ((atype, value) ∷ attrs) =
    let rest = first_value kind attrs in if atype == kind then some value else rest

-- A loop that waits for a datagram which decides it.
pub await : {A : Type 0} → (Bytes → Option (Result A)) → List Bytes → Result A × List Bytes
await decide [] = (err timed_out, [])
await decide (datagram ∷ arriving) =
    let rest = await decide arriving in
    elim (decide datagram) [ none ↦ rest | some result ↦ (result, arriving) ]

abbrev ok_or : {A : Type 0} → Option A → TurnError → Result A
ok_or none e = err e
ok_or (some a) e = ok a

-- The answers to a binding request.
abbrev binding_of : Bytes → Stun → Option (Result SocketAddr)
binding_of tid (mtype, rtid, attrs) =
    if (mtype == binding_response) && bytes_eq rtid tid
    then some (ok_or (find_addr attr_xor_mapped_address tid attrs) no_mapped_address)
    else none

unfoldable pub binding_reply : Bytes → Bytes → Option (Result SocketAddr)
unfolding find_addr
binding_reply tid datagram = elim (parse_stun (take 512 datagram)) [
  | none ↦ none
  | some stun ↦ binding_of tid stun
]

-- The message that is sent, and the result.
pub stun_binding : Bytes → List Bytes → Bytes × Result SocketAddr
unfolding await
stun_binding tid arriving =
    (build (new_writer binding_request tid), (await (binding_reply tid) arriving).0)

-- The payload of a message over TCP: what is read of the stream, and what is left of it.
pub read_stun_message : Bytes → Option (Bytes × Bytes)
read_stun_message stream =
    let first_two = u16_be_at stream 0 in
    let field_len = u16_be_at stream 2 in
    let whole =
      if bit_and first_two 0xC000 == 0x4000 then 4 + padded field_len else 20 + field_len in
    if ltb (length stream) 4
    then none
    else if ltb (length stream) whole
    then none
    else some (take whole stream, drop whole stream)

-- The credentials that a relay hands out: the nonce and the realm.
abbrev pub Challenge : Type 0
Challenge = Bytes × Bytes

pub record Allocation : Type 0 where
  pub relay_addr : SocketAddr
  pub nonce : Bytes
  pub realm : Bytes
  pub key : Bytes

module _ (from_utf8_lossy : Bytes → Bytes) where
  abbrev challenge_values : Option Bytes → Option Bytes → Result Challenge
  challenge_values none _ = err no_nonce
  challenge_values (some nonce) none = err no_realm
  challenge_values (some nonce) (some realm) = ok (nonce, from_utf8_lossy realm)

  abbrev challenge_of : Bytes → Stun → Option (Result Challenge)
  challenge_of tid (mtype, rtid, attrs) =
      if bytes_eq rtid tid && (mtype == allocate_error)
      then some
          (challenge_values (last_value attr_nonce attrs none) (last_value attr_realm attrs none))
      else none

  -- The answers to the first request for an allocation, which is refused.
  pub challenge_reply : Bytes → Bytes → Option (Result Challenge)
  unfolding last_value
  challenge_reply tid datagram = elim (parse_stun (take 1500 datagram)) [
    | none ↦ none
    | some stun ↦ challenge_of tid stun
  ]

abbrev pub error_code : Option Bytes → ℕ
error_code none = 0
error_code (some v) = if ltb (length v) 4 then 0 else byte_at v 2 * 100 + byte_at v 3

abbrev allocated_of : Bytes → Stun → Option (Result SocketAddr)
allocated_of tid (mtype, rtid, attrs) =
    if bytes_eq rtid tid
    then (if mtype == allocate_response
        then some (ok_or (find_addr attr_xor_relayed_address tid attrs) no_relayed_address)
        else if mtype == allocate_error
        then some (err (allocate_failed (error_code (first_value attr_error_code attrs))))
        else none)
    else none

-- The answers to the second one.
pub allocated_reply : Bytes → Bytes → Option (Result SocketAddr)
unfolding first_value
allocated_reply tid datagram = elim (parse_stun (take 1500 datagram)) [
  | none ↦ none
  | some stun ↦ allocated_of tid stun
]

abbrev confirmed : ℕ → Bytes → Option Stun → Result ℕ
confirmed kind tid none = err request_failed
confirmed kind tid (some (mtype, rtid, attrs)) =
    if bytes_eq rtid tid && (mtype == kind) then ok 0 else err request_failed

-- A request that waits for one datagram.
pub confirm : ℕ → Bytes → List Bytes → Result ℕ
confirm kind tid [] = err timed_out
confirm kind tid (datagram ∷ arriving) = confirmed kind tid (parse_stun (take 512 datagram))

module _ (hmac_sha1 : Bytes → Bytes → Bytes) (md5 : Bytes → Bytes) where
  -- `{username}:{realm}:{password}`
  pub long_term_key : Bytes → Bytes → Bytes → Bytes
  long_term_key username realm password = md5 (username ++ (58 ∷ (realm ++ (58 ∷ password))))

  abbrev pub with_credentials : Bytes → Bytes → Bytes → StunWriter → StunWriter
  with_credentials username realm nonce w =
      attr attr_nonce nonce (attr attr_realm realm (attr attr_username username w))

  pub udp_create_permission :
      Bytes → SocketAddr → Bytes → Bytes → Bytes → Bytes → List Bytes → Bytes × Result ℕ
  unfolding confirm
  udp_create_permission tid peer_addr nonce realm key username arriving = (
    build_with_integrity hmac_sha1
        (with_credentials username realm nonce (
          attr attr_xor_peer_address (xor_addr_encode peer_addr tid)
            (new_writer create_perm_request tid)))
        key,
    confirm create_perm_response tid arriving,
  )

  pub udp_refresh : Bytes → Bytes → Bytes → Bytes → Bytes → List Bytes → Bytes × Result ℕ
  unfolding confirm
  udp_refresh tid nonce realm key username arriving = (
    build_with_integrity hmac_sha1
        (with_credentials username realm nonce
          (attr attr_lifetime (u32_to_be 600) (new_writer refresh_request tid)))
        key,
    confirm refresh_response tid arriving,
  )

  -- The first request, and the one with credentials.
  pub allocate_first : Bytes → Bytes
  allocate_first tid =
      build (attr attr_requested_transport (17 ∷ 0 ∷ 0 ∷ 0 ∷ []) (new_writer allocate_request tid))

  pub allocate_signed : Bytes → Bytes → Bytes → Bytes → Bytes → Bytes
  allocate_signed tid username realm nonce key =
      build_with_integrity hmac_sha1
        (with_credentials username realm nonce
          (attr attr_requested_transport (17 ∷ 0 ∷ 0 ∷ 0 ∷ []) (new_writer allocate_request tid)))
        key

  abbrev with_relay : Bytes → Bytes → Bytes → Result SocketAddr → Result Allocation
  with_relay nonce realm key (err e) = err e
  with_relay nonce realm key (ok addr) =
      ok (record { relay_addr = addr; nonce = nonce; realm = realm; key = key })

  module _ (from_utf8_lossy : Bytes → Bytes) where
    abbrev allocate_then :
        Bytes
        → Bytes
        → Bytes
        → Bytes
        → Result Challenge × List Bytes
        → List Bytes × Result Allocation
    allocate_then first tid2 username credential (err e, arriving) = (first ∷ [], err e)
    allocate_then first tid2 username credential (ok (nonce, realm), arriving) =
        let key = long_term_key username realm credential in
        (
          first ∷ allocate_signed tid2 username realm nonce key ∷ [],
          with_relay nonce realm key (await (allocated_reply tid2) arriving).0,
        )

    -- The messages that are sent, and the result.
    pub udp_allocate : Bytes → Bytes → Bytes → Bytes → List Bytes → List Bytes × Result Allocation
    unfolding allocate_first allocate_signed long_term_key await
    udp_allocate tid tid2 username credential arriving =
        allocate_then (allocate_first tid) tid2 username credential
          (await (challenge_reply from_utf8_lossy tid) arriving)
