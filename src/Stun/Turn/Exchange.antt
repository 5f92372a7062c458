-- ===== src/Stun/Turn/Exchange.antt =====
-- What the exchanges with STUN and TURN servers come to.
use btrm.Base.{
  ℕ, ◌+◌, ◌<◌, ◌≤◌, ◌≡◌, ap, ◌∙◌, List, [], ◌∷◌, Bytes, none, some, length, take, arith, ◌⊎◌, ◌≢◌,
}
use btrm.Base.Lists.{All, length-append, take-all}
use btrm.Stun.{Attrs, new_writer, build, parse_stun}
use btrm.Stun.RoundTrip.{with_attrs, with_attrs_lem, write_attrs, IsWireAttr, parse_stun-build}
use btrm.Stun.Turn.{attr_nonce, attr_realm, attr_requested_transport, attr_username}

-- A message with a given type, transaction id and attributes that fit a datagram of `size` bytes.
abbrev message : ℕ → Bytes → Attrs → Bytes
message msg_type tid attrs = build (with_attrs attrs (new_writer msg_type tid))

pub record IsDatagram (size msg_type : ℕ) (tid : Bytes) (attrs : Attrs) : Type 0 where
  pub low : msg_type < 16384
  pub tid_length : length tid ≡ 12
  pub wire : All IsWireAttr attrs
  pub small : 20 + length (write_attrs attrs) ≤ size
  pub word : size ≤ 65535

length-message :
    (msg_type : ℕ) (tid : Bytes) (attrs : Attrs)
    → length tid ≡ 12
    → length (message msg_type tid attrs) ≡ 20 + length (write_attrs attrs)
unfolding build new_writer
length-message msg_type tid attrs t =
    rw (with_attrs_lem attrs (new_writer msg_type tid))
      (omega (arith, t, length-append {0} tid (write_attrs attrs)))

pub datagram_parsed :
    (size msg_type : ℕ) (tid : Bytes) (attrs : Attrs)
    → IsDatagram size msg_type tid attrs
    → parse_stun (take size (message msg_type tid attrs)) ≡ some (msg_type, tid, attrs)
datagram_parsed size msg_type tid attrs d =
    ap parse_stun (
      take-all size (message msg_type tid attrs)
        (omega (arith, d.small, length-message msg_type tid attrs d.tid_length)))
    ∙ parse_stun-build msg_type tid attrs d.low d.tid_length d.wire (omega (arith, d.small, d.word))

-- A datagram that is no message of some kinds with a transaction id: no message at all, one with
-- another id, or one of another kind.
abbrev pub NoAnswer : ℕ → List ℕ → Bytes → Bytes → Type 0
NoAnswer size kinds tid d =
    (parse_stun (take size d) ≡ none)
    ⊎ (mtype : ℕ) × (rtid : Bytes) × (attrs : Attrs) × (parse_stun (take size d)
        ≡ some (mtype, rtid, attrs))
      × ((rtid ≢ tid) ⊎ All (λ (kind : ℕ). mtype ≢ kind) kinds)

-- The attribute that asks for a relay over UDP, and those of a request with credentials.
abbrev pub transport : Attrs
transport = (attr_requested_transport, 17 ∷ 0 ∷ 0 ∷ 0 ∷ []) ∷ []

abbrev pub signed_attrs : Bytes → Bytes → Bytes → Attrs
signed_attrs username realm nonce =
    (attr_requested_transport, 17 ∷ 0 ∷ 0 ∷ 0 ∷ [])
    ∷ (attr_username, username)
    ∷ (attr_realm, realm)
    ∷ (attr_nonce, nonce)
    ∷ []
