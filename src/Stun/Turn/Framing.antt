-- ===== src/Stun/Turn/Framing.antt =====
-- Messages over TCP: `read_stun_message` takes one message off the stream.
use btrm.Base.{
  ℕ, ◌+◌, ◌*◌, ◌/◌, ◌%◌, ◌<◌, ◌≡◌, refl, ◌++◌, Bytes, Bool, true, false, not, some, length, bit_and,
  ◌==◌, arith,
}
use btrm.Base.Lists.{length-append, take-append, drop-append}
use btrm.Base.Words.{IsU16}
use btrm.Base.Bits.{every_below, every_below_at}
use btrm.Base.BigEndian.{u16_to_be, u32_to_be, u16_be_at, u16_be_at-Holds}
use btrm.Base.Holds.{Holds-all, Holds-left, Holds-right}
use btrm.Stun.{Attrs, new_writer, build, magic_cookie}
use btrm.Stun.RoundTrip.{with_attrs, with_attrs_lem, write_attrs, le→not_ltb}
use btrm.Stun.Turn.{read_stun_message}

-- The two highest bits of a word below 2 ^ 14 are not those of channel data.
abbrev is_message : ℕ → Bool
is_message n = not (bit_and n 0xC000 == 0x4000)

is_message_table : every_below 128 (λ a. every_below 128 (λ b. is_message (a * 128 + b))) ≡ true
unfolding every_below
is_message_table = refl

not-true : (b : Bool) → not b ≡ true → b ≡ false
not-true true h = cc
not-true false h = refl

below_channel_data : (n : ℕ) → n < 16384 → bit_and n 0xC000 == 0x4000 ≡ false
below_channel_data n h =
    let row =
      every_below_at 128 (λ a. every_below 128 (λ b. is_message (a * 128 + b))) (n / 128)
        is_message_table (omega arith) in
    let cell =
      every_below_at 128 (λ b. is_message (n / 128 * 128 + b)) (n % 128) row (omega arith) in
    let same_number : n / 128 * 128 + n % 128 ≡ n = omega arith in
    not-true _ (rw same_number at cell)

-- A stream whose header says the length of what it begins with.
read_whole :
    (msg rest : Bytes) (first_two field_len : ℕ)
    → u16_be_at (msg ++ rest) 0 ≡ first_two
    → u16_be_at (msg ++ rest) 2 ≡ field_len
    → first_two < 16384
    → length msg ≡ 20 + field_len
    → read_stun_message (msg ++ rest) ≡ some (msg, rest)
unfolding read_stun_message
read_whole msg rest first_two field_len f l low e =
    let total = length-append {0} msg rest in
    rw
      (
        f,
        l,
        below_channel_data first_two low,
        le→not_ltb (length (msg ++ rest)) 4 (omega (arith, total, e)),
        le→not_ltb (length (msg ++ rest)) (20 + field_len) (omega (arith, total, e)),
        ← e,
        take-append msg rest,
        drop-append msg rest,
      )
      refl

-- Of a stream that begins with a message, the reader takes that message and leaves what is behind
-- it. The two highest bits of the message's type are zero, its transaction id has 12 bytes, and the
-- length of its attributes fits its word.
pub read_stun_message-build :
    (msg_type : ℕ) (tid : Bytes) (attrs : Attrs) (rest : Bytes)
    → msg_type < 16384
    → length tid ≡ 12
    → IsU16 (length (write_attrs attrs))
    → read_stun_message (build (with_attrs attrs (new_writer msg_type tid)) ++ rest)
      ≡ some (build (with_attrs attrs (new_writer msg_type tid)), rest)
unfolding build new_writer
read_stun_message-build msg_type tid attrs rest low t fits =
    let body = write_attrs attrs in
    let len = length body in
    let after_len : Bytes = u32_to_be magic_cookie ++ (tid ++ body) in
    let after_type : Bytes = u16_to_be (len % 65536) ++ after_len in
    let msg : Bytes = u16_to_be msg_type ++ after_type in
    let h0 = Holds-left msg rest (Holds-all (msg ++ rest)) in
    let h2 = Holds-right (u16_to_be msg_type) after_type h0 in
    let len_read : u16_be_at (msg ++ rest) 2 ≡ len = omega (
      arith,
      u16_be_at-Holds (len % 65536) (omega arith) (Holds-left (u16_to_be (len % 65536)) _ h2),
    ) in
    rw (with_attrs_lem attrs (new_writer msg_type tid)) (
      read_whole msg rest msg_type len
        (u16_be_at-Holds msg_type (omega arith) (Holds-left (u16_to_be msg_type) _ h0)) len_read low
        (omega (arith, t, length-append {0} tid body)))
