-- ===== src/Cli.antt =====
-- Of the command line: `parse_escapes` of crates/cli/src/agent.rs, and
-- `shell_escape` of crates/cli/src/transport.rs.
pub mod Escapes
pub mod Shell
use btrm.Base.{
  ℕ, zero, suc, ◌+◌, ◌-◌, ◌*◌, ◌%◌, List, [], ◌∷◌, ◌++◌, Bool, true, false, not, ◌&&◌, Option, none,
  some, Bytes, leb, ltb, ◌==◌, if◌then◌else◌, length, drop, bit_or,
}
use btrm.Base.Words.{byte_at}

pub hex_digit : ℕ → Option ℕ
hex_digit b =
    if leb b'0' b && leb b b'9'
    then some (b - b'0')
    else if leb b'a' b && leb b b'f'
    then some (b - b'a' + 10)
    else if leb b'A' b && leb b b'F'
    then some (b - b'A' + 10)
    else none

-- `out.push(h << 4 | l)`, or the backslash where one of the two is no digit.
pub push_hex : Option ℕ → Option ℕ → Bytes → Bytes → Bytes
push_hex (some h) (some l) behind kept = bit_or (h * 16 % 256) l ∷ behind
push_hex (some h) none behind kept = kept
push_hex none _ behind kept = kept

-- Each round takes a byte at least, so a round for each byte is enough.
pub escape_loop : ℕ → Bytes → Bytes
unfolding hex_digit push_hex
escape_loop zero bs = []
escape_loop (suc fuel) [] = []
escape_loop (suc fuel) (b ∷ []) = b ∷ []
escape_loop (suc fuel) (b ∷ c ∷ rest) =
    let behind = escape_loop fuel rest in
    let kept = b ∷ escape_loop fuel (c ∷ rest) in
    let behind_hex = escape_loop fuel (drop 2 rest) in
    if not (b == 92)
    then kept
    else if c == b'n'
    then 10 ∷ behind
    else if c == b'r'
    then 13 ∷ behind
    else if c == b't'
    then 9 ∷ behind
    else if c == 92
    then 92 ∷ behind
    else if c == b'0'
    then 0 ∷ behind
    else if (c == b'x') && leb 2 (length rest)
    then push_hex (hex_digit (byte_at rest 0)) (hex_digit (byte_at rest 1)) behind_hex kept
    else kept

pub parse_escapes : Bytes → Bytes
unfolding escape_loop
parse_escapes bs = escape_loop (length bs) bs

-- The characters but the quotes as they are; a quote leaves the single quotes for double ones.
pub escape_chars : Bytes → Bytes
escape_chars [] = []
escape_chars (ch ∷ s) =
    let rest = escape_chars s in if ch == 39 then 39 ∷ 34 ∷ 39 ∷ 34 ∷ 39 ∷ rest else ch ∷ rest

pub shell_escape : Bytes → Bytes
unfolding escape_chars
shell_escape s = 39 ∷ (escape_chars s ++ 39 ∷ [])
