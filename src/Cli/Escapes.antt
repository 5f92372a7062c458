-- ===== src/Cli/Escapes.antt =====
-- `parse_escapes` undoes the writing of bytes as hexadecimal escapes.
use btrm.Base.{
  ℕ, zero, suc, ◌+◌, ◌*◌, ◌/◌, ◌%◌, ◌<◌, ◌≤◌, ◌≡◌, refl, ap, ◌∙◌, List, [], ◌∷◌, Bool, true, false,
  Option, none, some, Bytes, ltb, ◌==◌, if◌then◌else◌, length, arith, bit_or,
}
use btrm.Base.Lists.{All}
use btrm.Base.Bits.{every_below, every_below_at}
use btrm.Cli.{hex_digit, push_hex, escape_loop, parse_escapes}

-- A byte as it is, or as an escape.
pub data Piece : Type 0 where
  plain : ℕ → Piece
  hex : ℕ → Piece

abbrev digit : ℕ → ℕ
digit d = if ltb d 10 then 48 + d else 87 + d

pub write_pieces : List Piece → Bytes
write_pieces [] = []
write_pieces (plain b ∷ pieces) = b ∷ write_pieces pieces
write_pieces (hex b ∷ pieces) = 92 ∷ 120 ∷ digit (b / 16) ∷ digit (b % 16) ∷ write_pieces pieces

pub values : List Piece → Bytes
values [] = []
values (plain b ∷ pieces) = b ∷ values pieces
values (hex b ∷ pieces) = b ∷ values pieces

-- A byte as it is must not be a backslash.
unfoldable pub IsPiece : Piece → Type 0
IsPiece (plain b) = b == 92 ≡ false
IsPiece (hex b) = b < 256

abbrev same_number : Option ℕ → ℕ → Bool
same_number none d = false
same_number (some e) d = e == d

digit_table : every_below 16 (λ d. same_number (hex_digit (digit d)) d) ≡ true
unfolding every_below hex_digit
digit_table = refl

hex_digit-digit : (d : ℕ) → d < 16 → hex_digit (digit d) ≡ some d
hex_digit-digit d h =
    found (hex_digit (digit d))
      (every_below_at 16 (λ d. same_number (hex_digit (digit d)) d) d digit_table h)
  where
    found : (o : Option ℕ) → same_number o d ≡ true → o ≡ some d
    found none e = cc
    found (some e) same = ap some (ground (arith, same))

byte_table :
    every_below 16 (λ h. every_below 16 (λ l. bit_or (h * 16 % 256) l == h * 16 + l)) ≡ true
unfolding every_below
byte_table = refl

two_digits : (h l : ℕ) → h < 16 → l < 16 → bit_or (h * 16 % 256) l ≡ h * 16 + l
two_digits h l p q =
    let row =
      every_below_at 16 (λ h. every_below 16 (λ l. bit_or (h * 16 % 256) l == h * 16 + l)) h
        byte_table p in
    let cell = every_below_at 16 (λ l. bit_or (h * 16 % 256) l == h * 16 + l) l row q in
    ground (arith, cell)

-- A round at a byte that is no backslash, and at an escape.
loop_plain :
    (fuel b : ℕ) (bs : Bytes)
    → b == 92 ≡ false
    → length bs ≤ fuel
    → escape_loop (suc fuel) (b ∷ bs) ≡ b ∷ escape_loop fuel bs
unfolding escape_loop
loop_plain zero b [] e h = refl
loop_plain (suc fuel) b [] e h = refl
loop_plain fuel b (c ∷ bs) e h = rw e refl

loop_hex :
    (fuel b : ℕ) (bs : Bytes)
    → b < 256
    → escape_loop (suc fuel) (92 ∷ 120 ∷ digit (b / 16) ∷ digit (b % 16) ∷ bs)
      ≡ b ∷ escape_loop fuel bs
unfolding escape_loop push_hex
loop_hex fuel b bs h =
    let whole : b / 16 * 16 + b % 16 ≡ b = omega arith in
    rw
      (
        hex_digit-digit (b / 16) (omega arith),
        hex_digit-digit (b % 16) (omega arith),
        two_digits (b / 16) (b % 16) (omega arith) (omega arith),
        whole,
      )
      (ground arith)

loop-write_pieces :
    (fuel : ℕ) (pieces : List Piece)
    → All IsPiece pieces
    → length (write_pieces pieces) ≤ fuel
    → escape_loop fuel (write_pieces pieces) ≡ values pieces
unfolding write_pieces values IsPiece escape_loop
loop-write_pieces zero [] ok h = refl
loop-write_pieces (suc fuel) [] ok h = refl
loop-write_pieces zero (plain b ∷ pieces) ok h = absurd (omega arith)
loop-write_pieces zero (hex b ∷ pieces) ok h = absurd (omega arith)
loop-write_pieces (suc fuel) (plain b ∷ pieces) (e, ok) h =
    loop_plain fuel b (write_pieces pieces) e (omega arith)
    ∙ ap (λ (bs : Bytes). b ∷ bs) (loop-write_pieces fuel pieces ok (omega arith))
loop-write_pieces (suc fuel) (hex b ∷ pieces) (e, ok) h =
    loop_hex fuel b (write_pieces pieces) e
    ∙ ap (λ (bs : Bytes). b ∷ bs) (loop-write_pieces fuel pieces ok (omega arith))

-- A text in which each byte is written as it is or as an escape of two hexadecimal digits is parsed
-- as these bytes. A byte that is written as it is is no backslash, and one that is escaped is below
-- 256.
pub parse_escapes-write_pieces :
    (pieces : List Piece) → All IsPiece pieces → parse_escapes (write_pieces pieces) ≡ values pieces
unfolding parse_escapes
parse_escapes-write_pieces pieces ok =
    loop-write_pieces (length (write_pieces pieces)) pieces ok (omega arith)
