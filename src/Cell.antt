-- ===== src/Cell.antt =====
-- The 12 bytes of a cell: `encode_cell` and `encode_color` of crates/remote/src/lib.rs, and what
-- `cell_style` and `cell_content` read of them.
pub mod RoundTrip
pub mod Size
use btrm.Base.{
  ℕ, ◌+◌, ◌*◌, ◌/◌, min, bit_and, bit_or, [], ◌∷◌, ◌++◌, Bool, true, false, not, Option, none, some,
  Bytes, ◌==◌, if◌then◌else◌, length, take,
}
use btrm.Base.Slices.{write}
use btrm.Base.Words.{byte_at}
use btrm.Base.Utf8.{encode_utf8}

abbrev pub cell_size : ℕ
cell_size = 12

-- The content length that sends a reader to the table of overflow strings.
abbrev pub content_overflow : ℕ
content_overflow = 7

pub data Color : Type 0 where
  default : Color
  indexed : ℕ → Color
  rgb : ℕ → ℕ → ℕ → Color

pub record CellStyle : Type 0 where
  pub fg : Color
  pub bg : Color
  pub bold : Bool
  pub dim : Bool
  pub italic : Bool
  pub underline : Bool
  pub inverse : Bool

abbrev pub default_style : CellStyle
default_style = record {
  fg = default;
  bg = default;
  bold = false;
  dim = false;
  italic = false;
  underline = false;
  inverse = false;
}

abbrev shift_of : Bool → ℕ
shift_of true = 4
shift_of false = 1

-- The new flags, and the three bytes of the color, which are zero before.
unfoldable pub encode_color : Color → ℕ → Bool → ℕ × Bytes
encode_color default flags is_bg = (flags, 0 ∷ 0 ∷ 0 ∷ [])
encode_color (indexed idx) flags is_bg = (bit_or flags (1 * shift_of is_bg), idx ∷ 0 ∷ 0 ∷ [])
encode_color (rgb r g b) flags is_bg = (bit_or flags (2 * shift_of is_bg), r ∷ g ∷ b ∷ [])

-- `if b { flags |= bit; }`
abbrev flag : Bool → ℕ → ℕ → ℕ
flag b bit flags = if b then bit_or flags bit else flags

abbrev zeros : Bytes
zeros = 0 ∷ 0 ∷ 0 ∷ 0 ∷ []

-- The text of a cell: its length, and the bytes 8 to 11.
unfoldable pub encode_content : Option ℕ → ℕ × Bytes
encode_content none = (0, zeros)
encode_content (some ch) =
    let encoded = encode_utf8 ch in
    let len = min (length encoded) 4 in (len, write zeros 0 (take len encoded))

-- `f1 |= (len as u8) << 3` is skipped where there is no character: its length is 0 then, and
-- `0 << 3` changes nothing.
unfoldable pub encode_cell : Option ℕ → CellStyle → Bool → Bool → Bytes
unfolding encode_color encode_content encode_utf8
encode_cell ch style wide wide_cont =
    let fg = encode_color style.fg 0 false in
    let bg = encode_color style.bg fg.0 true in
    let f0 =
      flag style.underline 128
        (flag style.italic 64 (flag style.dim 32 (flag style.bold 16 bg.0))) in
    let content = encode_content ch in
    let f1 = bit_or (flag wide_cont 4 (flag wide 2 (flag style.inverse 1 0))) (content.0 * 8) in
    f0 ∷ f1 ∷ (fg.1 ++ (bg.1 ++ content.1))

abbrev bit_of : ℕ → ℕ → Bool
bit_of f k = not (bit_and (f / k) 1 == 0)

abbrev color_at : ℕ → Bytes → ℕ → Color
color_at kind cells idx =
    if kind == 1
    then indexed (byte_at cells idx)
    else if kind == 2
    then rgb (byte_at cells idx) (byte_at cells (idx + 1)) (byte_at cells (idx + 2))
    else default

-- The style of the cell whose bytes start at `idx`.
unfoldable pub style_at : Bytes → ℕ → CellStyle
style_at cells idx =
    let f0 = byte_at cells idx in
    let f1 = byte_at cells (idx + 1) in
    record {
      fg = color_at (bit_and f0 3) cells (idx + 2);
      bg = color_at (bit_and (f0 / 4) 3) cells (idx + 5);
      bold = bit_of f0 16;
      dim = bit_of f0 32;
      italic = bit_of f0 64;
      underline = bit_of f0 128;
      inverse = not (bit_and f1 1 == 0);
    }
