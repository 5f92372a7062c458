-- ===== src/Cell/Size.antt =====
-- `encode_cell` gives the bytes of one cell.
use btrm.Base.{ℕ, ◌≡◌, refl, ◌∷◌, [], ◌++◌, Bool, false, true, Option, none, some, length, arith}
use btrm.Base.Lists.{length-append}
use btrm.Base.Slices.{length-write}
use btrm.Cell.{
  Color, default, indexed, rgb, CellStyle, encode_color, encode_content, encode_cell, cell_size,
}

length-encode_color :
    (color : Color) (f0 : ℕ) (background : Bool) → length (encode_color color f0 background).1 ≡ 3
unfolding encode_color
length-encode_color default f0 background = refl
length-encode_color (indexed i) f0 background = refl
length-encode_color (rgb r g b) f0 background = refl

length-encode_content : (ch : Option ℕ) → length (encode_content ch).1 ≡ 4
unfolding encode_content
length-encode_content none = refl
length-encode_content (some ch) = length-write (0 ∷ 0 ∷ 0 ∷ 0 ∷ []) 0 _

pub length-encode_cell :
    (ch : Option ℕ) (style : CellStyle) (wide wide_cont : Bool)
    → length (encode_cell ch style wide wide_cont) ≡ cell_size
unfolding encode_cell
length-encode_cell ch style wide wide_cont =
    let fg = encode_color style.fg 0 false in
    let bg = encode_color style.bg fg.0 true in
    let content = (encode_content ch).1 in
    omega (
      arith,
      length-encode_color style.fg 0 false,
      length-encode_color style.bg fg.0 true,
      length-encode_content ch,
      length-append {0} fg.1 (bg.1 ++ content),
      length-append {0} bg.1 content,
    )
