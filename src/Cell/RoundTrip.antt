-- ===== src/Cell/RoundTrip.antt =====
-- The style of a cell, read back from its bytes.
use btrm.Base.{
  ℕ, ◌*◌, ◌/◌, ◌<◌, ◌≡◌, refl, ◌∙◌, Bool, true, false, not, ◌&&◌, Option, none, some, Bytes, ◌==◌,
  ==_iff, arith, bit_and, bit_or,
}
use btrm.Base.Bits.{every_below, every_below_at, same, same-eq}
use btrm.Base.Words.{byte_at}
use btrm.Cell.{
  Color, default, indexed, rgb, CellStyle, flag, bit_of, encode_color, encode_content, encode_cell,
  style_at, color_at,
}

both : (Bool → Bool) → Bool
both p = p true && p false

both_at : (p : Bool → Bool) (b : Bool) → both p ≡ true → p b ≡ true
unfolding both
both_at p true h = ground arith
both_at p false h = ground arith

-- The second byte of a cell, of which `inverse` is the lowest bit.
abbrev second : Bool → Bool → Bool → ℕ → ℕ
second inverse wide wide_cont len =
    bit_or (flag wide_cont 4 (flag wide 2 (flag inverse 1 0))) (len * 8)

abbrev inverse_test : Bool → Bool → Bool → ℕ → Bool
inverse_test i w c len = same (not (bit_and (second i w c len) 1 == 0)) i

inverse_table :
    both (λ i. both (λ w. both (λ c. every_below 5 (λ len. inverse_test i w c len)))) ≡ true
unfolding both every_below same
inverse_table = refl

inverse_read : (i w c : Bool) (len : ℕ) → len < 5 → not (bit_and (second i w c len) 1 == 0) ≡ i
inverse_read i w c len h =
    let t1 =
      both_at (λ i. both (λ w. both (λ c. every_below 5 (λ len. inverse_test i w c len)))) i
        inverse_table in
    let t2 = both_at (λ w. both (λ c. every_below 5 (λ len. inverse_test i w c len))) w t1 in
    let t3 = both_at (λ c. every_below 5 (λ len. inverse_test i w c len)) c t2 in
    same-eq _ _ (every_below_at 5 (λ len. inverse_test i w c len) len t3 h)

-- The first byte: the kinds of the two colors, and four flags above them.
abbrev first : ℕ → Bool → Bool → Bool → Bool → ℕ
first kinds b d i u = flag u 128 (flag i 64 (flag d 32 (flag b 16 kinds)))

abbrev first_test : ℕ → Bool → Bool → Bool → Bool → Bool
first_test kinds b d i u =
    let f0 = first kinds b d i u in
    (bit_and f0 3 == bit_and kinds 3)
    && (bit_and (f0 / 4) 3 == bit_and (kinds / 4) 3)
    && same (bit_of f0 16) b
    && same (bit_of f0 32) d
    && same (bit_of f0 64) i
    && same (bit_of f0 128) u

first_table :
    every_below 16
      (λ kinds. both (λ b. both (λ d. both (λ i. both (λ u. first_test kinds b d i u)))))
    ≡ true
unfolding both every_below same
first_table = refl

record FirstByte (kinds : ℕ) (b d i u : Bool) : Type 0 where
  fg_read : bit_and (first kinds b d i u) 3 ≡ bit_and kinds 3
  bg_read : bit_and (first kinds b d i u / 4) 3 ≡ bit_and (kinds / 4) 3
  bold_read : bit_of (first kinds b d i u) 16 ≡ b
  dim_read : bit_of (first kinds b d i u) 32 ≡ d
  italic_read : bit_of (first kinds b d i u) 64 ≡ i
  underline_read : bit_of (first kinds b d i u) 128 ≡ u

six :
    (a b c d e f : Bool)
    → (a && b && c && d && e && f) ≡ true
    → (a ≡ true) × (b ≡ true) × (c ≡ true) × (d ≡ true) × (e ≡ true) × (f ≡ true)
six a b c d e f h = ground arith

first-FirstByte : (kinds : ℕ) (b d i u : Bool) → kinds < 16 → FirstByte kinds b d i u
first-FirstByte kinds b d i u h =
    let t0 =
      every_below_at 16
        (λ kinds. both (λ b. both (λ d. both (λ i. both (λ u. first_test kinds b d i u))))) kinds
        first_table h in
    let t1 = both_at (λ b. both (λ d. both (λ i. both (λ u. first_test kinds b d i u)))) b t0 in
    let t2 = both_at (λ d. both (λ i. both (λ u. first_test kinds b d i u))) d t1 in
    let t3 = both_at (λ i. both (λ u. first_test kinds b d i u)) i t2 in
    let t4 = both_at (λ u. first_test kinds b d i u) u t3 in
    let f0 = first kinds b d i u in
    let (p, q, r, s, x, y) =
      six (bit_and f0 3 == bit_and kinds 3) (bit_and (f0 / 4) 3 == bit_and (kinds / 4) 3)
        (same (bit_of f0 16) b) (same (bit_of f0 32) d) (same (bit_of f0 64) i)
        (same (bit_of f0 128) u) t4 in
    record {
      fg_read = (==_iff _ _).0 p;
      bg_read = (==_iff _ _).0 q;
      bold_read = same-eq _ _ r;
      dim_read = same-eq _ _ s;
      italic_read = same-eq _ _ x;
      underline_read = same-eq _ _ y;
    }

content_short : (ch : Option ℕ) → (encode_content ch).0 < 5
unfolding encode_content
content_short none = omega arith
content_short (some ch) = omega arith

abbrev style_of : Color → Color → Bool → Bool → Bool → Bool → Bool → CellStyle
style_of fg bg b d i u v = record {
  fg = fg;
  bg = bg;
  bold = b;
  dim = d;
  italic = i;
  underline = u;
  inverse = v;
}

module _ (ch : Option ℕ) (b d i u v wide wide_cont : Bool) where
  -- By the kinds of its colors, the style that the bytes of a cell stand for.
  style_at_lem :
      (kinds : ℕ) (cells : Bytes)
      → kinds < 16
      → byte_at cells 0 ≡ first kinds b d i u
      → byte_at cells 1 ≡ second v wide wide_cont (encode_content ch).0
      → style_at cells 0
        ≡ style_of
            (color_at (bit_and kinds 3) cells 2)
            (color_at (bit_and (kinds / 4) 3) cells 5)
            b
            d
            i
            u
            v
  unfolding style_at
  style_at_lem kinds cells h e0 e1 =
      let f = first-FirstByte kinds b d i u h in
      let inv = inverse_read v wide wide_cont (encode_content ch).0 (content_short ch) in
      rw
        (
          e0, e1, f.fg_read, f.bg_read, f.bold_read, f.dim_read, f.italic_read, f.underline_read,
          inv,
        )
        refl

  read_at :
      (kinds : ℕ) (fg bg : Color)
      → kinds < 16
      → byte_at (encode_cell ch (style_of fg bg b d i u v) wide wide_cont) 0 ≡ first kinds b d i u
      → byte_at (encode_cell ch (style_of fg bg b d i u v) wide wide_cont) 1
        ≡ second v wide wide_cont (encode_content ch).0
      → color_at (bit_and kinds 3) (encode_cell ch (style_of fg bg b d i u v) wide wide_cont) 2 ≡ fg
      → color_at
          (bit_and (kinds / 4) 3)
          (encode_cell ch (style_of fg bg b d i u v) wide wide_cont)
          5
        ≡ bg
      → style_at (encode_cell ch (style_of fg bg b d i u v) wide wide_cont) 0
        ≡ style_of fg bg b d i u v
  read_at kinds fg bg h e0 e1 ef eb = style_at_lem kinds _ h e0 e1 ∙ rw (ef, eb) refl

  style_read :
      (fg bg : Color)
      → style_at (encode_cell ch (style_of fg bg b d i u v) wide wide_cont) 0
        ≡ style_of fg bg b d i u v
  unfolding encode_cell encode_color
  style_read default default = read_at 0 default default (omega arith) refl refl refl refl
  style_read (indexed x) default = read_at 1 (indexed x) default (omega arith) refl refl refl refl
  style_read (rgb x y z) default = read_at 2 (rgb x y z) default (omega arith) refl refl refl refl
  style_read default (indexed n) = read_at 4 default (indexed n) (omega arith) refl refl refl refl
  style_read (indexed x) (indexed n) =
      read_at 5 (indexed x) (indexed n) (omega arith) refl refl refl refl
  style_read (rgb x y z) (indexed n) =
      read_at 6 (rgb x y z) (indexed n) (omega arith) refl refl refl refl
  style_read default (rgb l m n) = read_at 8 default (rgb l m n) (omega arith) refl refl refl refl
  style_read (indexed x) (rgb l m n) =
      read_at 9 (indexed x) (rgb l m n) (omega arith) refl refl refl refl
  style_read (rgb x y z) (rgb l m n) =
      read_at 10 (rgb x y z) (rgb l m n) (omega arith) refl refl refl refl

-- The style that a reader finds in an encoded cell is the style that was encoded, whatever the
-- character and the width of the cell.
pub style_at-encode_cell :
    (ch : Option ℕ) (style : CellStyle) (wide wide_cont : Bool)
    → style_at (encode_cell ch style wide wide_cont) 0 ≡ style
style_at-encode_cell ch style wide wide_cont =
    style_read ch style.bold style.dim style.italic style.underline style.inverse wide wide_cont
      style.fg style.bg
