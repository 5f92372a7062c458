-- ===== src/Frame/Read.antt =====
-- Reading the cells: `cell_content`, `cell_style`, `get_text`, `get_all_text`, `get_ansi_text`,
-- `get_cell` and `push_sgr`. The results are UTF-8 bytes.
use btrm.Base.{
  ℕ, zero, suc, ◌+◌, ◌-◌, ◌*◌, ◌/◌, ◌%◌, min, bit_and, [], ◌∷◌, ◌++◌, Bool, true, false, not, ◌&&◌,
  ◌||◌, none, some, Bytes, ltb, ◌==◌, if◌then◌else◌,
}
use btrm.Base.Slices.{slice}
use btrm.Base.Words.{byte_at}
use btrm.Base.Maps.{lookup}
use btrm.Base.Utf8.{is_utf8, trim_end}
use btrm.Cell.{
  cell_size, content_overflow, Color, default, indexed, rgb, CellStyle, default_style, style_at,
}
use btrm.Frame.{FrameState, cell_offset, in_frame, is_wrapped}

-- The text of the cell number `flat`, whose bytes start at `12 * flat`. A continuation of a wide
-- character has none. A length of 5 or 6 reads on into the next cell; in the last cell the source
-- panics there, and the text is what is left of the cells here.
unfoldable pub content_at : FrameState → ℕ → Bytes
content_at f flat =
    let idx = flat * cell_size in
    let f1 = byte_at f.cells (idx + 1) in
    let content_len = bit_and (f1 / 8) 7 in
    let text = slice f.cells (idx + 8) content_len in
    if not (bit_and f1 4 == 0)
    then []
    else if content_len == content_overflow
    then (elim (lookup f.overflow flat) [ none ↦ [] | some s ↦ s ])
    else if content_len == 0
    then b' ' ∷ []
    else if is_utf8 text
    then text
    else b' ' ∷ []

pub cell_content : FrameState → ℕ → ℕ → Bytes
unfolding content_at
cell_content f row col = if in_frame f row col then content_at f (row * f.cols + col) else []

pub cell_style : FrameState → ℕ → ℕ → CellStyle
cell_style f row col =
    if in_frame f row col then style_at f.cells (cell_offset f row col) else default_style

pub get_cell : FrameState → ℕ → ℕ → Bytes
get_cell f row col =
    if in_frame f row col then slice f.cells (cell_offset f row col) cell_size else []

-- The cells `col`, …, `col + k - 1` of a row.
pub row_text : FrameState → ℕ → ℕ → ℕ → Bytes
row_text f zero row col = []
row_text f (suc k) row col = cell_content f row col ++ row_text f k row (col + 1)

-- One row of `get_text`, trimmed, with its newline.
text_line : FrameState → ℕ → ℕ → ℕ → ℕ → ℕ → Bytes
unfolding row_text cell_content
text_line f start_row start_col end_row end_col row =
    let c0 = if row == start_row then start_col else 0 in
    let c1 = if row == end_row then end_col else f.cols - 1 in
    let line = row_text f (min c1 (f.cols - 1) + 1 - c0) row c0 in
    let more = ltb row (min end_row (f.rows - 1)) && not (is_wrapped f row) in
    trim_end line ++ (if more then b'\n' ∷ [] else [])

pub text_lines : FrameState → ℕ → ℕ → ℕ → ℕ → ℕ → ℕ → Bytes
text_lines f start_row start_col end_row end_col zero row = []
text_lines f start_row start_col end_row end_col (suc k) row =
    text_line f start_row start_col end_row end_col row
    ++ text_lines f start_row start_col end_row end_col k (row + 1)

-- `for row in start_row..=end_row.min(rows - 1)`
unfoldable pub get_text : FrameState → ℕ → ℕ → ℕ → ℕ → Bytes
unfolding text_lines text_line trim_end is_wrapped
get_text f start_row start_col end_row end_col =
    if f.rows == 0 || f.cols == 0
    then []
    else text_lines f start_row start_col end_row end_col (min end_row (f.rows - 1) + 1 - start_row)
        start_row

unfoldable pub get_all_text : FrameState → Bytes
unfolding get_text
get_all_text f = if f.rows == 0 || f.cols == 0 then [] else get_text f 0 0 (f.rows - 1) (f.cols - 1)

-- `{n}` of a byte
abbrev decimal : ℕ → Bytes
decimal n =
    if ltb n 10
    then (b'0' + n) ∷ []
    else if ltb n 100
    then (b'0' + n / 10) ∷ (b'0' + n % 10) ∷ []
    else (b'0' + n / 100) ∷ (b'0' + n / 10 % 10) ∷ (b'0' + n % 10) ∷ []

abbrev code_if : Bool → ℕ → Bytes
code_if b digit = if b then b';' ∷ digit ∷ [] else []

-- `;38;5;n`, `;38;2;r;g;b`, and 48 for the background.
abbrev color_code : ℕ → Color → Bytes
color_code ground default = []
color_code ground (indexed n) = b';' ∷ ground ∷ b'8' ∷ b';' ∷ b'5' ∷ b';' ∷ decimal n
color_code ground (rgb r g b) =
    b';'
    ∷ ground
    ∷ b'8'
    ∷ b';'
    ∷ b'2'
    ∷ b';'
    ∷ (decimal r ++ (b';' ∷ (decimal g ++ (b';' ∷ decimal b))))

unfoldable pub push_sgr : CellStyle → Bytes
push_sgr style =
    0x1b
    ∷ b'['
    ∷ b'0'
    ∷ (code_if style.bold b'1'
        ++ (code_if style.dim b'2'
            ++ (code_if style.italic b'3'
                ++ (code_if style.underline b'4'
                    ++ (code_if style.inverse b'7'
                        ++ (color_code b'3' style.fg
                            ++ (color_code b'4' style.bg ++ (b'm' ∷ []))))))))

abbrev color_eq : Color → Color → Bool
color_eq default default = true
color_eq (indexed a) (indexed b) = a == b
color_eq (rgb a b c) (rgb d e f) = a == d && b == e && c == f
color_eq _ _ = false

abbrev bool_eq : Bool → Bool → Bool
bool_eq true b = b
bool_eq false b = not b

-- `==` on styles
pub style_eq : CellStyle → CellStyle → Bool
style_eq a b =
    color_eq a.fg b.fg
    && color_eq a.bg b.bg
    && bool_eq a.bold b.bold
    && bool_eq a.dim b.dim
    && bool_eq a.italic b.italic
    && bool_eq a.underline b.underline
    && bool_eq a.inverse b.inverse

-- One row of `get_ansi_text`: the line, and the style at its end.
ansi_cells : FrameState → ℕ → ℕ → ℕ → CellStyle → Bytes × CellStyle
ansi_cells f zero row col cur_style = ([], cur_style)
ansi_cells f (suc k) row col cur_style =
    let style = cell_style f row col in
    let rest = ansi_cells f k row (col + 1) style in
    (
      (if style_eq style cur_style then [] else push_sgr style)
          ++ (cell_content f row col ++ rest.0),
      rest.1,
    )

-- The style is the default again at the end of each row.
ansi_lines : FrameState → ℕ → ℕ → Bytes
unfolding ansi_cells cell_style cell_content
ansi_lines f zero row = []
ansi_lines f (suc k) row =
    let line = ansi_cells f f.cols row 0 default_style in
    let reset = if style_eq line.1 default_style then [] else 0x1b ∷ b'[' ∷ b'0' ∷ b'm' ∷ [] in
    let newline = if ltb row (f.rows - 1) then b'\n' ∷ [] else [] in
    trim_end line.0 ++ (reset ++ (newline ++ ansi_lines f k (row + 1)))

unfoldable pub get_ansi_text : FrameState → Bytes
unfolding ansi_lines push_sgr style_eq style_at trim_end
get_ansi_text f = if f.rows == 0 || f.cols == 0 then [] else ansi_lines f f.rows 0
