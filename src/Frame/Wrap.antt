-- ===== src/Frame/Wrap.antt =====
-- `wrap_text_lines` and `push_wrapped_word` of crates/remote/src/lib.rs. A line is a list of code
-- points. `char_width` and `str_width` stand for the crate `unicode-width`.
use btrm.Base.{
  ℕ, ◌+◌, max, List, [], ◌∷◌, ◌++◌, Bool, true, false, not, ◌&&◌, Option, none, some, ltb, leb,
  ◌==◌, if◌then◌else◌,
}
use btrm.Base.Utf8.{is_whitespace}

abbrev is_empty : List ℕ → Bool
is_empty [] = true
is_empty (x ∷ xs) = false

abbrev pub cons_head : ℕ → List (List ℕ) → List (List ℕ)
cons_head c [] = (c ∷ []) ∷ []
cons_head c (w ∷ ws) = (c ∷ w) ∷ ws

-- `text.split('\n')`
pub split_lines : List ℕ → List (List ℕ)
split_lines [] = [] ∷ []
split_lines (c ∷ cs) =
    let rest = split_lines cs in if c == b'\n' then [] ∷ rest else cons_head c rest

-- `paragraph.split_whitespace()`, with the word that is being read.
pub split_words : List ℕ → List ℕ → List (List ℕ)
split_words word [] = if is_empty word then [] else word ∷ []
split_words word (c ∷ cs) =
    let rest = split_words (if is_whitespace c then [] else word ++ (c ∷ [])) cs in
    if is_whitespace c && not (is_empty word) then word ∷ rest else rest

abbrev pub split_whitespace : List ℕ → List (List ℕ)
split_whitespace text = split_words [] text

-- `out`, `line` and `line_width` of the loop.
pub record Wrapping : Type 0 where
  pub out : List (List ℕ)
  pub line : List ℕ
  pub line_width : ℕ

-- `out.push(take(line)); line_width = 0;`
abbrev pub flush : Wrapping → Wrapping
flush w = record { out = w.out ++ (w.line ∷ []); line = []; line_width = 0 }

module _ (char_width : ℕ → Option ℕ) (str_width : List ℕ → ℕ) where
  pub char_columns : ℕ → ℕ
  char_columns ch = max (elim (char_width ch) [ none ↦ 1 | some w ↦ w ]) 1

  pub push_char : ℕ → ℕ → Wrapping → Wrapping
  unfolding char_columns
  push_char ch width w =
      let ch_width = char_columns ch in
      let v = if ltb width (w.line_width + ch_width) && not (is_empty w.line) then flush w else w in
      record v { line = v.line ++ (ch ∷ []); line_width = v.line_width + ch_width }

  pub push_chars : List ℕ → ℕ → Wrapping → Wrapping
  push_chars [] width w = w
  push_chars (ch ∷ chars) width w = push_chars chars width (push_char ch width w)

  -- A word that is wider than a line is broken between its characters.
  pub push_wrapped_word : List ℕ → ℕ → Wrapping → Wrapping
  unfolding push_chars push_char
  push_wrapped_word word width w =
      let word_width = str_width word in
      let flushed = flush w in
      if is_empty w.line
      then (if leb word_width width
          then record w { line = w.line ++ word; line_width = word_width }
          else push_chars word width w)
      else if leb (w.line_width + 1 + word_width) width
      then record w { line = w.line ++ (b' ' ∷ word); line_width = w.line_width + (1 + word_width) }
      else if leb word_width width
      then record flushed { line = flushed.line ++ word; line_width = word_width }
      else push_chars word width flushed

  pub push_words : List (List ℕ) → ℕ → Wrapping → Wrapping
  push_words [] width w = w
  push_words (word ∷ words) width w = push_words words width (push_wrapped_word word width w)

  wrap_paragraph : List ℕ → ℕ → List (List ℕ) → List (List ℕ)
  unfolding push_words push_wrapped_word split_words
  wrap_paragraph [] width out = out ++ ([] ∷ [])
  wrap_paragraph (c ∷ cs) width out =
      let w =
        push_words (split_whitespace (c ∷ cs)) width
          (record { out = out; line = []; line_width = 0 }) in
      if is_empty w.line then w.out else w.out ++ (w.line ∷ [])

  wrap_paragraphs : List (List ℕ) → ℕ → List (List ℕ) → List (List ℕ)
  wrap_paragraphs [] width out = out
  wrap_paragraphs (p ∷ ps) width out = wrap_paragraphs ps width (wrap_paragraph p width out)

  unfoldable pub wrap_text_lines : List ℕ → ℕ → List (List ℕ)
  unfolding wrap_paragraphs wrap_paragraph split_lines is_whitespace
  wrap_text_lines text width =
      let out = wrap_paragraphs (split_lines text) width [] in
      if width == 0 then [] else elim out [ [] ↦ [] ∷ [] | l ∷ ls ↦ l ∷ ls ]
