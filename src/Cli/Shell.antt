-- ===== src/Cli/Shell.antt =====
-- A shell reads what `shell_escape` makes of a text as one word, the text.
use btrm.Base.{
  ℕ, ◌≡◌, refl, [], ◌∷◌, ◌++◌, ◌||◌, Option, none, some, Bytes, ◌==◌, if◌then◌else◌, arith,
  Bool-cases, inl, inr,
}
use btrm.Cli.{shell_escape, escape_chars}

-- How a shell reads a word made of quoted parts: of a single-quoted part every character, of a
-- double-quoted one every character but those that the shell expands.
pub data Quote : Type 0 where
  bare : Quote
  single : Quote
  double : Quote

abbrev cons_some : ℕ → Option Bytes → Option Bytes
cons_some c none = none
cons_some c (some s) = some (c ∷ s)

pub read_word : Quote → Bytes → Option Bytes
read_word bare [] = some []
read_word single [] = none
read_word double [] = none
read_word bare (c ∷ s) =
    let in_single = read_word single s in
    let in_double = read_word double s in
    if c == 39 then in_single else if c == 34 then in_double else none
read_word single (c ∷ s) =
    let outside = read_word bare s in
    let more = read_word single s in if c == 39 then outside else cons_some c more
read_word double (c ∷ s) =
    let outside = read_word bare s in
    let more = read_word double s in
    if c == 34
    then outside
    else if (c == 36) || ((c == 96) || (c == 92))
    then none
    else cons_some c more

read_escaped : (s : Bytes) → read_word single (escape_chars s ++ 39 ∷ []) ≡ some s
unfolding read_word escape_chars
read_escaped [] = refl
read_escaped (ch ∷ s) = elim (Bool-cases (ch == 39)) [
  | inl quote ↦ let is : ch ≡ 39 = ground (arith, quote) in rw (is, read_escaped s) refl
  | inr other ↦ rw (other, read_escaped s, other) refl
]

-- A text, escaped for a shell, is read by it as one word, which is the text.
pub read_word-shell_escape : (s : Bytes) → read_word bare (shell_escape s) ≡ some s
unfolding shell_escape read_word
read_word-shell_escape s = read_escaped s
