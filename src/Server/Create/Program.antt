-- ===== src/Server/Create/Program.antt =====
-- What the server makes of the command of a message that creates a PTY: `payload.contains('\0')` and
-- what hangs on it, in `handle_client` of crates/server/src/lib.rs.
use btrm.Base.{
  ℕ, ◌≡◌, ◌≢◌, refl, ap, ◌∙◌, List, [], ◌∷◌, ◌++◌, append-nil, append_assoc, All, ◌==◌, true, false,
  Option, none, some, Bytes, arith,
}
use btrm.Server.Create.{command_of, argv_of, has_nul, split_nul, non_empty, if_filled, trim}

-- What a client asks to run: a command line, or a program with its arguments, one at least.
pub data Program : Type 0 where
  line : (text : Bytes) → Program
  words : (program first : Bytes) (more : List Bytes) → Program

-- The words, with a zero byte between each two.
abbrev pub joined : Bytes → List Bytes → Bytes
joined w [] = w
joined w (v ∷ more) = w ++ 0 ∷ joined v more

unfoldable pub payload_of : Program → Bytes
payload_of (line text) = text
payload_of (words program first more) = joined program (first ∷ more)

abbrev pub NoZero : Bytes → Type 0
NoZero bs = All (λ (b : ℕ). b ≢ 0) bs

abbrev pub IsWord : Bytes → Type 0
IsWord w = NoZero w × (w ≢ [])

-- A command line has no zero byte, and a word has none and is not empty.
abbrev pub IsProgram : Program → Type 0
IsProgram (line text) = NoZero text
IsProgram (words program first more) = IsWord program × IsWord first × All IsWord more

-- A command line without the blanks around it; none where nothing is left of it.
abbrev pub command_line : Program → Option Bytes
command_line (line text) = elim (trim text) [ [] ↦ none | b ∷ bs ↦ some (b ∷ bs) ]
command_line (words program first more) = none

abbrev pub arguments : Program → Option (List Bytes)
arguments (line text) = none
arguments (words program first more) = some (program ∷ first ∷ more)

has_nul-NoZero : (bs : Bytes) → NoZero bs → has_nul bs ≡ false
unfolding has_nul
has_nul-NoZero [] h = refl
has_nul-NoZero (b ∷ bs) (p, h) = ground (arith, p, has_nul-NoZero bs h)

has_nul-joined : (w v : Bytes) (more : List Bytes) → has_nul (joined w (v ∷ more)) ≡ true
unfolding has_nul
has_nul-joined [] v more = refl
has_nul-joined (b ∷ w) v more = ground (arith, has_nul-joined w v more)

split_nul-last : (piece bs : Bytes) → NoZero bs → split_nul piece bs ≡ non_empty (piece ++ bs) []
unfolding split_nul
split_nul-last piece [] h = rw append-nil refl
split_nul-last piece (b ∷ bs) (p, h) =
    let filled : b == 0 ≡ false = ground (arith, p) in
    rw (filled, split_nul-last (piece ++ b ∷ []) bs h, append_assoc) refl

split_nul-next :
    (piece bs rest : Bytes)
    → NoZero bs
    → split_nul piece (bs ++ 0 ∷ rest) ≡ non_empty (piece ++ bs) (split_nul [] rest)
unfolding split_nul
split_nul-next piece [] rest h = rw append-nil refl
split_nul-next piece (b ∷ bs) rest (p, h) =
    let filled : b == 0 ≡ false = ground (arith, p) in
    rw (filled, split_nul-next (piece ++ b ∷ []) bs rest h, append_assoc) refl

non_empty-IsWord : (w : Bytes) (ws : List Bytes) → w ≢ [] → non_empty w ws ≡ w ∷ ws
non_empty-IsWord [] ws h = absurd (h refl)
non_empty-IsWord (b ∷ w) ws h = refl

split_nul-joined :
    (w : Bytes) (more : List Bytes)
    → IsWord w
    → All IsWord more
    → split_nul [] (joined w more) ≡ w ∷ more
split_nul-joined w [] (z, filled) h = split_nul-last [] w z ∙ non_empty-IsWord w [] filled
split_nul-joined w (v ∷ more) (z, filled) (hv, h) =
    split_nul-next [] w (joined v more) z
    ∙ non_empty-IsWord w (split_nul [] (joined v more)) filled
    ∙ ap (λ (ws : List Bytes). w ∷ ws) (split_nul-joined v more hv h)

pub command_lem : (p : Program) → IsProgram p → command_of (some (payload_of p)) ≡ command_line p
unfolding payload_of
command_lem (line text) h = rw (has_nul-NoZero text h) (filled (trim text))
  where
    filled : (t : Bytes) → if_filled t ≡ elim t [ [] ↦ none | b ∷ bs ↦ some (b ∷ bs) ]
    filled [] = refl
    filled (b ∷ bs) = refl
command_lem (words program first more) h = rw (has_nul-joined program first more) refl

pub argv_lem : (p : Program) → IsProgram p → argv_of (some (payload_of p)) ≡ arguments p
unfolding payload_of
argv_lem (line text) h = rw (has_nul-NoZero text h) refl
argv_lem (words program first more) (hp, hf, h) =
    rw (has_nul-joined program first more, split_nul-joined program (first ∷ more) hp (hf, h)) refl
