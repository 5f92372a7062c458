-- ===== src/Tests/Text.antt =====
-- Frames on a stream, escapes, and the creation of a PTY, at concrete ones.
use btrm.Base.{
  ◌≡◌, refl, List, [], ◌∷◌, ◌++◌, true, some, none, Bytes, arith, ltb, if◌then◌else◌, length,
}
use btrm.Base.Lists.{All}
use btrm.Base.Utf8.{is_utf8}
use btrm.Transport.{make_frame, read_frame, max_frame_size}
use btrm.Transport.Framing.{read_frame-make_frame}
use btrm.Cli.{parse_escapes, shell_escape}
use btrm.Cli.Escapes.{Piece, plain, hex, write_pieces, values, IsPiece, parse_escapes-write_pieces}
use btrm.Cli.Shell.{read_word, bare, read_word-shell_escape}
use btrm.Wire.Client.{msg_create_n_command}
use btrm.Server.Create.{decode_create_n}
use btrm.Server.Create.Program.{Program, words, payload_of, IsProgram}
use btrm.Server.Create.Decode.{decode_create_n-msg_create_n_command}

abbrev two_bytes : Bytes
two_bytes = 1 ∷ 2 ∷ []

read_frame-make_frame_example :
    read_frame (make_frame two_bytes ++ (9 ∷ []))
    ≡ (if ltb max_frame_size (length two_bytes) then none else some (two_bytes, 9 ∷ []))
read_frame-make_frame_example = read_frame-make_frame two_bytes (9 ∷ []) (omega arith)

-- The letter a, and an escape character as an escape.
abbrev pieces : List Piece
pieces = plain 97 ∷ hex 27 ∷ []

pieces-IsPiece : All IsPiece pieces
unfolding IsPiece
pieces-IsPiece = (refl, (omega arith, tt))

parse_escapes-write_pieces_example : parse_escapes (write_pieces pieces) ≡ values pieces
parse_escapes-write_pieces_example = parse_escapes-write_pieces pieces pieces-IsPiece

read_word-shell_escape_example :
    read_word bare (shell_escape (b'i' ∷ 39 ∷ b's' ∷ [])) ≡ some (b'i' ∷ 39 ∷ b's' ∷ [])
read_word-shell_escape_example = read_word-shell_escape (b'i' ∷ 39 ∷ b's' ∷ [])

letter_is_utf8 : is_utf8 (b'l' ∷ b's' ∷ []) ≡ true
unfolding is_utf8
letter_is_utf8 = refl

-- Two words.
abbrev list_all : Program
list_all = words (b'l' ∷ b's' ∷ []) (b'-' ∷ b'a' ∷ []) []

payload_is_utf8 : is_utf8 (payload_of list_all) ≡ true
unfolding is_utf8 payload_of
payload_is_utf8 = refl

list_all-IsProgram : IsProgram list_all
list_all-IsProgram = grind arith

decode_create_n-msg_create_n_command_example :
    decode_create_n (msg_create_n_command 300 24 80 (b'l' ∷ b's' ∷ []) (payload_of list_all))
    ≡ record {
      nonce = some 300;
      rows = 24;
      cols = 80;
      tag = b'l' ∷ b's' ∷ [];
      src_pty = none;
      command = none;
      argv = some ((b'l' ∷ b's' ∷ []) ∷ (b'-' ∷ b'a' ∷ []) ∷ []);
    }
decode_create_n-msg_create_n_command_example =
    decode_create_n-msg_create_n_command 300 24 80 (b'l' ∷ b's' ∷ []) list_all (omega arith)
      (omega arith) (omega arith) (omega arith) letter_is_utf8 payload_is_utf8 list_all-IsProgram
