-- ===== src/Server/Create/Decode.antt =====
-- What the server makes of the client's `msg_create_n_command`.
use btrm.Base.{
  ℕ, ◌+◌, ◌≤◌, ◌≡◌, refl, sym, ap, ◌∙◌, ◌∷◌, ◌++◌, true, none, some, Bytes, length, drop, min,
  arith, u16_max, le→leb,
}
use btrm.Base.Lists.{length-append, take-all, drop-append}
use btrm.Base.Words.{u16_to_le, IsU16}
use btrm.Base.Holds.{
  Holds, Holds-all, Holds-left, Holds-right, Holds-tail, slice-Holds, u16_at-Holds,
}
use btrm.Base.Utf8.{is_utf8}
use btrm.Stun.RoundTrip.{le→not_ltb}
use btrm.Wire.{c2s_create_n}
use btrm.Wire.Client.{msg_create_n, msg_create_n_command}
use btrm.Server.Create.{decode_create_n, command_of, argv_of}
use btrm.Server.Create.Program.{
  Program, payload_of, IsProgram, command_line, arguments, command_lem, argv_lem,
}

-- The bytes of the message, one field behind the other.
abbrev fields : ℕ → ℕ → ℕ → Bytes → Bytes → Bytes
fields nonce rows cols tag command =
    c2s_create_n
    ∷ (u16_to_le nonce
        ++ (u16_to_le rows ++ (u16_to_le cols ++ (u16_to_le (length tag) ++ (tag ++ command)))))

msg-fields :
    (nonce rows cols : ℕ) (tag command : Bytes)
    → length tag ≤ u16_max
    → msg_create_n_command nonce rows cols tag command ≡ fields nonce rows cols tag command
unfolding msg_create_n_command msg_create_n
msg-fields nonce rows cols tag command h =
    let whole : min (length tag) u16_max ≡ length tag = omega arith in
    rw (whole, take-all (length tag) tag (omega arith)) refl

module _ (nonce rows cols : ℕ) (tag command : Bytes) where
  msg : Bytes
  msg = fields nonce rows cols tag command

  after_cols : Bytes
  after_cols = u16_to_le (length tag) ++ (tag ++ command)

  at_nonce : Holds msg 1 (u16_to_le nonce ++ (u16_to_le rows ++ (u16_to_le cols ++ after_cols)))
  unfolding msg after_cols
  at_nonce = Holds-tail c2s_create_n _ (Holds-all msg)

  at_rows : Holds msg 3 (u16_to_le rows ++ (u16_to_le cols ++ after_cols))
  at_rows =
      Holds-right (u16_to_le nonce) (u16_to_le rows ++ (u16_to_le cols ++ after_cols)) at_nonce

  at_cols : Holds msg 5 (u16_to_le cols ++ after_cols)
  at_cols = Holds-right (u16_to_le rows) (u16_to_le cols ++ after_cols) at_rows

  at_len : Holds msg 7 (u16_to_le (length tag) ++ (tag ++ command))
  unfolding after_cols
  at_len = Holds-right (u16_to_le cols) after_cols at_cols

  at_tag : Holds msg 9 (tag ++ command)
  at_tag = Holds-right (u16_to_le (length tag)) (tag ++ command) at_len

  length-msg : length msg ≡ 9 + (length tag + length command)
  unfolding msg
  length-msg = omega (arith, length-append {0} tag command)

  command_behind : drop (9 + length tag) msg ≡ command
  unfolding msg
  command_behind =
      let front : Bytes =
        c2s_create_n
        ∷ (u16_to_le nonce
            ++ (u16_to_le rows ++ (u16_to_le cols ++ (u16_to_le (length tag) ++ tag)))) in
      let whole : length front ≡ 9 + length tag = omega arith in
      rw (sym whole) (drop-append front command)

  decoded :
      IsU16 nonce
      → IsU16 rows
      → IsU16 cols
      → length tag ≤ u16_max
      → is_utf8 tag ≡ true
      → is_utf8 command ≡ true
      → decode_create_n msg ≡ record {
        nonce = some nonce;
        rows = rows;
        cols = cols;
        tag = tag;
        src_pty = none;
        command = command_of (some command);
        argv = argv_of (some command);
      }
  unfolding decode_create_n
  decoded n r c t u v =
      rw
        (
          u16_at-Holds nonce n (Holds-left (u16_to_le nonce) _ at_nonce),
          u16_at-Holds rows r (Holds-left (u16_to_le rows) _ at_rows),
          u16_at-Holds cols c (Holds-left (u16_to_le cols) _ at_cols),
          u16_at-Holds (length tag) (omega arith) (Holds-left (u16_to_le (length tag)) _ at_len),
          le→leb 3 (length msg) (omega (arith, length-msg)),
          le→leb 7 (length msg) (omega (arith, length-msg)),
          le→leb 9 (length msg) (omega (arith, length-msg)),
          le→leb (9 + length tag) (length msg) (omega (arith, length-msg)),
          le→not_ltb (length msg) (9 + length tag) (omega (arith, length-msg)),
          slice-Holds tag (Holds-left tag command at_tag),
          command_behind,
          u,
          v,
        )
        refl

-- The server takes from the client's message for a new PTY with a nonce and a program what the client
-- put into it: the nonce, the size, the tag, and the program: a command line, which has no zero byte,
-- as the command, without the blanks around it, and two or more words with a zero byte between each
-- two, none of them empty or with a zero byte, as the arguments. The numbers fit their words, and the
-- tag, of at most 65535 bytes, and the payload of the program are UTF-8.
pub decode_create_n-msg_create_n_command :
    (nonce rows cols : ℕ) (tag : Bytes) (program : Program)
    → IsU16 nonce
    → IsU16 rows
    → IsU16 cols
    → length tag ≤ u16_max
    → is_utf8 tag ≡ true
    → is_utf8 (payload_of program) ≡ true
    → IsProgram program
    → decode_create_n (msg_create_n_command nonce rows cols tag (payload_of program)) ≡ record {
      nonce = some nonce;
      rows = rows;
      cols = cols;
      tag = tag;
      src_pty = none;
      command = command_line program;
      argv = arguments program;
    }
unfolding msg
decode_create_n-msg_create_n_command nonce rows cols tag program n r c t u v p =
    let command = payload_of program in
    rw (← command_lem program p, ← argv_lem program p)
      (ap decode_create_n (msg-fields nonce rows cols tag command t)
        ∙ decoded nonce rows cols tag command n r c t u v)
