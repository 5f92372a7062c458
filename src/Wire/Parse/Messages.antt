-- ===== src/Wire/Parse/Messages.antt =====
-- Each message that the server builds is read by the client as what it says.
use btrm.Base.{ℕ, ◌<◌, ◌≡◌, ◌≢◌, none, length, refl, ◌∷◌, ◌++◌, true, Bytes, some, arith}
use btrm.Base.Words.{
  u16_at, u32_at, u16_to_le, IsU16, IsU32, u16_from_le-u16_to_le, u32_from_le-u32_to_le,
}
use btrm.Base.Utf8.{is_utf8}
use btrm.Wire.{
  s2c_update, s2c_ready, update, created, created_n, closed, exited, title, text, hello,
}
use btrm.Wire.Server.{title_msg, created_msg, created_n_msg, closed_msg, text_msg}
use btrm.Wire.Client.{msg_hello, msg_exited}
use btrm.Wire.Parse.{
  parse_list, parse_search_results, parse_hello, parse_update, parse_created, parse_created_n,
  parse_closed, parse_exited, parse_title, parse_text, parse_server_msg,
}

module _ (id : ℕ) (id_fits : IsU16 id) where
  pub parse_server_msg-update :
      (payload : Bytes)
      → parse_server_msg (s2c_update ∷ (u16_to_le id ++ payload)) ≡ some (update id payload)
  unfolding parse_server_msg parse_update u16_at
  parse_server_msg-update payload = rw (u16_from_le-u16_to_le id id_fits) (ground arith)

  pub parse_server_msg-title_msg :
      (t : Bytes) → parse_server_msg (title_msg id t) ≡ some (title id t)
  unfolding parse_server_msg parse_title title_msg u16_at
  parse_server_msg-title_msg t = rw (u16_from_le-u16_to_le id id_fits) (ground arith)

  pub parse_server_msg-created_msg :
      (tag : Bytes)
      → is_utf8 tag ≡ true
      → parse_server_msg (created_msg id tag) ≡ some (created id tag)
  unfolding parse_server_msg parse_created created_msg u16_at
  parse_server_msg-created_msg tag t = rw (u16_from_le-u16_to_le id id_fits, t) (ground arith)

  -- A client reads the answer to a creation with a nonce as that nonce, that PTY and that tag. The
  -- numbers fit their words, and the tag is UTF-8.
  pub parse_server_msg-created_n_msg :
      (nonce : ℕ) (tag : Bytes)
      → IsU16 nonce
      → is_utf8 tag ≡ true
      → parse_server_msg (created_n_msg nonce id tag) ≡ some (created_n nonce id tag)
  unfolding parse_server_msg parse_created_n created_n_msg u16_at
  parse_server_msg-created_n_msg nonce tag n t =
      rw (u16_from_le-u16_to_le id id_fits, u16_from_le-u16_to_le nonce n, t) (ground arith)

  pub parse_server_msg-closed_msg : parse_server_msg (closed_msg id) ≡ some (closed id)
  unfolding parse_server_msg parse_closed closed_msg u16_at
  parse_server_msg-closed_msg = rw (u16_from_le-u16_to_le id id_fits) refl

  -- A client reads the exit of a PTY as that PTY and the bits of its exit status. The number of the
  -- PTY and the status fit their words.
  pub parse_server_msg-msg_exited :
      (status : ℕ)
      → IsU32 status
      → parse_server_msg (msg_exited id status) ≡ some (exited id status)
  unfolding parse_server_msg parse_exited msg_exited u16_at u32_at
  parse_server_msg-msg_exited status b =
      rw (u16_from_le-u16_to_le id id_fits, u32_from_le-u32_to_le status b) refl

  pub parse_server_msg-msg_hello :
      (features : ℕ)
      → IsU32 features
      → parse_server_msg (msg_hello id features) ≡ some (hello id features)
  unfolding parse_server_msg parse_hello msg_hello u16_at u32_at
  parse_server_msg-msg_hello features b =
      rw (u16_from_le-u16_to_le id id_fits, u32_from_le-u32_to_le features b) refl

  -- A client reads the text that the server sends as the text, with its nonce, its PTY, the number
  -- of lines in all and the number that the server puts in as the offset. The numbers fit their
  -- words, and the text is UTF-8.
  pub parse_server_msg-text_msg :
      (nonce total_lines start : ℕ) (t : Bytes)
      → IsU16 nonce
      → IsU32 total_lines
      → IsU32 start
      → is_utf8 t ≡ true
      → parse_server_msg (text_msg nonce id total_lines start t)
        ≡ some (text nonce id total_lines start t)
  unfolding parse_server_msg parse_text text_msg u16_at u32_at
  parse_server_msg-text_msg nonce total_lines start t a b c u =
      rw
        (
          u16_from_le-u16_to_le id id_fits,
          u16_from_le-u16_to_le nonce a,
          u32_from_le-u32_to_le total_lines b,
          u32_from_le-u32_to_le start c,
          u,
        )
        (ground arith)

module _ (msg : Bytes) (short : length msg < 3) where
  hello_short : parse_hello msg ≡ none
  unfolding parse_hello
  hello_short = ground arith

  update_short : parse_update msg ≡ none
  unfolding parse_update
  update_short = ground arith

  created_short : (parse_created msg ≡ none) × (parse_created_n msg ≡ none)
  unfolding parse_created parse_created_n
  created_short = (ground arith, ground arith)

  ended_short : (parse_closed msg ≡ none) × (parse_exited msg ≡ none)
  unfolding parse_closed parse_exited
  ended_short = (ground arith, ground arith)

  lists_short : (parse_list msg ≡ none) × (parse_search_results msg ≡ none)
  unfolding parse_list parse_search_results
  lists_short = (ground arith, ground arith)

  texts_short : (parse_title msg ≡ none) × (parse_text msg ≡ none)
  unfolding parse_title parse_text
  texts_short = (ground arith, ground arith)

-- A message of one or two bytes is refused, whatever its tag, but for the one that says that the
-- server is ready.
pub parse_server_msg-short :
    (kind : ℕ) (body : Bytes)
    → length (kind ∷ body) < 3
    → kind ≢ s2c_ready
    → parse_server_msg (kind ∷ body) ≡ none
unfolding parse_server_msg
parse_server_msg-short kind body short ne =
    let msg = kind ∷ body in
    let c = created_short msg short in
    let e = ended_short msg short in
    let l = lists_short msg short in
    let t = texts_short msg short in
    rw (hello_short msg short, update_short msg short, c.0, c.1, e.0, e.1, l.0, l.1, t.0, t.1)
      (ground arith)
