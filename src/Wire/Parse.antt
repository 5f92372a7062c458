-- ===== src/Wire/Parse.antt =====
-- `parse_server_msg` of crates/remote/src/lib.rs, an arm of its `match` to each function. Every read
-- of a word stands behind the test of the length that makes it a read inside the message.
pub mod Messages
pub mod Search
pub mod Ptys
use btrm.Base.{
  ℕ, zero, suc, ◌+◌, List, [], ◌∷◌, Bool, Option, none, some, Bytes, ltb, leb, ◌==◌, if◌then◌else◌,
  length, drop, u32_max,
}
use btrm.Base.Slices.{slice}
use btrm.Base.Words.{u16_at, u32_at, byte_at}
use btrm.Base.Utf8.{from_utf8_or_default}
use btrm.Wire.{
  s2c_hello, s2c_update, s2c_created, s2c_created_n, s2c_closed, s2c_exited, s2c_list, s2c_title,
  s2c_search_results, s2c_ready, s2c_text, PtyListEntry, SearchResultEntry, ServerMsg, hello,
  update, created, created_n, closed, exited, list, title, search_results, ready, text,
}

-- Nothing below reads a message that is shorter than its fixed part.
abbrev shorter : Bytes → ℕ → Bool
shorter xs n = ltb (length xs) n

pub parse_hello : Bytes → Option ServerMsg
parse_hello msg = if shorter msg 7 then none else some (hello (u16_at msg 1) (u32_at msg 3))

pub parse_update : Bytes → Option ServerMsg
parse_update msg = if shorter msg 3 then none else some (update (u16_at msg 1) (drop 3 msg))

pub parse_created : Bytes → Option ServerMsg
parse_created msg =
    if shorter msg 3
    then none
    else some (created (u16_at msg 1) (from_utf8_or_default (drop 3 msg)))

pub parse_created_n : Bytes → Option ServerMsg
parse_created_n msg =
    if shorter msg 5
    then none
    else some (created_n (u16_at msg 1) (u16_at msg 3) (from_utf8_or_default (drop 5 msg)))

pub parse_closed : Bytes → Option ServerMsg
parse_closed msg = if shorter msg 3 then none else some (closed (u16_at msg 1))

pub parse_exited : Bytes → Option ServerMsg
parse_exited msg = if shorter msg 7 then none else some (exited (u16_at msg 1) (u32_at msg 3))

-- The command behind a tag, and the offset behind the command. A list of the older format ends
-- without one.
pub list_command : Bytes → ℕ → Bytes × ℕ
list_command msg off =
    if leb (off + 2) (length msg)
    then (let cmd_len = u16_at msg off in
        let body = off + 2 in
        (
          (if leb (body + cmd_len) (length msg)
              then from_utf8_or_default (slice msg body cmd_len)
              else []),
          body + cmd_len,
        ))
    else ([], off)

-- `for _ in 0..count`: a truncated entry ends the loop, and the entries before it stay.
pub list_entries : ℕ → Bytes → ℕ → List PtyListEntry
list_entries zero msg off = []
list_entries (suc count) msg off =
    let tag_len = u16_at msg (off + 2) in
    let body = off + 4 in
    let command = list_command msg (body + tag_len) in
    let entry : PtyListEntry = record {
      pty_id = u16_at msg off;
      tag = from_utf8_or_default (slice msg body tag_len);
      command = command.0;
    } in
    let rest = list_entries count msg command.1 in
    if ltb (length msg) (off + 4)
    then []
    else if ltb (length msg) (body + tag_len)
    then []
    else entry ∷ rest

pub parse_list : Bytes → Option ServerMsg
parse_list msg = if shorter msg 3 then none else some (list (list_entries (u16_at msg 1) msg 3))

pub parse_title : Bytes → Option ServerMsg
parse_title msg = if shorter msg 3 then none else some (title (u16_at msg 1) (drop 3 msg))

-- One result at `off`, whose context has the length `context_len`.
pub search_entry : Bytes → ℕ → ℕ → SearchResultEntry
search_entry msg off context_len =
    let scroll_offset = u32_at msg (off + 8) in
    record {
      pty_id = u16_at msg off;
      score = u32_at msg (off + 2);
      primary_source = byte_at msg (off + 6);
      matched_sources = byte_at msg (off + 7);
      scroll_offset = if scroll_offset == u32_max then none else some scroll_offset;
      context = slice msg (off + 14) context_len;
    }

abbrev cons_entry :
    SearchResultEntry → Option (List SearchResultEntry) → Option (List SearchResultEntry)
cons_entry e none = none
cons_entry e (some es) = some (e ∷ es)

-- A truncated result refuses the whole message.
pub search_entries : ℕ → Bytes → ℕ → Option (List SearchResultEntry)
search_entries zero msg off = some []
search_entries (suc count) msg off =
    let context_len = u16_at msg (off + 12) in
    let rest = search_entries count msg (off + 14 + context_len) in
    if ltb (length msg) (off + 14)
    then none
    else if ltb (length msg) (off + 14 + context_len)
    then none
    else cons_entry (search_entry msg off context_len) rest

abbrev results_msg : ℕ → Option (List SearchResultEntry) → Option ServerMsg
results_msg request_id none = none
results_msg request_id (some results) = some (search_results request_id results)

pub parse_search_results : Bytes → Option ServerMsg
parse_search_results msg =
    if shorter msg 5 then none else results_msg (u16_at msg 1) (search_entries (u16_at msg 3) msg 5)

pub parse_text : Bytes → Option ServerMsg
parse_text msg =
    if shorter msg 13
    then none
    else some (
        text (u16_at msg 1) (u16_at msg 3) (u32_at msg 5) (u32_at msg 9)
          (from_utf8_or_default (drop 13 msg)))

unfoldable pub parse_server_msg : Bytes → Option ServerMsg
parse_server_msg [] = none
parse_server_msg (kind ∷ body) =
    let msg = kind ∷ body in
    if kind == s2c_hello
    then parse_hello msg
    else if kind == s2c_update
    then parse_update msg
    else if kind == s2c_created
    then parse_created msg
    else if kind == s2c_created_n
    then parse_created_n msg
    else if kind == s2c_closed
    then parse_closed msg
    else if kind == s2c_exited
    then parse_exited msg
    else if kind == s2c_list
    then parse_list msg
    else if kind == s2c_title
    then parse_title msg
    else if kind == s2c_search_results
    then parse_search_results msg
    else if kind == s2c_ready
    then some ready
    else if kind == s2c_text
    then parse_text msg
    else none
