-- ===== src/Server/Reply.antt =====
-- The messages of a client that ask for text: the arms `C2S_READ`, `C2S_COPY_RANGE`, `C2S_SEARCH` and
-- `C2S_MOUSE` of `handle_client` in crates/server/src/lib.rs.
pub mod Range
pub mod Rank
pub mod Keeps
use btrm.Base.{
  ℕ, zero, suc, ◌+◌, ◌-◌, ◌%◌, min, List, [], ◌∷◌, ◌++◌, Bool, true, false, not, ◌&&◌, ◌||◌, Option,
  none, some, Bytes, ltb, leb, ◌==◌, if◌then◌else◌, length, take, drop, bit_and,
}
use btrm.Base.Slices.{slice}
use btrm.Base.Words.{byte_at, u16_at, u32_at}
use btrm.Base.Utf8.{is_utf8}
use btrm.Base.Keyed.{Keyed, get, put, member}
use btrm.Frame.{FrameState}
use btrm.Frame.Read.{get_all_text, get_ansi_text}
use btrm.Wire.Server.{text_msg, build_search_results_msg, SearchResultRow}
use btrm.Server.Client.{ClientState, try_send, is_id}
use btrm.Server.Session.{
  Session, Pty, PtyDriver, PtySearchResult, OsCall, pty_write_all, set_client, set_pty,
}
use btrm.Server.Create.{trim}

abbrev read_ansi : ℕ
read_ansi = 1

abbrev read_tail : ℕ
read_tail = 2

-- A line without a carriage return at its end.
abbrev chop_cr : Bytes → Bytes
chop_cr [] = []
chop_cr (b ∷ []) = if b == 13 then [] else b ∷ []
chop_cr (b ∷ c ∷ bs) = b ∷ chop_cr (c ∷ bs)

abbrev last_line : Bytes → List Bytes
last_line [] = []
last_line (b ∷ bs) = (b ∷ bs) ∷ []

-- `str::lines`; `line` is what the current line has so far.
pub lines : Bytes → Bytes → List Bytes
lines line [] = last_line line
lines line (b ∷ bs) =
    let next = lines [] bs in
    let more = lines (line ++ b ∷ []) bs in if b == 10 then chop_cr line ∷ next else more

-- `join("\n")`
pub join : List Bytes → Bytes
join [] = []
join (l ∷ []) = l
join (l ∷ m ∷ ls) = l ++ (10 ∷ join (m ∷ ls))

-- The lines to send, from the first to before the last.
pub read_range : Bool → ℕ → ℕ → ℕ → ℕ × ℕ
read_range tail offset limit count =
    let last = count - offset in
    let first = min offset count in
    if tail
    then (if limit == 0 then 0 else last - limit, last)
    else (first, if limit == 0 then count else min (first + limit) count)

abbrev extract : Bool → FrameState → Bytes
extract ansi f = if ansi then get_ansi_text f else get_all_text f

-- The results of a search in the order of their scores, the greatest first; of one score the lead of
-- the client comes first, and then the smaller id.
pub comes_first : Option ℕ → SearchResultRow → SearchResultRow → Bool
comes_first lead a b =
    if a.score == b.score
    then (if is_id a.pty_id lead
        then (if is_id b.pty_id lead then leb a.pty_id b.pty_id else true)
        else (if is_id b.pty_id lead then false else leb a.pty_id b.pty_id))
    else ltb b.score a.score

pub insert_row : Option ℕ → SearchResultRow → List SearchResultRow → List SearchResultRow
insert_row lead r [] = r ∷ []
insert_row lead r (t ∷ rows) =
    let rest = insert_row lead r rows in if comes_first lead r t then r ∷ t ∷ rows else t ∷ rest

pub sort_rows : Option ℕ → List SearchResultRow → List SearchResultRow
unfolding comes_first insert_row
sort_rows lead [] = []
sort_rows lead (r ∷ rows) = insert_row lead r (sort_rows lead rows)

abbrev pub lead_of : Option ClientState → Option ℕ
lead_of none = none
lead_of (some c) = c.lead

module _ {D : Type 0} (dr : PtyDriver D) where
  -- `take_snapshot`, given the flags of the terminal line.
  pub take_snapshot : Pty D → Pty D × FrameState
  take_snapshot pty =
      let flags = pty.lflag_cache in
      let shot = dr.snapshot pty.driver flags.0 flags.1 in (record pty { driver = shot.0 }, shot.1)

  -- `while scroll_offset > 0`: of a terminal that has a row each round comes nearer to zero, so a
  -- round for each line is enough. (Of one without rows the source would not come to an end.)
  pub read_pages : ℕ → Bool → ℕ → ℕ → D → D × List Bytes
  unfolding lines
  read_pages zero ansi rows offset d = (d, [])
  read_pages (suc fuel) ansi rows offset d =
      let paged = dr.scrollback_frame d offset in
      let page = lines [] (extract ansi paged.1) in
      let kept = if ltb offset rows then take (min offset (length page)) page else page in
      let rest = read_pages fuel ansi rows (offset - rows) paged.0 in
      if offset == 0
      then (d, [])
      else if leb offset rows
      then (paged.0, kept)
      else (rest.0, kept ++ rest.1)

  -- The message, and the PTY after it.
  pub read_pty : Bytes → Pty D → Pty D × Bytes
  unfolding take_snapshot read_pages read_range join
  read_pty msg pty =
      let flags = byte_at msg 13 in
      let ansi = not (bit_and flags read_ansi == 0) in
      let tail = not (bit_and flags read_tail == 0) in
      let rows = (dr.size pty.driver).0 in
      let shot = take_snapshot pty in
      let scrollback_lines = (shot.1).scrollback_lines in
      let pages = read_pages scrollback_lines ansi rows scrollback_lines (shot.0).driver in
      let all_lines = pages.1 ++ lines [] (extract ansi shot.1) in
      let range = read_range tail (u32_at msg 5) (u32_at msg 9) (length all_lines) in
      let sent = join (slice all_lines range.0 (range.1 - range.0)) in
      (
        record (shot.0) { driver = pages.0 },
        text_msg (u16_at msg 1) (u16_at msg 3) ((scrollback_lines + rows) % 4294967296)
            (range.0 % 4294967296) sent,
      )

  abbrev pub send_read : ℕ → ℕ → Pty D × Bytes → Session D → Session D
  send_read client_id pid (pty, text) s =
      set_client client_id (λ (c : ClientState). (try_send text c).0)
        (set_pty pid (λ (p : Pty D). pty) s)

  abbrev pub read_of : ℕ → Bytes → Option (Pty D) → Session D → Session D
  read_of client_id msg none s = s
  read_of client_id msg (some pty) s = send_read client_id (u16_at msg 3) (read_pty msg pty) s

  pub handle_read : ℕ → Bytes → Session D → Session D × Bool
  unfolding read_pty
  handle_read client_id msg s = (read_of client_id msg (get s.ptys (u16_at msg 3)) s, false)

  abbrev pub copy_of : ℕ → Bytes → Option (Pty D) → Session D → Session D
  copy_of client_id msg none s = s
  copy_of client_id msg (some pty) s =
      let start_tail = u32_at msg 5 in
      let text =
        dr.get_text_range pty.driver start_tail (u16_at msg 9) (u32_at msg 11) (u16_at msg 15) in
      set_client client_id
        (λ (c : ClientState).
          (try_send
            (text_msg (u16_at msg 1) (u16_at msg 3) (dr.total_lines pty.driver) start_tail text)
            c).0)
        s

  pub handle_copy_range : ℕ → Bytes → Session D → Session D × Bool
  handle_copy_range client_id msg s = (copy_of client_id msg (get s.ptys (u16_at msg 3)) s, false)

  abbrev row_of : ℕ → Option PtySearchResult → List SearchResultRow → List SearchResultRow
  row_of pty_id none rows = rows
  row_of pty_id (some r) rows =
      record {
        pty_id = pty_id;
        score = r.score;
        primary_source = r.primary_source;
        matched_sources = r.matched_sources;
        context = r.context;
        scroll_offset = r.scroll_offset;
      }
      ∷ rows

  pub found_rows : Bytes → Keyed (Pty D) → List SearchResultRow
  found_rows query [] = []
  found_rows query ((pty_id, pty) ∷ ptys) =
      row_of pty_id (dr.search_result pty.driver query) (found_rows query ptys)

  pub handle_search : ℕ → Bytes → Session D → Session D × Bool
  unfolding found_rows sort_rows
  handle_search client_id msg s =
      let query = trim (if is_utf8 (drop 3 msg) then drop 3 msg else []) in
      let found = if length query == 0 then [] else found_rows query s.ptys in
      let ranked = sort_rows (lead_of (get s.clients client_id)) found in
      (
        set_client client_id
            (λ (c : ClientState). (try_send (build_search_results_msg (u16_at msg 1) ranked) c).0)
            s,
        false,
      )

  -- What the terminal makes of the event goes to the process, where there is a descriptor.
  abbrev pub mouse_written : ℕ → Option Bytes → Session D → Session D
  mouse_written pid none s = s
  mouse_written pid (some written) s =
      if member pid s.pty_fds
      then record s { os_calls = s.os_calls ++ pty_write_all pid written ∷ [] }
      else s

  abbrev pub mouse_of : Bytes → Option (Pty D) → Session D → Session D
  mouse_of msg none s = s
  mouse_of msg (some pty) s =
      let flags = pty.lflag_cache in
      mouse_written (u16_at msg 1)
        (dr.mouse_event pty.driver (byte_at msg 3) (byte_at msg 4) (u16_at msg 5) (u16_at msg 7)
          flags.0 flags.1)
        s

  pub handle_mouse : Bytes → Session D → Session D × Bool
  handle_mouse msg s = (mouse_of msg (get s.ptys (u16_at msg 1)) s, false)
