-- ===== src/Wire/Parse/Search.antt =====
-- The results of a search, as the server sends them and the client reads them.
use btrm.Base.{
  ℕ, suc, ◌+◌, ◌≤◌, ◌≡◌, refl, sym, ◌∙◌, List, [], ◌∷◌, ◌++◌, map, false, Bytes, Option, some, none,
  ltb, ◌==◌, if◌then◌else◌, length, take, length-take, min, arith, u16_max, u32_max, All,
  take-length,
}
use btrm.Base.Slices.{slice}
use btrm.Base.Holds.{
  Holds, Holds-all, Holds-left, Holds-right, Holds-tail, Holds-at, Holds-le, slice-Holds,
  byte_at-Holds, u16_at-Holds, u32_at-Holds,
}
use btrm.Base.Words.{byte_at, u16_at, u32_at, u16_to_le, u32_to_le, IsU16, IsU32}
use btrm.Wire.{SearchResultEntry, s2c_search_results, search_results}
use btrm.Wire.Server.{
  SearchResultRow, sent_offset, search_row, search_rows, build_search_results_msg,
}
use btrm.Wire.Parse.{search_entry, search_entries, parse_search_results, parse_server_msg}

-- The numbers of a result fit their words.
pub record IsWireRow (r : SearchResultRow) : Type 0 where
  pub id_fits : IsU16 r.pty_id
  pub score_fits : IsU32 r.score

abbrev pub received_offset : Option ℕ → Option ℕ
received_offset none = none
received_offset (some offset) = some (min offset 4294967294)

-- A client gets an offset below the greatest word and the first 65535 bytes of the context.
abbrev pub received : SearchResultRow → SearchResultEntry
received r = record {
  pty_id = r.pty_id;
  score = r.score;
  primary_source = r.primary_source;
  matched_sources = r.matched_sources;
  scroll_offset = received_offset r.scroll_offset;
  context = take (min (length r.context) u16_max) r.context;
}

sent_offset-IsU32 : (o : Option ℕ) → IsU32 (sent_offset o)
unfolding sent_offset
sent_offset-IsU32 none = omega arith
sent_offset-IsU32 (some n) = omega arith

received_offset_lem :
    (o : Option ℕ)
    → (if sent_offset o == u32_max then none else some (sent_offset o)) ≡ received_offset o
unfolding sent_offset
received_offset_lem none = refl
received_offset_lem (some n) = ground arith

module _ (msg : Bytes) (off : ℕ) (r : SearchResultRow) (w : IsWireRow r)
    (h : Holds msg off (search_row r)) where
  abbrev ctx : Bytes
  ctx = take (min (length r.context) u16_max) r.context

  length-ctx : length ctx ≡ min (length r.context) u16_max
  length-ctx = omega (arith, length-take (min (length r.context) u16_max) r.context)

  record Fields : Type 0 where
    id_read : u16_at msg off ≡ r.pty_id
    score_read : u32_at msg (off + 2) ≡ r.score
    primary_read : byte_at msg (off + 6) ≡ r.primary_source
    matched_read : byte_at msg (off + 7) ≡ r.matched_sources
    offset_read : u32_at msg (off + 8) ≡ sent_offset r.scroll_offset
    len_read : u16_at msg (off + 12) ≡ length ctx
    context_read : slice msg (off + 14) (length ctx) ≡ ctx
    inside : off + 14 + length ctx ≤ length msg

  fields : Fields
  unfolding search_row
  fields =
      let n = min (length r.context) u16_max in
      let h2 = Holds-right (u16_to_le r.pty_id) _ h in
      let h6 = Holds-at (off + 6) (omega arith) (Holds-right (u32_to_le r.score) _ h2) in
      let h7 = Holds-at (off + 7) (omega arith) (Holds-tail r.primary_source _ h6) in
      let h8 = Holds-at (off + 8) (omega arith) (Holds-tail r.matched_sources _ h7) in
      let h12 =
        Holds-at (off + 12) (omega arith)
          (Holds-right (u32_to_le (sent_offset r.scroll_offset)) _ h8) in
      let h14 = Holds-at (off + 14) (omega arith) (Holds-right (u16_to_le n) ctx h12) in
      record {
        id_read = u16_at-Holds r.pty_id w.id_fits (Holds-left (u16_to_le r.pty_id) _ h);
        score_read = u32_at-Holds r.score w.score_fits (Holds-left (u32_to_le r.score) _ h2);
        primary_read = byte_at-Holds r.primary_source _ h6;
        matched_read = byte_at-Holds r.matched_sources _ h7;
        offset_read =
            u32_at-Holds (sent_offset r.scroll_offset) (sent_offset-IsU32 r.scroll_offset)
              (Holds-left (u32_to_le (sent_offset r.scroll_offset)) _ h8);
        len_read = u16_at-Holds n (omega arith) (Holds-left (u16_to_le n) ctx h12) ∙ sym length-ctx;
        context_read = slice-Holds ctx h14;
        inside = Holds-le ctx h14;
      }

  length-search_row : length (search_row r) ≡ 14 + length ctx
  unfolding search_row
  length-search_row = omega arith

  search_entry_lem : search_entry msg off (u16_at msg (off + 12)) ≡ received r
  unfolding search_entry
  search_entry_lem =
      let f = fields in
      rw
        (
          f.len_read,
          f.id_read,
          f.score_read,
          f.primary_read,
          f.matched_read,
          f.offset_read,
          f.context_read,
          received_offset_lem r.scroll_offset,
        )
        refl

  search_entries_step :
      (count : ℕ) (es : List SearchResultEntry)
      → search_entries count msg (off + length (search_row r)) ≡ some es
      → search_entries (suc count) msg off ≡ some (received r ∷ es)
  unfolding search_entries
  search_entries_step count es e =
      let f = fields in
      let next : off + 14 + length ctx ≡ off + length (search_row r) =
        omega (arith, length-search_row) in
      let l1 : ltb (length msg) (off + 14) ≡ false = ground (arith, f.inside) in
      let l2 : ltb (length msg) (off + 14 + length ctx) ≡ false = ground (arith, f.inside) in
      rw (search_entry_lem, f.len_read, l1, l2, next, e) refl

search_entries-search_rows :
    (rows : List SearchResultRow) (msg : Bytes) (off : ℕ)
    → All IsWireRow rows
    → Holds msg off (search_rows rows)
    → search_entries (length rows) msg off ≡ some (map received rows)
unfolding search_rows
search_entries-search_rows [] msg off w h = unfold search_entries in refl
search_entries-search_rows (r ∷ rows) msg off (w, ws) h =
    search_entries_step msg off r w (Holds-left (search_row r) (search_rows rows) h) (length rows)
      (map received rows)
      (search_entries-search_rows rows msg (off + length (search_row r)) ws
        (Holds-right (search_row r) (search_rows rows) h))

parse_search_results_lem :
    (request_id : ℕ) (rows : List SearchResultRow)
    → IsU16 request_id
    → length rows ≤ u16_max
    → All IsWireRow rows
    → parse_search_results (
        s2c_search_results
        ∷ (u16_to_le request_id ++ (u16_to_le (length rows) ++ search_rows rows)))
      ≡ some (search_results request_id (map received rows))
unfolding parse_search_results
parse_search_results_lem request_id rows fit le w =
    let msg =
      s2c_search_results
      ∷ (u16_to_le request_id ++ (u16_to_le (length rows) ++ search_rows rows)) in
    let h1 = Holds-tail s2c_search_results _ (Holds-all msg) in
    let h3 = Holds-right (u16_to_le request_id) _ h1 in
    let h5 = Holds-right (u16_to_le (length rows)) (search_rows rows) h3 in
    let id = u16_at-Holds request_id fit (Holds-left (u16_to_le request_id) _ h1) in
    let n = u16_at-Holds (length rows) (omega arith) (Holds-left (u16_to_le (length rows)) _ h3) in
    let long : ltb (length msg) 5 ≡ false = ground arith in
    rw (long, id, n, search_entries-search_rows rows msg 5 w h5) refl

-- A client reads the results of a search as the server's rows, in their order: an offset below the
-- greatest word, and the first 65535 bytes of a context. There are at most 65535 rows, and the
-- numbers of the message and of each row fit their words.
pub parse_server_msg-build_search_results_msg :
    (request_id : ℕ) (rows : List SearchResultRow)
    → IsU16 request_id
    → length rows ≤ u16_max
    → All IsWireRow rows
    → parse_server_msg (build_search_results_msg request_id rows)
      ≡ some (search_results request_id (map received rows))
unfolding build_search_results_msg parse_server_msg
parse_server_msg-build_search_results_msg request_id rows fit le w =
    let n : min (length rows) u16_max ≡ length rows = omega arith in
    rw (n, take-length rows) (parse_search_results_lem request_id rows fit le w)
