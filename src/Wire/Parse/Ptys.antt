-- ===== src/Wire/Parse/Ptys.antt =====
-- The list of PTYs, as the server sends it and the client reads it.
use btrm.Base.{
  ℕ, suc, ◌+◌, ◌%◌, ◌≤◌, ◌≡◌, refl, ap, ◌∙◌, List, [], ◌∷◌, ◌++◌, map, Bool, true, false, Bytes,
  some, ltb, leb, if◌then◌else◌, length, arith, u16_max, All, length-append,
}
use btrm.Base.Slices.{slice}
use btrm.Base.Holds.{
  Holds, Holds-all, Holds-left, Holds-right, Holds-tail, Holds-at, Holds-le, slice-Holds,
  u16_at-Holds,
}
use btrm.Base.Words.{u16_at, u16_to_le, IsU16}
use btrm.Base.Utf8.{is_utf8}
use btrm.Wire.{PtyListEntry, s2c_list, list}
use btrm.Wire.Server.{
  Pty, Ptys, command_or_empty, insert_id, sort_ids, ids, pty_at, list_item, list_items,
  pty_list_msg,
}
use btrm.Wire.Parse.{list_command, list_entries, parse_list, parse_server_msg}

-- The number fits its word, and the tag and the command are texts whose lengths fit theirs.
pub record IsWirePty (id : ℕ) (pty : Pty) : Type 0 where
  pub id_fits : IsU16 id
  pub tag_fits : length pty.tag ≤ u16_max
  pub command_fits : length (command_or_empty pty.command) ≤ u16_max
  pub tag_is_utf8 : is_utf8 pty.tag ≡ true
  pub command_is_utf8 : is_utf8 (command_or_empty pty.command) ≡ true

abbrev pub entry_of : ℕ → Pty → PtyListEntry
entry_of id pty = record { pty_id = id; tag = pty.tag; command = command_or_empty pty.command }

module _ (msg : Bytes) (off id : ℕ) (pty : Pty) (w : IsWirePty id pty)
    (h : Holds msg off (list_item id pty)) where
  abbrev cmd : Bytes
  cmd = command_or_empty pty.command

  record Fields : Type 0 where
    id_read : u16_at msg off ≡ id
    tag_len_read : u16_at msg (off + 2) ≡ length pty.tag
    tag_read : slice msg (off + 4) (length pty.tag) ≡ pty.tag
    cmd_len_read : u16_at msg (off + 4 + length pty.tag) ≡ length cmd
    cmd_read : slice msg (off + 4 + length pty.tag + 2) (length cmd) ≡ cmd
    inside : off + 4 + length pty.tag + 2 + length cmd ≤ length msg

  fields : Fields
  unfolding list_item
  fields =
      let tl = length pty.tag % 65536 in
      let cl = length cmd % 65536 in
      let h2 = Holds-right (u16_to_le id) _ h in
      let h4 = Holds-at (off + 4) (omega arith) (Holds-right (u16_to_le tl) _ h2) in
      let hc = Holds-right pty.tag _ h4 in
      let hb = Holds-right (u16_to_le cl) cmd hc in
      record {
        id_read = u16_at-Holds id w.id_fits (Holds-left (u16_to_le id) _ h);
        tag_len_read =
            u16_at-Holds tl (omega arith) (Holds-left (u16_to_le tl) _ h2)
            ∙ omega (arith, w.tag_fits);
        tag_read = slice-Holds pty.tag (Holds-left pty.tag _ h4);
        cmd_len_read =
            u16_at-Holds cl (omega arith) (Holds-left (u16_to_le cl) cmd hc)
            ∙ omega (arith, w.command_fits);
        cmd_read = slice-Holds cmd hb;
        inside = Holds-le cmd hb;
      }

  length-list_item : length (list_item id pty) ≡ 4 + length pty.tag + 2 + length cmd
  unfolding list_item
  length-list_item =
      omega (arith, length-append {0} pty.tag (u16_to_le (length cmd % 65536) ++ cmd))

  list_command_lem :
      list_command msg (off + 4 + length pty.tag) ≡ (cmd, off + length (list_item id pty))
  unfolding list_command
  list_command_lem =
      let f = fields in
      let ends : off + 4 + length pty.tag + 2 + length cmd ≡ off + length (list_item id pty) =
        omega (arith, length-list_item) in
      let l1 : leb (off + 4 + length pty.tag + 2) (length msg) ≡ true = ground (arith, f.inside) in
      let l2 : leb (off + 4 + length pty.tag + 2 + length cmd) (length msg) ≡ true =
        ground (arith, f.inside) in
      rw (l1, f.cmd_len_read, l2, f.cmd_read, w.command_is_utf8, ends) refl

  list_entries_step :
      (count : ℕ)
      → list_entries (suc count) msg off
        ≡ entry_of id pty ∷ list_entries count msg (off + length (list_item id pty))
  unfolding list_entries
  list_entries_step count =
      let f = fields in
      let l1 : ltb (length msg) (off + 4) ≡ false = ground (arith, f.inside) in
      let l2 : ltb (length msg) (off + 4 + length pty.tag) ≡ false = ground (arith, f.inside) in
      rw (f.tag_len_read, l1, l2, f.id_read, f.tag_read, w.tag_is_utf8, list_command_lem) refl

module _ (ptys : Ptys) where
  abbrev IsSent : ℕ → Type 0
  IsSent id = IsWirePty id (pty_at ptys id)

  list_entries-list_items :
      (sent : List ℕ) (msg : Bytes) (off : ℕ)
      → All IsSent sent
      → Holds msg off (list_items ptys sent)
      → list_entries (length sent) msg off ≡ map (λ id. entry_of id (pty_at ptys id)) sent
  unfolding list_items
  list_entries-list_items [] msg off w h = unfold list_entries in refl
  list_entries-list_items (id ∷ sent) msg off (w, ws) h =
      list_entries_step msg off id (pty_at ptys id) w
        (Holds-left (list_item id (pty_at ptys id)) (list_items ptys sent) h) (length sent)
      ∙ rw
          (list_entries-list_items sent msg (off + length (list_item id (pty_at ptys id))) ws
            (Holds-right (list_item id (pty_at ptys id)) (list_items ptys sent) h))
          refl

  insert_id-All : (id : ℕ) (xs : List ℕ) → IsSent id → All IsSent xs → All IsSent (insert_id id xs)
  unfolding insert_id
  insert_id-All id [] w ws = (w, tt)
  insert_id-All id (x ∷ xs) w (v, vs) = pick (leb id x) (insert_id-All id xs w vs)
    where
      pick :
          (b : Bool)
          → All IsSent (insert_id id xs)
          → All IsSent (if b then id ∷ x ∷ xs else x ∷ insert_id id xs)
      pick true rest = (w, (v, vs))
      pick false rest = (v, rest)

  sort_ids-All : (xs : List ℕ) → All IsSent xs → All IsSent (sort_ids xs)
  unfolding sort_ids
  sort_ids-All [] w = w
  sort_ids-All (x ∷ xs) (w, ws) = insert_id-All x (sort_ids xs) w (sort_ids-All xs ws)

length-insert_id : (id : ℕ) (xs : List ℕ) → length (insert_id id xs) ≡ suc (length xs)
unfolding insert_id
length-insert_id id [] = refl
length-insert_id id (x ∷ xs) = ground (arith, length-insert_id id xs)

length-sort_ids : (xs : List ℕ) → length (sort_ids xs) ≡ length xs
unfolding sort_ids
length-sort_ids [] = refl
length-sort_ids (x ∷ xs) = length-insert_id x (sort_ids xs) ∙ ap suc (length-sort_ids xs)

length-ids : (ptys : Ptys) → length (ids ptys) ≡ length ptys
unfolding ids
length-ids [] = refl
length-ids ((id, pty) ∷ ptys) = ap suc (length-ids ptys)

-- A client reads the list of PTYs as the server's PTYs, in the order of their sorted numbers, each
-- with its tag and its command, empty where it has none. There are at most 65535 PTYs, each number
-- fits its word, and the tags and commands are UTF-8 of at most 65535 bytes.
pub parse_server_msg-pty_list_msg :
    (ptys : Ptys)
    → length ptys ≤ u16_max
    → All (λ id. IsWirePty id (pty_at ptys id)) (ids ptys)
    → parse_server_msg (pty_list_msg ptys)
      ≡ some (list (map (λ id. entry_of id (pty_at ptys id)) (sort_ids (ids ptys))))
unfolding pty_list_msg parse_server_msg parse_list
parse_server_msg-pty_list_msg ptys le w =
    let sent = sort_ids (ids ptys) in
    let n = length ptys % 65536 in
    let msg = s2c_list ∷ (u16_to_le n ++ list_items ptys sent) in
    let h1 = Holds-tail s2c_list _ (Holds-all msg) in
    let h3 = Holds-right (u16_to_le n) (list_items ptys sent) h1 in
    let count : u16_at msg 1 ≡ length sent =
      u16_at-Holds n (omega arith) (Holds-left (u16_to_le n) _ h1)
      ∙ omega (arith, length-sort_ids (ids ptys), length-ids ptys) in
    let long : ltb (length msg) 3 ≡ false = ground arith in
    rw (long, count, list_entries-list_items ptys sent msg 3 (sort_ids-All ptys (ids ptys) w) h3)
      refl
