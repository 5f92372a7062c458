-- ===== src/Wire/Server.antt =====
-- The messages that crates/server/src/lib.rs builds itself.
use btrm.Base.{
  ℕ, ◌-◌, ◌%◌, min, List, [], ◌∷◌, ◌++◌, Option, none, some, Bytes, leb, ◌==◌, if◌then◌else◌,
  length, take, u16_max, u32_max,
}
use btrm.Base.Words.{u16_to_le, u32_to_le}
use btrm.Wire.{
  s2c_list, s2c_title, s2c_created, s2c_created_n, s2c_closed, s2c_ready, s2c_text,
  s2c_search_results,
}

-- What `pty_list_msg` reads of a `Pty`.
pub record Pty : Type 0 where
  pub tag : Bytes
  pub command : Option Bytes

abbrev pub command_or_empty : Option Bytes → Bytes
command_or_empty none = []
command_or_empty (some cmd) = cmd

-- `ids.sort()`
unfoldable pub insert_id : ℕ → List ℕ → List ℕ
insert_id id [] = id ∷ []
insert_id id (x ∷ xs) = if leb id x then id ∷ x ∷ xs else x ∷ insert_id id xs

unfoldable pub sort_ids : List ℕ → List ℕ
sort_ids [] = []
sort_ids (x ∷ xs) = insert_id x (sort_ids xs)

-- `self.ptys`, a hash map, as the list of its items in the order in which it gives them.
abbrev pub Ptys : Type 0
Ptys = List (ℕ × Pty)

unfoldable pub ids : Ptys → List ℕ
ids [] = []
ids ((id, pty) ∷ ptys) = id ∷ ids ptys

-- `&self.ptys[&id]`, asked only at a key of the map.
unfoldable pub pty_at : Ptys → ℕ → Pty
pty_at [] id = record { tag = []; command = none }
pty_at ((k, pty) ∷ ptys) id = if k == id then pty else pty_at ptys id

unfoldable pub list_item : ℕ → Pty → Bytes
list_item id pty =
    let cmd = command_or_empty pty.command in
    u16_to_le id
    ++ (u16_to_le (length pty.tag % 65536) ++ (pty.tag ++ (u16_to_le (length cmd % 65536) ++ cmd)))

unfoldable pub list_items : Ptys → List ℕ → Bytes
list_items ptys [] = []
list_items ptys (id ∷ rest) = list_item id (pty_at ptys id) ++ list_items ptys rest

unfoldable pub pty_list_msg : Ptys → Bytes
pty_list_msg ptys =
    s2c_list ∷ (u16_to_le (length ptys % 65536) ++ list_items ptys (sort_ids (ids ptys)))

pub record SearchResultRow : Type 0 where
  pub pty_id : ℕ
  pub score : ℕ
  pub primary_source : ℕ
  pub matched_sources : ℕ
  pub context : Bytes
  pub scroll_offset : Option ℕ

-- An offset is capped below the value that stands for none.
unfoldable pub sent_offset : Option ℕ → ℕ
sent_offset none = u32_max
sent_offset (some offset) = min offset (u32_max - 1)

unfoldable pub search_row : SearchResultRow → Bytes
search_row r =
    let context_len = min (length r.context) u16_max in
    u16_to_le r.pty_id
    ++ (u32_to_le r.score
        ++ (r.primary_source
            ∷ r.matched_sources
            ∷ (u32_to_le (sent_offset r.scroll_offset)
                ++ (u16_to_le context_len ++ take context_len r.context))))

unfoldable pub search_rows : List SearchResultRow → Bytes
search_rows [] = []
search_rows (r ∷ rs) = search_row r ++ search_rows rs

unfoldable pub build_search_results_msg : ℕ → List SearchResultRow → Bytes
build_search_results_msg request_id results =
    let count = min (length results) u16_max in
    s2c_search_results
    ∷ (u16_to_le request_id ++ (u16_to_le count ++ search_rows (take count results)))

-- The messages that the client handler builds in place.
unfoldable pub title_msg : ℕ → Bytes → Bytes
title_msg id title = s2c_title ∷ (u16_to_le id ++ title)

unfoldable pub created_msg : ℕ → Bytes → Bytes
created_msg id tag = s2c_created ∷ (u16_to_le id ++ tag)

unfoldable pub created_n_msg : ℕ → ℕ → Bytes → Bytes
created_n_msg nonce id tag = s2c_created_n ∷ (u16_to_le nonce ++ (u16_to_le id ++ tag))

unfoldable pub closed_msg : ℕ → Bytes
closed_msg id = s2c_closed ∷ u16_to_le id

pub ready_msg : Bytes
ready_msg = s2c_ready ∷ []

unfoldable pub text_msg : ℕ → ℕ → ℕ → ℕ → Bytes → Bytes
text_msg nonce id total_lines start text =
    s2c_text
    ∷ (u16_to_le nonce ++ (u16_to_le id ++ (u32_to_le total_lines ++ (u32_to_le start ++ text))))
