-- ===== src/Tests/Server.antt =====
-- The session at a concrete one: one PTY and one client.
use btrm.Base.{ℕ, ◌-◌, ◌≤◌, ◌≡◌, min, refl, [], ◌∷◌, true, false, some, none, ◌==◌, if◌then◌else◌}
use mathlib.Core.List.{Permᴰ}
use btrm.Base.Keyed.{get, member}
use btrm.Wire.{c2s_focus}
use btrm.Wire.Server.{SearchResultRow}
use btrm.Server.Client.{new_client, default_frame}
use btrm.Server.Session.{
  Session, Pty, PtyDriver, allocate_pty_id, mediated_size_for_pty, resize_ptys_to_mediated_sizes,
}
use btrm.Server.Session.PtyIds.{IsFirstFree, allocate_pty_id-IsFirstFree}
use btrm.Server.Session.Sizes.{views, IsMediated, mediated_size_for_pty-IsMediated}
use btrm.Server.Session.Resize.{Settled, resize_ptys_to_mediated_sizes-Settled}
use btrm.Server.Session.Keeps.{IsSession}
use btrm.Server.Handler.{handle_connect}
use btrm.Server.Handler.Valid.{handle_connect-IsSession}
use btrm.Server.Reply.{read_range, sort_rows}
use btrm.Server.Reply.Range.{read_range_lem}
use btrm.Server.Reply.Rank.{IsRanked, sort_rows-IsRanked}
use btrm.Server.Dispatch.{System, handle}
use btrm.Server.Dispatch.Keeps.{handle-IsSession}

-- A terminal that is no more than its size.
abbrev sized : PtyDriver (ℕ × ℕ)
sized = record {
  size = λ d. d;
  resize = λ rows cols d. (rows, cols);
  search_result = λ d query. none;
  snapshot = λ d echo icanon. (d, default_frame);
  scrollback_frame = λ d offset. (d, default_frame);
  reset_modes = λ d. d;
  mouse_event = λ d kind button col row echo icanon. none;
  get_text_range = λ d a b c e. [];
  total_lines = λ d. d.0;
}

abbrev no_system : System (ℕ × ℕ)
no_system = record {
  spawn_pty = λ id request dir. none;
  respawn_child = λ id size command. none;
  pty_cwd = λ pty. none;
}

abbrev one_pty : Pty (ℕ × ℕ)
one_pty = record {
  driver = (24, 80);
  tag = b'a' ∷ [];
  command = none;
  dirty = false;
  ready_frames = [];
  lflag_cache = (true, true);
  exited = false;
  exit_status = 0;
}

abbrev alone : Session (ℕ × ℕ)
alone = record {
  ptys = (1, one_pty) ∷ [];
  next_client_id = 1;
  clients = [];
  pty_fds = 1 ∷ [];
  os_calls = [];
}

alone-IsSession : IsSession alone
unfolding get
alone-IsSession = λ cid c e. cc

abbrev connected : Session (ℕ × ℕ)
connected = handle_connect 0 alone

-- The client focuses the PTY.
handle-IsSession_example :
    IsSession (handle sized no_system 5 false 1 (c2s_focus ∷ 1 ∷ 0 ∷ []) connected).0
handle-IsSession_example =
    handle-IsSession sized no_system 5 false 1 (c2s_focus ∷ 1 ∷ 0 ∷ []) connected
      (handle_connect-IsSession 0 alone alone-IsSession)

-- Two clients that show the PTY in two sizes.
abbrev shown_by_two : Session (ℕ × ℕ)
shown_by_two = record alone {
  clients =
      (1, record (new_client 0) { view_sizes = (1, (30, 100)) ∷ [] })
      ∷ (2, record (new_client 0) { view_sizes = (1, (40, 60)) ∷ [] })
      ∷ [];
}

mediated_size_for_pty-IsMediated_example :
    IsMediated (views 1 shown_by_two.clients) (mediated_size_for_pty shown_by_two 1)
mediated_size_for_pty-IsMediated_example = mediated_size_for_pty-IsMediated shown_by_two 1

sized_resize : (rows cols : ℕ) (d : ℕ × ℕ) → sized.size (sized.resize rows cols d) ≡ (rows, cols)
sized_resize rows cols d = refl

one_listed : member 1 (1 ∷ 1 ∷ []) ≡ true
unfolding member
one_listed = refl

resize_ptys_to_mediated_sizes-Settled_example :
    Settled sized sized_resize (resize_ptys_to_mediated_sizes sized 0 (1 ∷ 1 ∷ []) shown_by_two).0 1
resize_ptys_to_mediated_sizes-Settled_example =
    resize_ptys_to_mediated_sizes-Settled sized sized_resize 0 (1 ∷ 1 ∷ []) shown_by_two 1
      one_listed

allocate_pty_id-IsFirstFree_example : IsFirstFree alone.ptys 1 65536 (allocate_pty_id alone)
allocate_pty_id-IsFirstFree_example = allocate_pty_id-IsFirstFree alone

read_range_lem_example :
    let r = read_range true 2 3 10 in
    (r.0 ≤ r.1)
    × (r.1 ≤ 10)
    × ((if true then r.1 else r.0) ≡ (if true then 10 - 2 else min 2 10))
    × (r.1 - r.0 ≡ (if 3 == 0 then 10 - 2 else min 3 (10 - 2)))
read_range_lem_example = read_range_lem true 2 3 10

abbrev row : ℕ → ℕ → SearchResultRow
row pty_id score = record {
  pty_id = pty_id;
  score = score;
  primary_source = 0;
  matched_sources = 0;
  context = [];
  scroll_offset = none;
}

sort_rows-IsRanked_example :
    IsRanked (some 3) (sort_rows (some 3) (row 1 5 ∷ row 2 9 ∷ row 3 5 ∷ []))
    × Permᴰ
        (sort_rows (some 3) (row 1 5 ∷ row 2 9 ∷ row 3 5 ∷ []))
        (row 1 5 ∷ row 2 9 ∷ row 3 5 ∷ [])
sort_rows-IsRanked_example = sort_rows-IsRanked (some 3) (row 1 5 ∷ row 2 9 ∷ row 3 5 ∷ [])
