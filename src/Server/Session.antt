-- ===== src/Server/Session.antt =====
-- `Session` of crates/server/src/lib.rs: the PTYs, the clients, and the sizes that they agree on. What
-- the operating system is asked for is written down in `os_calls`. The terminal behind a PTY is any
-- `PtyDriver`.
pub mod PtyIds
pub mod Sizes
pub mod Resize
pub mod Keys
pub mod Valid
pub mod Keeps
use btrm.Base.{
  ℕ, zero, suc, ◌+◌, List, [], ◌∷◌, ◌++◌, Bool, true, false, not, ◌&&◌, ◌||◌, Option, none, some,
  Bytes, ◌==◌, if◌then◌else◌, min, max,
}
use btrm.Base.Keyed.{
  Keyed, Ids, get, put, del, has, modify, map_values, member, insert_id, remove_id,
}
use btrm.Frame.{FrameState}
use btrm.Wire.Client.{msg_exited}
use btrm.Server.Client.{ClientState, try_send, reset_inflight}

pub record PtySearchResult : Type 0 where
  pub score : ℕ
  pub primary_source : ℕ
  pub matched_sources : ℕ
  pub context : Bytes
  pub scroll_offset : Option ℕ

-- The trait `PtyDriver`, less what only the reader of a PTY asks of it. A frame is given together
-- with the terminal after it.
pub record PtyDriver (D : Type 0) : Type 0 where
  pub size : D → ℕ × ℕ
  pub resize : ℕ → ℕ → D → D
  pub search_result : D → Bytes → Option PtySearchResult
  pub snapshot : D → Bool → Bool → D × FrameState
  pub scrollback_frame : D → ℕ → D × FrameState
  pub reset_modes : D → D
  pub mouse_event : D → ℕ → ℕ → ℕ → ℕ → Bool → Bool → Option Bytes
  pub get_text_range : D → ℕ → ℕ → ℕ → ℕ → Bytes
  pub total_lines : D → ℕ

pub record Pty (D : Type 0) : Type 0 where
  pub driver : D
  pub tag : Bytes
  pub command : Option Bytes
  pub dirty : Bool
  pub ready_frames : List FrameState
  pub lflag_cache : Bool × Bool
  pub exited : Bool
  pub exit_status : ℕ

pub data OsCall : Type 0 where
  resize_pty_os : (pty_id rows cols : ℕ) → OsCall
  pty_write_all : (pty_id : ℕ) (written : Bytes) → OsCall
  kill_pty : (pty_id signal : ℕ) → OsCall
  close_pty : (pty_id : ℕ) → OsCall

-- `pty_fds` are the keys of the map of descriptors that is shared with the readers.
pub record Session (D : Type 0) : Type 0 where
  pub ptys : Keyed (Pty D)
  pub next_client_id : ℕ
  pub clients : Keyed ClientState
  pub pty_fds : Ids
  pub os_calls : List OsCall

-- Each id of the range that is tried, in order.
pub find_id {ℓ} : {A : Type ℓ} → ℕ → ℕ → Keyed A → Option ℕ
find_id zero id ptys = none
find_id (suc left) id ptys =
    let rest = find_id left (id + 1) ptys in if has ptys id then rest else some id

pub min_of : Option ℕ → ℕ → ℕ
min_of none r = r
min_of (some m) r = min m r

-- `map_or(r, |m| m.min(r))` for the rows and for the columns, where the client shows the PTY.
pub add_view : Option (ℕ × ℕ) → Option ℕ × Option ℕ → Option ℕ × Option ℕ
unfolding min_of
add_view none sizes = sizes
add_view (some (r, cols)) (min_rows, min_cols) =
    (some (min_of min_rows r), some (min_of min_cols cols))

-- The least rows and the least columns that a client shows of the PTY.
pub least : ℕ → Keyed ClientState → Option ℕ × Option ℕ → Option ℕ × Option ℕ
unfolding add_view
least pty_id [] sizes = sizes
least pty_id ((id, c) ∷ clients) sizes =
    least pty_id clients (add_view (get c.view_sizes pty_id) sizes)

abbrev pub at_least_one : Option ℕ × Option ℕ → Option (ℕ × ℕ)
at_least_one (some r, some c) = some (max r 1, max c 1)
at_least_one (some r, none) = none
at_least_one (none, o) = none

abbrev pub forget_sent : ℕ → ClientState → ClientState
forget_sent pty_id c =
    if member pty_id c.subscriptions then record c { last_sent = del pty_id c.last_sent } else c

abbrev pub forget_cache : ℕ → ℕ → ClientState → ClientState
forget_cache now pty_id c =
    if has c.scroll_caches pty_id
    then reset_inflight now (record c { scroll_caches = del pty_id c.scroll_caches })
    else c

-- A client of a PTY whose size has changed.
pub resized_client : ℕ → ℕ → ClientState → ClientState
unfolding reset_inflight
resized_client now pty_id c = forget_cache now pty_id (forget_sent pty_id c)

abbrev pub is_size : ℕ × ℕ → ℕ → ℕ → Bool
is_size (cur_rows, cur_cols) rows cols = (cur_rows == rows) && (cur_cols == cols)

module _ {D : Type 0} where
  pub mark_dirty : Pty D → Pty D
  mark_dirty pty = record pty { dirty = true }

  unfoldable pub allocate_pty_id : Session D → Option ℕ
  unfolding find_id
  allocate_pty_id s = find_id 65535 1 s.ptys

  -- A message to every client, dropped where a channel is full.
  pub send_to_all : Bytes → Session D → Session D
  send_to_all msg s = record s {
    clients = map_values (λ (c : ClientState). (try_send msg c).0) s.clients;
  }

  pub mediated_size_for_pty : Session D → ℕ → Option (ℕ × ℕ)
  unfolding least
  mediated_size_for_pty s pty_id = at_least_one (least pty_id s.clients (none, none))

  pub set_client : ℕ → (ClientState → ClientState) → Session D → Session D
  set_client client_id f s = record s { clients = modify client_id f s.clients }

  pub set_pty : ℕ → (Pty D → Pty D) → Session D → Session D
  set_pty pty_id f s = record s { ptys = modify pty_id f s.ptys }

  -- `cleanup_pty_internal`: the reader of a PTY has come to its end. `status` is what
  -- `collect_exit_status` gives.
  abbrev cleanup_of : ℕ → ℕ → Option (Pty D) → Session D → Session D
  cleanup_of pty_id status none s = s
  cleanup_of pty_id status (some pty) s =
      if pty.exited
      then s
      else send_to_all (msg_exited pty_id status) (record s {
        ptys =
            modify pty_id
              (λ (p : Pty D). record p { exited = true; exit_status = status; dirty = true })
              s.ptys;
        os_calls = s.os_calls ++ close_pty pty_id ∷ [];
      })

  pub cleanup_pty_internal : ℕ → ℕ → Session D → Session D
  unfolding send_to_all
  cleanup_pty_internal pty_id status s =
      cleanup_of pty_id status (get s.ptys pty_id)
        (record s { pty_fds = remove_id pty_id s.pty_fds })

  module _ (dr : PtyDriver D) where
    abbrev pub resized_pty : ℕ → ℕ → Pty D → Pty D
    resized_pty rows cols pty = record pty {
      driver = dr.resize rows cols pty.driver;
      ready_frames = [];
      dirty = true;
    }

    abbrev pub resize_of : ℕ → ℕ → ℕ → ℕ → Option (Pty D) → Session D → Session D × Bool
    resize_of now pty_id rows cols none s = (s, false)
    resize_of now pty_id rows cols (some pty) s =
        if is_size (dr.size pty.driver) rows cols then (s, false) else (
          record s {
            ptys = modify pty_id (resized_pty rows cols) s.ptys;
            clients = map_values (resized_client now pty_id) s.clients;
            os_calls =
                if pty.exited
                then s.os_calls
                else s.os_calls ++ resize_pty_os pty_id rows cols ∷ [];
          },
          true,
        )

    pub resize_pty : ℕ → ℕ → ℕ → ℕ → Session D → Session D × Bool
    unfolding resized_client
    resize_pty now pty_id rows cols s = resize_of now pty_id rows cols (get s.ptys pty_id) s

    -- One PTY of the list.
    abbrev pub mediate : ℕ → ℕ → Option (ℕ × ℕ) → Session D → Session D × Bool
    mediate now pty_id none s = (s, false)
    mediate now pty_id (some (rows, cols)) s = resize_pty now pty_id rows cols s

    pub mediate_all : ℕ → List ℕ → Ids → Session D × Bool → Session D × Bool
    unfolding resize_pty mediated_size_for_pty
    mediate_all now [] seen r = r
    mediate_all now (pty_id ∷ pty_ids) seen (s, changed) =
        let step = mediate now pty_id (mediated_size_for_pty s pty_id) s in
        let again = mediate_all now pty_ids seen (s, changed) in
        let next = mediate_all now pty_ids (insert_id pty_id seen) (step.0, changed || step.1) in
        if member pty_id seen then again else next

    unfoldable pub resize_ptys_to_mediated_sizes : ℕ → List ℕ → Session D → Session D × Bool
    unfolding mediate_all
    resize_ptys_to_mediated_sizes now pty_ids s = mediate_all now pty_ids [] (s, false)
