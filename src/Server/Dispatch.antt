-- ===== src/Server/Dispatch.antt =====
-- One round of the loop of `handle_client` in crates/server/src/lib.rs, and its end: the message's tag
-- and length choose the handler.
pub mod Keeps
pub mod Disconnect
use btrm.Base.{
  ℕ, ◌+◌, ◌-◌, ◌/◌, ◌%◌, List, [], ◌∷◌, ◌++◌, Bool, true, false, not, ◌&&◌, ◌||◌, Option, none,
  some, Bytes, leb, ltb, ◌==◌, if◌then◌else◌, length, drop,
}
use btrm.Base.Words.{byte_at, u16_at}
use btrm.Base.Keyed.{get, del, has, insert_id}
use btrm.Wire.{
  c2s_input, c2s_resize, c2s_scroll, c2s_ack, c2s_display_rate, c2s_client_metrics, c2s_mouse,
  c2s_restart, c2s_create, c2s_focus, c2s_close, c2s_subscribe, c2s_unsubscribe, c2s_search,
  c2s_create_at, c2s_create_n, c2s_create2, c2s_read, c2s_copy_range, c2s_kill,
}
use btrm.Wire.Server.{created_msg}
use btrm.Server.Client.{ClientState, reset_inflight, unsubscribe_client_from}
use btrm.Server.Session.{
  Session, Pty, PtyDriver, set_client, set_pty, send_to_all, resize_ptys_to_mediated_sizes,
  allocate_pty_id,
}
use btrm.Server.Create.{
  CreateRequest, decode_create, decode_create_n, decode_create_at, decode_create2,
}
use btrm.Server.Handler.{
  handle_ack, handle_display_rate, handle_client_metrics, handle_input, handle_scroll, resize_loop,
  handle_subscribe, handle_focus, handle_kill, handle_close, created, restart_client, view_keys,
}
use btrm.Server.Reply.{handle_read, handle_copy_range, handle_search, handle_mouse}

-- What the operating system does for a session: `spawn_pty` and `respawn_child`, where they succeed,
-- the directory of a process, and the exit status that is not known yet.
pub record System (D : Type 0) : Type 0 where
  pub spawn_pty : ℕ → CreateRequest → Option Bytes → Option (Pty D)
  pub respawn_child : ℕ → ℕ × ℕ → Option Bytes → Option (Bool × Bool)
  pub pty_cwd : Pty D → Option Bytes

-- `EXIT_STATUS_UNKNOWN`, the least `i32`, as an unsigned word.
abbrev pub exit_status_unknown : ℕ
exit_status_unknown = 2147483648

module _ {D : Type 0} (dr : PtyDriver D) (sys : System D) where
  abbrev dir_of : Option ℕ → Session D → Option Bytes
  dir_of none s = none
  dir_of (some src_id) s = elim (get s.ptys src_id) [ none ↦ none | some pty ↦ sys.pty_cwd pty ]

  abbrev pub created_if : ℕ → ℕ → CreateRequest → ℕ → Option (Pty D) → Session D → Session D × Bool
  created_if now client_id request id none s = (s, false)
  created_if now client_id request id (some pty) s = (created now client_id request id pty s, true)

  abbrev pub create_at_id : ℕ → ℕ → CreateRequest → Option ℕ → Session D → Session D × Bool
  create_at_id now client_id request none s = (s, false)
  create_at_id now client_id request (some id) s =
      created_if now client_id request id (sys.spawn_pty id request (dir_of request.src_pty s)) s

  pub handle_create : ℕ → ℕ → CreateRequest → Session D → Session D × Bool
  unfolding allocate_pty_id
  handle_create now client_id request s = create_at_id now client_id request (allocate_pty_id s) s

  abbrev pub create2_of : ℕ → ℕ → Option CreateRequest → Session D → Session D × Bool
  create2_of now client_id none s = (s, false)
  create2_of now client_id (some request) s = handle_create now client_id request s

  abbrev pub restarted : Bool × Bool → Pty D → Pty D
  restarted flags pty = record pty {
    driver = dr.reset_modes pty.driver;
    exited = false;
    exit_status = exit_status_unknown;
    lflag_cache = flags;
    dirty = true;
  }

  -- `respawn_child` enters the descriptor.
  abbrev pub restart_of : ℕ → ℕ → ℕ → Bytes → Option (Bool × Bool) → Session D → Session D × Bool
  restart_of now client_id pid tag none s = (s, false)
  restart_of now client_id pid tag (some flags) s = (
    send_to_all (created_msg pid tag) (
        set_client client_id (restart_client now pid)
          (set_pty pid (restarted flags) (record s { pty_fds = insert_id pid s.pty_fds }))),
    true,
  )

  abbrev pub restart_if : ℕ → ℕ → ℕ → Option (Pty D) → Session D → Session D × Bool
  restart_if now client_id pid none s = (s, false)
  restart_if now client_id pid (some pty) s =
      if pty.exited
      then restart_of now client_id pid pty.tag
          (sys.respawn_child pid (dr.size pty.driver) pty.command) s
      else (s, false)

  pub handle_restart : ℕ → ℕ → Bytes → Session D → Session D × Bool
  handle_restart now client_id msg s =
      let pid = u16_at msg 1 in restart_if now client_id pid (get s.ptys pid) s

  -- A message whose entries are not whole is passed over.
  pub handle_resize : ℕ → ℕ → Bytes → Session D → Session D × Bool
  unfolding resize_loop resize_ptys_to_mediated_sizes
  handle_resize now client_id msg s =
      let entries = drop 1 msg in
      let viewed = resize_loop (length entries / 6) client_id entries s in
      if length entries % 6 == 0
      then resize_ptys_to_mediated_sizes dr now viewed.1 viewed.0
      else (s, false)

  abbrev left_of : ℕ → Option ClientState → Bool
  left_of pid none = false
  left_of pid (some c) = (unsubscribe_client_from pid c).1

  pub handle_unsubscribe : ℕ → ℕ → Bytes → Session D → Session D × Bool
  unfolding resize_ptys_to_mediated_sizes
  handle_unsubscribe now client_id msg s =
      let pid = u16_at msg 1 in
      let left =
        set_client client_id
          (λ (c : ClientState). reset_inflight now (unsubscribe_client_from pid c).0) s in
      let touched = if left_of pid (get s.clients client_id) then pid ∷ [] else [] in
      if has s.ptys pid then resize_ptys_to_mediated_sizes dr now touched left else (s, false)

  pub handle_disconnect : ℕ → ℕ → Session D → Session D × Bool
  unfolding resize_ptys_to_mediated_sizes
  handle_disconnect now client_id s =
      resize_ptys_to_mediated_sizes dr now (view_keys (get s.clients client_id))
        (record s { clients = del client_id s.clients })

  -- The handlers of the messages that are told by their tag alone or not at all.
  abbrev pub handle_match : ℕ → ℕ → Bytes → Session D → Session D × Bool
  handle_match now client_id msg s =
      let tag = byte_at msg 0 in
      let size = length msg in
      if (tag == c2s_scroll) && leb 7 size
      then handle_scroll now client_id msg s
      else if (tag == c2s_resize) && leb 7 size
      then handle_resize now client_id msg s
      else if tag == c2s_create
      then handle_create now client_id (decode_create msg) s
      else if tag == c2s_create_n
      then handle_create now client_id (decode_create_n msg) s
      else if tag == c2s_create_at
      then handle_create now client_id (decode_create_at msg) s
      else if tag == c2s_create2
      then create2_of now client_id (decode_create2 msg) s
      else if (tag == c2s_focus) && leb 3 size
      then handle_focus now client_id msg s
      else if (tag == c2s_subscribe) && leb 3 size
      then handle_subscribe client_id msg s
      else if (tag == c2s_unsubscribe) && leb 3 size
      then handle_unsubscribe now client_id msg s
      else if (tag == c2s_restart) && leb 3 size
      then handle_restart now client_id msg s
      else if (tag == c2s_read) && leb 13 size
      then handle_read dr client_id msg s
      else if (tag == c2s_copy_range) && leb 18 size
      then handle_copy_range dr client_id msg s
      else if (tag == c2s_kill) && leb 7 size
      then handle_kill msg s
      else if (tag == c2s_close) && leb 3 size
      then handle_close msg s
      else (s, false)

  -- A message, and whether the delivery is nudged behind it.
  pub handle : ℕ → Bool → ℕ → Bytes → Session D → Session D × Bool
  unfolding handle_create handle_restart handle_resize handle_unsubscribe
  handle now do_log client_id msg s =
      let tag = byte_at msg 0 in
      let size = length msg in
      if size == 0
      then (s, false)
      else if tag == c2s_ack
      then handle_ack do_log client_id s
      else if (tag == c2s_display_rate) && leb 3 size
      then handle_display_rate client_id msg s
      else if (tag == c2s_client_metrics) && leb 7 size
      then handle_client_metrics now client_id msg s
      else if (tag == c2s_mouse) && leb 9 size
      then handle_mouse dr msg s
      else if (tag == c2s_input) && leb 3 size
      then handle_input now client_id msg s
      else if (tag == c2s_search) && leb 3 size
      then handle_search dr client_id msg s
      else handle_match now client_id msg s
