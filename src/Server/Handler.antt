-- ===== src/Server/Handler.antt =====
-- `handle_client` of crates/server/src/lib.rs: what a message of a client does to the session. A
-- handler gives the session, and whether the delivery is nudged. The spawning of processes, which is
-- the operating system's, is an argument, and so are the time, and what is measured of it.
pub mod Valid
pub mod Lead
use btrm.Base.{
  ℕ, zero, suc, ◌+◌, ◌-◌, ◌*◌, ◌/◌, ◌%◌, min, List, [], ◌∷◌, ◌++◌, Bool, true, false, not, ◌&&◌,
  ◌||◌, Option, none, some, Bytes, ltb, leb, ◌==◌, if◌then◌else◌, length, drop, map, bit_and,
}
use btrm.Base.Words.{byte_at, u16_at, u32_at}
use btrm.Base.Keyed.{
  Keyed, Ids, get, put, del, has, modify, map_values, member, insert_id, remove_id,
}
use btrm.Base.Utf8.{is_utf8}
use btrm.Frame.{FrameState}
use btrm.Wire
use btrm.Wire.Client.{msg_hello}
use btrm.Wire.Server.{created_msg, created_n_msg, closed_msg, text_msg}
use btrm.Server.Client.{
  ClientState, new_client, try_send, record_ack, reset_inflight, is_unset_view_size,
  subscribe_client_to, unsubscribe_client_from, update_client_scroll_state, is_id,
}
use btrm.Server.Session.{
  Session, Pty, OsCall, pty_write_all, kill_pty, close_pty, mark_dirty, set_client, set_pty,
  send_to_all, resize_ptys_to_mediated_sizes, allocate_pty_id,
}
use btrm.Server.Create.{
  CreateRequest, decode_create, decode_create_n, decode_create_at, decode_create2,
}

-- `FEATURE_CREATE_NONCE | FEATURE_RESTART | FEATURE_RESIZE_BATCH | FEATURE_COPY_RANGE`
abbrev features : ℕ
features = 15

-- `do_log`: a second has passed since the last line of the log.
pub acknowledge : Bool → ClientState → ClientState
unfolding record_ack
acknowledge do_log c =
    let acked = record_ack (record c { acks_recv = (c.acks_recv + 1) % 4294967296 }) in
    if do_log
    then record acked { frames_sent = 0; acks_recv = 0; acked_bytes_since_log = 0 }
    else acked

-- One entry of `C2S_RESIZE` for a client: the client, and whether the view changed.
pub set_view : ℕ → ℕ → ℕ → ClientState → ClientState × Bool
set_view pid rows cols c =
    if is_unset_view_size rows cols
    then (record c { view_sizes = del pid c.view_sizes }, has c.view_sizes pid)
    else if (rows == 0) || (cols == 0)
    then (c, false)
    else (record c { view_sizes = put pid (rows, cols) c.view_sizes }, true)

-- A client that takes the lead of a PTY.
pub focus_client : ℕ → ℕ → ClientState → ClientState
unfolding subscribe_client_to update_client_scroll_state
focus_client now pid c =
    let focused = subscribe_client_to pid (record c { lead = some pid }) in
    if is_id pid c.lead
    then (update_client_scroll_state now pid 0 focused).0
    else reset_inflight now focused

pub restart_client : ℕ → ℕ → ClientState → ClientState
unfolding subscribe_client_to update_client_scroll_state
restart_client now pid c =
    reset_inflight now
      (update_client_scroll_state now pid 0
        (subscribe_client_to pid (record c { lead = some pid }))).0

-- A client whose PTY has been created; the answer goes to a client that gave a nonce.
abbrev pub answer_nonce : Option ℕ → ℕ → Bytes → ClientState → ClientState
answer_nonce none id tag c = c
answer_nonce (some nonce) id tag c = (try_send (created_n_msg nonce id tag) c).0

pub created_client : ℕ → Option ℕ → ℕ → ℕ → ℕ → Bytes → ClientState → ClientState
unfolding subscribe_client_to
created_client now nonce id rows cols tag c = answer_nonce nonce id tag (
    reset_inflight now (
      subscribe_client_to id
        (record c { lead = some id; view_sizes = put id (rows, cols) c.view_sizes })))

-- A message to the clients but one.
pub send_to_others : ℕ → Bytes → Keyed ClientState → Keyed ClientState
send_to_others client_id msg [] = []
send_to_others client_id msg ((cid, c) ∷ clients) =
    (cid, if cid == client_id then c else (try_send msg c).0) ∷ send_to_others client_id msg clients

-- Whether the client leaves its scrolled view.
abbrev pub leaves_scroll : ℕ → ℕ → Option ClientState → Bool
leaves_scroll now pid none = false
leaves_scroll now pid (some c) = (update_client_scroll_state now pid 0 c).1

abbrev pub view_of : ℕ → ℕ → ℕ → Option ClientState → Bool
view_of pid rows cols none = false
view_of pid rows cols (some c) = (set_view pid rows cols c).1

-- The PTYs that a client shows.
abbrev pub view_keys : Option ClientState → List ℕ
view_keys none = []
view_keys (some c) = map (λ (v : ℕ × (ℕ × ℕ)). v.0) c.view_sizes

module _ {D : Type 0} where
  pub handle_ack : Bool → ℕ → Session D → Session D × Bool
  unfolding acknowledge
  handle_ack do_log client_id s =
      (set_client client_id (acknowledge do_log) s, has s.clients client_id)

  pub handle_display_rate : ℕ → Bytes → Session D → Session D × Bool
  handle_display_rate client_id msg s =
      let fps = u16_at msg 1 in
      (
        if ltb 0 fps
            then set_client client_id (λ (c : ClientState). record c { display_fps = fps }) s
            else s,
        true,
      )

  pub handle_client_metrics : ℕ → ℕ → Bytes → Session D → Session D × Bool
  handle_client_metrics now client_id msg s = (
    set_client client_id
        (λ (c : ClientState). record c {
          browser_backlog_frames = u16_at msg 1;
          browser_ack_ahead_frames = u16_at msg 3;
          last_metrics_update = now;
        })
        s,
    true,
  )

  pub handle_input : ℕ → ℕ → Bytes → Session D → Session D × Bool
  unfolding update_client_scroll_state
  handle_input now client_id msg s =
      let pid = u16_at msg 1 in
      let moved = leaves_scroll now pid (get s.clients client_id) in
      let scrolled =
        set_client client_id (λ (c : ClientState). (update_client_scroll_state now pid 0 c).0) s in
      let marked = if moved then set_pty pid mark_dirty scrolled else scrolled in
      (
        record marked {
          os_calls =
              if member pid s.pty_fds
              then s.os_calls ++ pty_write_all pid (drop 3 msg) ∷ []
              else s.os_calls;
        },
        moved && has s.ptys pid,
      )

  pub handle_scroll : ℕ → ℕ → Bytes → Session D → Session D × Bool
  unfolding update_client_scroll_state
  handle_scroll now client_id msg s =
      let pid = u16_at msg 1 in
      let offset = u32_at msg 3 in
      if has s.ptys pid
      then (
        set_pty pid mark_dirty (
            set_client client_id
              (λ (c : ClientState). (update_client_scroll_state now pid offset c).0) s),
        true,
      )
      else (s, false)

  -- The entries of six bytes, one by one: the session, and the PTYs whose view changed. A client that
  -- is gone changes nothing.
  unfoldable pub resize_loop : ℕ → ℕ → Bytes → Session D → Session D × List ℕ
  unfolding set_view
  resize_loop zero client_id entries s = (s, [])
  resize_loop (suc left) client_id entries s =
      let pid = u16_at entries 0 in
      let rows = u16_at entries 2 in
      let cols = u16_at entries 4 in
      let viewed = set_client client_id (λ (c : ClientState). (set_view pid rows cols c).0) s in
      let skipped = resize_loop left client_id (drop 6 entries) s in
      let next = resize_loop left client_id (drop 6 entries) viewed in
      if has s.ptys pid
      then (
        next.0,
        if view_of pid rows cols (get s.clients client_id) then pid ∷ next.1 else next.1,
      )
      else skipped

  pub handle_subscribe : ℕ → Bytes → Session D → Session D × Bool
  unfolding subscribe_client_to
  handle_subscribe client_id msg s =
      let pid = u16_at msg 1 in
      if has s.ptys pid
      then (set_pty pid mark_dirty (set_client client_id (subscribe_client_to pid) s), true)
      else (s, false)

  pub handle_focus : ℕ → ℕ → Bytes → Session D → Session D × Bool
  unfolding focus_client
  handle_focus now client_id msg s =
      let pid = u16_at msg 1 in
      if has s.ptys pid
      then (set_pty pid mark_dirty (set_client client_id (focus_client now pid) s), true)
      else (s, false)

  abbrev pub kill_of : ℕ → ℕ → Option (Pty D) → Session D → Session D
  kill_of pid signal none s = s
  kill_of pid signal (some pty) s =
      if pty.exited then s else record s { os_calls = s.os_calls ++ kill_pty pid signal ∷ [] }

  pub handle_kill : Bytes → Session D → Session D × Bool
  handle_kill msg s = (kill_of (u16_at msg 1) (u32_at msg 3) (get s.ptys (u16_at msg 1)) s, false)

  abbrev pub close_of : ℕ → Option (Pty D) → Session D → Session D
  close_of pid none s = s
  close_of pid (some pty) s = send_to_all (closed_msg pid) (record s {
    ptys = del pid s.ptys;
    clients = map_values (λ (c : ClientState). (unsubscribe_client_from pid c).0) s.clients;
    pty_fds = if pty.exited then s.pty_fds else remove_id pid s.pty_fds;
    os_calls = if pty.exited then s.os_calls else s.os_calls ++ close_pty pid ∷ [];
  })

  pub handle_close : Bytes → Session D → Session D × Bool
  unfolding unsubscribe_client_from
  handle_close msg s = (close_of (u16_at msg 1) (get s.ptys (u16_at msg 1)) s, false)

  -- A client that gave a nonce has its own answer.
  abbrev pub announce : Option ℕ → ℕ → Bytes → Session D → Session D
  announce none client_id msg s = send_to_all msg s
  announce (some nonce) client_id msg s = record s {
    clients = send_to_others client_id msg s.clients;
  }

  -- A PTY that `spawn_pty` gave, which also entered its descriptor.
  pub created : ℕ → ℕ → CreateRequest → ℕ → Pty D → Session D → Session D
  unfolding created_client send_to_others
  created now client_id request id pty s =
      announce request.nonce client_id (created_msg id pty.tag) (record s {
        ptys = put id pty s.ptys;
        clients =
            modify client_id (created_client now request.nonce id request.rows request.cols pty.tag)
              s.clients;
        pty_fds = insert_id id s.pty_fds;
      })

  -- A client that connects is greeted. (The list of the PTYs, their titles and their exits wait for
  -- room in the channel and are not modelled.)
  pub handle_connect : ℕ → Session D → Session D
  handle_connect now s = record s {
    next_client_id = s.next_client_id + 1;
    clients = put s.next_client_id (try_send (msg_hello 1 features) (new_client now)).0 s.clients;
  }
