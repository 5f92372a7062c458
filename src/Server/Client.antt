-- ===== src/Server/Client.antt =====
-- `ClientState` of crates/server/src/lib.rs and the operations on it. The fields that are estimates in
-- floating point are not here, and what is computed from them, an interval, is an argument. An
-- `Instant` is a number. The channel to the client is the messages that wait in it.
pub mod Valid
pub mod Scroll
use btrm.Base.{
  ℕ, zero, suc, ◌+◌, ◌-◌, ◌%◌, List, [], ◌∷◌, ◌++◌, Bool, true, false, not, ◌&&◌, ◌||◌, Option,
  none, some, Bytes, ltb, leb, ◌==◌, if◌then◌else◌, length,
}
use btrm.Base.Keyed.{Keyed, Ids, get, put, del, has, is_some, member, insert_id, remove_id}
use btrm.Frame.{FrameState, new}

abbrev pub outbox_capacity : ℕ
outbox_capacity = 8

abbrev pub ready_frame_queue_cap : ℕ
ready_frame_queue_cap = 4

pub record InFlightFrame : Type 0 where
  pub sent_at : ℕ
  pub bytes : ℕ
  pub paced : Bool

pub record ClientState : Type 0 where
  pub tx : List Bytes
  pub lead : Option ℕ
  pub subscriptions : Ids
  pub view_sizes : Keyed (ℕ × ℕ)
  pub scroll_offsets : Keyed ℕ
  pub scroll_caches : Keyed FrameState
  pub last_sent : Keyed FrameState
  pub preview_next_send_at : Keyed ℕ
  pub display_fps : ℕ
  pub inflight_bytes : ℕ
  pub inflight_frames : List InFlightFrame
  pub next_send_at : ℕ
  pub frames_sent : ℕ
  pub acks_recv : ℕ
  pub acked_bytes_since_log : ℕ
  pub browser_backlog_frames : ℕ
  pub browser_ack_ahead_frames : ℕ
  pub last_metrics_update : ℕ

-- A client that has just connected, at the time `now`.
unfoldable pub new_client : ℕ → ClientState
new_client now = record {
  tx = [];
  lead = none;
  subscriptions = [];
  view_sizes = [];
  scroll_offsets = [];
  scroll_caches = [];
  last_sent = [];
  preview_next_send_at = [];
  display_fps = 60;
  inflight_bytes = 0;
  inflight_frames = [];
  next_send_at = now;
  frames_sent = 0;
  acks_recv = 0;
  acked_bytes_since_log = 0;
  browser_backlog_frames = 0;
  browser_ack_ahead_frames = 0;
  last_metrics_update = now;
}

-- `FrameState::default()`, and the frame a map has for a PTY or else that.
abbrev pub default_frame : FrameState
default_frame = new 0 0

abbrev pub or_default : Option FrameState → FrameState
or_default none = default_frame
or_default (some f) = f

abbrev pub frame_or_default : Keyed FrameState → ℕ → FrameState
frame_or_default frames pty_id = or_default (get frames pty_id)

-- `tx.try_send`, which drops the message where the channel is full.
unfoldable pub try_send : Bytes → ClientState → ClientState × Bool
try_send msg c =
    if ltb (length c.tx) outbox_capacity
    then (record c { tx = c.tx ++ msg ∷ [] }, true)
    else (c, false)

pub should_snapshot_pty : Bool → Bool → Bool → Bool
should_snapshot_pty dirty needful synced_output = dirty && (needful && not synced_output)

pub enqueue_ready_frame : List FrameState → FrameState → List FrameState × Bool
enqueue_ready_frame queue frame =
    if leb ready_frame_queue_cap (length queue) then (queue, false) else (queue ++ frame ∷ [], true)

pub advance_deadline : ℕ → ℕ → ℕ → ℕ
advance_deadline deadline now interval =
    let scheduled = deadline + interval in
    if ltb (scheduled + interval) now then now + interval else scheduled

abbrev pub or_else : ℕ → Option ℕ → ℕ
or_else d none = d
or_else d (some v) = v

pub preview_deadline : ClientState → ℕ → ℕ → ℕ
preview_deadline c pid now = or_else now (get c.preview_next_send_at pid)

-- `interval` is `preview_send_interval(client)`.
pub record_preview_send : ℕ → ℕ → ℕ → ClientState → ClientState
unfolding preview_deadline advance_deadline
record_preview_send interval pid now c = record c {
  preview_next_send_at =
      put pid (advance_deadline (preview_deadline c pid now) now interval) c.preview_next_send_at;
}

-- `interval` is `send_interval(client)`.
unfoldable pub record_send : ℕ → ℕ → ℕ → Bool → ClientState → ClientState
unfolding advance_deadline
record_send interval bytes now paced c = record c {
  inflight_bytes = c.inflight_bytes + bytes;
  inflight_frames =
      c.inflight_frames ++ record { sent_at = now; bytes = bytes; paced = paced } ∷ [];
  next_send_at = if paced then advance_deadline c.next_send_at now interval else c.next_send_at;
}

abbrev pub acked : List InFlightFrame → ClientState → ClientState
acked [] c = record c { inflight_bytes = 0 }
acked (frame ∷ frames) c = record c {
  inflight_frames = frames;
  inflight_bytes = c.inflight_bytes - frame.bytes;
  acked_bytes_since_log = c.acked_bytes_since_log + frame.bytes;
}

-- `record_ack`, but for its estimates.
unfoldable pub record_ack : ClientState → ClientState
record_ack c = acked c.inflight_frames c

unfoldable pub reset_inflight : ℕ → ClientState → ClientState
reset_inflight now c = record c {
  inflight_bytes = 0;
  inflight_frames = [];
  next_send_at = now;
  browser_backlog_frames = 0;
  browser_ack_ahead_frames = 0;
}

pub is_unset_view_size : ℕ → ℕ → Bool
is_unset_view_size rows cols = (rows == 0) && (cols == 0)

unfoldable pub subscribe_client_to : ℕ → ClientState → ClientState
subscribe_client_to pty_id c = if member pty_id c.subscriptions then c else record c {
  subscriptions = insert_id pty_id c.subscriptions;
  last_sent = del pty_id c.last_sent;
  preview_next_send_at = del pty_id c.preview_next_send_at;
}

abbrev pub is_id : ℕ → Option ℕ → Bool
is_id pty_id none = false
is_id pty_id (some p) = p == pty_id

unfoldable pub unsubscribe_client_from : ℕ → ClientState → ClientState × Bool
unsubscribe_client_from pty_id c = (
  record c {
    subscriptions = remove_id pty_id c.subscriptions;
    last_sent = del pty_id c.last_sent;
    preview_next_send_at = del pty_id c.preview_next_send_at;
    scroll_offsets = del pty_id c.scroll_offsets;
    scroll_caches = del pty_id c.scroll_caches;
    view_sizes = del pty_id c.view_sizes;
    lead = if is_id pty_id c.lead then none else c.lead;
  },
  member pty_id c.subscriptions || has c.view_sizes pty_id,
)

-- The frame that a client who scrolled back saw last is what the next update of it is made against.
abbrev pub leave_scroll : ℕ → Option FrameState → ClientState → ClientState
leave_scroll pty_id none c = c
leave_scroll pty_id (some cache) c = record c {
  scroll_caches = del pty_id c.scroll_caches;
  last_sent =
      if ltb 0 cache.rows && ltb 0 cache.cols
      then put pty_id cache c.last_sent
      else del pty_id c.last_sent;
}

abbrev pub enter_scroll : ℕ → ClientState → ClientState
enter_scroll pty_id c = record c {
  scroll_caches = put pty_id (frame_or_default c.last_sent pty_id) c.scroll_caches;
}

abbrev pub set_scroll_offset : ℕ → ℕ → ClientState → ClientState
set_scroll_offset pty_id next_offset c = record c {
  scroll_offsets =
      if ltb 0 next_offset
      then put pty_id next_offset c.scroll_offsets
      else del pty_id c.scroll_offsets;
}

abbrev pub scroll_offset : ClientState → ℕ → ℕ
scroll_offset c pty_id = or_else 0 (get c.scroll_offsets pty_id)

unfoldable pub update_client_scroll_state : ℕ → ℕ → ℕ → ClientState → ClientState × Bool
unfolding reset_inflight
update_client_scroll_state now pty_id next_offset c =
    let prev_offset = scroll_offset c pty_id in
    let moved =
      if (prev_offset == 0) && ltb 0 next_offset
      then enter_scroll pty_id c
      else if ltb 0 prev_offset && (next_offset == 0)
      then leave_scroll pty_id (get c.scroll_caches pty_id) c
      else c in
    if prev_offset == next_offset
    then (c, false)
    else (reset_inflight now (set_scroll_offset pty_id next_offset moved), true)

pub data SendOutcome : Type 0 where
  no_change : SendOutcome
  sent : SendOutcome
  backpressured : SendOutcome

-- `interval` is `send_interval(client)`. Where the channel is full the message is dropped, and yet
-- the frame counts as sent.
abbrev pub sent_update :
    ℕ → ℕ → FrameState → ℕ → ℕ → Bool → ClientState × Bool → ClientState × SendOutcome
sent_update interval pid current bytes now paced (c, false) =
    (record c { last_sent = put pid current c.last_sent }, backpressured)
sent_update interval pid current bytes now paced (c, true) =
    let recorded =
      record_send interval bytes now paced (record c { last_sent = put pid current c.last_sent }) in
    (record recorded { frames_sent = (recorded.frames_sent + 1) % 4294967296 }, sent)

unfoldable pub try_send_update :
    ℕ → ℕ → FrameState → Option Bytes → ℕ → Bool → ClientState → ClientState × SendOutcome
unfolding try_send record_send
try_send_update interval pid current none now paced c = (c, no_change)
try_send_update interval pid current (some msg) now paced c =
    sent_update interval pid current (length msg) now paced (try_send msg c)
