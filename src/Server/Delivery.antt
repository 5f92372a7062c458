-- ===== src/Server/Delivery.antt =====
-- The delivery of one PTY's frames to one client: the server's half is what `tick` of
-- crates/server/src/lib.rs does for a client that shows the PTY as it is (it builds the update against
-- the frame in `last_sent` and hands it to `try_send_update`), the client's half takes the messages off
-- the channel in order. The server lets go of its lock while it builds the update, so what else happens
-- may come between the reading of `last_sent` and the sending. Compression and decompression are parameters.
pub mod Agree
use btrm.Base.{
  ℕ, ◌≤◌, ◌≡◌, ◌≢◌, List, [], ◌∷◌, Bool, true, Option, none, some, Bytes, ◌==◌, if◌then◌else◌,
  length,
}
use btrm.Base.Utf8.{is_utf8}
use btrm.Frame.{FrameState}
use btrm.Frame.Valid.{IsValid, CursorInside}
use btrm.Terminal.Payload.{title_len_mask}
use btrm.Terminal.Feed.{feed_compressed}
use btrm.Wire.{ServerMsg, update}
use btrm.Wire.Parse.{parse_server_msg}
use btrm.Diff.Update.{build_update_msg}
use btrm.Diff.Update.Ops.{IsWire}
use btrm.Server.Client.{
  ClientState, frame_or_default, try_send, try_send_update, record_ack, SendOutcome, backpressured,
}

-- A frame that a terminal can give.
pub record IsFrame (f : FrameState) : Type 0 where
  pub valid : IsValid f
  pub wire : IsWire f
  pub inside : CursorInside f
  pub short : length f.title ≤ title_len_mask
  pub title_text : is_utf8 f.title ≡ true

-- The server's record of the client, the frames that an update is being built from (the current one
-- and the previous one), and the frame that the client shows.
pub record Link : Type 0 where
  pub server : ClientState
  pub building : Option (FrameState × FrameState)
  pub shown : FrameState

module _ (compress : Bytes → Bytes) (decompress : Bytes → Option Bytes) (pid : ℕ) where
  unfoldable pub shown_by : FrameState → Option ServerMsg → FrameState
  unfolding feed_compressed
  shown_by f (some (update id payload)) =
      if id == pid then (feed_compressed decompress f payload).0 else f
  shown_by f _ = f

  -- A message that the client takes.
  unfoldable pub receive : FrameState → Bytes → FrameState
  unfolding shown_by
  receive f msg = shown_by f (parse_server_msg msg)

  unfoldable pub receive_all : FrameState → List Bytes → FrameState
  unfolding receive
  receive_all f [] = f
  receive_all f (msg ∷ msgs) = receive_all (receive f msg) msgs

  -- What `tick` reads before it builds an update: the frame that was sent last.
  unfoldable pub previous_frame : ClientState → FrameState
  previous_frame c = frame_or_default c.last_sent pid

  -- The part of `tick` that builds the update of the lead or a preview and sends it. (Where it is
  -- lost, `tick` also marks the PTY as changed, which is no part of the client's state.)
  unfoldable pub send_frame :
      ℕ → FrameState → FrameState → ℕ → Bool → ClientState → ClientState × SendOutcome
  unfolding try_send_update
  send_frame interval current previous now paced c =
      try_send_update interval pid current (build_update_msg compress pid current previous) now
        paced c

  abbrev pub link : ClientState → Option (FrameState × FrameState) → FrameState → Link
  link server building shown = record { server = server; building = building; shown = shown }

  -- What can happen, but for the loss of a frame on a channel that is full.
  pub data Step : Link → Link → Type 0 where
    frame_read :
        (server : ClientState) (shown : FrameState) (current : FrameState)
        → IsFrame current
        → Step (link server none shown) (link server (some (current, previous_frame server)) shown)
    frame_sent :
        (server : ClientState) (shown : FrameState) (interval : ℕ) (current previous : FrameState)
        (now : ℕ) (paced : Bool)
        → (send_frame interval current previous now paced server).1 ≢ backpressured
        → Step
            (link server (some (current, previous)) shown)
            (link (send_frame interval current previous now paced server).0 none shown)
    other_sent :
        (server : ClientState) (building : Option (FrameState × FrameState)) (shown : FrameState)
        (msg : Bytes)
        → ((f : FrameState) → receive f msg ≡ f)
        → Step (link server building shown) (link (try_send msg server).0 building shown)
    acknowledged :
        (server : ClientState) (building : Option (FrameState × FrameState)) (shown : FrameState)
        → Step (link server building shown) (link (record_ack server) building shown)
    delivered :
        (server : ClientState) (building : Option (FrameState × FrameState)) (shown : FrameState)
        (msg : Bytes) (msgs : List Bytes)
        → server.tx ≡ msg ∷ msgs
        → Step
            (link server building shown)
            (link (record server { tx = msgs }) building (receive shown msg))

  pub data Steps : Link → Link → Type 0 where
    here : (l : Link) → Steps l l
    next : (l m n : Link) → Steps l m → Step m n → Steps l n

  -- The client takes all that waits in the channel.
  pub drain : Link → Link
  unfolding receive_all
  drain l = link (record l.server { tx = [] }) l.building (receive_all l.shown l.server.tx)
