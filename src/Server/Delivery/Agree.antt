-- ===== src/Server/Delivery/Agree.antt =====
-- What the client will show, once it has taken what is on its way, is the frame in `last_sent`.
use btrm.Base.{
  ℕ, ◌≡◌, ◌≢◌, refl, sym, ap, ◌∙◌, List, [], ◌∷◌, ◌++◌, Bool, true, false, Option, none, some,
  Bytes, ltb, ◌==◌, length, arith, Bool-cases, inl, inr,
}
use btrm.Base.Words.{IsU16}
use btrm.Base.Keyed.{Keyed, get, put, get-put}
use btrm.Frame.{FrameState}
use btrm.Frame.Valid.{IsValid, new-IsValid}
use btrm.Diff.Update.{build_update_msg}
use btrm.Diff.Update.RoundTrip.{ShowsFrame}
use btrm.Diff.Update.Message.{feed_compressed-build_update_msg}
use btrm.Server.Client.{
  ClientState, InFlightFrame, default_frame, frame_or_default, or_default, outbox_capacity,
  try_send, try_send_update, sent_update, record_send, record_ack, acked, SendOutcome, sent,
  backpressured,
}
use btrm.Server.Delivery.{
  IsFrame, Link, receive, receive_all, shown_by, send_frame, Step, frame_sent, other_sent,
  acknowledged, delivered, Steps, here, next, frame_read, previous_frame, link,
}

module _ (compress : Bytes → Bytes) (decompress : Bytes → Option Bytes)
    (decompress-compress : (p : Bytes) → decompress (compress p) ≡ some p) (pid : ℕ)
    (pid_fits : IsU16 pid) where
  abbrev arrives : ClientState → FrameState → FrameState
  arrives c shown = receive_all compress decompress pid shown c.tx

  -- The current frame of an update that is being built can come from a terminal, and the previous one is
  -- still the one in `last_sent`.
  abbrev pub Pending : FrameState → Option (FrameState × FrameState) → Type 0
  Pending last none = Unit
  Pending last (some (current, previous)) = IsFrame current × (previous ≡ last)

  abbrev pub Building : Type 0
  Building = Option (FrameState × FrameState)

  pub record Agrees (l : Link) : Type 0 where
    pub valid : IsValid (frame_or_default l.server.last_sent pid)
    pub agrees :
        ShowsFrame
          (frame_or_default l.server.last_sent pid)
          (receive_all compress decompress pid l.shown l.server.tx)
    pub built_from : Pending (frame_or_default l.server.last_sent pid) l.building

  receive_all-append :
      (f : FrameState) (msgs : List Bytes) (msg : Bytes)
      → receive_all compress decompress pid f (msgs ++ msg ∷ [])
        ≡ receive compress decompress pid (receive_all compress decompress pid f msgs) msg
  unfolding receive_all
  receive_all-append f [] msg = refl
  receive_all-append f (m ∷ msgs) msg =
      receive_all-append (receive compress decompress pid f m) msgs msg

  try_send_room :
      (msg : Bytes) (c : ClientState)
      → ltb (length c.tx) outbox_capacity ≡ true
      → try_send msg c ≡ (record c { tx = c.tx ++ msg ∷ [] }, true)
  unfolding try_send
  try_send_room msg c small = rw small refl

  try_send_full :
      (msg : Bytes) (c : ClientState)
      → ltb (length c.tx) outbox_capacity ≡ false
      → try_send msg c ≡ (c, false)
  unfolding try_send
  try_send_full msg c full = rw full refl

  last_put :
      (current : FrameState) (m : Keyed FrameState)
      → frame_or_default (put pid current m) pid ≡ current
  last_put current m =
      let same : pid == pid ≡ true = ground arith in
      ap or_default (get-put pid pid current m) ∙ rw same refl

  -- The update that the client takes behind all that is on its way.
  update_received :
      (c : ClientState) (shown current : FrameState) (msg : Bytes)
      → IsFrame current
      → IsValid (frame_or_default c.last_sent pid)
      → ShowsFrame (frame_or_default c.last_sent pid) (arrives c shown)
      → build_update_msg compress pid current (frame_or_default c.last_sent pid) ≡ some msg
      → ShowsFrame current (receive compress decompress pid (arrives c shown) msg)
  unfolding receive shown_by
  update_received c shown current msg fr valid s built =
      let (payload, parsed, shows) =
        feed_compressed-build_update_msg compress decompress decompress-compress pid current
          (frame_or_default c.last_sent pid) (arrives c shown) msg pid_fits fr.valid valid fr.wire
          fr.inside fr.short fr.title_text
          (record { same_rows = s.same_rows; same_cols = s.same_cols; same_cells = s.same_cells })
          s.same_title built in
      let same : pid == pid ≡ true = ground arith in rw (parsed, same) shows

  sent-Agrees :
      (interval : ℕ) (current : FrameState) (now : ℕ) (paced : Bool) (c : ClientState)
      (b : Building) (shown : FrameState) (o : Option Bytes)
      → IsFrame current
      → Agrees (link compress decompress pid c b shown)
      → build_update_msg compress pid current (frame_or_default c.last_sent pid) ≡ o
      → (try_send_update interval pid current o now paced c).1 ≢ backpressured
      → Agrees (
          link compress decompress pid
            (try_send_update interval pid current o now paced c).0
            none
            shown)
  unfolding try_send_update record_send
  sent-Agrees interval current now paced c b shown none fr a built ok = record {
    valid = a.valid;
    agrees = a.agrees;
    built_from = tt;
  }
  sent-Agrees interval current now paced c b shown (some msg) fr a built ok =
      elim (Bool-cases (ltb (length c.tx) outbox_capacity)) [
        | inl small ↦ rw (try_send_room msg c small) (record {
          valid = rw (last_put current c.last_sent) fr.valid;
          agrees =
              rw (last_put current c.last_sent, receive_all-append shown c.tx msg)
                (update_received c shown current msg fr a.valid a.agrees built);
          built_from = tt;
        })
        | inr full ↦ absurd (
            ok (
              ap
                (λ (r : ClientState × Bool).
                  (sent_update interval pid current (length msg) now paced r).1)
                (try_send_full msg c full)))
      ]

  other-Agrees :
      (c : ClientState) (b : Building) (shown : FrameState) (msg : Bytes)
      → ((f : FrameState) → receive compress decompress pid f msg ≡ f)
      → Agrees (link compress decompress pid c b shown)
      → Agrees (link compress decompress pid (try_send msg c).0 b shown)
  other-Agrees c b shown msg other a = elim (Bool-cases (ltb (length c.tx) outbox_capacity)) [
    | inl small ↦ rw (try_send_room msg c small) (record {
      valid = a.valid;
      agrees = rw (receive_all-append shown c.tx msg, other (arrives c shown)) a.agrees;
      built_from = a.built_from;
    })
    | inr full ↦ rw (try_send_full msg c full) a
  ]

  acked-Agrees :
      (frames : List InFlightFrame) (c : ClientState) (b : Building) (shown : FrameState)
      → Agrees (link compress decompress pid c b shown)
      → Agrees (link compress decompress pid (acked frames c) b shown)
  acked-Agrees [] c b shown a = record {
    valid = a.valid;
    agrees = a.agrees;
    built_from = a.built_from;
  }
  acked-Agrees (f ∷ frames) c b shown a = record {
    valid = a.valid;
    agrees = a.agrees;
    built_from = a.built_from;
  }

  pub Step-Agrees : (l m : Link) → Step compress decompress pid l m → Agrees l → Agrees m
  unfolding send_frame record_ack receive_all previous_frame
  Step-Agrees l m (frame_read c shown current fr) a = record {
    valid = a.valid;
    agrees = a.agrees;
    built_from = (fr, refl);
  }
  Step-Agrees l m (frame_sent c shown interval current previous now paced ok) a =
      let (fr, still) = a.built_from in
      rw still (
        sent-Agrees interval current now paced c (some (current, previous)) shown
          (build_update_msg compress pid current (frame_or_default c.last_sent pid)) fr a refl
          (rw still at ok))
  Step-Agrees l m (other_sent c b shown msg other) a = other-Agrees c b shown msg other a
  Step-Agrees l m (acknowledged c b shown) a = acked-Agrees c.inflight_frames c b shown a
  Step-Agrees l m (delivered c b shown msg msgs e) a = record {
    valid = a.valid;
    agrees = rw e at a.agrees;
    built_from = a.built_from;
  }

  pub Steps-Agrees : (l m : Link) → Steps compress decompress pid l m → Agrees l → Agrees m
  Steps-Agrees l m (here k) a = a
  Steps-Agrees l n (next k m n' steps step) a = Step-Agrees m n' step (Steps-Agrees k m steps a)

  -- Before the first frame, the client shows nothing and nothing is on its way to it.
  pub start-Agrees :
      (c : ClientState)
      → get c.last_sent pid ≡ none
      → c.tx ≡ []
      → Agrees (link compress decompress pid c none default_frame)
  unfolding receive_all
  start-Agrees c e t = record {
    valid = rw e (new-IsValid 0 0);
    agrees =
        rw (e, t)
          (record {
            same_rows = refl;
            same_cols = refl;
            same_cells = refl;
            same_title = refl;
            same_cursor_row = refl;
            same_cursor_col = refl;
            same_mode = refl;
          });
    built_from = tt;
  }

  -- Where the channel has room, no frame is lost.
  pub room_sends :
      (interval : ℕ) (current : FrameState) (now : ℕ) (paced : Bool) (c : ClientState)
      (o : Option Bytes)
      → ltb (length c.tx) outbox_capacity ≡ true
      → (try_send_update interval pid current o now paced c).1 ≢ backpressured
  unfolding try_send_update
  room_sends interval current now paced c none small e = cc
  room_sends interval current now paced c (some msg) small e =
      let gone : ◌≡◌ {A = SendOutcome} sent backpressured =
        sym (
          ap
            (λ (r : ClientState × Bool).
              (sent_update interval pid current (length msg) now paced r).1)
            (try_send_room msg c small))
        ∙ e in
      cc
