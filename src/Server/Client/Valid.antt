-- ===== src/Server/Client/Valid.antt =====
-- What every operation on a client keeps.
use btrm.Base.{
  ℕ, ◌+◌, ◌≤◌, ◌≡◌, ◌≢◌, refl, sym, ap, List, [], ◌∷◌, ◌++◌, Bool, true, false, Option, none, some,
  Bytes, ltb, ◌==◌, if◌then◌else◌, length, arith, if_keeps, ltb→lt,
}
use mathlib.Core.Option.{some-injective}
use btrm.Base.Lists.{length-append}
use btrm.Base.Keyed.{
  get, put, has, member, get-del, member-insert_id, member-remove_id, Ids, remove_id,
}
use btrm.Frame.{FrameState}
use btrm.Server.Client.{
  ClientState, InFlightFrame, acked, is_id, new_client, outbox_capacity, try_send, record_send,
  record_ack, record_preview_send, reset_inflight, subscribe_client_to, unsubscribe_client_from,
  try_send_update, sent_update,
}

unfoldable pub total : List InFlightFrame → ℕ
total [] = 0
total (frame ∷ frames) = frame.bytes + total frames

total-append :
    (a : List InFlightFrame) (f : InFlightFrame) → total (a ++ f ∷ []) ≡ total a + f.bytes
unfolding total
total-append [] f = omega arith
total-append (x ∷ a) f = omega (arith, total-append a f)

-- The bytes in flight are those of the frames in flight, the lead is subscribed to, an offset that is
-- kept is not zero, a frame is cached only of a PTY that is scrolled back, and the channel holds no
-- more than it can.
pub record IsClient (c : ClientState) : Type 0 where
  pub inflight : c.inflight_bytes ≡ total c.inflight_frames
  pub lead_subscribed : (p : ℕ) → c.lead ≡ some p → member p c.subscriptions ≡ true
  pub scrolled : (p : ℕ) → get c.scroll_offsets p ≢ some 0
  pub cached : (p : ℕ) → has c.scroll_caches p ≡ true → has c.scroll_offsets p ≡ true
  pub room : length c.tx ≤ outbox_capacity

none≢some : (p : ℕ) → none ≢ some p
none≢some p e = cc

pub new_client-IsClient : (now : ℕ) → IsClient (new_client now)
unfolding new_client total get
new_client-IsClient now = record {
  inflight = refl;
  lead_subscribed = λ p e. cc;
  scrolled = λ p e. cc;
  cached = λ p e. e;
  room = omega arith;
}

pub try_send-IsClient : (msg : Bytes) (c : ClientState) → IsClient c → IsClient (try_send msg c).0
unfolding try_send
try_send-IsClient msg c h =
    if_keeps (λ (r : ClientState × Bool). IsClient r.0) (ltb (length c.tx) outbox_capacity)
      (λ small. record {
        inflight = h.inflight;
        lead_subscribed = h.lead_subscribed;
        scrolled = h.scrolled;
        cached = h.cached;
        room =
            omega (
              arith,
              ltb→lt (length c.tx) outbox_capacity small,
              length-append {0} c.tx (msg ∷ []),
            );
      })
      (λ full. h)

pub record_send-IsClient :
    (interval bytes now : ℕ) (paced : Bool) (c : ClientState)
    → IsClient c
    → IsClient (record_send interval bytes now paced c)
unfolding record_send
record_send-IsClient interval bytes now paced c h = record {
  inflight = omega (arith, h.inflight, total-append c.inflight_frames _);
  lead_subscribed = h.lead_subscribed;
  scrolled = h.scrolled;
  cached = h.cached;
  room = h.room;
}

acked-IsClient :
    (frames : List InFlightFrame) (c : ClientState)
    → c.inflight_frames ≡ frames
    → IsClient c
    → IsClient (acked frames c)
unfolding total
acked-IsClient [] c e h = record {
  inflight = sym (ap total e);
  lead_subscribed = h.lead_subscribed;
  scrolled = h.scrolled;
  cached = h.cached;
  room = h.room;
}
acked-IsClient (frame ∷ frames) c e h = record {
  inflight = omega (arith, h.inflight, ap total e);
  lead_subscribed = h.lead_subscribed;
  scrolled = h.scrolled;
  cached = h.cached;
  room = h.room;
}

pub record_ack-IsClient : (c : ClientState) → IsClient c → IsClient (record_ack c)
unfolding record_ack
record_ack-IsClient c h = acked-IsClient c.inflight_frames c refl h

pub reset_inflight-IsClient :
    (now : ℕ) (c : ClientState) → IsClient c → IsClient (reset_inflight now c)
unfolding reset_inflight total
reset_inflight-IsClient now c h = record {
  inflight = refl;
  lead_subscribed = h.lead_subscribed;
  scrolled = h.scrolled;
  cached = h.cached;
  room = h.room;
}

pub subscribe_client_to-IsClient :
    (p : ℕ) (c : ClientState) → IsClient c → IsClient (subscribe_client_to p c)
unfolding subscribe_client_to
subscribe_client_to-IsClient p c h =
    if_keeps IsClient (member p c.subscriptions) (λ old. h)
      (λ fresh. record {
        inflight = h.inflight;
        lead_subscribed =
            λ q e. ground (arith, member-insert_id p q c.subscriptions, h.lead_subscribed q e);
        scrolled = h.scrolled;
        cached = h.cached;
        room = h.room;
      })

kept_lead :
    (p : ℕ) (s : Ids) (q : ℕ) (lead : Option ℕ)
    → (lead ≡ some q → member q s ≡ true)
    → (if is_id p lead then none else lead) ≡ some q
    → member q (remove_id p s) ≡ true
kept_lead p s q none h = λ e. cc
kept_lead p s q (some l) h =
    if_keeps (λ (o : Option ℕ). o ≡ some q → member q (remove_id p s) ≡ true) (l == p)
      (λ same e. cc)
      (λ differs e. ground (arith, member-remove_id p q s, h e, some-injective l q e, differs))

pub unsubscribe_client_from-IsClient :
    (p : ℕ) (c : ClientState) → IsClient c → IsClient (unsubscribe_client_from p c).0
unfolding unsubscribe_client_from
unsubscribe_client_from-IsClient p c h = record {
  inflight = h.inflight;
  lead_subscribed = λ q. kept_lead p c.subscriptions q c.lead (h.lead_subscribed q);
  scrolled = λ q e. h.scrolled q (ground (arith, get-del p q c.scroll_offsets, e));
  cached = λ q e.
      ground (arith, get-del p q c.scroll_caches, get-del p q c.scroll_offsets, h.cached q, e);
  room = h.room;
}

pub record_preview_send-IsClient :
    (interval p now : ℕ) (c : ClientState)
    → IsClient c
    → IsClient (record_preview_send interval p now c)
unfolding record_preview_send
record_preview_send-IsClient interval p now c h = record {
  inflight = h.inflight;
  lead_subscribed = h.lead_subscribed;
  scrolled = h.scrolled;
  cached = h.cached;
  room = h.room;
}

shown-IsClient :
    (pid : ℕ) (current : FrameState) (c : ClientState)
    → IsClient c
    → IsClient (record c { last_sent = put pid current c.last_sent })
shown-IsClient pid current c h = record {
  inflight = h.inflight;
  lead_subscribed = h.lead_subscribed;
  scrolled = h.scrolled;
  cached = h.cached;
  room = h.room;
}

sent_update-IsClient :
    (interval pid : ℕ) (current : FrameState) (bytes now : ℕ) (paced : Bool)
    (r : ClientState × Bool)
    → IsClient r.0
    → IsClient (sent_update interval pid current bytes now paced r).0
sent_update-IsClient interval pid current bytes now paced (c, false) h =
    shown-IsClient pid current c h
sent_update-IsClient interval pid current bytes now paced (c, true) h =
    let r =
      record_send-IsClient interval bytes now paced
        (record c { last_sent = put pid current c.last_sent }) (shown-IsClient pid current c h) in
    record {
      inflight = r.inflight;
      lead_subscribed = r.lead_subscribed;
      scrolled = r.scrolled;
      cached = r.cached;
      room = r.room;
    }

pub try_send_update-IsClient :
    (interval pid : ℕ) (current : FrameState) (msg : Option Bytes) (now : ℕ) (paced : Bool)
    (c : ClientState)
    → IsClient c
    → IsClient (try_send_update interval pid current msg now paced c).0
unfolding try_send_update
try_send_update-IsClient interval pid current none now paced c h = h
try_send_update-IsClient interval pid current (some msg) now paced c h =
    sent_update-IsClient interval pid current (length msg) now paced (try_send msg c)
      (try_send-IsClient msg c h)
