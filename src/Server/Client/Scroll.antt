-- ===== src/Server/Client/Scroll.antt =====
-- A change of the scroll offset keeps what every operation on a client keeps.
use btrm.Base.{
  ℕ, ◌≤◌, ◌≡◌, ◌≢◌, refl, ap, Bool, true, false, Option, none, some, ltb, ◌&&◌, ◌==◌, if◌then◌else◌,
  length, arith, if_keeps,
}
use btrm.Base.Keyed.{Keyed, get, put, del, has, is_some, member, get-put, get-del}
use btrm.Frame.{FrameState}
use btrm.Server.Client.{
  ClientState, outbox_capacity, reset_inflight, set_scroll_offset, leave_scroll,
  update_client_scroll_state, scroll_offset, frame_or_default,
}
use btrm.Server.Client.Valid.{IsClient, total}

-- A client between the two halves of a change of its offset to `next`: only the cache of that PTY may
-- stand without an offset.
record Moved (p next : ℕ) (c : ClientState) : Type 0 where
  lead_subscribed : (q : ℕ) → c.lead ≡ some q → member q c.subscriptions ≡ true
  scrolled : (q : ℕ) → get c.scroll_offsets q ≢ some 0
  cached_else :
      (q : ℕ) → p == q ≡ false → has c.scroll_caches q ≡ true → has c.scroll_offsets q ≡ true
  cache_left : next ≡ 0 → has c.scroll_caches p ≡ false
  room : length c.tx ≤ outbox_capacity

pub get-set_offset :
    (p next q : ℕ) (m : Keyed ℕ)
    → get (if ltb 0 next then put p next m else del p m) q
      ≡ (if p == q then (if ltb 0 next then some next else none) else get m q)
get-set_offset p next q m =
    if_keeps
      (λ (n : Keyed ℕ).
        get n q ≡ (if p == q then (if ltb 0 next then some next else none) else get m q))
      (ltb 0 next) (λ positive. ground (arith, get-put p q next m, positive))
      (λ zero. ground (arith, get-del p q m, zero))

set_scroll_offset-IsClient :
    (now p next : ℕ) (c : ClientState)
    → Moved p next c
    → IsClient (reset_inflight now (set_scroll_offset p next c))
unfolding reset_inflight total
set_scroll_offset-IsClient now p next c m = record {
  inflight = refl;
  lead_subscribed = m.lead_subscribed;
  scrolled = λ q e. m.scrolled q (ground (arith, get-set_offset p next q c.scroll_offsets, e));
  cached = λ q e.
      ground (arith, get-set_offset p next q c.scroll_offsets, e, m.cached_else q, m.cache_left);
  room = m.room;
}

leave_scroll-Moved :
    (p next : ℕ) (cache : Option FrameState) (c : ClientState)
    → IsClient c
    → get c.scroll_caches p ≡ cache
    → Moved p next (leave_scroll p cache c)
leave_scroll-Moved p next none c h e = record {
  lead_subscribed = h.lead_subscribed;
  scrolled = h.scrolled;
  cached_else = λ q differs. h.cached q;
  cache_left = λ z. ap is_some e;
  room = h.room;
}
leave_scroll-Moved p next (some cache) c h e = record {
  lead_subscribed = h.lead_subscribed;
  scrolled = h.scrolled;
  cached_else = λ q differs f. ground (arith, get-del p q c.scroll_caches, h.cached q, differs, f);
  cache_left = λ z. ground (arith, get-del p p c.scroll_caches);
  room = h.room;
}

pub update_client_scroll_state-IsClient :
    (now p next : ℕ) (c : ClientState)
    → IsClient c
    → IsClient (update_client_scroll_state now p next c).0
unfolding update_client_scroll_state
update_client_scroll_state-IsClient now p next c h =
    let prev = scroll_offset c p in
    if_keeps (λ (r : ClientState × Bool). IsClient r.0) (prev == next) (λ same. h)
      (λ differs. set_scroll_offset-IsClient now p next _ (
        if_keeps (Moved p next) ((prev == 0) && ltb 0 next)
          (λ enters. record {
            lead_subscribed = h.lead_subscribed;
            scrolled = h.scrolled;
            cached_else = λ q other f. ground (
              arith,
              get-put p q (frame_or_default c.last_sent p) c.scroll_caches,
              h.cached q,
              other,
              f,
            );
            cache_left = λ z. ground (arith, z, enters);
            room = h.room;
          })
          (λ stays.
            if_keeps (Moved p next) (ltb 0 prev && (next == 0))
              (λ leaves. leave_scroll-Moved p next (get c.scroll_caches p) c h refl)
              (λ scrolls. record {
                lead_subscribed = h.lead_subscribed;
                scrolled = h.scrolled;
                cached_else = λ q other. h.cached q;
                cache_left = λ z. ground (arith, z, differs, stays, scrolls);
                room = h.room;
              }))))
