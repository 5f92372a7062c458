-- ===== src/Server/Session/Valid.antt =====
-- Clients that know only the PTYs there are, and what the operations on clients keep of that.
use btrm.Base.{
  ℕ, ◌≡◌, refl, List, [], ◌∷◌, Bool, true, Option, none, some, Bytes, ltb, ◌==◌, ◌&&◌, arith,
  if_keeps, length,
}
use btrm.Base.Keyed.{Keyed, get, has, member, get-del, member-insert_id, member-remove_id}
use btrm.Frame.{FrameState}
use btrm.Server.Client.{
  ClientState, InFlightFrame, outbox_capacity, acked, try_send, record_ack, reset_inflight,
  subscribe_client_to, unsubscribe_client_from, update_client_scroll_state, set_scroll_offset,
  enter_scroll, leave_scroll, scroll_offset,
}
use btrm.Server.Client.Valid.{
  IsClient, try_send-IsClient, record_ack-IsClient, reset_inflight-IsClient,
  subscribe_client_to-IsClient, unsubscribe_client_from-IsClient,
}
use btrm.Server.Client.Scroll.{update_client_scroll_state-IsClient, get-set_offset}

-- A client subscribes to, shows and scrolls only PTYs that there are.
pub record Known (known : ℕ → Bool) (c : ClientState) : Type 0 where
  pub subscribed : (q : ℕ) → member q c.subscriptions ≡ true → known q ≡ true
  pub viewed : (q : ℕ) → has c.view_sizes q ≡ true → known q ≡ true
  pub scrolled : (q : ℕ) → has c.scroll_offsets q ≡ true → known q ≡ true

pub record Fits (known : ℕ → Bool) (c : ClientState) : Type 0 where
  pub is_client : IsClient c
  pub knows : Known known c

-- All the clients of a session.
abbrev pub AllFit : (ℕ → Bool) → Keyed ClientState → Type 0
AllFit known clients = (cid : ℕ) (c : ClientState) → get clients cid ≡ some c → Fits known c

module _ (known : ℕ → Bool) where
  -- Operations that keep the three fields.
  pub same_fields :
      (c d : ClientState)
      → d.subscriptions ≡ c.subscriptions
      → d.view_sizes ≡ c.view_sizes
      → d.scroll_offsets ≡ c.scroll_offsets
      → Known known c
      → Known known d
  same_fields c d a b e k = record {
    subscribed = λ q h. k.subscribed q (rw a at h);
    viewed = λ q h. k.viewed q (rw b at h);
    scrolled = λ q h. k.scrolled q (rw e at h);
  }

  pub try_send-Fits : (msg : Bytes) (c : ClientState) → Fits known c → Fits known (try_send msg c).0
  unfolding try_send
  try_send-Fits msg c f = record {
    is_client = try_send-IsClient msg c f.is_client;
    knows =
        if_keeps (λ (r : ClientState × Bool). Known known r.0) (ltb (length c.tx) outbox_capacity)
          (λ small. same_fields c _ refl refl refl f.knows) (λ full. f.knows);
  }

  acked-Known :
      (frames : List InFlightFrame) (c : ClientState) → Known known c → Known known (acked frames c)
  acked-Known [] c k = same_fields c _ refl refl refl k
  acked-Known (f ∷ frames) c k = same_fields c _ refl refl refl k

  pub record_ack-Fits : (c : ClientState) → Fits known c → Fits known (record_ack c)
  unfolding record_ack
  record_ack-Fits c f = record {
    is_client = record_ack-IsClient c f.is_client;
    knows = acked-Known c.inflight_frames c f.knows;
  }

  pub reset_inflight-Fits :
      (now : ℕ) (c : ClientState) → Fits known c → Fits known (reset_inflight now c)
  unfolding reset_inflight
  reset_inflight-Fits now c f = record {
    is_client = reset_inflight-IsClient now c f.is_client;
    knows = same_fields c _ refl refl refl f.knows;
  }

  known_at : (p q : ℕ) → known p ≡ true → p == q ≡ true → known q ≡ true
  known_at p q is same = let e : p ≡ q = ground (arith, same) in rw e at is

  subscribe-Known :
      (p : ℕ) (c : ClientState)
      → known p ≡ true
      → Known known c
      → Known known (subscribe_client_to p c)
  unfolding subscribe_client_to
  subscribe-Known p c is k =
      if_keeps (Known known) (member p c.subscriptions) (λ old. k)
        (λ fresh. record {
          subscribed = λ q h.
              ground
                (arith, member-insert_id p q c.subscriptions, h, k.subscribed q, known_at p q is);
          viewed = k.viewed;
          scrolled = k.scrolled;
        })

  pub subscribe_client_to-Fits :
      (p : ℕ) (c : ClientState)
      → known p ≡ true
      → Fits known c
      → Fits known (subscribe_client_to p c)
  subscribe_client_to-Fits p c is f = record {
    is_client = subscribe_client_to-IsClient p c f.is_client;
    knows = subscribe-Known p c is f.knows;
  }

  pub unsubscribe_client_from-Fits :
      (p : ℕ) (c : ClientState) → Fits known c → Fits known (unsubscribe_client_from p c).0
  unfolding unsubscribe_client_from
  unsubscribe_client_from-Fits p c f = record {
    is_client = unsubscribe_client_from-IsClient p c f.is_client;
    knows = record {
      subscribed =
          λ q h. ground (arith, member-remove_id p q c.subscriptions, h, f.knows.subscribed q);
      viewed = λ q h. ground (arith, get-del p q c.view_sizes, h, f.knows.viewed q);
      scrolled = λ q h. ground (arith, get-del p q c.scroll_offsets, h, f.knows.scrolled q);
    };
  }

  moved_offset :
      (now p next : ℕ) (c m : ClientState)
      → (ltb 0 next ≡ true → known p ≡ true)
      → m.subscriptions ≡ c.subscriptions
      → m.view_sizes ≡ c.view_sizes
      → m.scroll_offsets ≡ c.scroll_offsets
      → Known known c
      → Known known (reset_inflight now (set_scroll_offset p next m))
  unfolding reset_inflight
  moved_offset now p next c m is a b e k =
      let km = same_fields c m a b e k in
      record {
        subscribed = km.subscribed;
        viewed = km.viewed;
        scrolled = λ q h. ground (
          arith,
          get-set_offset p next q m.scroll_offsets,
          h,
          km.scrolled q,
          λ (t : ltb 0 next ≡ true). known_at p q (is t),
        );
      }

  left_scroll :
      (now p next : ℕ) (o : Option FrameState) (c : ClientState)
      → (ltb 0 next ≡ true → known p ≡ true)
      → Known known c
      → Known known (reset_inflight now (set_scroll_offset p next (leave_scroll p o c)))
  left_scroll now p next none c is k = moved_offset now p next c c is refl refl refl k
  left_scroll now p next (some f) c is k =
      moved_offset now p next c (leave_scroll p (some f) c) is refl refl refl k

  scroll-Known :
      (now p next : ℕ) (c : ClientState)
      → (ltb 0 next ≡ true → known p ≡ true)
      → Known known c
      → Known known (update_client_scroll_state now p next c).0
  unfolding update_client_scroll_state
  scroll-Known now p next c is k =
      let prev = scroll_offset c p in
      let to : ClientState → ClientState = λ m. reset_inflight now (set_scroll_offset p next m) in
      if_keeps (λ (r : ClientState × Bool). Known known r.0) (prev == next) (λ same. k)
        (λ differs.
          if_keeps (λ (m : ClientState). Known known (to m)) ((prev == 0) && ltb 0 next)
            (λ enters. moved_offset now p next c (enter_scroll p c) is refl refl refl k)
            (λ stays.
              if_keeps (λ (m : ClientState). Known known (to m)) (ltb 0 prev && (next == 0))
                (λ leaves. left_scroll now p next (get c.scroll_caches p) c is k)
                (λ scrolls. moved_offset now p next c c is refl refl refl k)))

  -- An offset other than zero is given only to a PTY that there is.
  pub update_client_scroll_state-Fits :
      (now p next : ℕ) (c : ClientState)
      → (ltb 0 next ≡ true → known p ≡ true)
      → Fits known c
      → Fits known (update_client_scroll_state now p next c).0
  update_client_scroll_state-Fits now p next c is f = record {
    is_client = update_client_scroll_state-IsClient now p next c f.is_client;
    knows = scroll-Known now p next c is f.knows;
  }
