-- ===== src/Server/Handler/Valid.antt =====
-- What the handlers of one message keep: every client is in order and knows only PTYs that there are.
use btrm.Base.{
  ℕ, ◌%◌, zero, suc, ◌+◌, ◌≡◌, refl, sym, ap, ◌∙◌, List, Bool, true, Option, none, some, Bytes, ltb,
  ◌==◌, ◌||◌, arith, if_keeps, drop,
}
use btrm.Base.Words.{u16_at, u32_at}
use btrm.Base.Keyed.{Keyed, get, put, del, has, member, get-put, get-del, member-remove_id}
use btrm.Wire.Server.{created_msg, closed_msg}
use btrm.Server.Client.{
  ClientState, is_unset_view_size, unsubscribe_client_from, update_client_scroll_state, new_client,
}
use btrm.Server.Client.Valid.{new_client-IsClient, total}
use btrm.Server.Session.{Session, Pty, mark_dirty}
use btrm.Server.Session.Valid.{
  Fits, same_fields, try_send-Fits, record_ack-Fits, subscribe_client_to-Fits,
  unsubscribe_client_from-Fits, update_client_scroll_state-Fits,
}
use btrm.Server.Session.Keeps.{
  IsSession, AllFit-more, AllFit-map, AllFit-modify, AllFit-put, set_client-IsSession,
  set_pty-IsSession, send_to_all-IsSession,
}
use btrm.Server.Handler.Lead.{focus_client-Fits, created_client-Fits, send_to_others-AllFit}
use btrm.Server.Create.{CreateRequest}
use btrm.Server.Handler.{
  acknowledge, set_view, handle_ack, handle_display_rate, handle_client_metrics, handle_input,
  leaves_scroll, handle_scroll, resize_loop, handle_subscribe, handle_focus, handle_kill, kill_of,
  handle_close, close_of, created, announce, handle_connect,
}

module _ (known : ℕ → Bool) where
  -- A change of fields that no condition is about.
  same_client :
      (c d : ClientState)
      → d.tx ≡ c.tx
      → d.lead ≡ c.lead
      → d.subscriptions ≡ c.subscriptions
      → d.view_sizes ≡ c.view_sizes
      → d.scroll_offsets ≡ c.scroll_offsets
      → d.scroll_caches ≡ c.scroll_caches
      → d.inflight_bytes ≡ c.inflight_bytes
      → d.inflight_frames ≡ c.inflight_frames
      → Fits known c
      → Fits known d
  same_client c d tx lead subs views offsets caches bytes frames f = record {
    is_client = record {
      inflight = bytes ∙ f.is_client.inflight ∙ ap total (sym frames);
      lead_subscribed = λ q e. rw subs (f.is_client.lead_subscribed q (sym lead ∙ e));
      scrolled = λ q e. f.is_client.scrolled q (rw offsets at e);
      cached = λ q e. rw offsets (f.is_client.cached q (rw caches at e));
      room = rw tx f.is_client.room;
    };
    knows = same_fields known c d subs views offsets f.knows;
  }

  acknowledge-Fits :
      (do_log : Bool) (c : ClientState) → Fits known c → Fits known (acknowledge do_log c)
  unfolding acknowledge
  acknowledge-Fits do_log c f =
      let counted : Fits known (record c { acks_recv = (c.acks_recv + 1) % 4294967296 }) =
        same_client c _ refl refl refl refl refl refl refl refl f in
      let acked = record_ack-Fits known _ counted in
      if_keeps (Fits known) do_log
        (λ logged. same_client _ _ refl refl refl refl refl refl refl refl acked) (λ quiet. acked)

  set_view-Fits :
      (pid rows cols : ℕ) (c : ClientState)
      → known pid ≡ true
      → Fits known c
      → Fits known (set_view pid rows cols c).0
  unfolding set_view
  set_view-Fits pid rows cols c is f =
      let viewed : (m : Keyed (ℕ × ℕ))
          → ((q : ℕ) → has m q ≡ true → known q ≡ true)
          → Fits known (record c { view_sizes = m }) =
        λ m h. record {
          is_client = record {
            inflight = f.is_client.inflight;
            lead_subscribed = f.is_client.lead_subscribed;
            scrolled = f.is_client.scrolled;
            cached = f.is_client.cached;
            room = f.is_client.room;
          };
          knows = record {
            subscribed = f.knows.subscribed;
            viewed = h;
            scrolled = f.knows.scrolled;
          };
        } in
      if_keeps (λ (r : ClientState × Bool). Fits known r.0) (is_unset_view_size rows cols)
        (λ unset.
          viewed (del pid c.view_sizes)
            (λ q h. ground (arith, get-del pid q c.view_sizes, h, f.knows.viewed q)))
        (λ set.
          if_keeps (λ (r : ClientState × Bool). Fits known r.0) ((rows == 0) || (cols == 0))
            (λ half. f)
            (λ whole. viewed (put pid (rows, cols) c.view_sizes) (λ q h.
              ground
                (arith, get-put pid q (rows, cols) c.view_sizes, h, f.knows.viewed q, at_pid q))))
    where
      at_pid : (q : ℕ) → pid == q ≡ true → known q ≡ true
      at_pid q same = let e : pid ≡ q = ground (arith, same) in rw e at is

module _ {D : Type 0} where
  pub handle_ack-IsSession :
      (do_log : Bool) (cid : ℕ) (s : Session D)
      → IsSession s
      → IsSession (handle_ack do_log cid s).0
  unfolding handle_ack
  handle_ack-IsSession do_log cid s a =
      set_client-IsSession cid (acknowledge do_log) s
        (λ c f. acknowledge-Fits (has s.ptys) do_log c f) a

  pub handle_display_rate-IsSession :
      (cid : ℕ) (msg : Bytes) (s : Session D)
      → IsSession s
      → IsSession (handle_display_rate cid msg s).0
  unfolding handle_display_rate
  handle_display_rate-IsSession cid msg s a =
      if_keeps IsSession (ltb 0 (u16_at msg 1))
        (λ given.
          set_client-IsSession cid _ s
            (λ c f. same_client (has s.ptys) c _ refl refl refl refl refl refl refl refl f) a)
        (λ zero. a)

  pub handle_client_metrics-IsSession :
      (now cid : ℕ) (msg : Bytes) (s : Session D)
      → IsSession s
      → IsSession (handle_client_metrics now cid msg s).0
  unfolding handle_client_metrics
  handle_client_metrics-IsSession now cid msg s a =
      set_client-IsSession cid _ s
        (λ c f. same_client (has s.ptys) c _ refl refl refl refl refl refl refl refl f) a

  pub handle_input-IsSession :
      (now cid : ℕ) (msg : Bytes) (s : Session D)
      → IsSession s
      → IsSession (handle_input now cid msg s).0
  unfolding handle_input
  handle_input-IsSession now cid msg s a =
      let pid = u16_at msg 1 in
      let scrolled =
        set_client-IsSession cid (λ (c : ClientState). (update_client_scroll_state now pid 0 c).0) s
          (λ c f.
            update_client_scroll_state-Fits (has s.ptys) now pid 0 c
              (λ h. absurd (ground (arith, h))) f)
          a in
      if_keeps IsSession (leaves_scroll now pid (get s.clients cid))
        (λ moved. set_pty-IsSession pid mark_dirty _ scrolled) (λ still. scrolled)

  pub handle_scroll-IsSession :
      (now cid : ℕ) (msg : Bytes) (s : Session D)
      → IsSession s
      → IsSession (handle_scroll now cid msg s).0
  unfolding handle_scroll
  handle_scroll-IsSession now cid msg s a =
      let pid = u16_at msg 1 in
      if_keeps (λ (r : Session D × Bool). IsSession r.0) (has s.ptys pid)
        (λ is. set_pty-IsSession pid mark_dirty _ (
          set_client-IsSession cid _ s
            (λ c f.
              update_client_scroll_state-Fits (has s.ptys) now pid (u32_at msg 3) c (λ h. is) f)
            a))
        (λ unknown. a)

  pub resize_loop-IsSession :
      (left cid : ℕ) (entries : Bytes) (s : Session D)
      → IsSession s
      → IsSession (resize_loop left cid entries s).0
  unfolding resize_loop
  resize_loop-IsSession zero cid entries s a = a
  resize_loop-IsSession (suc left) cid entries s a =
      let pid = u16_at entries 0 in
      if_keeps (λ (r : Session D × List ℕ). IsSession r.0) (has s.ptys pid)
        (λ is. resize_loop-IsSession left cid (drop 6 entries) _ (
          set_client-IsSession cid _ s
            (λ c f. set_view-Fits (has s.ptys) pid (u16_at entries 2) (u16_at entries 4) c is f) a))
        (λ unknown. resize_loop-IsSession left cid (drop 6 entries) s a)

  pub handle_subscribe-IsSession :
      (cid : ℕ) (msg : Bytes) (s : Session D)
      → IsSession s
      → IsSession (handle_subscribe cid msg s).0
  unfolding handle_subscribe
  handle_subscribe-IsSession cid msg s a =
      let pid = u16_at msg 1 in
      if_keeps (λ (r : Session D × Bool). IsSession r.0) (has s.ptys pid)
        (λ is. set_pty-IsSession pid mark_dirty _ (
          set_client-IsSession cid _ s (λ c f. subscribe_client_to-Fits (has s.ptys) pid c is f) a))
        (λ unknown. a)

  pub handle_focus-IsSession :
      (now cid : ℕ) (msg : Bytes) (s : Session D)
      → IsSession s
      → IsSession (handle_focus now cid msg s).0
  unfolding handle_focus
  handle_focus-IsSession now cid msg s a =
      let pid = u16_at msg 1 in
      if_keeps (λ (r : Session D × Bool). IsSession r.0) (has s.ptys pid)
        (λ is.
          set_pty-IsSession pid mark_dirty _
            (set_client-IsSession cid _ s (λ c f. focus_client-Fits (has s.ptys) now pid c is f) a))
        (λ unknown. a)

  kill_of-IsSession :
      (pid signal : ℕ) (o : Option (Pty D)) (s : Session D)
      → IsSession s
      → IsSession (kill_of pid signal o s)
  kill_of-IsSession pid signal none s a = a
  kill_of-IsSession pid signal (some pty) s a =
      if_keeps IsSession pty.exited (λ gone. a) (λ runs. a)

  pub handle_kill-IsSession :
      (msg : Bytes) (s : Session D) → IsSession s → IsSession (handle_kill msg s).0
  unfolding handle_kill
  handle_kill-IsSession msg s a =
      kill_of-IsSession (u16_at msg 1) (u32_at msg 3) (get s.ptys (u16_at msg 1)) s a

  -- A client that has left a PTY knows only the others.
  left-Fits :
      (p : ℕ) (ptys : Keyed (Pty D)) (c : ClientState)
      → Fits (has ptys) c
      → Fits (has (del p ptys)) (unsubscribe_client_from p c).0
  unfolding unsubscribe_client_from
  left-Fits p ptys c f =
      let g = unsubscribe_client_from-Fits (has ptys) p c f in
      record {
        is_client = g.is_client;
        knows = record {
          subscribed = λ q h. ground (
            arith,
            get-del p q ptys,
            g.knows.subscribed q h,
            member-remove_id p q c.subscriptions,
            h,
          );
          viewed = λ q h.
              ground (arith, get-del p q ptys, g.knows.viewed q h, get-del p q c.view_sizes, h);
          scrolled = λ q h.
              ground
                (arith, get-del p q ptys, g.knows.scrolled q h, get-del p q c.scroll_offsets, h);
        };
      }

  close_of-IsSession :
      (p : ℕ) (o : Option (Pty D)) (s : Session D) → IsSession s → IsSession (close_of p o s)
  close_of-IsSession p none s a = a
  close_of-IsSession p (some pty) s a =
      send_to_all-IsSession (closed_msg p) _
        (AllFit-map (has s.ptys) (has (del p s.ptys)) _ s.clients (λ c f. left-Fits p s.ptys c f) a)

  pub handle_close-IsSession :
      (msg : Bytes) (s : Session D) → IsSession s → IsSession (handle_close msg s).0
  unfolding handle_close
  handle_close-IsSession msg s a = close_of-IsSession (u16_at msg 1) (get s.ptys (u16_at msg 1)) s a

  announce-IsSession :
      (nonce : Option ℕ) (cid : ℕ) (msg : Bytes) (s : Session D)
      → IsSession s
      → IsSession (announce nonce cid msg s)
  announce-IsSession none cid msg s a = send_to_all-IsSession msg s a
  announce-IsSession (some nonce) cid msg s a =
      send_to_others-AllFit (has s.ptys) cid msg s.clients a

  pub created-IsSession :
      (now cid : ℕ) (request : CreateRequest) (id : ℕ) (pty : Pty D) (s : Session D)
      → IsSession s
      → IsSession (created now cid request id pty s)
  unfolding created
  created-IsSession now cid request id pty s a =
      let known : ℕ → Bool = has (put id pty s.ptys) in
      let is : has (put id pty s.ptys) id ≡ true = ground (arith, get-put id id pty s.ptys) in
      announce-IsSession request.nonce cid (created_msg id pty.tag) _ (
        AllFit-modify known cid _ s.clients
          (λ c f.
            created_client-Fits known now request.nonce id request.rows request.cols pty.tag c is f)
          (AllFit-more (has s.ptys) known (λ q h. ground (arith, get-put id q pty s.ptys, h))
            s.clients a))

  pub handle_connect-IsSession :
      (now : ℕ) (s : Session D) → IsSession s → IsSession (handle_connect now s)
  unfolding handle_connect new_client member get
  handle_connect-IsSession now s a =
      AllFit-put (has s.ptys) s.next_client_id _ s.clients
        (try_send-Fits (has s.ptys) _ (new_client now) (record {
          is_client = new_client-IsClient now;
          knows = record { subscribed = λ q h. cc; viewed = λ q h. cc; scrolled = λ q h. cc };
        }))
        a
