-- ===== src/Server/Dispatch/Keeps.antt =====
-- Every message keeps what holds of a session.
use btrm.Base.{
  ℕ, ◌≡◌, refl, ap, ◌∙◌, Bool, true, ◌&&◌, Option, none, some, Bytes, leb, ◌==◌, ◌%◌, length, drop,
  if_keeps,
}
use btrm.Base.Words.{byte_at, u16_at}
use btrm.Base.Keyed.{get, has, is_some, insert_id}
use btrm.Wire.{
  c2s_input, c2s_resize, c2s_scroll, c2s_ack, c2s_display_rate, c2s_client_metrics, c2s_mouse,
  c2s_restart, c2s_create, c2s_focus, c2s_close, c2s_subscribe, c2s_unsubscribe, c2s_search,
  c2s_create_at, c2s_create_n, c2s_create2, c2s_read, c2s_copy_range, c2s_kill,
}
use btrm.Wire.Server.{created_msg}
use btrm.Server.Session.{Session, Pty, PtyDriver, set_pty, allocate_pty_id}
use btrm.Server.Session.Valid.{reset_inflight-Fits, unsubscribe_client_from-Fits}
use btrm.Server.Session.Keeps.{
  IsSession, AllFit-del, set_client-IsSession, set_pty-IsSession, send_to_all-IsSession,
  resize_ptys_to_mediated_sizes-IsSession, has-set_pty,
}
use btrm.Server.Create.{
  CreateRequest, decode_create, decode_create_n, decode_create_at, decode_create2,
}
use btrm.Server.Handler.{restart_client}
use btrm.Server.Handler.Lead.{restart_client-Fits}
use btrm.Server.Handler.Valid.{
  handle_ack-IsSession, handle_display_rate-IsSession, handle_client_metrics-IsSession,
  handle_input-IsSession, handle_scroll-IsSession, resize_loop-IsSession,
  handle_subscribe-IsSession, handle_focus-IsSession, handle_kill-IsSession, handle_close-IsSession,
  created-IsSession,
}
use btrm.Server.Reply.Keeps.{
  handle_read-IsSession, handle_copy_range-IsSession, handle_search-IsSession,
  handle_mouse-IsSession,
}
use btrm.Server.Dispatch.{
  System, created_if, create_at_id, handle_create, create2_of, restart_of, restart_if, restarted,
  handle_restart, handle_resize, handle_unsubscribe, handle_disconnect, handle_match, handle,
}

module _ {D : Type 0} (dr : PtyDriver D) (sys : System D) where
  created_if-IsSession :
      (now cid : ℕ) (request : CreateRequest) (id : ℕ) (o : Option (Pty D)) (s : Session D)
      → IsSession s
      → IsSession (created_if dr sys now cid request id o s).0
  created_if-IsSession now cid request id none s a = a
  created_if-IsSession now cid request id (some pty) s a =
      created-IsSession now cid request id pty s a

  create_at_id-IsSession :
      (now cid : ℕ) (request : CreateRequest) (o : Option ℕ) (s : Session D)
      → IsSession s
      → IsSession (create_at_id dr sys now cid request o s).0
  create_at_id-IsSession now cid request none s a = a
  create_at_id-IsSession now cid request (some id) s a =
      created_if-IsSession now cid request id _ s a

  handle_create-IsSession :
      (now cid : ℕ) (request : CreateRequest) (s : Session D)
      → IsSession s
      → IsSession (handle_create dr sys now cid request s).0
  unfolding handle_create
  handle_create-IsSession now cid request s a =
      create_at_id-IsSession now cid request (allocate_pty_id s) s a

  create2_of-IsSession :
      (now cid : ℕ) (o : Option CreateRequest) (s : Session D)
      → IsSession s
      → IsSession (create2_of dr sys now cid o s).0
  create2_of-IsSession now cid none s a = a
  create2_of-IsSession now cid (some request) s a = handle_create-IsSession now cid request s a

  restart_of-IsSession :
      (now cid pid : ℕ) (tag : Bytes) (o : Option (Bool × Bool)) (s : Session D)
      → has s.ptys pid ≡ true
      → IsSession s
      → IsSession (restart_of dr sys now cid pid tag o s).0
  restart_of-IsSession now cid pid tag none s is a = a
  restart_of-IsSession now cid pid tag (some flags) s is a =
      let entered : Session D = record s { pty_fds = insert_id pid s.pty_fds } in
      send_to_all-IsSession (created_msg pid tag) _ (
        set_client-IsSession cid (restart_client now pid)
          (set_pty pid (restarted dr sys flags) entered)
          (λ c f.
            restart_client-Fits _ now pid c
              (has-set_pty pid pid (restarted dr sys flags) entered ∙ is) f)
          (set_pty-IsSession pid (restarted dr sys flags) entered a))

  restart_if-IsSession :
      (now cid pid : ℕ) (o : Option (Pty D)) (s : Session D)
      → get s.ptys pid ≡ o
      → IsSession s
      → IsSession (restart_if dr sys now cid pid o s).0
  restart_if-IsSession now cid pid none s e a = a
  restart_if-IsSession now cid pid (some pty) s e a =
      if_keeps (λ (r : Session D × Bool). IsSession r.0) pty.exited
        (λ exited. restart_of-IsSession now cid pid pty.tag _ s (ap is_some e) a) (λ runs. a)

  handle_restart-IsSession :
      (now cid : ℕ) (msg : Bytes) (s : Session D)
      → IsSession s
      → IsSession (handle_restart dr sys now cid msg s).0
  unfolding handle_restart
  handle_restart-IsSession now cid msg s a =
      restart_if-IsSession now cid (u16_at msg 1) (get s.ptys (u16_at msg 1)) s refl a

  handle_resize-IsSession :
      (now cid : ℕ) (msg : Bytes) (s : Session D)
      → IsSession s
      → IsSession (handle_resize dr sys now cid msg s).0
  unfolding handle_resize
  handle_resize-IsSession now cid msg s a =
      if_keeps (λ (r : Session D × Bool). IsSession r.0) (length (drop 1 msg) % 6 == 0)
        (λ whole.
          resize_ptys_to_mediated_sizes-IsSession dr now _ _
            (resize_loop-IsSession _ cid (drop 1 msg) s a))
        (λ cut. a)

  handle_unsubscribe-IsSession :
      (now cid : ℕ) (msg : Bytes) (s : Session D)
      → IsSession s
      → IsSession (handle_unsubscribe dr sys now cid msg s).0
  unfolding handle_unsubscribe
  handle_unsubscribe-IsSession now cid msg s a =
      let pid = u16_at msg 1 in
      if_keeps (λ (r : Session D × Bool). IsSession r.0) (has s.ptys pid)
        (λ is. resize_ptys_to_mediated_sizes-IsSession dr now _ _ (
          set_client-IsSession cid _ s
            (λ c f.
              reset_inflight-Fits (has s.ptys) now _
                (unsubscribe_client_from-Fits (has s.ptys) pid c f))
            a))
        (λ unknown. a)

  -- A client that goes leaves the others in order, each of them knowing only PTYs that there are.
  pub handle_disconnect-IsSession :
      (now cid : ℕ) (s : Session D) → IsSession s → IsSession (handle_disconnect dr sys now cid s).0
  unfolding handle_disconnect
  handle_disconnect-IsSession now cid s a =
      resize_ptys_to_mediated_sizes-IsSession dr now _ _ (AllFit-del (has s.ptys) cid s.clients a)

  abbrev Kept : Session D × Bool → Type 0
  Kept r = IsSession r.0

  handle_match-IsSession :
      (now cid : ℕ) (msg : Bytes) (s : Session D)
      → IsSession s
      → IsSession (handle_match dr sys now cid msg s).0
  handle_match-IsSession now cid msg s a =
      if_keeps Kept ((byte_at msg 0 == c2s_scroll) && leb 7 (length msg))
        (λ is. handle_scroll-IsSession now cid msg s a)
        (λ not_scroll.
          if_keeps Kept ((byte_at msg 0 == c2s_resize) && leb 7 (length msg))
            (λ is. handle_resize-IsSession now cid msg s a)
            (λ not_resize.
              if_keeps Kept (byte_at msg 0 == c2s_create)
                (λ is. handle_create-IsSession now cid (decode_create msg) s a)
                (λ not_create.
                  if_keeps Kept (byte_at msg 0 == c2s_create_n)
                    (λ is. handle_create-IsSession now cid (decode_create_n msg) s a)
                    (λ not_create_n.
                      if_keeps Kept (byte_at msg 0 == c2s_create_at)
                        (λ is. handle_create-IsSession now cid (decode_create_at msg) s a)
                        (λ not_create_at.
                          if_keeps Kept (byte_at msg 0 == c2s_create2)
                            (λ is. create2_of-IsSession now cid (decode_create2 msg) s a)
                            (λ not_create2.
                              if_keeps Kept ((byte_at msg 0 == c2s_focus) && leb 3 (length msg))
                                (λ is. handle_focus-IsSession now cid msg s a)
                                (λ not_focus.
                                  if_keeps Kept
                                    ((byte_at msg 0 == c2s_subscribe) && leb 3 (length msg))
                                    (λ is. handle_subscribe-IsSession cid msg s a)
                                    (λ not_subscribe.
                                      if_keeps Kept
                                        ((byte_at msg 0 == c2s_unsubscribe) && leb 3 (length msg))
                                        (λ is. handle_unsubscribe-IsSession now cid msg s a)
                                        (λ not_unsubscribe.
                                          if_keeps Kept
                                            ((byte_at msg 0 == c2s_restart) && leb 3 (length msg))
                                            (λ is. handle_restart-IsSession now cid msg s a)
                                            (λ not_restart.
                                              if_keeps Kept
                                                ((byte_at msg 0 == c2s_read) && leb 13 (length msg))
                                                (λ is. handle_read-IsSession dr cid msg s a)
                                                (λ not_read.
                                                  if_keeps Kept
                                                    ((byte_at msg 0 == c2s_copy_range)
                                                      && leb 18 (length msg))
                                                    (λ is.
                                                      handle_copy_range-IsSession dr cid msg s a)
                                                    (λ not_copy_range.
                                                      if_keeps Kept
                                                        ((byte_at msg 0 == c2s_kill)
                                                          && leb 7 (length msg))
                                                        (λ is. handle_kill-IsSession msg s a)
                                                        (λ not_kill.
                                                          if_keeps Kept
                                                            ((byte_at msg 0 == c2s_close)
                                                            && leb 3 (length msg))
                                                            (λ is. handle_close-IsSession msg s a)
                                                            (λ not_close. a))))))))))))))

  -- Whatever message a client sends, whole or cut, keeps every client of the session in order (its
  -- bytes in flight are those of its frames in flight, its lead is one of its subscriptions, no offset
  -- that is kept is zero, frames are cached only of PTYs that are scrolled back, and its channel is
  -- not overfull) and lets it subscribe to, show and scroll only PTYs that the session has.
  pub handle-IsSession :
      (now : ℕ) (do_log : Bool) (cid : ℕ) (msg : Bytes) (s : Session D)
      → IsSession s
      → IsSession (handle dr sys now do_log cid msg s).0
  unfolding handle
  handle-IsSession now do_log cid msg s a =
      if_keeps Kept (length msg == 0) (λ empty. a)
        (λ filled.
          if_keeps Kept (byte_at msg 0 == c2s_ack) (λ is. handle_ack-IsSession do_log cid s a)
            (λ not_ack.
              if_keeps Kept ((byte_at msg 0 == c2s_display_rate) && leb 3 (length msg))
                (λ is. handle_display_rate-IsSession cid msg s a)
                (λ not_display_rate.
                  if_keeps Kept ((byte_at msg 0 == c2s_client_metrics) && leb 7 (length msg))
                    (λ is. handle_client_metrics-IsSession now cid msg s a)
                    (λ not_client_metrics.
                      if_keeps Kept ((byte_at msg 0 == c2s_mouse) && leb 9 (length msg))
                        (λ is. handle_mouse-IsSession dr msg s a)
                        (λ not_mouse.
                          if_keeps Kept ((byte_at msg 0 == c2s_input) && leb 3 (length msg))
                            (λ is. handle_input-IsSession now cid msg s a)
                            (λ not_input.
                              if_keeps Kept ((byte_at msg 0 == c2s_search) && leb 3 (length msg))
                                (λ is. handle_search-IsSession dr cid msg s a)
                                (λ not_search. handle_match-IsSession now cid msg s a)))))))
