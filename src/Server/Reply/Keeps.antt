-- ===== src/Server/Reply/Keeps.antt =====
-- The messages that ask for text keep what every handler keeps.
use btrm.Base.{ℕ, Option, none, some, Bytes, if_keeps}
use btrm.Base.Words.{u16_at}
use btrm.Base.Keyed.{get, has, member}
use btrm.Server.Client.{ClientState, try_send}
use btrm.Server.Session.{Session, Pty, PtyDriver, set_client}
use btrm.Server.Session.Valid.{try_send-Fits}
use btrm.Server.Session.Keeps.{IsSession, set_client-IsSession, set_pty-IsSession}
use btrm.Server.Reply.{
  send_read, read_of, read_pty, handle_read, copy_of, handle_copy_range, handle_search, mouse_of,
  handle_mouse, mouse_written,
}

module _ {D : Type 0} (dr : PtyDriver D) where
  -- A message to one client.
  told :
      (cid : ℕ) (msg : Bytes) (s : Session D)
      → IsSession s
      → IsSession (set_client cid (λ (c : ClientState). (try_send msg c).0) s)
  told cid msg s a = set_client-IsSession cid _ s (λ c f. try_send-Fits (has s.ptys) msg c f) a

  send_read-IsSession :
      (cid pid : ℕ) (r : Pty D × Bytes) (s : Session D)
      → IsSession s
      → IsSession (send_read dr cid pid r s)
  send_read-IsSession cid pid (pty, answer) s a =
      told cid answer _ (set_pty-IsSession pid (λ (p : Pty D). pty) s a)

  read_of-IsSession :
      (cid : ℕ) (msg : Bytes) (o : Option (Pty D)) (s : Session D)
      → IsSession s
      → IsSession (read_of dr cid msg o s)
  read_of-IsSession cid msg none s a = a
  read_of-IsSession cid msg (some pty) s a =
      send_read-IsSession cid (u16_at msg 3) (read_pty dr msg pty) s a

  pub handle_read-IsSession :
      (cid : ℕ) (msg : Bytes) (s : Session D) → IsSession s → IsSession (handle_read dr cid msg s).0
  unfolding handle_read
  handle_read-IsSession cid msg s a = read_of-IsSession cid msg (get s.ptys (u16_at msg 3)) s a

  copy_of-IsSession :
      (cid : ℕ) (msg : Bytes) (o : Option (Pty D)) (s : Session D)
      → IsSession s
      → IsSession (copy_of dr cid msg o s)
  copy_of-IsSession cid msg none s a = a
  copy_of-IsSession cid msg (some pty) s a = told cid _ s a

  pub handle_copy_range-IsSession :
      (cid : ℕ) (msg : Bytes) (s : Session D)
      → IsSession s
      → IsSession (handle_copy_range dr cid msg s).0
  unfolding handle_copy_range
  handle_copy_range-IsSession cid msg s a =
      copy_of-IsSession cid msg (get s.ptys (u16_at msg 3)) s a

  pub handle_search-IsSession :
      (cid : ℕ) (msg : Bytes) (s : Session D)
      → IsSession s
      → IsSession (handle_search dr cid msg s).0
  unfolding handle_search
  handle_search-IsSession cid msg s a = told cid _ s a

  mouse_written-IsSession :
      (pid : ℕ) (o : Option Bytes) (s : Session D)
      → IsSession s
      → IsSession (mouse_written dr pid o s)
  mouse_written-IsSession pid none s a = a
  mouse_written-IsSession pid (some w) s a =
      if_keeps IsSession (member pid s.pty_fds) (λ open_fd. a) (λ no_fd. a)

  mouse_of-IsSession :
      (msg : Bytes) (o : Option (Pty D)) (s : Session D)
      → IsSession s
      → IsSession (mouse_of dr msg o s)
  mouse_of-IsSession msg none s a = a
  mouse_of-IsSession msg (some pty) s a = mouse_written-IsSession (u16_at msg 1) _ s a

  pub handle_mouse-IsSession :
      (msg : Bytes) (s : Session D) → IsSession s → IsSession (handle_mouse dr msg s).0
  unfolding handle_mouse
  handle_mouse-IsSession msg s a = mouse_of-IsSession msg (get s.ptys (u16_at msg 1)) s a
