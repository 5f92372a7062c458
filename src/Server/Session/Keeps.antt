-- ===== src/Server/Session/Keeps.antt =====
-- What the operations on a session keep: every client fits the PTYs there are.
use btrm.Base.{
  ℕ, ◌≡◌, refl, sym, ap, ◌∙◌, List, [], ◌∷◌, Bool, true, false, Option, none, some, Bytes, ◌==◌,
  if◌then◌else◌, arith, if_keeps, Bool-cases, inl, inr,
}
use mathlib.Core.Option.{some-injective}
use btrm.Base.Keyed.{
  Keyed, Ids, get, put, del, has, is_some, member, modify, map_values, map_option, insert_id,
  get-put, get-del, get-modify, get-map_values,
}
use btrm.Wire.Client.{msg_exited}
use btrm.Server.Client.{ClientState}
use btrm.Server.Session.{
  Session, Pty, PtyDriver, set_client, set_pty, send_to_all, resized_client, forget_sent, resize_of,
  resize_pty, mediate, mediate_all, mediated_size_for_pty, resize_ptys_to_mediated_sizes,
  resized_pty, is_size, cleanup_of, cleanup_pty_internal,
}
use btrm.Server.Session.Valid.{Fits, AllFit, same_fields, try_send-Fits, reset_inflight-Fits}

pub mapped_before :
    {A : Type 0} (f : A → A) (o : Option A) (d : A)
    → map_option f o ≡ some d
    → (c : A) × (o ≡ some c) × (f c ≡ d)
mapped_before f none d e = cc
mapped_before f (some c) d e = (c, refl, some-injective (f c) d e)

module _ (known known' : ℕ → Bool) (more : (q : ℕ) → known q ≡ true → known' q ≡ true) where
  pub Fits-more : (c : ClientState) → Fits known c → Fits known' c
  Fits-more c f = record {
    is_client = f.is_client;
    knows = record {
      subscribed = λ q h. more q (f.knows.subscribed q h);
      viewed = λ q h. more q (f.knows.viewed q h);
      scrolled = λ q h. more q (f.knows.scrolled q h);
    };
  }

  pub AllFit-more : (clients : Keyed ClientState) → AllFit known clients → AllFit known' clients
  AllFit-more clients a = λ cid c e. Fits-more c (a cid c e)

module _ (known known' : ℕ → Bool) where
  pub AllFit-map :
      (f : ClientState → ClientState) (clients : Keyed ClientState)
      → ((c : ClientState) → Fits known c → Fits known' (f c))
      → AllFit known clients
      → AllFit known' (map_values f clients)
  AllFit-map f clients keeps a = λ cid d e.
      let (c, found, made) =
        mapped_before f (get clients cid) d (sym (get-map_values cid f clients) ∙ e) in
      rw made at (keeps c (a cid c found))

module _ (known : ℕ → Bool) where
  pub AllFit-modify :
      (client_id : ℕ) (f : ClientState → ClientState) (clients : Keyed ClientState)
      → ((c : ClientState) → Fits known c → Fits known (f c))
      → AllFit known clients
      → AllFit known (modify client_id f clients)
  AllFit-modify client_id f clients keeps a = λ cid d e. elim (Bool-cases (client_id == cid)) [
    | inl same ↦
        let (c, found, made) =
          mapped_before f (get clients cid) d
            (sym (get-modify client_id cid f clients ∙ rw same refl) ∙ e) in
        rw made at (keeps c (a cid c found))
    | inr other ↦ a cid d (sym (get-modify client_id cid f clients ∙ rw other refl) ∙ e)
  ]

  pub AllFit-put :
      (client_id : ℕ) (c : ClientState) (clients : Keyed ClientState)
      → Fits known c
      → AllFit known clients
      → AllFit known (put client_id c clients)
  AllFit-put client_id c clients f a = λ cid d e. elim (Bool-cases (client_id == cid)) [
    | inl same ↦
        let made = some-injective c d (sym (get-put client_id cid c clients ∙ rw same refl) ∙ e) in
        rw made at f
    | inr other ↦ a cid d (sym (get-put client_id cid c clients ∙ rw other refl) ∙ e)
  ]

  pub AllFit-del :
      (client_id : ℕ) (clients : Keyed ClientState)
      → AllFit known clients
      → AllFit known (del client_id clients)
  AllFit-del client_id clients a = λ cid d e. elim (Bool-cases (client_id == cid)) [
    | inl same ↦
        let gone : ◌≡◌ {A = Option ClientState} none (some d) =
          sym (get-del client_id cid clients ∙ rw same refl) ∙ e in
        cc
    | inr other ↦ a cid d (sym (get-del client_id cid clients ∙ rw other refl) ∙ e)
  ]

module _ {D : Type 0} where
  -- Every client of the session is in order and knows only PTYs that the session has.
  abbrev pub IsSession : Session D → Type 0
  IsSession s = AllFit (has s.ptys) s.clients

  has-modify :
      (p q : ℕ) (f : Pty D → Pty D) (ptys : Keyed (Pty D)) → has (modify p f ptys) q ≡ has ptys q
  has-modify p q f ptys = ap is_some (get-modify p q f ptys) ∙ same (get ptys q)
    where
      same : (o : Option (Pty D)) → is_some (if p == q then map_option f o else o) ≡ is_some o
      same none = ground arith
      same (some pty) = ground arith

  pub set_client-IsSession :
      (client_id : ℕ) (f : ClientState → ClientState) (s : Session D)
      → ((c : ClientState) → Fits (has s.ptys) c → Fits (has s.ptys) (f c))
      → IsSession s
      → IsSession (set_client client_id f s)
  unfolding set_client
  set_client-IsSession client_id f s keeps a =
      AllFit-modify (has s.ptys) client_id f s.clients keeps a

  pub set_pty-IsSession :
      (p : ℕ) (f : Pty D → Pty D) (s : Session D) → IsSession s → IsSession (set_pty p f s)
  unfolding set_pty
  set_pty-IsSession p f s a =
      AllFit-more (has s.ptys) (has (modify p f s.ptys)) (λ q h. has-modify p q f s.ptys ∙ h)
        s.clients a

  pub has-set_pty :
      (p q : ℕ) (f : Pty D → Pty D) (s : Session D) → has (set_pty p f s).ptys q ≡ has s.ptys q
  unfolding set_pty
  has-set_pty p q f s = has-modify p q f s.ptys

  pub send_to_all-IsSession :
      (msg : Bytes) (s : Session D) → IsSession s → IsSession (send_to_all msg s)
  unfolding send_to_all
  send_to_all-IsSession msg s a =
      AllFit-map (has s.ptys) (has s.ptys) _ s.clients (λ c f. try_send-Fits (has s.ptys) msg c f) a

module _ (known : ℕ → Bool) where
  forget_sent-Fits : (p : ℕ) (c : ClientState) → Fits known c → Fits known (forget_sent p c)
  forget_sent-Fits p c f =
      if_keeps (Fits known) (member p c.subscriptions)
        (λ subscribed. record {
          is_client = record {
            inflight = f.is_client.inflight;
            lead_subscribed = f.is_client.lead_subscribed;
            scrolled = f.is_client.scrolled;
            cached = f.is_client.cached;
            room = f.is_client.room;
          };
          knows = same_fields known c _ refl refl refl f.knows;
        })
        (λ other. f)

  uncached :
      (p : ℕ) (c : ClientState)
      → Fits known c
      → Fits known (record c { scroll_caches = del p c.scroll_caches })
  uncached p c f = record {
    is_client = record {
      inflight = f.is_client.inflight;
      lead_subscribed = f.is_client.lead_subscribed;
      scrolled = f.is_client.scrolled;
      cached = λ q h. ground (arith, get-del p q c.scroll_caches, h, f.is_client.cached q);
      room = f.is_client.room;
    };
    knows = same_fields known c _ refl refl refl f.knows;
  }

  resized_client-Fits :
      (now p : ℕ) (c : ClientState) → Fits known c → Fits known (resized_client now p c)
  unfolding resized_client
  resized_client-Fits now p c f =
      let g = forget_sent-Fits p c f in
      if_keeps (Fits known) (has (forget_sent p c).scroll_caches p)
        (λ cached. reset_inflight-Fits known now _ (uncached p (forget_sent p c) g)) (λ other. g)

module _ {D : Type 0} where
  cleanup_of-IsSession :
      (p status : ℕ) (o : Option (Pty D)) (s : Session D)
      → IsSession s
      → IsSession (cleanup_of p status o s)
  cleanup_of-IsSession p status none s a = a
  cleanup_of-IsSession p status (some pty) s a =
      if_keeps IsSession pty.exited (λ exited. a)
        (λ running.
          send_to_all-IsSession (msg_exited p status) _
            (AllFit-more (has s.ptys) _ (λ q h. has-modify p q _ s.ptys ∙ h) s.clients a))

  pub cleanup_pty_internal-IsSession :
      (p status : ℕ) (s : Session D) → IsSession s → IsSession (cleanup_pty_internal p status s)
  unfolding cleanup_pty_internal
  cleanup_pty_internal-IsSession p status s a = cleanup_of-IsSession p status (get s.ptys p) _ a

  module _ (dr : PtyDriver D) where
    resize_of-IsSession :
        (now p rows cols : ℕ) (o : Option (Pty D)) (s : Session D)
        → IsSession s
        → IsSession (resize_of dr now p rows cols o s).0
    resize_of-IsSession now p rows cols none s a = a
    resize_of-IsSession now p rows cols (some pty) s a =
        if_keeps (λ (r : Session D × Bool). IsSession r.0) (is_size (dr.size pty.driver) rows cols)
          (λ same. a)
          (λ differs.
            AllFit-map (has s.ptys) (has (modify p (resized_pty dr rows cols) s.ptys))
              (resized_client now p) s.clients
              (λ c f.
                Fits-more (has s.ptys) (has (modify p (resized_pty dr rows cols) s.ptys))
                  (λ q h. has-modify p q (resized_pty dr rows cols) s.ptys ∙ h) _
                  (resized_client-Fits (has s.ptys) now p c f))
              a)

    mediate-IsSession :
        (now p : ℕ) (o : Option (ℕ × ℕ)) (s : Session D)
        → IsSession s
        → IsSession (mediate dr now p o s).0
    unfolding resize_pty
    mediate-IsSession now p none s a = a
    mediate-IsSession now p (some (rows, cols)) s a =
        resize_of-IsSession now p rows cols (get s.ptys p) s a

    mediate_all-IsSession :
        (now : ℕ) (ids : List ℕ) (seen : Ids) (r : Session D × Bool)
        → IsSession r.0
        → IsSession (mediate_all dr now ids seen r).0
    unfolding mediate_all
    mediate_all-IsSession now [] seen r a = a
    mediate_all-IsSession now (p ∷ ids) seen (s, changed) a =
        if_keeps (λ (t : Session D × Bool). IsSession t.0) (member p seen)
          (λ old. mediate_all-IsSession now ids seen (s, changed) a)
          (λ fresh.
            mediate_all-IsSession now ids (insert_id p seen) _
              (mediate-IsSession now p (mediated_size_for_pty s p) s a))

    pub resize_ptys_to_mediated_sizes-IsSession :
        (now : ℕ) (ids : List ℕ) (s : Session D)
        → IsSession s
        → IsSession (resize_ptys_to_mediated_sizes dr now ids s).0
    unfolding resize_ptys_to_mediated_sizes
    resize_ptys_to_mediated_sizes-IsSession now ids s a =
        mediate_all-IsSession now ids [] (s, false) a
