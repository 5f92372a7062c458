-- ===== src/Server/Session/Resize.antt =====
-- Resizing to the sizes that the clients agree on.
use btrm.Base.{
  ℕ, ◌≡◌, refl, sym, ap, ◌∙◌, List, [], ◌∷◌, Bool, true, false, ◌||◌, Option, none, some, arith,
  inl, inr, ap₂, ◌==◌, if_keeps, Bool-cases,
}
use mathlib.Core.Option.{some-injective}
use btrm.Base.Keyed.{
  Keyed, Ids, get, has, member, map_values, insert_id, get-modify, member-insert_id,
}
use btrm.Server.Client.{ClientState, reset_inflight}
use btrm.Server.Session.{
  at_least_one, Session, Pty, PtyDriver, least, add_view, resized_client, forget_sent, forget_cache,
  resize_of, resize_pty, mediate, mediate_all, mediated_size_for_pty, resize_ptys_to_mediated_sizes,
  resized_pty, is_size,
}

forget_sent_views : (p : ℕ) (c : ClientState) → (forget_sent p c).view_sizes ≡ c.view_sizes
forget_sent_views p c =
    if_keeps (λ (d : ClientState). d.view_sizes ≡ c.view_sizes) (member p c.subscriptions)
      (λ subscribed. refl) (λ other. refl)

forget_cache_views :
    (now p : ℕ) (c : ClientState) → (forget_cache now p c).view_sizes ≡ c.view_sizes
unfolding reset_inflight
forget_cache_views now p c =
    if_keeps (λ (d : ClientState). d.view_sizes ≡ c.view_sizes) (has c.scroll_caches p)
      (λ cached. refl) (λ uncached. refl)

resized_client_views :
    (now p : ℕ) (c : ClientState) → (resized_client now p c).view_sizes ≡ c.view_sizes
unfolding resized_client
resized_client_views now p c = forget_cache_views now p (forget_sent p c) ∙ forget_sent_views p c

-- Clients that keep their views agree on the same sizes.
least_kept :
    (f : ClientState → ClientState)
    → ((c : ClientState) → (f c).view_sizes ≡ c.view_sizes)
    → (q : ℕ) (clients : Keyed ClientState) (sizes : Option ℕ × Option ℕ)
    → least q (map_values f clients) sizes ≡ least q clients sizes
unfolding least map_values
least_kept f keeps q [] sizes = refl
least_kept f keeps q ((id, c) ∷ clients) sizes =
    rw (keeps c) (least_kept f keeps q clients (add_view (get c.view_sizes q) sizes))

same_member : (p q : ℕ) (seen : Ids) → member p seen ≡ true → p == q ≡ true → member q seen ≡ true
same_member p q seen old same = let is : p ≡ q = ground (arith, same) in rw is at old

module _ {D : Type 0} (dr : PtyDriver D)
    (size-resize : (rows cols : ℕ) (d : D) → dr.size (dr.resize rows cols d) ≡ (rows, cols)) where
  -- A PTY that the clients agree on a size of has that size.
  pub Settled : Session D → ℕ → Type 0
  Settled s q =
      (pty : Pty D) (rows cols : ℕ)
      → get s.ptys q ≡ some pty
      → mediated_size_for_pty s q ≡ some (rows, cols)
      → dr.size pty.driver ≡ (rows, cols)

  -- After one PTY is resized, the clients agree on the same sizes, the others are as they were, and
  -- it has the size it was given.
  record Resized (p rows cols : ℕ) (s t : Session D) : Type 0 where
    agreed : (q : ℕ) → mediated_size_for_pty t q ≡ mediated_size_for_pty s q
    others : (q : ℕ) → p == q ≡ false → get t.ptys q ≡ get s.ptys q
    given : (pty : Pty D) → get t.ptys p ≡ some pty → dr.size pty.driver ≡ (rows, cols)

  is_size_lem : (sz : ℕ × ℕ) (rows cols : ℕ) → is_size sz rows cols ≡ true → sz ≡ (rows, cols)
  is_size_lem (r, c) rows cols h = ap₂ (λ (a b : ℕ). (a, b)) (ground (arith, h)) (ground (arith, h))

  resize_of-Resized :
      (now p rows cols : ℕ) (o : Option (Pty D)) (s : Session D)
      → get s.ptys p ≡ o
      → Resized p rows cols s (resize_of dr now p rows cols o s).0
  unfolding mediated_size_for_pty
  resize_of-Resized now p rows cols none s e = record {
    agreed = λ q. refl;
    others = λ q differs. refl;
    given = λ pty f. cc;
  }
  resize_of-Resized now p rows cols (some pty) s e =
      if_keeps (λ (r : Session D × Bool). Resized p rows cols s r.0)
        (is_size (dr.size pty.driver) rows cols)
        (λ same. record {
          agreed = λ q. refl;
          others = λ q differs. refl;
          given = λ pty' f.
              rw (← some-injective pty pty' (sym e ∙ f))
                (is_size_lem (dr.size pty.driver) rows cols same);
        })
        (λ differs. record {
          agreed = λ q. ap at_least_one (
              least_kept (resized_client now p) (resized_client_views now p) q s.clients
                (none, none));
          others = λ q other. get-modify p q (resized_pty dr rows cols) s.ptys ∙ rw other refl;
          given = λ pty' f.
              let made =
                some-injective (resized_pty dr rows cols pty) pty' (
                  sym (get-modify p p (resized_pty dr rows cols) s.ptys ∙ ground (arith, e)) ∙ f) in
              rw (← made) (size-resize rows cols pty.driver);
        })

  Resized-Settled :
      (p rows cols q : ℕ) (s t : Session D)
      → mediated_size_for_pty s p ≡ some (rows, cols)
      → Resized p rows cols s t
      → (p == q ≡ false → Settled s q)
      → Settled t q
  unfolding Settled
  Resized-Settled p rows cols q s t e r settled = λ pty rows' cols' f g.
      elim (Bool-cases (p == q)) [
        | inl same ↦
            let is : p ≡ q = ground (arith, same) in
            let agreed = sym e ∙ sym (r.agreed p) ∙ rw (← is) at g in
            r.given pty (rw (← is) at f) ∙ some-injective (rows, cols) (rows', cols') agreed
        | inr other ↦
            settled other pty rows' cols' (sym (r.others q other) ∙ f) (sym (r.agreed q) ∙ g)
      ]

  mediate-Settled :
      (now p q : ℕ) (o : Option (ℕ × ℕ)) (s : Session D)
      → mediated_size_for_pty s p ≡ o
      → (p == q ≡ false → Settled s q)
      → Settled (mediate dr now p o s).0 q
  unfolding Settled resize_pty
  mediate-Settled now p q none s e settled = λ pty rows cols f g. elim (Bool-cases (p == q)) [
    | inl same ↦ let is : p ≡ q = ground (arith, same) in let agreed = sym e ∙ rw (← is) at g in cc
    | inr other ↦ settled other pty rows cols f g
  ]
  mediate-Settled now p q (some (rows, cols)) s e settled =
      Resized-Settled p rows cols q s _ e (resize_of-Resized now p rows cols (get s.ptys p) s refl)
        settled

  mediate_all-Settled :
      (now : ℕ) (ids : List ℕ) (seen : Ids) (r : Session D × Bool)
      → ((q : ℕ) → member q seen ≡ true → Settled r.0 q)
      → (q : ℕ) → member q seen || member q ids ≡ true
      → Settled (mediate_all dr now ids seen r).0 q
  unfolding mediate_all member
  mediate_all-Settled now [] seen r settled q h = settled q (ground (arith, h))
  mediate_all-Settled now (p ∷ ids) seen (s, changed) settled q h =
      if_keeps (λ (t : Session D × Bool). Settled t.0 q) (member p seen)
        (λ old.
          mediate_all-Settled now ids seen (s, changed) settled q
            (ground (arith, h, same_member p q seen old)))
        (λ fresh.
          mediate_all-Settled now ids (insert_id p seen) _
            (λ q' m.
              mediate-Settled now p q' (mediated_size_for_pty s p) s refl
                (λ differs. settled q' (ground (arith, member-insert_id p q' seen, differs, m))))
            q (ground (arith, h, member-insert_id p q seen)))

  -- After the PTYs of a list are resized to the sizes that the clients agree on, each of them that
  -- there is and that a client shows has that size, with repeated ones in the list or without. A
  -- terminal has the size that it was last given.
  pub resize_ptys_to_mediated_sizes-Settled :
      (now : ℕ) (ids : List ℕ) (s : Session D) (q : ℕ)
      → member q ids ≡ true
      → Settled (resize_ptys_to_mediated_sizes dr now ids s).0 q
  unfolding resize_ptys_to_mediated_sizes member
  resize_ptys_to_mediated_sizes-Settled now ids s q h =
      mediate_all-Settled now ids [] (s, false) (λ q' m. cc) q h
