-- ===== src/Server/Session/Keys.antt =====
-- Resizing keeps who is a client.
use btrm.Base.{ℕ, ◌≡◌, refl, ap, ◌∙◌, List, [], ◌∷◌, Bool, false, Option, none, some, if_keeps}
use btrm.Base.Keyed.{
  Keyed, Ids, get, has, is_some, map_option, member, insert_id, map_values, get-map_values,
}
use btrm.Server.Session.{
  Session, Pty, PtyDriver, resized_client, resize_of, resize_pty, mediate, mediate_all,
  mediated_size_for_pty, resize_ptys_to_mediated_sizes,
}

kept_some : {A : Type 0} (f : A → A) (o : Option A) → is_some (map_option f o) ≡ is_some o
kept_some f none = refl
kept_some f (some v) = refl

-- Mapped values have the same keys.
has-map_values : {A : Type 0} (j : ℕ) (f : A → A) (m : Keyed A) → has (map_values f m) j ≡ has m j
has-map_values j f m = ap is_some (get-map_values j f m) ∙ kept_some f (get m j)

module _ {D : Type 0} (dr : PtyDriver D) where
  -- A resize takes no client in or out.
  resize_of-has :
      (now p rows cols : ℕ) (o : Option (Pty D)) (s : Session D) (j : ℕ)
      → has (resize_of dr now p rows cols o s).0.clients j ≡ has s.clients j
  resize_of-has now p rows cols none s j = refl
  resize_of-has now p rows cols (some pty) s j =
      if_keeps (λ (r : Session D × Bool). has r.0.clients j ≡ has s.clients j) _ (λ same. refl)
        (λ differs. has-map_values j (resized_client now p) s.clients)

  mediate-has :
      (now p : ℕ) (o : Option (ℕ × ℕ)) (s : Session D) (j : ℕ)
      → has (mediate dr now p o s).0.clients j ≡ has s.clients j
  unfolding resize_pty
  mediate-has now p none s j = refl
  mediate-has now p (some (rows, cols)) s j = resize_of-has now p rows cols (get s.ptys p) s j

  mediate_all-has :
      (now : ℕ) (ids : List ℕ) (seen : Ids) (r : Session D × Bool) (j : ℕ)
      → has (mediate_all dr now ids seen r).0.clients j ≡ has r.0.clients j
  unfolding mediate_all
  mediate_all-has now [] seen r j = refl
  mediate_all-has now (p ∷ ids) seen (s, changed) j =
      if_keeps (λ (t : Session D × Bool). has t.0.clients j ≡ has s.clients j) (member p seen)
        (λ old. mediate_all-has now ids seen (s, changed) j)
        (λ fresh.
          mediate_all-has now ids (insert_id p seen) _ j
          ∙ mediate-has now p (mediated_size_for_pty s p) s j)

  pub resize_ptys_to_mediated_sizes-has :
      (now : ℕ) (ids : List ℕ) (s : Session D) (j : ℕ)
      → has (resize_ptys_to_mediated_sizes dr now ids s).0.clients j ≡ has s.clients j
  unfolding resize_ptys_to_mediated_sizes
  resize_ptys_to_mediated_sizes-has now ids s j = mediate_all-has now ids [] (s, false) j
