-- ===== src/Server/Handler/Lead.antt =====
-- A client that takes the lead of a PTY, by a focus, a restart or a creation.
use btrm.Base.{
  ℕ, ◌≡◌, refl, [], ◌∷◌, Bool, true, false, Option, none, some, Bytes, ◌==◌, if◌then◌else◌, arith,
  if_keeps, Bool-cases, inl, inr,
}
use mathlib.Core.Option.{some-injective}
use btrm.Base.Keyed.{Keyed, get, put, has, member, get-put, member-insert_id}
use btrm.Wire.Server.{created_n_msg}
use btrm.Server.Client.{ClientState, try_send, subscribe_client_to, is_id}
use btrm.Server.Session.Valid.{
  Fits, AllFit, try_send-Fits, reset_inflight-Fits, update_client_scroll_state-Fits,
}
use btrm.Server.Handler.{focus_client, restart_client, answer_nonce, created_client, send_to_others}

module _ (known : ℕ → Bool) where
  known_same : (p q : ℕ) → known p ≡ true → p == q ≡ true → known q ≡ true
  known_same p q is same = let e : p ≡ q = ground (arith, same) in rw e at is

  -- The lead and the views change, and then the PTY is subscribed to.
  led-Fits :
      (p : ℕ) (views : Keyed (ℕ × ℕ)) (c : ClientState)
      → known p ≡ true
      → ((q : ℕ) → has views q ≡ true → known q ≡ true)
      → Fits known c
      → Fits known (subscribe_client_to p (record c { lead = some p; view_sizes = views }))
  unfolding subscribe_client_to
  led-Fits p views c is viewed f =
      if_keeps (Fits known) (member p c.subscriptions)
        (λ old. record {
          is_client = record {
            inflight = f.is_client.inflight;
            lead_subscribed = λ q e. rw (some-injective p q e) at old;
            scrolled = f.is_client.scrolled;
            cached = f.is_client.cached;
            room = f.is_client.room;
          };
          knows = record {
            subscribed = f.knows.subscribed;
            viewed = viewed;
            scrolled = f.knows.scrolled;
          };
        })
        (λ fresh. record {
          is_client = record {
            inflight = f.is_client.inflight;
            lead_subscribed =
                λ q e. ground (arith, member-insert_id p q c.subscriptions, some-injective p q e);
            scrolled = f.is_client.scrolled;
            cached = f.is_client.cached;
            room = f.is_client.room;
          };
          knows = record {
            subscribed = λ q h. ground (
              arith,
              member-insert_id p q c.subscriptions,
              h,
              f.knows.subscribed q,
              known_same p q is,
            );
            viewed = viewed;
            scrolled = f.knows.scrolled;
          };
        })

  pub focus_client-Fits :
      (now p : ℕ) (c : ClientState)
      → known p ≡ true
      → Fits known c
      → Fits known (focus_client now p c)
  unfolding focus_client
  focus_client-Fits now p c is f =
      let led = led-Fits p c.view_sizes c is f.knows.viewed f in
      if_keeps (Fits known) (is_id p c.lead)
        (λ again. update_client_scroll_state-Fits known now p 0 _ (λ h. is) led)
        (λ other. reset_inflight-Fits known now _ led)

  pub restart_client-Fits :
      (now p : ℕ) (c : ClientState)
      → known p ≡ true
      → Fits known c
      → Fits known (restart_client now p c)
  unfolding restart_client
  restart_client-Fits now p c is f = reset_inflight-Fits known now _ (
      update_client_scroll_state-Fits known now p 0 _ (λ h. is)
        (led-Fits p c.view_sizes c is f.knows.viewed f))

  answer_nonce-Fits :
      (nonce : Option ℕ) (id : ℕ) (tag : Bytes) (c : ClientState)
      → Fits known c
      → Fits known (answer_nonce nonce id tag c)
  answer_nonce-Fits none id tag c f = f
  answer_nonce-Fits (some nonce) id tag c f = try_send-Fits known (created_n_msg nonce id tag) c f

  pub created_client-Fits :
      (now : ℕ) (nonce : Option ℕ) (id rows cols : ℕ) (tag : Bytes) (c : ClientState)
      → known id ≡ true
      → Fits known c
      → Fits known (created_client now nonce id rows cols tag c)
  unfolding created_client
  created_client-Fits now nonce id rows cols tag c is f = answer_nonce-Fits nonce id tag _ (
      reset_inflight-Fits known now _ (
        led-Fits id (put id (rows, cols) c.view_sizes) c is
          (λ q h. ground (
            arith,
            get-put id q (rows, cols) c.view_sizes,
            h,
            f.knows.viewed q,
            known_same id q is,
          ))
          f))

  -- `send_to_others`, client by client.
  other-Fits :
      (b : Bool) (msg : Bytes) (c : ClientState)
      → Fits known c
      → Fits known (if b then c else (try_send msg c).0)
  other-Fits true msg c f = f
  other-Fits false msg c f = try_send-Fits known msg c f

  -- A client that is found afterwards was there before, with the message sent or not.
  found_before :
      (client_id : ℕ) (msg : Bytes) (clients : Keyed ClientState) (cid : ℕ) (d : ClientState)
      → get (send_to_others client_id msg clients) cid ≡ some d
      → (c : ClientState) × (b : Bool) × (get clients cid ≡ some c)
        × ((if b then c else (try_send msg c).0) ≡ d)
  unfolding send_to_others get
  found_before client_id msg [] cid d e = cc
  found_before client_id msg ((id, c) ∷ clients) cid d e = elim (Bool-cases (id == cid)) [
    | inl same ↦ (
      c,
      id == client_id,
      rw same refl,
      some-injective (if id == client_id then c else (try_send msg c).0) d (rw same at e),
    )
    | inr other ↦
        let (c', b, found, made) = found_before client_id msg clients cid d (rw other at e) in
        (c', b, rw other found, made)
  ]

  pub send_to_others-AllFit :
      (client_id : ℕ) (msg : Bytes) (clients : Keyed ClientState)
      → AllFit known clients
      → AllFit known (send_to_others client_id msg clients)
  send_to_others-AllFit client_id msg clients a = λ cid d e.
      let (c, b, found, made) = found_before client_id msg clients cid d e in
      rw made at (other-Fits b msg c (a cid c found))
