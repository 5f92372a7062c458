-- ===== src/Terminal/Payload/Runs.antt =====
-- Runs of operations: what `ops_loop` makes of a frame, whatever flag it starts with.
use btrm.Base.{ℕ, suc, ◌+◌, ◌≡◌, ap, ◌∙◌, Bool, false, ◌||◌, Bytes, none, some, arith}
use native.Mathlib.Nat.{zero-add, add_assoc}
use btrm.Frame.{FrameState}
use btrm.Terminal.Ops.Keeps.{Keeps, Keeps-refl, Keeps-trans}
use btrm.Terminal.Payload.{Applied, apply_op, ops_loop}

-- `n` operations from `off` to `off'` turn `f` into `g`, and leave all but its cells and strings.
pub record Runs (n : ℕ) (payload : Bytes) (off : ℕ) (f g : FrameState) (off' : ℕ) : Type 0 where
  pub keeps : Keeps f g
  pub runs :
      (more : ℕ) (changed : Bool)
      → (c : Bool) × (ops_loop (n + more) payload changed off f ≡ ops_loop more payload c off' g)

module _ (payload : Bytes) where
  pub Runs-none : (off : ℕ) (f : FrameState) → Runs 0 payload off f f off
  Runs-none off f = record { keeps = Keeps-refl f; runs = λ more changed. (changed, rw zero-add) }

  -- One round of the loop, by what its operation gives.
  after : ℕ → Bool → Applied → Applied
  after more changed r = elim r.1 [
    | none ↦ (r.0, none)
    | some (here, next) ↦ ops_loop more payload (changed || here) next r.0
  ]

  ops_loop_step :
      (more off : ℕ) (changed : Bool) (f : FrameState) (r : Applied)
      → apply_op f payload off ≡ r
      → ops_loop (suc more) payload changed off f ≡ after more changed r
  unfolding ops_loop after
  ops_loop_step more off changed f r e = ap (after more changed) e

  pub Runs-one :
      (off off' : ℕ) (f g : FrameState) (here : Bool)
      → apply_op f payload off ≡ (g, some (here, off'))
      → Keeps f g
      → Runs 1 payload off f g off'
  Runs-one off off' f g here e k = record {
    keeps = k;
    runs = λ more changed.
        (changed || here, rw (one-add more) (unfold after in ops_loop_step more off changed f _ e));
  }
    where
      one-add : (n : ℕ) → 1 + n ≡ suc n
      one-add n = omega arith

  pub Runs-then :
      (m n off1 off2 off3 : ℕ) (f g h : FrameState)
      → Runs m payload off1 f g off2
      → Runs n payload off2 g h off3
      → Runs (m + n) payload off1 f h off3
  Runs-then m n off1 off2 off3 f g h p q = record {
    keeps = Keeps-trans f g h p.keeps q.keeps;
    runs = λ more changed.
        let (c, e) = p.runs (n + more) changed in
        let (d, e') = q.runs more c in (d, rw add_assoc (e ∙ e'));
  }

  pub Runs-zero : (off off' : ℕ) (f g : FrameState) → Runs 0 payload off f g off' → f ≡ g
  unfolding ops_loop
  Runs-zero off off' f g r = let (c, e) = r.runs 0 false in ap (λ (a : Applied). a.0) e
