-- ===== src/Base/Holds.antt =====
-- A message that holds given bytes at an offset, and what the readers of words and slices find there.
-- A message is taken apart piece by piece, from its front.
use Prim.Native.Nat.{ℕ, ◌+◌, ◌≤◌}
use mathlib.Core.Path.{◌≡◌, refl, sym, ap, ◌∙◌}
use mathlib.Core.List.{[], ◌∷◌, ◌++◌, append-nil, append_assoc}
use native.Mathlib.Omega.{arith}
use btrm.Base.Logic.{Bytes}
use btrm.Base.Lists.{length, length-append, drop}
use btrm.Base.Slices.{slice, slice-append, get_or-append_right}
use btrm.Base.Words.{
  byte_at, u16_at, u32_at, u16_to_le, u32_to_le, IsU16, IsU32, u16_at-append, u32_at-append,
}

pub record Holds (msg : Bytes) (off : ℕ) (bs : Bytes) : Type 0 where
  pub before : Bytes
  pub behind : Bytes
  pub splits : msg ≡ before ++ (bs ++ behind)
  pub at_offset : length before ≡ off

pub Holds-all : (msg : Bytes) → Holds msg 0 msg
Holds-all msg = record { before = []; behind = []; splits = sym (append-nil msg); at_offset = refl }

-- The pieces of what is held.
pub Holds-left : {msg : Bytes} {off : ℕ} (a b : Bytes) → Holds msg off (a ++ b) → Holds msg off a
Holds-left a b h = record {
  before = h.before;
  behind = b ++ h.behind;
  splits = h.splits ∙ ap (λ (t : Bytes). h.before ++ t) (append_assoc a b h.behind);
  at_offset = h.at_offset;
}

pub Holds-right :
    {msg : Bytes} {off : ℕ} (a b : Bytes) → Holds msg off (a ++ b) → Holds msg (off + length a) b
Holds-right a b h = record {
  before = h.before ++ a;
  behind = h.behind;
  splits = h.splits ∙ simp append_assoc;
  at_offset = rw length-append (omega (arith, h.at_offset));
}

pub Holds-tail :
    {msg : Bytes} {off : ℕ} (x : ℕ) (bs : Bytes) → Holds msg off (x ∷ bs) → Holds msg (off + 1) bs
Holds-tail x bs h = Holds-right (x ∷ []) bs h

-- The same bytes, seen from another offset.
pub Holds-at :
    {msg : Bytes} {off : ℕ} {bs : Bytes} (off' : ℕ)
    → off ≡ off'
    → Holds msg off bs
    → Holds msg off' bs
Holds-at off' e h = record {
  before = h.before;
  behind = h.behind;
  splits = h.splits;
  at_offset = h.at_offset ∙ e;
}

-- A message without its front.
pub Holds-drop :
    {msg : Bytes} (front rest : Bytes) (k : ℕ) {off : ℕ} {bs : Bytes}
    → msg ≡ front ++ rest
    → k ≡ length front
    → Holds rest off bs
    → Holds (drop k msg) off bs
Holds-drop front rest k e l h = record {
  before = h.before;
  behind = h.behind;
  splits = ap (drop k) e ∙ rw l (drop_front front rest) ∙ h.splits;
  at_offset = h.at_offset;
}
  where
    drop_front : (front rest : Bytes) → drop (length front) (front ++ rest) ≡ rest
    drop_front [] rest = refl
    drop_front (x ∷ front) rest = drop_front front rest

module _ {msg : Bytes} {off : ℕ} where
  pub Holds-le : (bs : Bytes) → Holds msg off bs → off + length bs ≤ length msg
  Holds-le bs h = rw h.splits (
      omega (
        arith,
        h.at_offset,
        length-append {0} h.before (bs ++ h.behind),
        length-append {0} bs h.behind,
      ))

  pub slice-Holds : (bs : Bytes) → Holds msg off bs → slice msg off (length bs) ≡ bs
  slice-Holds bs h = rw (h.splits, ← h.at_offset) (slice-append h.before bs h.behind)

  pub byte_at-Holds : (x : ℕ) (bs : Bytes) → Holds msg off (x ∷ bs) → byte_at msg off ≡ x
  byte_at-Holds x bs h =
      rw h.splits (get_or-append_right h.before _ off 0 0 (omega (arith, h.at_offset)))

  pub u16_at-Holds : (n : ℕ) → IsU16 n → Holds msg off (u16_to_le n) → u16_at msg off ≡ n
  u16_at-Holds n b h = rw (h.splits, ← h.at_offset) (u16_at-append h.before n h.behind b)

  pub u32_at-Holds : (n : ℕ) → IsU32 n → Holds msg off (u32_to_le n) → u32_at msg off ≡ n
  u32_at-Holds n b h = rw (h.splits, ← h.at_offset) (u32_at-append h.before n h.behind b)
