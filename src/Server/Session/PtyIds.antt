-- ===== src/Server/Session/PtyIds.antt =====
-- The id that a new PTY gets.
use btrm.Base.{
  ℕ, zero, suc, ◌+◌, ◌≤◌, ◌<◌, ◌≡◌, true, false, Option, none, some, arith, if_keeps, Bool-cases,
  inl, inr, ◌==◌,
}
use btrm.Base.Keyed.{Keyed, has}
use btrm.Server.Session.{Session, find_id, allocate_pty_id}

-- What the search of the ids from `lo` below `hi` promises: an id that is free while all smaller ones
-- are taken, or that all are taken.
pub IsFirstFree : {A : Type 0} → Keyed A → ℕ → ℕ → Option ℕ → Type 0
IsFirstFree ptys lo hi none = (j : ℕ) → lo ≤ j → j < hi → has ptys j ≡ true
IsFirstFree ptys lo hi (some id) =
    (lo ≤ id) × (id < hi) × (has ptys id ≡ false) × ((j : ℕ) → lo ≤ j → j < id → has ptys j ≡ true)

first_or_later :
    {A : Type 0} (ptys : Keyed A) (lo j : ℕ)
    → lo ≤ j
    → has ptys lo ≡ true
    → (lo + 1 ≤ j → has ptys j ≡ true)
    → has ptys j ≡ true
first_or_later ptys lo j a taken later = elim (Bool-cases (lo == j)) [
  | inl same ↦ let e : lo ≡ j = ground (arith, same) in rw e at taken
  | inr differs ↦ later (ground (arith, differs, a))
]

-- One more taken id in front.
taken_first :
    {A : Type 0} (ptys : Keyed A) (lo hi : ℕ) (o : Option ℕ)
    → has ptys lo ≡ true
    → IsFirstFree ptys (lo + 1) hi o
    → IsFirstFree ptys lo hi o
unfolding IsFirstFree
taken_first ptys lo hi none taken h =
    λ j a b. first_or_later ptys lo j a taken (λ later. h j later b)
taken_first ptys lo hi (some id) taken (a, b, free, h) =
    (omega arith, b, free, λ j c d. first_or_later ptys lo j c taken (λ later. h j later d))

find_id-IsFirstFree :
    {A : Type 0} (left lo hi : ℕ) (ptys : Keyed A)
    → hi ≡ lo + left
    → IsFirstFree ptys lo hi (find_id left lo ptys)
unfolding find_id IsFirstFree
find_id-IsFirstFree zero lo hi ptys e = λ j a b. absurd (omega arith)
find_id-IsFirstFree (suc left) lo hi ptys e =
    if_keeps (IsFirstFree ptys lo hi) (has ptys lo)
      (λ taken.
        taken_first ptys lo hi (find_id left (lo + 1) ptys) taken
          (find_id-IsFirstFree left (lo + 1) hi ptys (omega arith)))
      (λ free. (omega arith, omega arith, free, λ j a b. absurd (omega arith)))

-- A new PTY gets the least id from 1 to 65535 that no PTY has; it gets none only where all are taken.
pub allocate_pty_id-IsFirstFree :
    {D : Type 0} (s : Session D) → IsFirstFree s.ptys 1 65536 (allocate_pty_id s)
unfolding allocate_pty_id
allocate_pty_id-IsFirstFree s = find_id-IsFirstFree 65535 1 65536 s.ptys (omega arith)
