-- ===== src/Server/Reply/Range.antt =====
-- The lines that a read asks for.
use btrm.Base.{ℕ, ◌-◌, ◌≤◌, ◌≡◌, min, Bool, true, false, ◌==◌, if◌then◌else◌, arith}
use btrm.Server.Reply.{read_range}

-- The range that a read sends lies within the lines there are, its start not behind its end, so that
-- the slice is in bounds. From the top it skips the offset, and from the end it leaves the offset
-- out behind it; it has no more lines than the limit, unless the limit is zero, and then it has all
-- on that side.
pub read_range_lem :
    (tail : Bool) (offset limit count : ℕ)
    → let r = read_range tail offset limit count in
      (r.0 ≤ r.1)
      × (r.1 ≤ count)
      × ((if tail then r.1 else r.0) ≡ (if tail then count - offset else min offset count))
      × (r.1 - r.0 ≡ (if limit == 0 then count - offset else min limit (count - offset)))
unfolding read_range
read_range_lem true offset limit count = (ground arith, ground arith, ground arith, ground arith)
read_range_lem false offset limit count = (ground arith, ground arith, ground arith, ground arith)
