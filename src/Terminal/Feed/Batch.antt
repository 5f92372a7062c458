-- ===== src/Terminal/Feed/Batch.antt =====
-- A batch of framed updates, fed at once, is the updates fed one by one.
use btrm.Base.{
  ℕ, zero, suc, ◌+◌, ◌%◌, ◌<◌, ◌≤◌, ◌≡◌, refl, List, [], ◌∷◌, ◌++◌, Bool, false, true, ◌||◌, Bytes,
  leb, ltb, length, length-append, append_assoc, append-nil, arith, Bool-cases, inl, inr, ltb→lt,
  ◌-◌, ◌∙◌, if◌then◌else◌, Option, some, none,
}
use btrm.Base.Holds.{
  Holds, Holds-at, Holds-all, Holds-left, Holds-right, Holds-le, slice-Holds, u32_at-Holds,
}
use btrm.Base.Words.{u32_at, u32_to_le, IsU32}
use btrm.Frame.{FrameState}
use btrm.Terminal.Feed.{feed_compressed, batch_loop, feed_compressed_batch}

-- Each update behind its length.
unfoldable pub framed : List Bytes → Bytes
framed [] = []
framed (u ∷ us) = u32_to_le (length u) ++ (u ++ framed us)

module _ (decompress : Bytes → Option Bytes) where
  pub feed_each : List Bytes → FrameState × Bool → FrameState × Bool
  feed_each [] (f, changed) = (f, changed)
  feed_each (u ∷ us) (f, changed) =
      let fed = feed_compressed decompress f u in feed_each us (fed.0, changed || fed.1)

  no_wrap : (n m : ℕ) → n ≤ m → m < 4294967296 → n % 4294967296 ≡ n
  no_wrap n m h small = omega arith

  -- Over the whole updates that a batch begins with, the loop feeds each and goes on behind them.
  batch_loop-framed :
      (us : List Bytes) (behind : Bytes) (fuel : ℕ) (batch : Bytes) (off : ℕ) (f : FrameState)
      (changed : Bool)
      → off + length (framed us ++ behind) ≡ length batch
      → length batch < 4294967296
      → Holds batch off (framed us ++ behind)
      → batch_loop decompress (length us + fuel) batch off f changed
        ≡ batch_loop decompress fuel batch
            (off + length (framed us))
            (feed_each us (f, changed)).0
            (feed_each us (f, changed)).1
  unfolding batch_loop framed feed_each
  batch_loop-framed [] behind fuel batch off f changed ends small h =
      let no_fuel : 0 + fuel ≡ fuel = omega arith in
      let same_off : off + 0 ≡ off = omega arith in rw (no_fuel, same_off) refl
  batch_loop-framed (u ∷ us) behind fuel batch off f changed ends small h =
      let whole : length (u32_to_le (length u) ++ (u ++ framed us) ++ behind)
          ≡ 4 + (length u + length (framed us ++ behind)) =
        omega (
          arith,
          length-append {0} (u ++ framed us) behind,
          length-append {0} u (framed us),
          length-append {0} (framed us) behind,
        ) in
      let here : Holds batch off (u32_to_le (length u) ++ (u ++ (framed us ++ behind))) =
        rw (append_assoc u (framed us) behind) at h in
      let hu = Holds-right (u32_to_le (length u)) _ here in
      let hr = Holds-right u (framed us ++ behind) hu in
      let fits : IsU32 (length u) = omega (arith, whole) in
      let len = u32_at-Holds (length u) fits (Holds-left (u32_to_le (length u)) _ here) in
      let read = slice-Holds u (Holds-left u _ hu) in
      let inside = Holds-le u (Holds-left u _ hu) in
      let end = no_wrap (off + 4 + length u) (length batch) inside small in
      let l1 : leb (off + 4) (length batch) ≡ true = ground (arith, inside) in
      let l2 : ltb (length batch) (off + 4 + length u) ≡ false = ground (arith, inside) in
      let l3 : ltb (off + 4 + length u) (off + 4) ≡ false = ground arith in
      let there : off + 4 + length u + length (framed us)
          ≡ off + length (u32_to_le (length u) ++ (u ++ framed us)) =
        omega (arith, length-append {0} u (framed us)) in
      let round : suc (length us) + fuel ≡ suc (length us + fuel) = omega arith in
      rw (round, len, read, end, l1, l2, l3, ← there)
        (batch_loop-framed us behind fuel batch (off + 4 + length u) _ _ (omega (arith, whole))
          small hr)

  length-framed : (us : List Bytes) → length us ≤ length (framed us)
  unfolding framed
  length-framed [] = omega arith
  length-framed (u ∷ us) = omega (arith, length-framed us, length-append {0} u (framed us))

  -- The whole of a batch, given what the loop makes of the bytes behind the whole updates.
  fed_then :
      (us : List Bytes) (behind : Bytes) (f : FrameState) (fuel : ℕ)
      → length us + fuel ≡ length (framed us ++ behind)
      → length (framed us ++ behind) < 4294967296
      → feed_compressed_batch decompress f (framed us ++ behind)
        ≡ batch_loop decompress fuel
            (framed us ++ behind)
            (length (framed us))
            (feed_each us (f, false)).0
            (feed_each us (f, false)).1
  unfolding feed_compressed_batch
  fed_then us behind f fuel e small =
      let start : 0 + length (framed us) ≡ length (framed us) = omega arith in
      rw (← e) (
        rw start at (
          batch_loop-framed us behind fuel (framed us ++ behind) 0 f false (omega arith) small
            (Holds-all (framed us ++ behind))))

  ended :
      (us : List Bytes) (f : FrameState) (fuel : ℕ)
      → batch_loop decompress fuel
          (framed us ++ [])
          (length (framed us))
          (feed_each us (f, false)).0
          (feed_each us (f, false)).1
        ≡ some (feed_each us (f, false))
  unfolding batch_loop
  ended us f zero = refl
  ended us f (suc fuel) =
      let done : leb (length (framed us) + 4) (length (framed us)) ≡ false = ground arith in
      rw (append-nil (framed us), done) refl

  -- A round over an update that is cut.
  cut_round :
      (fuel : ℕ) (batch : Bytes) (off len : ℕ) (f : FrameState) (changed : Bool)
      → u32_at batch off ≡ len
      → off + 4 ≤ length batch
      → length batch < off + 4 + len
      → IsU32 len
      → IsU32 (length batch)
      → batch_loop decompress (suc fuel) batch off f changed
        ≡ (if ltb (off + 4 + len) 4294967296 then some (f, changed) else none)
  unfolding batch_loop
  cut_round fuel batch off len f changed e whole cut fits small =
      let l1 : leb (off + 4) (length batch) ≡ true = ground arith in
      elim (Bool-cases (ltb (off + 4 + len) 4294967296)) [
        | inl less ↦
            let end = no_wrap (off + 4 + len) (off + 4 + len) (omega arith) (ltb→lt _ _ less) in
            let l2 : ltb (length batch) (off + 4 + len) ≡ true = ground arith in
            rw (e, end, l1, l2, less) refl
        | inr wraps ↦
            let over : 4294967296 ≤ off + 4 + len = ground (arith, wraps) in
            let l2 : ltb (length batch) ((off + 4 + len) % 4294967296) ≡ false =
              let n : (off + 4 + len) % 4294967296 ≤ length batch = omega arith in ground arith in
            let l3 : ltb ((off + 4 + len) % 4294967296) (off + 4) ≡ true =
              let n : (off + 4 + len) % 4294967296 < off + 4 = omega arith in ground arith in
            rw (e, l1, l2, l3, wraps) refl
      ]

  -- A batch of updates, each behind its length, is fed whole, with no slice out of order: the result
  -- is that of the updates fed one by one, and the frame has changed if one of them changed it. The
  -- length of the batch fits a word of 32 bits.
  pub feed_compressed_batch-framed :
      (us : List Bytes) (f : FrameState)
      → IsU32 (length (framed us))
      → feed_compressed_batch decompress f (framed us) ≡ some (feed_each us (f, false))
  feed_compressed_batch-framed us f small =
      let whole = append-nil (framed us) in
      let rounds = length-framed us in
      rw whole at (
        fed_then us [] f (length (framed us) - length us) (rw whole (omega arith)) (rw whole small)
        ∙ ended us f (length (framed us) - length us))

  -- A batch that ends in an update that is cut: the whole ones before it are fed and the rest is left,
  -- unless the end that its length asks for reaches 2 ^ 32; then the end wraps around to before the
  -- update, and the slice panics. The length of the batch fits a word of 32 bits.
  pub feed_compressed_batch-cut :
      (us : List Bytes) (f : FrameState) (len : ℕ) (rest : Bytes)
      → IsU32 len
      → length rest < len
      → IsU32 (length (framed us ++ (u32_to_le len ++ rest)))
      → feed_compressed_batch decompress f (framed us ++ (u32_to_le len ++ rest)) ≡ (
          if ltb (length (framed us) + 4 + len) 4294967296
          then some (feed_each us (f, false))
          else none)
  feed_compressed_batch-cut us f len rest fits cut small =
      let behind : Bytes = u32_to_le len ++ rest in
      let total = length-append {0} (framed us) behind in
      let rounds = length-framed us in
      let h : Holds (framed us ++ behind) (length (framed us)) behind =
        Holds-at (length (framed us)) (omega arith)
          (Holds-right (framed us) behind (Holds-all (framed us ++ behind))) in
      fed_then us behind f (suc (length (framed us) + 3 + length rest - length us))
        (omega (arith, total, rounds)) small
      ∙ cut_round (length (framed us) + 3 + length rest - length us) (framed us ++ behind)
          (length (framed us)) len _ _ (u32_at-Holds len fits (Holds-left (u32_to_le len) rest h))
          (omega (arith, total)) (omega (arith, total)) fits small
