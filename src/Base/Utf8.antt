-- ===== src/Base/Utf8.antt =====
-- UTF-8 as Rust's standard library reads it: a `String` is a list of bytes that `is_utf8` accepts,
-- and a text that is taken apart by `chars` is a list of code points.
use Prim.Native.Nat.{ℕ, zero, suc, ◌+◌, ◌*◌, ◌/◌, ◌%◌}
use mathlib.Core.Path.{◌≡◌, refl}
use mathlib.Core.Bool.{Bool, true, false, ◌&&◌, ◌||◌, false≢true}
use mathlib.Core.Logic.{inl, inr}
use mathlib.Core.Option.{Option, none, some}
use mathlib.Core.List.{List, [], ◌∷◌, ◌++◌, append_assoc}
use native.Mathlib.Omega.{arith}
use btrm.Base.Logic.{ltb, leb, ◌==◌, if◌then◌else◌, Bytes, Option-cases}

-- What the next byte must be: a first byte, or one, two or three continuation bytes, the first of
-- which has a narrower range behind E0, ED, F0 and F4.
pub data Expect : Type 0 where
  start one two three after_e0 after_ed after_f0 after_f4 : Expect

abbrev within : ℕ → ℕ → ℕ → Bool
within lo hi b = leb lo b && leb b hi

abbrev expect_if : Bool → Expect → Option Expect
expect_if b e = if b then some e else none

next_first : ℕ → Option Expect
next_first b =
    if ltb b 0x80
    then some start
    else if within 0xc2 0xdf b
    then some one
    else if b == 0xe0
    then some after_e0
    else if b == 0xed
    then some after_ed
    else if within 0xe1 0xef b
    then some two
    else if b == 0xf0
    then some after_f0
    else if b == 0xf4
    then some after_f4
    else expect_if (within 0xf1 0xf3 b) three

unfoldable pub next : Expect → ℕ → Option Expect
unfolding next_first
next start b = next_first b
next one b = expect_if (within 0x80 0xbf b) start
next two b = expect_if (within 0x80 0xbf b) one
next three b = expect_if (within 0x80 0xbf b) two
next after_e0 b = expect_if (within 0xa0 0xbf b) one
next after_ed b = expect_if (within 0x80 0x9f b) one
next after_f0 b = expect_if (within 0x90 0xbf b) two
next after_f4 b = expect_if (within 0x80 0x8f b) two

abbrev is_start : Expect → Bool
is_start start = true
is_start _ = false

pub is_utf8_from : Expect → Bytes → Bool
is_utf8_from e [] = is_start e
is_utf8_from e (b ∷ bs) = elim (next e b) [ none ↦ false | some f ↦ is_utf8_from f bs ]

unfoldable pub is_utf8 : Bytes → Bool
unfolding is_utf8_from next
is_utf8 bs = is_utf8_from start bs

-- `str::from_utf8(bs).ok()`
abbrev pub from_utf8 : Bytes → Option Bytes
from_utf8 bs = if is_utf8 bs then some bs else none

-- `str::from_utf8(bs).unwrap_or_default()`
abbrev pub from_utf8_or_default : Bytes → Bytes
from_utf8_or_default bs = if is_utf8 bs then bs else []

-- U+FFFD
abbrev replacement : Bytes
replacement = 0xef ∷ 0xbf ∷ 0xbd ∷ []

-- One byte of `from_utf8_lossy` at the start of a character: what it emits at once, what is pending
-- behind it, and what the next byte must be.
lossy_first : ℕ → Bytes × Bytes × Expect
lossy_first b = elim (next start b) [
  | none ↦ (replacement, [], start)
  | some start ↦ (b ∷ [], [], start)
  | some e ↦ ([], b ∷ [], e)
]

-- A byte that does not fit ends the pending character, which becomes one U+FFFD, and is read again
-- as a first byte.
lossy_step : Expect → Bytes → ℕ → Bytes × Bytes × Expect
unfolding lossy_first
lossy_step start pending b = lossy_first b
lossy_step e pending b = elim (next e b) [
  | none ↦ let r = lossy_first b in (replacement ++ r.0, r.1, r.2)
  | some start ↦ (pending ++ (b ∷ []), [], start)
  | some f ↦ ([], pending ++ (b ∷ []), f)
]

lossy_from : Expect → Bytes → Bytes → Bytes
lossy_from e pending [] = if is_start e then [] else replacement
lossy_from e pending (b ∷ bs) = let r = lossy_step e pending b in r.0 ++ lossy_from r.2 r.1 bs

-- `String::from_utf8_lossy(bs).into_owned()`
unfoldable pub from_utf8_lossy : Bytes → Bytes
unfolding lossy_from lossy_step next
from_utf8_lossy bs = lossy_from start [] bs

-- The length in continuation bytes that a first byte announces, and the bits that it carries.
abbrev lead_count : ℕ → ℕ
lead_count b = if ltb b 0x80 then 0 else if ltb b 0xe0 then 1 else if ltb b 0xf0 then 2 else 3

abbrev lead_bits : ℕ → ℕ
lead_bits b = if ltb b 0xe0 then b % 32 else if ltb b 0xf0 then b % 16 else b % 8

abbrev emit : Bool → ℕ → List ℕ → List ℕ
emit b c cs = if b then c ∷ cs else cs

chars_from : ℕ → ℕ → Bytes → List ℕ
chars_from k acc [] = []
chars_from zero acc (b ∷ bs) = emit (ltb b 0x80) b (chars_from (lead_count b) (lead_bits b) bs)
chars_from (suc k) acc (b ∷ bs) = let c = acc * 64 + b % 64 in emit (k == 0) c (chars_from k c bs)

-- `s.chars()`
unfoldable pub chars : Bytes → List ℕ
unfolding chars_from
chars bs = chars_from 0 0 bs

-- `ch.encode_utf8(&mut buf).as_bytes()`
unfoldable pub encode_utf8 : ℕ → Bytes
encode_utf8 c =
    if ltb c 0x80
    then c ∷ []
    else if ltb c 0x800
    then (0xc0 + c / 64) ∷ (0x80 + c % 64) ∷ []
    else if ltb c 0x10000
    then (0xe0 + c / 4096) ∷ (0x80 + c / 64 % 64) ∷ (0x80 + c % 64) ∷ []
    else (0xf0 + c / 262144) ∷ (0x80 + c / 4096 % 64) ∷ (0x80 + c / 64 % 64) ∷ (0x80 + c % 64) ∷ []

pub encode_all : List ℕ → Bytes
encode_all [] = []
encode_all (c ∷ cs) = encode_utf8 c ++ encode_all cs

-- `char::is_whitespace`: the Unicode property White_Space.
unfoldable pub is_whitespace : ℕ → Bool
is_whitespace c =
    within 9 13 c
    || c == 32
    || c == 0x85
    || c == 0xa0
    || c == 0x1680
    || within 0x2000 0x200a c
    || c == 0x2028
    || c == 0x2029
    || c == 0x202f
    || c == 0x205f
    || c == 0x3000

-- A scalar value: what a `char` holds.
abbrev pub is_char : ℕ → Bool
is_char c = ltb c 0xd800 || within 0xe000 0x10ffff c

-- The trailing white space goes, over code points.
unfoldable pub trim_end_chars : List ℕ → List ℕ
trim_end_chars [] = []
trim_end_chars (c ∷ cs) =
    let rest = trim_end_chars cs in
    elim rest [ [] ↦ if is_whitespace c then [] else c ∷ [] | d ∷ ds ↦ c ∷ d ∷ ds ]

-- `s.trim_end()`
unfoldable pub trim_end : Bytes → Bytes
unfolding trim_end_chars chars encode_all encode_utf8 is_whitespace
trim_end bs = encode_all (trim_end_chars (chars bs))

-- Whatever is valid stays valid in front of valid text.
is_utf8_from-append :
    (e : Expect) (a b : Bytes)
    → is_utf8_from e a ≡ true
    → is_utf8_from start b ≡ true
    → is_utf8_from e (a ++ b) ≡ true
unfolding is_utf8_from
is_utf8_from-append start [] b h k = k
is_utf8_from-append one [] b h k = ground arith
is_utf8_from-append two [] b h k = ground arith
is_utf8_from-append three [] b h k = ground arith
is_utf8_from-append after_e0 [] b h k = ground arith
is_utf8_from-append after_ed [] b h k = ground arith
is_utf8_from-append after_f0 [] b h k = ground arith
is_utf8_from-append after_f4 [] b h k = ground arith
is_utf8_from-append e (x ∷ a) b h k = elim (Option-cases (next e x)) [
  | inl n ↦ cc (rw (n, is_utf8_from) at h)
  | inr (f, s) ↦ rw (s, is_utf8_from) (is_utf8_from-append f a b (rw (s, is_utf8_from) at h) k)
]

pub is_utf8-append : (a b : Bytes) → is_utf8 a ≡ true → is_utf8 b ≡ true → is_utf8 (a ++ b) ≡ true
unfolding is_utf8
is_utf8-append a b h k = is_utf8_from-append start a b h k

lossy_step_lem :
    (e f : Expect) (pending : Bytes) (b : ℕ)
    → (is_start e ≡ true → pending ≡ [])
    → next e b ≡ some f
    → lossy_step e pending b
      ≡ (if is_start f then (pending ++ (b ∷ []), [], start) else ([], pending ++ (b ∷ []), f))
unfolding lossy_step
lossy_step_lem start start pending b p h = rw (p refl, h, lossy_step, lossy_first)
lossy_step_lem start f pending b p h = rw (p refl, h, lossy_step, lossy_first)
lossy_step_lem e start pending b p h = rw (h, lossy_step)
lossy_step_lem e f pending b p h = rw (h, lossy_step)

-- A step that ends a character emits it, and any other keeps it pending.
done_or_pending :
    (f : Expect) (pending : Bytes) (b : ℕ) (bs : Bytes)
    → ((q : Bytes) → (is_start f ≡ true → q ≡ []) → lossy_from f q bs ≡ q ++ bs)
    → (let r : Bytes × Bytes × Expect =
          if is_start f then (pending ++ (b ∷ []), [], start) else ([], pending ++ (b ∷ []), f) in
        r.0 ++ lossy_from r.2 r.1 bs)
      ≡ pending ++ (b ∷ bs)
done_or_pending start pending b bs ih = rw (ih [] (λ _. refl)) (append_assoc pending (b ∷ []) bs)
done_or_pending f pending b bs ih =
    rw (ih (pending ++ (b ∷ [])) (λ e. absurd (false≢true e))) (append_assoc pending (b ∷ []) bs)

-- While the text read so far is valid, the lossy reader gives back what it has read.
lossy_from-is_utf8 :
    (e : Expect) (pending bs : Bytes)
    → (is_start e ≡ true → pending ≡ [])
    → is_utf8_from e bs ≡ true
    → lossy_from e pending bs ≡ pending ++ bs
unfolding lossy_from is_utf8_from
lossy_from-is_utf8 start pending [] p h = rw (p refl)
lossy_from-is_utf8 one pending [] p h = cc
lossy_from-is_utf8 two pending [] p h = cc
lossy_from-is_utf8 three pending [] p h = cc
lossy_from-is_utf8 after_e0 pending [] p h = cc
lossy_from-is_utf8 after_ed pending [] p h = cc
lossy_from-is_utf8 after_f0 pending [] p h = cc
lossy_from-is_utf8 after_f4 pending [] p h = cc
lossy_from-is_utf8 e pending (b ∷ bs) p h = elim (Option-cases (next e b)) [
  | inl n ↦ cc (rw (n, is_utf8_from) at h)
  | inr (f, s) ↦ rw (lossy_step_lem e f pending b p s) (
      done_or_pending f pending b bs
        (λ q k. lossy_from-is_utf8 f q bs k (rw (s, is_utf8_from) at h)))
]

pub from_utf8_lossy-is_utf8 : (bs : Bytes) → is_utf8 bs ≡ true → from_utf8_lossy bs ≡ bs
unfolding from_utf8_lossy is_utf8
from_utf8_lossy-is_utf8 bs h = lossy_from-is_utf8 start [] bs (λ _. refl) h
