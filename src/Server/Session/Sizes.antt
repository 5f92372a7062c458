-- ===== src/Server/Session/Sizes.antt =====
-- The size of a PTY that the clients agree on.
use btrm.Base.{
  ℕ, ◌≤◌, ◌≡◌, refl, sym, ap, ◌∙◌, List, [], ◌∷◌, map, true, Option, none, some, min, max, arith,
  ◌⊎◌, inl, inr, ◌==◌, Bool-cases,
}
use mathlib.Core.Option.{some-injective}
use btrm.Base.Lists.{All}
use btrm.Base.Keyed.{Keyed, get, member}
use btrm.Server.Client.{ClientState}
use btrm.Server.Session.{Session, least, min_of, add_view, at_least_one, mediated_size_for_pty}

abbrev Sizes : Type 0
Sizes = List (ℕ × ℕ)

abbrev with_view : Option (ℕ × ℕ) → Sizes → Sizes
with_view none sizes = sizes
with_view (some v) sizes = v ∷ sizes

-- The sizes in which the clients show the PTY.
unfoldable pub views : ℕ → Keyed ClientState → Sizes
views pty_id [] = []
views pty_id ((id, c) ∷ clients) = with_view (get c.view_sizes pty_id) (views pty_id clients)

-- A minimum of numbers, each of them at least one.
record IsLeast (r : ℕ) (numbers : List ℕ) : Type 0 where
  positive : 1 ≤ r
  below : All (λ (n : ℕ). r ≤ max n 1) numbers
  attained : member r (map (λ (n : ℕ). max n 1) numbers) ≡ true

-- No size where no client shows the PTY, and else the least rows and the least columns.
pub IsMediated : Sizes → Option (ℕ × ℕ) → Type 0
IsMediated sizes none = sizes ≡ []
IsMediated sizes (some (r, c)) =
    IsLeast r (map (λ (v : ℕ × ℕ). v.0) sizes) × IsLeast c (map (λ (v : ℕ × ℕ). v.1) sizes)

abbrev rows_of : Sizes → List ℕ
rows_of sizes = map (λ (v : ℕ × ℕ). v.0) sizes

abbrev cols_of : Sizes → List ℕ
cols_of sizes = map (λ (v : ℕ × ℕ). v.1) sizes

min_from : Option ℕ → List ℕ → Option ℕ
min_from o [] = o
min_from o (n ∷ ns) = min_from (some (min_of o n)) ns

abbrev both_from : Option ℕ × Option ℕ → Sizes → Option ℕ × Option ℕ
both_from (a, b) sizes = (min_from a (rows_of sizes), min_from b (cols_of sizes))

add_view-both_from :
    (o : Option (ℕ × ℕ)) (p : Option ℕ × Option ℕ) (sizes : Sizes)
    → both_from (add_view o p) sizes ≡ both_from p (with_view o sizes)
unfolding add_view min_from
add_view-both_from none p sizes = refl
add_view-both_from (some (r, cols)) (a, b) sizes = refl

least_lem :
    (pty_id : ℕ) (clients : Keyed ClientState) (p : Option ℕ × Option ℕ)
    → least pty_id clients p ≡ both_from p (views pty_id clients)
unfolding least views min_from
least_lem pty_id [] (a, b) = refl
least_lem pty_id ((id, c) ∷ clients) p =
    least_lem pty_id clients (add_view (get c.view_sizes pty_id) p)
    ∙ add_view-both_from (get c.view_sizes pty_id) p (views pty_id clients)

-- A minimum that is found is no more than each number, and is the first one or one of the others.
min_from-le :
    (o : Option ℕ) (ns : List ℕ) (m : ℕ)
    → min_from o ns ≡ some m
    → All (λ (n : ℕ). m ≤ n) ns × ((k : ℕ) → o ≡ some k → m ≤ k)
unfolding min_from min_of
min_from-le o [] m e = (tt, λ k f. omega (arith, some-injective k m (sym f ∙ e)))
min_from-le none (n ∷ ns) m e =
    let (below, first) = min_from-le (some n) ns m e in ((first n refl, below), λ k f. cc)
min_from-le (some a) (n ∷ ns) m e =
    let (below, first) = min_from-le (some (min a n)) ns m e in
    let at_most = first (min a n) refl in
    ((omega arith, below), λ k f. omega (arith, at_most, some-injective a k f))

min_from-member :
    (o : Option ℕ) (ns : List ℕ) (m : ℕ)
    → min_from o ns ≡ some m
    → (o ≡ some m) ⊎ (member m ns ≡ true)
unfolding min_from min_of member
min_from-member o [] m e = inl e
min_from-member none (n ∷ ns) m e = inr (elim (min_from-member (some n) ns m e) [
  | inl first ↦ let same = some-injective n m first in ground (arith, same)
  | inr later ↦ ground (arith, later)
])
min_from-member (some a) (n ∷ ns) m e = elim (min_from-member (some (min a n)) ns m e) [
  | inl first ↦
      let same = some-injective (min a n) m first in
      elim (Bool-cases (a == m)) [
        | inl is ↦ let f : a ≡ m = ground (arith, is) in inl (ap some f)
        | inr other ↦ inr (ground (arith, same, other))
      ]
  | inr later ↦ inr (ground (arith, later))
]

at_least_1 :
    (m : ℕ) (ns : List ℕ) → All (λ (n : ℕ). m ≤ n) ns → All (λ (n : ℕ). max m 1 ≤ max n 1) ns
at_least_1 m [] h = tt
at_least_1 m (n ∷ ns) (a, h) = (omega arith, at_least_1 m ns h)

member_1 :
    (m : ℕ) (ns : List ℕ)
    → member m ns ≡ true
    → member (max m 1) (map (λ (n : ℕ). max n 1) ns) ≡ true
unfolding member
member_1 m [] h = h
member_1 m (n ∷ ns) h = ground (arith, member_1 m ns, h)

min_from-IsLeast : (ns : List ℕ) (m : ℕ) → min_from none ns ≡ some m → IsLeast (max m 1) ns
min_from-IsLeast ns m e = record {
  positive = omega arith;
  below = at_least_1 m ns (min_from-le none ns m e).0;
  attained = member_1 m ns (elim (min_from-member none ns m e) [ inl n ↦ cc | inr h ↦ h ]);
}

min_from_found : (a : ℕ) (ns : List ℕ) → (m : ℕ) × (min_from (some a) ns ≡ some m)
unfolding min_from
min_from_found a [] = (a, refl)
min_from_found a (n ∷ ns) = min_from_found (min_of (some a) n) ns

-- The minima of the two columns of a list.
mediated_of_lem : (sizes : Sizes) → IsMediated sizes (at_least_one (both_from (none, none) sizes))
unfolding IsMediated min_from
mediated_of_lem [] = refl
mediated_of_lem ((r, c) ∷ sizes) =
    let (m, e) = min_from_found (min_of none r) (rows_of sizes) in
    let (n, f) = min_from_found (min_of none c) (cols_of sizes) in
    rw (e, f) (min_from-IsLeast (r ∷ rows_of sizes) m e, min_from-IsLeast (c ∷ cols_of sizes) n f)

-- The size of a PTY is the least rows and the least columns, at least one each, in which a client
-- shows it; it has none where no client shows it.
pub mediated_size_for_pty-IsMediated :
    {D : Type 0} (s : Session D) (pty_id : ℕ)
    → IsMediated (views pty_id s.clients) (mediated_size_for_pty s pty_id)
unfolding mediated_size_for_pty
mediated_size_for_pty-IsMediated s pty_id =
    rw (least_lem pty_id s.clients (none, none)) (mediated_of_lem (views pty_id s.clients))
