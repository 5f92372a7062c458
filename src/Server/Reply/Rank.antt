-- ===== src/Server/Reply/Rank.antt =====
-- The order of the results of a search.
use btrm.Base.{
  ℕ, ◌≡◌, ◌≢◌, ◌<◌, ◌≤◌, ◌⊎◌, some, none, refl, List, [], ◌∷◌, true, false, Option, arith, if_keeps,
}
use mathlib.Core.List.{Permᴰ}
use btrm.Base.Lists.{All}
use btrm.Wire.Server.{SearchResultRow}
use btrm.Server.Reply.{comes_first, insert_row, sort_rows}

-- What the order asks of a row and one behind it: a greater score, or the same score and either to be
-- of the lead or an id that is not greater, where the other is not of the lead.
abbrev pub Precedes : Option ℕ → SearchResultRow → SearchResultRow → Type 0
Precedes lead a b =
    (b.score < a.score)
    ⊎ (a.score ≡ b.score)
      × ((lead ≡ some a.pty_id) ⊎ (lead ≢ some b.pty_id) × (a.pty_id ≤ b.pty_id))

-- Each row precedes all that follow it.
pub IsRanked : Option ℕ → List SearchResultRow → Type 0
IsRanked lead [] = Unit
IsRanked lead (r ∷ rows) = All (Precedes lead r) rows × IsRanked lead rows

-- The same by the code's comparison.
IsSorted : Option ℕ → List SearchResultRow → Type 0
IsSorted lead [] = Unit
IsSorted lead (r ∷ rows) =
    All (λ (t : SearchResultRow). comes_first lead r t ≡ true) rows × IsSorted lead rows

comes_first-Precedes :
    (lead : Option ℕ) (a b : SearchResultRow) → comes_first lead a b ≡ true → Precedes lead a b
unfolding comes_first
comes_first-Precedes none a b h = ground (arith, h)
comes_first-Precedes (some p) a b h = ground (arith, h)

each-Precedes :
    (lead : Option ℕ) (r : SearchResultRow) (rows : List SearchResultRow)
    → All (λ (t : SearchResultRow). comes_first lead r t ≡ true) rows
    → All (Precedes lead r) rows
each-Precedes lead r [] h = tt
each-Precedes lead r (t ∷ rows) (p, h) =
    (comes_first-Precedes lead r t p, each-Precedes lead r rows h)

IsSorted-IsRanked :
    (lead : Option ℕ) (rows : List SearchResultRow) → IsSorted lead rows → IsRanked lead rows
unfolding IsSorted IsRanked
IsSorted-IsRanked lead [] h = tt
IsSorted-IsRanked lead (r ∷ rows) (p, h) =
    (each-Precedes lead r rows p, IsSorted-IsRanked lead rows h)

comes_first_total :
    (lead : Option ℕ) (a b : SearchResultRow)
    → comes_first lead a b ≡ false
    → comes_first lead b a ≡ true
unfolding comes_first
comes_first_total lead a b h = ground (arith, h)

comes_first_trans :
    (lead : Option ℕ) (a b c : SearchResultRow)
    → comes_first lead a b ≡ true
    → comes_first lead b c ≡ true
    → comes_first lead a c ≡ true
unfolding comes_first
comes_first_trans lead a b c p q = ground (arith, p, q)

follows_trans :
    (lead : Option ℕ) (a b : SearchResultRow) (rows : List SearchResultRow)
    → comes_first lead a b ≡ true
    → All (λ (t : SearchResultRow). comes_first lead b t ≡ true) rows
    → All (λ (t : SearchResultRow). comes_first lead a t ≡ true) rows
follows_trans lead a b [] p h = tt
follows_trans lead a b (t ∷ rows) p (q, h) =
    (comes_first_trans lead a b t p q, follows_trans lead a b rows p h)

insert_row-All :
    (lead : Option ℕ) (P : SearchResultRow → Type 0) (r : SearchResultRow)
    (rows : List SearchResultRow)
    → P r
    → All P rows
    → All P (insert_row lead r rows)
unfolding insert_row
insert_row-All lead P r [] p h = (p, tt)
insert_row-All lead P r (t ∷ rows) p (q, h) =
    if_keeps (All P) (comes_first lead r t) (λ first. (p, (q, h)))
      (λ later. (q, insert_row-All lead P r rows p h))

insert_row-IsSorted :
    (lead : Option ℕ) (r : SearchResultRow) (rows : List SearchResultRow)
    → IsSorted lead rows
    → IsSorted lead (insert_row lead r rows)
unfolding insert_row IsSorted
insert_row-IsSorted lead r [] h = (tt, tt)
insert_row-IsSorted lead r (t ∷ rows) (after, h) =
    if_keeps (IsSorted lead) (comes_first lead r t)
      (λ first. ((first, follows_trans lead r t rows first after), (after, h)))
      (λ later. (
        insert_row-All lead (λ (u : SearchResultRow). comes_first lead t u ≡ true) r rows
            (comes_first_total lead r t later) after,
        insert_row-IsSorted lead r rows h,
      ))

insert_row-Perm :
    (lead : Option ℕ) (r : SearchResultRow) (rows : List SearchResultRow)
    → Permᴰ (insert_row lead r rows) (r ∷ rows)
unfolding insert_row
insert_row-Perm lead r [] = Permᴰ.cons refl Permᴰ.nil
insert_row-Perm lead r (t ∷ rows) =
    if_keeps (λ (l : List SearchResultRow). Permᴰ l (r ∷ t ∷ rows)) (comes_first lead r t)
      (λ first. Permᴰ.trans (Permᴰ.swap refl refl) (Permᴰ.swap refl refl))
      (λ later. Permᴰ.trans (Permᴰ.cons refl (insert_row-Perm lead r rows)) (Permᴰ.swap refl refl))

sort_rows-IsSorted :
    (lead : Option ℕ) (rows : List SearchResultRow) → IsSorted lead (sort_rows lead rows)
unfolding sort_rows IsSorted
sort_rows-IsSorted lead [] = tt
sort_rows-IsSorted lead (r ∷ rows) =
    insert_row-IsSorted lead r (sort_rows lead rows) (sort_rows-IsSorted lead rows)

sort_rows-Perm : (lead : Option ℕ) (rows : List SearchResultRow) → Permᴰ (sort_rows lead rows) rows
unfolding sort_rows
sort_rows-Perm lead [] = Permᴰ.nil
sort_rows-Perm lead (r ∷ rows) =
    Permᴰ.trans (insert_row-Perm lead r (sort_rows lead rows))
      (Permᴰ.cons refl (sort_rows-Perm lead rows))

-- The results of a search are those that were found, each as often, in the order of their scores, the
-- greatest first; of one score the client's lead comes first, and then the smaller id.
pub sort_rows-IsRanked :
    (lead : Option ℕ) (rows : List SearchResultRow)
    → IsRanked lead (sort_rows lead rows) × Permᴰ (sort_rows lead rows) rows
sort_rows-IsRanked lead rows = (
  IsSorted-IsRanked lead (sort_rows lead rows) (sort_rows-IsSorted lead rows),
  sort_rows-Perm lead rows,
)
