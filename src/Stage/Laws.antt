-- ===== src/Stage/Laws.antt =====
-- The groups of web/src/features/stage/lib.ts: each row under its rank, in the order of the places.
use platform_for_sudies.Common.{
  ℕ, ◌+◌, ◌<◌, ◌≤◌, ◌≢◌, leb, sym, All-insert_by, if-elim, Bool, Option, none, some, List, [], ◌∷◌,
  ◌≡◌, refl, ◌∙◌, All, All-sort_by, IsSortedBy, sort_by-IsSortedBy, arith, if◌then◌else◌, count,
  is_some, length, length-append, sort_by, insert_by,
}
use platform_for_sudies.Api.{RankingRow}
use platform_for_sudies.Stage.Groups.{
  IsWhole, IsDistinct, group_rows-IsDistinct, group_rows-IsWhole,
}
use platform_for_sudies.Stage.{RankGroup, add_to_group, group_row, group_rows, group_by_rank}

-- How many rows the groups hold.
abbrev pub rows_in : List RankGroup → ℕ
rows_in [] = 0
rows_in (g ∷ groups) = length g.rows + rows_in groups

add_to_group-rows :
    (rank : ℕ) (row : RankingRow) (groups : List RankGroup)
    → rows_in (add_to_group rank row groups) ≡ rows_in groups + 1
unfolding add_to_group
add_to_group-rows rank row [] = refl
add_to_group-rows rank row (g ∷ groups) =
    ground (arith, add_to_group-rows rank row groups, length-append g.rows (row ∷ []))

abbrev pub is_ranked : RankingRow → Bool
is_ranked r = is_some r.rank

group_row-rows :
    (rank : Option ℕ) (row : RankingRow) (groups : List RankGroup)
    → rows_in (group_row rank row groups) ≡ rows_in groups + (if is_some rank then 1 else 0)
group_row-rows none row groups = omega arith
group_row-rows (some rank) row groups = add_to_group-rows rank row groups

group_rows-rows :
    (rows : List RankingRow) (groups : List RankGroup)
    → rows_in (group_rows rows groups) ≡ rows_in groups + count is_ranked rows
unfolding group_rows
group_rows-rows [] groups = omega arith
group_rows-rows (row ∷ rows) groups = ground (
  arith,
  group_rows-rows rows (group_row row.rank row groups),
  group_row-rows row.rank row groups,
)

rows_in-insert_by :
    (g : RankGroup) (groups : List RankGroup)
    → rows_in (insert_by (λ x. x.rank) g groups) ≡ length g.rows + rows_in groups
unfolding insert_by
rows_in-insert_by g [] = refl
rows_in-insert_by g (x ∷ groups) = ground (arith, rows_in-insert_by g groups)

rows_in-sort_by :
    (groups : List RankGroup) → rows_in (sort_by (λ x. x.rank) groups) ≡ rows_in groups
unfolding sort_by
rows_in-sort_by [] = refl
rows_in-sort_by (g ∷ groups) =
    ground (arith, rows_in-insert_by g (sort_by (λ x. x.rank) groups), rows_in-sort_by groups)

-- Each group has a lower rank than all that follow it.
abbrev pub IsRising : List RankGroup → Type 0
IsRising [] = Unit
IsRising (g ∷ groups) = All (λ h. g.rank < h.rank) groups × IsRising groups

insert_by-IsDistinct :
    (g : RankGroup) (groups : List RankGroup)
    → All (λ h. g.rank ≢ h.rank) groups
    → IsDistinct groups
    → IsDistinct (insert_by (λ x. x.rank) g groups)
unfolding insert_by
insert_by-IsDistinct g [] a h = (tt, tt)
insert_by-IsDistinct g (x ∷ groups) (p, a) (b, h) =
    if-elim IsDistinct (leb g.rank x.rank) _ _ ((p, a), (b, h))
      (
        All-insert_by (λ y. y.rank) (λ y. x.rank ≢ y.rank) g groups (λ e. p (sym e)) b,
        insert_by-IsDistinct g groups a h,
      )

sort_by-IsDistinct :
    (groups : List RankGroup) → IsDistinct groups → IsDistinct (sort_by (λ x. x.rank) groups)
unfolding sort_by
sort_by-IsDistinct [] h = tt
sort_by-IsDistinct (g ∷ groups) (a, h) =
    insert_by-IsDistinct g (sort_by (λ x. x.rank) groups)
      (All-sort_by (λ x. x.rank) (λ x. g.rank ≢ x.rank) groups a) (sort_by-IsDistinct groups h)

below :
    (n : ℕ) (groups : List RankGroup)
    → All (λ h. n ≤ h.rank) groups
    → All (λ h. n ≢ h.rank) groups
    → All (λ h. n < h.rank) groups
below n [] le ne = tt
below n (g ∷ groups) (p, le) (q, ne) = (ground (arith, p, q), below n groups le ne)

IsSortedBy→IsRising :
    (groups : List RankGroup)
    → IsSortedBy (λ g. g.rank) groups
    → IsDistinct groups
    → IsRising groups
IsSortedBy→IsRising [] s d = tt
IsSortedBy→IsRising (g ∷ groups) (le, s) (ne, d) =
    (below g.rank groups le ne, IsSortedBy→IsRising groups s d)

-- The stage shows the places in their order and each rank once, with all rows of that rank in
-- the order of the board; the rows with a rank are all counted, and the rows without one are
-- not.
pub group_by_rank_lem :
    (rows : List RankingRow)
    → IsRising (group_by_rank rows)
      × All (IsWhole rows) (group_by_rank rows)
      × (rows_in (group_by_rank rows) ≡ count is_ranked rows)
unfolding group_by_rank
group_by_rank_lem rows = (
  IsSortedBy→IsRising _ (sort_by-IsSortedBy (λ g. g.rank) (group_rows rows []))
      (sort_by-IsDistinct _ (group_rows-IsDistinct rows)),
  All-sort_by (λ g. g.rank) (IsWhole rows) (group_rows rows []) (group_rows-IsWhole rows),
  rows_in-sort_by (group_rows rows []) ∙ group_rows-rows rows [] ∙ omega arith,
)
