-- ===== src/Stage.antt =====
-- web/src/features/stage/lib.ts: the places on the stage's screen.
pub mod Groups
pub mod Laws
use platform_for_sudies.Common.{
  ℕ, zero, suc, ◌+◌, min, String, Bool, Option, none, some, List, [], ◌∷◌, ◌++◌, if◌then◌else◌, leb,
  ◌==◌, sort_by,
}
use platform_for_sudies.Api.{RankingRow}

pub record RankGroup : Type 0 where
  pub rank : ℕ
  pub rows : List RankingRow

-- `groups.get(rank)` and the push to it, or `groups.set(rank, [row])`.
unfoldable pub add_to_group : ℕ → RankingRow → List RankGroup → List RankGroup
add_to_group rank row [] = record { rank = rank; rows = row ∷ [] } ∷ []
add_to_group rank row (g ∷ groups) =
    if g.rank == rank
    then record g { rows = g.rows ++ row ∷ [] } ∷ groups
    else g ∷ add_to_group rank row groups

abbrev pub group_row : Option ℕ → RankingRow → List RankGroup → List RankGroup
group_row none row groups = groups
group_row (some rank) row groups = add_to_group rank row groups

unfoldable pub group_rows : List RankingRow → List RankGroup → List RankGroup
group_rows [] groups = groups
group_rows (row ∷ rows) groups = group_rows rows (group_row row.rank row groups)

unfoldable pub group_by_rank : List RankingRow → List RankGroup
group_by_rank rows = sort_by (λ g. g.rank) (group_rows rows [])

abbrev pub slots_from : ℕ → ℕ → List ℕ
slots_from zero i = []
slots_from (suc n) i = (i + 1) ∷ slots_from n (i + 1)

unfoldable pub podium_slots : ℕ → List ℕ
podium_slots top_n = slots_from (min 3 top_n) 0

-- In hundredths of a rem.
unfoldable pub board_scale : ℕ → ℕ
board_scale count =
    if leb count 6 then 100 else if leb count 9 then 82 else if leb count 13 then 66 else 52
