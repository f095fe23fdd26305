-- ===== src/Scoring/Sheets/Laws.antt =====
-- Progress in web/src/features/judge/scoring.ts agrees with the scores that are there.
use platform_for_sudies.Common.{
  ℕ, ◌+◌, Bool, List, [], ◌∷◌, ◌≡◌, lookup, is_some, arith, length, count, length-append,
}
use platform_for_sudies.Api.{Team, Criterion}
use platform_for_sudies.Scoring.Rows.{Rows, cell_key}
use platform_for_sudies.Scoring.Sheets.{
  value_of, applicable, missing_of_team, missing_cells, total_cells, overall_progress,
}

abbrev is_scored : Rows → Team → Criterion → Bool
is_scored rows t c = is_some (value_of (lookup (cell_key t.id c.id) rows))

-- The scored cells, counted directly.
abbrev pub scored_cells : List Team → List Criterion → Rows → ℕ
scored_cells [] criteria rows = 0
scored_cells (t ∷ ts) criteria rows =
    count (is_scored rows t) (applicable criteria t) + scored_cells ts criteria rows

missing_of_team_lem :
    (t : Team) (criteria : List Criterion) (rows : Rows)
    → length (missing_of_team t criteria rows) + count (is_scored rows t) (applicable criteria t)
      ≡ length (applicable criteria t)
unfolding missing_of_team
missing_of_team_lem t [] rows = omega arith
missing_of_team_lem t (c ∷ criteria) rows = ground (arith, missing_of_team_lem t criteria rows)

missing_cells_lem :
    (teams : List Team) (criteria : List Criterion) (rows : Rows)
    → length (missing_cells teams criteria rows) + scored_cells teams criteria rows
      ≡ total_cells teams criteria
unfolding missing_cells total_cells
missing_cells_lem [] criteria rows = omega arith
missing_cells_lem (t ∷ ts) criteria rows = omega (
  arith,
  length-append (missing_of_team t criteria rows) (missing_cells ts criteria rows),
  missing_of_team_lem t criteria rows,
  missing_cells_lem ts criteria rows,
)

-- The overall progress counts the applicable cells that hold a score, out of all applicable
-- cells; the subtraction in the code never goes below zero.
pub overall_progress_lem :
    (teams : List Team) (criteria : List Criterion) (rows : Rows)
    → ((overall_progress teams criteria rows).done ≡ scored_cells teams criteria rows)
      × ((overall_progress teams criteria rows).done + length (missing_cells teams criteria rows)
          ≡ (overall_progress teams criteria rows).total)
unfolding overall_progress
overall_progress_lem teams criteria rows = (
  omega (arith, missing_cells_lem teams criteria rows),
  omega (arith, missing_cells_lem teams criteria rows),
)
