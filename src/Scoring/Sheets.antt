-- ===== src/Scoring/Sheets.antt =====
-- web/src/features/judge/scoring.ts: progress, missing cells and the lines of an item.
pub mod Laws
use platform_for_sudies.Common.{
  ℕ, suc, ◌+◌, ◌-◌, String, Bool, true, false, not, ◌&&◌, ◌||◌, Option, none, some, List, [], ◌∷◌,
  ◌++◌, map, lookup, if◌then◌else◌, is_some, str_eq, truthy, filter, length, flat_map, find, count,
}
use platform_for_sudies.Api.{Team, Criterion, ScoringMode, team, criterion, pairwise}
use platform_for_sudies.Tracks.{criterion_applies}
use platform_for_sudies.Scoring.Rows.{LocalRow, Rows, cell_key}

pub record Cell : Type 0 where
  pub team_id : String
  pub criterion_id : String

abbrev pub value_of : Option LocalRow → Option ℕ
value_of none = none
value_of (some row) = row.value_x100

-- The applicable cells of a team.
abbrev pub applicable : List Criterion → Team → List Criterion
applicable criteria t = filter (λ c. criterion_applies c t) criteria

abbrev pub is_missing : Rows → Team → Criterion → Bool
is_missing rows t c = not (is_some (value_of (lookup (cell_key t.id c.id) rows)))

missing_of_team : Team → List Criterion → Rows → List Cell
missing_of_team t [] rows = []
missing_of_team t (c ∷ cs) rows =
    let rest = missing_of_team t cs rows in
    if not (criterion_applies c t)
    then rest
    else if is_missing rows t c
    then record { team_id = t.id; criterion_id = c.id } ∷ rest
    else rest

unfoldable pub missing_cells : List Team → List Criterion → Rows → List Cell
unfolding missing_of_team
missing_cells [] criteria rows = []
missing_cells (t ∷ ts) criteria rows =
    missing_of_team t criteria rows ++ missing_cells ts criteria rows

pub record ItemProgress : Type 0 where
  pub done : ℕ
  pub total : ℕ
  pub pending : Bool
  pub error : Bool

-- The identifiers of the lines of one queue item. A mode other than `team` takes the criterion branch.
unfoldable pub item_lines : ScoringMode → String → List Team → List Criterion → List String
item_lines team item_id teams criteria = elim (find (λ t. str_eq t.id item_id) teams) [
  | none ↦ []
  | some t ↦ map (λ c. c.id) (applicable criteria t)
]
item_lines _ item_id teams criteria = elim (find (λ c. str_eq c.id item_id) criteria) [
  | none ↦ []
  | some c ↦ map (λ t. t.id) (filter (λ t. criterion_applies c t) teams)
]

abbrev pub line_key : ScoringMode → String → String → String
line_key team item_id line_id = cell_key item_id line_id
line_key criterion item_id line_id = cell_key line_id item_id
line_key pairwise item_id line_id = cell_key line_id item_id

unfoldable pub item_keys : ScoringMode → String → List Team → List Criterion → List String
item_keys mode item_id teams criteria =
    map (line_key mode item_id) (item_lines mode item_id teams criteria)

-- One round of the loop of `itemProgress`.
unfoldable pub count_row : Option LocalRow → ItemProgress → ItemProgress
count_row none p = p
count_row (some r) p = record p {
  done = if is_some r.value_x100 then p.done + 1 else p.done;
  pending = p.pending || r.dirty;
  error = p.error || truthy r.error;
}

unfoldable pub progress_from : Rows → List String → ItemProgress → ItemProgress
unfolding count_row
progress_from rows [] p = p
progress_from rows (k ∷ ks) p = progress_from rows ks (count_row (lookup k rows) p)

unfoldable pub item_progress :
    ScoringMode → String → List Team → List Criterion → Rows → ItemProgress
unfolding progress_from
item_progress mode item_id teams criteria rows =
    let keys = item_keys mode item_id teams criteria in
    progress_from rows keys
      (record { done = 0; total = length keys; pending = false; error = false })

pub record Overall : Type 0 where
  pub done : ℕ
  pub total : ℕ

unfoldable pub total_cells : List Team → List Criterion → ℕ
total_cells [] criteria = 0
total_cells (t ∷ ts) criteria = length (applicable criteria t) + total_cells ts criteria

unfoldable pub overall_progress : List Team → List Criterion → Rows → Overall
overall_progress teams criteria rows =
    let total = total_cells teams criteria in
    record { done = total - length (missing_cells teams criteria rows); total = total }
