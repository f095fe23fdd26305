-- ===== src/Screen/SubmitDialog.antt =====
-- web/src/features/judge/submit-dialog.tsx: what stands in the way of submitting a sheet, by team or
-- by criterion, and what the dialog makes of the answer.
use platform_for_sudies.Common.{
  ℕ, String, Bool, true, false, not, ◌&&◌, Option, none, some, List, map, filter, any, find, is_nil,
  length, if◌then◌else◌, str_eq,
}
use platform_for_sudies.Api.{Team, Criterion, ScoringMode, team, criterion, pairwise, JudgeSession}
use platform_for_sudies.Scoring.Rows.{LocalRow, Rows}
use platform_for_sudies.Scoring.Sheets.{Cell, missing_cells}
use platform_for_sudies.Scoring.Guards.{error_rows}
use platform_for_sudies.Desk.Session.{
  SubmitOutcome, submitted, not_sent, refused, still_open, still_missing, error,
}
use platform_for_sudies.Screen.Navigation.{Place, jump}

abbrev pub by_team : ScoringMode → Bool
by_team team = true
by_team criterion = false
by_team pairwise = false

pub record CellGroup {ℓ} (A : Type ℓ) : Type ℓ where
  pub id : String
  pub name : String
  pub cells : List A

module _ {ℓ} {A : Type ℓ} (team_of criterion_of : A → String) where
  abbrev team_group : List A → Team → CellGroup A
  team_group cells t = record {
    id = t.id;
    name = t.name;
    cells = filter (λ m. str_eq (team_of m) t.id) cells;
  }

  abbrev criterion_group : List A → Criterion → CellGroup A
  criterion_group cells c = record {
    id = c.id;
    name = c.name;
    cells = filter (λ m. str_eq (criterion_of m) c.id) cells;
  }

  abbrev groups_of : Bool → List Team → List Criterion → List A → List (CellGroup A)
  groups_of true teams criteria cells = map (team_group cells) teams
  groups_of false teams criteria cells = map (criterion_group cells) criteria

abbrev pub missing : JudgeSession → Rows → List Cell
missing s rows = missing_cells s.teams s.criteria rows

unfoldable pub missing_groups : JudgeSession → Rows → List (CellGroup Cell)
missing_groups s rows =
    groups_of (λ m. m.team_id) (λ m. m.criterion_id) (by_team s.event.scoring_mode) s.teams
      s.criteria (missing s rows)

abbrev is_in_sheet : JudgeSession → LocalRow → Bool
is_in_sheet s r =
    any (λ t. str_eq t.id r.team_id) s.teams && any (λ c. str_eq c.id r.criterion_id) s.criteria

unfoldable pub rejected_cells : JudgeSession → Rows → List LocalRow
rejected_cells s rows = filter (is_in_sheet s) (error_rows rows)

unfoldable pub rejected_groups : JudgeSession → Rows → List (CellGroup LocalRow)
rejected_groups s rows =
    groups_of (λ r. r.team_id) (λ r. r.criterion_id) (by_team s.event.scoring_mode) s.teams
      s.criteria (rejected_cells s rows)

-- The line of a cell: its criterion where the groups are teams, else its team.
unfoldable pub name_of : JudgeSession → Cell → String
name_of s m =
    if by_team s.event.scoring_mode
    then elim (find (λ c. str_eq c.id m.criterion_id) s.criteria) [ none ↦ "" | some c ↦ c.name ]
    else elim (find (λ t. str_eq t.id m.team_id) s.teams) [ none ↦ "" | some t ↦ t.name ]

pub data Problem : Type 0 where
  not_yet_sent : Problem
  some_rejected some_missing : ℕ → Problem
  failure : String → Problem

pub record SubmitDialog : Type 0 where
  pub is_open : Bool
  pub busy : Bool
  pub problem : Option Problem

unfoldable pub change : Bool → SubmitDialog → SubmitDialog
change next d = record d { is_open = next; problem = if next then d.problem else none }

-- The dialog closes and the desk goes to the cell.
unfoldable pub pick : JudgeSession → Cell → SubmitDialog → SubmitDialog × Place
pick s m d = (change false d, jump s m.team_id m.criterion_id)

unfoldable pub begin_submit : SubmitDialog → SubmitDialog
begin_submit d = record d { busy = true; problem = none }

abbrev told : Problem → SubmitDialog → SubmitDialog
told p d = record d { busy = false; problem = some p }

-- A sheet of pairs, whose open pairs are refused, has a dialog of its own.
unfoldable pub end_submit : SubmitOutcome → SubmitDialog → SubmitDialog
end_submit submitted d = change false (record d { busy = false })
end_submit not_sent d = told not_yet_sent d
end_submit (refused n) d = told (some_rejected n) d
end_submit (still_open n) d = record d { busy = false }
end_submit (still_missing cells) d = told (some_missing (length cells)) d
end_submit (error text) d = told (failure text) d

unfoldable pub can_confirm : JudgeSession → Rows → SubmitDialog → Bool
can_confirm s rows d = is_nil (missing s rows) && is_nil (error_rows rows) && not d.busy
