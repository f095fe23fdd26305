-- ===== src/ControlRoom/Board.antt =====
-- web/src/lib/ranking.ts and the numbers of web/src/features/control-room/judges.tsx, results.tsx and
-- overview.tsx.
use platform_for_sudies.Common.{
  ℕ, ◌+◌, String, Bool, not, ◌||◌, Option, none, some, List, [], ◌∷◌, ◌++◌, map, any, filter, find,
  is_some, is_nil, or_else, and_then, length, str_eq, if◌then◌else◌, ◌≡◌, arith,
}
use platform_for_sudies.Api.{
  RankingRow, RankingMode, official, provisional, EventStatus, EventFull, MatrixCell,
}
use platform_for_sudies.Format.{format_x100, decimal}
use platform_for_sudies.Desk.Edits.{is_pairwise}
use platform_for_sudies.ControlRoom.{rounded}
use platform_for_sudies.ControlRoom.Distribution.{is_frozen}

unfoldable pub has_record : List RankingRow → Bool
has_record rows = any (λ r. is_some r.wins) rows

pub record Column : Type 0 where
  pub key : String
  pub label : String
  pub value : RankingRow → String

-- `String(row[key] ?? 0)`
abbrev pub counter : Option ℕ → String
counter o = decimal (or_else o 0) ""

-- The labels of `ru.ranking`.
pub record RecordLabels : Type 0 where
  pub wins : String
  pub ties : String
  pub losses : String

unfoldable pub record_columns : RecordLabels → List Column
record_columns labels =
    record { key = "wins"; label = labels.wins; value = λ row. counter row.wins }
    ∷ record { key = "ties"; label = labels.ties; value = λ row. counter row.ties }
    ∷ record { key = "losses"; label = labels.losses; value = λ row. counter row.losses }
    ∷ []

-- A criterion of the board: `{ id, name }`.
pub record BoardCriterion : Type 0 where
  pub id : String
  pub name : String

unfoldable pub average_text : String → RankingRow → String
average_text id row =
    format_x100 (and_then (find (λ x. str_eq x.criterion_id id) row.criteria) (λ x. x.avg_x100))

abbrev pub criterion_column : BoardCriterion → Column
criterion_column c = record { key = c.id; label = c.name; value = average_text c.id }

unfoldable pub board_columns : RecordLabels → List RankingRow → List BoardCriterion → List Column
board_columns labels rows criteria =
    if has_record rows
    then record_columns labels
    else if is_nil criteria || not (any (λ r. not (is_nil r.criteria)) rows)
    then []
    else map criterion_column criteria

-- The mode that the results open with, where none is picked.
unfoldable pub results_mode : Option RankingMode → EventStatus → RankingMode
results_mode picked status = or_else picked (if is_frozen status then official else provisional)

-- The sum of the judge's cells; each decided pair is counted for both of its teams.
abbrev pub scored_by : String → List MatrixCell → ℕ
scored_by judge_id [] = 0
scored_by judge_id (c ∷ cs) =
    let rest = scored_by judge_id cs in if str_eq c.judge_id judge_id then c.scored + rest else rest

unfoldable pub decided_by : Option (List MatrixCell) → String → ℕ
decided_by none judge_id = rounded 0 2
decided_by (some cells) judge_id = rounded (scored_by judge_id cells) 2

pub data ReadyItem : Type 0 where
  ready_teams ready_criteria ready_judges : ℕ → ReadyItem

-- The items of the readiness card with their counts.
unfoldable pub readiness : EventFull → List ReadyItem
readiness full =
    ready_teams (length full.teams)
      ∷ (if is_pairwise full.event.scoring_mode
          then []
          else ready_criteria (length full.criteria) ∷ [])
    ++ ready_judges (length (filter (λ j. j.is_active) full.judges)) ∷ []

-- Half of an even number of counts is exact.
pub decided_by_even :
    (cells : List MatrixCell) (judge_id : String) (n : ℕ)
    → scored_by judge_id cells ≡ n + n
    → decided_by (some cells) judge_id ≡ n
unfolding decided_by
decided_by_even cells judge_id n e = rw e (omega arith)
