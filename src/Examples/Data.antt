-- ===== src/Examples/Data.antt =====
-- Concrete rows, sheets and pairs that the examples share.
use platform_for_sudies.Common.{true, false, none, some, [], ◌∷◌, refl, lookup}
use platform_for_sudies.Api.{
  JudgeSession, SessionJudge, JudgeSessionEvent, judging, criterion, left, Team, Criterion,
  JudgeScoreRecord, ScoreItem, ScoreResult, ok, ComparisonRecord, a, b,
}
use platform_for_sudies.Scoring.Rows.{LocalRow, Rows, cell_key}
use platform_for_sudies.Scoring.Rows.Laws.{WellKeyed}
use platform_for_sudies.Pairwise.{LocalComparison, Comparisons}
use platform_for_sudies.Pairwise.Decide.{WellKeyed as PairsWellKeyed}

-- An unsent score and a score that the server confirmed.
abbrev pub unsent_row : LocalRow
unsent_row = record {
  team_id = "t1";
  criterion_id = "c1";
  value_x100 = some 500;
  note = "";
  edited_at = 10;
  dirty = true;
  error = none;
}

abbrev pub clean_row : LocalRow
clean_row = record {
  team_id = "t2";
  criterion_id = "c1";
  value_x100 = some 300;
  note = "fine";
  edited_at = 12;
  dirty = false;
  error = none;
}

abbrev pub two_rows : Rows
two_rows = ("t1:c1", unsent_row) ∷ ("t2:c1", clean_row) ∷ []

pub two_rows-WellKeyed : WellKeyed two_rows
unfolding lookup cell_key
two_rows-WellKeyed = (refl, refl, (refl, refl, tt))

abbrev pub team_one : Team
team_one = record { id = "t1"; name = "One"; description = none; track_id = none; sort_order = 0 }

abbrev pub criterion_one : Criterion
criterion_one = record {
  id = "c1";
  name = "Idea";
  description = none;
  max_x100 = 1000;
  step_x100 = 100;
  weight = 1;
  track_id = none;
  sort_order = 0;
}

abbrev pub newer_score : JudgeScoreRecord
newer_score = record {
  team_id = "t2";
  criterion_id = "c1";
  value_x100 = 700;
  note = none;
  edited_at = 20;
}

abbrev pub other_score : JudgeScoreRecord
other_score = record newer_score { team_id = "t1" }

abbrev pub sent_item : ScoreItem
sent_item = record {
  team_id = "t1";
  criterion_id = "c1";
  value_x100 = some 500;
  note = none;
  edited_at = 10;
}

abbrev pub ok_result : ScoreResult
ok_result = record { team_id = "t1"; criterion_id = "c1"; status = ok; error = none; server = none }

abbrev pub first_pair : LocalComparison
first_pair = record {
  id = "p1";
  team_a = "t1";
  team_b = "t2";
  winner = some a;
  edited_at = some 10;
  ord = 0;
  dirty = true;
  error = none;
}

abbrev pub second_pair : LocalComparison
second_pair = record first_pair {
  id = "p2";
  winner = none;
  edited_at = none;
  ord = 1;
  dirty = false;
}

abbrev pub two_pairs : Comparisons
two_pairs = ("p1", first_pair) ∷ ("p2", second_pair) ∷ []

pub two_pairs-WellKeyed : PairsWellKeyed two_pairs
unfolding lookup
two_pairs-WellKeyed = (refl, refl, (refl, refl, tt))

-- What the server lists: the second pair, decided elsewhere, and a pair that is new.
abbrev pub second_record : ComparisonRecord
second_record = record {
  id = "p2";
  team_a = "t1";
  team_b = "t2";
  winner = some b;
  edited_at = some 15;
}

abbrev pub third_record : ComparisonRecord
third_record = record second_record { id = "p3"; winner = none; edited_at = none }

abbrev pub judge : SessionJudge
judge = record { id = "j1"; name = "Ann"; submitted_at = some 40 }

abbrev pub event : JudgeSessionEvent
event = record {
  id = "e1";
  title = "Finals";
  description = "";
  status = judging;
  scoring_mode = criterion;
  notes_enabled = true;
  locked_at = none;
  teams_label = none;
  teams_label_enabled = false;
  criteria_label = none;
  criteria_label_enabled = false;
  alert = record {
    enabled = false;
    title = "";
    text = "";
    align = left;
    button_text = "";
    version = 0;
  };
  background_url = none;
  overlay = record { enabled = false; color = ""; opacity = 0 };
}

-- A submitted sheet.
abbrev pub session : JudgeSession
session = record {
  judge = judge;
  event = event;
  teams = team_one ∷ [];
  criteria = criterion_one ∷ [];
  tracks = [];
  scores = other_score ∷ [];
  comparisons = none;
}
