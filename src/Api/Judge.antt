-- ===== src/Api/Judge.antt =====
-- web/src/api/types.ts: what the judge's desk sends and receives.
use platform_for_sudies.Common.{ℕ, String, Bool, List, Option}
use platform_for_sudies.Api.Event.{
  EventStatus, ScoringMode, Winner, Team, Criterion, Track, AlertAlign,
}

pub record JudgeAlert : Type 0 where
  pub enabled : Bool
  pub title : String
  pub text : String
  pub align : AlertAlign
  pub button_text : String
  pub version : ℕ

pub record Overlay : Type 0 where
  pub enabled : Bool
  pub color : String
  pub opacity : ℕ

pub record JudgeSessionEvent : Type 0 where
  pub id : String
  pub title : String
  pub description : String
  pub status : EventStatus
  pub scoring_mode : ScoringMode
  pub notes_enabled : Bool
  pub locked_at : Option ℕ
  pub teams_label : Option String
  pub teams_label_enabled : Bool
  pub criteria_label : Option String
  pub criteria_label_enabled : Bool
  pub alert : JudgeAlert
  pub background_url : Option String
  pub overlay : Overlay

pub record JudgeScoreRecord : Type 0 where
  pub team_id : String
  pub criterion_id : String
  pub value_x100 : ℕ
  pub note : Option String
  pub edited_at : ℕ

pub record ComparisonRecord : Type 0 where
  pub id : String
  pub team_a : String
  pub team_b : String
  pub winner : Option Winner
  pub edited_at : Option ℕ

-- The `judge` of a session and of the submission responses.
pub record SessionJudge : Type 0 where
  pub id : String
  pub name : String
  pub submitted_at : Option ℕ

pub record JudgeSession : Type 0 where
  pub judge : SessionJudge
  pub event : JudgeSessionEvent
  pub teams : List Team
  pub criteria : List Criterion
  pub tracks : List Track
  pub scores : List JudgeScoreRecord
  pub comparisons : Option (List ComparisonRecord)

pub record ScoreItem : Type 0 where
  pub team_id : String
  pub criterion_id : String
  pub value_x100 : Option ℕ
  pub note : Option String
  pub edited_at : ℕ

-- `ScoreResultStatus` and `ComparisonResultStatus`, which are the same three tags.
pub data ResultStatus : Type 0 where
  ok stale rejected : ResultStatus

-- The `server` copy of a stale score.
pub record ServerScore : Type 0 where
  pub value_x100 : Option ℕ
  pub note : Option String
  pub edited_at : ℕ

pub record ScoreResult : Type 0 where
  pub team_id : String
  pub criterion_id : String
  pub status : ResultStatus
  pub error : Option String
  pub server : Option ServerScore

pub record ComparisonItem : Type 0 where
  pub id : String
  pub winner : Option Winner
  pub edited_at : ℕ

-- The `server` copy of a stale comparison.
pub record ServerComparison : Type 0 where
  pub winner : Option Winner
  pub edited_at : ℕ

pub record ComparisonResult : Type 0 where
  pub id : String
  pub status : ResultStatus
  pub error : Option String
  pub server : Option ServerComparison

abbrev pub sheet_format : String
sheet_format = "judgeflow-sheet/1"

pub record SheetFile : Type 0 where
  pub format : String
  pub event_id : String
  pub judge_id : String
  pub judge_name : String
  pub token : String
  pub exported_at : ℕ
  pub items : List ScoreItem
  pub comparisons : Option (List ComparisonItem)
