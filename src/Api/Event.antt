-- ===== src/Api/Event.antt =====
-- web/src/api/types.ts: events, teams, criteria, judges and the score matrix. Identifiers are
-- texts; times, hundredths and counters are natural numbers; `T | null` and `x?: T` are options.
use platform_for_sudies.Common.{ℕ, String, Bool, List, Option}

pub data EventStatus : Type 0 where
  draft judging locked finalized published : EventStatus

pub data ScoringMode : Type 0 where
  team criterion pairwise : ScoringMode

-- `Winner`; the constructors are the tags `a`, `b` and `tie`.
pub data Winner : Type 0 where
  a b tie : Winner

pub data StageView : Type 0 where
  waiting leaderboard podium : StageView

pub data ChangeKind : Type 0 where
  scores status event composition alert judges presence stage : ChangeKind

pub record Track : Type 0 where
  pub id : String
  pub name : String

pub record Team : Type 0 where
  pub id : String
  pub name : String
  pub description : Option String
  pub track_id : Option String
  pub sort_order : ℕ

pub record Criterion : Type 0 where
  pub id : String
  pub name : String
  pub description : Option String
  pub max_x100 : ℕ
  pub step_x100 : ℕ
  pub weight : ℕ
  pub track_id : Option String
  pub sort_order : ℕ

pub record JudgeSummary : Type 0 where
  pub id : String
  pub name : String
  pub is_active : Bool
  pub submitted_at : Option ℕ
  pub last_seen_at : Option ℕ
  pub pending_count : ℕ
  pub scored_count : ℕ

pub record JudgeTeamPair : Type 0 where
  pub judge_id : String
  pub team_id : String

pub record MatrixCell : Type 0 where
  pub judge_id : String
  pub team_id : String
  pub scored : ℕ
  pub total : ℕ
  pub assigned : Bool
  pub conflict : Bool

-- A team of the matrix.
pub record MatrixTeam : Type 0 where
  pub id : String
  pub name : String
  pub track_id : Option String

pub record Matrix : Type 0 where
  pub judges : List JudgeSummary
  pub teams : List MatrixTeam
  pub cells : List MatrixCell

pub data Visibility : Type 0 where
  hidden live_totals live_full : Visibility

pub data Normalization : Type 0 where
  unchanged centered : Normalization

pub data AlertAlign : Type 0 where
  left center : AlertAlign

pub record EventRecord : Type 0 where
  pub id : String
  pub title : String
  pub description : String
  pub starts_at : Option ℕ
  pub location : Option String
  pub status : EventStatus
  pub scoring_mode : ScoringMode
  pub notes_enabled : Bool
  pub visibility : Visibility
  pub quorum : ℕ
  pub teams_label : Option String
  pub teams_label_enabled : Bool
  pub criteria_label : Option String
  pub criteria_label_enabled : Bool
  pub alert_enabled : Bool
  pub alert_title : String
  pub alert_text : String
  pub alert_align : AlertAlign
  pub alert_button_text : String
  pub alert_version : ℕ
  pub background_url : Option String
  pub overlay_enabled : Bool
  pub overlay_color : String
  pub overlay_opacity : ℕ
  pub stage_view : StageView
  pub stage_top_n : ℕ
  pub stage_revealed : ℕ
  pub stage_track_id : Option String
  pub assignments_enabled : Option Bool
  pub parent_event_id : Option String
  pub round : ℕ
  pub normalization : Normalization
  pub locked_at : Option ℕ
  pub created_at : ℕ
  pub updated_at : ℕ

pub record EventFull : Type 0 where
  pub event : EventRecord
  pub teams : List Team
  pub criteria : List Criterion
  pub judges : List JudgeSummary
  pub tracks : List Track
  pub assignments : List JudgeTeamPair
  pub conflicts : List JudgeTeamPair
