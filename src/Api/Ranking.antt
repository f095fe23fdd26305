-- ===== src/Api/Ranking.antt =====
-- web/src/api/types.ts: rankings and what the stage and the public pages show.
use platform_for_sudies.Api.Event.{EventStatus, StageView, Track}
use platform_for_sudies.Api.Judge.{Overlay}
use platform_for_sudies.Common.{ℕ, ℤ, String, Bool, List, Option}

pub record CriterionAvg : Type 0 where
  pub criterion_id : String
  pub avg_x100 : Option ℤ

pub record JudgeScore : Type 0 where
  pub judge_id : String
  pub judge_name : String
  pub score_x100 : ℤ

-- `raw_score_x100` may be absent, null or a number: two layers of option.
pub record RankingRow : Type 0 where
  pub wins : Option ℕ
  pub losses : Option ℕ
  pub ties : Option ℕ
  pub raw_score_x100 : Option (Option ℤ)
  pub track_id : Option String
  pub rank : Option ℕ
  pub is_tie : Bool
  pub team_id : String
  pub team_name : String
  pub score_x100 : Option ℤ
  pub sheets : ℕ
  pub meets_quorum : Bool
  pub criteria : List CriterionAvg
  pub judges : List JudgeScore

pub data RankingMode : Type 0 where
  official provisional : RankingMode

pub record Ranking : Type 0 where
  pub mode : RankingMode
  pub quorum : ℕ
  pub rows : List RankingRow
  pub tracks : List Track

-- `Pick<Criterion, 'id' | 'name' | 'track_id'>`
pub record CriterionLabel : Type 0 where
  pub id : String
  pub name : String
  pub track_id : Option String

pub record PublicEvent : Type 0 where
  pub id : String
  pub title : String
  pub description : String
  pub status : EventStatus
  pub teams_label : Option String
  pub teams_label_enabled : Bool
  pub criteria_label : Option String
  pub criteria_label_enabled : Bool
  pub background_url : Option String
  pub overlay : Overlay
  pub criteria : Option (List CriterionLabel)

pub record PublicEventResponse : Type 0 where
  pub event : PublicEvent
  pub results : Option Ranking

pub record StageState : Type 0 where
  pub view : StageView
  pub top_n : ℕ
  pub revealed : ℕ
  pub total_groups : ℕ
  pub available : Bool
  pub track_id : Option String

pub record StageEvent : Type 0 where
  pub id : String
  pub title : String
  pub status : EventStatus
  pub background_url : Option String
  pub overlay : Overlay
  pub teams_label : Option String
  pub teams_label_enabled : Bool
  pub criteria_label : Option String
  pub criteria_label_enabled : Bool
  pub criteria : List CriterionLabel

pub record StageResponse : Type 0 where
  pub event : StageEvent
  pub stage : StageState
  pub tracks : List Track
  pub rows : List RankingRow
