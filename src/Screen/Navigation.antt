-- ===== src/Screen/Navigation.antt =====
-- web/src/features/judge/desk.tsx: the queue item and the line that the judge is at, and what the
-- hotkeys do there. An object that the source passes on is named by its identifier.
pub mod Laws
pub mod Hotkey
use platform_for_sudies.Common.{
  ℕ, zero, suc, String, Bool, true, false, not, ◌&&◌, ◌||◌, Option, none, some, List, map,
  if◌then◌else◌, str_eq, or_else, and_then, get_elem?, filter, any, flat_map, length, find, is_some,
  trim, is_empty, ltb, [], ◌∷◌,
}
use platform_for_sudies.Api.{
  Team, Criterion, Track, ScoringMode, team, criterion, pairwise, JudgeSession,
}
use platform_for_sudies.Tracks.{group_by_track, criterion_applies}
use platform_for_sudies.Scoring.Scale.{ScaleSpec, Scale, segmented, numeric, scale_of}
use platform_for_sudies.Scoring.Sheets.{item_lines}
use platform_for_sudies.Scoring.Status.{read_only_reason}
use platform_for_sudies.Screen.Hotkeys.{
  HotkeyActions, Delta, previous, next, Effect, no_effect, on_submit, on_item, on_line, on_position,
}

pub record Item : Type 0 where
  pub id : String
  pub name : String
  pub description : Option String
  pub track_id : Option String

-- `enabled && custom?.trim() ? custom.trim() : fallback`
unfoldable pub label : Bool → Option String → String → String
label enabled none fallback = fallback
label enabled (some custom) fallback =
    if enabled && not (is_empty (trim custom)) then trim custom else fallback

-- `event.scoring_mode === 'criterion' ? 'criterion' : 'team'`
abbrev pub desk_mode : ScoringMode → ScoringMode
desk_mode criterion = criterion
desk_mode team = team
desk_mode pairwise = team

abbrev pub mode_of : JudgeSession → ScoringMode
mode_of s = desk_mode s.event.scoring_mode

abbrev pub team_item : Team → Item
team_item t = record {
  id = t.id;
  name = t.name;
  description = t.description;
  track_id = t.track_id;
}

abbrev pub criterion_item : Criterion → Item
criterion_item c = record {
  id = c.id;
  name = c.name;
  description = c.description;
  track_id = c.track_id;
}

unfoldable pub raw_items : ScoringMode → List Team → List Criterion → List Item
raw_items team teams criteria = map team_item teams
raw_items _ teams criteria =
    map criterion_item (filter (λ c. any (λ t. criterion_applies c t) teams) criteria)

-- The queue is shown by track, and the navigation follows it.
unfoldable pub queue_items : JudgeSession → List Item
queue_items s =
    flat_map (λ g. g.rows)
      (group_by_track (λ i. i.track_id) (raw_items (mode_of s) s.teams s.criteria) s.tracks)

abbrev pub queue_ids : JudgeSession → List String
queue_ids s = map (λ i. i.id) (queue_items s)

-- The state `itemId` and `lineId`.
pub record Place : Type 0 where
  pub item_id : Option String
  pub line_id : Option String

-- `ids.findIndex((i) => i === id)`, where it is found.
unfoldable pub index_of : String → List String → Option ℕ
index_of id [] = none
index_of id (x ∷ xs) =
    let rest = and_then (index_of id xs) (λ i. some (suc i)) in
    if str_eq x id then some zero else rest

-- `Math.max(0, findIndex(…))`
unfoldable pub current_index : Option String → List String → ℕ
current_index id ids = or_else (and_then id (λ x. index_of x ids)) 0

-- `ids[index + delta]`
unfoldable pub at_delta : List String → ℕ → Delta → Option String
at_delta ids zero previous = none
at_delta ids (suc index) previous = get_elem? ids index
at_delta ids index next = get_elem? ids (suc index)

unfoldable pub current_item : JudgeSession → Place → Option String
current_item s p = get_elem? (queue_ids s) (current_index p.item_id (queue_ids s))

unfoldable pub lines : JudgeSession → Place → List String
lines s p = elim (current_item s p) [
  | none ↦ []
  | some item ↦ item_lines (mode_of s) item s.teams s.criteria
]

unfoldable pub current_line : JudgeSession → Place → Option String
current_line s p = get_elem? (lines s p) (current_index p.line_id (lines s p))

-- `if (!next) return`, else the item with no line chosen.
abbrev pub arrive : Option String → Place → Place
arrive none p = p
arrive (some id) p = record { item_id = some id; line_id = none }

unfoldable pub go_item : JudgeSession → Delta → Place → Place
go_item s delta p = arrive (at_delta (queue_ids s) (current_index p.item_id (queue_ids s)) delta) p

unfoldable pub go_line : JudgeSession → Delta → Place → Place
go_line s delta p = elim (at_delta (lines s p) (current_index p.line_id (lines s p)) delta) [
  | none ↦ p
  | some id ↦ record p { line_id = some id }
]

unfoldable pub jump : JudgeSession → String → String → Place
jump s team_id criterion_id = elim (mode_of s) [
  | team ↦ record { item_id = some team_id; line_id = some criterion_id }
  | _ ↦ record { item_id = some criterion_id; line_id = some team_id }
]

-- A choice in the queue.
unfoldable pub select : String → Place
select id = record { item_id = some id; line_id = none }

unfoldable pub is_last : JudgeSession → Place → Bool
is_last s p = not (ltb (suc (current_index p.item_id (queue_ids s))) (length (queue_ids s)))

-- The arguments of `controller.setScore`.
pub record ScoreCall : Type 0 where
  pub team_id : String
  pub criterion_id : String
  pub value : Option ℕ

unfoldable pub set_value : JudgeSession → Place → String → Option ℕ → Option ScoreCall
set_value s p line value = elim (current_item s p) [
  | none ↦ none
  | some item ↦ elim (mode_of s) [
    | team ↦ some (record { team_id = item; criterion_id = line; value = value })
    | _ ↦ some (record { team_id = line; criterion_id = item; value = value })
  ]
]

-- The criterion whose scale the line has: the line itself, or the item.
unfoldable pub line_criterion : JudgeSession → Place → Option Criterion
line_criterion s p = elim (mode_of s) [
  | team ↦ and_then (current_line s p) (λ id. find (λ c. str_eq c.id id) s.criteria)
  | _ ↦
      and_then (current_line s p)
        (λ line. and_then (current_item s p) (λ id. find (λ c. str_eq c.id id) s.criteria))
]

abbrev pub spec_of : Criterion → ScaleSpec
spec_of c = record { max_x100 = c.max_x100; step_x100 = c.step_x100 }

abbrev pub active_scale : JudgeSession → Place → Option Scale
active_scale s p = and_then (line_criterion s p) (λ c. some (scale_of (spec_of c)))

abbrev pub positions_of : Option Scale → ℕ
positions_of none = 0
positions_of (some numeric) = 0
positions_of (some (segmented values)) = length values

abbrev pub is_read_only : JudgeSession → Bool
is_read_only s = is_some (read_only_reason s.event.status s.judge.submitted_at)

-- The dialogs that are open over the desk, and the alert last seen.
pub record Overlays : Type 0 where
  pub submit_open : Bool
  pub queue_open : Bool
  pub seen_alert : ℕ

unfoldable pub alert_open : JudgeSession → Overlays → Bool
alert_open s o = s.event.alert.enabled && ltb o.seen_alert s.event.alert.version

unfoldable pub dismiss_alert : JudgeSession → Overlays → Overlays
dismiss_alert s o = record o { seen_alert = s.event.alert.version }

unfoldable pub open_submit : JudgeSession → Overlays → Overlays
open_submit s o = if is_read_only s then o else record o { submit_open = true }

unfoldable pub hotkey_actions : JudgeSession → Place → Overlays → HotkeyActions
hotkey_actions s p o = record {
  enabled = not o.submit_open && not (alert_open s o) && not o.queue_open;
  positions = if is_read_only s then 0 else positions_of (active_scale s p);
}

-- `activeScale.values[index] ?? null`, stored for the line.
unfoldable pub scale_call :
    JudgeSession → Place → ℕ → Option Scale → Option String → Option ScoreCall
scale_call s p index (some (segmented values)) (some line) =
    set_value s p line (get_elem? values index)
scale_call s p index _ _ = none

unfoldable pub on_scale_position : JudgeSession → Place → ℕ → Option ScoreCall
on_scale_position s p index = scale_call s p index (active_scale s p) (current_line s p)

-- Where a hotkey leaves the desk, and the score it stores.
pub record Pressed : Type 0 where
  pub place : Place
  pub overlays : Overlays
  pub call : Option ScoreCall

unfoldable pub press : JudgeSession → Place → Overlays → Effect → Pressed
press s p o no_effect = record { place = p; overlays = o; call = none }
press s p o on_submit = record { place = p; overlays = open_submit s o; call = none }
press s p o (on_item delta) = record { place = go_item s delta p; overlays = o; call = none }
press s p o (on_line delta) = record { place = go_line s delta p; overlays = o; call = none }
press s p o (on_position index) = record {
  place = p;
  overlays = o;
  call = on_scale_position s p index;
}
