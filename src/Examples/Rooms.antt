-- ===== src/Examples/Rooms.antt =====
-- The control room: numbers, criteria, tracks, the distribution of judges, and a sheet from a file.
use mathlib.Core.List.{Perm}
use platform_for_sudies.Common.{
  ℕ, ◌/◌, String, Option, ap, pos, ◌<◌, ◌≤◌, true, false, not, ◌&&◌, none, some, List, [], ◌∷◌, ◌≡◌,
  refl, arith, if◌then◌else◌, str_eq, trim, sort_by,
}
use platform_for_sudies.Api.{
  EventFull, EventRecord, judging, team, hidden, unchanged, left, waiting, JudgeSummary, Team,
  Track, SheetFile, sheet_format,
}
use platform_for_sudies.Tracks.{group_by_track, contains, pair_key, pair_set}
use platform_for_sudies.Tracks.Partition.{rows_of, group_by_track-perm}
use platform_for_sudies.Format.{format_x100, decimal}
use platform_for_sudies.Format.RoundTrip.{parse_x100-format_x100, parse_x100-decimal}
use platform_for_sudies.Scoring.Draft.{parse_x100, replace_comma, hundredths}
use platform_for_sudies.Scoring.Scale.Laws.{IsScale}
use platform_for_sudies.Desk.{Desk, new_desk}
use platform_for_sudies.Desk.Session.{export_sheet, export_session}
use platform_for_sudies.Scoring.Outbox.{build_sheet, to_items}
use platform_for_sudies.ControlRoom.{assignment_pairs}
use platform_for_sudies.ControlRoom.Distribution.{
  Editor, open_editor, initial_assigned, assignments_on, grid_keys, toggle, toggle_assigned,
  is_all_off, in_set, pairs,
}
use platform_for_sudies.ControlRoom.Distribution.RoundTrip.{
  opened, assigned_clicked, IsStored, contains-open_editor-pairs, in_set_lem,
}
use platform_for_sudies.ControlRoom.SheetImport.{
  Decode, sheet_fields, parse_sheet, parsed, wrong_event, parse_sheet-export_sheet,
}
use platform_for_sudies.ControlRoom.Criteria.{
  CriterionForm, CriterionBody, body_scale, submit, open_form, own_body, submit-IsScale,
  submit-open_form,
}
use platform_for_sudies.Examples.Data.{team_one, criterion_one, session}

parse_x100-format_x100_example : parse_x100 (format_x100 (some (pos 705))) ≡ some 705
parse_x100-format_x100_example = parse_x100-format_x100 (some (pos 705))

abbrev halves_form : CriterionForm
halves_form = record {
  name = " Idea";
  description = "";
  max = "5";
  step = "0,5";
  weight = "2";
  track_id = none;
}

abbrev halves_body : CriterionBody
halves_body = record {
  name = "Idea";
  description = none;
  max_x100 = 500;
  step_x100 = 50;
  weight = 2;
  track_id = none;
}

-- A reader of whole numbers, by way of hundredths.
whole_hundreds : Option ℕ → Option ℕ
whole_hundreds none = none
whole_hundreds (some x) = some (x / 100)

abbrev whole_number : String → Option ℕ
whole_number s = whole_hundreds (parse_x100 s)

submit-IsScale_example : IsScale (body_scale halves_body) × (0 < 500) × (0 < 2) × (2 ≤ 1000)
unfolding submit whole_hundreds parse_x100 replace_comma hundredths trim
submit-IsScale_example = submit-IsScale whole_number halves_form halves_body refl

tens-IsScale : IsScale (record { max_x100 = 1000; step_x100 = 100 })
tens-IsScale = record { positive = omega arith; count = 10; whole = refl }

whole_number-decimal : (n : ℕ) → whole_number (decimal n "") ≡ some n
unfolding whole_hundreds
whole_number-decimal n = rw (parse_x100-decimal n) (ap some (omega arith))

submit-open_form_example :
    submit whole_number (open_form (some criterion_one)) ≡ some (own_body criterion_one)
unfolding trim
submit-open_form_example =
    submit-open_form whole_number criterion_one whole_number-decimal tens-IsScale refl (omega arith)
      (omega arith) (omega arith)

abbrev juniors : Track
juniors = record { id = "k1"; name = "Juniors" }

abbrev two_teams : List Team
two_teams = team_one ∷ record team_one { id = "t2"; track_id = some "k1" } ∷ []

group_by_track-perm_example :
    Perm
      (rows_of
        (λ (t : Team). t.track_id)
        (group_by_track (λ (t : Team). t.track_id) two_teams (juniors ∷ [])))
      two_teams
group_by_track-perm_example =
    group_by_track-perm (λ (t : Team). t.track_id) two_teams (juniors ∷ []) (refl, tt)

abbrev ann : JudgeSummary
ann = record {
  id = "j1";
  name = "Ann";
  is_active = true;
  submitted_at = none;
  last_seen_at = none;
  pending_count = 0;
  scored_count = 0;
}

-- An event in which everyone judges everything.
abbrev finals : EventRecord
finals = record {
  id = "e1";
  title = "Finals";
  description = "";
  starts_at = none;
  location = none;
  status = judging;
  scoring_mode = team;
  notes_enabled = true;
  visibility = hidden;
  quorum = 1;
  teams_label = none;
  teams_label_enabled = false;
  criteria_label = none;
  criteria_label_enabled = false;
  alert_enabled = false;
  alert_title = "";
  alert_text = "";
  alert_align = left;
  alert_button_text = "";
  alert_version = 0;
  background_url = none;
  overlay_enabled = false;
  overlay_color = "";
  overlay_opacity = 0;
  stage_view = waiting;
  stage_top_n = 3;
  stage_revealed = 0;
  stage_track_id = none;
  assignments_enabled = some false;
  parent_event_id = none;
  round = 1;
  normalization = unchanged;
  locked_at = none;
  created_at = 0;
  updated_at = 0;
}

abbrev full_event : EventFull
full_event = record {
  event = finals;
  teams = two_teams;
  criteria = criterion_one ∷ [];
  judges = ann ∷ [];
  tracks = juniors ∷ [];
  assignments = [];
  conflicts = [];
}

-- The judge is taken off the second team.
abbrev edited : Editor
edited = toggle_assigned full_event "j1:t2" (open_editor full_event)

abbrev stored_event : EventFull
stored_event = record full_event {
  event = record finals { assignments_enabled = some true };
  assignments = record { judge_id = "j1"; team_id = "t1" } ∷ [];
}

stored_event-IsStored : IsStored full_event edited stored_event
unfolding toggle_assigned toggle open_editor initial_assigned assignments_on grid_keys pairs
    assignment_pairs pair_key
stored_event-IsStored = record { teams = refl; judges = refl; assignments = refl; mode = refl }

contains-open_editor-pairs_example :
    contains "j1:t2" (open_editor stored_event).assigned ≡ contains "j1:t2" edited.assigned
unfolding toggle_assigned toggle open_editor initial_assigned assignments_on grid_keys pairs
    assignment_pairs pair_key pair_set is_all_off
contains-open_editor-pairs_example =
    contains-open_editor-pairs full_event stored_event "j1:t2" tt
      (assigned_clicked "j1:t2" refl opened) refl stored_event-IsStored

in_set_lem_example : in_set full_event edited "j1" "t1" ≡ (
    not (contains (pair_key "j1" "t1") edited.conflicts)
    && contains (pair_key "j1" "t1") edited.assigned)
unfolding grid_keys pair_key pair_set
in_set_lem_example = in_set_lem full_event "j1" "t1" tt (assigned_clicked "j1:t2" refl opened) refl

-- A desk with no scores, the sheet that it exports, and a reader that knows the one text.
abbrev exporting_desk : Desk
unfolding new_desk
exporting_desk = record (new_desk true) {
  state = record ((new_desk true).state) { session = some session };
}

abbrev exported : SheetFile
exported = record {
  format = sheet_format;
  event_id = "e1";
  judge_id = "j1";
  judge_name = "Ann";
  token = "secret";
  exported_at = 70;
  items = [];
  comparisons = none;
}

abbrev one_text : Decode
one_text text = if str_eq text "sheet" then some (some (sheet_fields exported)) else none

parse_sheet-export_sheet_example :
    parse_sheet one_text "sheet" "e2" ≡ (if str_eq "e1" "e2" then parsed exported else wrong_event)
unfolding export_sheet export_session build_sheet to_items sort_by new_desk
parse_sheet-export_sheet_example =
    parse_sheet-export_sheet one_text "sheet" exporting_desk session "secret" 70 exported "e2" refl
      refl refl
