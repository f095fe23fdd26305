-- ===== src/Examples/Screens.antt =====
-- What the judge sees: the scale, the progress, the indicator of the outbox.
use platform_for_sudies.Common.{true, ◌+◌, false, none, some, [], ◌∷◌, ◌≡◌, refl, length, arith}
use platform_for_sudies.Scoring.Scale.{ScaleSpec}
use platform_for_sudies.Scoring.Scale.Laws.{IsScale}
use platform_for_sudies.Scoring.Sheets.{overall_progress, missing_cells}
use platform_for_sudies.Scoring.Sheets.Laws.{scored_cells, overall_progress_lem}
use platform_for_sudies.Examples.Data.{two_rows, team_one, criterion_one}
use platform_for_sudies.Common.{sort_by, insert_by}
use platform_for_sudies.Api.{JudgeSession, team, a}
use platform_for_sudies.Tracks.{group_by_track, track_group, is_trackless, criterion_applies}
use platform_for_sudies.Scoring.Scale.{is_valid_value, scale_of, positions_from, resolve_digit}
use platform_for_sudies.Scoring.Sheets.{item_lines}
use platform_for_sudies.Scoring.Status.{read_only_reason}
use platform_for_sudies.Pairwise.{sorted_comparisons, current_pair, winner_for_key}
use platform_for_sudies.Screen.ScoreField.{after_events, typed, left, plus_clicked, shown}
use platform_for_sudies.Screen.ScoreField.Laws.{IsEntry, after_events-IsEntry, retyped_field}
use platform_for_sudies.Screen.Hotkeys.{KeyEvent, on_key, previous, next}
use platform_for_sudies.Screen.Navigation.{
  Place, Overlays, ScoreCall, line_criterion, current_line, current_item, lines, queue_items,
  raw_items, current_index, index_of, press, hotkey_actions, on_scale_position, scale_call,
  set_value, alert_open, at_delta, go_item,
}
use platform_for_sudies.Screen.Navigation.Hotkey.{IsProper, pressed_key-IsProper}
use platform_for_sudies.Screen.Navigation.Laws.{go_item_back}
use platform_for_sudies.Screen.Root.{
  forget, backup, confirm, on_click, after_clicks, asked, forgets_warned,
}
use platform_for_sudies.Screen.PairDesk.{
  PairView, IsShown, choose, on_key as pair_key_pressed, on_key_decides,
}
use platform_for_sudies.Examples.Data.{judge, event, session, two_pairs}

-- 0 to 2 points in steps of a half.
abbrev halves : ScaleSpec
halves = record { max_x100 = 200; step_x100 = 50 }

halves-IsScale : IsScale halves
halves-IsScale = record { positive = omega arith; count = 4; whole = refl }

overall_progress_lem_example :
    ((overall_progress (team_one ∷ []) (criterion_one ∷ []) two_rows).done
      ≡ scored_cells (team_one ∷ []) (criterion_one ∷ []) two_rows)
    × ((overall_progress (team_one ∷ []) (criterion_one ∷ []) two_rows).done
          + length (missing_cells (team_one ∷ []) (criterion_one ∷ []) two_rows)
        ≡ (overall_progress (team_one ∷ []) (criterion_one ∷ []) two_rows).total)
overall_progress_lem_example = overall_progress_lem (team_one ∷ []) (criterion_one ∷ []) two_rows

-- The judge clears the field, leaves it, and clicks plus.
after_events-IsEntry_example :
    IsEntry halves
      (after_events halves false
        (typed "" ∷ left ∷ plus_clicked ∷ [])
        (record { stored = some 150; draft = none })).stored
unfolding is_valid_value
after_events-IsEntry_example =
    after_events-IsEntry halves false halves-IsScale (typed "" ∷ left ∷ plus_clicked ∷ [])
      (record { stored = some 150; draft = none }) refl

retyped_field_example :
    after_events halves false
      (typed (shown (record { stored = some 150; draft = none })) ∷ left ∷ [])
      (record { stored = some 150; draft = none })
    ≡ record { stored = some 150; draft = none }
unfolding is_valid_value
retyped_field_example = retyped_field halves (some 150) refl

abbrev open_session : JudgeSession
open_session = record session {
  judge = record judge { submitted_at = none };
  teams = team_one ∷ record team_one { id = "t2" } ∷ [];
  event = record event { scoring_mode = team };
}

abbrev first_place : Place
first_place = record { item_id = none; line_id = none }

abbrev no_overlays : Overlays
no_overlays = record { submit_open = false; queue_open = false; seen_alert = 0 }

abbrev seven_key : KeyEvent
seven_key = record {
  key = "7";
  ctrl_key = false;
  meta_key = false;
  alt_key = false;
  default_prevented = false;
  typing = false;
  now = 0;
}

abbrev seven_points : ScoreCall
seven_points = record { team_id = "t1"; criterion_id = "c1"; value = some 700 }

tens-IsScale : IsScale (record { max_x100 = 1000; step_x100 = 100 })
tens-IsScale = record { positive = omega arith; count = 10; whole = refl }

pressed_key-IsProper_example : IsProper open_session criterion_one seven_points
unfolding line_criterion current_line current_item lines queue_items raw_items group_by_track
    track_group is_trackless current_index index_of item_lines criterion_applies press on_key
    hotkey_actions scale_of positions_from resolve_digit on_scale_position scale_call set_value
    read_only_reason alert_open
pressed_key-IsProper_example =
    pressed_key-IsProper open_session first_place no_overlays seven_key none criterion_one
      seven_points refl tens-IsScale refl

go_item_back_example :
    (current_item open_session (go_item open_session next first_place) ≡ some "t2")
    × (current_item open_session
          (go_item open_session previous (go_item open_session next first_place))
        ≡ some "t1")
unfolding current_item queue_items raw_items group_by_track track_group is_trackless current_index
    index_of at_delta
go_item_back_example =
    go_item_back open_session first_place next "t1" "t2" (refl, (refl, tt)) refl refl

abbrev pair_view : PairView
pair_view = record { chosen_id = none; submit_open = false }

on_key_decides_example :
    IsShown false two_pairs pair_view (record { id = "p2"; winner = some a })
    × (some a ≡ winner_for_key "ArrowLeft")
    × (false ≡ false)
    × (false ≡ false)
unfolding pair_key_pressed choose sorted_comparisons sort_by insert_by current_pair winner_for_key
on_key_decides_example =
    on_key_decides false false two_pairs (record seven_key { key = "ArrowLeft" }) pair_view
      (record { id = "p2"; winner = some a }) refl

-- The judge asks to forget two unsent edits, looks at the warning, takes the backup and confirms.
forgets_warned_example :
    (after_clicks false ((2, forget) ∷ (2, backup) ∷ []) ≡ true)
    × (confirm ≡ confirm)
    × (asked ((2, forget) ∷ (2, backup) ∷ []) ≡ true)
unfolding on_click
forgets_warned_example =
    forgets_warned ((2, forget) ∷ (2, backup) ∷ []) 2 confirm refl (omega arith)
