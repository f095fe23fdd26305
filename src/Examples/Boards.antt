-- ===== src/Examples/Boards.antt =====
-- The organizer's lists, the stage, and the desk's queue.
use platform_for_sudies.Common.{true, false, none, some, List, [], ◌∷◌, ◌≡◌, All, count}
use platform_for_sudies.Api.{RankingRow}
use platform_for_sudies.Stage.{group_by_rank}
use platform_for_sudies.Stage.Groups.{IsWhole}
use platform_for_sudies.Stage.Laws.{IsRising, rows_in, is_ranked, group_by_rank_lem}
use platform_for_sudies.Desk.{Desk, Identity, new_desk}
use platform_for_sudies.Desk.Lifecycle.{
  start, stop, on_online, on_visibility, boot_loaded, boot_refresh, boot_open, Loaded,
  outlived_boot,
}
use platform_for_sudies.Desk.Queue.{IsTidy}
use platform_for_sudies.Desk.Queue.Steps.{
  here, then_step, starts, device_is_read, goes_online, is_looked_at, reached-IsTidy,
}
use platform_for_sudies.Sse.{new_parser, push, cut, push-done}
use platform_for_sudies.Examples.Data.{session, unsent_row}

abbrev second_place : RankingRow
second_place = record {
  wins = none;
  losses = none;
  ties = none;
  raw_score_x100 = none;
  track_id = none;
  rank = some 2;
  is_tie = false;
  team_id = "t1";
  team_name = "One";
  score_x100 = none;
  sheets = 1;
  meets_quorum = true;
  criteria = [];
  judges = [];
}

abbrev board : List RankingRow
board =
    second_place ∷ record second_place { rank = none } ∷ record second_place { rank = some 1 } ∷ []

group_by_rank_lem_example :
    IsRising (group_by_rank board)
    × All (IsWhole board) (group_by_rank board)
    × (rows_in (group_by_rank board) ≡ count is_ranked board)
group_by_rank_lem_example = group_by_rank_lem board

abbrev never_same : Identity
never_same = record { same_row = λ r s. false; same_comparison = λ r s. false }

abbrev first_desk : Desk
first_desk = new_desk true

abbrev loaded : Loaded
loaded = record { session = some session; rows = unsent_row ∷ []; comparisons = [] }

-- A started desk reads its device, comes online, and begins the refresh while the page is looked at.
reached-IsTidy_example :
    IsTidy (on_visibility true true (on_online (boot_loaded 1 (some loaded) (start first_desk))))
reached-IsTidy_example = reached-IsTidy {is = never_same} true (
    then_step
      (then_step
        (then_step (then_step here (starts first_desk))
          (device_is_read 1 (some loaded) (start first_desk)))
        (goes_online (boot_loaded 1 (some loaded) (start first_desk))))
      (is_looked_at true true (on_online (boot_loaded 1 (some loaded) (start first_desk)))))

outlived_boot_example :
    (boot_loaded (start first_desk).generation (some loaded) (stop (start first_desk))
      ≡ stop (start first_desk))
    × (boot_refresh (start first_desk).generation (stop (start first_desk))
        ≡ stop (start first_desk))
    × (boot_open (start first_desk).generation (stop (start first_desk)) ≡ stop (start first_desk))
    × (boot_loaded (start first_desk).generation (some loaded) (start (stop (start first_desk)))
        ≡ start (stop (start first_desk)))
    × (boot_refresh (start first_desk).generation (start (stop (start first_desk)))
        ≡ start (stop (start first_desk)))
    × (boot_open (start first_desk).generation (start (stop (start first_desk)))
        ≡ start (stop (start first_desk)))
outlived_boot_example = outlived_boot first_desk (some loaded)

push-done_example : cut (push "data: x\nda" new_parser).buffer ≡ none
push-done_example = push-done "data: x\nda" new_parser
