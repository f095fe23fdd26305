-- ===== src/Examples/Session.antt =====
-- The desk in a session: edits, a batch in flight, a refresh and the submission.
use platform_for_sudies.Common.{
  true, false, none, some, [], ◌∷◌, ◌≡◌, refl, lookup, arith, insert, select, sort_by, insert_by,
  Option, List, map,
}
use platform_for_sudies.Api.{SessionJudge, ScoreItem, ScoreResult, ok, b}
use platform_for_sudies.Client.{reply}
use platform_for_sudies.Scoring.Rows.{LocalRow, cell_key, apply_edit}
use platform_for_sudies.Scoring.Outbox.{apply_results, pick_batch, to_items, to_item, sent_from}
use platform_for_sudies.Scoring.Guards.{error_rows, pending_count, diff_rows}
use platform_for_sudies.Pairwise.{error_comparisons, pending_comparisons}
use platform_for_sudies.Pairwise.Outbox.{pick_comparison_batch}
use platform_for_sudies.Desk.{Desk, Identity, new_desk, flush, enqueue, persist}
use platform_for_sudies.Desk.Edits.{set_score, set_note, decide_pair}
use platform_for_sudies.Desk.Session.{
  submit, submit_flushed, await_flush, run_flush, rejected_count, unsent_count, Adopted,
  run_refresh,
}
use platform_for_sudies.Desk.Sync.{
  Environment, do_flush, flush_scores, flush_comparisons, receive_scores,
}
use platform_for_sudies.Desk.Refresh.{IsKept, run_refresh-IsKept}
use platform_for_sudies.Desk.InFlight.{score, none_yet, then_act, Matches, answers_match_sent}
use platform_for_sudies.Desk.ReadOnly.{IsOpen, IsSent, edits_need_open, submit_submitted}
use platform_for_sudies.Examples.Data.{
  unsent_row, second_pair, two_rows, two_rows-WellKeyed, sent_item, ok_result, judge, session,
}

abbrev never_same : Identity
never_same = record { same_row = λ r s. false; same_comparison = λ r s. false }

abbrev empty_desk : Desk
empty_desk = new_desk true

abbrev submitted_desk : Desk
unfolding new_desk
submitted_desk = record empty_desk { state = record (empty_desk.state) { session = some session } }

-- The judge clears the first score while its batch is in flight.
answers_match_sent_example :
    (row : LocalRow) × (lookup "t1:c1"
        (apply_edit two_rows "t1" "c1" (record { value_x100 = some none; note = none }) "" 4)
      ≡ some row)
    × Matches sent_item row (
        lookup "t1:c1"
          (apply_results
            (apply_edit two_rows "t1" "c1" (record { value_x100 = some none; note = none }) "" 4)
            (pick_batch two_rows 5)
            (ok_result ∷ [])).rows)
unfolding cell_key lookup insert pick_batch to_items to_item sent_from sort_by
answers_match_sent_example =
    answers_match_sent 5 (ok_result ∷ []) "t1:c1" sent_item two_rows-WellKeyed
      (then_act none_yet (score two_rows "t1" "c1" none "" 4)) refl

-- The judge's score, set later on another device under an old link.
abbrev later_row : LocalRow
later_row = record unsent_row { value_x100 = some 900; edited_at = 30 }

abbrev scored_desk : Desk
unfolding new_desk
scored_desk = record empty_desk {
  state = record (empty_desk.state) { rows = two_rows; comparisons = ("p2", second_pair) ∷ [] };
}

abbrev found_rows : Option Adopted
found_rows = some (record { rows = later_row ∷ []; comparisons = [] })

run_refresh-IsKept_example :
    IsKept
      (later_row ∷ [])
      unsent_row
      "t1:c1"
      (run_refresh never_same (reply session) found_rows true scored_desk).state.rows
unfolding lookup new_desk
run_refresh-IsKept_example =
    run_refresh-IsKept never_same unsent_row "t1:c1" (reply session) found_rows true scored_desk
      two_rows-WellKeyed (refl, tt) refl refl

abbrev ok_items : List ScoreItem → List ScoreResult
ok_items items =
    map
      (λ i. record {
        team_id = i.team_id;
        criterion_id = i.criterion_id;
        status = ok;
        error = none;
        server = none;
      })
      items

abbrev good_server : Environment
good_server = record {
  not_confirmed = λ n. "";
  put_scores = λ pass items d. (d, reply (ok_items items));
  put_comparisons = λ pass items d. (d, reply []);
}

-- A sheet with an unsent score, which the flush sends.
submit_submitted_example :
    IsSent (await_flush never_same good_server true (λ d. d) scored_desk)
    × ((accepted : SessionJudge) × (reply judge ≡ reply accepted))
unfolding submit submit_flushed await_flush run_flush do_flush flush_scores flush_comparisons
    receive_scores new_desk rejected_count error_rows error_comparisons unsent_count pending_count
    pending_comparisons flush enqueue pick_batch to_items to_item sort_by insert_by apply_results
    lookup insert cell_key sent_from persist diff_rows pick_comparison_batch select
submit_submitted_example =
    submit_submitted never_same good_server true (λ d. d) false (reply judge)
      (record { open_ids = none; missing_cells = none }) scored_desk refl

submitted_desk-closed : ¬ (IsOpen submitted_desk)
unfolding submitted_desk
submitted_desk-closed (s, e, j, n) = let same : some session ≡ some s = e in ground arith

edits_need_open_example :
    (set_score never_same "t1" "c1" (some 400) 50 submitted_desk ≡ submitted_desk)
    × (set_note never_same "t1" "good" 50 submitted_desk ≡ submitted_desk)
    × (decide_pair never_same "p1" (some b) 50 true submitted_desk ≡ submitted_desk)
edits_need_open_example =
    edits_need_open never_same submitted_desk "t1" "c1" "t1" "good" "p1" (some 400) (some b) 50 true
      submitted_desk-closed
