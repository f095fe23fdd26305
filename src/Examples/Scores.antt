-- ===== src/Examples/Scores.antt =====
-- The rows of scores: edits, merges, the outbox and its answers.
use platform_for_sudies.Common.{
  false, ◌||◌, none, some, [], ◌∷◌, ◌≡◌, refl, lookup, and_then, if◌then◌else◌, insert, sort_by,
}
use platform_for_sudies.Scoring.Rows.{cell_key}
use platform_for_sudies.Scoring.Sheet.{merge_server, prune_outside_sheet}
use platform_for_sudies.Scoring.Sheet.Merge.{merged, last_for, lookup-merge_server}
use platform_for_sudies.Scoring.Sheet.Prune.{is_on_sheet, lookup-prune_outside_sheet}
use platform_for_sudies.Scoring.Outbox.{
  apply_results, pick_batch, sent_by_key, to_item, to_items, sent_from,
}
use platform_for_sudies.Scoring.Outbox.Batch.{IsPicked, pick_batch_oldest_first}
use platform_for_sudies.Scoring.Outbox.Results.{answered_cell, first_for, lookup-apply_results}
use platform_for_sudies.Scoring.Outbox.Leaving.{is_waiting, answered_leaves_outbox}
use platform_for_sudies.Examples.Data.{
  two_rows, two_rows-WellKeyed, team_one, criterion_one, newer_score, other_score, sent_item,
  ok_result,
}

lookup-merge_server_example :
    lookup "t1:c1" (merge_server two_rows (other_score ∷ newer_score ∷ []))
    ≡ merged (lookup "t1:c1" two_rows) (last_for "t1:c1" (other_score ∷ newer_score ∷ []))
lookup-merge_server_example =
    lookup-merge_server two_rows (other_score ∷ newer_score ∷ []) "t1:c1" two_rows-WellKeyed

lookup-prune_outside_sheet_example :
    lookup "t2:c1" (prune_outside_sheet two_rows (team_one ∷ []) (criterion_one ∷ []))
    ≡ and_then (lookup "t2:c1" two_rows) (λ row.
      if is_on_sheet "t2:c1" (team_one ∷ []) (criterion_one ∷ []) || row.dirty
      then some row
      else none)
lookup-prune_outside_sheet_example =
    lookup-prune_outside_sheet two_rows (team_one ∷ []) (criterion_one ∷ []) "t2:c1"
      two_rows-WellKeyed

lookup-apply_results_example :
    lookup "t1:c1" (apply_results two_rows (sent_item ∷ []) (ok_result ∷ [])).rows
    ≡ answered_cell
        (lookup "t1:c1" two_rows)
        (lookup "t1:c1" (sent_by_key (sent_item ∷ [])))
        (first_for "t1:c1" (ok_result ∷ []))
lookup-apply_results_example =
    lookup-apply_results two_rows (sent_item ∷ []) (ok_result ∷ []) "t1:c1"

pick_batch_oldest_first_example : IsPicked two_rows 1 (pick_batch two_rows 1)
pick_batch_oldest_first_example = pick_batch_oldest_first two_rows 1

answered_leaves_outbox_example :
    is_waiting
      (lookup "t1:c1" (apply_results two_rows (pick_batch two_rows 5) (ok_result ∷ [])).rows)
    ≡ false
unfolding cell_key lookup insert pick_batch to_items to_item sent_from sort_by
answered_leaves_outbox_example =
    answered_leaves_outbox two_rows 5 (ok_result ∷ []) "t1:c1" sent_item ok_result
      two_rows-WellKeyed refl refl
