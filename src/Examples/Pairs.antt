-- ===== src/Examples/Pairs.antt =====
-- The pairs of a pairwise event: decisions, merges, reservations and the outbox.
use platform_for_sudies.Common.{none, some, [], ◌∷◌, ◌≡◌, lookup}
use platform_for_sudies.Api.{ComparisonItem, ComparisonResult, ok, a}
use platform_for_sudies.Pairwise.Merge.{merge_comparisons}
use platform_for_sudies.Pairwise.Merge.Laws.{decision, merged, last_for, decision-merge_comparisons}
use platform_for_sudies.Pairwise.Outbox.{apply_comparison_results, sent_by_id}
use platform_for_sudies.Pairwise.Outbox.Laws.{
  answered_pair, first_for, lookup-apply_comparison_results,
}
use platform_for_sudies.Examples.Data.{two_pairs, two_pairs-WellKeyed, second_record, third_record}

decision-merge_comparisons_example :
    decision (lookup "p2" (merge_comparisons two_pairs (second_record ∷ third_record ∷ [])))
    ≡ merged (lookup "p2" two_pairs) (last_for "p2" (second_record ∷ third_record ∷ []))
decision-merge_comparisons_example =
    decision-merge_comparisons two_pairs (second_record ∷ third_record ∷ []) "p2"
      two_pairs-WellKeyed

abbrev sent_pair : ComparisonItem
sent_pair = record { id = "p1"; winner = some a; edited_at = 10 }

abbrev ok_pair : ComparisonResult
ok_pair = record { id = "p1"; status = ok; error = none; server = none }

lookup-apply_comparison_results_example :
    lookup "p1" (apply_comparison_results two_pairs (sent_pair ∷ []) (ok_pair ∷ [])).comparisons
    ≡ answered_pair
        (lookup "p1" two_pairs)
        (lookup "p1" (sent_by_id (sent_pair ∷ [])))
        (first_for "p1" (ok_pair ∷ []))
lookup-apply_comparison_results_example =
    lookup-apply_comparison_results two_pairs (sent_pair ∷ []) (ok_pair ∷ []) "p1"
