-- ===== src/Pairwise/Outbox.antt =====
-- web/src/features/judge/pairwise.ts: the batch of decisions to send, what the answers do to the
-- decisions, what is written to the device, and the backup.
pub mod Laws
use platform_for_sudies.Common.{
  ℕ, suc, ◌+◌, String, Bool, true, false, not, ◌&&◌, Option, none, some, List, [], ◌∷◌, map, Dict,
  lookup, insert, remove, select, keys, values, has, if◌then◌else◌, or_else, is_some, str_eq, ◌==◌,
  truthy, filter, take, sort_by, length,
}
use platform_for_sudies.Api.{
  ComparisonItem, ComparisonResult, ResultStatus, ok, stale, rejected, ServerComparison,
}
use platform_for_sudies.I18n.{stale_no_server_text}
use platform_for_sudies.Tracks.{contains}
use platform_for_sudies.Scoring.Outbox.{error_message}
use platform_for_sudies.Pairwise.{LocalComparison, Comparisons, sorted_comparisons}

abbrev pub is_outgoing : LocalComparison → Bool
is_outgoing x = x.dirty && not (truthy x.error) && is_some x.edited_at

abbrev pub to_item : LocalComparison → ComparisonItem
to_item x = record { id = x.id; winner = x.winner; edited_at = or_else x.edited_at 0 }

unfoldable pub pick_comparison_batch : Comparisons → ℕ → List ComparisonItem
pick_comparison_batch c limit =
    map to_item (take limit (sort_by (λ x. or_else x.edited_at 0) (filter is_outgoing (values c))))

pub record ComparisonOutcome : Type 0 where
  pub comparisons : Comparisons
  pub ok : ℕ
  pub stale : ℕ
  pub rejected : ℕ
  pub unconfirmed : ℕ

-- `new Map(sent.map((s) => [s.id, s]))`
unfoldable pub sent_from : Dict ComparisonItem → List ComparisonItem → Dict ComparisonItem
sent_from m [] = m
sent_from m (s ∷ sent) = sent_from (insert s.id s m) sent

abbrev pub sent_by_id : List ComparisonItem → Dict ComparisonItem
sent_by_id = sent_from []

abbrev has_time : Option ℕ → ℕ → Bool
has_time none t = false
has_time (some s) t = s == t

abbrev pub is_unchanged : LocalComparison → ComparisonItem → Bool
is_unchanged row item = has_time row.edited_at item.edited_at

abbrev pub is_not_found : Option String → Bool
is_not_found none = false
is_not_found (some code) = str_eq code "not_found"

abbrev pub stale_row : LocalComparison → ServerComparison → LocalComparison
stale_row row server = record row {
  winner = server.winner;
  edited_at = some server.edited_at;
  dirty = false;
  error = none;
}

unfoldable pub settle_stale :
    LocalComparison → String → Option ServerComparison → ComparisonOutcome → ComparisonOutcome
settle_stale row id none out = record out {
  comparisons = insert id (record row { error = some stale_no_server_text }) out.comparisons;
  rejected = out.rejected + 1;
}
settle_stale row id (some server) out = record out {
  comparisons = insert id (stale_row row server) out.comparisons;
  stale = out.stale + 1;
}

unfoldable pub settle_rejected :
    LocalComparison → String → Option String → ComparisonOutcome → ComparisonOutcome
settle_rejected row id error out =
    if is_not_found error
    then record out { comparisons = remove id out.comparisons }
    else record out {
      comparisons = insert id (record row { error = some (error_message error) }) out.comparisons;
      rejected = out.rejected + 1;
    }

-- The branches of the loop for a row that is as it was sent.
unfoldable pub settle_row :
    ResultStatus → LocalComparison → ComparisonResult → ComparisonOutcome → ComparisonOutcome
unfolding settle_stale settle_rejected
settle_row ok row res out = record out {
  comparisons = insert res.id (record row { dirty = false; error = none }) out.comparisons;
  ok = out.ok + 1;
}
settle_row stale row res out = settle_stale row res.id res.server out
settle_row rejected row res out = settle_rejected row res.id res.error out

abbrev pub settle_changed : ResultStatus → ComparisonOutcome → ComparisonOutcome
settle_changed ok out = record out { ok = out.ok + 1 }
settle_changed stale out = out
settle_changed rejected out = out

unfoldable pub settle :
    Option LocalComparison
    → ComparisonItem
    → ComparisonResult
    → ComparisonOutcome
    → ComparisonOutcome
unfolding settle_row
settle none item res out = settle_changed res.status out
settle (some row) item res out =
    if is_unchanged row item
    then settle_row res.status row res out
    else settle_changed res.status out

-- The state of the loop: the outcome and the `handled` set.
abbrev pub Settling : Type 0
Settling = ComparisonOutcome × List String

unfoldable pub answer_item : Option ComparisonItem → ComparisonResult → Settling → Settling
answer_item none res st = st
answer_item (some item) res (out, handled) =
    if contains res.id handled
    then (out, handled)
    else (settle (lookup res.id out.comparisons) item res out, res.id ∷ handled)

unfoldable pub apply_from : Dict ComparisonItem → List ComparisonResult → Settling → Settling
apply_from sent [] st = st
apply_from sent (res ∷ results) st =
    apply_from sent results (answer_item (lookup res.id sent) res st)

unfoldable pub apply_comparison_results :
    Comparisons → List ComparisonItem → List ComparisonResult → ComparisonOutcome
unfolding apply_from answer_item settle
apply_comparison_results c sent results =
    let (out, handled) =
      apply_from (sent_by_id sent) results
        (record { comparisons = c; ok = 0; stale = 0; rejected = 0; unconfirmed = 0 }, []) in
    record out {
      unconfirmed = length (filter (λ k. not (contains k handled)) (keys (sent_by_id sent)));
    }

pub record ComparisonRef : Type 0 where
  pub id : String
  pub edited_at : Option ℕ

pub record ComparisonDiff : Type 0 where
  pub upserts : List LocalComparison
  pub deletes : List ComparisonRef

-- The entry of a decision that is gone.
abbrev pub comparison_ref : String × LocalComparison → ComparisonRef
comparison_ref entry = record { id = entry.0; edited_at = entry.1.edited_at }

abbrev pub differs :
    (LocalComparison → LocalComparison → Bool) → Option LocalComparison → LocalComparison → Bool
differs same none row = true
differs same (some old) row = not (same old row)

-- `same` is the identity of objects, as for `diff_rows`.
unfoldable pub diff_comparisons :
    (LocalComparison → LocalComparison → Bool) → Comparisons → Comparisons → ComparisonDiff
diff_comparisons same prev next = record {
  upserts = values (select (λ id row. differs same (lookup id prev) row) next);
  deletes = map comparison_ref (select (λ id row. not (has id next)) prev);
}

unfoldable pub backup_comparisons : Comparisons → List ComparisonItem
backup_comparisons c = map to_item (filter (λ x. is_some x.edited_at) (sorted_comparisons c))
