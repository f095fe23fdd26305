-- ===== src/Scoring/Outbox/Keys.antt =====
-- `applyResults` of web/src/features/judge/scoring.ts keeps every row under its own key.
use platform_for_sudies.Common.{
  String, false, Option, none, some, List, [], ◌∷◌, ◌≡◌, refl, lookup, insert, remove,
  lookup-IsDict, IsDict-insert, IsDict-remove, Dict, if-elim, is_some,
}
use platform_for_sudies.Api.{ScoreItem, ScoreResult, ResultStatus, ok, stale, rejected, ServerScore}
use platform_for_sudies.Tracks.{contains}
use platform_for_sudies.Scoring.Rows.{LocalRow, Rows}
use platform_for_sudies.Scoring.Rows.Laws.{IsOwnKey, WellKeyed}
use platform_for_sudies.Scoring.Outbox.{
  ApplyOutcome, result_key, sent_by_key, is_unchanged, stale_row, confirm_row, settle_stale,
  settle_row, settle_changed, settle, answer_item, apply_result, apply_from, apply_results,
}

module _ (k : String) (row : LocalRow) (own : IsOwnKey k row) where
  confirm_row-WellKeyed : (rows : Rows) → WellKeyed rows → WellKeyed (confirm_row k row rows)
  unfolding confirm_row
  confirm_row-WellKeyed rows w =
      if-elim WellKeyed (is_some row.value_x100)
        (insert k (record row { dirty = false; error = none }) rows) (remove k rows)
        (IsDict-insert IsOwnKey k _ rows own w) (IsDict-remove IsOwnKey k rows w)

  settle_stale-WellKeyed :
      (server : Option ServerScore) (out : ApplyOutcome)
      → WellKeyed out.rows
      → WellKeyed (settle_stale k row server out).rows
  unfolding settle_stale
  settle_stale-WellKeyed none out w = IsDict-insert IsOwnKey k _ out.rows own w
  settle_stale-WellKeyed (some server) out w =
      if-elim WellKeyed (is_some server.value_x100) (insert k (stale_row row server) out.rows)
        (remove k out.rows) (IsDict-insert IsOwnKey k _ out.rows own w)
        (IsDict-remove IsOwnKey k out.rows w)

  settle_row-WellKeyed :
      (status : ResultStatus) (res : ScoreResult) (out : ApplyOutcome)
      → WellKeyed out.rows
      → WellKeyed (settle_row status k row res out).rows
  unfolding settle_row
  settle_row-WellKeyed ok res out w = confirm_row-WellKeyed out.rows w
  settle_row-WellKeyed stale res out w = settle_stale-WellKeyed res.server out w
  settle_row-WellKeyed rejected res out w = IsDict-insert IsOwnKey k _ out.rows own w

settle_changed-WellKeyed :
    (status : ResultStatus) (out : ApplyOutcome)
    → WellKeyed out.rows
    → WellKeyed (settle_changed status out).rows
settle_changed-WellKeyed ok out w = w
settle_changed-WellKeyed stale out w = w
settle_changed-WellKeyed rejected out w = w

settle-WellKeyed :
    (k : String) (o : Option LocalRow) (item : ScoreItem) (res : ScoreResult) (out : ApplyOutcome)
    → ((row : LocalRow) → o ≡ some row → IsOwnKey k row)
    → WellKeyed out.rows
    → WellKeyed (settle k o item res out).rows
unfolding settle
settle-WellKeyed k none item res out own w = settle_changed-WellKeyed res.status out w
settle-WellKeyed k (some row) item res out own w =
    if-elim (λ (x : ApplyOutcome). WellKeyed x.rows) (is_unchanged row item)
      (settle_row res.status k row res out) (settle_changed res.status out)
      (settle_row-WellKeyed k row (own row refl) res.status res out w)
      (settle_changed-WellKeyed res.status out w)

abbrev AreWellKeyed : ApplyOutcome × List String → Type 0
AreWellKeyed st = WellKeyed st.0.rows

answer_item-WellKeyed :
    (o : Option ScoreItem) (k : String) (res : ScoreResult) (out : ApplyOutcome)
    (handled : List String)
    → WellKeyed out.rows
    → AreWellKeyed (answer_item o k res (out, handled))
unfolding answer_item
answer_item-WellKeyed none k res out handled w = w
answer_item-WellKeyed (some item) k res out handled w =
    if-elim AreWellKeyed (contains k handled) (out, handled)
      (settle k (lookup k out.rows) item res out, k ∷ handled) w
      (settle-WellKeyed k (lookup k out.rows) item res out
        (λ row. lookup-IsDict IsOwnKey k out.rows row w) w)

apply_result-WellKeyed :
    (sent : Dict ScoreItem) (res : ScoreResult) (out : ApplyOutcome) (handled : List String)
    → WellKeyed out.rows
    → AreWellKeyed (apply_result sent res (out, handled))
unfolding apply_result
apply_result-WellKeyed sent res out handled w =
    answer_item-WellKeyed (lookup (result_key res) sent) (result_key res) res out handled w

apply_from-WellKeyed :
    (sent : Dict ScoreItem) (results : List ScoreResult) (out : ApplyOutcome)
    (handled : List String)
    → WellKeyed out.rows
    → AreWellKeyed (apply_from sent results (out, handled))
unfolding apply_from
apply_from-WellKeyed sent [] out handled w = w
apply_from-WellKeyed sent (res ∷ results) out handled w =
    let (out', handled') = apply_result sent res (out, handled) in
    apply_from-WellKeyed sent results out' handled' (apply_result-WellKeyed sent res out handled w)

pub apply_results-WellKeyed :
    (rows : Rows) (sent : List ScoreItem) (results : List ScoreResult)
    → WellKeyed rows
    → WellKeyed (apply_results rows sent results).rows
unfolding apply_results
apply_results-WellKeyed rows sent results w = apply_from-WellKeyed (sent_by_key sent) results _ [] w
