-- ===== src/Scoring/Outbox/Results.antt =====
-- `applyResults` of web/src/features/judge/scoring.ts, key by key.
use platform_for_sudies.Common.{
  String, false, ◌&&◌, ◌||◌, Option, none, some, List, [], ◌∷◌, ◌≡◌, ◌≢◌, refl, inl, inr, lookup,
  if◌then◌else◌, str_eq, eq_iff, arith, Option-cases, lookup-insert, lookup-remove, Dict, is_some,
}
use platform_for_sudies.Api.{ScoreItem, ScoreResult, ResultStatus, ok, stale, rejected, ServerScore}
use platform_for_sudies.I18n.{stale_no_server_text}
use platform_for_sudies.Tracks.{contains}
use platform_for_sudies.Scoring.Rows.{LocalRow, Rows}
use platform_for_sudies.Scoring.Outbox.{
  ApplyOutcome, result_key, sent_by_key, is_unchanged, stale_row, confirm_row, settle_stale,
  settle_row, settle_changed, settle, apply_result, apply_from, apply_results, error_message,
}

-- The answer that counts for a cell: the first one.
abbrev pub first_for : String → List ScoreResult → Option ScoreResult
first_for k [] = none
first_for k (r ∷ results) = if str_eq (result_key r) k then some r else first_for k results

abbrev confirmed : LocalRow → Option LocalRow
confirmed row =
    if is_some row.value_x100 then some (record row { dirty = false; error = none }) else none

abbrev overruled : LocalRow → Option ServerScore → Option LocalRow
overruled row none = some (record row { error = some stale_no_server_text })
overruled row (some server) =
    if is_some server.value_x100 then some (stale_row row server) else none

-- What an answer makes of a row that is as it was sent.
unfoldable pub answered : LocalRow → ScoreResult → Option LocalRow
answered row res = elim res.status [
  | ok ↦ confirmed row
  | stale ↦ overruled row res.server
  | rejected ↦ some (record row { error = some (error_message res.error) })
]

-- What an answer makes of a cell: nothing, unless the row is the version that was sent.
unfoldable pub settled : Option LocalRow → ScoreItem → ScoreResult → Option LocalRow
settled none item res = none
settled (some row) item res = if is_unchanged row item then answered row res else some row

lookup-settle_changed :
    (status : ResultStatus) (out : ApplyOutcome) → (settle_changed status out).rows ≡ out.rows
lookup-settle_changed ok out = refl
lookup-settle_changed stale out = refl
lookup-settle_changed rejected out = refl

lookup-settle_stale :
    (k j : String) (row : LocalRow) (server : Option ServerScore) (out : ApplyOutcome)
    → lookup j (settle_stale k row server out).rows
      ≡ (if str_eq k j then overruled row server else lookup j out.rows)
unfolding settle_stale
lookup-settle_stale k j row none out = lookup-insert k j _ out.rows
lookup-settle_stale k j row (some server) out =
    ground (arith, lookup-insert k j (stale_row row server) out.rows, lookup-remove k j out.rows)

lookup-confirm_row :
    (k j : String) (row : LocalRow) (rows : Rows)
    → lookup j (confirm_row k row rows) ≡ (if str_eq k j then confirmed row else lookup j rows)
unfolding confirm_row
lookup-confirm_row k j row rows = ground (
  arith,
  lookup-insert k j (record row { dirty = false; error = none }) rows,
  lookup-remove k j rows,
)

lookup-settle_row :
    (status : ResultStatus) (k j : String) (row : LocalRow) (res : ScoreResult) (out : ApplyOutcome)
    → status ≡ res.status
    → lookup j (settle_row status k row res out).rows
      ≡ (if str_eq k j then answered row res else lookup j out.rows)
unfolding settle_row answered
lookup-settle_row ok k j row res out e = ground (arith, lookup-confirm_row k j row out.rows)
lookup-settle_row stale k j row res out e =
    ground (arith, lookup-settle_stale k j row res.server out)
lookup-settle_row rejected k j row res out e =
    ground
      (arith, lookup-insert k j (record row { error = some (error_message res.error) }) out.rows)

lookup-settle :
    (k j : String) (o : Option LocalRow) (item : ScoreItem) (res : ScoreResult) (out : ApplyOutcome)
    → o ≡ lookup k out.rows
    → lookup j (settle k o item res out).rows
      ≡ (if str_eq k j then settled o item res else lookup j out.rows)
unfolding settle settled
lookup-settle k j none item res out e =
    ground (arith, lookup-settle_changed res.status out, eq_iff k j)
lookup-settle k j (some row) item res out e = ground (
  arith,
  lookup-settle_changed res.status out,
  eq_iff k j,
  lookup-settle_row res.status k j row res out refl,
)

-- What is left of a cell after the answers `results`, from the item sent for it.
abbrev pub answered_cell : Option LocalRow → Option ScoreItem → Option ScoreResult → Option LocalRow
answered_cell o none res = o
answered_cell o (some item) none = o
answered_cell o (some item) (some res) = settled o item res

lookup-apply_result :
    (sent : Dict ScoreItem) (res : ScoreResult) (out : ApplyOutcome) (handled : List String)
    (j : String)
    → lookup j (apply_result sent res (out, handled)).0.rows ≡ (
        if str_eq (result_key res) j
        then (if contains j handled
            then lookup j out.rows
            else answered_cell (lookup j out.rows) (lookup j sent) (some res))
        else lookup j out.rows)
unfolding apply_result
lookup-apply_result sent res out handled j = elim (Option-cases (lookup (result_key res) sent)) [
  | inl e ↦ ground (arith, eq_iff (result_key res) j)
  | inr (item, e) ↦ ground (
    arith,
    eq_iff (result_key res) j,
    lookup-settle (result_key res) j (lookup (result_key res) out.rows) item res out refl,
  )
]

contains-apply_result :
    (sent : Dict ScoreItem) (res : ScoreResult) (out : ApplyOutcome) (handled : List String)
    (j : String)
    → contains j (apply_result sent res (out, handled)).1
      ≡ (contains j handled || (str_eq (result_key res) j && is_some (lookup j sent)))
unfolding apply_result
contains-apply_result sent res out handled j = ground (arith, eq_iff (result_key res) j)

-- After the loop: a handled cell is as it was, any other has got its first answer.
lookup-apply_from :
    (sent : Dict ScoreItem) (results : List ScoreResult) (out : ApplyOutcome)
    (handled : List String) (j : String)
    → lookup j (apply_from sent results (out, handled)).0.rows ≡ (
        if contains j handled
        then lookup j out.rows
        else answered_cell (lookup j out.rows) (lookup j sent) (first_for j results))
unfolding apply_from
lookup-apply_from sent [] out handled j = ground arith
lookup-apply_from sent (res ∷ results) out handled j =
    let (out', handled') = apply_result sent res (out, handled) in
    ground (
      arith,
      lookup-apply_from sent results out' handled' j,
      lookup-apply_result sent res out handled j,
      contains-apply_result sent res out handled j,
    )

-- The answers to a batch leave in each cell the first answer to the version that was sent, and
-- nothing else of the answers.
pub lookup-apply_results :
    (rows : Rows) (sent : List ScoreItem) (results : List ScoreResult) (k : String)
    → lookup k (apply_results rows sent results).rows
      ≡ answered_cell (lookup k rows) (lookup k (sent_by_key sent)) (first_for k results)
unfolding apply_results
lookup-apply_results rows sent results k = lookup-apply_from (sent_by_key sent) results _ [] k

-- A row that was edited after it was sent survives every answer.
pub apply_results_keeps_edited :
    (rows : Rows) (sent : List ScoreItem) (results : List ScoreResult) (k : String) (row : LocalRow)
    → lookup k rows ≡ some row
    → ((item : ScoreItem)
        → lookup k (sent_by_key sent) ≡ some item
        → row.edited_at ≢ item.edited_at)
    → lookup k (apply_results rows sent results).rows ≡ some row
unfolding settled
apply_results_keeps_edited rows sent results k row e changed =
    elim (Option-cases (lookup k (sent_by_key sent))) [
      | inl n ↦ ground (arith, lookup-apply_results rows sent results k)
      | inr (item, i) ↦ ground (arith, lookup-apply_results rows sent results k, changed item i)
    ]
