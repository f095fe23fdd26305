-- ===== src/Scoring/Outbox.antt =====
-- web/src/features/judge/scoring.ts: the outbox, that is the batch to send and what the server's
-- answers do to the rows.
pub mod Batch
pub mod Keys
pub mod Results
pub mod Accounting
pub mod Leaving
pub mod Drain
use platform_for_sudies.Common.{
  ℕ, suc, ◌+◌, String, Bool, true, false, not, ◌&&◌, Option, none, some, List, [], ◌∷◌, map, Dict,
  lookup, insert, remove, keys, values, if◌then◌else◌, is_some, is_empty, str_eq, ◌==◌, truthy,
  filter, take, sort_by, length, or_else,
}
use platform_for_sudies.Api.{
  ScoreItem, ScoreResult, ResultStatus, ok, stale, rejected, ServerScore, SheetFile, JudgeSession,
  ComparisonItem, sheet_format,
}
use platform_for_sudies.I18n.{
  sheet_submitted_text, invalid_state_text, validation_text, not_assigned_text, not_found_text,
  fallback_text, stale_no_server_text,
}
use platform_for_sudies.Tracks.{contains}
use platform_for_sudies.Scoring.Rows.{LocalRow, Rows, cell_key}

abbrev pub batch_limit : ℕ
batch_limit = 100

-- The note that goes with a value: none when the score is cleared or the note is empty.
abbrev pub sent_note : Option ℕ → String → Option String
sent_note none note = none
sent_note (some v) note = if is_empty note then none else some note

unfoldable pub to_item : LocalRow → ScoreItem
to_item r = record {
  team_id = r.team_id;
  criterion_id = r.criterion_id;
  value_x100 = r.value_x100;
  note = sent_note r.value_x100 r.note;
  edited_at = r.edited_at;
}

unfoldable pub to_items : List LocalRow → List ScoreItem
to_items rows = map to_item (sort_by (λ r. r.edited_at) rows)

-- Dirty, and not parked after a rejection.
abbrev pub is_outgoing : LocalRow → Bool
is_outgoing r = r.dirty && not (truthy r.error)

unfoldable pub pick_batch : Rows → ℕ → List ScoreItem
pick_batch rows limit = take limit (to_items (filter is_outgoing (values rows)))

unfoldable pub build_sheet :
    JudgeSession → String → Rows → ℕ → Option (List ComparisonItem) → SheetFile
build_sheet session token rows now comparisons = record {
  format = sheet_format;
  event_id = session.event.id;
  judge_id = session.judge.id;
  judge_name = session.judge.name;
  token = token;
  exported_at = now;
  items = to_items (values rows);
  comparisons = comparisons;
}

unfoldable pub error_message : Option String → String
error_message none = fallback_text
error_message (some code) =
    if str_eq code "sheet_submitted"
    then sheet_submitted_text
    else if str_eq code "invalid_state"
    then invalid_state_text
    else if str_eq code "validation"
    then validation_text
    else if str_eq code "not_assigned"
    then not_assigned_text
    else if str_eq code "not_found"
    then not_found_text
    else fallback_text

pub record ApplyOutcome : Type 0 where
  pub rows : Rows
  pub ok : ℕ
  pub stale : ℕ
  pub rejected : ℕ
  pub unconfirmed : ℕ

abbrev pub item_key : ScoreItem → String
item_key s = cell_key s.team_id s.criterion_id

abbrev pub result_key : ScoreResult → String
result_key r = cell_key r.team_id r.criterion_id

-- `new Map(sent.map((s) => [keyOf(s), s]))`, on top of the entries so far.
unfoldable pub sent_from : Dict ScoreItem → List ScoreItem → Dict ScoreItem
sent_from m [] = m
sent_from m (s ∷ sent) = sent_from (insert (item_key s) s m) sent

abbrev pub sent_by_key : List ScoreItem → Dict ScoreItem
sent_by_key = sent_from []

abbrev pub is_unchanged : LocalRow → ScoreItem → Bool
is_unchanged row item = row.edited_at == item.edited_at

-- The row as the server has it.
abbrev pub stale_row : LocalRow → ServerScore → LocalRow
stale_row row server = record {
  team_id = row.team_id;
  criterion_id = row.criterion_id;
  value_x100 = server.value_x100;
  note = or_else server.note "";
  edited_at = server.edited_at;
  dirty = false;
  error = none;
}

-- The branches of the loop in `applyResults` for a row that is unchanged since it was sent.
unfoldable pub confirm_row : String → LocalRow → Rows → Rows
confirm_row k row rows =
    if is_some row.value_x100
    then insert k (record row { dirty = false; error = none }) rows
    else remove k rows

unfoldable pub settle_stale : String → LocalRow → Option ServerScore → ApplyOutcome → ApplyOutcome
settle_stale k row none out = record out {
  rows = insert k (record row { error = some stale_no_server_text }) out.rows;
  rejected = out.rejected + 1;
}
settle_stale k row (some server) out = record out {
  rows =
      if is_some server.value_x100
      then insert k (stale_row row server) out.rows
      else remove k out.rows;
  stale = out.stale + 1;
}

unfoldable pub settle_row :
    ResultStatus → String → LocalRow → ScoreResult → ApplyOutcome → ApplyOutcome
unfolding settle_stale confirm_row
settle_row ok k row res out = record out { rows = confirm_row k row out.rows; ok = out.ok + 1 }
settle_row stale k row res out = settle_stale k row res.server out
settle_row rejected k row res out = record out {
  rows = insert k (record row { error = some (error_message res.error) }) out.rows;
  rejected = out.rejected + 1;
}

-- The same for a row that changed or is gone: only an `ok` is counted.
abbrev pub settle_changed : ResultStatus → ApplyOutcome → ApplyOutcome
settle_changed ok out = record out { ok = out.ok + 1 }
settle_changed stale out = out
settle_changed rejected out = out

unfoldable pub settle :
    String → Option LocalRow → ScoreItem → ScoreResult → ApplyOutcome → ApplyOutcome
unfolding settle_row
settle k none item res out = settle_changed res.status out
settle k (some row) item res out =
    if is_unchanged row item
    then settle_row res.status k row res out
    else settle_changed res.status out

-- One round of the loop for the item of the answer's cell, with the `handled` set beside the outcome.
unfoldable pub answer_item :
    Option ScoreItem
    → String
    → ScoreResult
    → ApplyOutcome × List String
    → ApplyOutcome × List String
answer_item none k res st = st
answer_item (some item) k res (out, handled) =
    if contains k handled
    then (out, handled)
    else (settle k (lookup k out.rows) item res out, k ∷ handled)

unfoldable pub apply_result :
    Dict ScoreItem → ScoreResult → ApplyOutcome × List String → ApplyOutcome × List String
unfolding settle answer_item
apply_result sent res st = answer_item (lookup (result_key res) sent) (result_key res) res st

unfoldable pub apply_from :
    Dict ScoreItem → List ScoreResult → ApplyOutcome × List String → ApplyOutcome × List String
apply_from sent [] st = st
apply_from sent (res ∷ results) st = apply_from sent results (apply_result sent res st)

unfoldable pub apply_results : Rows → List ScoreItem → List ScoreResult → ApplyOutcome
unfolding apply_from apply_result
apply_results rows sent results =
    let (out, handled) =
      apply_from (sent_by_key sent) results
        (record { rows = rows; ok = 0; stale = 0; rejected = 0; unconfirmed = 0 }, []) in
    record out {
      unconfirmed = length (filter (λ k. not (contains k handled)) (keys (sent_by_key sent)));
    }
