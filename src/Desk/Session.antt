-- ===== src/Desk/Session.antt =====
-- Refreshing, adopting, reserving and submitting in web/src/features/judge/controller.ts. The
-- results of the server and of the device storage are arguments.
use platform_for_sudies.Common.{
  ℕ, ◌+◌, min, String, Bool, true, false, ◌&&◌, Option, none, some, List, [], ◌∷◌, if◌then◌else◌,
  is_some, ltb, is_nil, length, lookup, insert, values,
}
use platform_for_sudies.Api.{
  JudgeSession, SessionJudge, ComparisonRecord, ComparisonItem, SheetFile, ScoringMode, team,
  criterion, pairwise,
}
use platform_for_sudies.Client.{ApiResult, reply, failed, Failure, is_status, error_text}
use platform_for_sudies.Scoring.Rows.{LocalRow, Rows, cell_key}
use platform_for_sudies.Scoring.Sheets.{Cell}
use platform_for_sudies.Scoring.Sheet.{merge_server, prune_outside_sheet}
use platform_for_sudies.Scoring.Guards.{adopted_wins, pending_count, error_rows}
use platform_for_sudies.Scoring.Outbox.{build_sheet}
use platform_for_sudies.Pairwise.{
  LocalComparison, Comparisons, adopted_comparison_wins, pending_comparisons, error_comparisons,
}
use platform_for_sudies.Pairwise.Merge.{merge_comparisons, add_reserved, next_ord}
use platform_for_sudies.Pairwise.Outbox.{backup_comparisons}
use platform_for_sudies.Desk.{
  Desk, loading, ready, revoked, Identity, persist, persist_comparisons, handle_refresh_error,
  handle_sync_error, flush, refresh,
}
use platform_for_sudies.Desk.Edits.{ensure_reserve}
use platform_for_sudies.Desk.Sync.{Environment, do_flush}

-- What `adoptOrphans` of the storage found under old tokens; `none` if it threw.
pub record Adopted : Type 0 where
  pub rows : List LocalRow
  pub comparisons : List LocalComparison

abbrev pub own_key : LocalRow → String
own_key r = cell_key r.team_id r.criterion_id

unfoldable pub adopt_rows : List LocalRow → Rows → Rows
adopt_rows [] rows = rows
adopt_rows (r ∷ rs) rows =
    adopt_rows rs
      (if adopted_wins (lookup (own_key r) rows) r then insert (own_key r) r rows else rows)

abbrev ord_of : Option LocalComparison → ℕ → ℕ
ord_of none ord = ord
ord_of (some c) ord = c.ord

-- The loop over the adopted decisions with its counter, which stands at the next free place.
unfoldable pub adopt_comparisons : List LocalComparison → Comparisons × ℕ → Comparisons × ℕ
adopt_comparisons [] st = st
adopt_comparisons (c ∷ cs) (rows, ord) =
    let old = lookup c.id rows in
    adopt_comparisons cs (
      if adopted_comparison_wins old c
      then (
        insert c.id (record c { ord = ord_of old ord }) rows,
        if is_some old then ord else ord + 1,
      )
      else (rows, ord))

abbrev pub merged_comparisons : Option (List ComparisonRecord) → Comparisons → Comparisons
merged_comparisons none local = local
merged_comparisons (some server) local = merge_comparisons local server

-- What a refresh makes of the rows.
abbrev pub refreshed_rows : JudgeSession → Rows → Rows
refreshed_rows session rows =
    prune_outside_sheet (merge_server rows session.scores) session.teams session.criteria

module _ (is : Identity) where
  unfoldable pub adopt_found : Option Adopted → Desk → Desk
  adopt_found none d = record d { adoption_done = false }
  adopt_found (some found) d =
      let prev = d.state.comparisons in
      let next = (adopt_comparisons found.comparisons (prev, next_ord (values prev))).0 in
      if is_nil found.rows && is_nil found.comparisons
      then record d { adoption_done = true }
      else flush (
          persist_comparisons is prev next (record d {
            adoption_done = true;
            state = record (d.state) {
              rows = adopt_rows found.rows d.state.rows;
              comparisons = next;
            };
          }))

  -- Once per start.
  unfoldable pub adopt_orphans : Option Adopted → Desk → Desk
  unfolding adopt_found adopt_rows adopt_comparisons persist_comparisons flush
  adopt_orphans found d = if d.adoption_done then d else adopt_found found d

  unfoldable pub store_session : JudgeSession → Desk → Desk
  unfolding persist persist_comparisons
  store_session session d =
      let prev = d.state.rows in
      let rows = refreshed_rows session prev in
      let prev_comparisons = d.state.comparisons in
      let comparisons = merged_comparisons session.comparisons prev_comparisons in
      persist_comparisons is prev_comparisons comparisons (
        persist is prev rows (some session) (record d {
          timers = record (d.timers) { refresh_retry = false };
          state = record (d.state) {
            session = some session;
            rows = rows;
            comparisons = comparisons;
            phase = ready;
            from_cache = false;
            failure = none;
            reserve_exhausted = false;
          };
        }))

  -- The job that `refresh` puts on the queue.
  unfoldable pub run_refresh : ApiResult JudgeSession → Option Adopted → Bool → Desk → Desk
  unfolding adopt_orphans store_session ensure_reserve
  run_refresh (failed e) found on_line d =
      handle_refresh_error e (record d { refresh_queued = false })
  run_refresh (reply session) found on_line d =
      ensure_reserve is on_line
        (store_session session (adopt_orphans found (record d { refresh_queued = false })))

  unfoldable pub want : ℕ → ℕ
  want count = min 20 count

  abbrev done_reserving : Desk → Desk
  done_reserving d = record d { state = record (d.state) { reserving = false } }

  unfoldable pub store_reserved : ℕ → ApiResult (List ComparisonRecord) → Desk → Desk
  unfolding persist_comparisons
  store_reserved count (failed e) d = done_reserving (handle_sync_error e d)
  store_reserved count (reply reserved) d =
      let prev = d.state.comparisons in
      let next = add_reserved prev reserved in
      done_reserving (
        persist_comparisons is prev next (record d {
          state = record (d.state) {
            comparisons = next;
            reserve_exhausted = ltb (length reserved) (want count);
            sync_error = none;
          };
        }))

  -- The job that `reserve` puts on the queue: decisions go first.
  unfoldable pub run_reserve :
      Environment → ℕ → ApiResult (List ComparisonRecord) → Bool → Desk → Desk
  unfolding do_flush store_reserved
  run_reserve env count res on_line d = store_reserved count res (do_flush is env on_line d).0

  unfoldable pub judged_session : Option JudgeSession → SessionJudge → Desk → Desk
  judged_session none judge d = d
  judged_session (some session) judge d =
      let next : JudgeSession = record session { judge = judge } in
      persist is d.state.rows d.state.rows (some next)
        (record d { state = record (d.state) { session = some next } })

  unfoldable pub set_submitted : SessionJudge → Desk → Desk
  unfolding judged_session persist
  set_submitted judge d = judged_session d.state.session judge d

-- The details of a refused submission, `open` and `missing` where they are lists.
pub record Details : Type 0 where
  pub open_ids : Option (List String)
  pub missing_cells : Option (List Cell)

pub data SubmitOutcome : Type 0 where
  submitted : SubmitOutcome
  not_sent : SubmitOutcome
  refused : ℕ → SubmitOutcome
  still_open : ℕ → SubmitOutcome
  still_missing : List Cell → SubmitOutcome
  error : String → SubmitOutcome

unfoldable pub details_outcome : Option (List String) → Option (List Cell) → Failure → SubmitOutcome
details_outcome (some ids) missing e = still_open (length ids)
details_outcome none (some cells) e = still_missing cells
details_outcome none none e = error (error_text e)

unfoldable pub submit_failure : Failure → Details → Desk → Desk × SubmitOutcome
unfolding details_outcome
submit_failure e details d = (
  if is_status e 401 then record d { state = record (d.state) { phase = revoked } } else d,
  if is_status e 409
      then details_outcome details.open_ids details.missing_cells e
      else error (error_text e),
)

-- The rejected rows and decisions.
unfoldable pub rejected_count : Desk → ℕ
rejected_count d = length (error_rows d.state.rows) + length (error_comparisons d.state.comparisons)

unfoldable pub unsent_count : Desk → ℕ
unsent_count d = pending_count d.state.rows + pending_comparisons d.state.comparisons

-- The job that `flush` puts on the queue.
unfoldable pub run_flush : Identity → Environment → Bool → Desk → Desk
unfolding do_flush
run_flush is env on_line d = (do_flush is env on_line (record d { flush_queued = false })).0

unfoldable pub submit_answered :
    Identity → Bool → ApiResult SessionJudge → Details → Desk → Desk × SubmitOutcome
submit_answered is release (failed e) info d = submit_failure e info d
submit_answered is release (reply judge) info d =
    let d' = set_submitted is judge d in (if release then refresh d' else d', submitted)

-- `submit` after its flush, with the server's answer, which is read only if the guards pass.
unfoldable pub submit_flushed :
    Identity → Bool → ApiResult SessionJudge → Details → Desk → Desk × SubmitOutcome
unfolding submit_answered submit_failure
submit_flushed is release res info d =
    if ltb 0 (rejected_count d)
    then (d, refused (rejected_count d))
    else if ltb 0 (unsent_count d)
    then (d, not_sent)
    else submit_answered is release res info d

-- `await this.flush()`: `ahead` is what happens to the desk until the queue comes to the flush.
unfoldable pub await_flush : Identity → Environment → Bool → (Desk → Desk) → Desk → Desk
unfolding run_flush flush
await_flush is env on_line ahead d = run_flush is env on_line (ahead (flush d))

unfoldable pub submit :
    Identity
    → Environment
    → Bool
    → (Desk → Desk)
    → Bool
    → ApiResult SessionJudge
    → Details
    → Desk
    → Desk × SubmitOutcome
unfolding submit_flushed await_flush
submit is env on_line ahead release res info d =
    submit_flushed is release res info (await_flush is env on_line ahead d)

unfoldable pub unsubmit : Identity → ApiResult SessionJudge → Details → Desk → Desk × SubmitOutcome
unfolding submit_failure
unsubmit is (failed e) info d = submit_failure e info d
unsubmit is (reply judge) info d = (set_submitted is judge d, submitted)

abbrev pub exported_comparisons : ScoringMode → Comparisons → Option (List ComparisonItem)
exported_comparisons pairwise c = some (backup_comparisons c)
exported_comparisons team c = none
exported_comparisons criterion c = none

unfoldable pub export_session : Option JudgeSession → String → ℕ → Desk → Option SheetFile
export_session none token now d = none
export_session (some s) token now d = some (
    build_sheet s token d.state.rows now
      (exported_comparisons s.event.scoring_mode d.state.comparisons))

unfoldable pub export_sheet : String → ℕ → Desk → Option SheetFile
unfolding export_session
export_sheet token now d = export_session d.state.session token now d

-- `recheck` leaves the revoked screen and refreshes.
unfoldable pub recheck : Desk → Desk
recheck d = refresh (record d {
  state = record (d.state) { phase = if is_some d.state.session then ready else loading };
})
