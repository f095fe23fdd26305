-- ===== src/Desk/Edits.antt =====
-- The judge's actions of web/src/features/judge/controller.ts: scores, notes, decisions, dismissing
-- and retrying rejected rows, and asking for more pairs.
use platform_for_sudies.Common.{
  ℕ, ◌+◌, String, Bool, true, false, not, ◌&&◌, ◌||◌, Option, none, some, [], ◌∷◌, if◌then◌else◌,
  is_some, leb, length, truthy, lookup, is_nil,
}
use platform_for_sudies.Api.{
  JudgeSession, ScoringMode, team, criterion, pairwise, Winner, EventStatus, judging,
}
use platform_for_sudies.Scoring.Rows.{
  LocalRow, Rows, Patch, apply_edit, item_note, apply_note, changes_note,
}
use platform_for_sudies.Scoring.Sheet.{dismiss_outside_sheet, rejected_outside_sheet}
use platform_for_sudies.Scoring.Sheets.{item_keys}
use platform_for_sudies.Scoring.Guards.{is_retryable}
use platform_for_sudies.Pairwise.{
  LocalComparison, Comparisons, decide, open_comparisons, reserve_low, reserve_target,
}
use platform_for_sudies.Desk.{
  Desk, Identity, reserve_job, enqueue, persist, persist_comparisons, editable, flush,
}

abbrev pub arm_flush : Desk → Desk
arm_flush d = record d { timers = record (d.timers) { flush = true } }

abbrev pub is_pairwise : ScoringMode → Bool
is_pairwise pairwise = true
is_pairwise team = false
is_pairwise criterion = false

-- The item that a score belongs to.
abbrev pub item_of : ScoringMode → String → String → String
item_of team team_id criterion_id = team_id
item_of criterion team_id criterion_id = criterion_id
item_of pairwise team_id criterion_id = criterion_id

-- `{ ...r, error: undefined }` for the rows that may be sent again.
unfoldable pub retried_row : EventStatus → LocalRow → LocalRow
retried_row status r =
    if truthy r.error && is_retryable r.error status then record r { error = none } else r

unfoldable pub retried_rows : EventStatus → Rows → Rows
retried_rows status [] = []
retried_rows status ((k, r) ∷ rows) = (k, retried_row status r) ∷ retried_rows status rows

unfoldable pub retried_comparison : EventStatus → LocalComparison → LocalComparison
retried_comparison status c =
    if truthy c.error && is_retryable c.error status then record c { error = none } else c

unfoldable pub retried_comparisons : EventStatus → Comparisons → Comparisons
retried_comparisons status [] = []
retried_comparisons status ((id, c) ∷ cs) =
    (id, retried_comparison status c) ∷ retried_comparisons status cs

module _ (is : Identity) where
  unfoldable pub commit : Rows → Desk → Desk
  unfolding persist
  commit rows d =
      let d' = record d { state = record (d.state) { rows = rows; sync_error = none } } in
      arm_flush (persist is d.state.rows rows none d')

  unfoldable pub score_session : Option JudgeSession → String → String → Option ℕ → ℕ → Desk → Desk
  score_session none team_id criterion_id value now d = d
  score_session (some s) team_id criterion_id value now d =
      let mode = s.event.scoring_mode in
      let keys = item_keys mode (item_of mode team_id criterion_id) s.teams s.criteria in
      let note = item_note d.state.rows keys in
      let patch : Patch = record { value_x100 = some value; note = none } in
      commit (apply_edit d.state.rows team_id criterion_id patch note now) d

  unfoldable pub set_score : String → String → Option ℕ → ℕ → Desk → Desk
  unfolding score_session commit
  set_score team_id criterion_id value now d =
      score_session (editable d) team_id criterion_id value now d

  unfoldable pub note_session : Option JudgeSession → String → String → ℕ → Desk → Desk
  note_session none item_id note now d = d
  note_session (some s) item_id note now d =
      let keys = item_keys s.event.scoring_mode item_id s.teams s.criteria in
      if changes_note d.state.rows keys note
      then commit (apply_note d.state.rows keys note now) d
      else d

  unfoldable pub set_note : String → String → ℕ → Desk → Desk
  unfolding note_session commit
  set_note item_id note now d = note_session (editable d) item_id note now d

  unfoldable pub reserve_session : Option JudgeSession → ℕ → Bool → Desk → Desk
  reserve_session none count on_line d = d
  reserve_session (some s) count on_line d =
      if not (is_pairwise s.event.scoring_mode)
        || not (is_some (editable d))
        || not on_line
        || d.state.reserving
      then d
      else enqueue (reserve_job count) (record d { state = record (d.state) { reserving = true } })

  -- The guard of `reserve`; the job runs later.
  unfoldable pub reserve : ℕ → Bool → Desk → Desk
  unfolding reserve_session
  reserve count on_line d = reserve_session d.state.session count on_line d

  unfoldable pub ensure_reserve : Bool → Desk → Desk
  ensure_reserve on_line d =
      if leb reserve_low (length (open_comparisons d.state.comparisons))
        || d.state.reserve_exhausted
      then d
      else reserve reserve_target on_line d

  unfoldable pub reserve_more : ℕ → Bool → Desk → Desk
  reserve_more extra on_line d =
      reserve (length (open_comparisons d.state.comparisons) + extra) on_line d

  -- `decide` gives back the same object exactly when the pair is not there.
  unfoldable pub decide_pair : String → Option Winner → ℕ → Bool → Desk → Desk
  unfolding persist_comparisons
  decide_pair id winner now on_line d =
      let prev = d.state.comparisons in
      let next = decide prev id winner now in
      if not (is_some (editable d)) || not (is_some (lookup id prev))
      then d
      else ensure_reserve on_line (
          arm_flush (
            persist_comparisons is prev next
              (record d { state = record (d.state) { comparisons = next; sync_error = none } })))

  -- `dismissOutsideSheet` gives back the same object exactly when no row is rejected outside the sheet.
  unfoldable pub dismiss_session : Option JudgeSession → Desk → Desk
  dismiss_session none d = d
  dismiss_session (some s) d =
      let prev = d.state.rows in
      let rows = dismiss_outside_sheet prev s.teams s.criteria in
      if is_nil (rejected_outside_sheet prev s.teams s.criteria)
      then d
      else persist is prev rows none (record d { state = record (d.state) { rows = rows } })

  unfoldable pub dismiss : Desk → Desk
  unfolding dismiss_session persist
  dismiss d = dismiss_session d.state.session d

  abbrev pub status_of : Option JudgeSession → EventStatus
  status_of none = judging
  status_of (some s) = s.event.status

  unfoldable pub retry_rejected : Desk → Desk
  unfolding commit persist_comparisons
  retry_rejected d =
      let status = status_of d.state.session in
      let d' = commit (retried_rows status d.state.rows) d in
      let parked = d'.state.comparisons in
      let comparisons = retried_comparisons status parked in
      flush (
        persist_comparisons is parked comparisons
          (record d' { state = record (d'.state) { comparisons = comparisons } }))
