-- ===== src/Desk.antt =====
-- web/src/features/judge/controller.ts: the state of the judge's desk, the queues and timers of the
-- controller, and what is written to the device.
pub mod Edits
pub mod Sync
pub mod Session
pub mod InFlight
pub mod Failures
pub mod Drain
pub mod Keys
pub mod Refresh
pub mod ReadOnly
pub mod Lifecycle
pub mod Queue
use platform_for_sudies.Common.{
  ℕ, ◌+◌, String, Bool, true, false, not, ◌&&◌, ◌||◌, Option, none, some, List, [], ◌∷◌, ◌++◌,
  if◌then◌else◌, is_some, is_nil, ◌==◌, insert,
}
use platform_for_sudies.Api.{JudgeSession}
use platform_for_sudies.Client.{Failure, error_text, is_status}
use platform_for_sudies.Scoring.Rows.{LocalRow, Rows}
use platform_for_sudies.Scoring.Guards.{RowRef, RowDiff, diff_rows}
use platform_for_sudies.Scoring.Status.{read_only_reason}
use platform_for_sudies.Pairwise.{LocalComparison, Comparisons}
use platform_for_sudies.Pairwise.Outbox.{ComparisonRef, ComparisonDiff, diff_comparisons}

pub data Phase : Type 0 where
  loading ready revoked failed : Phase

pub record DeskState : Type 0 where
  pub phase : Phase
  pub failure : Option String
  pub session : Option JudgeSession
  pub from_cache : Bool
  pub rows : Rows
  pub comparisons : Comparisons
  pub reserve_exhausted : Bool
  pub reserving : Bool
  pub online : Bool
  pub syncing : Bool
  pub sync_error : Option String
  pub storage_error : Option String
  pub storage_blocked : Bool

-- Which timers are armed.
pub record Timers : Type 0 where
  pub flush : Bool
  pub refresh : Bool
  pub refresh_retry : Bool
  pub retry : Bool
  pub heartbeat : Bool

-- A write that waits in `writes`.
pub data Write : Type 0 where
  save_rows : Option JudgeSession → List LocalRow → List RowRef → Write
  save_comparisons : List LocalComparison → List ComparisonRef → Write

-- A job of the serial queue.
pub data Job : Type 0 where
  flush_job : Job
  refresh_job : Job
  reserve_job : ℕ → Job

-- The controller: its state for the screen, and its private fields.
pub record Desk : Type 0 where
  pub state : DeskState
  pub timers : Timers
  pub writes : List Write
  pub queue : List Job
  pub flush_queued : Bool
  pub refresh_queued : Bool
  pub stream : Bool
  pub running : Bool
  pub generation : ℕ
  pub adoption_done : Bool

-- Which rows are the same object: see `diff_rows`.
pub record Identity : Type 0 where
  pub same_row : LocalRow → LocalRow → Bool
  pub same_comparison : LocalComparison → LocalComparison → Bool

abbrev pub initial_state : Bool → DeskState
initial_state on_line = record {
  phase = loading;
  failure = none;
  session = none;
  from_cache = false;
  rows = [];
  comparisons = [];
  reserve_exhausted = false;
  reserving = false;
  online = on_line;
  syncing = false;
  sync_error = none;
  storage_error = none;
  storage_blocked = false;
}

abbrev pub no_timers : Timers
no_timers = record {
  flush = false;
  refresh = false;
  refresh_retry = false;
  retry = false;
  heartbeat = false;
}

-- The controller after its constructor.
unfoldable pub new_desk : Bool → Desk
new_desk on_line = record {
  state = initial_state on_line;
  timers = no_timers;
  writes = [];
  queue = [];
  flush_queued = false;
  refresh_queued = false;
  stream = false;
  running = false;
  generation = 0;
  adoption_done = false;
}

unfoldable pub enqueue : Job → Desk → Desk
enqueue job d = record d { queue = d.queue ++ job ∷ [] }

module _ (is : Identity) where
  unfoldable pub persist : Rows → Rows → Option JudgeSession → Desk → Desk
  persist prev next session d =
      let diff = diff_rows is.same_row prev next in
      if is_nil diff.upserts && is_nil diff.deletes && not (is_some session)
      then d
      else record d { writes = d.writes ++ save_rows session diff.upserts diff.deletes ∷ [] }

  unfoldable pub persist_comparisons : Comparisons → Comparisons → Desk → Desk
  persist_comparisons prev next d =
      let diff = diff_comparisons is.same_comparison prev next in
      if is_nil diff.upserts && is_nil diff.deletes
      then d
      else record d { writes = d.writes ++ save_comparisons diff.upserts diff.deletes ∷ [] }

abbrev pub session_editable : Option JudgeSession → Option JudgeSession
session_editable none = none
session_editable (some s) =
    if is_some (read_only_reason s.event.status s.judge.submitted_at) then none else some s

unfoldable pub editable : Desk → Option JudgeSession
editable d = session_editable d.state.session

-- `refresh()` and `flush()`: at most one job of each kind waits.
unfoldable pub refresh : Desk → Desk
unfolding enqueue
refresh d = if d.refresh_queued then d else enqueue refresh_job (record d { refresh_queued = true })

unfoldable pub flush : Desk → Desk
unfolding enqueue
flush d =
    let d' = record d { timers = record (d.timers) { flush = false } } in
    if d.flush_queued then d' else enqueue flush_job (record d' { flush_queued = true })

unfoldable pub schedule_refresh : Desk → Desk
schedule_refresh d = record d { timers = record (d.timers) { refresh = true } }

abbrev pub offline_text : String
offline_text =
    "Нет связи с сервером, а на устройстве пока нет сохранённой копии листа. Подключитесь к сети и повторите."

unfoldable pub refresh_failed : Option JudgeSession → Failure → DeskState → DeskState
refresh_failed (some s) e st = record st { from_cache = true }
refresh_failed none e st = record st {
  phase = failed;
  failure = some (if is_status e 0 then offline_text else error_text e);
}

unfoldable pub handle_refresh_error : Failure → Desk → Desk
unfolding refresh_failed
handle_refresh_error e d =
    if is_status e 401
    then record d { state = record (d.state) { phase = revoked; syncing = false } }
    else record d {
      state = refresh_failed d.state.session e d.state;
      timers = record (d.timers) { refresh_retry = d.running };
    }

unfoldable pub handle_sync_error : Failure → Desk → Desk
handle_sync_error e d =
    if is_status e 401
    then record d { state = record (d.state) { phase = revoked; syncing = false } }
    else record d {
      state = record (d.state) {
        syncing = false;
        sync_error = if is_status e 0 && not d.state.online then none else some (error_text e);
      };
      timers = record (d.timers) { retry = d.running };
    }
