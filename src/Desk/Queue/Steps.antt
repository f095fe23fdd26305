-- ===== src/Desk/Queue/Steps.antt =====
-- Courses of web/src/features/judge/controller.ts in steps between which anything else may happen:
-- events, timers, actions of the judge, the start of a queued job and the answers to its requests.
use platform_for_sudies.Common.{
  ℕ, String, Bool, false, Option, List, ◌∷◌, count, ◌≡◌, refl, ap, arith, if-elim,
}
use platform_for_sudies.Api.{
  ChangeKind, ScoreItem, ScoreResult, ComparisonItem, ComparisonResult, ComparisonRecord,
  JudgeSession, SessionJudge, Winner,
}
use platform_for_sudies.Client.{ApiResult, Failure}
use platform_for_sudies.Desk.{
  Desk, Identity, Job, flush_job, refresh_job, reserve_job, refresh, flush, new_desk,
  schedule_refresh, handle_refresh_error,
}
use platform_for_sudies.Desk.Edits.{
  set_score, set_note, ensure_reserve, reserve_more, decide_pair, dismiss, retry_rejected,
}
use platform_for_sudies.Desk.Sync.{
  Environment, set_syncing, receive_scores, receive_comparisons, heartbeat_failed,
}
use platform_for_sudies.Desk.Session.{
  Adopted, adopt_orphans, store_session, store_reserved, Details, submit_answered, unsubmit,
  recheck,
}
use platform_for_sudies.Desk.Lifecycle.{
  is_echo, on_online, on_offline, on_visibility, on_open, on_change, on_stream_error, start, stop,
  Loaded, open_event_stream, boot_loaded, boot_open, boot_refresh,
}
use platform_for_sudies.Desk.Queue.{is_flush, is_refresh, IsTidy, refresh-IsTidy, flush-IsTidy}
use platform_for_sudies.Desk.Queue.Work.{
  adopt_orphans-IsTidy, boot_loaded-IsTidy, decide_pair-IsTidy, dismiss-IsTidy,
  ensure_reserve-IsTidy, handle_refresh_error-IsTidy, heartbeat_failed-IsTidy,
  receive_comparisons-IsTidy, receive_scores-IsTidy, recheck-IsTidy, reserve_more-IsTidy,
  retry_rejected-IsTidy, set_note-IsTidy, set_score-IsTidy, store_reserved-IsTidy,
  store_session-IsTidy, submit_answered-IsTidy, unsubmit-IsTidy,
}

-- The first thing that a job does when its turn comes.
unfoldable pub begin_job : Job → Desk → Desk
begin_job flush_job d = record d { flush_queued = false }
begin_job refresh_job d = record d { refresh_queued = false }
begin_job (reserve_job n) d = d

-- The desk at an event of the browser or of the stream, at a part of `boot`, when a timer is up or
-- `submit` begins (`flush_is_due`, `refresh_is_due`), at an action of the judge, when the queue comes
-- to a job, and at what a job does after each of its requests.
pub data Step (is : Identity) : Desk → Desk → Type 0 where
  starts : (d : Desk) → Step is d (start d)
  stops : (d : Desk) → Step is d (stop d)
  stream_reopens : (d : Desk) → Step is d (open_event_stream d)
  device_is_read : (g : ℕ) (o : Option Loaded) (d : Desk) → Step is d (boot_loaded g o d)
  boot_asks : (g : ℕ) (d : Desk) → Step is d (boot_refresh g d)
  boot_opens : (g : ℕ) (d : Desk) → Step is d (boot_open g d)
  goes_online : (d : Desk) → Step is d (on_online d)
  goes_offline : (d : Desk) → Step is d (on_offline d)
  is_looked_at : (visible on_line : Bool) (d : Desk) → Step is d (on_visibility visible on_line d)
  stream_opens : (reconnect : Bool) (d : Desk) → Step is d (on_open reconnect d)
  stream_tells : (kind : ChangeKind) (d : Desk) → Step is d (on_change kind d)
  stream_fails : (rejected : Bool) (d : Desk) → Step is d (on_stream_error rejected d)
  flush_is_due : (d : Desk) → Step is d (flush d)
  refresh_is_due : (d : Desk) → Step is d (refresh d)
  sets_score :
      (t c : String) (v : Option ℕ) (now : ℕ) (d : Desk) → Step is d (set_score is t c v now d)
  sets_note : (item note : String) (now : ℕ) (d : Desk) → Step is d (set_note is item note now d)
  decides :
      (id : String) (winner : Option Winner) (now : ℕ) (on_line : Bool) (d : Desk)
      → Step is d (decide_pair is id winner now on_line d)
  dismisses : (d : Desk) → Step is d (dismiss is d)
  retries : (d : Desk) → Step is d (retry_rejected is d)
  asks_for_more :
      (extra : ℕ) (on_line : Bool) (d : Desk) → Step is d (reserve_more is extra on_line d)
  rechecks : (d : Desk) → Step is d (recheck d)
  scores_answered :
      (env : Environment) (items : List ScoreItem) (res : ApiResult (List ScoreResult)) (d : Desk)
      → Step is d ((receive_scores is env items (d, res)).0)
  comparisons_answered :
      (env : Environment) (items : List ComparisonItem) (res : ApiResult (List ComparisonResult))
      (d : Desk)
      → Step is d ((receive_comparisons is env items (d, res)).0)
  syncs : (b : Bool) (d : Desk) → Step is d (set_syncing b d)
  session_fails : (e : Failure) (d : Desk) → Step is d (handle_refresh_error e d)
  adopts : (o : Option Adopted) (d : Desk) → Step is d (adopt_orphans is o d)
  session_comes : (s : JudgeSession) (d : Desk) → Step is d (store_session is s d)
  tops_up : (on_line : Bool) (d : Desk) → Step is d (ensure_reserve is on_line d)
  reserve_answered :
      (count : ℕ) (res : ApiResult (List ComparisonRecord)) (d : Desk)
      → Step is d (store_reserved is count res d)
  submission_answered :
      (release : Bool) (res : ApiResult SessionJudge) (info : Details) (d : Desk)
      → Step is d ((submit_answered is release res info d).0)
  withdrawal_answered :
      (res : ApiResult SessionJudge) (info : Details) (d : Desk)
      → Step is d ((unsubmit is res info d).0)
  heartbeat_fails : (e : Failure) (d : Desk) → Step is d (heartbeat_failed e d)
  job_begins :
      (d : Desk) (job : Job) (jobs : List Job)
      → d.queue ≡ job ∷ jobs
      → Step is d (begin_job job (record d { queue = jobs }))

pub data Steps (is : Identity) (first : Desk) : Desk → Type 0 where
  here : Steps is first first
  then_step : {d e : Desk} → Steps is first d → Step is d e → Steps is first e

begin_job-IsTidy :
    (d : Desk) (job : Job) (jobs : List Job)
    → d.queue ≡ job ∷ jobs
    → IsTidy d
    → IsTidy (begin_job job (record d { queue = jobs }))
unfolding begin_job
begin_job-IsTidy d flush_job jobs e h = record {
  flushes = ground (arith, h.flushes, ap (count is_flush) e);
  refreshes = ground (arith, h.refreshes, ap (count is_refresh) e);
}
begin_job-IsTidy d refresh_job jobs e h = record {
  flushes = ground (arith, h.flushes, ap (count is_flush) e);
  refreshes = ground (arith, h.refreshes, ap (count is_refresh) e);
}
begin_job-IsTidy d (reserve_job n) jobs e h = record {
  flushes = ground (arith, h.flushes, ap (count is_flush) e);
  refreshes = ground (arith, h.refreshes, ap (count is_refresh) e);
}

Step-IsTidy : {is : Identity} {d e : Desk} → Step is d e → IsTidy d → IsTidy e
unfolding start stop boot_refresh boot_open on_online on_offline on_visibility on_open on_change
    on_stream_error schedule_refresh
Step-IsTidy {is} (starts d) h = h
Step-IsTidy {is} (stops d) h = h
Step-IsTidy {is} (stream_reopens d) h = h
Step-IsTidy {is} (device_is_read g o d) h = boot_loaded-IsTidy g o d h
Step-IsTidy {is} (boot_asks g d) h = if-elim IsTidy _ _ _ (refresh-IsTidy d h) h
Step-IsTidy {is} (boot_opens g d) h = if-elim IsTidy _ _ _ (flush-IsTidy _ h) h
Step-IsTidy {is} (goes_online d) h = flush-IsTidy _ (refresh-IsTidy _ h)
Step-IsTidy {is} (goes_offline d) h = h
Step-IsTidy {is} (is_looked_at visible on_line d) h =
    flush-IsTidy _ (if-elim IsTidy visible _ _ (refresh-IsTidy _ h) h)
Step-IsTidy {is} (stream_opens reconnect d) h =
    if-elim IsTidy _ _ _ h (flush-IsTidy _ (refresh-IsTidy d h))
Step-IsTidy {is} (stream_tells kind d) h = if-elim IsTidy (is_echo kind) _ (schedule_refresh d) h h
Step-IsTidy {is} (stream_fails rejected d) h = if-elim IsTidy rejected _ _ h h
Step-IsTidy {is} (flush_is_due d) h = flush-IsTidy d h
Step-IsTidy {is} (refresh_is_due d) h = refresh-IsTidy d h
Step-IsTidy {is} (sets_score t c v now d) h = set_score-IsTidy is t c v now d h
Step-IsTidy {is} (sets_note item note now d) h = set_note-IsTidy is item note now d h
Step-IsTidy {is} (decides id winner now on_line d) h =
    decide_pair-IsTidy is id winner now on_line d h
Step-IsTidy {is} (dismisses d) h = dismiss-IsTidy is d h
Step-IsTidy {is} (retries d) h = retry_rejected-IsTidy is d h
Step-IsTidy {is} (asks_for_more extra on_line d) h = reserve_more-IsTidy is extra on_line d h
Step-IsTidy {is} (rechecks d) h = recheck-IsTidy d h
Step-IsTidy {is} (scores_answered env items res d) h = receive_scores-IsTidy is env items res d h
Step-IsTidy {is} (comparisons_answered env items res d) h =
    receive_comparisons-IsTidy is env items res d h
Step-IsTidy {is} (syncs b d) h = h
Step-IsTidy {is} (session_fails e d) h = handle_refresh_error-IsTidy e d h
Step-IsTidy {is} (adopts o d) h = adopt_orphans-IsTidy is o d h
Step-IsTidy {is} (session_comes s d) h = store_session-IsTidy is s d h
Step-IsTidy {is} (tops_up on_line d) h = ensure_reserve-IsTidy is on_line d h
Step-IsTidy {is} (reserve_answered count res d) h = store_reserved-IsTidy is count res d h
Step-IsTidy {is} (submission_answered release res info d) h =
    submit_answered-IsTidy is release res info d h
Step-IsTidy {is} (withdrawal_answered res info d) h = unsubmit-IsTidy is res info d h
Step-IsTidy {is} (heartbeat_fails e d) h = heartbeat_failed-IsTidy e d h
Step-IsTidy (job_begins d job jobs e) h = begin_job-IsTidy d job jobs e h

-- In every desk that is reached from a new one by the events of the browser and of the stream,
-- the parts of a boot, starts, stops, timers, actions of the judge, the start of queued jobs
-- and the answers to their requests, in any order, at most one flush and at most one refresh
-- wait in the queue, and the flags say which.
pub reached-IsTidy :
    {is : Identity} (on_line : Bool) {d : Desk} → Steps is (new_desk on_line) d → IsTidy d
unfolding new_desk
reached-IsTidy on_line here = record { flushes = refl; refreshes = refl }
reached-IsTidy on_line (then_step steps step) = Step-IsTidy step (reached-IsTidy on_line steps)
