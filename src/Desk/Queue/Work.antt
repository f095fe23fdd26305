-- ===== src/Desk/Queue/Work.antt =====
-- What waits in the queue of web/src/features/judge/controller.ts after each part of a job, each
-- action of the judge and each answer of the server.
use platform_for_sudies.Common.{ℕ, String, Bool, Option, none, some, List, if-elim}
use platform_for_sudies.Api.{
  ScoreItem, ScoreResult, ComparisonItem, ComparisonResult, ComparisonRecord, JudgeSession,
  SessionJudge, Winner,
}
use platform_for_sudies.Client.{ApiResult, reply, failed, Failure, is_status}
use platform_for_sudies.Scoring.Rows.{Rows}
use platform_for_sudies.Pairwise.{Comparisons}
use platform_for_sudies.Desk.{
  Desk, Identity, persist, persist_comparisons, editable, handle_sync_error, handle_refresh_error,
}
use platform_for_sudies.Desk.Edits.{
  commit, score_session, set_score, note_session, set_note, reserve_session, reserve,
  ensure_reserve, reserve_more, decide_pair, dismiss_session, dismiss, retry_rejected,
}
use platform_for_sudies.Desk.Sync.{
  Environment, report, receive_scores, receive_comparisons, heartbeat_failed,
}
use platform_for_sudies.Desk.Session.{
  Adopted, adopt_found, adopt_orphans, store_session, store_reserved, judged_session, set_submitted,
  Details, submit_failure, submit_answered, unsubmit, recheck,
}
use platform_for_sudies.Desk.Lifecycle.{Loaded, boot_loaded}
use platform_for_sudies.Desk.Queue.{IsTidy, refresh-IsTidy, flush-IsTidy, enqueue_reserve-IsTidy}

pub handle_sync_error-IsTidy : (e : Failure) (d : Desk) → IsTidy d → IsTidy (handle_sync_error e d)
unfolding handle_sync_error
handle_sync_error-IsTidy e d h = if-elim IsTidy (is_status e 401) _ _ h h

pub handle_refresh_error-IsTidy :
    (e : Failure) (d : Desk) → IsTidy d → IsTidy (handle_refresh_error e d)
unfolding handle_refresh_error
handle_refresh_error-IsTidy e d h = if-elim IsTidy (is_status e 401) _ _ h h

pub heartbeat_failed-IsTidy : (e : Failure) (d : Desk) → IsTidy d → IsTidy (heartbeat_failed e d)
unfolding heartbeat_failed
heartbeat_failed-IsTidy e d h = if-elim IsTidy (is_status e 401) _ d h h

report-IsTidy : (stuck : Bool) (text : String) (d : Desk) → IsTidy d → IsTidy (report stuck text d)
report-IsTidy stuck text d h = if-elim IsTidy stuck _ d h h

pub boot_loaded-IsTidy :
    (g : ℕ) (o : Option Loaded) (d : Desk) → IsTidy d → IsTidy (boot_loaded g o d)
unfolding boot_loaded
boot_loaded-IsTidy g none d h = h
boot_loaded-IsTidy g (some l) d h = if-elim IsTidy _ _ _ h h

pub recheck-IsTidy : (d : Desk) → IsTidy d → IsTidy (recheck d)
unfolding recheck
recheck-IsTidy d h = refresh-IsTidy _ h

pub submit_failure-IsTidy :
    (e : Failure) (info : Details) (d : Desk) → IsTidy d → IsTidy (submit_failure e info d).0
unfolding submit_failure
submit_failure-IsTidy e info d h = if-elim IsTidy (is_status e 401) _ d h h

module _ (is : Identity) where
  persist-IsTidy :
      (prev next : Rows) (s : Option JudgeSession) (d : Desk)
      → IsTidy d
      → IsTidy (persist is prev next s d)
  unfolding persist
  persist-IsTidy prev next s d h = if-elim IsTidy _ _ _ h h

  persist_comparisons-IsTidy :
      (prev next : Comparisons) (d : Desk) → IsTidy d → IsTidy (persist_comparisons is prev next d)
  unfolding persist_comparisons
  persist_comparisons-IsTidy prev next d h = if-elim IsTidy _ _ _ h h

  commit-IsTidy : (rows : Rows) (d : Desk) → IsTidy d → IsTidy (commit is rows d)
  unfolding commit
  commit-IsTidy rows d h = (persist-IsTidy d.state.rows rows none _ h)

  pub set_score-IsTidy :
      (t c : String) (v : Option ℕ) (now : ℕ) (d : Desk)
      → IsTidy d
      → IsTidy (set_score is t c v now d)
  unfolding set_score score_session
  set_score-IsTidy t c v now d h = scored (editable d)
    where
      scored : (o : Option JudgeSession) → IsTidy (score_session is o t c v now d)
      scored none = h
      scored (some s) = commit-IsTidy _ d h

  pub set_note-IsTidy :
      (item note : String) (now : ℕ) (d : Desk) → IsTidy d → IsTidy (set_note is item note now d)
  unfolding set_note note_session
  set_note-IsTidy item note now d h = noted (editable d)
    where
      noted : (o : Option JudgeSession) → IsTidy (note_session is o item note now d)
      noted none = h
      noted (some s) = if-elim IsTidy _ _ _ (commit-IsTidy _ d h) h

  pub dismiss-IsTidy : (d : Desk) → IsTidy d → IsTidy (dismiss is d)
  unfolding dismiss dismiss_session
  dismiss-IsTidy d h = dismissed d.state.session
    where
      dismissed : (o : Option JudgeSession) → IsTidy (dismiss_session is o d)
      dismissed none = h
      dismissed (some s) = if-elim IsTidy _ _ _ h (persist-IsTidy _ _ none _ h)

  pub retry_rejected-IsTidy : (d : Desk) → IsTidy d → IsTidy (retry_rejected is d)
  unfolding retry_rejected
  retry_rejected-IsTidy d h =
      flush-IsTidy _ (persist_comparisons-IsTidy _ _ _ ((commit-IsTidy _ d h)))

  reserve_session-IsTidy :
      (o : Option JudgeSession) (count : ℕ) (on_line : Bool) (d : Desk)
      → IsTidy d
      → IsTidy (reserve_session is o count on_line d)
  unfolding reserve_session
  reserve_session-IsTidy none count on_line d h = h
  reserve_session-IsTidy (some s) count on_line d h =
      if-elim IsTidy _ _ _ h (enqueue_reserve-IsTidy count _ h)

  pub ensure_reserve-IsTidy :
      (on_line : Bool) (d : Desk) → IsTidy d → IsTidy (ensure_reserve is on_line d)
  unfolding ensure_reserve reserve
  ensure_reserve-IsTidy on_line d h =
      if-elim IsTidy _ _ _ h (reserve_session-IsTidy d.state.session _ on_line d h)

  pub reserve_more-IsTidy :
      (extra : ℕ) (on_line : Bool) (d : Desk) → IsTidy d → IsTidy (reserve_more is extra on_line d)
  unfolding reserve_more reserve
  reserve_more-IsTidy extra on_line d h = reserve_session-IsTidy d.state.session _ on_line d h

  pub decide_pair-IsTidy :
      (id : String) (winner : Option Winner) (now : ℕ) (on_line : Bool) (d : Desk)
      → IsTidy d
      → IsTidy (decide_pair is id winner now on_line d)
  unfolding decide_pair
  decide_pair-IsTidy id winner now on_line d h =
      if-elim IsTidy _ _ _ h
        (ensure_reserve-IsTidy on_line _ ((persist_comparisons-IsTidy _ _ _ h)))

  adopt_found-IsTidy : (o : Option Adopted) (d : Desk) → IsTidy d → IsTidy (adopt_found is o d)
  unfolding adopt_found
  adopt_found-IsTidy none d h = h
  adopt_found-IsTidy (some found) d h =
      if-elim IsTidy _ _ _ h (flush-IsTidy _ (persist_comparisons-IsTidy _ _ _ h))

  pub adopt_orphans-IsTidy :
      (o : Option Adopted) (d : Desk) → IsTidy d → IsTidy (adopt_orphans is o d)
  unfolding adopt_orphans
  adopt_orphans-IsTidy o d h = if-elim IsTidy d.adoption_done _ _ h (adopt_found-IsTidy o d h)

  pub store_session-IsTidy :
      (s : JudgeSession) (d : Desk) → IsTidy d → IsTidy (store_session is s d)
  unfolding store_session
  store_session-IsTidy s d h = persist_comparisons-IsTidy _ _ _ (persist-IsTidy _ _ (some s) _ h)

  pub store_reserved-IsTidy :
      (count : ℕ) (res : ApiResult (List ComparisonRecord)) (d : Desk)
      → IsTidy d
      → IsTidy (store_reserved is count res d)
  unfolding store_reserved
  store_reserved-IsTidy count (failed e) d h = (handle_sync_error-IsTidy e d h)
  store_reserved-IsTidy count (reply reserved) d h = (persist_comparisons-IsTidy _ _ _ h)

  pub receive_scores-IsTidy :
      (env : Environment) (items : List ScoreItem) (res : ApiResult (List ScoreResult)) (d : Desk)
      → IsTidy d
      → IsTidy (receive_scores is env items (d, res)).0
  unfolding receive_scores
  receive_scores-IsTidy env items (failed e) d h = handle_sync_error-IsTidy e d h
  receive_scores-IsTidy env items (reply results) d h =
      report-IsTidy _ _ _ (persist-IsTidy _ _ none _ h)

  pub receive_comparisons-IsTidy :
      (env : Environment) (items : List ComparisonItem) (res : ApiResult (List ComparisonResult))
      (d : Desk)
      → IsTidy d
      → IsTidy (receive_comparisons is env items (d, res)).0
  unfolding receive_comparisons
  receive_comparisons-IsTidy env items (failed e) d h = handle_sync_error-IsTidy e d h
  receive_comparisons-IsTidy env items (reply results) d h =
      report-IsTidy _ _ _ (persist_comparisons-IsTidy _ _ _ h)

  judged_session-IsTidy :
      (o : Option JudgeSession) (judge : SessionJudge) (d : Desk)
      → IsTidy d
      → IsTidy (judged_session is o judge d)
  unfolding judged_session
  judged_session-IsTidy none judge d h = h
  judged_session-IsTidy (some s) judge d h = persist-IsTidy _ _ _ _ h

  set_submitted-IsTidy :
      (judge : SessionJudge) (d : Desk) → IsTidy d → IsTidy (set_submitted is judge d)
  unfolding set_submitted
  set_submitted-IsTidy judge d h = judged_session-IsTidy d.state.session judge d h

  pub submit_answered-IsTidy :
      (release : Bool) (res : ApiResult SessionJudge) (info : Details) (d : Desk)
      → IsTidy d
      → IsTidy (submit_answered is release res info d).0
  unfolding submit_answered
  submit_answered-IsTidy release (failed e) info d h = submit_failure-IsTidy e info d h
  submit_answered-IsTidy release (reply judge) info d h =
      let k = set_submitted-IsTidy judge d h in if-elim IsTidy release _ _ (refresh-IsTidy _ k) k

  pub unsubmit-IsTidy :
      (res : ApiResult SessionJudge) (info : Details) (d : Desk)
      → IsTidy d
      → IsTidy (unsubmit is res info d).0
  unfolding unsubmit
  unsubmit-IsTidy (failed e) info d h = submit_failure-IsTidy e info d h
  unsubmit-IsTidy (reply judge) info d h = set_submitted-IsTidy judge d h
