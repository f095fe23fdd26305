-- ===== src/Desk/Keys/Exchange.antt =====
-- The rows of the desk of web/src/features/judge/controller.ts over its exchanges with the server and
-- over whole courses of events.
use platform_for_sudies.Common.{
  ℕ, zero, suc, ◌+◌, String, Bool, true, false, not, Option, none, some, List, [], ◌∷◌, refl,
  if-elim, is_nil, IsDict-insert,
}
use platform_for_sudies.Api.{
  ScoreItem, ScoreResult, ComparisonItem, ComparisonResult, ComparisonRecord, JudgeSession, Winner,
  SessionJudge,
}
use platform_for_sudies.Client.{ApiResult, reply, failed}
use platform_for_sudies.Scoring.Rows.{LocalRow, Rows}
use platform_for_sudies.Scoring.Rows.Laws.{IsOwnKey, WellKeyed}
use platform_for_sudies.Scoring.Sheet.{merge_server}
use platform_for_sudies.Scoring.Sheet.Merge.{merge_server-WellKeyed}
use platform_for_sudies.Scoring.Sheet.Prune.{prune_outside_sheet-WellKeyed}
use platform_for_sudies.Scoring.Outbox.{pick_batch, batch_limit, apply_results}
use platform_for_sudies.Scoring.Outbox.Keys.{apply_results-WellKeyed}
use platform_for_sudies.Pairwise.Outbox.{pick_comparison_batch, apply_comparison_results}
use platform_for_sudies.Desk.{
  Desk, Identity, persist, persist_comparisons, editable, handle_sync_error, handle_refresh_error,
}
use platform_for_sudies.Desk.Edits.{set_score, set_note, dismiss, retry_rejected, decide_pair}
use platform_for_sudies.Desk.InFlight.{Actions, Actions-WellKeyed}
use platform_for_sudies.Desk.Sync.{
  Environment, set_syncing, report, is_stuck, receive_scores, receive_comparisons, flush_scores,
  flush_comparisons, do_flush, max_passes,
}
use platform_for_sudies.Desk.Session.{
  Adopted, own_key, adopt_rows, adopt_found, adopt_orphans, store_session, run_refresh,
  store_reserved, run_reserve, set_submitted, judged_session,
}
use platform_for_sudies.Desk.Failures.{handle_sync_error-IsHandled, handle_refresh_error-IsHandled}
use platform_for_sudies.Desk.Keys.{
  IsKeyed, same-IsKeyed, persist-IsKeyed, persist_comparisons-IsKeyed, flush-IsKeyed,
  score_session-IsKeyed, note_session-IsKeyed, dismiss_session-IsKeyed, retry_rejected-IsKeyed,
  ensure_reserve-IsKeyed, decide_pair-IsKeyed,
}

module _ (is : Identity) where
  adopt_rows-WellKeyed :
      (found : List LocalRow) (rows : Rows) → WellKeyed rows → WellKeyed (adopt_rows found rows)
  unfolding adopt_rows
  adopt_rows-WellKeyed [] rows w = w
  adopt_rows-WellKeyed (r ∷ rs) rows w =
      adopt_rows-WellKeyed rs _
        (if-elim WellKeyed _ _ rows (IsDict-insert IsOwnKey (own_key r) r rows refl w) w)

  adopt_found-IsKeyed : (o : Option Adopted) (d : Desk) → IsKeyed d → IsKeyed (adopt_found is o d)
  unfolding adopt_found
  adopt_found-IsKeyed none d w = w
  adopt_found-IsKeyed (some found) d w = if-elim IsKeyed _ _ _ w (
      flush-IsKeyed is _
        (persist_comparisons-IsKeyed is _ _ _ (adopt_rows-WellKeyed found.rows d.state.rows w)))

  pub adopt_orphans-IsKeyed :
      (o : Option Adopted) (d : Desk) → IsKeyed d → IsKeyed (adopt_orphans is o d)
  unfolding adopt_orphans
  adopt_orphans-IsKeyed o d w = if-elim IsKeyed d.adoption_done _ _ w (adopt_found-IsKeyed o d w)

  store_session-IsKeyed : (s : JudgeSession) (d : Desk) → IsKeyed d → IsKeyed (store_session is s d)
  unfolding store_session
  store_session-IsKeyed s d w = persist_comparisons-IsKeyed is _ _ _ (
      persist-IsKeyed is _ _ (some s) _ (
        prune_outside_sheet-WellKeyed (merge_server d.state.rows s.scores) s.teams s.criteria
          (merge_server-WellKeyed d.state.rows s.scores w)))

  run_refresh-IsKeyed :
      (res : ApiResult JudgeSession) (found : Option Adopted) (on_line : Bool) (d : Desk)
      → IsKeyed d
      → IsKeyed (run_refresh is res found on_line d)
  unfolding run_refresh
  run_refresh-IsKeyed (failed e) found on_line d w =
      let d' = record d { refresh_queued = false } in
      same-IsKeyed d' (handle_refresh_error e d') (handle_refresh_error-IsHandled e d').work.rows w
  run_refresh-IsKeyed (reply s) found on_line d w =
      let d' = record d { refresh_queued = false } in
      ensure_reserve-IsKeyed is on_line _
        (store_session-IsKeyed s (adopt_orphans is found d') (adopt_orphans-IsKeyed found d' w))

  store_reserved-IsKeyed :
      (count : ℕ) (res : ApiResult (List ComparisonRecord)) (d : Desk)
      → IsKeyed d
      → IsKeyed (store_reserved is count res d)
  unfolding store_reserved
  store_reserved-IsKeyed count (failed e) d w =
      same-IsKeyed d (handle_sync_error e d) (handle_sync_error-IsHandled e d).work.rows w
  store_reserved-IsKeyed count (reply reserved) d w = persist_comparisons-IsKeyed is _ _ _ w

  judged_session-IsKeyed :
      (o : Option JudgeSession) (judge : SessionJudge) (d : Desk)
      → IsKeyed d
      → IsKeyed (judged_session is o judge d)
  unfolding judged_session
  judged_session-IsKeyed none judge d w = w
  judged_session-IsKeyed (some s) judge d w = persist-IsKeyed is _ _ _ _ w

-- While a request is in flight only the judge acts on the rows.
pub record OnlyJudge (env : Environment) : Type 0 where
  pub scores :
      (pass : ℕ) (items : List ScoreItem) (d : Desk)
      → Actions d.state.rows (env.put_scores pass items d).0.state.rows
  pub comparisons :
      (pass : ℕ) (items : List ComparisonItem) (d : Desk)
      → Actions d.state.rows (env.put_comparisons pass items d).0.state.rows

report-IsKeyed :
    (stuck : Bool) (text : String) (d : Desk) → IsKeyed d → IsKeyed (report stuck text d)
report-IsKeyed stuck text d w = if-elim IsKeyed stuck _ d w w

abbrev KeyedResult : Desk × ℕ → Type 0
KeyedResult r = IsKeyed r.0

module _ (is : Identity) (env : Environment) (judge : OnlyJudge env) where
  receive_scores-IsKeyed :
      (items : List ScoreItem) (d : Desk) (res : ApiResult (List ScoreResult))
      → IsKeyed d
      → IsKeyed (receive_scores is env items (d, res)).0
  unfolding receive_scores
  receive_scores-IsKeyed items d (failed e) w =
      same-IsKeyed d (handle_sync_error e d) (handle_sync_error-IsHandled e d).work.rows w
  receive_scores-IsKeyed items d (reply results) w =
      let out = apply_results d.state.rows items results in
      let d' = record d {
        state = record (d.state) { rows = out.rows; syncing = false; sync_error = none };
      } in
      report-IsKeyed (is_stuck out.ok out.stale out.rejected out.unconfirmed)
        (env.not_confirmed out.unconfirmed) (persist is d.state.rows out.rows none d')
        (persist-IsKeyed is d.state.rows out.rows none d'
          (apply_results-WellKeyed d.state.rows items results w))

  flush_scores-IsKeyed :
      (passes pass : ℕ) (d : Desk) → IsKeyed d → IsKeyed (flush_scores is env passes pass d).0
  unfolding flush_scores
  flush_scores-IsKeyed zero pass d w = w
  flush_scores-IsKeyed (suc passes) pass d w =
      let items = pick_batch d.state.rows batch_limit in
      let sent = env.put_scores pass items (set_syncing true d) in
      let received = receive_scores is env items sent in
      let acted = judge.scores pass items (set_syncing true d) in
      let k = receive_scores-IsKeyed items sent.0 sent.1 (Actions-WellKeyed w acted) in
      if-elim KeyedResult (is_nil items) _ _ w
        (if-elim KeyedResult received.2 _ _ (flush_scores-IsKeyed passes (pass + 1) received.0 k) k)

  receive_comparisons-IsKeyed :
      (items : List ComparisonItem) (d : Desk) (res : ApiResult (List ComparisonResult))
      → IsKeyed d
      → IsKeyed (receive_comparisons is env items (d, res)).0
  unfolding receive_comparisons
  receive_comparisons-IsKeyed items d (failed e) w =
      same-IsKeyed d (handle_sync_error e d) (handle_sync_error-IsHandled e d).work.rows w
  receive_comparisons-IsKeyed items d (reply results) w =
      let out = apply_comparison_results d.state.comparisons items results in
      let d' = record d {
        state = record (d.state) {
          comparisons = out.comparisons;
          syncing = false;
          sync_error = none;
        };
      } in
      report-IsKeyed (is_stuck out.ok out.stale out.rejected out.unconfirmed)
        (env.not_confirmed out.unconfirmed)
        (persist_comparisons is d.state.comparisons out.comparisons d')
        (persist_comparisons-IsKeyed is d.state.comparisons out.comparisons d' w)

  flush_comparisons-IsKeyed :
      (passes pass : ℕ) (d : Desk) → IsKeyed d → IsKeyed (flush_comparisons is env passes pass d).0
  unfolding flush_comparisons
  flush_comparisons-IsKeyed zero pass d w = w
  flush_comparisons-IsKeyed (suc passes) pass d w =
      let items = pick_comparison_batch d.state.comparisons 100 in
      let sent = env.put_comparisons pass items (set_syncing true d) in
      let received = receive_comparisons is env items sent in
      let acted = judge.comparisons pass items (set_syncing true d) in
      let k = receive_comparisons-IsKeyed items sent.0 sent.1 (Actions-WellKeyed w acted) in
      if-elim KeyedResult (is_nil items) _ _ w (
        if-elim KeyedResult received.2 _ _
          (flush_comparisons-IsKeyed passes (pass + 1) received.0 k) k)

  do_flush-IsKeyed : (on_line : Bool) (d : Desk) → IsKeyed d → IsKeyed (do_flush is env on_line d).0
  unfolding do_flush
  do_flush-IsKeyed on_line d w =
      let scores = flush_scores is env max_passes 0 d in
      if-elim KeyedResult (not on_line) _ _ w
        (flush_comparisons-IsKeyed max_passes 0 scores.0 (flush_scores-IsKeyed max_passes 0 d w))

-- What happens to a desk with its exchanges, each one whole.
pub data Happens (is : Identity) : Desk → Desk → Type 0 where
  sets_score :
      (t c : String) (value : Option ℕ) (now : ℕ) (d : Desk)
      → Happens is d (set_score is t c value now d)
  sets_note : (item note : String) (now : ℕ) (d : Desk) → Happens is d (set_note is item note now d)
  decides :
      (id : String) (winner : Option Winner) (now : ℕ) (on_line : Bool) (d : Desk)
      → Happens is d (decide_pair is id winner now on_line d)
  dismisses : (d : Desk) → Happens is d (dismiss is d)
  retries : (d : Desk) → Happens is d (retry_rejected is d)
  flushes :
      (env : Environment) (on_line : Bool) (d : Desk)
      → OnlyJudge env
      → Happens is d (do_flush is env on_line d).0
  refreshes :
      (res : ApiResult JudgeSession) (found : Option Adopted) (on_line : Bool) (d : Desk)
      → Happens is d (run_refresh is res found on_line d)
  reserves :
      (env : Environment) (count : ℕ) (res : ApiResult (List ComparisonRecord)) (on_line : Bool)
      (d : Desk)
      → OnlyJudge env
      → Happens is d (run_reserve is env count res on_line d)
  submits : (judge : SessionJudge) (d : Desk) → Happens is d (set_submitted is judge d)

pub data Reached (is : Identity) (first : Desk) : Desk → Type 0 where
  here : Reached is first first
  later : {d e : Desk} → Reached is first d → Happens is d e → Reached is first e

Happens-IsKeyed : {is : Identity} {d e : Desk} → Happens is d e → IsKeyed d → IsKeyed e
unfolding set_score set_note dismiss run_reserve set_submitted
Happens-IsKeyed {is} (sets_score t c value now d) w =
    score_session-IsKeyed is (editable d) t c value now d w
Happens-IsKeyed {is} (sets_note item note now d) w =
    note_session-IsKeyed is (editable d) item note now d w
Happens-IsKeyed {is} (decides id winner now on_line d) w =
    decide_pair-IsKeyed is id winner now on_line d w
Happens-IsKeyed {is} (dismisses d) w = dismiss_session-IsKeyed is d.state.session d w
Happens-IsKeyed {is} (retries d) w = retry_rejected-IsKeyed is d w
Happens-IsKeyed {is} (flushes env on_line d judge) w = do_flush-IsKeyed is env judge on_line d w
Happens-IsKeyed {is} (refreshes res found on_line d) w =
    run_refresh-IsKeyed is res found on_line d w
Happens-IsKeyed {is} (reserves env count res on_line d judge) w =
    store_reserved-IsKeyed is count res _ (do_flush-IsKeyed is env judge on_line d w)
Happens-IsKeyed {is} (submits judge d) w = judged_session-IsKeyed is d.state.session judge d w

-- Over any course of edits, decisions, dismissals, retries, flushes, refreshes, reservations
-- and submissions, whatever the server answers and whatever the judge does meanwhile, every row
-- stands under its own key and no key occurs twice, if that held at the start.
pub Reached-IsKeyed :
    {is : Identity} {first d : Desk} → IsKeyed first → Reached is first d → IsKeyed d
Reached-IsKeyed w here = w
Reached-IsKeyed w (later r h) = Happens-IsKeyed h (Reached-IsKeyed w r)
