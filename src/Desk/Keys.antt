-- ===== src/Desk/Keys.antt =====
-- The rows of the desk of web/src/features/judge/controller.ts over everything that changes them:
-- each stands under its own key, once.
pub mod Exchange
use platform_for_sudies.Common.{
  ℕ, zero, suc, ◌+◌, String, Bool, true, false, not, ◌&&◌, ◌||◌, Option, none, some, List, [], ◌∷◌,
  ◌≡◌, refl, sym, ap, ◌∙◌, subst, if◌then◌else◌, if-elim, is_nil, is_some, lookup, arith,
  IsDict-insert,
}
use platform_for_sudies.Api.{
  ScoreItem, ScoreResult, ComparisonItem, ComparisonResult, ComparisonRecord, JudgeSession, Winner,
  SessionJudge,
}
use platform_for_sudies.Client.{ApiResult, reply, failed, Failure}
use platform_for_sudies.Scoring.Rows.{LocalRow, Rows, Patch, changes_note}
use platform_for_sudies.Scoring.Rows.Laws.{
  IsOwnKey, WellKeyed, apply_edit-WellKeyed, apply_note-WellKeyed,
}
use platform_for_sudies.Scoring.Guards.{adopted_wins}
use platform_for_sudies.Scoring.Sheet.{merge_server, rejected_outside_sheet, dismiss_outside_sheet}
use platform_for_sudies.Scoring.Sheet.Merge.{merge_server-WellKeyed}
use platform_for_sudies.Scoring.Sheet.Prune.{
  prune_outside_sheet-WellKeyed, dismiss_outside_sheet-WellKeyed,
}
use platform_for_sudies.Scoring.Outbox.{pick_batch, batch_limit, apply_results}
use platform_for_sudies.Scoring.Outbox.Keys.{apply_results-WellKeyed}
use platform_for_sudies.Pairwise.{Comparisons}
use platform_for_sudies.Pairwise.Outbox.{pick_comparison_batch, apply_comparison_results}
use platform_for_sudies.Desk.{
  Desk, Identity, new_desk, persist, persist_comparisons, editable, flush, refresh, enqueue,
  handle_sync_error, handle_refresh_error,
}
use platform_for_sudies.Desk.Edits.{
  arm_flush, commit, set_score, score_session, set_note, note_session, dismiss, dismiss_session,
  retry_rejected, retried_rows, status_of, reserve_session, reserve, ensure_reserve, decide_pair,
}
use platform_for_sudies.Desk.InFlight.{Actions, Actions-WellKeyed, retried_rows-WellKeyed}
use platform_for_sudies.Desk.Sync.{
  Environment, set_syncing, report, is_stuck, receive_scores, receive_comparisons, flush_scores,
  flush_comparisons, do_flush, max_passes,
}
use platform_for_sudies.Desk.Session.{
  Adopted, own_key, adopt_rows, adopt_comparisons, adopt_found, adopt_orphans, refreshed_rows,
  store_session, run_refresh, store_reserved, run_reserve, set_submitted, judged_session,
}
use platform_for_sudies.Desk.Failures.{handle_sync_error-IsHandled, handle_refresh_error-IsHandled}

-- The desk's rows are well keyed.
abbrev pub IsKeyed : Desk → Type 0
IsKeyed d = WellKeyed d.state.rows

-- Desks with the same rows.
pub same-IsKeyed : (d e : Desk) → e.state.rows ≡ d.state.rows → IsKeyed d → IsKeyed e
same-IsKeyed d e same w = subst WellKeyed (sym same) w

module _ (is : Identity) where
  pub persist-IsKeyed :
      (prev next : Rows) (s : Option JudgeSession) (d : Desk)
      → IsKeyed d
      → IsKeyed (persist is prev next s d)
  unfolding persist
  persist-IsKeyed prev next s d w = if-elim IsKeyed _ _ _ w w

  pub persist_comparisons-IsKeyed :
      (prev next : Comparisons) (d : Desk)
      → IsKeyed d
      → IsKeyed (persist_comparisons is prev next d)
  unfolding persist_comparisons
  persist_comparisons-IsKeyed prev next d w = if-elim IsKeyed _ _ _ w w

  pub flush-IsKeyed : (d : Desk) → IsKeyed d → IsKeyed (flush d)
  unfolding flush enqueue
  flush-IsKeyed d w = if-elim IsKeyed d.flush_queued _ _ w w

  pub commit-IsKeyed : (rows : Rows) (d : Desk) → WellKeyed rows → IsKeyed (commit is rows d)
  unfolding commit
  commit-IsKeyed rows d w =
      persist-IsKeyed d.state.rows rows none
        (record d { state = record (d.state) { rows = rows; sync_error = none } }) w

  pub score_session-IsKeyed :
      (o : Option JudgeSession) (t c : String) (value : Option ℕ) (now : ℕ) (d : Desk)
      → IsKeyed d
      → IsKeyed (score_session is o t c value now d)
  unfolding score_session
  score_session-IsKeyed none t c value now d w = w
  score_session-IsKeyed (some s) t c value now d w =
      commit-IsKeyed _ d (apply_edit-WellKeyed d.state.rows t c _ _ now w)

  pub note_session-IsKeyed :
      (o : Option JudgeSession) (item note : String) (now : ℕ) (d : Desk)
      → IsKeyed d
      → IsKeyed (note_session is o item note now d)
  unfolding note_session
  note_session-IsKeyed none item note now d w = w
  note_session-IsKeyed (some s) item note now d w =
      if-elim IsKeyed _ _ _ (commit-IsKeyed _ d (apply_note-WellKeyed d.state.rows _ note now w)) w

  pub dismiss_session-IsKeyed :
      (o : Option JudgeSession) (d : Desk) → IsKeyed d → IsKeyed (dismiss_session is o d)
  unfolding dismiss_session
  dismiss_session-IsKeyed none d w = w
  dismiss_session-IsKeyed (some s) d w = if-elim IsKeyed _ _ _ w (
      persist-IsKeyed _ _ none _
        (dismiss_outside_sheet-WellKeyed d.state.rows s.teams s.criteria w))

  pub retry_rejected-IsKeyed : (d : Desk) → IsKeyed d → IsKeyed (retry_rejected is d)
  unfolding retry_rejected
  retry_rejected-IsKeyed d w = flush-IsKeyed _ (
      persist_comparisons-IsKeyed _ _ _
        (commit-IsKeyed _ d (retried_rows-WellKeyed (status_of is d.state.session) d.state.rows w)))

  pub reserve_session-IsKeyed :
      (o : Option JudgeSession) (count : ℕ) (on_line : Bool) (d : Desk)
      → IsKeyed d
      → IsKeyed (reserve_session is o count on_line d)
  unfolding reserve_session enqueue
  reserve_session-IsKeyed none count on_line d w = w
  reserve_session-IsKeyed (some s) count on_line d w = if-elim IsKeyed _ _ _ w w

  pub ensure_reserve-IsKeyed :
      (on_line : Bool) (d : Desk) → IsKeyed d → IsKeyed (ensure_reserve is on_line d)
  unfolding ensure_reserve reserve
  ensure_reserve-IsKeyed on_line d w =
      if-elim IsKeyed _ _ _ w (reserve_session-IsKeyed d.state.session _ on_line d w)

  pub decide_pair-IsKeyed :
      (id : String) (winner : Option Winner) (now : ℕ) (on_line : Bool) (d : Desk)
      → IsKeyed d
      → IsKeyed (decide_pair is id winner now on_line d)
  unfolding decide_pair
  decide_pair-IsKeyed id winner now on_line d w =
      if-elim IsKeyed _ _ _ w
        (ensure_reserve-IsKeyed on_line _ (persist_comparisons-IsKeyed _ _ _ w))
