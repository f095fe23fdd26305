-- ===== src/Desk/Sync.antt =====
-- Sending the outbox in web/src/features/judge/controller.ts. The environment of a request is a
-- parameter: what happens to the desk while the request of a pass is in flight, and its result.
use platform_for_sudies.Common.{
  ℕ, zero, suc, ◌+◌, String, Bool, true, false, not, ◌&&◌, none, some, List, if◌then◌else◌, ltb,
  ◌==◌, is_nil,
}
use platform_for_sudies.Api.{ScoreItem, ScoreResult, ComparisonItem, ComparisonResult}
use platform_for_sudies.Client.{ApiResult, reply, failed, Failure, is_status}
use platform_for_sudies.Scoring.Guards.{pending_count}
use platform_for_sudies.Scoring.Outbox.{pick_batch, batch_limit, apply_results}
use platform_for_sudies.Pairwise.{pending_comparisons}
use platform_for_sudies.Pairwise.Outbox.{pick_comparison_batch, apply_comparison_results}
use platform_for_sudies.Desk.{
  Desk, revoked, Identity, persist, persist_comparisons, handle_sync_error,
}

abbrev pub max_passes : ℕ
max_passes = 20

-- `judgeText.errors.notConfirmed(n)`, the number printed by the environment.
pub record Environment : Type 0 where
  pub not_confirmed : ℕ → String
  pub put_scores : ℕ → List ScoreItem → Desk → Desk × ApiResult (List ScoreResult)
  pub put_comparisons : ℕ → List ComparisonItem → Desk → Desk × ApiResult (List ComparisonResult)

abbrev pub set_syncing : Bool → Desk → Desk
set_syncing b d = record d { state = record (d.state) { syncing = b } }

-- The server answered, but to none of the items.
abbrev pub is_stuck : ℕ → ℕ → ℕ → ℕ → Bool
is_stuck ok stale rejected unconfirmed = ltb 0 unconfirmed && ok + stale + rejected == 0

abbrev pub report : Bool → String → Desk → Desk
report stuck text d =
    if stuck then record d { state = record (d.state) { sync_error = some text } } else d

module _ (is : Identity) (env : Environment) where
  -- The end of a pass: the desk, how many items were stale, and whether the loop goes on.
  unfoldable pub receive_scores :
      List ScoreItem → Desk × ApiResult (List ScoreResult) → Desk × ℕ × Bool
  receive_scores items (d, failed e) = (handle_sync_error e d, 0, false)
  receive_scores items (d, reply results) =
      let out = apply_results d.state.rows items results in
      let stuck = is_stuck out.ok out.stale out.rejected out.unconfirmed in
      let d' = persist is d.state.rows out.rows none (record d {
        state = record (d.state) { rows = out.rows; syncing = false; sync_error = none };
      }) in
      (report stuck (env.not_confirmed out.unconfirmed) d', out.stale, not stuck)

  -- The loop of `doFlush`; `passes` are left, and `pass` is its variable.
  unfoldable pub flush_scores : ℕ → ℕ → Desk → Desk × ℕ
  flush_scores zero pass d = (d, 0)
  flush_scores (suc passes) pass d =
      let items = pick_batch d.state.rows batch_limit in
      let received = receive_scores items (env.put_scores pass items (set_syncing true d)) in
      let rest = flush_scores passes (pass + 1) received.0 in
      if is_nil items
      then (d, 0)
      else if received.2
      then (rest.0, received.1 + rest.1)
      else (received.0, received.1)

  unfoldable pub receive_comparisons :
      List ComparisonItem → Desk × ApiResult (List ComparisonResult) → Desk × ℕ × Bool
  receive_comparisons items (d, failed e) = (handle_sync_error e d, 0, false)
  receive_comparisons items (d, reply results) =
      let out = apply_comparison_results d.state.comparisons items results in
      let stuck = is_stuck out.ok out.stale out.rejected out.unconfirmed in
      let d' = persist_comparisons is d.state.comparisons out.comparisons (record d {
        state = record (d.state) {
          comparisons = out.comparisons;
          syncing = false;
          sync_error = none;
        };
      }) in
      (report stuck (env.not_confirmed out.unconfirmed) d', out.stale, not stuck)

  unfoldable pub flush_comparisons : ℕ → ℕ → Desk → Desk × ℕ
  flush_comparisons zero pass d = (d, 0)
  flush_comparisons (suc passes) pass d =
      let items = pick_comparison_batch d.state.comparisons 100 in
      let received =
        receive_comparisons items (env.put_comparisons pass items (set_syncing true d)) in
      let rest = flush_comparisons passes (pass + 1) received.0 in
      if is_nil items
      then (d, 0)
      else if received.2
      then (rest.0, received.1 + rest.1)
      else (received.0, received.1)

  -- The desk, and the number of stale items that the notification names.
  unfoldable pub do_flush : Bool → Desk → Desk × ℕ
  do_flush on_line d =
      let scores = flush_scores max_passes 0 d in
      let comparisons = flush_comparisons max_passes 0 scores.0 in
      if not on_line
      then (record d { state = record (d.state) { online = false } }, 0)
      else (set_syncing false comparisons.0, scores.1 + comparisons.1)

-- What the heartbeat reports.
unfoldable pub heartbeat_count : Desk → ℕ
heartbeat_count d = pending_count d.state.rows + pending_comparisons d.state.comparisons

unfoldable pub heartbeat_failed : Failure → Desk → Desk
heartbeat_failed e d =
    if is_status e 401 then record d { state = record (d.state) { phase = revoked } } else d
