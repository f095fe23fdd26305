-- ===== src/Desk/Failures.antt =====
-- What a failed request leaves behind in web/src/features/judge/controller.ts.
use platform_for_sudies.Common.{
  ℕ, zero, suc, Bool, true, false, Option, none, some, List, ◌≡◌, refl, ◌∙◌, if◌then◌else◌, arith,
  is_nil, if-elim,
}
use platform_for_sudies.Api.{ScoreItem, ComparisonItem, JudgeSession}
use platform_for_sudies.Client.{failed, Failure, is_status}
use platform_for_sudies.Desk.{
  Desk, DeskState, Timers, Identity, revoked, refresh_failed, handle_refresh_error,
  handle_sync_error,
}
use platform_for_sudies.Scoring.Outbox.{pick_batch, batch_limit}
use platform_for_sudies.Pairwise.Outbox.{pick_comparison_batch}
use platform_for_sudies.Desk.Sync.{
  Environment, set_syncing, receive_scores, receive_comparisons, flush_scores, flush_comparisons,
  do_flush, heartbeat_failed, max_passes,
}
use platform_for_sudies.Desk.Session.{Adopted, Details, run_refresh, store_reserved, submit_failure}

-- The judge's work, in memory and on the way to the device.
pub record KeepsWork (before after : Desk) : Type 0 where
  pub rows : after.state.rows ≡ before.state.rows
  pub comparisons : after.state.comparisons ≡ before.state.comparisons
  pub session : after.state.session ≡ before.state.session
  pub writes : after.writes ≡ before.writes

-- Which timer asks again, if one does.
pub data Again : Type 0 where
  sync_again refresh_again not_again : Again

-- The timers of a desk, with the one that asks again armed if the desk runs.
abbrev pub armed : Again → Desk → Timers
armed sync_again d = record (d.timers) { retry = d.running }
armed refresh_again d = record (d.timers) { refresh_retry = d.running }
armed not_again d = d.timers

-- The requests of the desk, where they fail.
pub data Fails (e : Failure) : Again → Desk → Desk → Type 0 where
  put_scores_fails :
      (is : Identity) (env : Environment) (items : List ScoreItem) (d : Desk)
      → Fails e sync_again d (receive_scores is env items (d, failed e)).0
  put_comparisons_fails :
      (is : Identity) (env : Environment) (items : List ComparisonItem) (d : Desk)
      → Fails e sync_again d (receive_comparisons is env items (d, failed e)).0
  get_session_fails :
      (is : Identity) (found : Option Adopted) (on_line : Bool) (d : Desk)
      → Fails e refresh_again d (run_refresh is (failed e) found on_line d)
  reserve_fails :
      (is : Identity) (count : ℕ) (d : Desk)
      → Fails e sync_again d (store_reserved is count (failed e) d)
  submit_fails : (info : Details) (d : Desk) → Fails e not_again d (submit_failure e info d).0
  heartbeat_fails : (d : Desk) → Fails e not_again d (heartbeat_failed e d)

-- The work is kept; a rejected token leads to its screen and leaves the timers; after any other
-- failure the timers are those of before but for the one that asks again.
pub record IsHandled (e : Failure) (again : Again) (before after : Desk) : Type 0 where
  pub work : KeepsWork before after
  pub token : is_status e 401 ≡ true → after.state.phase ≡ revoked
  pub still : is_status e 401 ≡ true → after.timers ≡ before.timers
  pub retry : is_status e 401 ≡ false → after.timers ≡ armed again before

module _ (e : Failure) (again : Again) (before : Desk) where
  by_status :
      (b : Bool) (rejected other : Desk)
      → b ≡ is_status e 401
      → KeepsWork before rejected
      → KeepsWork before other
      → rejected.state.phase ≡ revoked
      → rejected.timers ≡ before.timers
      → other.timers ≡ armed again before
      → IsHandled e again before (if b then rejected else other)
  by_status true rejected other same w v p s t = record {
    work = w;
    token = λ _. p;
    still = λ _. s;
    retry = λ h. absurd (ground arith);
  }
  by_status false rejected other same w v p s t = record {
    work = v;
    token = λ h. absurd (ground arith);
    still = λ h. absurd (ground arith);
    retry = λ _. t;
  }

kept :
    {before after : Desk}
    → after.state.rows ≡ before.state.rows
    → after.state.comparisons ≡ before.state.comparisons
    → after.state.session ≡ before.state.session
    → after.writes ≡ before.writes
    → KeepsWork before after
kept r c s w = record { rows = r; comparisons = c; session = s; writes = w }

refresh_failed_keeps :
    (o : Option JudgeSession) (e : Failure) (st : DeskState)
    → ((refresh_failed o e st).rows ≡ st.rows)
      × ((refresh_failed o e st).comparisons ≡ st.comparisons)
      × ((refresh_failed o e st).session ≡ st.session)
unfolding refresh_failed
refresh_failed_keeps none e st = (refl, refl, refl)
refresh_failed_keeps (some s) e st = (refl, refl, refl)

module _ (e : Failure) (d : Desk) where
  pub handle_sync_error-IsHandled : IsHandled e sync_again d (handle_sync_error e d)
  unfolding handle_sync_error
  handle_sync_error-IsHandled =
      by_status e sync_again d (is_status e 401) _ _ refl (kept refl refl refl refl)
        (kept refl refl refl refl) refl refl refl

  pub handle_refresh_error-IsHandled : IsHandled e refresh_again d (handle_refresh_error e d)
  unfolding handle_refresh_error
  handle_refresh_error-IsHandled =
      let (r, c, s) = refresh_failed_keeps d.state.session e d.state in
      by_status e refresh_again d (is_status e 401) _ _ refl (kept refl refl refl refl)
        (kept r c s refl) refl refl refl

  revoked-IsHandled :
      IsHandled e not_again d
        (if is_status e 401 then record d { state = record (d.state) { phase = revoked } } else d)
  revoked-IsHandled =
      by_status e not_again d (is_status e 401) _ _ refl (kept refl refl refl refl)
        (kept refl refl refl refl) refl refl refl

-- A failed request changes no score, no decision, no session and no waiting write. On a 401 it
-- shows the screen of a rejected token and leaves the timers; on any other failure it arms the
-- timer that asks again if the desk runs and leaves the other timers, and a failed submission
-- or heartbeat leaves them all.
pub failed-IsHandled :
    {e : Failure} {again : Again} {before after : Desk}
    → Fails e again before after
    → IsHandled e again before after
unfolding receive_scores receive_comparisons run_refresh store_reserved submit_failure
    heartbeat_failed
failed-IsHandled {e} (put_scores_fails is env items d) = handle_sync_error-IsHandled e d
failed-IsHandled {e} (put_comparisons_fails is env items d) = handle_sync_error-IsHandled e d
failed-IsHandled {e} (get_session_fails is found on_line d) =
    let h = handle_refresh_error-IsHandled e (record d { refresh_queued = false }) in
    record {
      work = kept h.work.rows h.work.comparisons h.work.session h.work.writes;
      token = h.token;
      still = h.still;
      retry = h.retry;
    }
failed-IsHandled {e} (reserve_fails is count d) =
    let h = handle_sync_error-IsHandled e d in
    record {
      work = kept h.work.rows h.work.comparisons h.work.session h.work.writes;
      token = h.token;
      still = h.still;
      retry = h.retry;
    }
failed-IsHandled {e} (submit_fails info d) = revoked-IsHandled e d
failed-IsHandled {e} (heartbeat_fails d) = revoked-IsHandled e d

trans_work : {a b c : Desk} → KeepsWork a b → KeepsWork b c → KeepsWork a c
trans_work h k =
    kept (k.rows ∙ h.rows) (k.comparisons ∙ h.comparisons) (k.session ∙ h.session)
      (k.writes ∙ h.writes)

-- A server that is out of reach: every request fails, and nothing else happens to the desk.
pub record IsDown (env : Environment) (e : Failure) : Type 0 where
  pub scores :
      (pass : ℕ) (items : List ScoreItem) (d : Desk) → env.put_scores pass items d ≡ (d, failed e)
  pub comparisons :
      (pass : ℕ) (items : List ComparisonItem) (d : Desk)
      → env.put_comparisons pass items d ≡ (d, failed e)

module _ (is : Identity) (env : Environment) (e : Failure) (down : IsDown env e) where
  -- A loop that ends with its first request, if it sends one.
  abbrev IsFruitless : Desk → Desk × ℕ → Type 0
  IsFruitless d r = KeepsWork d r.0 × (r.1 ≡ 0)

  syncing_failed : (d : Desk) → KeepsWork d (handle_sync_error e (set_syncing true d))
  syncing_failed d =
      let h = handle_sync_error-IsHandled e (set_syncing true d) in
      kept h.work.rows h.work.comparisons h.work.session h.work.writes

  flush_scores_down :
      (passes pass : ℕ) (d : Desk) → IsFruitless d (flush_scores is env passes pass d)
  unfolding flush_scores receive_scores
  flush_scores_down zero pass d = (kept refl refl refl refl, refl)
  flush_scores_down (suc passes) pass d =
      let items = pick_batch d.state.rows batch_limit in
      rw (down.scores pass items (set_syncing true d)) (
        if-elim (IsFruitless d) (is_nil items) _ _ (kept refl refl refl refl, refl)
          (syncing_failed d, refl))

  flush_comparisons_down :
      (passes pass : ℕ) (d : Desk) → IsFruitless d (flush_comparisons is env passes pass d)
  unfolding flush_comparisons receive_comparisons
  flush_comparisons_down zero pass d = (kept refl refl refl refl, refl)
  flush_comparisons_down (suc passes) pass d =
      let items = pick_comparison_batch d.state.comparisons 100 in
      rw (down.comparisons pass items (set_syncing true d)) (
        if-elim (IsFruitless d) (is_nil items) _ _ (kept refl refl refl refl, refl)
          (syncing_failed d, refl))

  -- A flush while every request fails, and nothing else happens, keeps the scores, the
  -- decisions, the session and the waiting writes, is over afterwards, and counts no stale
  -- answer.
  pub do_flush_down :
      (d : Desk)
      → KeepsWork d (do_flush is env true d).0
        × ((do_flush is env true d).0.state.syncing ≡ false)
        × ((do_flush is env true d).1 ≡ 0)
  unfolding do_flush
  do_flush_down d =
      let (w, none_stale) = flush_scores_down max_passes 0 d in
      let after = (flush_scores is env max_passes 0 d).0 in
      let (v, no_stale) = flush_comparisons_down max_passes 0 after in
      let h = trans_work w v in
      (kept h.rows h.comparisons h.session h.writes, refl, omega (arith, none_stale, no_stale))
