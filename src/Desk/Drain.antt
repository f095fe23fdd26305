-- ===== src/Desk/Drain.antt =====
-- The loop of `doFlush` in web/src/features/judge/controller.ts empties the outbox of scores.
use platform_for_sudies.Common.{
  ℕ, zero, suc, ◌+◌, ◌*◌, ◌≤◌, true, List, ◌≡◌, refl, sym, ap, subst, if-elim_known, [], ◌∷◌, arith,
  is_nil, length,
}
use platform_for_sudies.Api.{ScoreItem, ScoreResult}
use platform_for_sudies.Client.{reply}
use platform_for_sudies.Scoring.Rows.Laws.{WellKeyed}
use platform_for_sudies.Scoring.Outbox.{pick_batch, batch_limit, apply_results}
use platform_for_sudies.Scoring.Outbox.Batch.{length-pick_batch}
use platform_for_sudies.Scoring.Outbox.Keys.{apply_results-WellKeyed}
use platform_for_sudies.Scoring.Outbox.Drain.{
  waiting, IsAnswered, waiting-apply_results, unconfirmed-apply_results,
}
use platform_for_sudies.Desk.{Desk, Identity, persist}
use platform_for_sudies.Desk.Sync.{
  Environment, set_syncing, receive_scores, flush_scores, max_passes,
}

-- A server that answers every cell, `answers` being its results, while nothing else happens.
pub record IsAnswering (env : Environment) : Type 0 where
  pub answers : ℕ → List ScoreItem → List ScoreResult
  pub puts :
      (pass : ℕ) (items : List ScoreItem) (d : Desk)
      → env.put_scores pass items d ≡ (d, reply (answers pass items))
  pub all : (pass : ℕ) (items : List ScoreItem) → IsAnswered items (answers pass items)

module _ (is : Identity) (env : Environment) (server : IsAnswering env) where
  rows-receive_scores :
      (items : List ScoreItem) (d : Desk) (results : List ScoreResult)
      → (receive_scores is env items (d, reply results)).0.state.rows
        ≡ (apply_results d.state.rows items results).rows
  unfolding receive_scores persist
  rows-receive_scores items d results = ground arith

  goes_on :
      (items : List ScoreItem) (d : Desk) (results : List ScoreResult)
      → IsAnswered items results
      → (receive_scores is env items (d, reply results)).2 ≡ true
  unfolding receive_scores
  goes_on items d results h = ground (arith, unconfirmed-apply_results d.state.rows items results h)

  nil-length : (items : List ScoreItem) → is_nil items ≡ true → length items ≡ 0
  nil-length [] h = refl
  nil-length (i ∷ items) h = absurd (ground arith)

  abbrev IsDrained : Desk × ℕ → Type 0
  IsDrained r = waiting r.0.state.rows ≡ 0

  flush_scores-IsDrained :
      (passes pass : ℕ) (d : Desk)
      → WellKeyed d.state.rows
      → waiting d.state.rows ≤ passes * 100
      → IsDrained (flush_scores is env passes pass d)
  unfolding flush_scores
  flush_scores-IsDrained zero pass d w few = omega (arith, few)
  flush_scores-IsDrained (suc passes) pass d w few =
      let items = pick_batch d.state.rows batch_limit in
      let results = server.answers pass items in
      let answered = server.all pass items in
      let begun = set_syncing true d in
      let received = receive_scores is env items (begun, reply results) in
      let same = rows-receive_scores items begun results in
      let keyed =
        subst WellKeyed (sym same) (apply_results-WellKeyed d.state.rows items results w) in
      let fewer = waiting-apply_results d.state.rows batch_limit results w answered in
      let left : waiting received.0.state.rows ≤ passes * 100 =
        omega (arith, few, fewer, ap waiting same, length-pick_batch d.state.rows batch_limit) in
      rw (server.puts pass items begun, goes_on items begun results answered)
        (if-elim_known IsDrained (is_nil items) (d, 0) _
          (λ nothing.
            omega (arith, nil-length items nothing, length-pick_batch d.state.rows batch_limit))
          (flush_scores-IsDrained passes (pass + 1) received.0 keyed left))

  -- With a server that answers every cell that it is sent, while nothing else happens to the
  -- desk, the passes of one flush are enough for two thousand unsent scores under their own
  -- keys: none is left to be sent.
  pub flush_scores_drains :
      (d : Desk)
      → WellKeyed d.state.rows
      → waiting d.state.rows ≤ 2000
      → waiting (flush_scores is env max_passes 0 d).0.state.rows ≡ 0
  flush_scores_drains d w few = flush_scores-IsDrained max_passes 0 d w few
