-- ===== src/Scoring/Outbox/Accounting.antt =====
-- The counters of `applyResults` of web/src/features/judge/scoring.ts, and which rows leave the outbox.
use platform_for_sudies.Common.{
  ℕ, suc, ◌+◌, ◌≤◌, ◌<◌, String, true, false, not, Option, none, some, List, [], ◌∷◌, ◌≡◌, refl, ap,
  lookup, eq_iff, arith, Dict, keys, filter, length, is_some,
}
use platform_for_sudies.Api.{ScoreItem, ScoreResult, ResultStatus, ok, stale, rejected}
use platform_for_sudies.Tracks.{contains}
use platform_for_sudies.Scoring.Rows.{LocalRow, Rows}
use platform_for_sudies.Scoring.Outbox.{
  ApplyOutcome, result_key, sent_by_key, settle_stale, settle_row, settle_changed, settle,
  answer_item, apply_result, apply_from, apply_results,
}

abbrev total : ApplyOutcome → ℕ
total out = out.ok + out.stale + out.rejected

total-settle_row :
    (status : ResultStatus) (k : String) (row : LocalRow) (res : ScoreResult) (out : ApplyOutcome)
    → total (settle_row status k row res out) ≡ total out + 1
unfolding settle_row settle_stale
total-settle_row ok k row res out = omega arith
total-settle_row stale k row res out = ground arith
total-settle_row rejected k row res out = omega arith

total-settle_changed :
    (status : ResultStatus) (out : ApplyOutcome) → total (settle_changed status out) ≤ total out + 1
total-settle_changed ok out = omega arith
total-settle_changed stale out = omega arith
total-settle_changed rejected out = omega arith

total-settle :
    (k : String) (o : Option LocalRow) (item : ScoreItem) (res : ScoreResult) (out : ApplyOutcome)
    → total (settle k o item res out) ≤ total out + 1
unfolding settle
total-settle k none item res out = total-settle_changed res.status out
total-settle k (some row) item res out =
    ground (arith, total-settle_changed res.status out, total-settle_row res.status k row res out)

abbrev unhandled : List String → List String → List String
unhandled handled ks = filter (λ k. not (contains k handled)) ks

unhandled-cons-le :
    (k : String) (handled ks : List String)
    → length (unhandled (k ∷ handled) ks) ≤ length (unhandled handled ks)
unhandled-cons-le k handled [] = omega arith
unhandled-cons-le k handled (j ∷ ks) = ground (arith, unhandled-cons-le k handled ks)

-- Handling one more of the keys leaves fewer unhandled.
unhandled-cons-lt :
    (k : String) (handled ks : List String)
    → contains k ks ≡ true
    → contains k handled ≡ false
    → length (unhandled (k ∷ handled) ks) < length (unhandled handled ks)
unhandled-cons-lt k handled [] h n = cc
unhandled-cons-lt k handled (j ∷ ks) h n =
    ground (
      arith,
      unhandled-cons-lt k handled ks,
      unhandled-cons-le k handled ks,
      eq_iff j k,
      eq_iff k j,
    )

pub contains-keys {ℓ} :
    {V : Type ℓ} (k : String) (m : Dict V) → contains k (keys m) ≡ is_some (lookup k m)
unfolding lookup
contains-keys k [] = refl
contains-keys k ((j, v) ∷ m) = ground (arith, contains-keys k m)

-- What is counted and what is still unhandled, together.
abbrev account : Dict ScoreItem → ApplyOutcome × List String → ℕ
account sent st = total st.0 + length (unhandled st.1 (keys sent))

account-answer_item :
    (sent : Dict ScoreItem) (k : String) (o : Option ScoreItem) (res : ScoreResult)
    (out : ApplyOutcome) (handled : List String)
    → o ≡ lookup k sent
    → account sent (answer_item o k res (out, handled)) ≤ account sent (out, handled)
unfolding answer_item
account-answer_item sent k none res out handled e = omega arith
account-answer_item sent k (some item) res out handled e = ground (
  arith,
  contains-keys k sent,
  unhandled-cons-lt k handled (keys sent),
  total-settle k (lookup k out.rows) item res out,
)

account-apply_from :
    (sent : Dict ScoreItem) (results : List ScoreResult) (out : ApplyOutcome)
    (handled : List String)
    → account sent (apply_from sent results (out, handled)) ≤ account sent (out, handled)
unfolding apply_from apply_result
account-apply_from sent [] out handled = omega arith
account-apply_from sent (res ∷ results) out handled =
    let (out', handled') = apply_result sent res (out, handled) in
    omega (
      arith,
      account-apply_from sent results out' handled',
      account-answer_item sent (result_key res) (lookup (result_key res) sent) res out handled refl,
    )

unhandled_none : (ks : List String) → length (unhandled [] ks) ≡ length ks
unhandled_none [] = refl
unhandled_none (k ∷ ks) = ap suc (unhandled_none ks)

-- Whatever the server answers, the four counters of a batch add up to at most the number of cells
-- that were sent.
pub apply_results_accounting :
    (rows : Rows) (sent : List ScoreItem) (results : List ScoreResult)
    → (apply_results rows sent results).ok
        + (apply_results rows sent results).stale
        + (apply_results rows sent results).rejected
        + (apply_results rows sent results).unconfirmed
      ≤ length (keys (sent_by_key sent))
unfolding apply_results
apply_results_accounting rows sent results = omega (
  arith,
  account-apply_from (sent_by_key sent) results _ [],
  unhandled_none (keys (sent_by_key sent)),
)
