-- ===== src/Pairwise/Outbox/Laws.antt =====
-- `applyComparisonResults` of web/src/features/judge/pairwise.ts, pair by pair.
use platform_for_sudies.Common.{
  String, false, ◌&&◌, ◌||◌, Option, none, some, List, [], ◌∷◌, ◌≡◌, refl, inl, inr, lookup,
  if◌then◌else◌, str_eq, eq_iff, arith, Bool-cases, lookup-insert, lookup-remove, Dict, is_some,
}
use platform_for_sudies.Api.{
  ComparisonItem, ComparisonResult, ResultStatus, ok, stale, rejected, ServerComparison,
}
use platform_for_sudies.I18n.{stale_no_server_text}
use platform_for_sudies.Tracks.{contains}
use platform_for_sudies.Scoring.Outbox.{error_message}
use platform_for_sudies.Pairwise.{LocalComparison, Comparisons}
use platform_for_sudies.Pairwise.Outbox.{
  ComparisonOutcome, sent_by_id, is_unchanged, is_not_found, stale_row, settle_stale,
  settle_rejected, settle_row, settle_changed, settle, answer_item, apply_from,
  apply_comparison_results,
}

-- The answer that counts for a pair: the first one.
abbrev pub first_for : String → List ComparisonResult → Option ComparisonResult
first_for id [] = none
first_for id (r ∷ results) = if str_eq r.id id then some r else first_for id results

abbrev overruled : LocalComparison → Option ServerComparison → Option LocalComparison
overruled row none = some (record row { error = some stale_no_server_text })
overruled row (some server) = some (stale_row row server)

abbrev refused : LocalComparison → Option String → Option LocalComparison
refused row error =
    if is_not_found error then none else some (record row { error = some (error_message error) })

-- What an answer makes of a decision that is as it was sent.
unfoldable pub answered : LocalComparison → ComparisonResult → Option LocalComparison
answered row res = elim res.status [
  | ok ↦ some (record row { dirty = false; error = none })
  | stale ↦ overruled row res.server
  | rejected ↦ refused row res.error
]

-- What an answer makes of a pair: nothing, unless the decision is the version that was sent.
unfoldable pub settled :
    Option LocalComparison → ComparisonItem → ComparisonResult → Option LocalComparison
settled none item res = none
settled (some row) item res = if is_unchanged row item then answered row res else some row

comparisons-settle_changed :
    (status : ResultStatus) (out : ComparisonOutcome)
    → (settle_changed status out).comparisons ≡ out.comparisons
comparisons-settle_changed ok out = refl
comparisons-settle_changed stale out = refl
comparisons-settle_changed rejected out = refl

lookup-settle_stale :
    (row : LocalComparison) (id j : String) (server : Option ServerComparison)
    (out : ComparisonOutcome)
    → lookup j (settle_stale row id server out).comparisons
      ≡ (if str_eq id j then overruled row server else lookup j out.comparisons)
unfolding settle_stale
lookup-settle_stale row id j none out = lookup-insert id j _ out.comparisons
lookup-settle_stale row id j (some server) out = lookup-insert id j _ out.comparisons

lookup-settle_rejected :
    (row : LocalComparison) (id j : String) (error : Option String) (out : ComparisonOutcome)
    → lookup j (settle_rejected row id error out).comparisons
      ≡ (if str_eq id j then refused row error else lookup j out.comparisons)
unfolding settle_rejected
lookup-settle_rejected row id j error out = elim (Bool-cases (is_not_found error)) [
  | inl gone ↦ rw gone (lookup-remove id j out.comparisons)
  | inr kept ↦ rw kept (lookup-insert id j _ out.comparisons)
]

lookup-settle_row :
    (status : ResultStatus) (row : LocalComparison) (res : ComparisonResult)
    (out : ComparisonOutcome) (j : String)
    → status ≡ res.status
    → lookup j (settle_row status row res out).comparisons
      ≡ (if str_eq res.id j then answered row res else lookup j out.comparisons)
unfolding settle_row answered
lookup-settle_row ok row res out j e =
    ground
      (arith, lookup-insert res.id j (record row { dirty = false; error = none }) out.comparisons)
lookup-settle_row stale row res out j e =
    ground (arith, lookup-settle_stale row res.id j res.server out)
lookup-settle_row rejected row res out j e =
    ground (arith, lookup-settle_rejected row res.id j res.error out)

lookup-settle :
    (o : Option LocalComparison) (item : ComparisonItem) (res : ComparisonResult)
    (out : ComparisonOutcome) (j : String)
    → o ≡ lookup res.id out.comparisons
    → lookup j (settle o item res out).comparisons
      ≡ (if str_eq res.id j then settled o item res else lookup j out.comparisons)
unfolding settle settled
lookup-settle none item res out j e =
    ground (arith, comparisons-settle_changed res.status out, eq_iff res.id j)
lookup-settle (some row) item res out j e = ground (
  arith,
  comparisons-settle_changed res.status out,
  eq_iff res.id j,
  lookup-settle_row res.status row res out j refl,
)

-- What is left of a pair after the answers, from the item sent for it.
abbrev pub answered_pair :
    Option LocalComparison
    → Option ComparisonItem
    → Option ComparisonResult
    → Option LocalComparison
answered_pair o none res = o
answered_pair o (some item) none = o
answered_pair o (some item) (some res) = settled o item res

lookup-answer_item :
    (o : Option ComparisonItem) (res : ComparisonResult) (out : ComparisonOutcome)
    (handled : List String) (j : String)
    → lookup j (answer_item o res (out, handled)).0.comparisons ≡ (
        if str_eq res.id j
        then (if contains j handled
            then lookup j out.comparisons
            else answered_pair (lookup j out.comparisons) o (some res))
        else lookup j out.comparisons)
unfolding answer_item
lookup-answer_item none res out handled j = ground arith
lookup-answer_item (some item) res out handled j =
    ground
      (arith, eq_iff res.id j, lookup-settle (lookup res.id out.comparisons) item res out j refl)

contains-answer_item :
    (o : Option ComparisonItem) (res : ComparisonResult) (out : ComparisonOutcome)
    (handled : List String) (j : String)
    → contains j (answer_item o res (out, handled)).1
      ≡ (contains j handled || (str_eq res.id j && is_some o))
unfolding answer_item
contains-answer_item none res out handled j = ground arith
contains-answer_item (some item) res out handled j = ground (arith, eq_iff res.id j)

lookup-apply_from :
    (sent : Dict ComparisonItem) (results : List ComparisonResult) (out : ComparisonOutcome)
    (handled : List String) (j : String)
    → lookup j (apply_from sent results (out, handled)).0.comparisons ≡ (
        if contains j handled
        then lookup j out.comparisons
        else answered_pair (lookup j out.comparisons) (lookup j sent) (first_for j results))
unfolding apply_from
lookup-apply_from sent [] out handled j = ground arith
lookup-apply_from sent (res ∷ results) out handled j =
    let (out', handled') = answer_item (lookup res.id sent) res (out, handled) in
    ground (
      arith,
      eq_iff res.id j,
      lookup-apply_from sent results out' handled' j,
      lookup-answer_item (lookup res.id sent) res out handled j,
      contains-answer_item (lookup res.id sent) res out handled j,
    )

-- The answers to a batch of decisions leave each pair as its first answer says, if the decision
-- is still the version that was sent, and untouched otherwise.
pub lookup-apply_comparison_results :
    (c : Comparisons) (sent : List ComparisonItem) (results : List ComparisonResult) (id : String)
    → lookup id (apply_comparison_results c sent results).comparisons
      ≡ answered_pair (lookup id c) (lookup id (sent_by_id sent)) (first_for id results)
unfolding apply_comparison_results
lookup-apply_comparison_results c sent results id =
    lookup-apply_from (sent_by_id sent) results _ [] id
