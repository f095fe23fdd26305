-- ===== src/Scoring/Outbox/Leaving.antt =====
-- Which rows leave the outbox when a batch of web/src/features/judge/scoring.ts is answered.
use platform_for_sudies.Common.{
  ℕ, String, Bool, true, false, Option, none, some, List, [], ◌∷◌, ◌≡◌, refl, lookup, insert,
  if◌then◌else◌, arith, Dict, All, IsDict, IsDict-insert, lookup-IsDict, truthy,
}
use platform_for_sudies.Api.{ScoreItem, ScoreResult}
use platform_for_sudies.Scoring.Rows.{LocalRow, Rows}
use platform_for_sudies.Scoring.Rows.Laws.{WellKeyed}
use platform_for_sudies.Scoring.Outbox.{
  item_key, sent_from, sent_by_key, apply_results, error_message, pick_batch, is_outgoing, to_item,
}
use platform_for_sudies.Scoring.Outbox.Results.{first_for, answered, settled, lookup-apply_results}
use platform_for_sudies.Scoring.Outbox.Batch.{IsOutgoing, pick_batch-IsOutgoing}

-- What holds of every item of a batch holds of the items under its keys.
IsSent : (ScoreItem → Type 0) → String → ScoreItem → Type 0
IsSent P k item = (item_key item ≡ k) × P item

sent_from-IsDict :
    (P : ScoreItem → Type 0) (m : Dict ScoreItem) (sent : List ScoreItem)
    → All P sent
    → IsDict (IsSent P) m
    → IsDict (IsSent P) (sent_from m sent)
unfolding sent_from IsSent
sent_from-IsDict P m [] h d = d
sent_from-IsDict P m (s ∷ sent) (p, h) d =
    sent_from-IsDict P (insert (item_key s) s m) sent h
      (IsDict-insert (IsSent P) (item_key s) s m (refl, p) d)

pub sent_by_key-All :
    (P : ScoreItem → Type 0) (sent : List ScoreItem) (k : String) (item : ScoreItem)
    → All P sent
    → lookup k (sent_by_key sent) ≡ some item
    → (item_key item ≡ k) × P item
unfolding IsSent
sent_by_key-All P sent k item h e =
    lookup-IsDict (IsSent P) k (sent_by_key sent) item (sent_from-IsDict P [] sent h tt) e

truthy-if :
    (b : Bool) (s t : String)
    → truthy (some (if b then s else t)) ≡ (if b then truthy (some s) else truthy (some t))
truthy-if true s t = refl
truthy-if false s t = refl

if_same : (b x : Bool) → (if b then x else x) ≡ x
if_same true x = refl
if_same false x = refl

-- A message is never empty, so a rejected row is always parked.
truthy-error_message : (code : Option String) → truthy (some (error_message code)) ≡ true
unfolding error_message
truthy-error_message none = refl
truthy-error_message (some code) = simp (truthy-if, if_same)

abbrev pub is_waiting : Option LocalRow → Bool
is_waiting none = false
is_waiting (some row) = is_outgoing row

answered_leaves : (row : LocalRow) (res : ScoreResult) → is_waiting (answered row res) ≡ false
unfolding answered
answered_leaves row res = ground (arith, truthy-error_message res.error)

-- A row that was sent and answered is no longer in the outbox: it is confirmed, replaced,
-- deleted or parked, so no answered row is sent again by itself.
pub answered_leaves_outbox :
    (rows : Rows) (limit : ℕ) (results : List ScoreResult) (k : String) (item : ScoreItem)
    (res : ScoreResult)
    → WellKeyed rows
    → lookup k (sent_by_key (pick_batch rows limit)) ≡ some item
    → first_for k results ≡ some res
    → is_waiting (lookup k (apply_results rows (pick_batch rows limit) results).rows) ≡ false
unfolding settled to_item
answered_leaves_outbox rows limit results k item res w e r =
    let (own, row_of) =
      sent_by_key-All (IsOutgoing rows) (pick_batch rows limit) k item
        (pick_batch-IsOutgoing rows limit w) e in
    let (row, found, out, made) = row_of in
    ground
      (arith, lookup-apply_results rows (pick_batch rows limit) results k, answered_leaves row res)
