-- ===== src/Scoring/Outbox/Batch.antt =====
-- `pickBatch` of web/src/features/judge/scoring.ts: what is sent, in which order.
use mathlib.Core.List.{Perm}
use platform_for_sudies.Common.{
  zero, suc, take, ◌++◌, ◌&&◌, not, sort_by, sort_by-perm, take-append-drop, truthy, false, arith,
  ℕ, ◌≤◌, min, true, some, List, [], ◌∷◌, map, ◌≡◌, refl, sym, ◌∙◌, ap, lookup, values, filter,
  count, drop, length, All, All-take, IsSortedBy, IsSortedBy-take, sort_by-IsSortedBy, take-le-drop,
  length-take, length-map, length-filter-count, All-sort_by, All-map, All-filter_impl, All-values,
  HasEntry, length-sort_by, subst,
}
use platform_for_sudies.Api.{ScoreItem}
use platform_for_sudies.Scoring.Rows.{LocalRow, Rows}
use platform_for_sudies.Scoring.Rows.Laws.{IsOwnKey, WellKeyed}
use platform_for_sudies.Scoring.Outbox.{item_key, to_item, to_items, is_outgoing, pick_batch}

abbrev outgoing : Rows → List LocalRow
outgoing rows = filter is_outgoing (values rows)

-- The rows that are to be sent: dirty, and without an error.
abbrev pub unsent : Rows → List LocalRow
unsent rows = filter (λ r. r.dirty && not (truthy r.error)) (values rows)

-- A batch: the rows that it sends, oldest first, and the rows that it leaves. Together they are the
-- unsent rows, nothing that is left is older than anything that is sent, and nothing is left while
-- the limit allows more.
pub record IsPicked (rows : Rows) (limit : ℕ) (batch : List ScoreItem) : Type 0 where
  pub sent : List LocalRow
  pub left : List LocalRow
  pub items : batch ≡ map to_item sent
  pub all : Perm (sent ++ left) (unsent rows)
  pub oldest_first : IsSortedBy (λ r. r.edited_at) sent
  pub older : All (λ a. All (λ b. a.edited_at ≤ b.edited_at) left) sent
  pub full : length sent ≡ min limit (length (unsent rows))

map-take : (n : ℕ) (rs : List LocalRow) → take n (map to_item rs) ≡ map to_item (take n rs)
map-take zero rs = refl
map-take (suc n) [] = refl
map-take (suc n) (r ∷ rs) = ap (λ xs. to_item r ∷ xs) (map-take n rs)

-- A batch holds rows that are dirty and without an error, oldest first; with the rows that it
-- leaves out they are all such rows, nothing that is left out is older than anything that is
-- sent, and a batch has as many rows as there are, or as the limit allows.
pub pick_batch_oldest_first :
    (rows : Rows) (limit : ℕ) → IsPicked rows limit (pick_batch rows limit)
unfolding pick_batch to_items
pick_batch_oldest_first rows limit =
    let time : LocalRow → ℕ = λ r. r.edited_at in
    let sorted = sort_by time (outgoing rows) in
    let s = sort_by-IsSortedBy time (outgoing rows) in
    record {
      sent = take limit sorted;
      left = drop limit sorted;
      items = map-take limit sorted;
      all =
          subst (λ xs. Perm xs (unsent rows)) (sym (take-append-drop limit sorted))
            (sort_by-perm time (outgoing rows));
      oldest_first = IsSortedBy-take time limit sorted s;
      older = take-le-drop time limit sorted s;
      full = length-take limit sorted ∙ ap (min limit) (length-sort_by time (outgoing rows));
    }

-- The stored row that an item was made of: dirty, and without an error.
abbrev pub IsOutgoing : Rows → ScoreItem → Type 0
IsOutgoing rows item =
    (row : LocalRow) × (lookup (item_key item) rows ≡ some row)
    × ((row.dirty ≡ true) × (truthy row.error ≡ false))
    × (item ≡ to_item row)

made_of :
    (rows : Rows) (row : LocalRow)
    → HasEntry IsOwnKey rows row
    → is_outgoing row ≡ true
    → IsOutgoing rows (to_item row)
unfolding to_item
made_of rows row (k, e, own) p =
    (row, subst (λ j. lookup j rows ≡ some row) (sym own) e, (ground arith, ground arith), refl)

-- For rows under their own keys, every item of a batch is the current version of a dirty row that
-- is not parked.
pub pick_batch-IsOutgoing :
    (rows : Rows) (limit : ℕ) → WellKeyed rows → All (IsOutgoing rows) (pick_batch rows limit)
unfolding pick_batch to_items
pick_batch-IsOutgoing rows limit w = All-take (IsOutgoing rows) limit _ (
    All-map (IsOutgoing rows) to_item _ (
      All-sort_by (λ r. r.edited_at) (λ r. IsOutgoing rows (to_item r)) (outgoing rows)
        (All-filter_impl is_outgoing (made_of rows) (values rows) (All-values IsOwnKey rows w))))

-- A batch holds the whole outbox, or as much as the limit allows.
pub length-pick_batch :
    (rows : Rows) (limit : ℕ)
    → length (pick_batch rows limit) ≡ min limit (count is_outgoing (values rows))
unfolding pick_batch to_items
length-pick_batch rows limit =
    length-take limit _
    ∙ ap (min limit) (
        length-map to_item _
        ∙ length-sort_by (λ r. r.edited_at) (outgoing rows)
        ∙ length-filter-count is_outgoing (values rows))
