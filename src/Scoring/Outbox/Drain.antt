-- ===== src/Scoring/Outbox/Drain.antt =====
-- How a batch of web/src/features/judge/scoring.ts that is answered in full empties the outbox.
use platform_for_sudies.Common.{
  ℕ, zero, suc, ◌+◌, ◌≤◌, String, true, false, not, ◌&&◌, ◌||◌, Option, none, some, List, [], ◌∷◌,
  ◌++◌, map, take, filter, length, count, lookup, insert, select, keys, values, is_some, str_eq,
  eq_iff, ◌≡◌, refl, sym, ap, ◌∙◌, subst, arith, All, Dict, IsDict-select, lookup-select,
  lookup-insert, length-append, length-map, sort_by, insert_by, Option-cases, inl, inr, Bool-cases,
  leb,
}
use platform_for_sudies.Api.{ScoreItem, ScoreResult}
use platform_for_sudies.Tracks.{contains}
use platform_for_sudies.Tracks.Distinct.{
  IsDistinct, length-IsDistinct, append-IsDistinct, contains-append, take-IsDistinct,
}
use platform_for_sudies.Scoring.Rows.{LocalRow, Rows, key_of}
use platform_for_sudies.Scoring.Rows.Laws.{IsOwnKey, WellKeyed}
use platform_for_sudies.Scoring.Outbox.{
  ApplyOutcome, item_key, result_key, sent_from, sent_by_key, to_item, to_items, is_outgoing,
  pick_batch, answer_item, apply_result, apply_from, apply_results,
}
use platform_for_sudies.Scoring.Outbox.Accounting.{contains-keys}
use platform_for_sudies.Scoring.Outbox.Batch.{IsOutgoing, pick_batch-IsOutgoing}
use platform_for_sudies.Scoring.Outbox.Keys.{apply_results-WellKeyed}
use platform_for_sudies.Scoring.Outbox.Leaving.{is_waiting, answered_leaves_outbox}
use platform_for_sudies.Scoring.Outbox.Results.{first_for, lookup-apply_results}

-- The keys of the rows that wait to be sent.
abbrev pub waiting_keys : Rows → List String
waiting_keys rows = keys (select (λ k r. is_outgoing r) rows)

-- How many rows wait to be sent.
abbrev pub waiting : Rows → ℕ
waiting rows = count is_outgoing (values rows)

keys-IsDistinct : (m : Rows) → WellKeyed m → IsDistinct (keys m)
keys-IsDistinct [] w = tt
keys-IsDistinct ((j, r) ∷ m) w = (ground (arith, contains-keys j m, w.0), keys-IsDistinct m w.2)

contains-waiting_keys :
    (k : String) (m : Rows) → WellKeyed m → contains k (waiting_keys m) ≡ is_waiting (lookup k m)
contains-waiting_keys k m w =
    contains-keys k (select (λ k r. is_outgoing r) m)
    ∙ ground (arith, lookup-select IsOwnKey (λ k r. is_outgoing r) k m w)

length-waiting_keys : (m : Rows) → length (waiting_keys m) ≡ waiting m
unfolding select
length-waiting_keys [] = refl
length-waiting_keys ((j, r) ∷ m) = ground (arith, length-waiting_keys m)

-- The keys of a batch.
abbrev sent_keys : List ScoreItem → List String
sent_keys items = map item_key items

is_some-sent_from :
    (m : Dict ScoreItem) (items : List ScoreItem) (k : String)
    → is_some (lookup k (sent_from m items))
      ≡ (is_some (lookup k m) || contains k (sent_keys items))
unfolding sent_from
is_some-sent_from m [] k = ground arith
is_some-sent_from m (s ∷ items) k =
    ground
      (arith, is_some-sent_from (insert (item_key s) s m) items k, lookup-insert (item_key s) k s m)

is_some-sent_by_key :
    (items : List ScoreItem) (k : String)
    → is_some (lookup k (sent_by_key items)) ≡ contains k (sent_keys items)
unfolding lookup
is_some-sent_by_key items k = is_some-sent_from [] items k

contains-insert_by :
    (r : LocalRow) (rs : List LocalRow) (k : String)
    → contains k (map key_of (insert_by (λ r. r.edited_at) r rs))
      ≡ (str_eq (key_of r) k || contains k (map key_of rs))
unfolding insert_by
contains-insert_by r [] k = refl
contains-insert_by r (s ∷ rs) k = ground (arith, contains-insert_by r rs k)

insert_by-IsDistinct :
    (r : LocalRow) (rs : List LocalRow)
    → contains (key_of r) (map key_of rs) ≡ false
    → IsDistinct (map key_of rs)
    → IsDistinct (map key_of (insert_by (λ r. r.edited_at) r rs))
unfolding insert_by
insert_by-IsDistinct r [] fresh d = (refl, tt)
insert_by-IsDistinct r (s ∷ rs) fresh d = elim (Bool-cases (leb r.edited_at s.edited_at)) [
  | inl first ↦ rw first (fresh, d)
  | inr after ↦ rw after (
    ground (
      arith,
      contains-insert_by r rs (key_of s),
      d.0,
      eq_iff (key_of r) (key_of s),
      eq_iff (key_of s) (key_of r),
    ),
    insert_by-IsDistinct r rs (ground arith) d.1,
  )
]

contains-sort_by :
    (rs : List LocalRow) (k : String)
    → contains k (map key_of (sort_by (λ r. r.edited_at) rs)) ≡ contains k (map key_of rs)
unfolding sort_by
contains-sort_by [] k = refl
contains-sort_by (r ∷ rs) k =
    contains-insert_by r (sort_by (λ r. r.edited_at) rs) k ∙ ground (arith, contains-sort_by rs k)

sort_by-IsDistinct :
    (rs : List LocalRow)
    → IsDistinct (map key_of rs)
    → IsDistinct (map key_of (sort_by (λ r. r.edited_at) rs))
unfolding sort_by
sort_by-IsDistinct [] d = tt
sort_by-IsDistinct (r ∷ rs) d =
    insert_by-IsDistinct r (sort_by (λ r. r.edited_at) rs) (contains-sort_by rs (key_of r) ∙ d.0)
      (sort_by-IsDistinct rs d.1)

outgoing_keys :
    (m : Rows) → WellKeyed m → map key_of (filter is_outgoing (values m)) ≡ waiting_keys m
unfolding select
outgoing_keys [] w = refl
outgoing_keys ((j, r) ∷ m) w = elim (Bool-cases (is_outgoing r)) [
  | inl out ↦ rw (out, outgoing_keys m w.2, w.1) refl
  | inr rest ↦ rw (rest, outgoing_keys m w.2) refl
]

taken_keys :
    (n : ℕ) (rs : List LocalRow) → sent_keys (take n (map to_item rs)) ≡ take n (map key_of rs)
unfolding to_item
taken_keys zero rs = refl
taken_keys (suc n) [] = refl
taken_keys (suc n) (r ∷ rs) = ap (◌∷◌ (key_of r)) (taken_keys n rs)

-- A batch has no cell twice.
sent_keys-IsDistinct :
    (rows : Rows) (limit : ℕ) → WellKeyed rows → IsDistinct (sent_keys (pick_batch rows limit))
unfolding pick_batch to_items
sent_keys-IsDistinct rows limit w =
    let out = filter is_outgoing (values rows) in
    let kept = IsDict-select IsOwnKey (λ k r. is_outgoing r) rows w in
    let own = subst IsDistinct (sym (outgoing_keys rows w)) (keys-IsDistinct _ kept) in
    subst IsDistinct (sym (taken_keys limit (sort_by (λ r. r.edited_at) out)))
      (take-IsDistinct limit _ (sort_by-IsDistinct out own))

-- The cells of a batch wait to be sent.
sent-is_waiting :
    (rows : Rows) (items : List ScoreItem) (k : String)
    → All (IsOutgoing rows) items
    → contains k (sent_keys items) ≡ true
    → is_waiting (lookup k rows) ≡ true
sent-is_waiting rows [] k h c = absurd (ground arith)
sent-is_waiting rows (i ∷ items) k (out, h) c = elim (Bool-cases (str_eq (item_key i) k)) [
  | inl same ↦ let (row, found, unsent, made) = out in ground (arith, eq_iff (item_key i) k)
  | inr other ↦ sent-is_waiting rows items k h (ground arith)
]

-- The server answers every cell that it is sent.
abbrev pub IsAnswered : List ScoreItem → List ScoreResult → Type 0
IsAnswered items results =
    (k : String) → contains k (sent_keys items) ≡ true → is_some (first_for k results) ≡ true

module _ (rows : Rows) (limit : ℕ) (results : List ScoreResult) (w : WellKeyed rows)
    (all : IsAnswered (pick_batch rows limit) results) where
  abbrev batch : List ScoreItem
  batch = pick_batch rows limit

  abbrev after : Rows
  after = (apply_results rows batch results).rows

  -- What waits afterwards waited before, and was not in the batch.
  still_waiting :
      (k : String)
      → is_waiting (lookup k after) ≡ true
      → (is_waiting (lookup k rows) ≡ true) × (contains k (sent_keys batch) ≡ false)
  still_waiting k h = elim (Option-cases (lookup k (sent_by_key batch))) [
    | inl unsent ↦
        ground (arith, lookup-apply_results rows batch results k, is_some-sent_by_key batch k)
    | inr (item, sent) ↦ elim (Option-cases (first_for k results)) [
      | inl unanswered ↦ absurd (ground (arith, is_some-sent_by_key batch k, all k))
      | inr (res, r) ↦
          absurd (ground (arith, answered_leaves_outbox rows limit results k item res w sent r))
    ]
  ]

  was_waiting :
      (k : String)
      → contains k (waiting_keys after ++ sent_keys batch) ≡ true
      → contains k (waiting_keys rows) ≡ true
  was_waiting k c =
      let later = apply_results-WellKeyed rows batch results w in
      contains-waiting_keys k rows w ∙ elim (Bool-cases (contains k (sent_keys batch))) [
        | inl sent ↦ sent-is_waiting rows batch k (pick_batch-IsOutgoing rows limit w) sent
        | inr unsent ↦
            (still_waiting k (
              sym (contains-waiting_keys k after later)
              ∙ ground (arith, contains-append k (waiting_keys after) (sent_keys batch)))).0
      ]

  -- The outbox shrinks by the whole batch.
  pub waiting-apply_results : waiting after + length batch ≤ waiting rows
  waiting-apply_results =
      let later = apply_results-WellKeyed rows batch results w in
      let kept = IsDict-select IsOwnKey (λ k r. is_outgoing r) after later in
      let whole =
        append-IsDistinct (waiting_keys after) (sent_keys batch) (keys-IsDistinct _ kept)
          (sent_keys-IsDistinct rows limit w)
          (λ k c. (still_waiting k (sym (contains-waiting_keys k after later) ∙ c)).1) in
      omega (
        arith,
        length-IsDistinct (waiting_keys after ++ sent_keys batch) (waiting_keys rows) whole
            was_waiting,
        length-append (waiting_keys after) (sent_keys batch),
        length-waiting_keys after,
        length-waiting_keys rows,
        length-map item_key batch,
      )

contains-answer_item :
    (o : Option ScoreItem) (j : String) (res : ScoreResult) (out : ApplyOutcome)
    (handled : List String) (k : String)
    → contains k (answer_item o j res (out, handled)).1
      ≡ (contains k handled || (is_some o && str_eq j k))
unfolding answer_item
contains-answer_item none j res out handled k = ground arith
contains-answer_item (some item) j res out handled k = ground (arith, eq_iff j k)

-- The cells that are handled: those that were sent and answered.
contains-apply_from :
    (sent : Dict ScoreItem) (results : List ScoreResult) (out : ApplyOutcome)
    (handled : List String) (k : String)
    → contains k (apply_from sent results (out, handled)).1
      ≡ (contains k handled || (is_some (lookup k sent) && is_some (first_for k results)))
unfolding apply_from apply_result
contains-apply_from sent [] out handled k = ground arith
contains-apply_from sent (res ∷ results) out handled k =
    let (out', handled') = apply_result sent res (out, handled) in
    ground (
      arith,
      contains-apply_from sent results out' handled' k,
      contains-answer_item (lookup (result_key res) sent) (result_key res) res out handled k,
      eq_iff (result_key res) k,
    )

none_unhandled :
    (handled ks : List String)
    → ((k : String) → contains k ks ≡ true → contains k handled ≡ true)
    → length (filter (λ k. not (contains k handled)) ks) ≡ 0
none_unhandled handled [] h = refl
none_unhandled handled (k ∷ ks) h =
    ground (arith, h k, eq_iff k k, none_unhandled handled ks (λ j c. h j (ground arith)))

-- A batch that is answered in full leaves nothing unconfirmed.
pub unconfirmed-apply_results :
    (rows : Rows) (items : List ScoreItem) (results : List ScoreResult)
    → IsAnswered items results
    → (apply_results rows items results).unconfirmed ≡ 0
unfolding apply_results
unconfirmed-apply_results rows items results answered =
    let first : ApplyOutcome = record {
      rows = rows;
      ok = 0;
      stale = 0;
      rejected = 0;
      unconfirmed = 0;
    } in
    none_unhandled _ (keys (sent_by_key items)) (λ k c. ground (
      arith,
      contains-apply_from (sent_by_key items) results first [] k,
      contains-keys k (sent_by_key items),
      is_some-sent_by_key items k,
      answered k,
    ))
