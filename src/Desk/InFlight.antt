-- ===== src/Desk/InFlight.antt =====
-- What may happen to the rows while a batch of web/src/features/judge/controller.ts is in flight, and
-- why an answer can be matched with the version that was sent. Snapshots and answers run on one
-- serial queue, so only the judge acts meanwhile.
use platform_for_sudies.Common.{
  ℕ, ◌<◌, String, true, false, ◌&&◌, Option, none, some, List, [], ◌∷◌, ◌≡◌, refl, inl, inr, ◌⊎◌,
  lookup, str_eq, eq_iff, arith, Bool-cases, Option-cases, subst, truthy, and_then, if-elim,
}
use platform_for_sudies.Api.{ScoreItem, ScoreResult, EventStatus, Team, Criterion}
use platform_for_sudies.Scoring.Rows.{
  LocalRow, Rows, Patch, cell_key, next_edited_at, edited_row, apply_edit, note_row, apply_note,
  apply_note_from, skips_note,
}
use platform_for_sudies.Scoring.Rows.Laws.{
  IsOwnKey, WellKeyed, lookup-apply_edit, apply_edit-WellKeyed, apply_note-WellKeyed,
}
use platform_for_sudies.Scoring.Guards.{is_retryable}
use platform_for_sudies.Scoring.Sheet.{dismiss_outside_sheet}
use platform_for_sudies.Scoring.Sheet.Prune.{
  lookup-dismiss_outside_sheet, dismiss_outside_sheet-WellKeyed,
}
use platform_for_sudies.Scoring.Outbox.{sent_by_key, pick_batch, apply_results, to_item, sent_note}
use platform_for_sudies.Scoring.Outbox.Batch.{IsOutgoing, pick_batch-IsOutgoing}
use platform_for_sudies.Scoring.Outbox.Leaving.{sent_by_key-All}
use platform_for_sudies.Scoring.Outbox.Results.{first_for, settled, lookup-apply_results}
use platform_for_sudies.Desk.Edits.{retried_row, retried_rows}

-- One action of the judge on the rows.
pub data Action : Rows → Rows → Type 0 where
  score :
      (rows : Rows) (t c : String) (value : Option ℕ) (note : String) (now : ℕ)
      → Action rows (apply_edit rows t c (record { value_x100 = some value; note = none }) note now)
  write_note :
      (rows : Rows) (keys : List String) (note : String) (now : ℕ)
      → Action rows (apply_note rows keys note now)
  retry : (rows : Rows) (status : EventStatus) → Action rows (retried_rows status rows)
  dismiss :
      (rows : Rows) (teams : List Team) (criteria : List Criterion)
      → Action rows (dismiss_outside_sheet rows teams criteria)

pub data Actions (start : Rows) : Rows → Type 0 where
  none_yet : Actions start start
  then_act : {rows rows' : Rows} → Actions start rows → Action rows rows' → Actions start rows'

-- The row is the version that was sent, or a later one; in both cases it is not parked.
pub record IsLaterThan (old row : LocalRow) : Type 0 where
  pub unparked : truthy row.error ≡ false
  pub dirty : row.dirty ≡ true
  pub later :
      (old.edited_at < row.edited_at)
      ⊎ ((row.edited_at ≡ old.edited_at)
          × (row.value_x100 ≡ old.value_x100)
          × (row.note ≡ old.note))

abbrev IsHeld : LocalRow → Option LocalRow → Type 0
IsHeld old o = (row : LocalRow) × (o ≡ some row) × IsLaterThan old row

edited-IsLaterThan :
    (old row : LocalRow) (t c : String) (patch : Patch) (note : String) (now : ℕ)
    → IsLaterThan old row
    → IsLaterThan old (edited_row (some row) t c patch note now)
unfolding edited_row next_edited_at
edited-IsLaterThan old row t c patch note now h = record {
  unparked = refl;
  dirty = refl;
  later = inl (ground arith);
}

apply_edit-IsHeld :
    (old : LocalRow) (k : String) (rows : Rows) (t c : String) (patch : Patch) (note : String)
    (now : ℕ)
    → IsHeld old (lookup k rows)
    → IsHeld old (lookup k (apply_edit rows t c patch note now))
apply_edit-IsHeld old k rows t c patch note now (row, e, h) =
    elim (Bool-cases (str_eq (cell_key t c) k)) [
      | inl same ↦ (
        edited_row (some row) t c patch note now,
        ground (arith, lookup-apply_edit rows t c patch note now k, eq_iff (cell_key t c) k),
        edited-IsLaterThan old row t c patch note now h,
      )
      | inr other ↦ (row, ground (arith, lookup-apply_edit rows t c patch note now k), h)
    ]

note_row-IsHeld :
    (old : LocalRow) (k : String) (o : Option LocalRow) (note : String) (now : ℕ) (next : Rows)
    → IsHeld old (lookup k next)
    → IsHeld old (lookup k (note_row o note now next))
unfolding note_row
note_row-IsHeld old k none note now next h = h
note_row-IsHeld old k (some row) note now next h =
    if-elim (λ (rows : Rows). IsHeld old (lookup k rows)) (skips_note (some row) note) next
      (apply_edit next row.team_id row.criterion_id (record { value_x100 = none; note = some note })
        "" now)
      h (apply_edit-IsHeld old k next row.team_id row.criterion_id _ "" now h)

apply_note_from-IsHeld :
    (old : LocalRow) (k : String) (rows next : Rows) (keys : List String) (note : String) (now : ℕ)
    → IsHeld old (lookup k next)
    → IsHeld old (lookup k (apply_note_from rows next keys note now))
unfolding apply_note_from
apply_note_from-IsHeld old k rows next [] note now h = h
apply_note_from-IsHeld old k rows next (j ∷ keys) note now h =
    apply_note_from-IsHeld old k rows (note_row (lookup j rows) note now next) keys note now
      (note_row-IsHeld old k (lookup j rows) note now next h)

apply_note-IsHeld :
    (old : LocalRow) (k : String) (rows : Rows) (keys : List String) (note : String) (now : ℕ)
    → IsHeld old (lookup k rows)
    → IsHeld old (lookup k (apply_note rows keys note now))
unfolding apply_note
apply_note-IsHeld old k rows keys note now h =
    apply_note_from-IsHeld old k rows rows keys note now h

retried_row_unparked :
    (status : EventStatus) (row : LocalRow)
    → truthy row.error ≡ false
    → retried_row status row ≡ row
unfolding retried_row
retried_row_unparked status row e = rw e

lookup-retried_rows :
    (status : EventStatus) (rows : Rows) (k : String)
    → lookup k (retried_rows status rows)
      ≡ and_then (lookup k rows) (λ r. some (retried_row status r))
unfolding lookup retried_rows
lookup-retried_rows status [] k = refl
lookup-retried_rows status ((j, r) ∷ rows) k = ground (arith, lookup-retried_rows status rows k)

Action-IsHeld :
    {rows rows' : Rows} (old : LocalRow) (k : String)
    → Action rows rows'
    → WellKeyed rows
    → IsHeld old (lookup k rows)
    → IsHeld old (lookup k rows')
Action-IsHeld old k (score rows t c value note now) w h =
    apply_edit-IsHeld old k rows t c (record { value_x100 = some value; note = none }) note now h
Action-IsHeld old k (write_note rows keys note now) w h =
    apply_note-IsHeld old k rows keys note now h
Action-IsHeld old k (retry rows status) w (row, e, h) = (
  row,
  ground (arith, lookup-retried_rows status rows k, retried_row_unparked status row h.unparked),
  h,
)
Action-IsHeld old k (dismiss rows teams criteria) w (row, e, h) =
    (row, ground (arith, lookup-dismiss_outside_sheet rows teams criteria k w, h.unparked), h)

pub retried_rows-WellKeyed :
    (status : EventStatus) (rows : Rows) → WellKeyed rows → WellKeyed (retried_rows status rows)
unfolding retried_rows retried_row
retried_rows-WellKeyed status [] w = tt
retried_rows-WellKeyed status ((j, r) ∷ rows) (fresh, own, w) = (
  ground (arith, lookup-retried_rows status rows j),
  if-elim (IsOwnKey j) (truthy r.error && is_retryable r.error status) (record r { error = none }) r
      own own,
  retried_rows-WellKeyed status rows w,
)

Action-WellKeyed : {rows rows' : Rows} → Action rows rows' → WellKeyed rows → WellKeyed rows'
Action-WellKeyed (score rows t c value note now) w = apply_edit-WellKeyed rows t c _ note now w
Action-WellKeyed (write_note rows keys note now) w = apply_note-WellKeyed rows keys note now w
Action-WellKeyed (retry rows status) w = retried_rows-WellKeyed status rows w
Action-WellKeyed (dismiss rows teams criteria) w =
    dismiss_outside_sheet-WellKeyed rows teams criteria w

pub Actions-WellKeyed : {start rows : Rows} → WellKeyed start → Actions start rows → WellKeyed rows
Actions-WellKeyed w none_yet = w
Actions-WellKeyed w (then_act as_ act) = Action-WellKeyed act (Actions-WellKeyed w as_)

Actions-IsHeld :
    {start rows : Rows} (old : LocalRow) (k : String)
    → WellKeyed start
    → IsHeld old (lookup k start)
    → Actions start rows
    → IsHeld old (lookup k rows)
Actions-IsHeld old k w h none_yet = h
Actions-IsHeld old k w h (then_act as_ act) =
    Action-IsHeld old k act (Actions-WellKeyed w as_) (Actions-IsHeld old k w h as_)

as_sent : (row : LocalRow) → (row.dirty ≡ true) × (truthy row.error ≡ false) → IsLaterThan row row
as_sent row h = record {
  unparked = ground arith;
  dirty = ground arith;
  later = inr (refl, refl, refl);
}

-- How the row of a sent cell relates to its item when the answers come.
abbrev pub Matches : ScoreItem → LocalRow → Option LocalRow → Type 0
Matches item row answered =
    ((item.edited_at < row.edited_at) × (row.dirty ≡ true) × (answered ≡ some row))
    ⊎ ((row.edited_at ≡ item.edited_at)
        × (row.value_x100 ≡ item.value_x100)
        × (sent_note row.value_x100 row.note ≡ item.note))

settled-Matches :
    (rows : Rows) (sent : List ScoreItem) (results : List ScoreResult) (k : String)
    (item : ScoreItem) (old row : LocalRow)
    → lookup k (sent_by_key sent) ≡ some item
    → lookup k rows ≡ some row
    → item ≡ to_item old
    → IsLaterThan old row
    → Matches item row (lookup k (apply_results rows sent results).rows)
unfolding to_item settled
settled-Matches rows sent results k item old row e f made h = elim h.later [
  | inl newer ↦
      let later : item.edited_at < row.edited_at = ground arith in
      inl (
        later,
        h.dirty,
        elim (Option-cases (first_for k results)) [
          | inl n ↦ ground (arith, lookup-apply_results rows sent results k)
          | inr (res, r) ↦ ground (arith, lookup-apply_results rows sent results k)
        ],
      )
  | inr same ↦ inr (ground arith, ground arith, ground arith)
]

-- Whatever the judge does (scores, notes, retries, dismissals) while a batch of scores is in
-- flight, every cell that was sent is still there when the answers come: if it was edited
-- since, the edit is kept unsent, and if not, it holds the value and the note that were sent.
pub answers_match_sent :
    {start rows : Rows} (limit : ℕ) (results : List ScoreResult) (k : String) (item : ScoreItem)
    → WellKeyed start
    → Actions start rows
    → lookup k (sent_by_key (pick_batch start limit)) ≡ some item
    → (row : LocalRow) × (lookup k rows ≡ some row)
      × Matches item row (lookup k (apply_results rows (pick_batch start limit) results).rows)
answers_match_sent {start} {rows} limit results k item w as_ e =
    let (own, row_of) =
      sent_by_key-All (IsOutgoing start) (pick_batch start limit) k item
        (pick_batch-IsOutgoing start limit w) e in
    let (old, found, out, made) = row_of in
    let (row, f, h) =
      Actions-IsHeld old k w
        (old, subst (λ j. lookup j start ≡ some old) own found, as_sent old out) as_ in
    (row, f, settled-Matches rows (pick_batch start limit) results k item old row e f made h)
