-- ===== src/Scoring/Rows.antt =====
-- web/src/features/judge/scoring.ts: the local rows and the judge's edits. `Rows` is an object
-- keyed by `team:criterion`.
pub mod Laws
use Prim.Native.String
use platform_for_sudies.Common.{
  ℕ, ◌+◌, max, String, Bool, true, ◌||◌, Option, none, some, List, [], ◌∷◌, Dict, lookup, insert,
  is_empty, if◌then◌else◌, or_else, is_some, not, str_eq,
}

pub record LocalRow : Type 0 where
  pub team_id : String
  pub criterion_id : String
  pub value_x100 : Option ℕ
  pub note : String
  pub edited_at : ℕ
  pub dirty : Bool
  pub error : Option String

abbrev pub Rows : Type 0
Rows = Dict LocalRow

unfoldable pub cell_key : String → String → String
cell_key team_id criterion_id = String.◌++◌ team_id (String.◌++◌ ":" criterion_id)

abbrev pub key_of : LocalRow → String
key_of r = cell_key r.team_id r.criterion_id

unfoldable pub next_edited_at : Option LocalRow → ℕ → ℕ
next_edited_at none now = max now 1
next_edited_at (some prev) now = max now (prev.edited_at + 1)

-- The fields that an edit changes; `none` is a field left out, `some none` a cleared value.
pub record Patch : Type 0 where
  pub value_x100 : Option (Option ℕ)
  pub note : Option String

abbrev prev_value : Option LocalRow → Option ℕ
prev_value none = none
prev_value (some prev) = prev.value_x100

abbrev prev_note : Option LocalRow → String → String
prev_note none inherited = inherited
prev_note (some prev) inherited = prev.note

-- The row that an edit stores.
unfoldable pub edited_row : Option LocalRow → String → String → Patch → String → ℕ → LocalRow
edited_row prev team_id criterion_id patch inherited_note now = record {
  team_id = team_id;
  criterion_id = criterion_id;
  value_x100 = or_else patch.value_x100 (prev_value prev);
  note = or_else patch.note (prev_note prev inherited_note);
  edited_at = next_edited_at prev now;
  dirty = true;
  error = none;
}

unfoldable pub apply_edit : Rows → String → String → Patch → String → ℕ → Rows
apply_edit rows team_id criterion_id patch inherited_note now =
    let key = cell_key team_id criterion_id in
    insert key (edited_row (lookup key rows) team_id criterion_id patch inherited_note now) rows

abbrev row_note : Option LocalRow → String
row_note none = ""
row_note (some row) = row.note

unfoldable pub item_note : Rows → List String → String
item_note rows [] = ""
item_note rows (k ∷ ks) =
    let note = row_note (lookup k rows) in if is_empty note then item_note rows ks else note

-- The `continue` of `applyNote`.
abbrev pub skips_note : Option LocalRow → String → Bool
skips_note none note = true
skips_note (some row) note = not (is_some row.value_x100) || str_eq row.note note

-- One round of the loop: `row` is read from the rows that the loop started with.
unfoldable pub note_row : Option LocalRow → String → ℕ → Rows → Rows
note_row none note now next = next
note_row (some row) note now next =
    if skips_note (some row) note
    then next
    else apply_edit next row.team_id row.criterion_id
        (record { value_x100 = none; note = some note }) "" now

unfoldable pub apply_note_from : Rows → Rows → List String → String → ℕ → Rows
apply_note_from rows next [] note now = next
apply_note_from rows next (k ∷ ks) note now =
    apply_note_from rows (note_row (lookup k rows) note now next) ks note now

unfoldable pub apply_note : Rows → List String → String → ℕ → Rows
unfolding apply_note_from
apply_note rows keys note now = apply_note_from rows rows keys note now

-- `applyNote(…) !== rows`: a new object is made exactly when some key is not skipped.
unfoldable pub changes_note : Rows → List String → String → Bool
changes_note rows [] note = not true
changes_note rows (k ∷ ks) note = not (skips_note (lookup k rows) note) || changes_note rows ks note
