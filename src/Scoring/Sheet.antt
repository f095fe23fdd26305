-- ===== src/Scoring/Sheet.antt =====
-- web/src/features/judge/scoring.ts: merging the server's snapshot into the local rows, and rows of
-- cells that left the judge's sheet.
pub mod Merge
pub mod Prune
use platform_for_sudies.Common.{
  ℕ, String, Bool, true, false, not, ◌&&◌, ◌||◌, Option, none, some, List, [], ◌∷◌, ◌++◌, map, Dict,
  lookup, insert, select, keys, values, if◌then◌else◌, or_else, is_some, is_nil, str_eq, ◌==◌, ltb,
  truthy, trim, length, flat_map, filter,
}
use platform_for_sudies.Api.{JudgeScoreRecord, Team, Criterion}
use platform_for_sudies.Tracks.{criterion_applies, contains}
use platform_for_sudies.Scoring.Rows.{LocalRow, Rows, cell_key, key_of}

abbrev pub record_key : JudgeScoreRecord → String
record_key s = cell_key s.team_id s.criterion_id

-- The row made of a server record.
abbrev pub server_row : JudgeScoreRecord → LocalRow
server_row s = record {
  team_id = s.team_id;
  criterion_id = s.criterion_id;
  value_x100 = some s.value_x100;
  note = or_else s.note "";
  edited_at = s.edited_at;
  dirty = false;
  error = none;
}

abbrev pub has_value : Option ℕ → ℕ → Bool
has_value none v = false
has_value (some w) v = w == v

-- The server's copy says nothing new: the local object is reused.
unfoldable pub is_same : LocalRow → JudgeScoreRecord → Bool
is_same local s =
    has_value local.value_x100 s.value_x100
    && str_eq (trim local.note) (or_else s.note "")
    && local.edited_at == s.edited_at
    && not (truthy local.error)

-- One round of the second loop of `mergeServer`; `local` is `rows[k]`.
unfoldable pub merge_record : Option LocalRow → JudgeScoreRecord → Rows → Rows
merge_record none s next = insert (record_key s) (server_row s) next
merge_record (some local) s next =
    if local.dirty
    then next
    else if ltb s.edited_at local.edited_at
    then insert (record_key s) local next
    else insert (record_key s) (if is_same local s then local else server_row s) next

merge_from : Rows → Rows → List JudgeScoreRecord → Rows
merge_from rows next [] = next
merge_from rows next (s ∷ server) =
    merge_from rows (merge_record (lookup (record_key s) rows) s next) server

abbrev pub dirty_only : Rows → Rows
dirty_only = select (λ k row. row.dirty)

unfoldable pub merge_server : Rows → List JudgeScoreRecord → Rows
unfolding merge_from
merge_server rows server = merge_from rows (dirty_only rows) server

unfoldable pub allowed_cells : List Team → List Criterion → List String
allowed_cells teams criteria =
    flat_map (λ t. map (λ c. cell_key t.id c.id) (filter (λ c. criterion_applies c t) criteria))
      teams

unfoldable pub prune_outside_sheet : Rows → List Team → List Criterion → Rows
prune_outside_sheet rows teams criteria =
    let allowed = allowed_cells teams criteria in
    let next = select (λ k row. contains k allowed || row.dirty) rows in
    if length (keys next) == length (keys rows) then rows else next

abbrev pub is_rejected_outside : List String → String → LocalRow → Bool
is_rejected_outside allowed k row = truthy row.error && not (contains k allowed)

unfoldable pub rejected_outside_sheet : Rows → List Team → List Criterion → List LocalRow
rejected_outside_sheet rows teams criteria =
    values (select (is_rejected_outside (allowed_cells teams criteria)) rows)

unfoldable pub dismiss_outside_sheet : Rows → List Team → List Criterion → Rows
unfolding rejected_outside_sheet
dismiss_outside_sheet rows teams criteria =
    let gone = map key_of (rejected_outside_sheet rows teams criteria) in
    if is_nil gone then rows else select (λ k row. not (contains k gone)) rows
