-- ===== src/Scoring/Guards.antt =====
-- web/src/features/judge/scoring.ts: what is written to the device, the guard between tabs, and the
-- adoption of rows stored under an old token.
use platform_for_sudies.Common.{
  ℕ, String, Bool, true, false, not, ◌&&◌, ◌||◌, Option, none, some, List, map, lookup, select,
  values, has, str_eq, ltb, truthy, filter, length, any, is_nil,
}
use platform_for_sudies.Api.{EventStatus, draft, judging, locked, finalized, published}
use platform_for_sudies.I18n.{invalid_state_text}
use platform_for_sudies.Scoring.Rows.{LocalRow, Rows}

pub record RowRef : Type 0 where
  pub team_id : String
  pub criterion_id : String
  pub edited_at : ℕ

pub record RowDiff : Type 0 where
  pub upserts : List LocalRow
  pub deletes : List RowRef

abbrev pub row_ref : LocalRow → RowRef
row_ref row = record {
  team_id = row.team_id;
  criterion_id = row.criterion_id;
  edited_at = row.edited_at;
}

-- `prev[k] !== row`. Rows are compared by identity, which is `same`: which of two equal rows are
-- one object is not part of their value.
abbrev pub differs : (LocalRow → LocalRow → Bool) → Option LocalRow → LocalRow → Bool
differs same none row = true
differs same (some old) row = not (same old row)

unfoldable pub diff_rows : (LocalRow → LocalRow → Bool) → Rows → Rows → RowDiff
diff_rows same prev next = record {
  upserts = values (select (λ k row. differs same (lookup k prev) row) next);
  deletes = map row_ref (values (select (λ k row. not (has k next)) prev));
}

unfoldable pub can_overwrite_stored : Option LocalRow → ℕ → Bool
can_overwrite_stored none edited_at = true
can_overwrite_stored (some stored) edited_at = not (stored.dirty && ltb edited_at stored.edited_at)

abbrev pub can_delete_stored : Option LocalRow → ℕ → Bool
can_delete_stored = can_overwrite_stored

unfoldable pub adopted_wins : Option LocalRow → LocalRow → Bool
adopted_wins none adopted = true
adopted_wins (some existing) adopted = ltb existing.edited_at adopted.edited_at

pub record CachedIdentity : Type 0 where
  pub k : String
  pub judge_id : String
  pub event_id : String

abbrev pub is_orphan : CachedIdentity → CachedIdentity → Bool
is_orphan current c =
    not (str_eq c.k current.k)
    && str_eq c.judge_id current.judge_id
    && str_eq c.event_id current.event_id

unfoldable pub pick_orphan_keys : CachedIdentity → List CachedIdentity → List String
pick_orphan_keys current cached = map (λ c. c.k) (filter (is_orphan current) cached)

abbrev pub is_judging : EventStatus → Bool
is_judging judging = true
is_judging draft = false
is_judging locked = false
is_judging finalized = false
is_judging published = false

abbrev is_invalid_state : Option String → Bool
is_invalid_state none = false
is_invalid_state (some error) = str_eq error invalid_state_text

unfoldable pub is_retryable : Option String → EventStatus → Bool
is_retryable error status = not (not (is_judging status) && is_invalid_state error)

unfoldable pub can_retry : List (Option String) → EventStatus → Bool
can_retry errors status = is_nil errors || any (λ e. is_retryable e status) errors

unfoldable pub pending_count : Rows → ℕ
pending_count rows = length (filter (λ r. r.dirty) (values rows))

unfoldable pub error_rows : Rows → List LocalRow
error_rows rows = filter (λ r. truthy r.error) (values rows)
