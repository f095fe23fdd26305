-- ===== src/Storage/Rows.antt =====
-- `writeRows` of web/src/features/judge/storage.ts, one read-compare-write transaction.
use platform_for_sudies.Common.{String, List, [], ◌∷◌, if◌then◌else◌}
use platform_for_sudies.Scoring.Rows.{LocalRow}
use platform_for_sudies.Scoring.Guards.{RowRef, can_overwrite_stored, can_delete_stored}
use platform_for_sudies.Storage.{Table, RowKey}

abbrev pub row_key : String → String → String → RowKey
row_key k team_id criterion_id = record { k = k; team_id = team_id; criterion_id = criterion_id }

module _ (db : Table RowKey LocalRow) (k : String) where
  open db use {Store, get, put, delete, get_put_self, get_put_ne, get_delete_self, get_delete_ne}

  abbrev pub key_in : LocalRow → RowKey
  key_in r = row_key k r.team_id r.criterion_id

  abbrev pub ref_in : RowRef → RowKey
  ref_in r = row_key k r.team_id r.criterion_id

  unfoldable pub write_row : LocalRow → Store → Store
  write_row r s =
      if can_overwrite_stored (get (key_in r) s) r.edited_at then put (key_in r) r s else s

  unfoldable pub delete_row : RowRef → Store → Store
  delete_row r s =
      if can_delete_stored (get (ref_in r) s) r.edited_at then delete (ref_in r) s else s

  unfoldable pub write_upserts : List LocalRow → Store → Store
  write_upserts [] s = s
  write_upserts (r ∷ rs) s = write_upserts rs (write_row r s)

  unfoldable pub write_deletes : List RowRef → Store → Store
  write_deletes [] s = s
  write_deletes (r ∷ rs) s = write_deletes rs (delete_row r s)

  -- The source starts all operations of the transaction at once, so each guard reads the device as it
  -- was before; that is the same here, as no key occurs twice in what `diff_rows` gives.
  unfoldable pub write_rows : List LocalRow → List RowRef → Store → Store
  unfolding write_upserts write_deletes
  write_rows upserts deletes s = write_deletes deletes (write_upserts upserts s)
