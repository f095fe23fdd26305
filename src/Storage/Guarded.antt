-- ===== src/Storage/Guarded.antt =====
-- The guard between tabs of web/src/features/judge/storage.ts: what another tab stored.
use platform_for_sudies.Common.{
  ◌<◌, String, true, some, List, [], ◌∷◌, ◌≡◌, ap, arith, String-discrete, All,
}
use platform_for_sudies.Scoring.Rows.{LocalRow}
use platform_for_sudies.Scoring.Guards.{RowRef, can_overwrite_stored}
use platform_for_sudies.Storage.{Table, RowKey}
use platform_for_sudies.Storage.Rows.{
  key_in, ref_in, write_row, delete_row, write_upserts, write_deletes, write_rows,
}

pub RowKey-discrete : Discrete RowKey
RowKey-discrete = hlevel String-discrete

module _ (db : Table RowKey LocalRow) (k : String) (key : RowKey) (stored : LocalRow)
    (unsent : stored.dirty ≡ true) where
  open db use {Store, get, put, delete, get_put_self, get_put_ne, get_delete_self, get_delete_ne}

  -- A write to the cell is older than what is stored there.
  abbrev pub IsOlderRow : LocalRow → Type 0
  IsOlderRow r = key_in db k r ≡ key → r.edited_at < stored.edited_at

  abbrev pub IsOlderRef : RowRef → Type 0
  IsOlderRef r = ref_in db k r ≡ key → r.edited_at < stored.edited_at

  write_row_keeps :
      (r : LocalRow) (s : Store)
      → IsOlderRow r
      → get key s ≡ some stored
      → get key (write_row db k r s) ≡ some stored
  unfolding write_row can_overwrite_stored
  write_row_keeps r s older e = elim (RowKey-discrete (key_in db k r) key) [
    | yes p ↦ ground (arith, older p, ap (λ x. get x s) p)
    | no p ↦ ground (arith, get_put_ne (key_in db k r) key r s p)
  ]

  delete_row_keeps :
      (r : RowRef) (s : Store)
      → IsOlderRef r
      → get key s ≡ some stored
      → get key (delete_row db k r s) ≡ some stored
  unfolding delete_row can_overwrite_stored
  delete_row_keeps r s older e = elim (RowKey-discrete (ref_in db k r) key) [
    | yes p ↦ ground (arith, older p, ap (λ x. get x s) p)
    | no p ↦ ground (arith, get_delete_ne (ref_in db k r) key s p)
  ]

  write_upserts_keeps :
      (rs : List LocalRow) (s : Store)
      → All IsOlderRow rs
      → get key s ≡ some stored
      → get key (write_upserts db k rs s) ≡ some stored
  unfolding write_upserts
  write_upserts_keeps [] s older e = e
  write_upserts_keeps (r ∷ rs) s (o, older) e =
      write_upserts_keeps rs (write_row db k r s) older (write_row_keeps r s o e)

  write_deletes_keeps :
      (rs : List RowRef) (s : Store)
      → All IsOlderRef rs
      → get key s ≡ some stored
      → get key (write_deletes db k rs s) ≡ some stored
  unfolding write_deletes
  write_deletes_keeps [] s older e = e
  write_deletes_keeps (r ∷ rs) s (o, older) e =
      write_deletes_keeps rs (delete_row db k r s) older (delete_row_keeps r s o e)

  -- An unsent row that another tab stored survives every write of this tab, as long as it is
  -- newer than the versions that this tab writes to its cell or removes from it.
  pub write_rows_keeps_newer :
      (upserts : List LocalRow) (deletes : List RowRef) (s : Store)
      → All IsOlderRow upserts
      → All IsOlderRef deletes
      → get key s ≡ some stored
      → get key (write_rows db k upserts deletes s) ≡ some stored
  unfolding write_rows
  write_rows_keeps_newer upserts deletes s older_rows older_refs e =
      write_deletes_keeps deletes (write_upserts db k upserts s) older_refs
        (write_upserts_keeps upserts s older_rows e)
