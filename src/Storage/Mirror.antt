-- ===== src/Storage/Mirror.antt =====
-- Writing the difference of two snapshots of the rows makes the device a mirror of the new one:
-- `diffRows` of web/src/features/judge/scoring.ts with `writeRows` of storage.ts.
use platform_for_sudies.Common.{
  ◌≤◌, String, Bool, true, not, Option, none, some, [], ◌∷◌, map, ◌≡◌, ◌≢◌, refl, sym, ◌∙◌, ap, inl,
  inr, lookup, if◌then◌else◌, arith, Bool-cases, Option-cases, eq_iff, str_eq, str_eq→eq, str_eq→ne,
  IsDict, select, values, has,
}
use platform_for_sudies.Scoring.Rows.{LocalRow, Rows, cell_key, key_of}
use platform_for_sudies.Scoring.Rows.Laws.{NoColon, cell_key_injective}
use platform_for_sudies.Scoring.Guards.{row_ref, differs, diff_rows, can_overwrite_stored}
use platform_for_sudies.Storage.{Table, RowKey}
use platform_for_sudies.Storage.Rows.{
  row_key, key_in, write_row, delete_row, write_upserts, write_deletes, write_rows,
}

-- A row under its own key, of a team whose identifier holds no colon.
abbrev pub IsCell : String → LocalRow → Type 0
IsCell k row = (key_of row ≡ k) × NoColon row.team_id

abbrev pub AreCells : Rows → Type 0
AreCells = IsDict IsCell

module _ (db : Table RowKey LocalRow) (k t c : String) (plain : NoColon t) where
  open db use {Store, get, put, delete, get_put_self, get_put_ne, get_delete_self, get_delete_ne}

  -- The stored row of the cell.
  abbrev stored : Store → Option LocalRow
  stored s = get (row_key k t c) s

  -- A row of another key is another row of the store.
  key_in_ne :
      (j : String) (v : LocalRow) → IsCell j v → j ≢ cell_key t c → key_in db k v ≢ row_key k t c
  key_in_ne j v (own, _) other e =
      other (sym own ∙ ap (λ (x : RowKey). cell_key x.team_id x.criterion_id) e)

  key_in_eq :
      (j : String) (v : LocalRow) → IsCell j v → j ≡ cell_key t c → key_in db k v ≡ row_key k t c
  key_in_eq j v (own, p) same =
      let (team, criterion) =
        cell_key_injective v.team_id t v.criterion_id c p plain (own ∙ same) in
      cc (team, criterion)

  abbrev overwritten : Bool → Option LocalRow → LocalRow → Option LocalRow
  overwritten chosen old row =
      if chosen then (if can_overwrite_stored old row.edited_at then some row else old) else old

  abbrev after_upsert :
      (String → LocalRow → Bool) → Option LocalRow → Option LocalRow → Option LocalRow
  after_upsert p none old = old
  after_upsert p (some row) old = overwritten (p (cell_key t c) row) old row

  stored-write_row :
      (j : String) (v : LocalRow) (s : Store)
      → IsCell j v
      → stored (write_row db k v s)
        ≡ (if str_eq j (cell_key t c) then overwritten true (stored s) v else stored s)
  unfolding write_row
  stored-write_row j v s cell = elim (Bool-cases (str_eq j (cell_key t c))) [
    | inl e ↦
        let same = key_in_eq j v cell (str_eq→eq j (cell_key t c) e) in
        rw (e, same) (stored_self v s)
    | inr n ↦ ground (
      arith,
      get_put_ne (key_in db k v) (row_key k t c) v s
          (key_in_ne j v cell (str_eq→ne j (cell_key t c) n)),
    )
  ]
    where
      stored_self :
          (v : LocalRow) (s : Store)
          → get (row_key k t c) (
              if can_overwrite_stored (get (row_key k t c) s) v.edited_at
              then put (row_key k t c) v s
              else s)
            ≡ overwritten true (stored s) v
      stored_self v s = ground (arith, get_put_self (row_key k t c) v s)

  stored-delete_row :
      (j : String) (v : LocalRow) (s : Store)
      → IsCell j v
      → stored (delete_row db k (row_ref v) s) ≡ (
          if str_eq j (cell_key t c)
          then (if can_overwrite_stored (stored s) v.edited_at then none else stored s)
          else stored s)
  unfolding delete_row
  stored-delete_row j v s cell = elim (Bool-cases (str_eq j (cell_key t c))) [
    | inl e ↦
        let same = key_in_eq j v cell (str_eq→eq j (cell_key t c) e) in rw (e, same) (gone v s)
    | inr n ↦ ground (
      arith,
      get_delete_ne (key_in db k v) (row_key k t c) s
          (key_in_ne j v cell (str_eq→ne j (cell_key t c) n)),
    )
  ]
    where
      gone :
          (v : LocalRow) (s : Store)
          → get (row_key k t c) (
              if can_overwrite_stored (get (row_key k t c) s) v.edited_at
              then delete (row_key k t c) s
              else s)
            ≡ (if can_overwrite_stored (stored s) v.edited_at then none else stored s)
      gone v s = ground (arith, get_delete_self (row_key k t c) s)

  stored-write_upserts :
      (p : String → LocalRow → Bool) (m : Rows) (s : Store)
      → AreCells m
      → stored (write_upserts db k (values (select p m)) s)
        ≡ after_upsert p (lookup (cell_key t c) m) (stored s)
  unfolding write_upserts select lookup
  stored-write_upserts p [] s d = refl
  stored-write_upserts p ((j, v) ∷ m) s (fresh, cell, d) = elim (Bool-cases (p j v)) [
    | inl chosen ↦ ground (
      arith,
      stored-write_upserts p m (write_row db k v s) d,
      stored-write_row j v s cell,
      eq_iff j (cell_key t c),
    )
    | inr skipped ↦ ground (arith, stored-write_upserts p m s d, eq_iff j (cell_key t c))
  ]

  abbrev after_delete :
      (String → LocalRow → Bool) → Option LocalRow → Option LocalRow → Option LocalRow
  after_delete p none old = old
  after_delete p (some row) old =
      if p (cell_key t c) row
      then (if can_overwrite_stored old row.edited_at then none else old)
      else old

  stored-write_deletes :
      (p : String → LocalRow → Bool) (m : Rows) (s : Store)
      → AreCells m
      → stored (write_deletes db k (map row_ref (values (select p m))) s)
        ≡ after_delete p (lookup (cell_key t c) m) (stored s)
  unfolding write_deletes select lookup
  stored-write_deletes p [] s d = refl
  stored-write_deletes p ((j, v) ∷ m) s (fresh, cell, d) = elim (Bool-cases (p j v)) [
    | inl chosen ↦ ground (
      arith,
      stored-write_deletes p m (delete_row db k (row_ref v) s) d,
      stored-delete_row j v s cell,
      eq_iff j (cell_key t c),
    )
    | inr skipped ↦ ground (arith, stored-write_deletes p m s d, eq_iff j (cell_key t c))
  ]

  -- If a cell of the device holds what the old snapshot of the rows holds, it holds what the
  -- new snapshot holds after their difference is written, provided that the new snapshot does
  -- not go back behind an unsent row, that identical rows are equal, and that team identifiers
  -- hold no colon.
  pub write_rows-diff_rows :
      (same : LocalRow → LocalRow → Bool)
      → ((a b : LocalRow) → same a b ≡ true → a ≡ b)
      → (prev next : Rows) (s : Store) → AreCells prev
      → AreCells next
      → stored s ≡ lookup (cell_key t c) prev
      → ((old row : LocalRow)
          → lookup (cell_key t c) prev ≡ some old
          → lookup (cell_key t c) next ≡ some row
          → old.dirty ≡ true
          → old.edited_at ≤ row.edited_at)
      → stored
          (write_rows db k (diff_rows same prev next).upserts (diff_rows same prev next).deletes s)
        ≡ lookup (cell_key t c) next
  unfolding write_rows diff_rows can_overwrite_stored
  write_rows-diff_rows same sound prev next s cells cells' mirror advances =
      elim (Option-cases (lookup (cell_key t c) prev)) [
        | inl new ↦ elim (Option-cases (lookup (cell_key t c) next)) [
          | inl absent ↦ ground (arith, up, down)
          | inr (row, e) ↦ ground (arith, up, down)
        ]
        | inr (old, o) ↦ elim (Option-cases (lookup (cell_key t c) next)) [
          | inl absent ↦ ground (arith, up, down)
          | inr (row, e) ↦ ground (arith, up, down, sound old row, advances old row o e)
        ]
      ]
    where
      up :
          stored (
            write_upserts db k (values (select (λ j row. differs same (lookup j prev) row) next)) s)
          ≡ after_upsert
              (λ j row. differs same (lookup j prev) row)
              (lookup (cell_key t c) next)
              (stored s)
      up = stored-write_upserts (λ j row. differs same (lookup j prev) row) next s cells'

      upserted : Store
      upserted =
          write_upserts db k (values (select (λ j row. differs same (lookup j prev) row) next)) s

      down :
          stored (
            write_deletes db k
              (map row_ref (values (select (λ j row. not (has j next)) prev)))
              upserted)
          ≡ after_delete (λ j row. not (has j next)) (lookup (cell_key t c) prev) (stored upserted)
      down = stored-write_deletes (λ j row. not (has j next)) prev upserted cells
