-- ===== src/Scoring/Sheet/Merge.antt =====
-- `mergeServer` of web/src/features/judge/scoring.ts, key by key.
use platform_for_sudies.Common.{
  ℕ, ◌≤◌, String, Bool, true, false, Option, none, some, List, [], ◌∷◌, ◌≡◌, refl, inl, inr, lookup,
  if-elim, if◌then◌else◌, str_eq, eq_iff, arith, Bool-cases, Option-cases, lookup-insert,
  lookup-IsDict, IsDict-insert, IsDict-select, lookup-select, ltb,
}
use platform_for_sudies.Api.{JudgeScoreRecord}
use platform_for_sudies.Scoring.Rows.{LocalRow, Rows}
use platform_for_sudies.Scoring.Rows.Laws.{IsOwnKey, WellKeyed}
use platform_for_sudies.Scoring.Sheet.{
  record_key, server_row, is_same, merge_record, merge_from, dirty_only, merge_server,
}

-- The last record of the snapshot for a cell.
abbrev pub last_for : String → List JudgeScoreRecord → Option JudgeScoreRecord
last_for k [] = none
last_for k (s ∷ server) = elim (last_for k server) [
  | some r ↦ some r
  | none ↦ if str_eq (record_key s) k then some s else none
]

abbrev pub is_dirty : Option LocalRow → Bool
is_dirty none = false
is_dirty (some row) = row.dirty

-- What a clean cell becomes: the local row if it is newer or the same, else the server's.
unfoldable pub newest : Option LocalRow → JudgeScoreRecord → LocalRow
newest none s = server_row s
newest (some local) s =
    if ltb s.edited_at local.edited_at
    then local
    else if is_same local s
    then local
    else server_row s

-- The specification of a cell after the merge.
abbrev pub merged : Option LocalRow → Option JudgeScoreRecord → Option LocalRow
merged local none = if is_dirty local then local else none
merged local (some s) = if is_dirty local then local else some (newest local s)

lookup-merge_record :
    (local : Option LocalRow) (s : JudgeScoreRecord) (next : Rows) (k : String)
    → lookup k (merge_record local s next) ≡ (
        if is_dirty local
        then lookup k next
        else if str_eq (record_key s) k
        then some (newest local s)
        else lookup k next)
unfolding merge_record newest
lookup-merge_record none s next k = lookup-insert (record_key s) k _ next
lookup-merge_record (some local) s next k = elim (Bool-cases local.dirty) [
  | inl d ↦ rw d
  | inr d ↦ elim (Bool-cases (ltb s.edited_at local.edited_at)) [
    | inl n ↦ rw (d, n) (lookup-insert (record_key s) k _ next)
    | inr n ↦ rw (d, n) (lookup-insert (record_key s) k _ next)
  ]
]

-- After the loop a cell holds what the last record for it made of the local row.
merge_from_lem :
    (rows next : Rows) (server : List JudgeScoreRecord) (k : String)
    → lookup k (merge_from rows next server) ≡ (
        if is_dirty (lookup k rows) then lookup k next else elim (last_for k server) [
          | none ↦ lookup k next
          | some s ↦ some (newest (lookup k rows) s)
        ])
unfolding merge_from
merge_from_lem rows next [] k = ground arith
merge_from_lem rows next (s ∷ server) k = ground (
  arith,
  merge_from_lem rows (merge_record (lookup (record_key s) rows) s next) server k,
  lookup-merge_record (lookup (record_key s) rows) s next k,
  eq_iff (record_key s) k,
)

-- Merging the server's scores leaves in each cell what the specification says, for rows under
-- their own keys: an unsent row, or the newer of the local row and the server's last record, or
-- nothing.
pub lookup-merge_server :
    (rows : Rows) (server : List JudgeScoreRecord) (k : String)
    → WellKeyed rows
    → lookup k (merge_server rows server) ≡ merged (lookup k rows) (last_for k server)
unfolding merge_server
lookup-merge_server rows server k w = ground (
  arith,
  merge_from_lem rows (dirty_only rows) server k,
  lookup-select IsOwnKey (λ _ row. row.dirty) k rows w,
)

-- An unsent edit survives every merge, whatever the server sends.
pub merge_server_keeps_dirty :
    (rows : Rows) (server : List JudgeScoreRecord) (k : String) (row : LocalRow)
    → WellKeyed rows
    → lookup k rows ≡ some row
    → row.dirty ≡ true
    → lookup k (merge_server rows server) ≡ some row
merge_server_keeps_dirty rows server k row w e d =
    ground (arith, lookup-merge_server rows server k w)

own_or_new :
    (o : Option LocalRow) (s : JudgeScoreRecord) (next : Rows)
    → ((row : LocalRow) → o ≡ some row → IsOwnKey (record_key s) row)
    → WellKeyed next
    → WellKeyed (merge_record o s next)
unfolding merge_record
own_or_new none s next own n = IsDict-insert IsOwnKey _ _ next refl n
own_or_new (some local) s next own n = elim (Bool-cases local.dirty) [
  | inl d ↦ simp d n
  | inr d ↦ elim (Bool-cases (ltb s.edited_at local.edited_at)) [
    | inl new ↦ simp (d, new) (IsDict-insert IsOwnKey _ local next (own local refl) n)
    | inr old ↦
        simp (d, old)
          (IsDict-insert IsOwnKey _ _ next
            (if-elim (IsOwnKey (record_key s)) (is_same local s) local (server_row s)
              (own local refl) refl)
            n)
  ]
]

merge_record-WellKeyed :
    (rows : Rows) (s : JudgeScoreRecord) (next : Rows)
    → WellKeyed rows
    → WellKeyed next
    → WellKeyed (merge_record (lookup (record_key s) rows) s next)
merge_record-WellKeyed rows s next w n =
    own_or_new (lookup (record_key s) rows) s next
      (λ row. lookup-IsDict IsOwnKey (record_key s) rows row w) n

merge_from-WellKeyed :
    (rows next : Rows) (server : List JudgeScoreRecord)
    → WellKeyed rows
    → WellKeyed next
    → WellKeyed (merge_from rows next server)
unfolding merge_from
merge_from-WellKeyed rows next [] w n = n
merge_from-WellKeyed rows next (s ∷ server) w n =
    merge_from-WellKeyed rows (merge_record (lookup (record_key s) rows) s next) server w
      (merge_record-WellKeyed rows s next w n)

pub merge_server-WellKeyed :
    (rows : Rows) (server : List JudgeScoreRecord)
    → WellKeyed rows
    → WellKeyed (merge_server rows server)
unfolding merge_server
merge_server-WellKeyed rows server w =
    merge_from-WellKeyed rows (dirty_only rows) server w (IsDict-select IsOwnKey _ rows w)

abbrev pub time_of : Option LocalRow → ℕ
time_of none = 0
time_of (some row) = row.edited_at

-- For rows under their own keys, a clean cell is after a merge at least as new as the local row,
-- if there was one, and as the server's last record for the cell.
pub merge_server_newest :
    (rows : Rows) (server : List JudgeScoreRecord) (k : String) (s : JudgeScoreRecord)
    (row : LocalRow)
    → WellKeyed rows
    → last_for k server ≡ some s
    → lookup k (merge_server rows server) ≡ some row
    → row.dirty ≡ false
    → (s.edited_at ≤ row.edited_at) × (time_of (lookup k rows) ≤ row.edited_at)
unfolding newest is_same
merge_server_newest rows server k s row w r e clean = (
  ground (arith, lookup-merge_server rows server k w),
  elim (Option-cases (lookup k rows)) [
    | inl new ↦ ground (arith, lookup-merge_server rows server k w)
    | inr (local, l) ↦ ground (arith, lookup-merge_server rows server k w)
  ],
)
