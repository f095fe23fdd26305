-- ===== src/Desk/Refresh.antt =====
-- `refresh` of web/src/features/judge/controller.ts, from the adoption of edits under old links to
-- the new sheet: what it leaves of the unsent rows.
use mathlib.Core.List.{Mem, mem-cons_self, mem-cons_of_mem}
use platform_for_sudies.Common.{
  ℕ, ◌<◌, ◌≤◌, String, Bool, true, false, Option, none, some, List, [], ◌∷◌, ◌≡◌, refl, ◌∙◌, ap,
  ◌⊎◌, inl, inr, lookup, insert, arith, if-elim, if-elim_known, Bool-cases, All, str_eq, str_eq→eq,
  lookup-insert,
}
use platform_for_sudies.Api.{JudgeSession}
use platform_for_sudies.Client.{ApiResult, reply, failed}
use platform_for_sudies.Scoring.Rows.{LocalRow, Rows}
use platform_for_sudies.Scoring.Guards.{adopted_wins}
use platform_for_sudies.Pairwise.{Comparisons}
use platform_for_sudies.Desk.{Desk, Identity, persist, persist_comparisons, flush, enqueue}
use platform_for_sudies.Desk.Edits.{reserve_session, reserve, ensure_reserve}
use platform_for_sudies.Desk.Session.{
  Adopted, own_key, adopt_rows, adopt_found, adopt_orphans, refreshed_rows, store_session,
  run_refresh,
}
use platform_for_sudies.Desk.Failures.{handle_refresh_error-IsHandled}
use platform_for_sudies.Desk.Keys.{IsKeyed}
use platform_for_sudies.Desk.Keys.Exchange.{adopt_orphans-IsKeyed}
use platform_for_sudies.Desk.ReadOnly.{refreshed_rows_keeps_dirty}

-- What may stand for an unsent row after a refresh: the row, or a later unsent version of it among
-- those that were adopted.
pub record IsKept (found : List LocalRow) (row : LocalRow) (k : String) (rows : Rows) : Type 0 where
  pub now : LocalRow
  pub stored : lookup k rows ≡ some now
  pub dirty : now.dirty ≡ true
  pub version : (now ≡ row) ⊎ ((row.edited_at < now.edited_at) × Mem now found)

abbrev pub adopted_rows : Option Adopted → List LocalRow
adopted_rows none = []
adopted_rows (some found) = found.rows

not_older :
    {found : List LocalRow} {row : LocalRow} {k : String} {rows : Rows}
    (h : IsKept found row k rows)
    → row.edited_at ≤ h.now.edited_at
not_older h = elim h.version [
  | inl same ↦ ground (arith, ap (λ r. r.edited_at) same)
  | inr (later, m) ↦ omega (arith, later)
]

adopt_row-IsKept :
    (found : List LocalRow) (row : LocalRow) (k : String) (rows : Rows) (r : LocalRow)
    → Mem r found
    → r.dirty ≡ true
    → adopted_wins (lookup (own_key r) rows) r ≡ true
    → IsKept found row k rows
    → IsKept found row k (insert (own_key r) r rows)
unfolding adopted_wins
adopt_row-IsKept found row k rows r m dirty wins h = elim (Bool-cases (str_eq (own_key r) k)) [
  | inl same ↦
      let at : lookup (own_key r) rows ≡ some h.now =
        ap (λ j. lookup j rows) (str_eq→eq (own_key r) k same) ∙ h.stored in
      let later : h.now.edited_at < r.edited_at = ground (arith, at) in
      record {
        now = r;
        stored = lookup-insert (own_key r) k r rows ∙ rw same refl;
        dirty = dirty;
        version = inr (omega (arith, not_older h), m);
      }
  | inr other ↦ record {
    now = h.now;
    stored = lookup-insert (own_key r) k r rows ∙ rw other h.stored;
    dirty = h.dirty;
    version = h.version;
  }
]

adopt_rows-IsKept :
    (found : List LocalRow) (row : LocalRow) (k : String) (rs : List LocalRow) (rows : Rows)
    → All (λ r. (r.dirty ≡ true) × Mem r found) rs
    → IsKept found row k rows
    → IsKept found row k (adopt_rows rs rows)
unfolding adopt_rows
adopt_rows-IsKept found row k [] rows a h = h
adopt_rows-IsKept found row k (r ∷ rs) rows ((dirty, m), a) h =
    adopt_rows-IsKept found row k rs _ a (
      if-elim_known (IsKept found row k) (adopted_wins (lookup (own_key r) rows) r) _ _
        (λ wins. adopt_row-IsKept found row k rows r m dirty wins h) h)

adopted_dirty :
    (found rs : List LocalRow)
    → ((r : LocalRow) → Mem r rs → Mem r found)
    → All (λ r. r.dirty ≡ true) rs
    → All (λ r. (r.dirty ≡ true) × Mem r found) rs
adopted_dirty found [] among a = tt
adopted_dirty found (r ∷ rs) among (dirty, a) = (
  (dirty, among r mem-cons_self),
  adopted_dirty found rs (λ x m. among x (mem-cons_of_mem r m)) a,
)

abbrev Keeps : List LocalRow → LocalRow → String → Desk → Type 0
Keeps found row k d = IsKept found row k d.state.rows

abbrev HasRows : Rows → Desk → Type 0
HasRows rows d = d.state.rows ≡ rows

module _ (is : Identity) where
  persist-HasRows :
      (rows prev next : Rows) (s : Option JudgeSession) (d : Desk)
      → HasRows rows d
      → HasRows rows (persist is prev next s d)
  unfolding persist
  persist-HasRows rows prev next s d h = if-elim (HasRows rows) _ _ _ h h

  reserve_session-HasRows :
      (rows : Rows) (o : Option JudgeSession) (count : ℕ) (on_line : Bool) (d : Desk)
      → HasRows rows d
      → HasRows rows (reserve_session is o count on_line d)
  unfolding reserve_session enqueue
  reserve_session-HasRows rows none count on_line d h = h
  reserve_session-HasRows rows (some s) count on_line d h = if-elim (HasRows rows) _ _ _ h h

  ensure_reserve-HasRows :
      (rows : Rows) (on_line : Bool) (d : Desk)
      → HasRows rows d
      → HasRows rows (ensure_reserve is on_line d)
  unfolding ensure_reserve reserve
  ensure_reserve-HasRows rows on_line d h =
      if-elim (HasRows rows) _ _ _ h (reserve_session-HasRows rows d.state.session _ on_line d h)

  store_session-rows :
      (s : JudgeSession) (d : Desk) → HasRows (refreshed_rows s d.state.rows) (store_session is s d)
  unfolding store_session persist_comparisons
  store_session-rows s d =
      let h =
        persist-HasRows (refreshed_rows s d.state.rows) d.state.rows (refreshed_rows s d.state.rows)
          (some s) _ refl in
      if-elim (HasRows (refreshed_rows s d.state.rows)) _ _ _ h h

  flush-IsKept :
      (found : List LocalRow) (row : LocalRow) (k : String) (d : Desk)
      → Keeps found row k d
      → Keeps found row k (flush d)
  unfolding flush enqueue
  flush-IsKept found row k d h = if-elim (Keeps found row k) _ _ _ h h

  persist_comparisons-IsKept :
      (found : List LocalRow) (row : LocalRow) (k : String) (prev next : Comparisons) (d : Desk)
      → Keeps found row k d
      → Keeps found row k (persist_comparisons is prev next d)
  unfolding persist_comparisons
  persist_comparisons-IsKept found row k prev next d h = if-elim (Keeps found row k) _ _ _ h h

  module _ (row : LocalRow) (k : String) where
    adopt_found-IsKept :
        (o : Option Adopted) (d : Desk)
        → All (λ r. r.dirty ≡ true) (adopted_rows o)
        → Keeps (adopted_rows o) row k d
        → Keeps (adopted_rows o) row k (adopt_found is o d)
    unfolding adopt_found
    adopt_found-IsKept none d a h = h
    adopt_found-IsKept (some found) d a h = if-elim (Keeps found.rows row k) _ _ _ h (
        flush-IsKept found.rows row k _ (
          persist_comparisons-IsKept found.rows row k _ _ _ (
            adopt_rows-IsKept found.rows row k found.rows d.state.rows
              (adopted_dirty found.rows found.rows (λ r m. m) a) h)))

    adopt_orphans-IsKept :
        (o : Option Adopted) (d : Desk)
        → All (λ r. r.dirty ≡ true) (adopted_rows o)
        → Keeps (adopted_rows o) row k d
        → Keeps (adopted_rows o) row k (adopt_orphans is o d)
    unfolding adopt_orphans
    adopt_orphans-IsKept o d a h =
        if-elim (Keeps (adopted_rows o) row k) d.adoption_done _ _ h (adopt_found-IsKept o d a h)

    -- A refresh, from the adoption of edits under old links to the new sheet, and whether the
    -- server answers or not, keeps every unsent row of a desk with rows under their own keys,
    -- or puts in its place an unsent row edited strictly later that was adopted, if only unsent
    -- rows are adopted.
    pub run_refresh-IsKept :
        (res : ApiResult JudgeSession) (found : Option Adopted) (on_line : Bool) (d : Desk)
        → IsKeyed d
        → All (λ r. r.dirty ≡ true) (adopted_rows found)
        → lookup k d.state.rows ≡ some row
        → row.dirty ≡ true
        → IsKept (adopted_rows found) row k (run_refresh is res found on_line d).state.rows
    unfolding run_refresh
    run_refresh-IsKept (failed e) found on_line d w a at dirty =
        let d' = record d { refresh_queued = false } in
        record {
          now = row;
          stored = ap (lookup k) (handle_refresh_error-IsHandled e d').work.rows ∙ at;
          dirty = dirty;
          version = inl refl;
        }
    run_refresh-IsKept (reply s) found on_line d w a at dirty =
        let d' = record d { refresh_queued = false } in
        let kept =
          adopt_orphans-IsKept found d' a
            (record { now = row; stored = at; dirty = dirty; version = inl refl }) in
        let adopted = adopt_orphans is found d' in
        let same =
          ensure_reserve-HasRows _ on_line (store_session is s adopted)
            (store_session-rows s adopted) in
        record {
          now = kept.now;
          stored =
              ap (lookup k) same
              ∙ refreshed_rows_keeps_dirty s adopted.state.rows k kept.now
                  (adopt_orphans-IsKeyed is found d' w) kept.stored kept.dirty;
          dirty = kept.dirty;
          version = kept.version;
        }
