-- ===== src/Storage/Adoption.antt =====
-- `adoptOrphans`, `loadDesk`, `saveSession` and `forgetDesk` of web/src/features/judge/storage.ts:
-- the transactions over all three stores of the device.
pub mod Laws
use platform_for_sudies.Common.{
  ℕ, ◌≤◌, ◌<◌, String, Bool, true, false, not, Option, none, some, List, [], ◌∷◌, ◌++◌, map, ◌≡◌,
  ◌≢◌, refl, ap, arith, if◌then◌else◌, is_some, Option-cases, or_else, and_then, if-elim,
  if-elim_known, true, false, sym, subst, All, All-map, All-filter_impl, str_eq→ne, inl, inr,
}
use platform_for_sudies.Api.{JudgeSession}
use platform_for_sudies.Scoring.Rows.{LocalRow}
use platform_for_sudies.Scoring.Guards.{adopted_wins, CachedIdentity, pick_orphan_keys, is_orphan}
use platform_for_sudies.Pairwise.{LocalComparison, adopted_comparison_wins}
use platform_for_sudies.Storage.{Table, RowKey, PairKey}
use platform_for_sudies.Storage.Guarded.{RowKey-discrete}
use platform_for_sudies.Storage.Rows.{row_key}
use platform_for_sudies.Storage.Pairs.{pair_key}

pub record SavedSession : Type 0 where
  pub k : String
  pub session : JudgeSession
  pub saved_at : ℕ

-- The three object stores; `clear` deletes the range of keys of a token.
pub record Stores : Type 1 where
  pub rows : Table RowKey LocalRow
  pub comparisons : Table PairKey LocalComparison
  pub sessions : Table String SavedSession
  pub all_sessions : sessions.Store → List SavedSession
  pub clear_rows : String → rows.Store → rows.Store
  pub clear_comparisons : String → comparisons.Store → comparisons.Store
  pub clear_rows_other :
      (old k t c : String) (s : rows.Store)
      → old ≢ k
      → rows.get (row_key k t c) (clear_rows old s) ≡ rows.get (row_key k t c) s

abbrev pub identity_of : SavedSession → CachedIdentity
identity_of c = record { k = c.k; judge_id = c.session.judge.id; event_id = c.session.event.id }

abbrev pub own_identity : String → JudgeSession → CachedIdentity
own_identity k session = record { k = k; judge_id = session.judge.id; event_id = session.event.id }

module _ (device : Stores) where
  open device use {rows, comparisons, sessions, all_sessions, clear_rows, clear_comparisons}

  -- What the stores hold, and the rows and the decisions that were adopted so far.
  pub record Held : Type 0 where
    pub rows_held : rows.Store
    pub comparisons_held : comparisons.Store
    pub sessions_held : sessions.Store

  unfoldable pub adopt_row :
      String → LocalRow → rows.Store × List LocalRow → rows.Store × List LocalRow
  adopt_row k row (s, adopted) =
      let key = row_key k row.team_id row.criterion_id in
      if not row.dirty
      then (s, adopted)
      else if adopted_wins (rows.get key s) row
      then (rows.put key row s, adopted ++ row ∷ [])
      else (s, adopted)

  unfoldable pub adopt_rows_of :
      String → List LocalRow → rows.Store × List LocalRow → rows.Store × List LocalRow
  adopt_rows_of k [] st = st
  adopt_rows_of k (row ∷ stored) st = adopt_rows_of k stored (adopt_row k row st)

  unfoldable pub adopt_comparison :
      String
      → LocalComparison
      → comparisons.Store × List LocalComparison
      → comparisons.Store × List LocalComparison
  adopt_comparison k row (s, adopted) =
      let key = pair_key k row.id in
      if not row.dirty
      then (s, adopted)
      else if adopted_comparison_wins (comparisons.get key s) row
      then (comparisons.put key row s, adopted ++ row ∷ [])
      else (s, adopted)

  unfoldable pub adopt_comparisons_of :
      String
      → List LocalComparison
      → comparisons.Store × List LocalComparison
      → comparisons.Store × List LocalComparison
  adopt_comparisons_of k [] st = st
  adopt_comparisons_of k (row ∷ stored) st =
      adopt_comparisons_of k stored (adopt_comparison k row st)

  -- The stores with what was adopted.
  pub record Adopting : Type 0 where
    pub held : Held
    pub adopted_rows : List LocalRow
    pub adopted_comparisons : List LocalComparison

  -- One round of the loop over the orphans.
  unfoldable pub adopt_token : String → String → Adopting → Adopting
  unfolding adopt_rows_of adopt_comparisons_of
  adopt_token k old st =
      let (row_store, row_list) =
        adopt_rows_of k (rows.get_all old st.held.rows_held) (st.held.rows_held, st.adopted_rows) in
      let (pair_store, pair_list) =
        adopt_comparisons_of k (comparisons.get_all old st.held.comparisons_held)
          (st.held.comparisons_held, st.adopted_comparisons) in
      record {
        held = record {
          rows_held = clear_rows old row_store;
          comparisons_held = clear_comparisons old pair_store;
          sessions_held = sessions.delete old st.held.sessions_held;
        };
        adopted_rows = row_list;
        adopted_comparisons = pair_list;
      }

  unfoldable pub adopt_tokens : String → List String → Adopting → Adopting
  adopt_tokens k [] st = st
  adopt_tokens k (old ∷ orphans) st = adopt_tokens k orphans (adopt_token k old st)

  unfoldable pub adopt_orphans : String → JudgeSession → Held → Adopting
  unfolding adopt_tokens adopt_token
  adopt_orphans k session held =
      adopt_tokens k
        (pick_orphan_keys (own_identity k session)
          (map identity_of (all_sessions held.sessions_held)))
        (record { held = held; adopted_rows = []; adopted_comparisons = [] })

  unfoldable pub load_desk :
      String → Held → Option JudgeSession × List LocalRow × List LocalComparison
  load_desk k held = (
    and_then (sessions.get k held.sessions_held) (λ saved. some saved.session),
    rows.get_all k held.rows_held,
    comparisons.get_all k held.comparisons_held,
  )

  unfoldable pub save_session : String → JudgeSession → ℕ → Held → Held
  save_session k session now held = record held {
    sessions_held =
        sessions.put k (record { k = k; session = session; saved_at = now }) held.sessions_held;
  }

  unfoldable pub forget_desk : String → Held → Held
  forget_desk k held = record {
    rows_held = clear_rows k held.rows_held;
    comparisons_held = clear_comparisons k held.comparisons_held;
    sessions_held = sessions.delete k held.sessions_held;
  }
