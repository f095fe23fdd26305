-- ===== src/Storage/Adoption/Laws.antt =====
-- Adopting the edits of old tokens, `adoptOrphans` of web/src/features/judge/storage.ts, sets nothing
-- back.
use platform_for_sudies.Common.{
  ◌<◌, ◌⊎◌, inl, inr, String, true, Option, none, some, List, [], ◌∷◌, ◌++◌, ◌≡◌, ◌≢◌, refl, arith,
  if-elim, if-elim_known, true, sym, subst, All, All-map, All-filter_impl, str_eq→ne,
}
use platform_for_sudies.Api.{JudgeSession}
use platform_for_sudies.Scoring.Rows.{LocalRow}
use platform_for_sudies.Scoring.Guards.{adopted_wins, CachedIdentity, pick_orphan_keys, is_orphan}
use platform_for_sudies.Storage.{RowKey}
use platform_for_sudies.Storage.Guarded.{RowKey-discrete}
use platform_for_sudies.Storage.Rows.{row_key}
use platform_for_sudies.Storage.Adoption.{
  Stores, Held, Adopting, adopt_row, adopt_rows_of, adopt_token, adopt_tokens, adopt_orphans,
  own_identity,
}

-- The row of the new token that may stand in the way of an adopted one, and what is stored of it.
abbrev IsKept : Option LocalRow → Option LocalRow → Type 0
IsKept none o = Unit
IsKept (some old) o =
    (o ≡ some old) ⊎ ((row : LocalRow) × (o ≡ some row) × (old.edited_at < row.edited_at))

IsKept-refl : (o : Option LocalRow) → IsKept o o
IsKept-refl none = tt
IsKept-refl (some row) = inl refl

IsKept-trans : (a b c : Option LocalRow) → IsKept a b → IsKept b c → IsKept a c
IsKept-trans none b c h k = tt
IsKept-trans (some old) b c (inl same) k = subst (λ o. IsKept o c) same k
IsKept-trans (some old) none c (inr (r, e, lt)) k = absurd (ground arith)
IsKept-trans (some old) (some row) c (inr (r, e, lt)) (inl same) = inr (row, same, ground arith)
IsKept-trans (some old) (some row) c (inr (r, e, lt)) (inr (later, e', lt')) =
    inr (later, e', ground arith)

newer :
    (o : Option LocalRow) (row : LocalRow) (o' : Option LocalRow)
    → adopted_wins o row ≡ true
    → o' ≡ some row
    → IsKept o o'
unfolding adopted_wins
newer none row o' w e = tt
newer (some old) row o' w e = inr (row, e, ground arith)

every_trivially : (xs : List CachedIdentity) → All (λ c. Unit {0}) xs
every_trivially [] = tt
every_trivially (x ∷ xs) = (tt, every_trivially xs)

module _ (device : Stores) (k t c : String) where
  open device use {rows}

  -- The stored row of the cell under the new token.
  abbrev stored : rows.Store → Option LocalRow
  stored s = rows.get (row_key k t c) s

  put-IsKept :
      (key : RowKey) (row : LocalRow) (s : rows.Store)
      → adopted_wins (rows.get key s) row ≡ true
      → IsKept (stored s) (stored (rows.put key row s))
  put-IsKept key row s wins = elim (RowKey-discrete key (row_key k t c)) [
    | yes p ↦
        newer (stored s) row (stored (rows.put key row s))
          (subst (λ x. adopted_wins (rows.get x s) row ≡ true) p wins)
          (subst (λ x. rows.get x (rows.put key row s) ≡ some row) p (rows.get_put_self key row s))
    | no p ↦
        subst (IsKept (stored s)) (sym (rows.get_put_ne key (row_key k t c) row s p))
          (IsKept-refl (stored s))
  ]

  adopt_row-IsKept :
      (row : LocalRow) (st : rows.Store × List LocalRow)
      → IsKept (stored st.0) (stored (adopt_row device k row st).0)
  unfolding adopt_row
  adopt_row-IsKept row (s, adopted) =
      let key = row_key k row.team_id row.criterion_id in
      let same = IsKept-refl (stored s) in
      if-elim (λ (st : rows.Store × List LocalRow). IsKept (stored s) (stored st.0)) _ _ _ same
        (if-elim_known (λ (st : rows.Store × List LocalRow). IsKept (stored s) (stored st.0)) _
          (rows.put key row s, adopted ++ row ∷ []) (s, adopted) (put-IsKept key row s) same)

  adopt_rows_of-IsKept :
      (found : List LocalRow) (st : rows.Store × List LocalRow)
      → IsKept (stored st.0) (stored (adopt_rows_of device k found st).0)
  unfolding adopt_rows_of
  adopt_rows_of-IsKept [] st = IsKept-refl (stored st.0)
  adopt_rows_of-IsKept (row ∷ found) st =
      IsKept-trans _ _ _ (adopt_row-IsKept row st)
        (adopt_rows_of-IsKept found (adopt_row device k row st))

  adopt_token-IsKept :
      (old : String) (st : Adopting device)
      → old ≢ k
      → IsKept (stored st.held.rows_held) (stored (adopt_token device k old st).held.rows_held)
  unfolding adopt_token
  adopt_token-IsKept old st other =
      subst (IsKept (stored st.held.rows_held)) (sym (device.clear_rows_other old k t c _ other)) (
        adopt_rows_of-IsKept (rows.get_all old st.held.rows_held)
          (st.held.rows_held, st.adopted_rows))

  adopt_tokens-IsKept :
      (orphans : List String) (st : Adopting device)
      → All (λ old. old ≢ k) orphans
      → IsKept (stored st.held.rows_held) (stored (adopt_tokens device k orphans st).held.rows_held)
  unfolding adopt_tokens
  adopt_tokens-IsKept [] st others = IsKept-refl (stored st.held.rows_held)
  adopt_tokens-IsKept (old ∷ orphans) st (other, others) =
      IsKept-trans _ _ _ (adopt_token-IsKept old st other)
        (adopt_tokens-IsKept orphans (adopt_token device k old st) others)

  orphans-are-others :
      (session : JudgeSession) (cached : List CachedIdentity)
      → All (λ old. old ≢ k) (pick_orphan_keys (own_identity k session) cached)
  unfolding pick_orphan_keys
  orphans-are-others session cached =
      All-map (λ old. old ≢ k) (λ c. c.k) _
        (All-filter_impl (is_orphan (own_identity k session))
          (λ c u orphan. str_eq→ne c.k k (ground arith)) cached (every_trivially cached))

  -- Taking over the edits of old tokens never sets a cell back: a row that is stored under the
  -- new token is afterwards the same row, or one that was edited strictly later.
  pub adopt_orphans_keeps_newer :
      (session : JudgeSession) (held : Held device) (old : LocalRow)
      → stored held.rows_held ≡ some old
      → (stored (adopt_orphans device k session held).held.rows_held ≡ some old)
        ⊎ ((row : LocalRow) × (stored (adopt_orphans device k session held).held.rows_held
              ≡ some row)
            × (old.edited_at < row.edited_at))
  unfolding adopt_orphans
  adopt_orphans_keeps_newer session held old e =
      subst (λ o. IsKept o (stored (adopt_orphans device k session held).held.rows_held)) e
        (adopt_tokens-IsKept _ _ (orphans-are-others session _))
