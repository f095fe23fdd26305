-- ===== src/Pairwise/Decide.antt =====
-- The judge's decisions: `decide` of web/src/features/judge/pairwise.ts, and the invariant of the
-- comparisons.
use platform_for_sudies.Common.{
  ℕ, ◌<◌, String, true, Option, none, some, ◌≡◌, refl, inl, inr, lookup, if◌then◌else◌, str_eq,
  eq_iff, arith, Option-cases, lookup-insert, IsDict, lookup-IsDict, IsDict-insert, or_else,
  and_then,
}
use platform_for_sudies.Api.{Winner}
use platform_for_sudies.Pairwise.{LocalComparison, Comparisons, decided_row, decide, decide_from}

-- Every comparison stands under its own identifier.
abbrev pub IsOwnId : String → LocalComparison → Type 0
IsOwnId id row = row.id ≡ id

abbrev pub WellKeyed : Comparisons → Type 0
WellKeyed = IsDict IsOwnId

-- A decision changes the pair that it is about, if the desk holds it, and no other pair.
pub lookup-decide :
    (c : Comparisons) (id : String) (winner : Option Winner) (now : ℕ) (j : String)
    → lookup j (decide c id winner now) ≡ (
        if str_eq id j
        then and_then (lookup id c) (λ prev. some (decided_row prev winner now))
        else lookup j c)
unfolding decide
lookup-decide c id winner now j = elim (Option-cases (lookup id c)) [
  | inl e ↦ ground (arith, eq_iff id j)
  | inr (prev, e) ↦ ground (arith, lookup-insert id j (decided_row prev winner now) c)
]

pub decide-WellKeyed :
    (c : Comparisons) (id : String) (winner : Option Winner) (now : ℕ)
    → WellKeyed c
    → WellKeyed (decide c id winner now)
unfolding decide
decide-WellKeyed c id winner now w = go (lookup id c) refl
  where
    go : (o : Option LocalComparison) → lookup id c ≡ o → WellKeyed (decide_from o c id winner now)
    go none e = w
    go (some prev) e = IsDict-insert IsOwnId id _ c (lookup-IsDict IsOwnId id c prev w e) w

-- A decision of a pair that the desk holds is later than the version before it, is unsent, and
-- keeps the pair's place.
pub edited_at-decide :
    (c : Comparisons) (id : String) (winner : Option Winner) (now : ℕ) (prev row : LocalComparison)
    → lookup id c ≡ some prev
    → lookup id (decide c id winner now) ≡ some row
    → (or_else prev.edited_at 0 < or_else row.edited_at 0)
      × (row.winner ≡ winner)
      × (row.dirty ≡ true)
      × (row.ord ≡ prev.ord)
edited_at-decide c id winner now prev row e f =
    let step = lookup-decide c id winner now id in
    let changed : some (decided_row prev winner now) ≡ some row =
      ground (arith, step, eq_iff id id) in
    (ground arith, ground arith, ground arith, ground arith)
