-- ===== src/Scoring/Sheet/Prune.antt =====
-- Rows of cells that left the judge's sheet: `pruneOutsideSheet`, `rejectedOutsideSheet` and
-- `dismissOutsideSheet` of web/src/features/judge/scoring.ts, key by key.
use platform_for_sudies.Common.{
  ◌≤◌, Option, true, false, is_empty, any, filter, ◌++◌, String, Bool, not, ◌&&◌, ◌||◌, none, some,
  List, [], ◌∷◌, ◌≡◌, refl, sym, ◌∙◌, ap, inl, inr, lookup, select, keys, values, length, map,
  is_nil, if◌then◌else◌, str_eq, arith, Bool-cases, IsDict-select, lookup-select, and_then, ==_iff,
  ◌==◌, truthy, is_some, if-elim,
}
use platform_for_sudies.Api.{Team, Criterion}
use platform_for_sudies.Tracks.{contains, criterion_applies, opt_eq}
use platform_for_sudies.Scoring.Rows.{LocalRow, Rows, key_of, cell_key}
use platform_for_sudies.Scoring.Rows.Laws.{IsOwnKey, WellKeyed}
use platform_for_sudies.Scoring.Sheet.{
  allowed_cells, prune_outside_sheet, is_rejected_outside, rejected_outside_sheet,
  dismiss_outside_sheet,
}

length-keys-select-le :
    (p : String → LocalRow → Bool) (m : Rows) → length (keys (select p m)) ≤ length (keys m)
unfolding select
length-keys-select-le p [] = omega arith
length-keys-select-le p ((k, v) ∷ m) = ground (arith, length-keys-select-le p m)

-- A filter that keeps the number of entries keeps them all.
select_all :
    (p : String → LocalRow → Bool) (m : Rows)
    → length (keys (select p m)) ≡ length (keys m)
    → select p m ≡ m
unfolding select
select_all p [] e = refl
select_all p ((k, v) ∷ m) e = ground (arith, select_all p m, length-keys-select-le p m)

prune-eq-select :
    (rows : Rows) (teams : List Team) (criteria : List Criterion)
    → prune_outside_sheet rows teams criteria
      ≡ select (λ k row. contains k (allowed_cells teams criteria) || row.dirty) rows
unfolding prune_outside_sheet
prune-eq-select rows teams criteria = elim (Bool-cases (length (keys kept) == length (keys rows))) [
  | inl same ↦ rw same (sym (select_all _ rows ((==_iff _ _).0 same)))
  | inr fewer ↦ rw fewer
]
  where
    kept : Rows
    kept = select (λ k row. contains k (allowed_cells teams criteria) || row.dirty) rows

-- A criterion without a track is for every team, any other for the teams of its track.
abbrev pub is_for : Criterion → Team → Bool
is_for c t = elim c.track_id [
  | none ↦ true
  | some track ↦ is_empty track || elim t.track_id [ none ↦ false | some own ↦ str_eq track own ]
]

-- The key is that of a team and a criterion that is for it.
abbrev pub is_on_sheet : String → List Team → List Criterion → Bool
is_on_sheet k teams criteria =
    any (λ t. any (λ c. is_for c t && str_eq (cell_key t.id c.id) k) criteria) teams

applies_for :
    (o u : Option String)
    → (not (truthy o) || opt_eq o u) ≡ elim o [
      | none ↦ true
      | some track ↦ is_empty track || elim u [ none ↦ false | some own ↦ str_eq track own ]
    ]
applies_for none u = refl
applies_for (some String.[]) u = refl
applies_for (some (String.◌∷◌ x s)) none = refl
applies_for (some (String.◌∷◌ x s)) (some own) = refl

contains-team_cells :
    (k : String) (t : Team) (criteria : List Criterion)
    → contains k (map (λ c. cell_key t.id c.id) (filter (λ c. criterion_applies c t) criteria))
      ≡ any (λ c. is_for c t && str_eq (cell_key t.id c.id) k) criteria
unfolding criterion_applies
contains-team_cells k t [] = refl
contains-team_cells k t (c ∷ cs) =
    ground (arith, contains-team_cells k t cs, applies_for c.track_id t.track_id)

contains-append :
    (k : String) (xs ys : List String) → contains k (xs ++ ys) ≡ (contains k xs || contains k ys)
contains-append k [] ys = refl
contains-append k (x ∷ xs) ys = ground (arith, contains-append k xs ys)

contains-allowed_cells :
    (k : String) (teams : List Team) (criteria : List Criterion)
    → contains k (allowed_cells teams criteria) ≡ is_on_sheet k teams criteria
unfolding allowed_cells
contains-allowed_cells k [] criteria = refl
contains-allowed_cells k (t ∷ ts) criteria =
    contains-append k (map (λ c. cell_key t.id c.id) (filter (λ c. criterion_applies c t) criteria))
      (allowed_cells ts criteria)
    ∙ ground (arith, contains-team_cells k t criteria, contains-allowed_cells k ts criteria)

-- For rows under their own keys, pruning drops exactly the clean rows of cells that are not of
-- a team and a criterion of the sheet, where a criterion without a track is for every team and
-- any other for the teams of its track; unsent rows all stay.
pub lookup-prune_outside_sheet :
    (rows : Rows) (teams : List Team) (criteria : List Criterion) (k : String)
    → WellKeyed rows
    → lookup k (prune_outside_sheet rows teams criteria)
      ≡ and_then
          (lookup k rows)
          (λ row. if is_on_sheet k teams criteria || row.dirty then some row else none)
lookup-prune_outside_sheet rows teams criteria k w =
    ap (lookup k) (prune-eq-select rows teams criteria)
    ∙ lookup-select IsOwnKey _ k rows w
    ∙ ap (λ b. and_then (lookup k rows) (λ row. if b || row.dirty then some row else none))
        (contains-allowed_cells k teams criteria)

pub prune_outside_sheet-WellKeyed :
    (rows : Rows) (teams : List Team) (criteria : List Criterion)
    → WellKeyed rows
    → WellKeyed (prune_outside_sheet rows teams criteria)
prune_outside_sheet-WellKeyed rows teams criteria w =
    rw (prune-eq-select rows teams criteria) (IsDict-select IsOwnKey _ rows w)

-- The keys computed from the rows are the keys under which they stand.
contains-key_of :
    (k : String) (m : Rows)
    → WellKeyed m
    → contains k (map key_of (values m)) ≡ is_some (lookup k m)
unfolding lookup
contains-key_of k [] w = refl
contains-key_of k ((j, row) ∷ m) (_, own, w) =
    ground (arith, contains-key_of k m w, ap (λ i. str_eq i k) own)

pub dismiss_outside_sheet-WellKeyed :
    (rows : Rows) (teams : List Team) (criteria : List Criterion)
    → WellKeyed rows
    → WellKeyed (dismiss_outside_sheet rows teams criteria)
unfolding dismiss_outside_sheet
dismiss_outside_sheet-WellKeyed rows teams criteria w =
    if-elim WellKeyed (is_nil (map key_of (rejected_outside_sheet rows teams criteria))) rows
      (select (λ k row. not (contains k (map key_of (rejected_outside_sheet rows teams criteria))))
        rows)
      w (IsDict-select IsOwnKey _ rows w)

-- The rejected rows outside the sheet, as the keys that `dismissOutsideSheet` collects.
contains_gone :
    (rows : Rows) (teams : List Team) (criteria : List Criterion) (k : String)
    → WellKeyed rows
    → contains k (map key_of (rejected_outside_sheet rows teams criteria))
      ≡ is_some (
          and_then (lookup k rows) (λ row.
            if is_rejected_outside (allowed_cells teams criteria) k row then some row else none))
unfolding rejected_outside_sheet
contains_gone rows teams criteria k w =
    contains-key_of k _ (IsDict-select IsOwnKey _ rows w)
    ∙ ap is_some
        (lookup-select IsOwnKey (is_rejected_outside (allowed_cells teams criteria)) k rows w)

-- For rows under their own keys, dismissing forgets exactly the rejected rows of cells outside the
-- sheet.
pub lookup-dismiss_outside_sheet :
    (rows : Rows) (teams : List Team) (criteria : List Criterion) (k : String)
    → WellKeyed rows
    → lookup k (dismiss_outside_sheet rows teams criteria)
      ≡ and_then (lookup k rows) (λ row.
        if truthy row.error && not (contains k (allowed_cells teams criteria))
        then none
        else some row)
unfolding dismiss_outside_sheet
lookup-dismiss_outside_sheet rows teams criteria k w = ground (
  arith,
  contains_gone rows teams criteria k w,
  lookup-select IsOwnKey
      (λ j row. not (contains j (map key_of (rejected_outside_sheet rows teams criteria)))) k rows
      w,
)
