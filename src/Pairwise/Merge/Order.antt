-- ===== src/Pairwise/Merge/Order.antt =====
-- The sequence of the pairs in web/src/features/judge/pairwise.ts: the places of the pairs that the
-- judge has seen do not move, and reserved pairs come behind them.
use platform_for_sudies.Common.{
  ℕ, ◌+◌, ◌≤◌, ◌<◌, String, true, false, not, Option, none, some, List, [], ◌∷◌, ◌≡◌, refl, ◌∙◌, ap,
  inl, inr, lookup, insert, select, str_eq, eq_iff, arith, Bool-cases, lookup-insert, lookup-select,
  values, has, filter, is_some, All, All-impl, str_eq→eq,
}
use platform_for_sudies.Api.{ComparisonRecord}
use platform_for_sudies.Pairwise.{LocalComparison, Comparisons}
use platform_for_sudies.Pairwise.Decide.{IsOwnId, WellKeyed}
use platform_for_sudies.Pairwise.Merge.{
  is_unsent, comparison_row, merge_record, merge_from, merge_comparisons, add_from, add_reserved,
  next_ord,
}

abbrev place : Option LocalComparison → Option ℕ
place none = none
place (some row) = some row.ord

-- The place of a pair is as in `local`, or the pair is not in `next`.
abbrev IsPlaced : Option LocalComparison → Option LocalComparison → Type 0
IsPlaced old new = (is_some old ≡ true) → (is_some new ≡ true) → place new ≡ place old

merge_record-IsPlaced :
    (o old : Option LocalComparison) (s : ComparisonRecord) (next : Comparisons) (ord : ℕ)
    (id : String)
    → (str_eq s.id id ≡ true → o ≡ old)
    → IsPlaced old (lookup id next)
    → IsPlaced old (lookup id (merge_record o s (next, ord)).0)
unfolding merge_record
merge_record-IsPlaced none old s next ord id same h =
    λ p q. ground (arith, lookup-insert s.id id (comparison_row s ord) next, same, h)
merge_record-IsPlaced (some prev) old s next ord id same h = λ p q. ground (
  arith,
  lookup-insert s.id id prev next,
  lookup-insert s.id id (comparison_row s prev.ord) next,
  same,
  h,
)

merge_from-IsPlaced :
    (local next : Comparisons) (ord : ℕ) (server : List ComparisonRecord) (id : String)
    → IsPlaced (lookup id local) (lookup id next)
    → IsPlaced (lookup id local) (lookup id (merge_from local (next, ord) server).0)
unfolding merge_from
merge_from-IsPlaced local next ord [] id h = h
merge_from-IsPlaced local next ord (s ∷ server) id h =
    let (next', ord') = merge_record (lookup s.id local) s (next, ord) in
    merge_from-IsPlaced local next' ord' server id (
      merge_record-IsPlaced (lookup s.id local) (lookup id local) s next ord id
        (λ e. ap (λ i. lookup i local) (str_eq→eq s.id id e)) h)

-- For pairs under their own keys, a pair that stays in the list through a merge keeps its place.
pub merge_comparisons_keeps_ord :
    (local : Comparisons) (server : List ComparisonRecord) (id : String) (old new : LocalComparison)
    → WellKeyed local
    → lookup id local ≡ some old
    → lookup id (merge_comparisons local server) ≡ some new
    → new.ord ≡ old.ord
unfolding merge_comparisons
merge_comparisons_keeps_ord local server id old new w e f =
    let start = select (λ _ row. is_unsent row) local in
    let kept : IsPlaced (lookup id local) (lookup id start) =
      λ p q. ground (arith, lookup-select IsOwnId (λ _ row. is_unsent row) id local w) in
    let placed = merge_from-IsPlaced local start (next_ord (values local)) server id kept in
    ground (arith, placed (ap is_some e) (ap is_some f))

add_from_keeps :
    (next : Comparisons) (ord : ℕ) (fresh : List ComparisonRecord) (id : String)
    → All (λ r. str_eq r.id id ≡ false) fresh
    → lookup id (add_from (next, ord) fresh).0 ≡ lookup id next
unfolding add_from
add_from_keeps next ord [] id h = refl
add_from_keeps next ord (r ∷ fresh) id (n, h) =
    add_from_keeps (insert r.id (comparison_row r ord) next) (ord + 1) fresh id h
    ∙ lookup-insert r.id id (comparison_row r ord) next
    ∙ rw n

fresh_ne :
    (local : Comparisons) (reserved : List ComparisonRecord) (id : String)
    → has id local ≡ true
    → All (λ r. str_eq r.id id ≡ false) (filter (λ r. not (has r.id local)) reserved)
fresh_ne local [] id h = tt
fresh_ne local (r ∷ reserved) id h = elim (Bool-cases (has r.id local)) [
  | inl held ↦ rw held (fresh_ne local reserved id h)
  | inr new ↦ rw new (ground (arith, eq_iff r.id id), fresh_ne local reserved id h)
]

-- A reservation changes no pair that the desk already holds, decided locally or not.
pub add_reserved_keeps :
    (local : Comparisons) (reserved : List ComparisonRecord) (id : String) (row : LocalComparison)
    → lookup id local ≡ some row
    → lookup id (add_reserved local reserved) ≡ some row
unfolding add_reserved
add_reserved_keeps local reserved id row e = ground (
  arith,
  add_from_keeps local (next_ord (values local)) (filter (λ r. not (has r.id local)) reserved) id
      (fresh_ne local reserved id (ap is_some e)),
)

abbrev IsBehind : ℕ → Option LocalComparison → Type 0
IsBehind ord o = (x : LocalComparison) → o ≡ some x → (ord ≤ x.ord) × (x.dirty ≡ false)

add_from-IsBehind :
    (next : Comparisons) (low ord : ℕ) (fresh : List ComparisonRecord) (id : String)
    → low ≤ ord
    → IsBehind low (lookup id next)
    → IsBehind low (lookup id (add_from (next, ord) fresh).0)
unfolding add_from
add_from-IsBehind next low ord [] id le h = h
add_from-IsBehind next low ord (r ∷ fresh) id le h =
    add_from-IsBehind (insert r.id (comparison_row r ord) next) low (ord + 1) fresh id (omega arith)
      (λ x e. ground (arith, lookup-insert r.id id (comparison_row r ord) next, h x))

next_ord-above : (rows : List LocalComparison) → All (λ x. x.ord < next_ord rows) rows
next_ord-above [] = tt
next_ord-above (r ∷ rows) = (omega arith, All-impl (λ x h. omega arith) rows (next_ord-above rows))

-- A reserved pair that is new to the desk is put behind all that the desk holds, and is not dirty.
pub add_reserved_behind :
    (local : Comparisons) (reserved : List ComparisonRecord) (id : String) (row : LocalComparison)
    → lookup id local ≡ none
    → lookup id (add_reserved local reserved) ≡ some row
    → All (λ x. x.ord < row.ord) (values local) × (row.dirty ≡ false)
unfolding add_reserved
add_reserved_behind local reserved id row e f =
    let fresh = filter (λ r. not (has r.id local)) reserved in
    let behind =
      add_from-IsBehind local (next_ord (values local)) (next_ord (values local)) fresh id
        (omega arith) (λ x g. cc) in
    let (le, clean) : (next_ord (values local) ≤ row.ord) × (row.dirty ≡ false) =
      ground (arith, behind row) in
    (All-impl (λ x h. omega arith) (values local) (next_ord-above (values local)), clean)
