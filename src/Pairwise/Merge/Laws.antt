-- ===== src/Pairwise/Merge/Laws.antt =====
-- `mergeComparisons` and `addReserved` of web/src/features/judge/pairwise.ts, pair by pair.
use platform_for_sudies.Common.{
  not, ◌&&◌, truthy, ℕ, String, Bool, true, false, Option, none, some, List, [], ◌∷◌, ◌≡◌, refl, ap,
  lookup, select, if◌then◌else◌, str_eq, eq_iff, arith, lookup-insert, lookup-select, values,
}
use platform_for_sudies.Api.{ComparisonRecord, Winner, a, b, tie}
use platform_for_sudies.Pairwise.{LocalComparison, Comparisons}
use platform_for_sudies.Pairwise.Decide.{IsOwnId, WellKeyed}
use platform_for_sudies.Pairwise.Merge.{
  is_unsent, winner_eq, same_winner, same_time, is_older, is_same, comparison_row, merge_record,
  merge_from, merge_comparisons, next_ord,
}

-- The last record of the server's list for a pair.
abbrev pub last_for : String → List ComparisonRecord → Option ComparisonRecord
last_for id [] = none
last_for id (s ∷ server) = elim (last_for id server) [
  | some r ↦ some r
  | none ↦ if str_eq s.id id then some s else none
]

-- A decision that is to be sent: dirty, and not parked with the error of a rejection.
abbrev pub keeps : Option LocalComparison → Bool
keeps none = false
keeps (some row) = row.dirty && not (truthy row.error)

-- What the judge decided and when, and whether it is still to be sent.
pub record Decision : Type 0 where
  pub winner : Option Winner
  pub edited_at : Option ℕ
  pub dirty : Bool

abbrev pub decision : Option LocalComparison → Option Decision
decision none = none
decision (some x) = some (record { winner = x.winner; edited_at = x.edited_at; dirty = x.dirty })

abbrev pub server_decision : ComparisonRecord → Decision
server_decision s = record { winner = s.winner; edited_at = s.edited_at; dirty = false }

-- A pair that is not to be sent, a parked one included: the local version if the server's is older, else the server's.
unfoldable pub newest : Option LocalComparison → ComparisonRecord → Decision
newest none s = server_decision s
newest (some prev) s =
    if is_older s prev.edited_at
    then record { winner = prev.winner; edited_at = prev.edited_at; dirty = prev.dirty }
    else server_decision s

abbrev pub merged : Option LocalComparison → Option ComparisonRecord → Option Decision
merged o none = if keeps o then decision o else none
merged o (some s) = if keeps o then decision o else some (newest o s)

winner_eq→eq : (v w : Winner) → winner_eq v w ≡ true → v ≡ w
winner_eq→eq a a e = refl
winner_eq→eq b b e = refl
winner_eq→eq tie tie e = refl
winner_eq→eq v w e = cc

same_winner→eq : (v w : Option Winner) → same_winner v w ≡ true → v ≡ w
same_winner→eq none none e = refl
same_winner→eq (some v) (some w) e = ap some (winner_eq→eq v w e)
same_winner→eq v w e = cc

same_time→eq : (s t : Option ℕ) → same_time s t ≡ true → s ≡ t
same_time→eq none none e = refl
same_time→eq (some s) (some t) e = ground arith
same_time→eq s t e = cc

-- A row that is kept as the same says what the server says.
is_same_sound :
    (prev : LocalComparison) (s : ComparisonRecord)
    → is_same prev s ≡ true
    → is_unsent prev ≡ false
    → decision (some prev) ≡ some (server_decision s)
unfolding is_same
is_same_sound prev s e n =
    ground (arith, same_winner→eq prev.winner s.winner, same_time→eq prev.edited_at s.edited_at)

decision-merge_record :
    (o : Option LocalComparison) (s : ComparisonRecord) (next : Comparisons) (ord : ℕ) (id : String)
    → decision (lookup id (merge_record o s (next, ord)).0) ≡ (
        if keeps o
        then decision (lookup id next)
        else if str_eq s.id id
        then some (newest o s)
        else decision (lookup id next))
unfolding merge_record newest
decision-merge_record none s next ord id =
    ground (arith, lookup-insert s.id id (comparison_row s ord) next)
decision-merge_record (some prev) s next ord id = ground (
  arith,
  is_same_sound prev s,
  lookup-insert s.id id prev next,
  lookup-insert s.id id (comparison_row s prev.ord) next,
)

decision-merge_from :
    (local next : Comparisons) (ord : ℕ) (server : List ComparisonRecord) (id : String)
    → decision (lookup id (merge_from local (next, ord) server).0) ≡ (
        if keeps (lookup id local) then decision (lookup id next) else elim (last_for id server) [
          | none ↦ decision (lookup id next)
          | some s ↦ some (newest (lookup id local) s)
        ])
unfolding merge_from
decision-merge_from local next ord [] id = ground arith
decision-merge_from local next ord (s ∷ server) id =
    let (next', ord') = merge_record (lookup s.id local) s (next, ord) in
    ground (
      arith,
      decision-merge_from local next' ord' server id,
      decision-merge_record (lookup s.id local) s next ord id,
      eq_iff s.id id,
    )

-- Merging the server's pairs decides each pair as the specification says, for pairs under their
-- own keys: a decision that is to be sent, dirty and not parked with an error, stays; of the
-- others, parked ones included, a pair that the server does not list goes, and any other takes
-- the newer of the two decisions.
pub decision-merge_comparisons :
    (local : Comparisons) (server : List ComparisonRecord) (id : String)
    → WellKeyed local
    → decision (lookup id (merge_comparisons local server))
      ≡ merged (lookup id local) (last_for id server)
unfolding merge_comparisons
decision-merge_comparisons local server id w = ground (
  arith,
  decision-merge_from local (select (λ _ row. is_unsent row) local) (next_ord (values local)) server
      id,
  lookup-select IsOwnId (λ _ row. is_unsent row) id local w,
)
