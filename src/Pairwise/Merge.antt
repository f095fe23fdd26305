-- ===== src/Pairwise/Merge.antt =====
-- web/src/features/judge/pairwise.ts: merging the server's list of pairs and adding reserved pairs.
pub mod Laws
pub mod Order
use platform_for_sudies.Common.{
  ℕ, suc, ◌+◌, max, String, Bool, true, false, not, ◌&&◌, Option, none, some, List, [], ◌∷◌, Dict,
  lookup, insert, select, values, has, if◌then◌else◌, or_else, is_some, str_eq, ltb, ◌==◌, truthy,
  filter, is_nil,
}
use platform_for_sudies.Api.{ComparisonRecord, Winner, a, b, tie}
use platform_for_sudies.Pairwise.{LocalComparison, Comparisons}

abbrev pub winner_eq : Winner → Winner → Bool
winner_eq a a = true
winner_eq b b = true
winner_eq tie tie = true
winner_eq _ _ = false

abbrev pub same_winner : Option Winner → Option Winner → Bool
same_winner none none = true
same_winner (some v) (some w) = winner_eq v w
same_winner _ _ = false

abbrev pub same_time : Option ℕ → Option ℕ → Bool
same_time none none = true
same_time (some s) (some t) = s == t
same_time _ _ = false

-- Unsent and not parked.
abbrev pub is_unsent : LocalComparison → Bool
is_unsent row = row.dirty && not (truthy row.error)

-- The counter `ord` plus one: 0 for -1, the start of `Math.max(-1, ...)`. So `++ord` is the number itself.
abbrev pub next_ord : List LocalComparison → ℕ
next_ord [] = 0
next_ord (r ∷ rs) = max (r.ord + 1) (next_ord rs)

abbrev pub is_older : ComparisonRecord → Option ℕ → Bool
is_older s none = false
is_older s (some t) = ltb (or_else s.edited_at 0) t

unfoldable pub is_same : LocalComparison → ComparisonRecord → Bool
is_same prev s =
    same_winner prev.winner s.winner
    && same_time prev.edited_at s.edited_at
    && not (truthy prev.error)

abbrev pub comparison_row : ComparisonRecord → ℕ → LocalComparison
comparison_row s ord = record {
  id = s.id;
  team_a = s.team_a;
  team_b = s.team_b;
  winner = s.winner;
  edited_at = s.edited_at;
  ord = ord;
  dirty = false;
  error = none;
}

-- The state of the loop: the new object and the counter.
abbrev pub Merging : Type 0
Merging = Comparisons × ℕ

unfoldable pub merge_record : Option LocalComparison → ComparisonRecord → Merging → Merging
merge_record none s (next, ord) = (insert s.id (comparison_row s ord) next, ord + 1)
merge_record (some prev) s (next, ord) =
    if is_unsent prev
    then (next, ord)
    else if is_older s prev.edited_at
    then (insert s.id prev next, ord)
    else (insert s.id (if is_same prev s then prev else comparison_row s prev.ord) next, ord)

unfoldable pub merge_from : Comparisons → Merging → List ComparisonRecord → Merging
merge_from local st [] = st
merge_from local st (s ∷ server) = merge_from local (merge_record (lookup s.id local) s st) server

unfoldable pub merge_comparisons : Comparisons → List ComparisonRecord → Comparisons
unfolding merge_from merge_record is_same
merge_comparisons local server =
    (merge_from local (select (λ id row. is_unsent row) local, next_ord (values local)) server).0

unfoldable pub add_from : Merging → List ComparisonRecord → Merging
add_from st [] = st
add_from (next, ord) (r ∷ fresh) = add_from (insert r.id (comparison_row r ord) next, ord + 1) fresh

unfoldable pub add_reserved : Comparisons → List ComparisonRecord → Comparisons
unfolding add_from
add_reserved local reserved =
    let fresh = filter (λ r. not (has r.id local)) reserved in
    if is_nil fresh then local else (add_from (local, next_ord (values local)) fresh).0
