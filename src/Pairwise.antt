-- ===== src/Pairwise.antt =====
-- web/src/features/judge/pairwise.ts: the local comparisons, the judge's decisions and the pair on
-- the screen. `Comparisons` is an object keyed by the pair's identifier.
pub mod Merge
pub mod Outbox
pub mod Decide
pub mod Screen
use platform_for_sudies.Common.{
  ℕ, zero, suc, ◌+◌, max, String, Bool, true, false, not, ◌&&◌, ◌||◌, Option, none, some, List, [],
  ◌∷◌, Dict, lookup, insert, select, values, has, if◌then◌else◌, or_else, is_some, str_eq, ltb,
  truthy, filter, find, last, drop, length, sort_by, map,
}
use platform_for_sudies.Api.{Winner, a, b, tie}

pub record LocalComparison : Type 0 where
  pub id : String
  pub team_a : String
  pub team_b : String
  pub winner : Option Winner
  pub edited_at : Option ℕ
  pub ord : ℕ
  pub dirty : Bool
  pub error : Option String

abbrev pub Comparisons : Type 0
Comparisons = Dict LocalComparison

unfoldable pub sorted_comparisons : Comparisons → List LocalComparison
sorted_comparisons c = sort_by (λ x. x.ord) (values c)

abbrev pub is_open : LocalComparison → Bool
is_open x = not (is_some x.winner)

unfoldable pub open_comparisons : Comparisons → List LocalComparison
open_comparisons c = filter is_open (sorted_comparisons c)

unfoldable pub decided_count : Comparisons → ℕ
decided_count c = length (filter (λ x. is_some x.winner) (values c))

unfoldable pub pending_comparisons : Comparisons → ℕ
pending_comparisons c = length (filter (λ x. x.dirty) (values c))

unfoldable pub error_comparisons : Comparisons → List LocalComparison
error_comparisons c = filter (λ x. truthy x.error) (values c)

abbrev pub reserve_low : ℕ
reserve_low = 3

abbrev pub reserve_target : ℕ
reserve_target = 5

-- The row that a decision stores.
abbrev pub decided_row : LocalComparison → Option Winner → ℕ → LocalComparison
decided_row prev winner now = record prev {
  winner = winner;
  edited_at = some (max now (or_else prev.edited_at 0 + 1));
  dirty = true;
  error = none;
}

decide_from : Option LocalComparison → Comparisons → String → Option Winner → ℕ → Comparisons
decide_from none c id winner now = c
decide_from (some prev) c id winner now = insert id (decided_row prev winner now) c

unfoldable pub decide : Comparisons → String → Option Winner → ℕ → Comparisons
unfolding decide_from
decide c id winner now = decide_from (lookup id c) c id winner now

-- The multi-tab guard; `edited_at` is the version that is written or removed.
unfoldable pub can_overwrite_comparison : Option LocalComparison → Option ℕ → Bool
can_overwrite_comparison none edited_at = true
can_overwrite_comparison (some stored) edited_at =
    not (stored.dirty && ltb (or_else edited_at 0) (or_else stored.edited_at 0))

unfoldable pub adopted_comparison_wins : Option LocalComparison → LocalComparison → Bool
adopted_comparison_wins none adopted = true
adopted_comparison_wins (some existing) adopted =
    ltb (or_else existing.edited_at 0) (or_else adopted.edited_at 0)

-- `a ?? b` on rows.
abbrev pub first_of_two : Option LocalComparison → Option LocalComparison → Option LocalComparison
first_of_two none y = y
first_of_two (some x) y = some x

abbrev is_chosen : Option String → LocalComparison → Bool
is_chosen none x = false
is_chosen (some id) x = str_eq x.id id

unfoldable pub current_pair : List LocalComparison → Option String → Option LocalComparison
current_pair list chosen_id =
    first_of_two (find (is_chosen chosen_id) list) (first_of_two (find is_open list) (last list))

-- `list.slice(list.findIndex((x) => x.id === id) + 1)`: the whole list if the pair is not in it.
unfoldable pub after_id : List LocalComparison → String → Option (List LocalComparison)
after_id [] id = none
after_id (x ∷ xs) id = if str_eq x.id id then some xs else after_id xs id

unfoldable pub next_open_after : List LocalComparison → String → Option LocalComparison
next_open_after list id =
    first_of_two (find is_open (or_else (after_id list id) list))
      (find (λ x. is_open x && not (str_eq x.id id)) list)

unfoldable pub winner_for_key : String → Option Winner
winner_for_key key =
    if str_eq key "ArrowLeft" || str_eq key "1"
    then some a
    else if str_eq key "ArrowDown" || str_eq key "0"
    then some tie
    else if str_eq key "ArrowRight" || str_eq key "2"
    then some b
    else none
