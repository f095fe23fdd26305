-- ===== src/Pairwise/Screen.antt =====
-- The pair on the screen: `currentPair` and `nextOpenAfter` of web/src/features/judge/pairwise.ts.
use platform_for_sudies.Common.{
  String, Bool, true, false, not, ◌&&◌, Option, none, some, List, [], ◌∷◌, ◌≡◌, refl, str_eq, arith,
  find, any, last, is_some,
}
use platform_for_sudies.Pairwise.{LocalComparison, is_open, current_pair, next_open_after}

-- Some pair other than `id` is open.
abbrev pub has_other_open : List LocalComparison → String → Bool
has_other_open list id = any (λ x. is_open x && not (str_eq x.id id)) list

abbrev pub is_other_open : String → Option LocalComparison → Bool
is_other_open id none = false
is_other_open id (some x) = is_open x && not (str_eq x.id id)

find-any : (p : LocalComparison → Bool) (xs : List LocalComparison) → is_some (find p xs) ≡ any p xs
find-any p [] = refl
find-any p (x ∷ xs) = ground (arith, find-any p xs)

find_passes :
    (p : LocalComparison → Bool) (xs : List LocalComparison) (x : LocalComparison)
    → find p xs ≡ some x
    → p x ≡ true
find_passes p [] x e = cc
find_passes p (y ∷ ys) x e = ground (arith, find_passes p ys x)

-- If another pair than the current one is open, the desk goes on to an open pair.
pub next_open_after_some :
    (list : List LocalComparison) (id : String)
    → has_other_open list id ≡ true
    → is_some (next_open_after list id) ≡ true
unfolding next_open_after
next_open_after_some list id h =
    ground (arith, find-any (λ x. is_open x && not (str_eq x.id id)) list)

last_some : (x : LocalComparison) (xs : List LocalComparison) → is_some (last (x ∷ xs)) ≡ true
last_some x [] = refl
last_some x (y ∷ ys) = last_some y ys

-- There is a pair on the screen exactly when the list is not empty.
pub current_pair_some :
    (x : LocalComparison) (xs : List LocalComparison) (chosen : Option String)
    → is_some (current_pair (x ∷ xs) chosen) ≡ true
unfolding current_pair
current_pair_some x xs chosen = ground (arith, last_some x xs)
