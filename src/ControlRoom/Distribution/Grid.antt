-- ===== src/ControlRoom/Distribution/Grid.antt =====
-- The boxes of web/src/features/control-room/distribution.tsx and the pairs made of them.
use platform_for_sudies.Common.{
  String, true, not, ◌&&◌, List, [], ◌∷◌, ◌++◌, if◌then◌else◌, all, flat_map, ◌≡◌, refl, arith,
  eq_iff, eq_refl, str_eq, All, ap, ◌∙◌, if-elim, All-filter, All-append, All-impl,
}
use platform_for_sudies.Api.{Team, JudgeTeamPair}
use platform_for_sudies.Tracks.{contains, pair_key, pair_set}
use platform_for_sudies.Tracks.Distinct.{contains-append, contains-without}
use platform_for_sudies.ControlRoom.{assigned_pairs}
use platform_for_sudies.ControlRoom.Distribution.{line_keys, toggle}

-- The pairs of a judge, as keys: the marked boxes of the judge's line.
contains-assigned_pairs :
    (k j : String) (set : List String) (teams : List Team)
    → contains k (pair_set (assigned_pairs teams set j))
      ≡ (contains k (line_keys teams j) && contains k set)
unfolding pair_set
contains-assigned_pairs k j set [] = refl
contains-assigned_pairs k j set (t ∷ ts) =
    ground (arith, contains-assigned_pairs k j set ts, eq_iff (pair_key j t.id) k)

pair_set-append : (xs ys : List JudgeTeamPair) → pair_set (xs ++ ys) ≡ pair_set xs ++ pair_set ys
unfolding pair_set
pair_set-append [] ys = refl
pair_set-append (x ∷ xs) ys = ap (◌∷◌ (pair_key x.judge_id x.team_id)) (pair_set-append xs ys)

module _ (set : List String) (teams : List Team) where
  -- The pairs of all judges, as keys: the marked boxes of the grid.
  pub contains-pairs :
      (k : String) (js : List String)
      → contains k (pair_set (flat_map (assigned_pairs teams set) js))
        ≡ (contains k (flat_map (line_keys teams) js) && contains k set)
  unfolding pair_set
  contains-pairs k [] = refl
  contains-pairs k (j ∷ js) =
      ap (contains k) (pair_set-append (assigned_pairs teams set j) _)
      ∙ ground (
        arith,
        contains-append k (pair_set (assigned_pairs teams set j))
            (pair_set (flat_map (assigned_pairs teams set) js)),
        contains-append k (line_keys teams j) (flat_map (line_keys teams) js),
        contains-assigned_pairs k j set teams,
        contains-pairs k js,
      )

  marked_line :
      (k j : String) (ts : List Team)
      → all (λ t. contains (pair_key j t.id) set) ts ≡ true
      → contains k (line_keys ts j) ≡ true
      → contains k set ≡ true
  marked_line k j [] a h = absurd (ground arith)
  marked_line k j (t ∷ ts) a h = ground (arith, marked_line k j ts, eq_iff (pair_key j t.id) k)

  -- Where every box is marked, each key of the grid is in the set.
  pub marked_grid :
      (k : String) (js : List String)
      → all (λ j. all (λ t. contains (pair_key j t.id) set) teams) js ≡ true
      → contains k (flat_map (line_keys teams) js) ≡ true
      → contains k set ≡ true
  marked_grid k [] a h = absurd (ground arith)
  marked_grid k (j ∷ js) a h = ground (
    arith,
    marked_line k j teams,
    marked_grid k js,
    contains-append k (line_keys teams j) (flat_map (line_keys teams) js),
  )

-- A set of keys of which each stands in the grid.
abbrev pub IsWithin : List String → List String → Type 0
IsWithin grid set = All (λ k. contains k grid ≡ true) set

pub contains-IsWithin :
    (grid set : List String) (k : String)
    → IsWithin grid set
    → contains k set ≡ true
    → contains k grid ≡ true
contains-IsWithin grid [] k w h = absurd (ground arith)
contains-IsWithin grid (x ∷ xs) k w h =
    ground (arith, contains-IsWithin grid xs k w.1, w.0, eq_iff x k)

pub itself-IsWithin : (set : List String) → IsWithin set set
itself-IsWithin [] = tt
itself-IsWithin (x ∷ xs) =
    (rw (eq_refl x) refl, All-impl (λ k h. ground arith) xs (itself-IsWithin xs))

pub toggle-IsWithin :
    (grid set : List String) (k : String)
    → contains k grid ≡ true
    → IsWithin grid set
    → IsWithin grid (toggle set k)
unfolding toggle
toggle-IsWithin grid set k h w =
    if-elim (IsWithin grid) (contains k set) _ _ (All-filter _ _ set w)
      (All-append _ set (k ∷ []) w (h, tt))

-- A box that is clicked changes, and no other.
pub contains-toggle :
    (set : List String) (k j : String)
    → contains j (toggle set k) ≡ (if str_eq k j then not (contains j set) else contains j set)
unfolding toggle
contains-toggle set k j =
    ground (arith, eq_iff k j, contains-append j set (k ∷ []), contains-without set k j)
