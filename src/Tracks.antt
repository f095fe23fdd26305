-- ===== src/Tracks.antt =====
-- web/src/lib/tracks.ts: which criteria apply to which teams, groups by track, and the set of teams
-- of a judge. A `Set<string>` is the list of its members.
pub mod Distinct
pub mod Partition
use platform_for_sudies.Common.{
  String, Bool, true, false, not, ◌||◌, Option, none, some, List, [], ◌∷◌, ◌++◌, map, str_eq,
  truthy, filter, any, and_then, or_else, if◌then◌else◌, is_nil,
}
use Prim.Native.String
use platform_for_sudies.Api.{Criterion, Team, Track, JudgeTeamPair}

-- `a === b` on `string | null`.
abbrev pub opt_eq : Option String → Option String → Bool
opt_eq none none = true
opt_eq (some s) (some t) = str_eq s t
opt_eq _ _ = false

unfoldable pub criterion_applies : Criterion → Team → Bool
criterion_applies criterion team =
    not (truthy criterion.track_id) || opt_eq criterion.track_id team.track_id

-- `set.has(x)`
abbrev pub contains : String → List String → Bool
contains x set = any (λ y. str_eq y x) set

pub record TrackGroup {ℓ} (R : Type ℓ) : Type ℓ where
  pub track : Option Track
  pub rows : List R

module _ {ℓ} {R : Type ℓ} (track_id : R → Option String) where
  unfoldable pub track_group : List R → Track → TrackGroup R
  track_group rows track = record {
    track = some track;
    rows = filter (λ r. opt_eq (track_id r) (some track.id)) rows;
  }

  unfoldable pub is_trackless : List Track → R → Bool
  is_trackless tracks r = elim (track_id r) [
    | none ↦ true
    | some id ↦ not (contains id (map (λ t. t.id) tracks))
  ]

  unfoldable pub group_by_track : List R → List Track → List (TrackGroup R)
  unfolding track_group is_trackless
  group_by_track rows tracks =
      filter (λ g. not (is_nil g.rows))
        (map (track_group rows) tracks
          ++ (record { track = none; rows = filter (is_trackless tracks) rows }) ∷ [])

  unfoldable pub criteria_of_group : List R → Option Track → List R
  criteria_of_group criteria track =
      filter
        (λ c. opt_eq (track_id c) none || opt_eq (track_id c) (and_then track (λ t. some t.id)))
        criteria

unfoldable pub pair_key : String → String → String
pair_key judge_id team_id = String.◌++◌ judge_id (String.◌++◌ ":" team_id)

-- `enabled` left out is `assigned.size > 0`.
unfoldable pub in_judge_set : String → String → List String → List String → Option Bool → Bool
in_judge_set judge_id team_id assigned conflicts enabled =
    if contains (pair_key judge_id team_id) conflicts
    then false
    else not (or_else enabled (not (is_nil assigned)))
      || contains (pair_key judge_id team_id) assigned

unfoldable pub pair_set : List JudgeTeamPair → List String
pair_set pairs = map (λ p. pair_key p.judge_id p.team_id) pairs
