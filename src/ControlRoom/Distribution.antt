-- ===== src/ControlRoom/Distribution.antt =====
-- web/src/features/control-room/distribution.tsx: the editor that says which judge scores which
-- team, and what web/src/features/control-room/context.ts derives from the event.
pub mod Grid
pub mod RoundTrip
use Prim.Native.Char.{code}
use Prim.Native.String
use platform_for_sudies.Common.{
  ℕ, ◌≤◌, String, Bool, true, false, not, ◌&&◌, ◌||◌, Option, none, some, List, [], ◌∷◌, ◌++◌, map,
  if◌then◌else◌, ltb, leb, ◌==◌, length, filter, any, flat_map, is_nil, or_else, str_eq, max,
}
use platform_for_sudies.Api.{
  EventStatus, draft, judging, locked, finalized, published, EventFull, Team, JudgeSummary,
  JudgeTeamPair,
}
use platform_for_sudies.Tracks.{contains, pair_key, pair_set, in_judge_set}
use platform_for_sudies.ControlRoom.{assignment_pairs, same_set}

abbrev pub is_frozen : EventStatus → Bool
is_frozen draft = false
is_frozen judging = false
is_frozen locked = false
is_frozen finalized = true
is_frozen published = true

unfoldable pub assignments_on : EventFull → Bool
assignments_on full = or_else full.event.assignments_enabled (not (is_nil full.assignments))

-- The boxes of a judge's line.
abbrev pub line_keys : List Team → String → List String
line_keys teams judge_id = map (λ t. pair_key judge_id t.id) teams

abbrev pub judge_ids : EventFull → List String
judge_ids full = map (λ j. j.id) full.judges

-- `judges.flatMap((j) => teams.map((t) => pairKey(j.id, t.id)))`
unfoldable pub grid_keys : EventFull → List String
grid_keys full = flat_map (line_keys full.teams) (judge_ids full)

unfoldable pub initial_assigned : EventFull → List String
initial_assigned full =
    if not (assignments_on full) then grid_keys full else pair_set full.assignments

pub record Editor : Type 0 where
  pub assigned : List String
  pub conflicts : List String

unfoldable pub open_editor : EventFull → Editor
open_editor full = record { assigned = initial_assigned full; conflicts = pair_set full.conflicts }

unfoldable pub is_dirty : EventFull → Editor → Bool
is_dirty full e =
    not (same_set e.assigned (initial_assigned full))
    || not (same_set e.conflicts (pair_set full.conflicts))

unfoldable pub pairs : EventFull → Editor → List JudgeTeamPair
pairs full e = assignment_pairs (judge_ids full) full.teams e.assigned

unfoldable pub is_all_off : EventFull → Editor → Bool
is_all_off full e =
    is_nil (pairs full e)
    && is_nil e.assigned
    && not (is_nil full.judges)
    && not (is_nil full.teams)

unfoldable pub is_everyone : EventFull → Editor → Bool
is_everyone full e = is_nil (pairs full e) && not (is_all_off full e)

unfoldable pub in_set : EventFull → Editor → String → String → Bool
in_set full e judge_id team_id =
    let everyone = is_everyone full e in
    in_judge_set judge_id team_id (if everyone then [] else e.assigned) e.conflicts
      (some (not everyone))

-- The teams that each judge scores, as shown beside the judges.
unfoldable pub loads : EventFull → Editor → List ℕ
loads full e = map (λ j. length (filter (λ t. in_set full e j.id t.id) full.teams)) full.judges

unfoldable pub idle : EventFull → Editor → List JudgeSummary
idle full e =
    filter (λ j. length (filter (λ t. in_set full e j.id t.id) full.teams) == 0) full.judges

unfoldable pub uncovered : EventFull → Editor → List Team
uncovered full e =
    filter (λ t. not (any (λ j. j.is_active && in_set full e j.id t.id) full.judges)) full.teams

-- `if (!next.delete(key)) next.add(key)`; a new member goes to the end of a `Set`.
unfoldable pub toggle : List String → String → List String
toggle set key = if contains key set then filter (λ k. not (str_eq k key)) set else set ++ key ∷ []

unfoldable pub toggle_assigned : EventFull → String → Editor → Editor
toggle_assigned full key e =
    if is_frozen full.event.status then e else record e { assigned = toggle e.assigned key }

unfoldable pub toggle_conflict : EventFull → String → Editor → Editor
toggle_conflict full key e =
    if is_frozen full.event.status then e else record e { conflicts = toggle e.conflicts key }

unfoldable pub assign_everyone : EventFull → Editor → Editor
assign_everyone full e =
    if is_frozen full.event.status || is_everyone full e
    then e
    else record e { assigned = grid_keys full }

unfoldable pub revert : EventFull → Editor → Editor
revert full e = if is_dirty full e then open_editor full else e

unfoldable pub can_save : EventFull → Editor → Bool → Bool
can_save full e is_pending =
    not (is_frozen full.event.status || not (is_dirty full e) || is_all_off full e || is_pending)

-- `k.split(':')`: what stands before the first colon, and the rest up to the next one.
unfoldable pub before_colon : String → String
before_colon String.[] = ""
before_colon (String.◌∷◌ c s) =
    let more = String.◌∷◌ c (before_colon s) in if code c == 58 then "" else more

unfoldable pub after_colon : String → String
after_colon String.[] = ""
after_colon (String.◌∷◌ c s) =
    let more = after_colon s in if code c == 58 then before_colon s else more

pub data Put : Type 0 where
  put_assignments put_conflicts : List JudgeTeamPair → Put

-- The requests of a save, in their order.
unfoldable pub save : EventFull → Editor → List Put
save full e =
    (if not (same_set e.assigned (initial_assigned full))
      then put_assignments (pairs full e) ∷ []
      else [])
    ++ (if not (same_set e.conflicts (pair_set full.conflicts))
        then put_conflicts
            (map (λ k. record { judge_id = before_colon k; team_id = after_colon k }) e.conflicts)
          ∷ []
        else [])

-- The automatic distribution: how many judges for each team may be asked for.
unfoldable pub is_valid_per_team : ℕ → ℕ → Bool
is_valid_per_team count judges = leb 1 count && leb count (max 1 judges)
