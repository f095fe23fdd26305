-- ===== src/ControlRoom.antt =====
-- web/src/features/control-room/lib.ts: what the organizer's control room computes.
pub mod Laws
pub mod Paste
pub mod Distribution
pub mod SheetImport
pub mod NextRound
pub mod AutoAssign
pub mod StageControl
pub mod Templates
pub mod Criteria
pub mod Board
use platform_for_sudies.Common.{
  ℕ, zero, suc, ◌+◌, ◌-◌, ◌*◌, ◌/◌, ◌≤◌, ◌<◌, String, Bool, true, false, not, ◌&&◌, ◌||◌, Option,
  none, some, List, [], ◌∷◌, ◌++◌, map, if◌then◌else◌, ltb, leb, ◌==◌, length, filter, all, take,
  drop, flat_map, is_some, is_nil, get_elem?,
}
use platform_for_sudies.Api.{
  EventStatus, draft, judging, locked, finalized, published, JudgeSummary, Matrix, MatrixCell, Team,
  Criterion, RankingRow, JudgeTeamPair,
}
use platform_for_sudies.Tracks.{contains, in_judge_set, pair_key, criterion_applies}

-- The keys of `cr.lifecycle.actions`.
pub data ActionKey : Type 0 where
  to_start to_lock to_reopen to_finalize to_unfinalize to_publish to_unpublish : ActionKey

pub record LifecycleAction : Type 0 where
  pub to : EventStatus
  pub key : ActionKey
  pub reason_required : Bool
  pub primary : Bool

abbrev pub plain_action : EventStatus → ActionKey → Bool → Bool → LifecycleAction
plain_action to key reason_required primary = record {
  to = to;
  key = key;
  reason_required = reason_required;
  primary = primary;
}

unfoldable pub lifecycle : EventStatus → List LifecycleAction
lifecycle draft = plain_action judging to_start false true ∷ []
lifecycle judging = plain_action locked to_lock false true ∷ []
lifecycle locked =
    plain_action finalized to_finalize false true ∷ plain_action judging to_reopen true false ∷ []
lifecycle finalized =
    plain_action published to_publish false true ∷ plain_action locked to_unfinalize true false ∷ []
lifecycle published = plain_action finalized to_unpublish false false ∷ []

pub data CellState : Type 0 where
  attention submitted partial empty : CellState

unfoldable pub cell_state : JudgeSummary → ℕ → ℕ → Bool → CellState
cell_state judge scored total pairwise =
    if not judge.is_active || ltb 0 judge.pending_count
    then attention
    else if is_some judge.submitted_at && (pairwise || (ltb 0 total && leb total scored))
    then submitted
    else if ltb 0 scored || is_some judge.submitted_at
    then partial
    else empty

pub record Kpis : Type 0 where
  pub teams_with_scores : ℕ
  pub teams_total : ℕ
  pub judges_submitted : ℕ
  pub judges_active : ℕ
  pub attention_count : ℕ
  pub coverage_pct : ℕ

-- `set.add(x)`
abbrev pub add_id : String → List String → List String
add_id x set = if contains x set then set else x ∷ set

abbrev pub active_ids : List JudgeSummary → List String
active_ids [] = []
active_ids (j ∷ js) = let rest = active_ids js in if j.is_active then add_id j.id rest else rest

-- The variables of the loop over the cells.
pub record Tally : Type 0 where
  pub scored_teams : List String
  pub covered_teams : List String
  pub scored : ℕ
  pub total : ℕ

abbrev pub is_covered : Bool → Bool → MatrixCell → Bool
is_covered pairwise has_assignments c =
    if pairwise then not c.conflict && (not has_assignments || c.assigned) else ltb 0 c.total

unfoldable pub tally_cell : List String → Bool → Bool → MatrixCell → Tally → Tally
tally_cell active pairwise has_assignments c t =
    if contains c.judge_id active
    then record {
      scored_teams = if ltb 0 c.scored then add_id c.team_id t.scored_teams else t.scored_teams;
      covered_teams =
          if is_covered pairwise has_assignments c
          then add_id c.team_id t.covered_teams
          else t.covered_teams;
      scored = t.scored + c.scored;
      total = t.total + c.total;
    }
    else t

unfoldable pub tally_cells : List String → Bool → Bool → List MatrixCell → Tally → Tally
tally_cells active pairwise has_assignments [] t = t
tally_cells active pairwise has_assignments (c ∷ cs) t =
    tally_cells active pairwise has_assignments cs (tally_cell active pairwise has_assignments c t)

-- `pct scored total` is `Math.round((scored / total) * 100)`, which is computed in floating point.
unfoldable pub compute_kpis : (ℕ → ℕ → ℕ) → Matrix → Bool → Bool → Kpis
unfolding tally_cells tally_cell
compute_kpis pct m pairwise has_assignments =
    let active = active_ids m.judges in
    let t =
      tally_cells active pairwise has_assignments m.cells
        (record { scored_teams = []; covered_teams = []; scored = 0; total = 0 }) in
    record {
      teams_with_scores = length t.scored_teams;
      teams_total = length t.covered_teams;
      judges_submitted = length (filter (λ j. j.is_active && is_some j.submitted_at) m.judges);
      judges_active = length active;
      attention_count = length (filter (λ j. not j.is_active || ltb 0 j.pending_count) m.judges);
      coverage_pct = if t.total == 0 then 0 else pct t.scored t.total;
    }

-- By how many positions, and in which direction, an item moves.
pub data Delta : Type 0 where
  down_by : ℕ → Delta
  up_by : ℕ → Delta

-- `index + delta`, unless it is below zero.
abbrev pub target : ℕ → Delta → Option ℕ
target index (down_by n) = some (index + n)
target index (up_by n) = if ltb index n then none else some (index - n)

-- `next.splice(at, 0, item)`
abbrev pub insert_at {ℓ} : {A : Type ℓ} → ℕ → A → List A → List A
insert_at at item xs = take at xs ++ item ∷ drop at xs

-- `next.splice(index, 1)`
abbrev pub remove_at {ℓ} : {A : Type ℓ} → ℕ → List A → List A
remove_at index xs = take index xs ++ drop (suc index) xs

-- Without an item the source would put `undefined` there; its callers move an item of the list.
abbrev pub put_back {ℓ} : {A : Type ℓ} → Option A → ℕ → List A → List A
put_back none to xs = xs
put_back (some item) to xs = insert_at to item xs

abbrev pub moved {ℓ} : {A : Type ℓ} → List A → ℕ → Option ℕ → List A
moved items index none = items
moved items index (some to) =
    if leb (length items) to
    then items
    else put_back (get_elem? items index) to (remove_at index items)

unfoldable pub move_item {ℓ} : {A : Type ℓ} → List A → ℕ → Delta → List A
move_item items index delta = moved items index (target index delta)

pub data Ago : Type 0 where
  never just_now : Ago
  minutes hours days : ℕ → Ago

-- `Math.round(n / d)`
abbrev pub rounded : ℕ → ℕ → ℕ
rounded n d = (2 * n + d) / (2 * d)

-- The kind of the text and its number.
unfoldable pub format_ago : Option ℕ → ℕ → Ago
format_ago none now = never
format_ago (some ms) now =
    let sec = rounded (now - ms) 1000 in
    let min = rounded sec 60 in
    let h = rounded min 60 in
    if ltb sec 45
    then just_now
    else if ltb min 60
    then minutes min
    else if ltb h 24
    then hours h
    else days (rounded h 24)

unfoldable pub judge_teams :
    String → List Team → List String → List String → Option Bool → List Team
judge_teams judge_id teams assigned conflicts enabled =
    filter (λ t. in_judge_set judge_id t.id assigned conflicts enabled) teams

-- `teams.reduce((n, t) => n + …, 0)`
abbrev pub cells_of : List Criterion → List Team → ℕ → ℕ
cells_of criteria [] n = n
cells_of criteria (t ∷ ts) n =
    cells_of criteria ts (n + length (filter (λ c. criterion_applies c t) criteria))

unfoldable pub judge_total :
    String → List Team → List Criterion → List String → List String → Option Bool → ℕ
unfolding judge_teams
judge_total judge_id teams criteria assigned conflicts enabled =
    cells_of criteria (judge_teams judge_id teams assigned conflicts enabled) 0

abbrev pub assigned_pairs : List Team → List String → String → List JudgeTeamPair
assigned_pairs teams assigned judge_id =
    map (λ t. record { judge_id = judge_id; team_id = t.id })
      (filter (λ t. contains (pair_key judge_id t.id) assigned) teams)

-- The judges by their identifiers.
unfoldable pub assignment_pairs : List String → List Team → List String → List JudgeTeamPair
assignment_pairs judges teams assigned =
    if all (λ j. all (λ t. contains (pair_key j t.id) assigned) teams) judges
    then []
    else flat_map (assigned_pairs teams assigned) judges

unfoldable pub same_set : List String → List String → Bool
same_set a b = length a == length b && all (λ x. contains x b) a

abbrev pub is_within : ℕ → Option ℕ → Bool
is_within n none = false
is_within n (some rank) = leb rank n

unfoldable pub top_team_ids : List RankingRow → ℕ → List String
top_team_ids rows n = map (λ r. r.team_id) (filter (λ r. is_within n r.rank) rows)
