-- ===== src/ControlRoom/NextRound.antt =====
-- web/src/features/control-room/next-round.tsx: the form that makes the next round of an event.
use platform_for_sudies.Common.{
  ℕ, String, Bool, true, false, not, ◌&&◌, Option, none, some, List, [], ◌∷◌, map, filter,
  if◌then◌else◌, is_nil, is_empty, trim, length, ltb, leb, ◌≡◌, refl, arith, eq_iff,
}
use platform_for_sudies.Api.{Team, RankingRow, ScoringMode}
use platform_for_sudies.Tracks.{contains}
use platform_for_sudies.Desk.Edits.{is_pairwise}
use platform_for_sudies.ControlRoom.{top_team_ids}
use platform_for_sudies.ControlRoom.Distribution.{toggle}

-- The state of the form; `top` is `Number(top)` where it is an integer that is not negative.
pub record Form : Type 0 where
  pub title : String
  pub top : Option ℕ
  pub picked : List String
  pub mode : ScoringMode
  pub copy_criteria : Bool
  pub copy_judges : Bool

unfoldable pub new_form : String → List RankingRow → ScoringMode → Form
new_form default_title rows mode = record {
  title = default_title;
  top = some 3;
  picked = top_team_ids rows 3;
  mode = mode;
  copy_criteria = true;
  copy_judges = true;
}

abbrev pub is_top_valid : Option ℕ → Bool
is_top_valid none = false
is_top_valid (some n) = leb 1 n

-- The button is disabled while the number is not valid.
unfoldable pub apply_top : List RankingRow → Form → Form
apply_top rows f = elim f.top [
  | none ↦ f
  | some n ↦ if leb 1 n then record f { picked = top_team_ids rows n } else f
]

unfoldable pub pick : String → Form → Form
pick id f = record f { picked = toggle f.picked id }

unfoldable pub is_too_few : Form → Bool
is_too_few f = is_pairwise f.mode && ltb (length f.picked) 2

unfoldable pub is_valid : Form → Bool
is_valid f = not (is_empty (trim f.title)) && not (is_nil f.picked) && not (is_too_few f)

pub record NextRoundRequest : Type 0 where
  pub title : String
  pub team_ids : List String
  pub scoring_mode : ScoringMode
  pub copy_criteria : Bool
  pub copy_judges : Bool

abbrev pub picked_teams : List Team → List String → List Team
picked_teams teams picked = filter (λ t. contains t.id picked) teams

unfoldable pub request_body : List Team → Form → NextRoundRequest
request_body teams f = record {
  title = trim f.title;
  team_ids = map (λ t. t.id) (picked_teams teams f.picked);
  scoring_mode = f.mode;
  copy_criteria = f.copy_criteria && not (is_pairwise f.mode);
  copy_judges = f.copy_judges;
}

-- The teams of the next round are the picked teams of the event.
pub contains-request_body :
    (teams : List Team) (f : Form) (id : String)
    → contains id (request_body teams f).team_ids
      ≡ (contains id (map (λ t. t.id) teams) && contains id f.picked)
unfolding request_body
contains-request_body [] f id = refl
contains-request_body (t ∷ ts) f id = ground (arith, contains-request_body ts f id, eq_iff t.id id)
