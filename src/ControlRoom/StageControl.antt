-- ===== src/ControlRoom/StageControl.antt =====
-- web/src/features/control-room/stage.tsx: the organizer's control of the stage's screen.
use platform_for_sudies.Common.{
  ℕ, String, Bool, false, not, ◌&&◌, ◌||◌, Option, none, some, if◌then◌else◌, str_eq, ltb, ◌<◌, ◌≡◌,
  arith, List, [], ◌∷◌,
}
use platform_for_sudies.Api.{EventStatus, EventFull, StageState, Track}
use platform_for_sudies.ControlRoom.Distribution.{is_frozen}

pub data StageAction : Type 0 where
  next prev reset all : StageAction

abbrev pub is_available : EventStatus → Bool
is_available status = is_frozen status

abbrev first_track : List Track → Option String
first_track [] = none
first_track (t ∷ ts) = some t.id

abbrev pub total : Option StageState → ℕ
total none = 0
total (some s) = s.total_groups

abbrev pub revealed : EventFull → Option StageState → ℕ
revealed full none = full.event.stage_revealed
revealed full (some s) = s.revealed

-- The track that is selected in the list.
unfoldable pub shown_track : EventFull → Option StageState → Option String
shown_track full none = elim full.event.stage_track_id [
  | none ↦ first_track full.tracks
  | some id ↦ some id
]
shown_track full (some s) = s.track_id

unfoldable pub can_next : EventFull → Option StageState → Bool → Bool
can_next full s pending =
    is_available full.event.status && ltb (revealed full s) (total s) && not pending

unfoldable pub can_prev : EventFull → Option StageState → Bool → Bool
can_prev full s pending = is_available full.event.status && ltb 0 (revealed full s) && not pending

pub record StageKey : Type 0 where
  pub key : String
  pub default_prevented : Bool
  pub with_modifier : Bool
  pub is_owned : Bool

unfoldable pub on_stage_key : EventFull → Option StageState → Bool → StageKey → Option StageAction
on_stage_key full s pending e =
    if e.default_prevented || e.with_modifier || e.is_owned
    then none
    else if str_eq e.key " " || str_eq e.key "ArrowRight"
    then (if can_next full s pending then some next else none)
    else if str_eq e.key "ArrowLeft"
    then (if can_prev full s pending then some prev else none)
    else none

-- What a key asks for can be done: a next group is left, a previous one is shown, and no request
-- runs.
pub record CanReveal (full : EventFull) (s : Option StageState) (pending : Bool) (a : StageAction)
    : Type 0 where
  pub is_next : a ≡ next → revealed full s < total s
  pub is_prev : a ≡ prev → 0 < revealed full s
  pub idle : pending ≡ false

on_stage_key-CanReveal :
    (full : EventFull) (s : Option StageState) (pending : Bool) (e : StageKey) (a : StageAction)
    → on_stage_key full s pending e ≡ some a
    → CanReveal full s pending a
unfolding on_stage_key can_next can_prev
on_stage_key-CanReveal full s pending e a h = record {
  is_next = λ k. ground (arith, h, k);
  is_prev = λ k. ground (arith, h, k);
  idle = ground (arith, h);
}
