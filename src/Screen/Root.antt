-- ===== src/Screen/Root.antt =====
-- web/src/features/judge/index.tsx and web/src/features/judge/screens.tsx: which screen the judge sees,
-- and what the screen of a rejected link does with the edits on the device.
use platform_for_sudies.Common.{
  ℕ, zero, ◌+◌, ◌<◌, ◌≡◌, String, Bool, true, false, ◌&&◌, Option, none, some, List, [], ◌∷◌,
  if◌then◌else◌, ltb, arith, truthy, ◌||◌, refl, suc,
}
use platform_for_sudies.Api.{team, criterion, pairwise, JudgeSession}
use platform_for_sudies.Scoring.Guards.{pending_count}
use platform_for_sudies.Pairwise.{pending_comparisons}
use platform_for_sudies.Desk.{Desk, revoked, failed}

pub data Shown : Type 0 where
  no_token link_screen : Shown
  revoked_screen : ℕ → Shown
  failed_screen loading_screen pair_desk score_desk : Shown

-- The edits that the server does not have.
unfoldable pub unsynced : Desk → ℕ
unsynced d = pending_count d.state.rows + pending_comparisons d.state.comparisons

abbrev desk_of : Option JudgeSession → Shown
desk_of none = loading_screen
desk_of (some s) = elim s.event.scoring_mode [
  | team ↦ score_desk
  | criterion ↦ score_desk
  | pairwise ↦ pair_desk
]

unfoldable pub desk_root : Desk → Shown
desk_root d = elim d.state.phase [
  | revoked ↦ revoked_screen (unsynced d)
  | failed ↦ failed_screen
  | _ ↦ desk_of d.state.session
]

-- The token of the link, and the one that is stored.
unfoldable pub judge_module : Option String → Option String → Desk → Shown
judge_module link stored d =
    if truthy link then link_screen else if truthy stored then desk_root d else no_token

-- The buttons of the screen of a rejected link.
pub data Click : Type 0 where
  recheck forget backup confirm cancel : Click

pub data Request : Type 0 where
  recheck_request forget_request backup_request : Request

pub record Answered : Type 0 where
  pub confirming : Bool
  pub request : Option Request

abbrev asks : Bool → Request → Answered
asks confirming r = record { confirming = confirming; request = some r }

abbrev turns : Bool → Answered
turns confirming = record { confirming = confirming; request = none }

-- A click on a button that is not shown does nothing.
unfoldable pub on_click : ℕ → Bool → Click → Answered
on_click count true confirm = asks true forget_request
on_click count true cancel = turns false
on_click count true backup = asks true backup_request
on_click count true recheck = turns true
on_click count true forget = turns true
on_click count false recheck = asks false recheck_request
on_click count false backup = record {
  confirming = false;
  request = if ltb 0 count then some backup_request else none;
}
on_click count false forget = if ltb 0 count then turns true else asks false forget_request
on_click count false confirm = turns false
on_click count false cancel = turns false

-- The screen after some clicks, each with the number of edits that the screen shows when it comes.
abbrev pub after_clicks : Bool → List (ℕ × Click) → Bool
after_clicks confirming [] = confirming
after_clicks confirming ((count, c) ∷ cs) = after_clicks (on_click count confirming c).confirming cs

abbrev is_forget : Click → Bool
is_forget forget = true
is_forget recheck = false
is_forget backup = false
is_forget confirm = false
is_forget cancel = false

-- Among the clicks, one asked to forget while there were edits.
abbrev pub asked : List (ℕ × Click) → Bool
asked [] = false
asked ((count, c) ∷ cs) = (is_forget c && ltb 0 count) || asked cs

asked_or_confirming :
    (confirming : Bool) (cs : List (ℕ × Click))
    → after_clicks confirming cs ≡ true
    → (confirming || asked cs) ≡ true
unfolding on_click
asked_or_confirming true cs h = refl
asked_or_confirming false [] h = h
asked_or_confirming false ((count, recheck) ∷ cs) h = asked_or_confirming false cs h
asked_or_confirming false ((count, backup) ∷ cs) h = asked_or_confirming false cs h
asked_or_confirming false ((zero, forget) ∷ cs) h = asked_or_confirming false cs h
asked_or_confirming false ((suc n, forget) ∷ cs) h = ground arith
asked_or_confirming false ((count, confirm) ∷ cs) h = asked_or_confirming false cs h
asked_or_confirming false ((count, cancel) ∷ cs) h = asked_or_confirming false cs h

forgets :
    (count : ℕ) (confirming : Bool) (c : Click)
    → (on_click count confirming c).request ≡ some forget_request
    → 0 < count
    → (confirming ≡ true) × (c ≡ confirm)
unfolding on_click
forgets count true confirm h some_left = (refl, refl)
forgets count true recheck h some_left = absurd (ground arith)
forgets count true backup h some_left = absurd (ground arith)
forgets count true forget h some_left = absurd (ground arith)
forgets count true cancel h some_left = absurd (ground arith)
forgets count false recheck h some_left = absurd (ground arith)
forgets zero false c h some_left = absurd (omega arith)
forgets (suc n) false backup h some_left = absurd (ground arith)
forgets (suc n) false forget h some_left = absurd (ground arith)
forgets count false confirm h some_left = absurd (ground arith)
forgets count false cancel h some_left = absurd (ground arith)

-- On the screen of a rejected link, while there are edits that the server does not have, the
-- device is told to forget them only by the confirming button under the warning, after an
-- earlier click asked to forget while there were edits.
pub forgets_warned :
    (cs : List (ℕ × Click)) (count : ℕ) (c : Click)
    → (on_click count (after_clicks false cs) c).request ≡ some forget_request
    → 0 < count
    → (after_clicks false cs ≡ true) × (c ≡ confirm) × (asked cs ≡ true)
forgets_warned cs count c h some_left =
    let (warned, last) = forgets count (after_clicks false cs) c h some_left in
    (warned, last, asked_or_confirming false cs warned)
