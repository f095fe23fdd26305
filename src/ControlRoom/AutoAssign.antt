-- ===== src/ControlRoom/AutoAssign.antt =====
-- web/src/features/control-room/distribution.tsx: the automatic assignment, which asks before it
-- replaces assignments, and again if there are too few judges.
use platform_for_sudies.Common.{
  ℕ, String, Bool, true, false, Option, none, some, List, if◌then◌else◌,
}
use platform_for_sudies.Client.{ApiResult, reply, failed, is_status}

pub record Short : Type 0 where
  pub team_id : String
  pub got : ℕ

pub record AutoAssign : Type 0 where
  pub confirming : Bool
  pub short : Option (List Short)

-- The new state, and the request with its `allow_short`.
pub record Run : Type 0 where
  pub state : AutoAssign
  pub allow_short : Option Bool

unfoldable pub on_submit : Bool → AutoAssign → Run
on_submit has_assignments a =
    if has_assignments
    then record { state = record a { confirming = true }; allow_short = none }
    else record { state = a; allow_short = some false }

-- The dialog that asks before assignments are replaced is opened or closed.
unfoldable pub change_confirming : Bool → AutoAssign → AutoAssign
change_confirming next a = record a { confirming = next }

unfoldable pub on_confirm : AutoAssign → Run
on_confirm a = record { state = record a { confirming = false }; allow_short = some false }

unfoldable pub on_confirm_short : AutoAssign → Run
on_confirm_short a = record { state = a; allow_short = some true }

unfoldable pub close_short : AutoAssign → AutoAssign
close_short a = record a { short = none }

-- The short teams are those of the answer's details, if it has them.
unfoldable pub on_answer :
    {A : Type 0} → ApiResult A → Option (List Short) → AutoAssign → AutoAssign
on_answer (reply r) details a = record a { short = none }
on_answer (failed e) none a = a
on_answer (failed e) (some teams) a = if is_status e 409 then record a { short = some teams } else a
