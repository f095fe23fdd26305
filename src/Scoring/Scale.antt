-- ===== src/Scoring/Scale.antt =====
-- web/src/features/judge/scoring.ts: the scale of a criterion, the stepper and the digit hotkeys.
pub mod Laws
use platform_for_sudies.Common.{
  ℕ, zero, suc, ◌+◌, ◌-◌, ◌*◌, ◌/◌, ◌%◌, min, max, Bool, true, false, ◌&&◌, ◌||◌, Option, none,
  some, List, [], ◌∷◌, if◌then◌else◌, ltb, leb, ◌==◌,
}

-- `Pick<Criterion, 'max_x100' | 'step_x100'>`
pub record ScaleSpec : Type 0 where
  pub max_x100 : ℕ
  pub step_x100 : ℕ

pub data Scale : Type 0 where
  segmented : List ℕ → Scale
  numeric : Scale

-- `Array.from({ length: count }, (_, i) => i * step)`, from position `i` on.
unfoldable pub positions_from : ℕ → ℕ → ℕ → List ℕ
positions_from zero i step = []
positions_from (suc count) i step = (i * step) ∷ positions_from count (i + 1) step

-- The server keeps the step of a criterion positive, so the division is exact in the source too.
unfoldable pub scale_of : ScaleSpec → Scale
unfolding positions_from
scale_of c =
    let count = c.max_x100 / c.step_x100 + 1 in
    if ltb 11 count then numeric else segmented (positions_from count 0 c.step_x100)

-- The values of the desk are natural numbers, so the tests for an integer and for `v >= 0` hold.
unfoldable pub is_valid_value : ℕ → ScaleSpec → Bool
is_valid_value v c = leb v c.max_x100 && v % c.step_x100 == 0

pub data Direction : Type 0 where
  up down : Direction

-- `Math.max(0, current + dir * step)`: the truncated subtraction of natural numbers.
unfoldable pub step_value : Option ℕ → Direction → ScaleSpec → ℕ
step_value none up c = min c.step_x100 c.max_x100
step_value none down c = 0
step_value (some current) up c = min c.max_x100 (current + c.step_x100)
step_value (some current) down c = min c.max_x100 (current - c.step_x100)

abbrev pub digit_chord_ms : ℕ
digit_chord_ms = 600

pub record Digit : Type 0 where
  pub digit : ℕ
  pub at : ℕ

-- `now - prev.at <= DIGIT_CHORD_MS`, also where the clock went back.
abbrev is_chord : Option Digit → ℕ → Bool
is_chord none now = false
is_chord (some prev) now = prev.digit == 1 && leb now (prev.at + digit_chord_ms)

unfoldable pub resolve_digit : ℕ → Option Digit → ℕ → ℕ → Option ℕ
resolve_digit digit prev now positions =
    if digit == 0 && is_chord prev now && ltb 10 positions
    then some 10
    else if ltb digit positions
    then some digit
    else none
