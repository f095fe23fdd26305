-- ===== src/Scoring/Scale/Laws.antt =====
-- The scale of a criterion in web/src/features/judge/scoring.ts offers and keeps valid values only.
use native.Mathlib.Nat.{div-add-mod, mul-mod_left, mul-le-mul_right, mul-div_cancel}
use native.Mathlib.Decide.{dec_le}
use platform_for_sudies.Common.{
  ℕ, zero, suc, ◌+◌, ◌-◌, ◌*◌, ◌/◌, ◌≤◌, ◌<◌, min, true, Option, none, some, List, ◌≡◌, refl, arith,
  All, length, if◌then◌else◌, ltb, ap, ◌∙◌, get_elem?,
}
use platform_for_sudies.Scoring.Scale.{
  ScaleSpec, segmented, positions_from, scale_of, is_valid_value, Direction, up, down, step_value,
  Digit, resolve_digit,
}

-- What the server demands of a scale: the step is positive and divides the maximum.
pub record IsScale (c : ScaleSpec) : Type 0 where
  pub positive : 0 < c.step_x100
  pub count : ℕ
  pub whole : c.max_x100 ≡ count * c.step_x100

-- The positions of the scale are the valid values.
pub multiple-IsValid :
    (c : ScaleSpec) (scale : IsScale c) (q : ℕ)
    → q ≤ scale.count
    → is_valid_value (q * c.step_x100) c ≡ true
unfolding is_valid_value
multiple-IsValid c scale q h = ground (arith, mul-mod_left q c.step_x100, le q h)
  where
    le : (p : ℕ) → p ≤ scale.count → p * c.step_x100 ≤ c.max_x100
    le p k = rw (scale.whole) (grind arith)

pub valid-multiple :
    (c : ScaleSpec) (v : ℕ)
    → is_valid_value v c ≡ true
    → (v ≡ (v / c.step_x100) * c.step_x100) × (v ≤ c.max_x100)
unfolding is_valid_value
valid-multiple c v h = (ground (arith, div-add-mod v c.step_x100), ground arith)

abbrev IsPosition : (c : ScaleSpec) → IsScale c → ℕ → Type 0
IsPosition c scale v = (q : ℕ) × (q ≤ scale.count) × (v ≡ q * c.step_x100)

IsPosition-IsValid :
    (c : ScaleSpec) (scale : IsScale c) (v : ℕ) → IsPosition c scale v → is_valid_value v c ≡ true
IsPosition-IsValid c scale v (q, le, e) = rw e (multiple-IsValid c scale q le)

quotient-le : (q count step : ℕ) → 0 < step → q * step ≤ count * step → q ≤ count
quotient-le q count step pos h = grind arith

valid-IsPosition :
    (c : ScaleSpec) (scale : IsScale c) (v : ℕ) → is_valid_value v c ≡ true → IsPosition c scale v
valid-IsPosition c scale v h =
    let (e, le) = valid-multiple c v h in
    let q = v / c.step_x100 in
    (q, quotient-le q scale.count c.step_x100 scale.positive (omega (arith, scale.whole)), e)

abbrev stepped : ℕ → Direction → ℕ → ℕ
stepped q up count = min count (q + 1)
stepped q down count = min count (q - 1)

up_lem : (n q s : ℕ) → q ≤ n → min (n * s) (q * s + s) ≡ min n (q + 1) * s
up_lem n q s le = elim (dec_le (q + 1) n) [
  | yes h ↦
      let small : min n (q + 1) ≡ q + 1 = omega arith in
      rw small (omega (arith, mul-le-mul_right s h))
  | no h ↦
      let same : q ≡ n = omega arith in
      rw same (let top : min n (n + 1) ≡ n = omega arith in rw top (omega arith))
]

down_lem : (n q s : ℕ) → q ≤ n → min (n * s) (q * s - s) ≡ min n (q - 1) * s
down_lem n zero s le =
    let none_below : min n (0 - 1) ≡ 0 = omega arith in rw none_below (omega arith)
down_lem n (suc q) s le =
    let small : min n (suc q - 1) ≡ q = omega arith in
    let below : q ≤ n = omega arith in rw small (omega (arith, mul-le-mul_right s below))

step_position :
    (c : ScaleSpec) (scale : IsScale c) (q : ℕ) (dir : Direction)
    → q ≤ scale.count
    → step_value (some (q * c.step_x100)) dir c ≡ stepped q dir scale.count * c.step_x100
unfolding step_value
step_position c scale q up le = rw scale.whole (up_lem scale.count q c.step_x100 le)
step_position c scale q down le = rw scale.whole (down_lem scale.count q c.step_x100 le)

stepped-le : (q : ℕ) (dir : Direction) (count : ℕ) → stepped q dir count ≤ count
stepped-le q up count = omega arith
stepped-le q down count = omega arith

-- On a scale that is a whole number of positive steps, the stepper leads from a valid value to a
-- valid value.
pub step_value-IsValid :
    (c : ScaleSpec) (v : ℕ) (dir : Direction)
    → IsScale c
    → is_valid_value v c ≡ true
    → is_valid_value (step_value (some v) dir c) c ≡ true
step_value-IsValid c v dir scale h =
    let (q, le, e) = valid-IsPosition c scale v h in
    IsPosition-IsValid c scale (step_value (some v) dir c) (
      stepped q dir scale.count,
      stepped-le q dir scale.count,
      ap (λ x. step_value (some x) dir c) e ∙ step_position c scale q dir le,
    )

positions-IsPosition :
    (c : ScaleSpec) (scale : IsScale c) (count i : ℕ)
    → i + count ≤ scale.count + 1
    → All (λ v. is_valid_value v c ≡ true) (positions_from count i c.step_x100)
unfolding positions_from
positions-IsPosition c scale zero i h = tt
positions-IsPosition c scale (suc count) i h = (
  multiple-IsValid c scale i (omega arith),
  positions-IsPosition c scale count (i + 1) (omega arith),
)

length-positions : (count i step : ℕ) → length (positions_from count i step) ≡ count
unfolding positions_from
length-positions zero i step = refl
length-positions (suc count) i step = ap suc (length-positions count (i + 1) step)

count-positions : (c : ScaleSpec) (scale : IsScale c) → c.max_x100 / c.step_x100 ≡ scale.count
count-positions c scale = rw scale.whole (mul-div_cancel scale.count scale.positive)

get_elem?-positions :
    (count i step n : ℕ)
    → get_elem? (positions_from count i step) n
      ≡ (if ltb n count then some ((i + n) * step) else none)
unfolding positions_from
get_elem?-positions zero i step n = ground arith
get_elem?-positions (suc count) i step zero =
    let same : i ≡ i + 0 = omega arith in ground (arith, ap (λ j. j * step) same)
get_elem?-positions (suc count) i step (suc n) =
    let same : i + 1 + n ≡ i + suc n = omega arith in
    ground (arith, get_elem?-positions count (i + 1) step n, ap (λ j. j * step) same)

-- On a scale that is a whole number of positive steps, a segmented scale has at most eleven
-- buttons, one for each position; the button at index i stands for i steps, and every button is a
-- valid value.
pub scale_of_segmented :
    (c : ScaleSpec) (values : List ℕ) (i : ℕ)
    → IsScale c
    → scale_of c ≡ segmented values
    → (length values ≤ 11)
      × (length values ≡ c.max_x100 / c.step_x100 + 1)
      × All (λ v. is_valid_value v c ≡ true) values
      × (get_elem? values i ≡ (if ltb i (length values) then some (i * c.step_x100) else none))
unfolding scale_of
scale_of_segmented c values i scale h =
    let n = c.max_x100 / c.step_x100 + 1 in
    let few : n ≤ 11 = ground arith in
    let e : positions_from n 0 c.step_x100 ≡ values = ground arith in
    let size = length-positions n 0 c.step_x100 in
    rw (← e) (
      omega (arith, size),
      size,
      positions-IsPosition c scale n 0 (omega (arith, count-positions c scale)),
      let start : 0 + i ≡ i = omega arith in
          ground
            (arith, size, get_elem?-positions n 0 c.step_x100 i, ap (λ j. j * c.step_x100) start),
    )

-- A digit hotkey selects a position that the scale has.
pub resolve_digit-lt :
    (digit : ℕ) (prev : Option Digit) (now positions index : ℕ)
    → resolve_digit digit prev now positions ≡ some index
    → index < positions
unfolding resolve_digit
resolve_digit-lt digit prev now positions index h = ground arith
