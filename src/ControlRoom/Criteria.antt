-- ===== src/ControlRoom/Criteria.antt =====
-- The dialog for a criterion in web/src/features/control-room/setup.tsx.
use platform_for_sudies.Common.{
  ℕ, ◌/◌, ◌%◌, ◌<◌, ◌≤◌, pos, String, true, false, not, ◌&&◌, Option, none, some, or_else, trim,
  is_empty, if◌then◌else◌, ltb, leb, ◌==◌, ◌≡◌, sym, subst, arith,
}
use platform_for_sudies.Api.{Criterion}
use platform_for_sudies.Format.{format_x100, decimal}
use platform_for_sudies.Format.RoundTrip.{parse_x100-format_x100}
use platform_for_sudies.Scoring.Draft.{parse_x100}
use platform_for_sudies.Scoring.Scale.{ScaleSpec, is_valid_value}
use platform_for_sudies.Scoring.Scale.Laws.{IsScale, valid-multiple, multiple-IsValid}

-- The texts of the form.
pub record CriterionForm : Type 0 where
  pub name : String
  pub description : String
  pub max : String
  pub step : String
  pub weight : String
  pub track_id : Option String

unfoldable pub open_form : Option Criterion → CriterionForm
open_form none = record {
  name = "";
  description = "";
  max = "10";
  step = "1";
  weight = "1";
  track_id = none;
}
open_form (some c) = record {
  name = c.name;
  description = or_else c.description "";
  max = format_x100 (some (pos c.max_x100));
  step = format_x100 (some (pos c.step_x100));
  weight = decimal c.weight "";
  track_id = c.track_id;
}

pub record CriterionBody : Type 0 where
  pub name : String
  pub description : Option String
  pub max_x100 : ℕ
  pub step_x100 : ℕ
  pub weight : ℕ
  pub track_id : Option String

-- `text.trim() || null`
abbrev pub text_or_null : String → Option String
text_or_null s = if is_empty (trim s) then none else some (trim s)

abbrev pub checked : CriterionForm → Option ℕ → Option ℕ → Option ℕ → Option CriterionBody
checked f (some max) (some step) (some weight) =
    if not (is_empty (trim f.name))
      && ltb 0 max
      && ltb 0 step
      && max % step == 0
      && leb 1 weight
      && leb weight 1000
    then some (record {
      name = trim f.name;
      description = text_or_null f.description;
      max_x100 = max;
      step_x100 = step;
      weight = weight;
      track_id = f.track_id;
    })
    else none
checked f _ _ _ = none

-- What a submit sends; nothing where the form is not valid. `number` is `Number`: the number of a text
-- where it is an integer that is not negative.
unfoldable pub submit : (String → Option ℕ) → CriterionForm → Option CriterionBody
submit number f = checked f (parse_x100 f.max) (parse_x100 f.step) (number f.weight)

abbrev pub body_scale : CriterionBody → ScaleSpec
body_scale b = record { max_x100 = b.max_x100; step_x100 = b.step_x100 }

checked-IsScale :
    (f : CriterionForm) (max step weight : Option ℕ) (b : CriterionBody)
    → checked f max step weight ≡ some b
    → (0 < b.step_x100)
      × (b.max_x100 % b.step_x100 ≡ 0)
      × (0 < b.max_x100)
      × (0 < b.weight)
      × (b.weight ≤ 1000)
checked-IsScale f none step weight b e = absurd (ground arith)
checked-IsScale f (some max) none weight b e = absurd (ground arith)
checked-IsScale f (some max) (some step) none b e = absurd (ground arith)
checked-IsScale f (some max) (some step) (some weight) b e =
    (ground arith, ground arith, ground arith, ground arith, ground arith)

-- A criterion that the dialog sends has a scale of whole positive steps, a positive maximum,
-- and a weight from 1 to 1000.
pub submit-IsScale :
    (number : String → Option ℕ) (f : CriterionForm) (b : CriterionBody)
    → submit number f ≡ some b
    → IsScale (body_scale b) × (0 < b.max_x100) × (0 < b.weight) × (b.weight ≤ 1000)
unfolding submit is_valid_value
submit-IsScale number f b e =
    let (step, whole, max, weight, bounded) =
      checked-IsScale f (parse_x100 f.max) (parse_x100 f.step) (number f.weight) b e in
    let valid : is_valid_value b.max_x100 (body_scale b) ≡ true = ground arith in
    (
      record {
        positive = step;
        count = b.max_x100 / b.step_x100;
        whole = (valid-multiple (body_scale b) b.max_x100 valid).0;
      },
      max,
      weight,
      bounded,
    )

-- The body that stands for a criterion as it is.
abbrev pub own_body : Criterion → CriterionBody
own_body c = record {
  name = trim c.name;
  description = text_or_null (or_else c.description "");
  max_x100 = c.max_x100;
  step_x100 = c.step_x100;
  weight = c.weight;
  track_id = c.track_id;
}

whole_max : (c : ScaleSpec) → IsScale c → is_valid_value c.max_x100 c ≡ true
whole_max c scale =
    subst (λ v. is_valid_value v c ≡ true) (sym scale.whole)
      (multiple-IsValid c scale scale.count (omega arith))

-- If Number reads a printed whole number as that number, the dialog that is opened on a
-- criterion with a name, a weight from 1 to 1000 and a positive maximum of whole steps, and
-- submitted as it is, sends the criterion's own numbers, its name and description trimmed.
pub submit-open_form :
    (number : String → Option ℕ) (c : Criterion)
    → ((n : ℕ) → number (decimal n "") ≡ some n)
    → IsScale (record { max_x100 = c.max_x100; step_x100 = c.step_x100 })
    → is_empty (trim c.name) ≡ false
    → 0 < c.max_x100
    → 0 < c.weight
    → c.weight ≤ 1000
    → submit number (open_form (some c)) ≡ some (own_body c)
unfolding submit open_form is_valid_value
submit-open_form number c printed scale named max weight bounded =
    let valid = whole_max (record { max_x100 = c.max_x100; step_x100 = c.step_x100 }) scale in
    let step = scale.positive in
    rw
      (
        parse_x100-format_x100 (some (pos c.max_x100)),
        parse_x100-format_x100 (some (pos c.step_x100)),
        printed c.weight,
        named,
      )
      (ground arith)
