-- ===== src/Screen/ScoreField.antt =====
-- web/src/features/judge/score-input.tsx: the field in which a judge types or steps a score.
pub mod Laws
use platform_for_sudies.Common.{
  ℕ, ℤ, pos, String, Bool, true, false, not, ◌&&◌, ◌||◌, Option, none, some, List, [], ◌∷◌,
  if◌then◌else◌, ◌==◌, or_else,
}
use platform_for_sudies.Format.{format_x100}
use platform_for_sudies.Scoring.Scale.{ScaleSpec, is_valid_value, step_value, Direction, up, down}
use platform_for_sudies.Scoring.Draft.{DraftCommit, value, invalid, commit_draft}

-- `stored` is the `value` of the properties, which the parent keeps.
pub record Field : Type 0 where
  pub stored : Option ℕ
  pub draft : Option String

abbrev pub entry_text : Option ℕ → String
entry_text none = ""
entry_text (some n) = format_x100 (some (pos n))

unfoldable pub shown : Field → String
shown f = or_else f.draft (entry_text f.stored)

abbrev pub is_refused : DraftCommit → Bool
is_refused invalid = true
is_refused (value o) = false

unfoldable pub is_invalid : ScaleSpec → Field → Bool
is_invalid c f = elim f.draft [ none ↦ false | some text ↦ is_refused (commit_draft text c) ]

-- `a === b` on `number | null`.
abbrev pub same_entry : Option ℕ → Option ℕ → Bool
same_entry none none = true
same_entry (some a) (some b) = a == b
same_entry _ _ = false

-- The new draft, and the argument of `onChange` where it is called.
pub record Outcome : Type 0 where
  pub draft : Option String
  pub changed : Option (Option ℕ)

abbrev pub committed : DraftCommit → String → Option ℕ → Outcome
committed invalid text stored = record { draft = some text; changed = none }
committed (value o) text stored = record {
  draft = none;
  changed = if same_entry o stored then none else some o;
}

unfoldable pub commit : ScaleSpec → Field → Outcome
commit c f = elim f.draft [
  | none ↦ record { draft = none; changed = none }
  | some text ↦ committed (commit_draft text c) text f.stored
]

unfoldable pub step : ScaleSpec → Direction → Field → Outcome
step c dir f = record { draft = none; changed = some (some (step_value f.stored dir c)) }

pub data FieldEvent : Type 0 where
  typed : String → FieldEvent
  left entered : FieldEvent
  visibility_changed : Bool → FieldEvent
  page_hidden minus_clicked plus_clicked : FieldEvent

abbrev pub unchanged : Field → Outcome
unchanged f = record { draft = f.draft; changed = none }

-- A disabled field is not typed in, and a disabled button not clicked.
unfoldable pub on_field : ScaleSpec → Bool → FieldEvent → Field → Outcome
on_field c disabled (typed text) f =
    if disabled then unchanged f else record { draft = some text; changed = none }
on_field c disabled left f = commit c f
on_field c disabled entered f = commit c f
on_field c disabled (visibility_changed hidden) f = if hidden then commit c f else unchanged f
on_field c disabled page_hidden f = commit c f
on_field c disabled minus_clicked f =
    if disabled || same_entry f.stored (some 0) then unchanged f else step c down f
on_field c disabled plus_clicked f =
    if disabled || same_entry f.stored (some c.max_x100) then unchanged f else step c up f

-- A parent that stores each change and passes it back.
unfoldable pub settle : Field → Outcome → Field
settle f o = record { stored = or_else o.changed f.stored; draft = o.draft }

unfoldable pub after_events : ScaleSpec → Bool → List FieldEvent → Field → Field
after_events c disabled [] f = f
after_events c disabled (e ∷ es) f = after_events c disabled es (settle f (on_field c disabled e f))
