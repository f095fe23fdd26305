-- ===== src/Screen/ScoreField/Laws.antt =====
-- What the field of web/src/features/judge/score-input.tsx stores.
use platform_for_sudies.Common.{
  ℕ, zero, suc, ◌*◌, ◌≤◌, min, pos, String, Bool, true, false, ◌||◌, Option, none, some, List, [],
  ◌∷◌, or_else, trim, ◌≡◌, refl, arith, if-elim, subst,
}
use platform_for_sudies.Format.RoundTrip.{parse_x100-format_x100, format_x100_nonblank}
use platform_for_sudies.Scoring.Scale.{ScaleSpec, is_valid_value, step_value, Direction, up, down}
use platform_for_sudies.Scoring.Scale.Laws.{IsScale, step_value-IsValid, multiple-IsValid}
use platform_for_sudies.Scoring.Draft.{DraftCommit, value, invalid, commit_draft, commit_draft_lem}
use platform_for_sudies.Screen.ScoreField.{
  Field, shown, entry_text, same_entry, Outcome, committed, commit, step, FieldEvent, typed, left,
  entered, visibility_changed, page_hidden, minus_clicked, plus_clicked, on_field, settle,
  after_events,
}

-- No score, or one that the scale has.
abbrev pub IsEntry : ScaleSpec → Option ℕ → Type 0
IsEntry c none = Unit
IsEntry c (some v) = is_valid_value v c ≡ true

commit_draft-IsEntry :
    (text : String) (c : ScaleSpec) (o : Option ℕ) → commit_draft text c ≡ value o → IsEntry c o
commit_draft-IsEntry text c none e = tt
commit_draft-IsEntry text c (some v) e = (commit_draft_lem text c v e).0

committed-IsEntry :
    (c : ScaleSpec) (text : String) (stored : Option ℕ) (d : DraftCommit)
    → ((o : Option ℕ) → d ≡ value o → IsEntry c o)
    → IsEntry c stored
    → IsEntry c (or_else (committed d text stored).changed stored)
committed-IsEntry c text stored invalid h s = s
committed-IsEntry c text stored (value o) h s =
    if-elim (λ x. IsEntry c (or_else x stored)) (same_entry o stored) none (some o) s (h o refl)

commit-IsEntry :
    (c : ScaleSpec) (f : Field)
    → IsEntry c f.stored
    → IsEntry c (or_else (commit c f).changed f.stored)
unfolding commit
commit-IsEntry c f s = go f.draft
  where
    go :
        (d : Option String)
        → IsEntry c (or_else (commit c (record { stored = f.stored; draft = d })).changed f.stored)
    go none = s
    go (some text) =
        committed-IsEntry c text f.stored (commit_draft text c) (commit_draft-IsEntry text c) s

first_step : (step max count : ℕ) → max ≡ count * step → min step max ≡ min 1 count * step
first_step step max zero e = ground (arith, e)
first_step step max (suc k) e = ground (arith, e)

no_steps : (step : ℕ) → 0 * step ≡ 0
no_steps step = omega arith

one-le : (count : ℕ) → min 1 count ≤ count
one-le count = omega arith

step_value-IsEntry :
    (c : ScaleSpec) (stored : Option ℕ) (dir : Direction)
    → IsScale c
    → IsEntry c stored
    → is_valid_value (step_value stored dir c) c ≡ true
unfolding step_value
step_value-IsEntry c none up scale s =
    rw (first_step c.step_x100 c.max_x100 scale.count scale.whole)
      (multiple-IsValid c scale (min 1 scale.count) (one-le scale.count))
step_value-IsEntry c none down scale s =
    subst (λ v. is_valid_value v c ≡ true) (no_steps c.step_x100)
      (multiple-IsValid c scale 0 (omega arith))
step_value-IsEntry c (some v) dir scale s = step_value-IsValid c v dir scale s

module _ (c : ScaleSpec) (disabled : Bool) (scale : IsScale c) where
  abbrev KeepsEntry : Field → Outcome → Type 0
  KeepsEntry f o = IsEntry c f.stored → IsEntry c (or_else o.changed f.stored)

  step-IsEntry : (dir : Direction) (f : Field) → KeepsEntry f (step c dir f)
  unfolding step
  step-IsEntry dir f s = step_value-IsEntry c f.stored dir scale s

  on_field-IsEntry : (e : FieldEvent) (f : Field) → KeepsEntry f (on_field c disabled e f)
  unfolding on_field
  on_field-IsEntry (typed text) f = if-elim (KeepsEntry f) disabled _ _ (λ s. s) (λ s. s)
  on_field-IsEntry left f = commit-IsEntry c f
  on_field-IsEntry entered f = commit-IsEntry c f
  on_field-IsEntry (visibility_changed hidden) f =
      if-elim (KeepsEntry f) hidden _ _ (commit-IsEntry c f) (λ s. s)
  on_field-IsEntry page_hidden f = commit-IsEntry c f
  on_field-IsEntry minus_clicked f =
      if-elim (KeepsEntry f) (disabled || same_entry f.stored (some 0)) _ _ (λ s. s)
        (step-IsEntry down f)
  on_field-IsEntry plus_clicked f =
      if-elim (KeepsEntry f) (disabled || same_entry f.stored (some c.max_x100)) _ _ (λ s. s)
        (step-IsEntry up f)

  -- Whatever is typed, clicked and left in the field of a numeric scale of whole steps, with
  -- each change stored, the field holds no score or a value of the scale, if it did at first.
  pub after_events-IsEntry :
      (events : List FieldEvent) (f : Field)
      → IsEntry c f.stored
      → IsEntry c (after_events c disabled events f).stored
  unfolding after_events settle
  after_events-IsEntry [] f s = s
  after_events-IsEntry (e ∷ es) f s =
      after_events-IsEntry es (settle f (on_field c disabled e f)) (on_field-IsEntry e f s)

same_entry_refl : (o : Option ℕ) → same_entry o o ≡ true
same_entry_refl none = refl
same_entry_refl (some n) = ground arith

-- The text that is shown for an entry stands for that entry.
commit_draft-entry_text :
    (c : ScaleSpec) (stored : Option ℕ)
    → IsEntry c stored
    → commit_draft (entry_text stored) c ≡ value stored
unfolding commit_draft trim
commit_draft-entry_text c none s = refl
commit_draft-entry_text c (some n) s =
    rw (format_x100_nonblank n, parse_x100-format_x100 (some (pos n)), s) refl

-- Typing what a numeric field shows for its entry, no score or a value of the scale, and
-- leaving the field changes nothing.
pub retyped_field :
    (c : ScaleSpec) (stored : Option ℕ)
    → IsEntry c stored
    → after_events c false
        (typed (shown (record { stored = stored; draft = none })) ∷ left ∷ [])
        (record { stored = stored; draft = none })
      ≡ record { stored = stored; draft = none }
unfolding after_events settle on_field commit shown
retyped_field c stored s = rw (commit_draft-entry_text c stored s, same_entry_refl stored) refl
