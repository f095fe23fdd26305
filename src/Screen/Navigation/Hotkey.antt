-- ===== src/Screen/Navigation/Hotkey.antt =====
-- The digit keys of web/src/features/judge/hotkeys.tsx on the desk of
-- web/src/features/judge/desk.tsx: which score they store.
use platform_for_sudies.Common.{
  ℕ, zero, suc, ◌*◌, ◌<◌, String, true, false, Option, none, some, List, [], ◌∷◌, length, get_elem?,
  if◌then◌else◌, All, ◌≡◌, refl, ◌∙◌, arith, Bool-cases, inl, inr, lt→ltb, subst,
}
use platform_for_sudies.Api.{Criterion, JudgeSession}
use platform_for_sudies.Scoring.Scale.{Scale, segmented, numeric, scale_of, is_valid_value, Digit}
use platform_for_sudies.Scoring.Scale.Laws.{IsScale, scale_of_segmented}
use platform_for_sudies.Screen.Hotkeys.{
  KeyEvent, Effect, no_effect, on_submit, on_item, on_line, on_position, on_key, on_key-lt,
}
use platform_for_sudies.Screen.Navigation.{
  Place, Overlays, ScoreCall, line_criterion, current_line, spec_of, active_scale, positions_of,
  is_read_only, hotkey_actions, press, set_value, scale_call, on_scale_position,
}

All-get_elem? {ℓ κ} :
    {A : Type ℓ} (P : A → Type κ) (xs : List A) (i : ℕ) (x : A)
    → All P xs
    → get_elem? xs i ≡ some x
    → P x
All-get_elem? P [] i x h e = absurd (ground arith)
All-get_elem? P (y ∷ ys) zero x (p, h) e = let same : y ≡ x = ground arith in subst P same p
All-get_elem? P (y ∷ ys) (suc i) x (p, h) e = All-get_elem? P ys i x h e

-- A position of a segmented scale, looked up below its length.
segment_value :
    (c : Criterion) (values : List ℕ) (index : ℕ)
    → IsScale (spec_of c)
    → scale_of (spec_of c) ≡ segmented values
    → index < length values
    → (v : ℕ) × (get_elem? values index ≡ some v) × (is_valid_value v (spec_of c) ≡ true)
segment_value c values index scale e h =
    let (few, size, valid, at) = scale_of_segmented (spec_of c) values index scale e in
    let here : get_elem? values index ≡ some (index * c.step_x100) =
      rw (at, lt→ltb index (length values) h) refl in
    (
      index * c.step_x100,
      here,
      All-get_elem? (λ v. is_valid_value v (spec_of c) ≡ true) values index _ valid here,
    )

-- A score that a hotkey may store: of the criterion of the line, and on its scale.
pub record IsProper (s : JudgeSession) (c : Criterion) (call : ScoreCall) : Type 0 where
  pub editable : is_read_only s ≡ false
  pub stored : ℕ
  pub value : call.value ≡ some stored
  pub valid : is_valid_value stored (spec_of c) ≡ true

set_value-value :
    (s : JudgeSession) (p : Place) (line : String) (value : Option ℕ) (call : ScoreCall)
    → set_value s p line value ≡ some call
    → call.value ≡ value
unfolding set_value
set_value-value s p line value call e = ground arith

scale_call-IsProper :
    (s : JudgeSession) (p : Place) (c : Criterion) (index : ℕ) (call : ScoreCall) (scale : Scale)
    (line : Option String)
    → IsScale (spec_of c)
    → scale_of (spec_of c) ≡ scale
    → index < (if is_read_only s then 0 else positions_of (some scale))
    → scale_call s p index (some scale) line ≡ some call
    → IsProper s c call
unfolding scale_call
scale_call-IsProper s p c index call numeric line spec same h e = absurd (ground arith)
scale_call-IsProper s p c index call (segmented values) none spec same h e = absurd (ground arith)
scale_call-IsProper s p c index call (segmented values) (some line) spec same h e =
    elim (Bool-cases (is_read_only s)) [
      | inl closed ↦ absurd (ground arith)
      | inr open_still ↦
          let (v, here, valid) = segment_value c values index spec same (ground arith) in
          record {
            editable = open_still;
            stored = v;
            value = set_value-value s p line (get_elem? values index) call e ∙ here;
            valid = valid;
          }
    ]

-- For a line whose scale is a whole number of steps, a score that a key stores is stored while
-- the sheet may be edited, and is a value of that scale; no key clears a score.
pub pressed_key-IsProper :
    (s : JudgeSession) (p : Place) (o : Overlays) (e : KeyEvent) (last : Option Digit)
    (c : Criterion) (call : ScoreCall)
    → line_criterion s p ≡ some c
    → IsScale (spec_of c)
    → (press s p o (on_key (hotkey_actions s p o) e last).effect).call ≡ some call
    → IsProper s c call
unfolding press hotkey_actions on_scale_position
pressed_key-IsProper s p o e last c call at scale h =
    pressed (on_key (hotkey_actions s p o) e last).effect (on_key-lt (hotkey_actions s p o) e last)
      h
  where
    pressed :
        (effect : Effect)
        → ((index : ℕ)
            → effect ≡ on_position index
            → index < (if is_read_only s then 0 else positions_of (active_scale s p)))
        → (press s p o effect).call ≡ some call
        → IsProper s c call
    pressed no_effect lt k = absurd (ground arith)
    pressed on_submit lt k = absurd (ground arith)
    pressed (on_item delta) lt k = absurd (ground arith)
    pressed (on_line delta) lt k = absurd (ground arith)
    pressed (on_position index) lt k =
        let here : active_scale s p ≡ some (scale_of (spec_of c)) = rw at refl in
        scale_call-IsProper s p c index call (scale_of (spec_of c)) (current_line s p) scale refl
          (rw here at lt index refl) (rw here at k)
