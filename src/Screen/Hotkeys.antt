-- ===== src/Screen/Hotkeys.antt =====
-- web/src/features/judge/hotkeys.tsx: what a key of the judge's desk does.
use Prim.Native.Char.{code}
use platform_for_sudies.Common.{
  ℕ, ◌-◌, ◌<◌, String, Bool, true, false, not, ◌&&◌, ◌||◌, Option, none, some, if◌then◌else◌, ltb,
  leb, str_eq, ◌≡◌, arith, inl, inr, Bool-cases,
}
use platform_for_sudies.Scoring.Scale.{Digit, resolve_digit}
use platform_for_sudies.Scoring.Scale.Laws.{resolve_digit-lt}

-- `HotkeyActions` without the callbacks, which are the constructors of `Effect`.
pub record HotkeyActions : Type 0 where
  pub enabled : Bool
  pub positions : ℕ

-- `typing` is `isTyping(e.target)`, and `now` is `Date.now()` at the key.
pub record KeyEvent : Type 0 where
  pub key : String
  pub ctrl_key : Bool
  pub meta_key : Bool
  pub alt_key : Bool
  pub default_prevented : Bool
  pub typing : Bool
  pub now : ℕ

-- The `delta` of `onItem` and `onLine`: one back or one on.
pub data Delta : Type 0 where
  previous next : Delta

pub data Effect : Type 0 where
  no_effect on_submit : Effect
  on_item on_line : Delta → Effect
  on_position : ℕ → Effect

-- `/^[0-9]$/.test(key)`, with the number of the digit.
abbrev pub digit_key : String → Option ℕ
digit_key String.[] = none
digit_key (String.◌∷◌ c String.[]) =
    if leb 48 (code c) && leb (code c) 57 then some (code c - 48) else none
digit_key (String.◌∷◌ c (String.◌∷◌ d s)) = none

-- What the handler leaves in `lastDigit`, what it calls, and whether it prevents the default.
pub record KeyResult : Type 0 where
  pub last_digit : Option Digit
  pub effect : Effect
  pub prevented : Bool

abbrev on_index : Option ℕ → Effect
on_index none = no_effect
on_index (some index) = on_position index

abbrev on_digit : Option ℕ → ℕ → Option Digit → ℕ → KeyResult
on_digit none positions last now = record {
  last_digit = last;
  effect = no_effect;
  prevented = false;
}
on_digit (some digit) positions last now =
    if ltb 0 positions
    then record {
      last_digit = some (record { digit = digit; at = now });
      effect = on_index (resolve_digit digit last now positions);
      prevented = false;
    }
    else record { last_digit = last; effect = no_effect; prevented = false }

unfoldable pub on_key : HotkeyActions → KeyEvent → Option Digit → KeyResult
on_key a e last =
    let ignored : KeyResult = record { last_digit = last; effect = no_effect; prevented = false } in
    if not a.enabled || e.default_prevented || e.typing
    then ignored
    else if str_eq e.key "Enter" && (e.ctrl_key || e.meta_key)
    then record { last_digit = last; effect = on_submit; prevented = true }
    else if e.ctrl_key || e.meta_key || e.alt_key
    then ignored
    else if str_eq e.key "ArrowLeft" || str_eq e.key "ArrowRight"
    then record {
      last_digit = last;
      effect = on_item (if str_eq e.key "ArrowLeft" then previous else next);
      prevented = true;
    }
    else if str_eq e.key "ArrowUp" || str_eq e.key "ArrowDown"
    then record {
      last_digit = last;
      effect = on_line (if str_eq e.key "ArrowUp" then previous else next);
      prevented = true;
    }
    else on_digit (digit_key e.key) a.positions last e.now

on_index-lt :
    (o : Option ℕ) (index positions : ℕ)
    → ((i : ℕ) → o ≡ some i → i < positions)
    → on_index o ≡ on_position index
    → index < positions
on_index-lt none index positions h e = absurd (ground arith)
on_index-lt (some i) index positions h e = ground (arith, h i)

on_digit-lt :
    (o : Option ℕ) (positions : ℕ) (last : Option Digit) (now index : ℕ)
    → (on_digit o positions last now).effect ≡ on_position index
    → index < positions
on_digit-lt none positions last now index e = absurd (ground arith)
on_digit-lt (some digit) positions last now index e = elim (Bool-cases (ltb 0 positions)) [
  | inl some_positions ↦
      on_index-lt (resolve_digit digit last now positions) index positions
        (λ i. resolve_digit-lt digit last now positions i) (ground arith)
  | inr no_positions ↦ absurd (ground arith)
]

pub on_key-lt :
    (a : HotkeyActions) (e : KeyEvent) (last : Option Digit) (index : ℕ)
    → (on_key a e last).effect ≡ on_position index
    → index < a.positions
unfolding on_key
on_key-lt a e last index h =
    ground (arith, on_digit-lt (digit_key e.key) a.positions last e.now index)
