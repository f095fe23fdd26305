-- ===== src/Scoring/Draft.antt =====
-- Typed scores: `parseX100` of web/src/lib/format.ts and `commitDraft` of
-- web/src/features/judge/scoring.ts.
use Prim.Native.Char.{code, char}
use platform_for_sudies.Common.{
  ℕ, ◌+◌, ◌-◌, ◌*◌, String, Bool, true, false, ◌&&◌, Option, none, some, ◌≡◌, if◌then◌else◌, leb,
  ◌==◌, and_then, is_empty, trim, arith, Option-cases, inl, inr,
}
use platform_for_sudies.Scoring.Scale.{ScaleSpec, is_valid_value}

abbrev is_digit : ℕ → Bool
is_digit c = leb 48 c && leb c 57

-- `s.replace(',', '.')`, which replaces the first comma.
unfoldable pub replace_comma : String → String
replace_comma String.[] = ""
replace_comma (String.◌∷◌ c s) =
    let rest = replace_comma s in
    if code c == 44 then String.◌∷◌ (char b'.' tt) s else String.◌∷◌ c rest

-- One or two decimals, in hundredths.
abbrev decimals : String → Option ℕ
decimals String.[] = none
decimals (String.◌∷◌ c String.[]) = if is_digit (code c) then some ((code c - 48) * 10) else none
decimals (String.◌∷◌ c (String.◌∷◌ d String.[])) =
    if is_digit (code c) && is_digit (code d)
    then some ((code c - 48) * 10 + (code d - 48))
    else none
decimals (String.◌∷◌ c (String.◌∷◌ d (String.◌∷◌ e s))) = none

-- The text against `^\d+(\.\d{1,2})?$`, with the number read so far and whether a digit was read.
unfoldable pub hundredths : Bool → ℕ → String → Option ℕ
hundredths seen n String.[] = if seen then some (n * 100) else none
hundredths seen n (String.◌∷◌ c s) =
    let more = hundredths true (n * 10 + (code c - 48)) s in
    if is_digit (code c)
    then more
    else if seen && code c == 46
    then and_then (decimals s) (λ f. some (n * 100 + f))
    else none

unfoldable pub parse_x100 : String → Option ℕ
unfolding replace_comma hundredths
parse_x100 input = hundredths false 0 (replace_comma (trim input))

pub data DraftCommit : Type 0 where
  value : Option ℕ → DraftCommit
  invalid : DraftCommit

abbrev commit_parsed : Option ℕ → ScaleSpec → DraftCommit
commit_parsed none c = invalid
commit_parsed (some v) c = if is_valid_value v c then value (some v) else invalid

unfoldable pub commit_draft : String → ScaleSpec → DraftCommit
unfolding parse_x100
commit_draft text c = if is_empty (trim text) then value none else commit_parsed (parse_x100 text) c

commit_parsed-IsValid :
    (o : Option ℕ) (c : ScaleSpec) (v : ℕ)
    → commit_parsed o c ≡ value (some v)
    → is_valid_value v c ≡ true
commit_parsed-IsValid none c v e = absurd (ground arith)
commit_parsed-IsValid (some w) c v e = ground arith

-- A typed draft stores only a value that the scale has, and only the number that the text stands
-- for.
pub commit_draft_lem :
    (text : String) (c : ScaleSpec) (v : ℕ)
    → commit_draft text c ≡ value (some v)
    → (is_valid_value v c ≡ true) × (parse_x100 text ≡ some v)
unfolding commit_draft
commit_draft_lem text c v e = elim (Option-cases (parse_x100 text)) [
  | inl bad ↦ absurd (ground arith)
  | inr (w, p) ↦ (ground arith, ground arith)
]
