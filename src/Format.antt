-- ===== src/Format.antt =====
-- web/src/lib/format.ts: how hundredths are printed. (`parseX100` is with the typed drafts.)
pub mod RoundTrip
use Prim.Native.Char.{Char, code, char}
use platform_for_sudies.Common.{
  ℕ, zero, suc, ◌+◌, ◌-◌, ◌/◌, ◌%◌, ℤ, pos, negsuc, String, Option, none, some, List, [], ◌∷◌,
  if◌then◌else◌, ltb, ◌==◌, ◌≡◌, refl,
}
use Prim.Native.String

-- One decimal digit; the remainder of a division by ten is never larger than nine.
unfoldable pub digit : ℕ → Char
digit d =
    if d == 0
    then char b'0' tt
    else if d == 1
    then char b'1' tt
    else if d == 2
    then char b'2' tt
    else if d == 3
    then char b'3' tt
    else if d == 4
    then char b'4' tt
    else if d == 5
    then char b'5' tt
    else if d == 6
    then char b'6' tt
    else if d == 7
    then char b'7' tt
    else if d == 8
    then char b'8' tt
    else char b'9' tt

-- The digits of `n` in front of `rest`, with one unit of fuel for each digit but the first.
unfoldable pub digits : ℕ → ℕ → String → String
digits zero n rest = String.◌∷◌ (digit n) rest
digits (suc fuel) n rest =
    let longer = digits fuel (n / 10) (String.◌∷◌ (digit (n % 10)) rest) in
    if ltb n 10 then String.◌∷◌ (digit n) rest else longer

-- `${n}`: a number has at most one digit more than its value, and the last needs no fuel.
unfoldable pub decimal : ℕ → String → String
decimal n rest = digits n n rest

-- `String(frac).padStart(2, '0').replace(/0$/, '')`, for `0 < frac < 100`.
unfoldable pub fraction : ℕ → String
fraction frac =
    if frac % 10 == 0
    then String.◌∷◌ (digit (frac / 10)) ""
    else String.◌∷◌ (digit (frac / 10)) (String.◌∷◌ (digit (frac % 10)) "")

-- The text of the absolute value, after the sign.
unfoldable pub hundredths_text : ℕ → String
hundredths_text abs =
    let whole = abs / 100 in
    let frac = abs % 100 in
    if frac == 0
    then decimal whole ""
    else decimal whole (String.◌∷◌ (char b',' tt) (fraction frac))

unfoldable pub format_x100 : Option ℤ → String
format_x100 none = "—"
format_x100 (some (pos n)) = hundredths_text n
format_x100 (some (negsuc n)) = String.◌∷◌ (char b'-' tt) (hundredths_text (suc n))

seven_and_a_half : format_x100 (some (pos 750)) ≡ "7,5"
unfolding format_x100 hundredths_text decimal digits digit fraction
seven_and_a_half = refl

below_one : format_x100 (some (negsuc 4)) ≡ "-0,05"
unfolding format_x100 hundredths_text decimal digits digit fraction
below_one = refl
