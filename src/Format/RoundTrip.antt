-- ===== src/Format/RoundTrip.antt =====
-- Printing hundredths (web/src/lib/format.ts) and reading them back.
use Prim.Native.Char.{code, char}
use platform_for_sudies.Common.{
  sym, ℕ, zero, suc, ◌+◌, ◌*◌, ◌/◌, ◌%◌, ◌<◌, ◌≤◌, ℤ, pos, negsuc, String, Bool, true, false,
  Option, none, some, ◌≡◌, refl, ap, ◌∙◌, ltb, ◌==◌, is_space, trim, IsTight, trim-IsTight,
  is_empty, if-elim, arith, Bool-cases, inl, inr,
}
use platform_for_sudies.Format.{digit, digits, decimal, fraction, hundredths_text, format_x100}
use platform_for_sudies.Scoring.Draft.{replace_comma, hundredths, parse_x100}

code-digit : (d : ℕ) → d < 10 → code (digit d) ≡ 48 + d
unfolding digit
code-digit zero h = refl
code-digit (suc zero) h = refl
code-digit (suc (suc zero)) h = refl
code-digit (suc (suc (suc zero))) h = refl
code-digit (suc (suc (suc (suc zero)))) h = refl
code-digit (suc (suc (suc (suc (suc zero))))) h = refl
code-digit (suc (suc (suc (suc (suc (suc zero)))))) h = refl
code-digit (suc (suc (suc (suc (suc (suc (suc zero))))))) h = refl
code-digit (suc (suc (suc (suc (suc (suc (suc (suc zero)))))))) h = refl
code-digit (suc (suc (suc (suc (suc (suc (suc (suc (suc zero))))))))) h = refl
code-digit (suc (suc (suc (suc (suc (suc (suc (suc (suc (suc d)))))))))) h = absurd (omega arith)

digit-IsTight : (d : ℕ) → d < 10 → is_space (code (digit d)) ≡ false
unfolding is_space
digit-IsTight d h = ground (arith, code-digit d h)

digits-IsTight :
    (fuel n : ℕ) (rest : String) → n ≤ fuel → IsTight rest → IsTight (digits fuel n rest)
unfolding digits
digits-IsTight zero n rest fits t = (digit-IsTight n (omega arith), t)
digits-IsTight (suc fuel) n rest fits t = elim (Bool-cases (ltb n 10)) [
  | inl small ↦ rw small (digit-IsTight n (ground arith), t)
  | inr big ↦
      rw big
        (digits-IsTight fuel (n / 10) _ (ground arith) (digit-IsTight (n % 10) (omega arith), t))
]

-- Reading the digits of `n` is having read `n`.
hundredths-digits :
    (fuel n : ℕ) (seen : Bool) (rest : String)
    → n ≤ fuel
    → hundredths seen 0 (digits fuel n rest) ≡ hundredths true n rest
unfolding digits hundredths
hundredths-digits zero n seen rest fits = ground (arith, code-digit n (omega arith))
hundredths-digits (suc fuel) n seen rest fits = elim (Bool-cases (ltb n 10)) [
  | inl small ↦ rw small (ground (arith, code-digit n (ground arith)))
  | inr big ↦
      rw
        (
          big,
          hundredths-digits fuel (n / 10) seen (String.◌∷◌ (digit (n % 10)) rest) (ground arith),
        )
        (ground (arith, code-digit (n % 10) (omega arith)))
]

replace_comma-digit :
    (d : ℕ) (rest : String)
    → d < 10
    → replace_comma (String.◌∷◌ (digit d) rest) ≡ String.◌∷◌ (digit d) (replace_comma rest)
unfolding replace_comma
replace_comma-digit d rest h = ground (arith, code-digit d h)

replace_comma-digits :
    (fuel n : ℕ) (rest : String)
    → n ≤ fuel
    → replace_comma (digits fuel n rest) ≡ digits fuel n (replace_comma rest)
unfolding digits
replace_comma-digits zero n rest fits = replace_comma-digit n rest (omega arith)
replace_comma-digits (suc fuel) n rest fits = elim (Bool-cases (ltb n 10)) [
  | inl small ↦ rw (small, digits) (replace_comma-digit n rest (ground arith))
  | inr big ↦
      rw
        (
          big,
          digits,
          replace_comma-digits fuel (n / 10) (String.◌∷◌ (digit (n % 10)) rest) (ground arith),
          replace_comma-digit (n % 10) rest (omega arith),
        )
        refl
]

-- Reading what stands before a comma, which becomes a point.
read_digits :
    (n : ℕ) (rest : String)
    → hundredths false 0 (replace_comma (digits n n rest)) ≡ hundredths true n (replace_comma rest)
read_digits n rest =
    replace_under n rest ∙ hundredths-digits n n false (replace_comma rest) (omega arith)
  where
    replace_under :
        (n : ℕ) (rest : String)
        → hundredths false 0 (replace_comma (digits n n rest))
          ≡ hundredths false 0 (digits n n (replace_comma rest))
    replace_under n rest = ap (hundredths false 0) (replace_comma-digits n n rest (omega arith))

fraction-IsTight : (frac : ℕ) → frac < 100 → IsTight (fraction frac)
unfolding fraction
fraction-IsTight frac h = elim (Bool-cases (frac % 10 == 0)) [
  | inl whole ↦ rw whole (digit-IsTight (frac / 10) (omega arith), tt)
  | inr rest ↦
      rw rest
        (digit-IsTight (frac / 10) (omega arith), (digit-IsTight (frac % 10) (omega arith), tt))
]

hundredths_text-IsTight : (n : ℕ) → IsTight (hundredths_text n)
unfolding hundredths_text decimal is_space
hundredths_text-IsTight n = elim (Bool-cases (n % 100 == 0)) [
  | inl whole ↦ rw whole (digits-IsTight (n / 100) (n / 100) "" (omega arith) tt)
  | inr rest ↦ rw rest (
      digits-IsTight (n / 100) (n / 100) _ (omega arith)
        (refl, fraction-IsTight (n % 100) (omega arith)))
]

-- The decimals that are printed after the point stand for the number they were printed from.
hundredths-fraction :
    (whole frac : ℕ)
    → 0 < frac
    → frac < 100
    → hundredths true whole (String.◌∷◌ (char b'.' tt) (fraction frac)) ≡ some (whole * 100 + frac)
unfolding hundredths fraction
hundredths-fraction whole frac h k = elim (Bool-cases (frac % 10 == 0)) [
  | inl one ↦ rw one (ground (arith, code-digit (frac / 10) (omega arith)))
  | inr two ↦
      rw two
        (ground (arith, code-digit (frac / 10) (omega arith), code-digit (frac % 10) (omega arith)))
]

read_whole : (whole : ℕ) → hundredths true whole (replace_comma "") ≡ some (whole * 100)
unfolding hundredths replace_comma
read_whole whole = refl

read_decimals :
    (whole frac : ℕ)
    → 0 < frac
    → frac < 100
    → hundredths true whole (replace_comma (String.◌∷◌ (char b',' tt) (fraction frac)))
      ≡ some (whole * 100 + frac)
unfolding replace_comma
read_decimals whole frac h k = hundredths-fraction whole frac h k

read_text : (n : ℕ) → hundredths false 0 (replace_comma (hundredths_text n)) ≡ some n
unfolding hundredths_text decimal
read_text n = elim (Bool-cases (n % 100 == 0)) [
  | inl whole ↦ rw (whole, read_digits (n / 100) "") (read_whole (n / 100) ∙ ap some (ground arith))
  | inr rest ↦
      rw
        (
          rest,
          read_digits (n / 100) (String.◌∷◌ (char b',' tt) (fraction (n % 100))),
          read_decimals (n / 100) (n % 100) (ground arith) (omega arith),
        )
        (ap some (omega arith))
]

-- The values that a scale can have.
abbrev pub natural : Option ℤ → Option ℕ
natural none = none
natural (some (pos n)) = some n
natural (some (negsuc n)) = none

read_sign : (s : String) → hundredths false 0 (replace_comma (String.◌∷◌ (char b'-' tt) s)) ≡ none
unfolding hundredths replace_comma
read_sign s = refl

sign-IsTight : (s : String) → IsTight s → IsTight (String.◌∷◌ (char b'-' tt) s)
unfolding is_space
sign-IsTight s t = (refl, t)

read_dash : parse_x100 "—" ≡ none
unfolding parse_x100 replace_comma hundredths trim
read_dash = refl

digits_nonempty : (fuel n : ℕ) (rest : String) → is_empty (digits fuel n rest) ≡ false
unfolding digits
digits_nonempty zero n rest = refl
digits_nonempty (suc fuel) n rest =
    if-elim (λ s. is_empty s ≡ false) (ltb n 10) _ _ refl (digits_nonempty fuel (n / 10) _)

text_nonempty : (n : ℕ) → is_empty (hundredths_text n) ≡ false
unfolding hundredths_text decimal
text_nonempty n =
    if-elim (λ s. is_empty s ≡ false) (n % 100 == 0) _ _ (digits_nonempty (n / 100) (n / 100) "")
      (digits_nonempty (n / 100) (n / 100) _)

-- What is printed for a number is not blank.
pub format_x100_nonblank : (n : ℕ) → is_empty (trim (format_x100 (some (pos n)))) ≡ false
unfolding format_x100
format_x100_nonblank n =
    rw (trim-IsTight (hundredths_text n) (hundredths_text-IsTight n)) (text_nonempty n)

-- A printed number of hundredths is read back as that number; the dash of a missing number and
-- a negative number are read as no number.
pub parse_x100-format_x100 : (value : Option ℤ) → parse_x100 (format_x100 value) ≡ natural value
unfolding parse_x100 format_x100
parse_x100-format_x100 none = read_dash
parse_x100-format_x100 (some (pos n)) =
    rw (trim-IsTight (hundredths_text n) (hundredths_text-IsTight n)) (read_text n)
parse_x100-format_x100 (some (negsuc n)) =
    let t = hundredths_text-IsTight (suc n) in
    rw (trim-IsTight (String.◌∷◌ (char b'-' tt) (hundredths_text (suc n))) (sign-IsTight _ t))
      (read_sign (hundredths_text (suc n)))

hundreds_text : (n : ℕ) → hundredths_text (n * 100) ≡ decimal n ""
unfolding hundredths_text
hundreds_text n =
    let none_left : n * 100 % 100 ≡ 0 = omega arith in
    let whole : n * 100 / 100 ≡ n = omega arith in rw (none_left, whole) refl

-- The text of a whole number is read as that number of hundreds.
pub parse_x100-decimal : (n : ℕ) → parse_x100 (decimal n "") ≡ some (n * 100)
unfolding format_x100
parse_x100-decimal n =
    ap parse_x100 (sym (hundreds_text n)) ∙ parse_x100-format_x100 (some (pos (n * 100)))
