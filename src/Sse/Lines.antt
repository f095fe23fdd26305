-- ===== src/Sse/Lines.antt =====
-- The lines that web/src/api/sse.ts cuts off its buffer, when more text comes after it.
use Prim.Native.Char.{code}
use Prim.Native.String
use text.Mathlib.TextLemmas.{nil-append, cons-append}
use mathlib.Core.List.{append_assoc}
use platform_for_sudies.Common.{
  ℕ, zero, suc, ◌+◌, ◌≤◌, String, Bool, true, false, Option, none, some, List, [], ◌++◌, ◌≡◌, refl,
  sym, ap, ◌∙◌, subst, if◌then◌else◌, ◌==◌, is_nil, arith, Option-cases, Bool-cases, inl, inr,
}
use platform_for_sudies.Sse.{
  Parser, cut, after_return, longer, end_message, set_field, read_line, read_found, read_lines,
  size, size-cut, read_line-buffer, cut-short, ParsedSseMessage,
}

pub size-append : (s t : String) → size (String.◌++◌ s t) ≡ size s + size t
size-append String.[] t = ap size (nil-append t) ∙ omega arith
size-append (String.◌∷◌ c s) t = ap size (cons-append c s t) ∙ ground (arith, size-append s t)

abbrev pub followed_by : Option (String × String) → String → Option (String × String)
followed_by none t = none
followed_by (some (line, rest)) t = some (line, String.◌++◌ rest t)

pub after_return-append :
    (s t : String) (found : String × String)
    → after_return s ≡ some found
    → after_return (String.◌++◌ s t) ≡ followed_by (some found) t
after_return-append String.[] t found e = absurd (ground arith)
after_return-append (String.◌∷◌ d s) t found e =
    ap after_return (cons-append d s t) ∙ elim (Bool-cases (code d == 10)) [
      | inl feed ↦
          let same : ("", s) ≡ found = ground arith in
          subst (λ f. after_return (String.◌∷◌ d (String.◌++◌ s t)) ≡ followed_by (some f) t) same
            (rw feed refl)
      | inr other ↦
          let same : ("", String.◌∷◌ d s) ≡ found = ground arith in
          subst (λ f. after_return (String.◌∷◌ d (String.◌++◌ s t)) ≡ followed_by (some f) t) same
            (rw (other, cons-append d s t) refl)
    ]

-- A line that is complete stays the first one, whatever comes after.
pub cut-append :
    (s t : String) (found : String × String)
    → cut s ≡ some found
    → cut (String.◌++◌ s t) ≡ followed_by (some found) t
unfolding cut
cut-append String.[] t found e = absurd (ground arith)
cut-append (String.◌∷◌ c s) t found e =
    ap cut (cons-append c s t) ∙ elim (Bool-cases (code c == 10)) [
      | inl feed ↦
          let same : ("", s) ≡ found = ground arith in
          subst (λ f. cut (String.◌∷◌ c (String.◌++◌ s t)) ≡ followed_by (some f) t) same
            (rw feed refl)
      | inr other ↦ elim (Bool-cases (code c == 13)) [
        | inl return ↦ ground (arith, after_return-append s t found)
        | inr letter ↦ elim (Option-cases (cut s)) [
          | inl unfinished ↦ absurd (ground arith)
          | inr (f, g) ↦
              let same : (String.◌∷◌ c f.0, f.1) ≡ found = ground arith in
              subst (λ f. cut (String.◌∷◌ c (String.◌++◌ s t)) ≡ followed_by (some f) t) same
                (rw (other, letter) (ap (longer c) (cut-append s t f g)))
        ]
      ]
    ]

-- More text in the buffer, and messages before those that are found.
abbrev pub extend : String → Parser → Parser
extend t p = record p { buffer = String.◌++◌ p.buffer t }

abbrev pub after_messages : List ParsedSseMessage → Parser → Parser
after_messages ms p = record p { out = ms ++ p.out }

pub read_line-extend :
    (line t : String) (p : Parser) → read_line line (extend t p) ≡ extend t (read_line line p)
unfolding read_line end_message set_field
read_line-extend line t p = ground arith

pub append_if :
    (b : Bool) (ms out more : List ParsedSseMessage)
    → (if b then ms ++ out else (ms ++ out) ++ more) ≡ ms ++ (if b then out else out ++ more)
append_if true ms out more = refl
append_if false ms out more = append_assoc ms out more

pub end_message-after_messages :
    (ms : List ParsedSseMessage) (p : Parser)
    → end_message (after_messages ms p) ≡ after_messages ms (end_message p)
unfolding end_message
end_message-after_messages ms p =
    ap (λ o. record p { event_name = "message"; data_lines = []; out = o })
      (append_if (is_nil p.data_lines) ms p.out _)

pub read_line-after_messages :
    (line : String) (ms : List ParsedSseMessage) (p : Parser)
    → read_line line (after_messages ms p) ≡ after_messages ms (read_line line p)
unfolding read_line set_field
read_line-after_messages line ms p = ground (arith, end_message-after_messages ms p)

pub shorter :
    (n : ℕ) (p : Parser) (found : String × String)
    → size p.buffer ≤ suc n
    → cut p.buffer ≡ some found
    → size (read_line found.0 (record p { buffer = found.1 })).buffer ≤ n
shorter n p found h e =
    let less = size-cut p.buffer found.0 found.1 e in
    subst (λ x. size x ≤ n) (sym (read_line-buffer found.0 (record p { buffer = found.1 })))
      (omega arith)

pub read_lines_idle : (n : ℕ) (p : Parser) → cut p.buffer ≡ none → read_lines n p ≡ p
unfolding read_lines
read_lines_idle zero p e = refl
read_lines_idle (suc n) p e = ap (λ o. read_found (read_lines n) o p) e

pub read_lines_step :
    (n : ℕ) (p : Parser) (found : String × String)
    → cut p.buffer ≡ some found
    → read_lines (suc n) p ≡ read_lines n (read_line found.0 (record p { buffer = found.1 }))
unfolding read_lines
read_lines_step n p found e = ap (λ o. read_found (read_lines n) o p) e

pub read_lines-zero : (p : Parser) → read_lines zero p ≡ p
unfolding read_lines
read_lines-zero p = refl

-- More fuel than the buffer has characters changes nothing.
pub read_lines-fuel :
    (n m : ℕ) (p : Parser) → size p.buffer ≤ n → size p.buffer ≤ m → read_lines n p ≡ read_lines m p
read_lines-fuel zero m p h k =
    let e = cut-short p.buffer (omega arith) in
    read_lines_idle zero p e ∙ sym (read_lines_idle m p e)
read_lines-fuel (suc n) zero p h k =
    let e = cut-short p.buffer (omega arith) in
    read_lines_idle (suc n) p e ∙ sym (read_lines_idle zero p e)
read_lines-fuel (suc n) (suc m) p h k = elim (Option-cases (cut p.buffer)) [
  | inl e ↦ read_lines_idle (suc n) p e ∙ sym (read_lines_idle (suc m) p e)
  | inr (found, e) ↦
      read_lines_step n p found e
      ∙ read_lines-fuel n m (read_line found.0 (record p { buffer = found.1 }))
          (shorter n p found h e) (shorter m p found k e)
      ∙ sym (read_lines_step m p found e)
]

pub size-read_lines : (n : ℕ) (p : Parser) → size (read_lines n p).buffer ≤ size p.buffer
size-read_lines zero p =
    subst (λ q. size q.buffer ≤ size p.buffer) (sym (read_lines-zero p)) (omega arith)
size-read_lines (suc n) p = elim (Option-cases (cut p.buffer)) [
  | inl e ↦
      subst (λ q. size q.buffer ≤ size p.buffer) (sym (read_lines_idle (suc n) p e)) (omega arith)
  | inr (found, e) ↦
      let next = read_line found.0 (record p { buffer = found.1 }) in
      let less = size-cut p.buffer found.0 found.1 e in
      let kept = ap size (read_line-buffer found.0 (record p { buffer = found.1 })) in
      subst (λ q. size q.buffer ≤ size p.buffer) (sym (read_lines_step n p found e))
        (omega (arith, size-read_lines n next, kept))
]

pub room :
    (m : ℕ) (t : String) (p : Parser) (found : String × String)
    → size p.buffer + size t ≤ suc m
    → cut p.buffer ≡ some found
    → size (read_line found.0 (record p { buffer = found.1 })).buffer + size t ≤ m
room m t p found k e =
    let less = size-cut p.buffer found.0 found.1 e in
    let kept = ap size (read_line-buffer found.0 (record p { buffer = found.1 })) in
    omega (arith, kept)

pub fits :
    (m : ℕ) (t : String) (next last : Parser)
    → size last.buffer ≤ size next.buffer
    → size next.buffer + size t ≤ m
    → size (String.◌++◌ last.buffer t) ≤ m
fits m t next last h k = omega (arith, size-append last.buffer t)
