-- ===== src/Sse.antt =====
-- web/src/api/sse.ts: the incremental parser of the change stream. `JSON.parse` is a parameter.
pub mod Lines
pub mod Chunks
pub mod Connection
use Prim.Native.Char.{Char, code}
use Prim.Native.String
use platform_for_sudies.Common.{
  ℕ, zero, suc, ◌<◌, ◌≤◌, String, Bool, false, Option, none, some, List, [], ◌∷◌, ◌++◌, ◌≡◌, refl,
  if◌then◌else◌, ◌==◌, str_eq, is_nil, is_empty, arith, Option-cases, inl, inr, and_then,
  Bool-cases, subst, sym,
}
use platform_for_sudies.Api.{
  ChangeKind, scores, status, event, composition, alert, judges, presence, stage,
}

pub record ParsedSseMessage : Type 0 where
  pub event : String
  pub data_text : String

-- The variables of the parser, and `out`.
pub record Parser : Type 0 where
  pub buffer : String
  pub event_name : String
  pub data_lines : List String
  pub out : List ParsedSseMessage

abbrev pub new_parser : Parser
new_parser = record { buffer = ""; event_name = "message"; data_lines = []; out = [] }

abbrev after_return : String → Option (String × String)
after_return String.[] = none
after_return (String.◌∷◌ d s) = some ("", if code d == 10 then s else String.◌∷◌ d s)

abbrev longer : Char → Option (String × String) → Option (String × String)
longer c none = none
longer c (some (line, rest)) = some (String.◌∷◌ c line, rest)

-- The first line and what follows its end; none if no line is complete. A carriage return at the
-- very end may be the first half of a line end.
unfoldable pub cut : String → Option (String × String)
cut String.[] = none
cut (String.◌∷◌ c s) =
    let rest = cut s in
    if code c == 10 then some ("", s) else if code c == 13 then after_return s else longer c rest

-- The field and, after its colon, the value.
unfoldable pub split_field : String → String × String
split_field String.[] = ("", "")
split_field (String.◌∷◌ c s) =
    let rest = split_field s in if code c == 58 then ("", s) else (String.◌∷◌ c rest.0, rest.1)

abbrev without_space : String → String
without_space String.[] = ""
without_space (String.◌∷◌ c s) = if code c == 32 then s else String.◌∷◌ c s

abbrev starts_with_colon : String → Bool
starts_with_colon String.[] = false
starts_with_colon (String.◌∷◌ c s) = code c == 58

-- `data.join('\n')`
abbrev join_lines : List String → String
join_lines [] = ""
join_lines (x ∷ []) = x
join_lines (x ∷ y ∷ ys) = String.◌++◌ x (String.◌++◌ "\n" (join_lines (y ∷ ys)))

unfoldable pub end_message : Parser → Parser
end_message p = record p {
  event_name = "message";
  data_lines = [];
  out =
      if is_nil p.data_lines
      then p.out
      else p.out ++ record { event = p.event_name; data_text = join_lines p.data_lines } ∷ [];
}

unfoldable pub set_field : String → String → Parser → Parser
set_field field value p =
    if str_eq field "event"
    then record p { event_name = value }
    else if str_eq field "data"
    then record p { data_lines = p.data_lines ++ value ∷ [] }
    else p

unfoldable pub read_line : String → Parser → Parser
unfolding end_message set_field split_field
read_line line p =
    if is_empty line
    then end_message p
    else if starts_with_colon line
    then p
    else set_field (split_field line).0 (without_space (split_field line).1) p

-- A round of the loop, before the rest of it.
abbrev read_found : (Parser → Parser) → Option (String × String) → Parser → Parser
read_found again none p = p
read_found again (some (line, rest)) p = again (read_line line (record p { buffer = rest }))

-- The loop, on fuel.
unfoldable pub read_lines : ℕ → Parser → Parser
read_lines zero p = p
read_lines (suc n) p = read_found (read_lines n) (cut p.buffer) p

abbrev pub size : String → ℕ
size String.[] = 0
size (String.◌∷◌ c s) = suc (size s)

-- Each round takes at least one character from the buffer.
unfoldable pub push : String → Parser → Parser
unfolding read_lines
push chunk p =
    let buffer = String.◌++◌ p.buffer chunk in
    read_lines (size buffer) (record p { buffer = buffer; out = [] })

abbrev pub kind_of : String → Option ChangeKind
kind_of s =
    if str_eq s "scores"
    then some scores
    else if str_eq s "status"
    then some status
    else if str_eq s "event"
    then some event
    else if str_eq s "composition"
    then some composition
    else if str_eq s "alert"
    then some alert
    else if str_eq s "judges"
    then some judges
    else if str_eq s "presence"
    then some presence
    else if str_eq s "stage"
    then some stage
    else none

-- `json_kind` is the text under `kind` of the parsed JSON; none if there is none or it is no JSON.
unfoldable pub parse_change_kind : (String → Option String) → ParsedSseMessage → Option ChangeKind
parse_change_kind json_kind msg =
    if str_eq msg.event "change" then and_then (json_kind msg.data_text) kind_of else none

size-after_return : (s line rest : String) → after_return s ≡ some (line, rest) → size rest ≤ size s
size-after_return String.[] line rest e = absurd (ground arith)
size-after_return (String.◌∷◌ d s) line rest e = elim (Bool-cases (code d == 10)) [
  | inl feed ↦
      let same : s ≡ rest = ground arith in subst (λ x. size x ≤ suc (size s)) same (omega arith)
  | inr other ↦
      let same : String.◌∷◌ d s ≡ rest = ground arith in
      subst (λ x. size x ≤ suc (size s)) same (omega arith)
]

size-cut : (s line rest : String) → cut s ≡ some (line, rest) → size rest < size s
unfolding cut
size-cut String.[] line rest e = absurd (ground arith)
size-cut (String.◌∷◌ c s) line rest e = elim (Bool-cases (code c == 10)) [
  | inl feed ↦
      let same : s ≡ rest = ground arith in subst (λ x. size x < suc (size s)) same (omega arith)
  | inr other ↦ elim (Bool-cases (code c == 13)) [
    | inl return ↦ ground (arith, size-after_return s line rest)
    | inr letter ↦ elim (Option-cases (cut s)) [
      | inl none_left ↦ absurd (ground arith)
      | inr ((l, r), f) ↦
          let same : r ≡ rest = ground arith in
          let shorter : size r < size s = size-cut s l r f in
          subst (λ x. size x < suc (size s)) same (omega arith)
    ]
  ]
]

cut-short : (s : String) → size s ≡ 0 → cut s ≡ none
unfolding cut
cut-short String.[] e = refl
cut-short (String.◌∷◌ c s) e = absurd (omega arith)

read_line-buffer : (line : String) (p : Parser) → (read_line line p).buffer ≡ p.buffer
unfolding read_line end_message set_field
read_line-buffer line p = ground arith

read_lines-done : (n : ℕ) (p : Parser) → size p.buffer ≤ n → cut (read_lines n p).buffer ≡ none
unfolding read_lines
read_lines-done zero p h = cut-short p.buffer (omega arith)
read_lines-done (suc n) p h = go (λ q le. read_lines-done n q le) (cut p.buffer) refl
  where
    go :
        ((q : Parser) → size q.buffer ≤ n → cut (read_lines n q).buffer ≡ none)
        → (o : Option (String × String)) → cut p.buffer ≡ o
        → cut (read_found (read_lines n) o p).buffer ≡ none
    go again none e = e
    go again (some (line, rest)) e =
        let shorter = size-cut p.buffer line rest e in
        let kept = read_line-buffer line (record p { buffer = rest }) in
        again _ (subst (λ x. size x ≤ n) (sym kept) (omega arith))

-- After a chunk of the change stream, no complete line is left in the buffer: the loop always
-- ends, having read all that there is to read.
pub push-done : (chunk : String) (p : Parser) → cut (push chunk p).buffer ≡ none
unfolding push
push-done chunk p =
    let buffer = String.◌++◌ p.buffer chunk in
    read_lines-done (size buffer) (record p { buffer = buffer; out = [] }) (omega arith)
