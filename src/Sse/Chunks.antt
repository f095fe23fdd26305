-- ===== src/Sse/Chunks.antt =====
-- The messages of web/src/api/sse.ts do not depend on how the stream is cut into chunks.
use Prim.Native.String
use text.Mathlib.TextLemmas.{append_assoc as text_assoc, append-nil as text_append_nil}
use mathlib.Core.List.{append-nil}
use platform_for_sudies.Common.{
  ℕ, zero, suc, ◌+◌, ◌≤◌, String, none, List, [], ◌∷◌, ◌≡◌, sym, ap, ◌∙◌, arith, Option-cases, inl,
  inr,
}
use platform_for_sudies.Sse.{
  Parser, cut, read_line, read_lines, size, push, cut-short, push-done, ParsedSseMessage,
}
use platform_for_sudies.Sse.Lines.{
  size-append, cut-append, extend, after_messages, read_line-extend, read_line-after_messages,
  shorter, read_lines_idle, read_lines_step, read_lines-zero, read_lines-fuel, size-read_lines,
  room, fits,
}

-- The text that is there may be read before more comes.
read_lines-extend :
    (n m : ℕ) (t : String) (p : Parser)
    → size p.buffer ≤ n
    → size p.buffer + size t ≤ m
    → read_lines m (extend t p) ≡ read_lines m (extend t (read_lines n p))
read_lines-extend zero m t p h k =
    ap (λ q. read_lines m (extend t q))
      (sym (read_lines_idle zero p (cut-short p.buffer (omega arith))))
read_lines-extend (suc n) zero t p h k =
    ap (λ q. read_lines zero (extend t q))
      (sym (read_lines_idle (suc n) p (cut-short p.buffer (omega arith))))
read_lines-extend (suc n) (suc m) t p h k = elim (Option-cases (cut p.buffer)) [
  | inl e ↦ ap (λ q. read_lines (suc m) (extend t q)) (sym (read_lines_idle (suc n) p e))
  | inr (found, e) ↦
      let next = read_line found.0 (record p { buffer = found.1 }) in
      let last = read_lines n next in
      read_lines_step m (extend t p) (found.0, String.◌++◌ found.1 t)
        (cut-append p.buffer t found e)
      ∙ ap (read_lines m) (read_line-extend found.0 t (record p { buffer = found.1 }))
      ∙ read_lines-extend n m t next (shorter n p found h e) (room m t p found k e)
      ∙ read_lines-fuel m (suc m) (extend t last)
          (fits m t next last (size-read_lines n next) (room m t p found k e))
          (omega (arith, fits m t next last (size-read_lines n next) (room m t p found k e)))
      ∙ ap (λ q. read_lines (suc m) (extend t q)) (sym (read_lines_step n p found e))
]

read_lines-after_messages :
    (n : ℕ) (ms : List ParsedSseMessage) (p : Parser)
    → read_lines n (after_messages ms p) ≡ after_messages ms (read_lines n p)
read_lines-after_messages zero ms p =
    read_lines-zero (after_messages ms p) ∙ ap (after_messages ms) (sym (read_lines-zero p))
read_lines-after_messages (suc n) ms p = elim (Option-cases (cut p.buffer)) [
  | inl e ↦
      read_lines_idle (suc n) (after_messages ms p) e
      ∙ ap (after_messages ms) (sym (read_lines_idle (suc n) p e))
  | inr (found, e) ↦
      let next = read_line found.0 (record p { buffer = found.1 }) in
      read_lines_step n (after_messages ms p) found e
      ∙ ap (read_lines n) (read_line-after_messages found.0 ms (record p { buffer = found.1 }))
      ∙ read_lines-after_messages n ms next
      ∙ ap (after_messages ms) (sym (read_lines_step n p found e))
]

-- Two chunks or one: the messages of the first come before those of the second.
push-append :
    (a c : String) (p : Parser)
    → push (String.◌++◌ a c) p ≡ after_messages (push a p).out (push c (push a p))
unfolding push
push-append a c p =
    let first = record p { buffer = String.◌++◌ p.buffer a; out = [] } in
    let read = push a p in
    let m = size (String.◌++◌ (String.◌++◌ p.buffer a) c) in
    let second = record read { buffer = String.◌++◌ read.buffer c; out = [] } in
    ap (λ b. read_lines (size b) (record p { buffer = b; out = [] }))
      (sym (text_assoc p.buffer a c))
    ∙ read_lines-extend (size first.buffer) m c first (omega arith)
        (omega (arith, size-append first.buffer c))
    ∙ read_lines-fuel m (size second.buffer) (extend c read)
        (omega (
          arith,
          size-append first.buffer c,
          size-append read.buffer c,
          size-read_lines (size first.buffer) first,
        ))
        (omega arith)
    ∙ ap (λ o. read_lines (size second.buffer) (record second { out = o }))
        (sym (append-nil read.out))
    ∙ read_lines-after_messages (size second.buffer) read.out second

-- The parser fed with chunk after chunk, with all the messages that it gave.
abbrev pub push_all : List String → Parser → Parser
push_all [] p = record p { out = [] }
push_all (chunk ∷ chunks) p = after_messages (push chunk p).out (push_all chunks (push chunk p))

abbrev pub joined : List String → String
joined [] = ""
joined (chunk ∷ chunks) = String.◌++◌ chunk (joined chunks)

-- From a parser without a complete line in its buffer, the messages and the state after the
-- chunks of a stream are those after the whole text in one chunk.
pub push_all_lem :
    (chunks : List String) (p : Parser)
    → cut p.buffer ≡ none
    → push_all chunks p ≡ push (joined chunks) p
unfolding push
push_all_lem [] p idle = sym (
    ap (λ b. read_lines (size b) (record p { buffer = b; out = [] })) (text_append_nil p.buffer)
    ∙ read_lines_idle (size p.buffer) (record p { out = [] }) idle)
push_all_lem (chunk ∷ chunks) p idle =
    ap (after_messages (push chunk p).out) (push_all_lem chunks (push chunk p) (push-done chunk p))
    ∙ sym (push-append chunk (joined chunks) p)
