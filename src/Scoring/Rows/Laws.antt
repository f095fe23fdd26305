-- ===== src/Scoring/Rows/Laws.antt =====
-- The keys of the rows, and what an edit does to them.
use Prim.Native.Char.{Char, char, code}
use Prim.Native.String
use text.Mathlib.TextLemmas.{nil-append, cons-append}
use platform_for_sudies.Common.{
  ℕ, ◌<◌, String, Option, none, some, List, [], ◌∷◌, ◌≡◌, ◌≢◌, refl, sym, ◌∙◌, ap, inl, inr, lookup,
  if◌then◌else◌, str_eq, arith, Bool-cases, lookup-insert, IsDict, IsDict-insert,
}
use platform_for_sudies.Scoring.Rows.{
  LocalRow, Rows, Patch, cell_key, key_of, next_edited_at, edited_row, apply_edit, note_row,
  apply_note, apply_note_from, skips_note,
}

-- An identifier without the separator, such as a UUID.
abbrev pub NoColon : String → Type 0
NoColon String.[] = Unit
NoColon (String.◌∷◌ c s) = (code c ≢ b':') × NoColon s

cons_injective : (c d : Char) (s t : String) → String.◌∷◌ c s ≡ String.◌∷◌ d t → (c ≡ d) × (s ≡ t)
cons_injective c d s t e = (ground arith, ground arith)

colon-append : (s : String) → String.◌++◌ ":" s ≡ String.◌∷◌ (char b':' tt) s
colon-append s =
    cons-append (char b':' tt) String.[] s ∙ ap (String.◌∷◌ (char b':' tt)) (nil-append s)

key_injective :
    (t u c d : String)
    → NoColon t
    → NoColon u
    → String.◌++◌ t (String.◌++◌ ":" c) ≡ String.◌++◌ u (String.◌++◌ ":" d)
    → (t ≡ u) × (c ≡ d)
key_injective String.[] String.[] c d h k e =
    (refl, (cons_injective _ _ c d (simp (nil-append, colon-append) at e)).1)
key_injective String.[] (String.◌∷◌ x u) c d h k e = absurd (
    k.0 (
      sym (ap code (cons_injective _ x c _ (simp (nil-append, cons-append, colon-append) at e)).0)))
key_injective (String.◌∷◌ x t) String.[] c d h k e =
    absurd
      (h.0 (ap code (cons_injective x _ _ d (simp (nil-append, cons-append, colon-append) at e)).0))
key_injective (String.◌∷◌ x t) (String.◌∷◌ y u) c d h k e =
    let (same, rest) = cons_injective x y _ _ (simp cons-append at e) in
    let (tail, cells) = key_injective t u c d h.1 k.1 rest in (cc (same, tail), cells)

-- Different cells have different keys, as long as the identifiers of the teams hold no colon.
pub cell_key_injective :
    (t u c d : String) → NoColon t → NoColon u → cell_key t c ≡ cell_key u d → (t ≡ u) × (c ≡ d)
unfolding cell_key
cell_key_injective t u c d h k e = key_injective t u c d h k e

-- Every row stands under its own key, and no key occurs twice.
abbrev pub IsOwnKey : String → LocalRow → Type 0
IsOwnKey k row = key_of row ≡ k

abbrev pub WellKeyed : Rows → Type 0
WellKeyed = IsDict IsOwnKey

pub lookup-apply_edit :
    (rows : Rows) (t c : String) (patch : Patch) (note : String) (now : ℕ) (k : String)
    → lookup k (apply_edit rows t c patch note now) ≡ (
        if str_eq (cell_key t c) k
        then some (edited_row (lookup (cell_key t c) rows) t c patch note now)
        else lookup k rows)
unfolding apply_edit
lookup-apply_edit rows t c patch note now k = lookup-insert (cell_key t c) k _ rows

pub apply_edit-WellKeyed :
    (rows : Rows) (t c : String) (patch : Patch) (note : String) (now : ℕ)
    → WellKeyed rows
    → WellKeyed (apply_edit rows t c patch note now)
unfolding apply_edit edited_row
apply_edit-WellKeyed rows t c patch note now w = IsDict-insert IsOwnKey _ _ rows refl w

pub note_row-WellKeyed :
    (row : Option LocalRow) (note : String) (now : ℕ) (next : Rows)
    → WellKeyed next
    → WellKeyed (note_row row note now next)
unfolding note_row
note_row-WellKeyed none note now next w = w
note_row-WellKeyed (some row) note now next w = elim (Bool-cases (skips_note (some row) note)) [
  | inl skipped ↦ rw (skipped) w
  | inr edited ↦ rw edited (apply_edit-WellKeyed next row.team_id row.criterion_id _ "" now w)
]

apply_note_from-WellKeyed :
    (rows next : Rows) (ks : List String) (note : String) (now : ℕ)
    → WellKeyed next
    → WellKeyed (apply_note_from rows next ks note now)
unfolding apply_note_from
apply_note_from-WellKeyed rows next [] note now w = w
apply_note_from-WellKeyed rows next (k ∷ ks) note now w =
    apply_note_from-WellKeyed rows (note_row (lookup k rows) note now next) ks note now
      (note_row-WellKeyed (lookup k rows) note now next w)

pub apply_note-WellKeyed :
    (rows : Rows) (ks : List String) (note : String) (now : ℕ)
    → WellKeyed rows
    → WellKeyed (apply_note rows ks note now)
unfolding apply_note
apply_note-WellKeyed rows ks note now w = apply_note_from-WellKeyed rows rows ks note now w

-- Every edit of a row gets a later time than the row had.
pub edited_at-lt-edited_row :
    (row : LocalRow) (t c : String) (patch : Patch) (note : String) (now : ℕ)
    → row.edited_at < (edited_row (some row) t c patch note now).edited_at
unfolding edited_row next_edited_at
edited_at-lt-edited_row row t c patch note now = omega arith
