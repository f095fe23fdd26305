-- ===== src/ControlRoom/Paste.antt =====
-- Pasted lists of teams and names in web/src/features/control-room/lib.ts.
use Prim.Native.Char.{Char, code}
use Prim.Native.String
use platform_for_sudies.Common.{
  ℕ, String, Bool, true, false, not, ◌&&◌, Option, none, some, List, [], ◌∷◌, map, filter, lookup,
  insert, Dict, is_empty, trim, if◌then◌else◌, ◌==◌, or_else, get_elem?, drop, truthy,
}
use platform_for_sudies.Api.{Track}
use platform_for_sudies.Tracks.{contains}

abbrev push : Char → List String → List String
push c [] = String.◌∷◌ c "" ∷ []
push c (piece ∷ pieces) = String.◌∷◌ c piece ∷ pieces

-- `text.split(/\r\n|\r|\n/)`; the flag says that the last character was a carriage return.
unfoldable pub split_lines : Bool → String → List String
split_lines after_cr String.[] = "" ∷ []
split_lines after_cr (String.◌∷◌ c s) = elim (code c == 10) [
  | true ↦ elim after_cr [ true ↦ split_lines false s | false ↦ "" ∷ split_lines false s ]
  | false ↦ elim (code c == 13) [
    | true ↦ "" ∷ split_lines true s
    | false ↦ push c (split_lines false s)
  ]
]

abbrev pub lines : String → List String
lines = split_lines false

-- `line.split('\t')`
unfoldable pub split_tabs : String → List String
split_tabs String.[] = "" ∷ []
split_tabs (String.◌∷◌ c s) = elim (code c == 9) [
  | true ↦ "" ∷ split_tabs s
  | false ↦ push c (split_tabs s)
]

abbrev distinct_from : List String → List String → List String
distinct_from seen [] = []
distinct_from seen (x ∷ xs) =
    if contains x seen then distinct_from seen xs else x ∷ distinct_from (x ∷ seen) xs

unfoldable pub parse_names : String → List String
unfolding split_lines
parse_names text = distinct_from [] (filter (λ s. not (is_empty s)) (map trim (lines text)))

pub record PasteRow : Type 0 where
  pub name : String
  pub description : Option String
  pub track_id : Option String
  pub unknown_track : Option String

-- `cols.join(' ')`
abbrev join : List String → String
join [] = ""
join (x ∷ []) = x
join (x ∷ y ∷ ys) = String.◌++◌ x (String.◌++◌ " " (join (y ∷ ys)))

abbrev column : ℕ → List String → String
column i rest = or_else (get_elem? rest i) ""

abbrev has_two : List String → Bool
has_two (x ∷ y ∷ []) = true
has_two [] = false
has_two (x ∷ []) = false
has_two (x ∷ y ∷ z ∷ rest) = false

abbrev described : List String → Option String
described cols =
    let text = join (filter (λ s. not (is_empty s)) (map trim cols)) in
    if is_empty text then none else some text

-- `lower` is `toLowerCase`.
module _ (lower : String → String) where
  -- `new Map(tracks.map((t) => [t.name.trim().toLowerCase(), t.id]))`
  abbrev by_name : List Track → Dict String → Dict String
  by_name [] m = m
  by_name (t ∷ ts) m = by_name ts (insert (lower (trim t.name)) t.id m)

  unfoldable pub paste_row : Dict String → String → List String → PasteRow
  paste_row tracks name rest =
      let track_name = trim (column 1 rest) in
      let track_id = lookup (lower track_name) tracks in
      if truthy track_id
      then record {
        name = name;
        description = described (column 0 rest ∷ drop 2 rest);
        track_id = track_id;
        unknown_track = none;
      }
      else if has_two rest && not (is_empty track_name)
      then record {
        name = name;
        description = described (column 0 rest ∷ []);
        track_id = none;
        unknown_track = some track_name;
      }
      else record {
        name = name;
        description = described rest;
        track_id = none;
        unknown_track = none;
      }

  unfoldable paste_line : Dict String → List String → List PasteRow → List PasteRow
  paste_line tracks [] rows = rows
  paste_line tracks (raw_name ∷ rest) rows =
      let name = trim raw_name in if is_empty name then rows else paste_row tracks name rest ∷ rows

  unfoldable paste_lines : Dict String → List String → List PasteRow
  paste_lines tracks [] = []
  paste_lines tracks (line ∷ ls) = paste_line tracks (split_tabs line) (paste_lines tracks ls)

  unfoldable pub parse_teams_paste : String → List Track → List PasteRow
  unfolding split_lines split_tabs paste_lines paste_line paste_row
  parse_teams_paste text tracks = paste_lines (by_name tracks []) (lines text)
