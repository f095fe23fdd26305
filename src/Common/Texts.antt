-- ===== src/Common/Texts.antt =====
-- Texts: the white space that `trim` removes, and texts as lists of code points.
use Prim.Native.Nat.{ℕ}
use Prim.Native.Char.{Char, code}
use Prim.Native.String.{String}
use mathlib.Core.Path.{◌≡◌, refl}
use mathlib.Core.Bool.{Bool, true, false, ◌||◌, ◌&&◌}
use mathlib.Core.List.{List, [], ◌∷◌}
use mathlib.Core.Option.{Option, none, some}
use platform_for_sudies.Common.Tests.{leb, ◌==◌, if◌then◌else◌}

-- A text that the program walks, as its code points.
abbrev pub Text : Type 0
Text = List ℕ

abbrev pub codes : String → Text
codes String.[] = []
codes (String.◌∷◌ c s) = code c ∷ codes s

-- The white space and line ends of ECMAScript.
unfoldable pub is_space : ℕ → Bool
is_space c =
    (leb 9 c && leb c 13)
    || c == 32
    || c == 160
    || c == 0x1680
    || (leb 0x2000 c && leb c 0x200a)
    || c == 0x2028
    || c == 0x2029
    || c == 0x202f
    || c == 0x205f
    || c == 0x3000
    || c == 0xfeff

abbrev pub is_empty : String → Bool
is_empty String.[] = true
is_empty (String.◌∷◌ c s) = false

trim_start : String → String
trim_start String.[] = ""
trim_start (String.◌∷◌ c s) =
    let rest = trim_start s in if is_space (code c) then rest else String.◌∷◌ c s

trim_end : String → String
trim_end String.[] = ""
trim_end (String.◌∷◌ c s) =
    let rest = trim_end s in if is_empty rest && is_space (code c) then "" else String.◌∷◌ c rest

-- `s.trim()`
unfoldable pub trim : String → String
unfolding trim_start trim_end is_space
trim s = trim_end (trim_start s)

-- A text is truthy unless it is missing or empty.
abbrev pub truthy : Option String → Bool
truthy none = false
truthy (some String.[]) = false
truthy (some (String.◌∷◌ c s)) = true

-- A text without white space, which `trim` leaves alone.
abbrev pub IsTight : String → Type 0
IsTight String.[] = Unit
IsTight (String.◌∷◌ c s) = (is_space (code c) ≡ false) × IsTight s

trim_start-IsTight : (s : String) → IsTight s → trim_start s ≡ s
unfolding trim_start
trim_start-IsTight String.[] t = refl
trim_start-IsTight (String.◌∷◌ c s) t = rw (t.0, trim_start) refl

if-never :
    (b : Bool) (s : String) (c : Char)
    → (if b && false then "" else String.◌∷◌ c s) ≡ String.◌∷◌ c s
if-never true s c = refl
if-never false s c = refl

trim_end-IsTight : (s : String) → IsTight s → trim_end s ≡ s
unfolding trim_end
trim_end-IsTight String.[] t = refl
trim_end-IsTight (String.◌∷◌ c s) t = rw (trim_end-IsTight s t.1, t.0) (if-never (is_empty s) s c)

pub trim-IsTight : (s : String) → IsTight s → trim s ≡ s
unfolding trim
trim-IsTight s t = rw (trim_start-IsTight s t) (trim_end-IsTight s t)

trim_edges : trim " \t" ≡ ""
unfolding trim
trim_edges = refl
