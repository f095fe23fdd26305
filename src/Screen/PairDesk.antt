-- ===== src/Screen/PairDesk.antt =====
-- web/src/features/judge/pairwise-desk.tsx: choosing between two teams, with keys or buttons.
use platform_for_sudies.Common.{
  String, Bool, true, false, ◌&&◌, ◌||◌, Option, none, some, List, [], ◌∷◌, if◌then◌else◌, and_then,
  str_eq, ◌≡◌, sym, ◌∙◌, arith, Bool-cases, Option-cases, inl, inr,
}
use platform_for_sudies.Api.{Winner}
use platform_for_sudies.Pairwise.{
  LocalComparison, Comparisons, sorted_comparisons, current_pair, next_open_after, winner_for_key,
}
use platform_for_sudies.Screen.Hotkeys.{KeyEvent, Delta, previous}
use platform_for_sudies.Screen.Navigation.{index_of, at_delta}

-- The state `chosenId` and `submitOpen`.
pub record PairView : Type 0 where
  pub chosen_id : Option String
  pub submit_open : Bool

-- The arguments of `controller.decide`.
pub record Decision : Type 0 where
  pub id : String
  pub winner : Option Winner

pub record Acted : Type 0 where
  pub view : PairView
  pub decision : Option Decision
  pub prevented : Bool

abbrev pub shown_list : Comparisons → List LocalComparison
shown_list c = sorted_comparisons c

abbrev pub shown_pair : Comparisons → PairView → Option LocalComparison
shown_pair c v = current_pair (shown_list c) v.chosen_id

abbrev ids : List LocalComparison → List String
ids [] = []
ids (x ∷ xs) = x.id ∷ ids xs

abbrev id_of : Option LocalComparison → Option String
id_of none = none
id_of (some x) = some x.id

abbrev nothing : Bool → PairView → Acted
nothing prevented v = record { view = v; decision = none; prevented = prevented }

unfoldable pub choose : Bool → Comparisons → Winner → PairView → Acted
choose read_only c winner v = elim (shown_pair c v) [
  | none ↦ nothing true v
  | some pair ↦ if read_only then nothing true v else record {
    view = record v { chosen_id = id_of (next_open_after (shown_list c) pair.id) };
    decision = some (record { id = pair.id; winner = some winner });
    prevented = true;
  }
]

unfoldable pub undo : Bool → Comparisons → PairView → Option Decision
undo read_only c v = elim (shown_pair c v) [
  | none ↦ none
  | some pair ↦ if read_only then none else some (record { id = pair.id; winner = none })
]

-- `list[index + delta]`, where the pair is in the list by its identifier; without a pair the index
-- is -1, and the list is empty.
unfoldable pub go : Comparisons → Delta → PairView → PairView
go c delta v = elim (and_then (shown_pair c v) (λ pair. index_of pair.id (ids (shown_list c)))) [
  | none ↦ v
  | some index ↦ elim (at_delta (ids (shown_list c)) index delta) [
    | none ↦ v
    | some id ↦ record v { chosen_id = some id }
  ]
]

-- The listener is not there while the submit dialog or the alert is open.
unfoldable pub on_key : Bool → Bool → Comparisons → KeyEvent → PairView → Acted
on_key read_only alert_open c e v =
    if v.submit_open || alert_open || e.default_prevented || e.typing || e.alt_key
    then nothing false v
    else if str_eq e.key "Enter" && (e.ctrl_key || e.meta_key)
    then nothing true (if read_only then v else record v { submit_open = true })
    else if e.ctrl_key || e.meta_key
    then nothing false v
    else if str_eq e.key "Backspace"
    then nothing true (go c previous v)
    else elim (winner_for_key e.key) [
      | none ↦ nothing false v
      | some winner ↦ choose read_only c winner v
    ]

-- A decision that the desk sends: of the pair on the screen, while the sheet may be edited.
pub record IsShown (read_only : Bool) (c : Comparisons) (v : PairView) (d : Decision) : Type 0 where
  pub editable : read_only ≡ false
  pub pair : LocalComparison
  pub shown : shown_pair c v ≡ some pair
  pub same_id : d.id ≡ pair.id

choose-IsShown :
    (read_only : Bool) (c : Comparisons) (winner : Winner) (v : PairView) (d : Decision)
    → (choose read_only c winner v).decision ≡ some d
    → IsShown read_only c v d × (d.winner ≡ some winner)
unfolding choose
choose-IsShown read_only c winner v d e = elim (Option-cases (shown_pair c v)) [
  | inl no_pair ↦ absurd (ground arith)
  | inr (pair, here) ↦ elim (Bool-cases read_only) [
    | inl closed ↦ absurd (ground arith)
    | inr editable ↦ (
      record { editable = editable; pair = pair; shown = here; same_id = ground arith },
      ground arith,
    )
  ]
]

-- A key decides only the pair on the screen, for the winner that the key stands for, while the
-- sheet may be edited and neither the alert nor the dialog of submission is open.
pub on_key_decides :
    (read_only alert_open : Bool) (c : Comparisons) (e : KeyEvent) (v : PairView) (d : Decision)
    → (on_key read_only alert_open c e v).decision ≡ some d
    → IsShown read_only c v d
      × (d.winner ≡ winner_for_key e.key)
      × (alert_open ≡ false)
      × (v.submit_open ≡ false)
unfolding on_key
on_key_decides read_only alert_open c e v d h = elim (Option-cases (winner_for_key e.key)) [
  | inl no_winner ↦ absurd (ground arith)
  | inr (winner, k) ↦
      let chosen : (choose read_only c winner v).decision ≡ some d = ground arith in
      let (s, w) = choose-IsShown read_only c winner v d chosen in
      (s, w ∙ sym k, ground arith, ground arith)
]
