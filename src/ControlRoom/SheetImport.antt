-- ===== src/ControlRoom/SheetImport.antt =====
-- web/src/features/control-room/sheet-import.tsx: reading a judge's backup file and counting what the
-- server answered. `JSON` is a parameter.
use platform_for_sudies.Common.{
  ℕ, String, Bool, true, false, not, ◌||◌, Option, none, some, List, if◌then◌else◌, str_eq, filter,
  length, take, is_some, ltb, ◌≡◌, sym, ap, subst, ◌∙◌, arith,
}
use platform_for_sudies.Api.{
  JudgeSession, SheetFile, sheet_format, ResultStatus, ok, stale, rejected, ComparisonItem,
}
use platform_for_sudies.Scoring.Rows.{Rows}
use platform_for_sudies.Scoring.Outbox.{build_sheet}
use platform_for_sudies.Desk.{Desk}
use platform_for_sudies.Desk.Session.{export_sheet, export_session, exported_comparisons}

-- The fields of a parsed object that are looked at, where they have the type that is asked for.
pub record Fields : Type 0 where
  pub format : Option String
  pub has_items : Bool
  pub token : Option String
  pub event_id : Option String
  pub sheet : SheetFile

-- `JSON.parse`: none if it throws, and `some none` for a value that is no object.
abbrev pub Decode : Type 0
Decode = String → Option (Option Fields)

pub data ParsedSheet : Type 0 where
  not_json wrong_format wrong_event : ParsedSheet
  parsed : SheetFile → ParsedSheet

abbrev is_text : Option String → String → Bool
is_text none s = false
is_text (some t) s = str_eq t s

abbrev check_fields : Option (Option Fields) → String → ParsedSheet
check_fields none event_id = not_json
check_fields (some none) event_id = wrong_format
check_fields (some (some f)) event_id =
    if not (is_text f.format sheet_format) || not f.has_items || not (is_some f.token)
    then wrong_format
    else if not (is_text f.event_id event_id)
    then wrong_event
    else parsed f.sheet

unfoldable pub parse_sheet : Decode → String → String → ParsedSheet
parse_sheet decode text event_id = check_fields (decode text) event_id

-- The answers that are counted, and the rejected ones that are listed.
abbrev is_ok : ResultStatus → Bool
is_ok ok = true
is_ok stale = false
is_ok rejected = false

abbrev is_stale : ResultStatus → Bool
is_stale ok = false
is_stale stale = true
is_stale rejected = false

abbrev is_rejected : ResultStatus → Bool
is_rejected ok = false
is_rejected stale = false
is_rejected rejected = true

abbrev pub max_listed : ℕ
max_listed = 50

pub record Counts : Type 0 where
  pub accepted : ℕ
  pub outdated : ℕ
  pub refused : ℕ
  pub listed : ℕ
  pub has_more : Bool

unfoldable pub counts : List ResultStatus → Counts
counts results = record {
  accepted = length (filter is_ok results);
  outdated = length (filter is_stale results);
  refused = length (filter is_rejected results);
  listed = length (take max_listed (filter is_rejected results));
  has_more = ltb max_listed (length (filter is_rejected results));
}

-- What `JSON.parse` gives for the text that `JSON.stringify` made of a sheet.
abbrev pub sheet_fields : SheetFile → Fields
sheet_fields f = record {
  format = some f.format;
  has_items = true;
  token = some f.token;
  event_id = some f.event_id;
  sheet = f;
}

abbrev pub IsTextOf : Decode → String → SheetFile → Type 0
IsTextOf decode text f = decode text ≡ some (some (sheet_fields f))

some_injective : {f g : SheetFile} → some f ≡ some g → f ≡ g
some_injective e = ground arith

built_for :
    (decode : Decode) (text : String) (s : JudgeSession) (token : String) (rows : Rows) (now : ℕ)
    (comparisons : Option (List ComparisonItem)) (event_id : String)
    → IsTextOf decode text (build_sheet s token rows now comparisons)
    → parse_sheet decode text event_id ≡ (
        if str_eq s.event.id event_id
        then parsed (build_sheet s token rows now comparisons)
        else wrong_event)
unfolding parse_sheet build_sheet
built_for decode text s token rows now comparisons event_id read = rw read (ground arith)

-- A judge's backup, read from a text from which JSON.parse gives its fields, is taken over as
-- it was exported by the event that it belongs to, and refused as of a wrong event by any
-- other.
pub parse_sheet-export_sheet :
    (decode : Decode) (text : String) (d : Desk) (s : JudgeSession) (token : String) (now : ℕ)
    (f : SheetFile) (event_id : String)
    → d.state.session ≡ some s
    → export_sheet token now d ≡ some f
    → IsTextOf decode text f
    → parse_sheet decode text event_id
      ≡ (if str_eq s.event.id event_id then parsed f else wrong_event)
unfolding export_sheet export_session
parse_sheet-export_sheet decode text d s token now f event_id here e read =
    let comparisons = exported_comparisons s.event.scoring_mode d.state.comparisons in
    let made : build_sheet s token d.state.rows now comparisons ≡ f =
      some_injective (sym (ap (λ o. export_session o token now d) here) ∙ e) in
    subst
      (λ g.
        parse_sheet decode text event_id
        ≡ (if str_eq s.event.id event_id then parsed g else wrong_event))
      made
      (built_for decode text s token d.state.rows now comparisons event_id
        (subst (IsTextOf decode text) (sym made) read))
