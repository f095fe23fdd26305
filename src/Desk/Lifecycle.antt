-- ===== src/Desk/Lifecycle.antt =====
-- Starting, booting and stopping the desk of web/src/features/judge/controller.ts, and what it does
-- on events of the browser and of the change stream.
use platform_for_sudies.Common.{
  ℕ, ◌+◌, String, Bool, true, false, not, ◌&&◌, Option, none, some, List, [], ◌∷◌, ◌==◌,
  if◌then◌else◌, insert, ◌≡◌, refl, arith,
}
use platform_for_sudies.Api.{
  JudgeSession, ChangeKind, scores, status, event, composition, alert, judges, presence, stage,
}
use platform_for_sudies.Scoring.Rows.{LocalRow, Rows, cell_key}
use platform_for_sudies.Pairwise.{LocalComparison, Comparisons}
use platform_for_sudies.Desk.{Desk, DeskState, ready, no_timers, refresh, flush, schedule_refresh}

abbrev pub storage_text : String
storage_text = "Хранилище устройства недоступно — оценки не переживут перезагрузку страницы"

-- What `loadDesk` of the storage gives; `none` if it threw.
pub record Loaded : Type 0 where
  pub session : Option JudgeSession
  pub rows : List LocalRow
  pub comparisons : List LocalComparison

unfoldable pub rows_by_key : List LocalRow → Rows → Rows
rows_by_key [] m = m
rows_by_key (r ∷ rs) m = rows_by_key rs (insert (cell_key r.team_id r.criterion_id) r m)

unfoldable pub comparisons_by_id : List LocalComparison → Comparisons → Comparisons
comparisons_by_id [] m = m
comparisons_by_id (c ∷ cs) m = comparisons_by_id cs (insert c.id c m)

-- `start` up to its call of `boot`, which gets the new generation.
unfoldable pub start : Desk → Desk
start d = record d { running = true; generation = d.generation + 1 }

unfoldable pub stop : Desk → Desk
stop d = record d {
  running = false;
  generation = d.generation + 1;
  timers = no_timers;
  stream = false;
}

abbrev pub is_current : ℕ → Desk → Bool
is_current generation d = d.running && generation == d.generation

abbrev loaded_session : Option JudgeSession → DeskState → DeskState
loaded_session none st = st
loaded_session (some s) st = record st { session = some s; phase = ready; from_cache = true }

abbrev loaded_state : Loaded → DeskState → DeskState
loaded_state l st =
    loaded_session l.session
      (record st { rows = rows_by_key l.rows []; comparisons = comparisons_by_id l.comparisons [] })

-- The three parts of `boot`, each after an `await`: the device is read, the server is asked, the
-- stream and the timers start.
unfoldable pub boot_loaded : ℕ → Option Loaded → Desk → Desk
unfolding rows_by_key comparisons_by_id
boot_loaded generation none d = record d {
  state = record (d.state) { storage_error = some storage_text };
}
boot_loaded generation (some l) d =
    if is_current generation d then record d { state = loaded_state l d.state } else d

unfoldable pub boot_refresh : ℕ → Desk → Desk
boot_refresh generation d = if is_current generation d then refresh d else d

abbrev pub open_event_stream : Desk → Desk
open_event_stream d = record d { stream = true }

unfoldable pub boot_open : ℕ → Desk → Desk
boot_open generation d =
    let d' = open_event_stream d in
    if is_current generation d
    then flush (record d' { timers = record (d'.timers) { heartbeat = true } })
    else d

-- The kinds of change that do not change what a judge sees.
abbrev pub is_echo : ChangeKind → Bool
is_echo scores = true
is_echo presence = true
is_echo stage = true
is_echo status = false
is_echo event = false
is_echo composition = false
is_echo alert = false
is_echo judges = false

unfoldable pub on_change : ChangeKind → Desk → Desk
on_change kind d = if is_echo kind then d else schedule_refresh d

unfoldable pub on_open : Bool → Desk → Desk
on_open reconnect d = if not reconnect && not d.state.from_cache then d else flush (refresh d)

-- The argument says whether the server rejected the stream.
unfoldable pub on_stream_error : Bool → Desk → Desk
on_stream_error rejected d = if rejected then schedule_refresh d else d

abbrev set_online : Bool → Desk → Desk
set_online b d = record d { state = record (d.state) { online = b } }

unfoldable pub on_online : Desk → Desk
on_online d = flush (refresh (set_online true d))

unfoldable pub on_offline : Desk → Desk
on_offline d = set_online false d

unfoldable pub on_visibility : Bool → Bool → Desk → Desk
on_visibility visible on_line d = flush (if visible then refresh (set_online on_line d) else d)

-- What an outlived boot makes of what the device gave: the message of a device that cannot be read.
abbrev pub noted : Option Loaded → Desk → Desk
noted none d = record d { state = record (d.state) { storage_error = some storage_text } }
noted (some l) d = d

-- A boot that outlived its start, as the desk was stopped, or stopped and started again,
-- changes nothing, but for the message that the device cannot be read, if that is what its
-- reading gave.
pub outlived_boot :
    (d : Desk) (l : Option Loaded)
    → (boot_loaded (start d).generation l (stop (start d)) ≡ noted l (stop (start d)))
      × (boot_refresh (start d).generation (stop (start d)) ≡ stop (start d))
      × (boot_open (start d).generation (stop (start d)) ≡ stop (start d))
      × (boot_loaded (start d).generation l (start (stop (start d)))
          ≡ noted l (start (stop (start d))))
      × (boot_refresh (start d).generation (start (stop (start d))) ≡ start (stop (start d)))
      × (boot_open (start d).generation (start (stop (start d))) ≡ start (stop (start d)))
unfolding start stop boot_loaded boot_refresh boot_open
outlived_boot d none = (refl, ground arith, ground arith, refl, ground arith, ground arith)
outlived_boot d (some l) =
    (ground arith, ground arith, ground arith, ground arith, ground arith, ground arith)
