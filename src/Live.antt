-- ===== src/Live.antt =====
-- web/src/features/live/index.tsx and web/src/features/stage/index.tsx: when the public board and the
-- stage's screen fetch again. `useQuery` and the timers are the caller's.
use platform_for_sudies.Common.{
  ℕ, suc, Bool, true, false, not, ◌&&◌, ◌||◌, Option, none, some, if◌then◌else◌, ltb, ◌==◌,
}
use platform_for_sudies.Api.{
  ChangeKind, scores, status, event, composition, alert, judges, presence, stage,
}

-- The public board, and the screen of the stage.
pub data Board : Type 0 where
  live_board stage_screen : Board

-- `LIVE_KINDS` and `STAGE_KINDS`
abbrev pub concerns : Board → ChangeKind → Bool
concerns live_board scores = true
concerns stage_screen scores = false
concerns b status = true
concerns b event = true
concerns b composition = true
concerns b stage = true
concerns b alert = false
concerns b judges = false
concerns b presence = false

-- `REFETCH_DEBOUNCE_MS`
abbrev pub debounce_ms : Board → ℕ
debounce_ms live_board = 500
debounce_ms stage_screen = 200

-- Another try of a failed fetch: the number of failures so far, and the status of the failure.
unfoldable pub retries : ℕ → Option ℕ → Bool
retries count none = ltb count 2
retries count (some code) = not (code == 404 || code == 400) && ltb count 2

-- `refetchInterval`; none is `false`.
unfoldable pub refetch_interval : Board → Bool → Bool → Option ℕ
refetch_interval live_board has_data stream_open =
    if has_data then (if stream_open then none else some 15000) else some 30000
refetch_interval stage_screen has_data stream_open = if has_data then some 30000 else some 15000

-- `streamOpen`, the armed timer of a fetch, and how many fetches were asked for at once.
pub record Watch : Type 0 where
  pub stream_open : Bool
  pub armed : Bool
  pub fetches : ℕ

unfoldable pub on_change : Board → ChangeKind → Watch → Watch
on_change b kind w = if concerns b kind then record w { armed = true } else w

-- The board fetches at once after a reconnect, the stage's screen when the timer is up.
unfoldable pub on_open : Board → Bool → Watch → Watch
on_open live_board reconnect w =
    let w' : Watch = record w { stream_open = true } in
    if reconnect then record w' { fetches = suc w'.fetches } else w'
on_open stage_screen reconnect w = if reconnect then record w { armed = true } else w

unfoldable pub on_error : Board → Watch → Watch
on_error live_board w = record w { stream_open = false }
on_error stage_screen w = w
