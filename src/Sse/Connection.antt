-- ===== src/Sse/Connection.antt =====
-- `openStream` of web/src/api/sse.ts: the loop that connects, reads and connects again. What `fetch`
-- and the reader give at each attempt is an argument.
pub mod Laws
use platform_for_sudies.Common.{
  ℕ, zero, suc, ◌+◌, ◌-◌, ◌*◌, ◌^◌, ◌≤◌, min, String, Bool, true, false, Option, none, some, List,
  [], ◌∷◌, ◌++◌, map, any, if◌then◌else◌, ◌==◌, All, ◌≡◌, refl, ap, ◌∙◌, arith, Bool-cases, inl,
  inr, if-elim,
}
use platform_for_sudies.Api.{ChangeKind}
use platform_for_sudies.Sse.{Parser, ParsedSseMessage, new_parser, parse_change_kind, push}
use platform_for_sudies.Sse.Chunks.{push_all, joined, push_all_lem}

-- `opts.fatalStatuses ?? [401, 403, 404]`
abbrev pub default_fatal : List ℕ
default_fatal = 401 ∷ 403 ∷ 404 ∷ []

-- The variables of the loop; `closed` once it has returned.
pub record Connection : Type 0 where
  pub attempt : ℕ
  pub opened : Bool
  pub closed : Bool

abbrev pub new_connection : Connection
new_connection = record { attempt = 0; opened = false; closed = false }

-- How the reading of the body ends.
pub data Ending : Type 0 where
  done broken cut_off : Ending

-- One attempt: a response that is not read, a body in decoded chunks, a failed fetch, or one that
-- `close` aborted.
pub data Answer : Type 0 where
  refused : ℕ → Answer
  connected : List String → Ending → Answer
  unreachable : Answer
  aborted : Answer

pub data Notice : Type 0 where
  on_open : Bool → Notice
  on_change : ChangeKind → Notice
  on_error : Notice

-- The wait before the next attempt, in milliseconds and without the random part.
pub record Attempted : Type 0 where
  pub connection : Connection
  pub notices : List Notice
  pub wait : Option ℕ

unfoldable pub backoff : ℕ → ℕ
backoff attempt = min 30000 (1000 * 2 ^ (attempt - 1))

-- The end of a round: `attempt += 1` and the sleep.
unfoldable pub again : Connection → List Notice → Attempted
again c notices = record {
  connection = record c { attempt = c.attempt + 1 };
  notices = notices;
  wait = some (backoff (c.attempt + 1));
}

unfoldable pub close : Connection → List Notice → Attempted
close c notices = record { connection = record c { closed = true }; notices = notices; wait = none }

module _ (fatal : List ℕ) (json_kind : String → Option String) where
  -- The kinds that are told for the messages of a stream.
  unfoldable pub changes : List ParsedSseMessage → List Notice
  changes [] = []
  changes (m ∷ ms) = elim (parse_change_kind json_kind m) [
    | none ↦ changes ms
    | some kind ↦ on_change kind ∷ changes ms
  ]

  unfoldable pub read_body : List String → List Notice
  read_body chunks = changes (push_all chunks new_parser).out

  unfoldable pub finish : Ending → Connection → List Notice → Attempted
  finish done c notices = again c notices
  finish broken c notices = again c (notices ++ on_error ∷ [])
  finish cut_off c notices = close c notices

  unfoldable pub attempt_once : Answer → Connection → Attempted
  attempt_once (refused status) c =
      if any (λ s. s == status) fatal then close c (on_error ∷ []) else again c (on_error ∷ [])
  attempt_once (connected chunks ending) c =
      finish ending (record c { attempt = 0; opened = true }) (on_open c.opened ∷ read_body chunks)
  attempt_once unreachable c = again c (on_error ∷ [])
  attempt_once aborted c = close c []

  -- `run`, one attempt after another until it returns.
  unfoldable pub run : List Answer → Connection → List Attempted
  run [] c = []
  run (a ∷ as_) c =
      let now = attempt_once a c in
      if now.connection.closed then now ∷ [] else now ∷ run as_ now.connection
