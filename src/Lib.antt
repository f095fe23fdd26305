-- ===== src/Lib.antt =====
-- The judge's client of the judging platform (web/src): the desk on which a judge scores teams or
-- decides pairs, offline if need be, and sends the edits to the server.
--
-- Parts and files
--   Scoring (web/src/features/judge/scoring.ts): the scores on the device. Rows: a score, an edit
--     (applyEdit, applyNote, nextEditedAt); Sheet: the merge with the server's sheet (mergeServer),
--     pruneOutsideSheet, dismissOutsideSheet; Outbox: pickBatch, buildSheet, applyResults; Guards:
--     diffRows, canOverwriteStored, adoptedWins, pickOrphanKeys, isRetryable; Sheets: missingCells,
--     itemProgress, overallProgress; Scale: scaleOf, stepValue, resolveDigit; Draft:
--     commitDraft, and parseX100 of web/src/lib/format.ts; Status: readOnlyReason, syncIndicator.
--   Pairwise (web/src/features/judge/pairwise.ts): the pairs of a pairwise event. Merge:
--     mergeComparisons, addReserved; Outbox: pickComparisonBatch, applyComparisonResults,
--     diffComparisons; the decisions and the pair on the screen in the module itself.
--   Storage (web/src/features/judge/storage.ts): the device. Rows and Pairs: writeRows and
--     writeComparisons; Adoption: adoptOrphans, loadDesk, saveSession, forgetDesk.
--   Desk (web/src/features/judge/controller.ts): the controller, which holds the rows and the pairs,
--     calls the parts above and the server, and queues what it writes to the device. Edits: what the
--     judge does; Sync: doFlush and flushComparisons; Session: refresh, adoption, reservation,
--     submission; InFlight: the steps that may happen while a request is in flight; Lifecycle: start,
--     boot, stop and the events of the browser and of the change stream; Queue: which jobs wait;
--     Failures: what a failed request leaves; Drain: a flush over many passes; Keys: the keys of the
--     rows over whole runs; Refresh: a refresh with the adoption of edits. The steps of Queue are the
--     parts between which the source awaits something; what the queue does ahead of the flush of a
--     submission is an argument of submit.
--   Screen (web/src/features/judge): what the judge sees and presses. Navigation (desk.tsx): the queue
--     and its lines; Hotkeys (hotkeys.tsx): the keys; ScoreField (score-input.tsx): the field of a
--     numeric scale; PairDesk (pairwise-desk.tsx): the pair on the screen; SubmitDialog
--     (submit-dialog.tsx): what stands in the way of submitting; Root (index.tsx, screens.tsx): which
--     screen the judge sees.
--   ControlRoom (web/src/features/control-room/lib.ts): the organizer's calculations; Paste: the
--     pasted lists. In the same folder of the source: Distribution (distribution.tsx): the grid of
--     assignments and conflicts; SheetImport (sheet-import.tsx): a backup that is read; NextRound
--     (next-round.tsx) and Criteria (setup.tsx): two dialogs; Templates (templates.ts): the presets;
--     StageControl (stage.tsx): the keys that reveal the places; AutoAssign
--     (distribution.tsx): the automatic assignment;
--     Board (web/src/lib/ranking.ts and the counts of results.tsx, judges.tsx and overview.tsx).
--   Stage (web/src/features/stage/lib.ts): the places on the stage's screen. Live
--     (web/src/features/live/index.tsx, web/src/features/stage/index.tsx): when the public screens
--     fetch again.
--   Format (web/src/lib/format.ts): formatX100. A number is printed on as much fuel as its value,
--     which is at least its number of digits less one.
--   Client (web/src/api/client.ts, web/src/lib/errors.ts): failed requests and their messages.
--   Sse (web/src/api/sse.ts): the parser of the change stream. Its loop runs on as much fuel as the
--     buffer has characters, and each round takes at least one. Lines and
--     Chunks: how the parser reads a text in pieces. Connection: openStream, one attempt after another
--     over the answers that the server gives, which are an argument.
--   Api (web/src/api/types.ts): the payloads, one record for each interface.
--   Tracks (web/src/lib/tracks.ts): tracks, and which judge works on which team. Partition:
--     the groups together.
--   I18n (web/src/i18n/judge.ts): the messages that the logic stores or compares.
--   Common: lists, options, texts, dictionaries, stable sorting. Examples: runs on concrete data.
--
-- Conventions
--   Numbers of the source that are counters, times and hundredths are natural numbers; they stay
--     below 2^53, where a number of the source is exact. `null`, `undefined` and a missing field are
--     `none`. A score of a ranking may be negative and is an integer.
--   An object used as a map is a dictionary in the order of insertion; keys that a map has are
--     non-numeric identifiers, for which the source's objects have that order too.
--   Rows are compared by identity in diffRows and diffComparisons: which equal rows are one object is
--     the parameter `same` (or an `Identity`), of which a proof may assume that it holds of equal
--     rows only.
--   IndexedDB is a `Table`: get, put, delete and an index, with their documented laws. A transaction
--     runs as one step.
--   The server and the clock are arguments: `Environment` says, for each pass of the loops in doFlush
--     and flushComparisons, what happened to the desk while the request was in flight and what the
--     server answered. The loops have the source's own bound of 20 passes, and a batch has 100 items.
--   Timers are flags that say whether they are armed, the promise queue is a list of jobs.
--   The markup of the pages, the service worker, notifications, dates in the words of a locale and the
--     server itself are not modelled: they hold no logic of the client's state, or are another
--     program. Of the setup page, only the dialog of a criterion is; the remaining pages of the
--     administration are forms around single requests.
pub mod Common
pub mod Api
pub mod Tracks
pub mod I18n
pub mod Scoring
pub mod Format
pub mod Storage
pub mod Pairwise
pub mod Client
pub mod Desk
pub mod ControlRoom
pub mod Stage
pub mod Sse
pub mod Screen
pub mod Live
pub mod Examples
