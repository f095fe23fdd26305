-- ===== src/Desk/ReadOnly.antt =====
-- What the judge can change, and when, in web/src/features/judge/controller.ts.
use platform_for_sudies.Common.{
  ℕ, String, Bool, true, false, List, [], ◌∷◌, All, values, length, filter, truthy, Option, none,
  some, ◌≡◌, ◌≢◌, refl, ◌∙◌, ap, inl, inr, lookup, arith, Option-cases,
}
use platform_for_sudies.Api.{JudgeSession, SessionJudge, Winner, judging}
use platform_for_sudies.Client.{ApiResult, reply, failed, Failure}
use platform_for_sudies.Scoring.Rows.{LocalRow, Rows}
use platform_for_sudies.Scoring.Rows.Laws.{WellKeyed}
use platform_for_sudies.Scoring.Sheet.{merge_server}
use platform_for_sudies.Scoring.Sheet.Merge.{merge_server-WellKeyed, merge_server_keeps_dirty}
use platform_for_sudies.Scoring.Sheet.Prune.{lookup-prune_outside_sheet}
use platform_for_sudies.Scoring.Status.{read_only_reason}
use platform_for_sudies.Desk.{Desk, Identity, editable, session_editable}
use platform_for_sudies.Desk.Edits.{set_score, set_note, decide_pair, score_session, note_session}
use platform_for_sudies.Desk.Session.{
  submit, submitted, rejected_count, unsent_count, refreshed_rows, Details, submit_failure,
  details_outcome, await_flush, submit_flushed, submit_answered,
}
use platform_for_sudies.Desk.Sync.{Environment}
use platform_for_sudies.Scoring.Sheets.{Cell}
use platform_for_sudies.Scoring.Guards.{error_rows, pending_count}
use platform_for_sudies.Pairwise.{error_comparisons, pending_comparisons}

-- The desk shows a session whose event is being judged and whose sheet is not submitted.
abbrev pub IsOpen : Desk → Type 0
IsOpen d =
    (s : JudgeSession) × (d.state.session ≡ some s)
    × (s.event.status ≡ judging)
    × (s.judge.submitted_at ≡ none)

editable_closed : (d : Desk) → ¬ (IsOpen d) → editable d ≡ none
unfolding editable read_only_reason
editable_closed d closed = elim (Option-cases d.state.session) [
  | inl e ↦ ap session_editable e
  | inr (s, e) ↦ ap session_editable e ∙ shut s (λ j n. closed (s, e, j, n))
]
  where
    shut :
        (s : JudgeSession)
        → ((s.event.status ≡ judging) → (s.judge.submitted_at ≡ none) → ⊥)
        → session_editable (some s) ≡ none
    shut s h = ground arith

-- Unless the event is being judged and the sheet is not submitted, a score, a note and a
-- decision leave the desk as it is.
pub edits_need_open :
    (is : Identity) (d : Desk) (team_id criterion_id item_id note id : String) (value : Option ℕ)
    (winner : Option Winner) (now : ℕ) (on_line : Bool)
    → ¬ (IsOpen d)
    → (set_score is team_id criterion_id value now d ≡ d)
      × (set_note is item_id note now d ≡ d)
      × (decide_pair is id winner now on_line d ≡ d)
unfolding set_score set_note decide_pair
edits_need_open is d team_id criterion_id item_id note id value winner now on_line closed =
    let e = editable_closed d closed in
    (
      ap (λ o. score_session is o team_id criterion_id value now d) e,
      ap (λ o. note_session is o item_id note now d) e,
      rw e,
    )

details_outcome_not_submitted :
    (ids : Option (List String)) (cells : Option (List Cell)) (e : Failure)
    → details_outcome ids cells e ≢ submitted
unfolding details_outcome
details_outcome_not_submitted (some ids) cells e h = ground arith
details_outcome_not_submitted none (some cells) e h = ground arith
details_outcome_not_submitted none none e h = ground arith

submit_failure_not_submitted :
    (e : Failure) (info : Details) (d : Desk) → (submit_failure e info d).1 ≢ submitted
unfolding submit_failure
submit_failure_not_submitted e info d h =
    ground (arith, details_outcome_not_submitted info.open_ids info.missing_cells e)

-- Everything that the desk holds has been taken by the server: no score and no decision is unsent
-- or rejected.
pub record IsSent (d : Desk) : Type 0 where
  pub rows : All (λ r. (r.dirty ≡ false) × (truthy r.error ≡ false)) (values d.state.rows)
  pub comparisons :
      All (λ c. (c.dirty ≡ false) × (truthy c.error ≡ false)) (values d.state.comparisons)

none_left :
    {A : Type 0} (p q : A → Bool) (xs : List A)
    → length (filter p xs) ≡ 0
    → length (filter q xs) ≡ 0
    → All (λ x. (p x ≡ false) × (q x ≡ false)) xs
none_left p q [] e f = tt
none_left p q (x ∷ xs) e f =
    ((ground arith, ground arith), none_left p q xs (ground arith) (ground arith))

counted-IsSent : (d : Desk) → rejected_count d ≡ 0 → unsent_count d ≡ 0 → IsSent d
unfolding rejected_count unsent_count error_rows error_comparisons pending_count pending_comparisons
counted-IsSent d e f = record {
  rows =
      none_left (λ r. r.dirty) (λ r. truthy r.error) (values d.state.rows) (omega (arith, f))
        (omega (arith, e));
  comparisons =
      none_left (λ c. c.dirty) (λ c. truthy c.error) (values d.state.comparisons) (omega (arith, f))
        (omega (arith, e));
}

-- A sheet is reported as submitted only if the desk, after the flush that comes first, holds no
-- score and no decision that is unsent or rejected, and the server accepted the submission.
pub submit_submitted :
    (is : Identity) (env : Environment) (on_line : Bool) (ahead : Desk → Desk) (release : Bool)
    (res : ApiResult SessionJudge) (info : Details) (d : Desk)
    → (submit is env on_line ahead release res info d).1 ≡ submitted
    → IsSent (await_flush is env on_line ahead d) × ((judge : SessionJudge) × (res ≡ reply judge))
unfolding submit submit_flushed submit_answered
submit_submitted is env on_line ahead release (reply judge) info d h = (
  counted-IsSent (await_flush is env on_line ahead d) (ground arith) (ground arith),
  (judge, refl),
)
submit_submitted is env on_line ahead release (failed e) info d h =
    absurd
      (ground (arith, submit_failure_not_submitted e info (await_flush is env on_line ahead d)))

-- For rows under their own keys, the merge and the pruning of a refresh keep every unsent row.
pub refreshed_rows_keeps_dirty :
    (session : JudgeSession) (rows : Rows) (k : String) (row : LocalRow)
    → WellKeyed rows
    → lookup k rows ≡ some row
    → row.dirty ≡ true
    → lookup k (refreshed_rows session rows) ≡ some row
refreshed_rows_keeps_dirty session rows k row w e d =
    let merged = merge_server rows session.scores in
    let kept = merge_server_keeps_dirty rows session.scores k row w e d in
    ground (
      arith,
      lookup-prune_outside_sheet merged session.teams session.criteria k
          (merge_server-WellKeyed rows session.scores w),
    )
