-- ===== src/Scoring/Status.antt =====
-- web/src/features/judge/scoring.ts: when the judge may edit, and the sync indicator.
use platform_for_sudies.Common.{
  ℕ, String, Bool, true, false, not, ◌&&◌, Option, none, some, if◌then◌else◌, is_some, ltb, truthy,
  ◌≡◌, ◌↔◌, arith,
}
use platform_for_sudies.Api.{EventStatus, judging, JudgeSession}
use platform_for_sudies.Scoring.Guards.{is_judging}

-- The keys of `judgeText.readOnly`.
pub data ReadOnly : Type 0 where
  by_status : EventStatus → ReadOnly
  submitted : ReadOnly

unfoldable pub read_only_reason : EventStatus → Option ℕ → Option ReadOnly
read_only_reason status submitted_at =
    if not (is_judging status)
    then some (by_status status)
    else if is_some submitted_at
    then some submitted
    else none

unfoldable pub can_unsubmit : JudgeSession → Bool
can_unsubmit session = is_judging session.event.status && is_some session.judge.submitted_at

pub data IndicatorKind : Type 0 where
  local syncing synced offline error : IndicatorKind

pub record SyncState : Type 0 where
  pub online : Bool
  pub is_syncing : Bool
  pub pending : ℕ
  pub rejected : ℕ
  pub sync_error : Option String

-- The kind of the indicator; its text is the message of the kind.
unfoldable pub sync_indicator : SyncState → IndicatorKind
sync_indicator s =
    if ltb 0 s.rejected
    then error
    else if not s.online
    then offline
    else if truthy s.sync_error
    then error
    else if s.is_syncing
    then syncing
    else if ltb 0 s.pending
    then local
    else synced

-- The judge may edit exactly while the event is being judged and the sheet is not submitted.
pub read_only_reason_iff :
    (status : EventStatus) (submitted_at : Option ℕ)
    → (read_only_reason status submitted_at ≡ none) ↔ ((status ≡ judging) × (submitted_at ≡ none))
unfolding read_only_reason
read_only_reason_iff status submitted_at = ground arith

-- The indicator says that all is synced exactly when the device is online and nothing is pending,
-- in flight, rejected or failing.
pub sync_indicator_synced_iff :
    (s : SyncState)
    → (sync_indicator s ≡ synced) ↔ (
        (s.online ≡ true)
        × (s.is_syncing ≡ false)
        × (s.pending ≡ 0)
        × (s.rejected ≡ 0)
        × (truthy s.sync_error ≡ false))
unfolding sync_indicator
sync_indicator_synced_iff s = ground arith
