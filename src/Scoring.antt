-- ===== src/Scoring.antt =====
-- web/src/features/judge/scoring.ts, the pure logic of the Judge Desk, one child for each part.
pub mod Rows
pub mod Sheet
pub mod Outbox
pub mod Guards
pub mod Sheets
pub mod Scale
pub mod Draft
pub mod Status
