-- ===== src/Screen.antt =====
-- The judge's screen: what web/src/features/judge/*.tsx compute from the keys, the fields and the
-- clicks, without the markup.
pub mod ScoreField
pub mod Hotkeys
pub mod Navigation
pub mod PairDesk
pub mod SubmitDialog
pub mod Root
