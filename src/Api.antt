-- ===== src/Api.antt =====
-- The payloads of web/src/api/types.ts, grouped as the file groups them.
mod Event
mod Judge
mod Ranking
pub use Event.*
pub use Judge.*
pub use Ranking.*
