-- ===== src/History/Files/Laws.antt =====
-- The tags of a text are found wherever they stand, and what is found is a trimmed path.
mod Scan
mod Found
pub use Scan.*
pub use Found.*
