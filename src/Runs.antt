-- ===== src/Runs.antt =====
-- Runs of the web server: agent/src/web/runs.
pub mod Journal
pub mod Run
pub mod History
pub mod Manager
mod Tests
