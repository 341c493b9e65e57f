-- ===== src/Schedules.antt =====
-- Scheduled runs of the web server: agent/src/web/schedules.
pub mod Job
pub mod Reserve
pub mod Validation
pub mod Creation
pub mod Settle
pub mod Prompt
pub mod Dispatch
mod Tests
