-- ===== src/History.antt =====
-- Keeping a chat within the context window of the model: agent/src/core/history.ts with
-- history-tokens.ts and history-recent.ts of the same directory.
pub mod Messages
pub mod Recent
pub mod Fit
pub mod Checkpoints
pub mod Files
mod Tests
