-- ===== src/TurnQueue.antt =====
-- The queue of turns that a chat of the web interface sends one after the other:
-- agent/web-ui/src/sessions/turn-queue.ts.
pub mod State
pub mod Actions
pub mod Events
pub mod Single
pub mod Kept
pub mod Paused
mod Tests
