-- ===== src/Branch.antt =====
-- Branching a chat: agent/src/core/branch.ts. A message is of any type that has a role.
-- A clone of a message is the message itself here, since nothing writes to one.
pub mod Transcript
pub mod Title
mod Tests
