-- ===== src/Dreaming.antt =====
-- The consolidation of knowledge notes: agent/src/core/learning/dreaming.
pub mod Artifact
pub mod Sort
pub mod Plan
pub mod Input
pub mod Projection
mod Tests
