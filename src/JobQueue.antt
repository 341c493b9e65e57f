-- ===== src/JobQueue.antt =====
-- The durable job queue of the learning service: agent/src/core/learning/queue.ts and the files of
-- agent/src/core/learning/queue/. `Job` holds the records and the policy, `Disk` the directories
-- of job files, and one module each the operations of enqueue.ts, execution.ts, recovery.ts and
-- scheduling.ts.
pub mod Job
pub mod Changes
pub mod Disk
pub mod Execution
pub mod Enqueue
pub mod Invariant
pub mod Listing
pub mod Recovery
pub mod Scheduling
mod Tests
