-- ===== src/Signals.antt =====
-- task_5/homework: a file is copied from a parent to a child through eight chunks of shared memory.
-- A real-time signal carries the number of a chunk: SIG_PRODUCER asks the parent to fill it,
-- SIG_CONSUMER asks the child to write it out.
pub mod Handlers
pub mod System
pub mod Chunks
pub mod Integrity
mod Tests
