-- ===== src/MessageCopy.antt =====
-- sem_3/homework/src/mq_main.c: a file is copied from a parent to a child through a message queue,
-- with a flag in shared memory for the end.
pub mod System
pub mod Invariant
pub mod Moves
pub mod Safety
pub mod Early
mod Tests
