-- ===== src/SharedCopy.antt =====
-- sem_3/homework/src/shm_main.c: a file is copied from a parent to a child through one buffer of
-- shared memory, with a semaphore for each direction.
pub mod System
pub mod Invariant
pub mod ParentMoves
pub mod ChildMoves
pub mod Safety
mod Tests
