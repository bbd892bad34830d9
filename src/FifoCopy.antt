-- ===== src/FifoCopy.antt =====
-- sem_3/homework/src/fifo_main.c: a file is copied from a parent to a child through a FIFO.
pub mod System
pub mod Invariant
pub mod Safety
mod Tests
