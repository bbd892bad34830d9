-- ===== src/Duplex.antt =====
-- sem_2/homework: a parent that sends a file through one pipe to a child, which sends it back
-- through another.
pub mod Descriptors
pub mod Processes
pub mod Kept
pub mod Copy
pub mod Closed
pub mod Echo
mod Tests
