-- ===== src/MonteCarlo.antt =====
-- sem_4/homework/src/calculate.c: an integral from random points, which threads count.
pub mod Points
pub mod Threads
pub mod Counter
mod Tests
