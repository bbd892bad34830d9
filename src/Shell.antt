-- ===== src/Shell.antt =====
-- The shell of sem_1/homework.
pub mod Parser
pub mod Launch
