-- ===== src/Monitor.antt =====
-- task_6/homework: a daemon that watches the text files under a directory by inotify.
pub mod State
pub mod Watch
pub mod Events
pub mod Added
pub mod Queue
pub mod Diffs
pub mod Cleaning
pub mod Names
pub mod Commands
pub mod Daemon
pub mod Sleep
pub mod Changes
pub mod Settled
pub mod Again
pub mod Disk
pub mod Backups
pub mod Restore
pub mod Paths
pub mod Saved
pub mod Sampled
pub mod Restored
pub mod Patched
pub mod Search
pub mod Interactive
pub mod Lines
pub mod Counted
pub mod Returned
pub mod Kept
mod Tests
