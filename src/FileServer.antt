-- ===== src/FileServer.antt =====
-- The file server of task_7/homework: clients register on the server's FIFO, each with a pair of
-- FIFOs of its own, and ask for files.
pub mod Table
pub mod Commands
pub mod Registration
pub mod EventLoop
pub mod Transfer
pub mod Delivery
pub mod Session
pub mod Left
pub mod Cleanup
pub mod Departure
pub mod Invariant
pub mod Steps
pub mod Dispatch
pub mod Shutdown
pub mod Client
pub mod Asking
mod Tests
