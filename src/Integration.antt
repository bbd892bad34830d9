-- ===== src/Integration.antt =====
-- task_8/homework: an integral computed by the Monte Carlo method on servers that are found by a UDP
-- broadcast. The client gives each server a strip of the plane and adds up the answers.
pub mod Floats
pub mod Messages
pub mod RoundTrip
pub mod Discovery
pub mod Found
pub mod Exchange
pub mod Answer
pub mod Strips
pub mod Points
pub mod Whole
mod Tests
