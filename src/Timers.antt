-- ===== src/Timers.antt =====
-- The timers of a loop: the ordered sets, the queue, and what its operations keep.
pub mod Sets
pub mod Queue
pub mod Sound
pub mod Erase
pub mod Calls
pub mod Expiry
pub mod Reset
pub mod Round
pub mod Delay
mod Tests
