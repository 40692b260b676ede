-- ===== src/Poller.antt =====
-- The pollers: which descriptors the kernel watches for a loop.
pub mod EPoll
mod Tests
