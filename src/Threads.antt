-- ===== src/Threads.antt =====
-- The threads of the program: the pool of event loops, the bounded queue between threads, and the
-- pool of workers.
pub mod Loops
pub mod Queue
pub mod Workers
mod Tests
