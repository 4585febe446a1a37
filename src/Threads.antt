-- ===== src/Threads.antt =====
-- The thread pool of src/threads/thread_pool.c.
pub mod Life
pub mod Pool
pub mod Progress
pub mod Queue
pub mod Rounds
pub mod Schedule
pub mod Start
pub mod Program
pub mod Tests
pub mod UnitTests
