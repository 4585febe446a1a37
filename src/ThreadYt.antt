-- ===== src/ThreadYt.antt =====
-- The programs of src/thread_yt, each on primitives of pthread.h and semaphore.h.
pub mod System
pub mod Semaphore
pub mod ProdCons
pub mod Fuel
pub mod Deadlock
pub mod Pool
pub mod Recursive
pub mod Primes
pub mod Trylock
pub mod Tests
