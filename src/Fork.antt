-- ===== src/Fork.antt =====
-- fork: the process exercises of fork/.
pub mod Primes
pub mod Sieve
pub mod Xargs
pub mod Groups
mod Tests
