-- ===== src/Connectivity.antt =====
-- exercise3: dynamic connectivity by union-find.
pub mod Joined
pub mod Concurrent
pub mod Components
pub mod Sequential
pub mod Locked
mod Tests
