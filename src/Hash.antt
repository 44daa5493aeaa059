-- ===== src/Hash.antt =====
-- exercise1/hash: the hash tables with linear probing.
pub mod HashA
pub mod HashB
mod Tests
