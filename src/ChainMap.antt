-- ===== src/ChainMap.antt =====
-- exercise5: hash maps over buckets that are lists.
pub mod Utils
pub mod MarkedPtr
pub mod Lists
pub mod Bucket
pub mod ListBucket
pub mod BloomFilter
pub mod HashMap
mod Tests
mod MapTests
