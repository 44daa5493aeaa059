-- ===== src/Pq.antt =====
-- exercise1/pq and exercise2: the priority queues.
pub mod AlignedVector
pub mod Tree
pub mod Order
pub mod PriQueueA
pub mod Heap
pub mod PriQueueC
pub mod PriQueueD
pub mod IndexedPriorityQueue
pub mod PriQueueB
mod Tests
mod HandleTests
