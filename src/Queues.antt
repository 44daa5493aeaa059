-- ===== src/Queues.antt =====
-- exercise4/implementation: the queues and the container that the solvers take their tasks from.
pub mod ConcurrentQueue
pub mod ConcurrentContainer
pub mod CasElement
pub mod MutexStdQueue
mod Tests
