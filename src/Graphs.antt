-- ===== src/Graphs.antt =====
-- exercise2/implementation: graph representations built from a list of edges.
pub mod EdgeList
pub mod Index
pub mod AdjArray
pub mod WeightedPaired
pub mod WeightedSeparated
pub mod AdjList
pub mod NodeGraph
mod Append
pub mod Bfs
mod Tests
