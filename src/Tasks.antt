-- ===== src/Tasks.antt =====
-- exercise4/implementation: the tree of tasks and the solvers that work on it.
pub mod Tree
pub mod Sequential
pub mod Naive
pub mod Solver
mod Tests
mod SolverTests
pub mod Dag
pub mod DagSolver
mod DagTests
