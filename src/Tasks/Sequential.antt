-- ===== src/Tasks/Sequential.antt =====
-- exercise4/implementation/tree_solver_sequential.hpp: the nodes that are still to be worked on are kept
-- on a stack.
pub mod Correct
use wt_lab_efficient_paral.Common.{
  ℕ, zero, suc, ◌+◌, Bool, List, [], ◌∷◌, Option, none, some, ◌>>=◌,
}
use wt_lab_efficient_paral.Tasks.Tree.{
  TreeTask, Outcome, already_worked, parent_not_worked, worked, work,
}

-- `task_queue`, the back first.
abbrev pub push_all : List ℕ → List ℕ → List ℕ
push_all [] task_queue = task_queue
push_all (c ∷ cs) task_queue = push_all cs (c ∷ task_queue)

-- An inner `none` stands for an error that `work` throws.
unfoldable pub solve_loop : ℕ → TreeTask → List ℕ → List Bool → Option (Option (List Bool))
unfolding work
solve_loop zero t task_queue done = none
solve_loop (suc fuel) t [] done = some (some done)
solve_loop (suc fuel) t (current ∷ task_queue) done = do
  outcome ← work t current done
  elim outcome [
    | already_worked ↦ some none
    | parent_not_worked ↦ some none
    | worked children done' ↦ solve_loop fuel t (push_all children task_queue) done'
  ]

-- Each round works on a node, so a round for each node and one for the end are enough.
unfoldable pub solve : TreeTask → List Bool → Option (Option (List Bool))
unfolding solve_loop
solve t done = solve_loop (t.n + 1) t (0 ∷ []) done
