-- ===== src/Tasks/DagTests.antt =====
-- A graph of two tasks, and the theorem on its solver at a run on it.
use wt_lab_efficient_paral.Common.{ℕ, suc, ◌≡◌, ◌≢◌, refl, true, false, [], ◌∷◌, some, arith}
use wt_lab_efficient_paral.Queues.MutexStdQueue.{push}
use wt_lab_efficient_paral.Tasks.Solver.{done_task}
use wt_lab_efficient_paral.Tasks.Tree.{worked, parent_not_worked}
use wt_lab_efficient_paral.Tasks.Dag.{
  DagTask, incoming, outgoing, parents_loop, work, evaluate, test_graph_structure, structure_loop,
}
use wt_lab_efficient_paral.Tasks.DagSolver.{
  System, Reach, here, later, pick, pops, starts_work, not_done, returned, threw,
}
use wt_lab_efficient_paral.Tasks.DagSolver.Order.{IsOrdered}
use wt_lab_efficient_paral.Tasks.DagSolver.Safety.{dag_solver_correct}

-- Node 0 is the parent of node 1.
abbrev two_nodes : DagTask
two_nodes = record {
  n = 2;
  nodes = 0 ∷ 1 ∷ 1 ∷ [];
  reverse_nodes = 0 ∷ 0 ∷ 1 ∷ [];
  work_amount = 3 ∷ 3 ∷ [];
  edges = 1 ∷ [];
  parent = 0 ∷ [];
}

structure_holds : test_graph_structure two_nodes 1 ≡ some true
unfolding test_graph_structure structure_loop incoming outgoing
structure_holds = refl

work_second : work two_nodes 1 (true ∷ false ∷ []) ≡ some (worked [] (true ∷ true ∷ []))
unfolding work incoming parents_loop
work_second = refl

work_early : work two_nodes 1 (false ∷ false ∷ []) ≡ some parent_not_worked
unfolding work incoming parents_loop
work_early = refl

root_no_message : suc 0 ≢ done_task
root_no_message e = omega arith

-- Thread 0 has begun the work on the root.
dag_run : (s : System) × Reach two_nodes 2 s
unfolding push incoming
dag_run =
    let r1 = later here (pick 0 (omega arith) (pops refl root_no_message refl)) in
    let r2 = later r1 (pick 0 (omega arith) starts_work) in
    (_, later r2 (pick 0 (omega arith) (not_done refl refl)))

dag_solver_correct_example :
    ((i : ℕ) → dag_run.0.pc i ≢ threw)
    × IsOrdered two_nodes dag_run.0.mem.done
    × ((i : ℕ) → dag_run.0.pc i ≡ returned → evaluate two_nodes dag_run.0.mem.done ≡ some true)
dag_solver_correct_example =
    dag_solver_correct two_nodes (omega arith) (omega arith) 2 dag_run.0 dag_run.1
