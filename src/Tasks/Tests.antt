-- ===== src/Tasks/Tests.antt =====
-- A tree of two tasks, and the theorems on the solvers at runs on it.
use wt_lab_efficient_paral.Common.{
  ℕ, inl, inr, if◌then◌else◌, ◌==◌, zero, suc, ◌+◌, ◌≤◌, ◌<◌, ◌≡◌, ◌≢◌, ◌⊎◌, refl, true, false,
  List, [], ◌∷◌, some, arith, Ends, get_elem?,
}
use wt_lab_efficient_paral.Queues.MutexStdQueue.{push}
use wt_lab_efficient_paral.Tasks.Tree.{TreeTask, children, evaluate, fresh}
use wt_lab_efficient_paral.Tasks.Tree.Trees.{count, IsTree, Under, root, below}
use wt_lab_efficient_paral.Tasks.Sequential.{solve}
use wt_lab_efficient_paral.Tasks.Sequential.Correct.{solve_correct}
use wt_lab_efficient_paral.Tasks.Solver
use wt_lab_efficient_paral.Tasks.Solver.Safety.{tree_solver_safe}
use wt_lab_efficient_paral.Tasks.Naive.{
  System, Step, Reach, here, later, pick, claims, pops, returned, threw,
}
use wt_lab_efficient_paral.Tasks.Naive.Ends.{most_steps, naive_solves}

-- Node 1 is the child of the root 0.
abbrev two_tasks : TreeTask
two_tasks = record {
  n = 2;
  nodes = 0 ∷ 1 ∷ 1 ∷ [];
  work_amount = 5 ∷ 7 ∷ [];
  edges = 1 ∷ 0 ∷ [];
  parent = 2 ∷ 0 ∷ [];
}

two_tasks-Under : (x : ℕ) → x < 2 → Under two_tasks x
two_tasks-Under zero h = root refl
two_tasks-Under (suc zero) h = below refl (root refl)
two_tasks-Under (suc (suc x)) h = absurd (omega arith)

two_tasks_parent :
    (x q : ℕ) → get_elem? two_tasks.parent x ≡ some q → ((x ≡ 0) × (q ≡ 2)) ⊎ ((x ≡ 1) × (q ≡ 0))
two_tasks_parent zero q e = inl (refl, ground arith)
two_tasks_parent (suc zero) q e = inr (refl, ground arith)
two_tasks_parent (suc (suc x)) q e = cc

two_tasks_row : (p : ℕ) → p < 2 → children two_tasks p ≡ some (if p == 0 then 1 ∷ [] else [])
unfolding children
two_tasks_row zero h = refl
two_tasks_row (suc zero) h = refl
two_tasks_row (suc (suc p)) h = absurd (omega arith)

two_tasks_count :
    (p x : ℕ) (cs : List ℕ)
    → children two_tasks p ≡ some cs
    → p < 2
    → count x cs ≡ (if p == 0 then if x == 1 then 1 else 0 else 0)
two_tasks_count p x cs at_p h =
    let same : cs ≡ (if p == 0 then 1 ∷ [] else []) = cc (two_tasks_row p h) in
    rw same (ground arith)

two_tasks-IsTree : IsTree two_tasks
two_tasks-IsTree = record {
  root_parent = refl;
  only_root = λ x e. ground (arith, two_tasks_parent x 2 e);
  parents = λ x p e. ground (arith, two_tasks_parent x p e);
  size = refl;
  under = two_tasks-Under;
  rows = λ p h. (_, two_tasks_row p h);
  once = λ p x q cs at_p h e. ground (arith, two_tasks_parent x q e, two_tasks_count p x cs at_p h);
  inside = λ p x cs at_p h out. ground (arith, two_tasks_count p x cs at_p h);
}

solve_correct_example :
    Ends
      (λ result. Ends (λ done. evaluate two_tasks done ≡ some true) result)
      (solve two_tasks (fresh two_tasks))
solve_correct_example = solve_correct two_tasks two_tasks-IsTree

-- One of two threads has claimed a node and taken the root from the queue.
naive_run : (s : System) × Reach two_tasks 2 2 s
unfolding push
naive_run =
    (_, later (later here (pick 0 (omega arith) (claims tt))) (pick 0 (omega arith) (pops refl)))

naive_solves_example :
    (2 ≤ most_steps two_tasks 2)
    × ((i : ℕ) → naive_run.0.pc i ≢ threw)
    × (((s : System) × Step two_tasks 2 naive_run.0 s)
        ⊎ (((i : ℕ) → i < 2 → naive_run.0.pc i ≡ returned)
            × (evaluate two_tasks naive_run.0.mem.done ≡ some true)))
naive_solves_example =
    naive_solves two_tasks two_tasks-IsTree 2 (omega arith) (omega arith) 2 naive_run.0 naive_run.1
      (omega arith)

-- One of two threads has claimed a node.
solver_run : (s : Solver.System) × Solver.Reach two_tasks 2 s
solver_run = (_, Solver.later Solver.here (Solver.pick 0 (omega arith) (Solver.claims tt)))

tree_solver_safe_example :
    ((i : ℕ) → (solver_run.0.thread i).pc ≢ Solver.threw)
    × ((x q : ℕ)
        → get_elem? two_tasks.parent x ≡ some q
        → 0 < count (x + 1) solver_run.0.mem.m_global_queue
        → (get_elem? solver_run.0.mem.done x ≡ some false)
          × (get_elem? solver_run.0.mem.done q ≡ some true))
tree_solver_safe_example =
    tree_solver_safe two_tasks two_tasks-IsTree (omega arith) 2 solver_run.0 solver_run.1
