-- ===== src/Tasks/DagSolver/Keeps.antt =====
-- exercise4/implementation/dag_solver.hpp: what a step keeps.
use wt_lab_efficient_paral.Common.{
  ℕ, ◌+◌, ◌≤◌, ◌≡◌, ◌≢◌, refl, Bool, true, false, List, some, get_elem?, set, length, length-set,
  arith, get_elem?-set, get_elem?-lt,
}
use wt_lab_efficient_paral.Tasks.Tree.Trees.{count}
use wt_lab_efficient_paral.Tasks.Solver.{done_task}
use wt_lab_efficient_paral.Tasks.Solver.Balance.{count-push}
use wt_lab_efficient_paral.Tasks.Dag.{DagTask}
use wt_lab_efficient_paral.Tasks.DagSolver.{
  in_queue, in_progress, finished, Memory, Pc, Move, leaves, pops, parent_finished,
  parent_not_finished, puts_back, starts_work, is_done, not_done, parent_done, parent_not_done,
  stores, finishes, counts_last, counts, sends_done, sent_done, takes_child, leaves_child,
  pushes_child, handed_out,
}
use wt_lab_efficient_paral.Tasks.DagSolver.Balance.{hold, Fine, Active, Grows, push_node}

Grows-same : (done : List Bool) → Grows done done
Grows-same done x h = h

Grows-set :
    (done : List Bool) (c : ℕ) → get_elem? done c ≡ some false → Grows done (set done c true)
Grows-set done c e x h = ground (arith, get_elem?-set done c x true (get_elem?-lt done c e))

module _ (t : DagTask) (num_threads : ℕ) where
  pub Move-Grows :
      {m m' : Memory} {p p' : Pc}
      → Move t num_threads m p m' p'
      → Active t m p
      → Grows m.done m'.done
  Move-Grows (leaves {rest = r} at_front) a = Grows-same _
  Move-Grows (pops {current = c} {rest = r} at_front ne at_c) a = Grows-same _
  Move-Grows (parent_finished {p = p} at_p) a = Grows-same _
  Move-Grows (parent_not_finished _ _) a = Grows-same _
  Move-Grows (puts_back {current = c}) a = Grows-same _
  Move-Grows (starts_work {current = c}) a = Grows-same _
  Move-Grows (is_done at_c) a = Grows-same _
  Move-Grows (not_done _ at_c) a = Grows-same _
  Move-Grows (parent_done _) a = Grows-same _
  Move-Grows (parent_not_done {p = p} at_p) a = Grows-same _
  Move-Grows {m} (stores {current = c}) a = Grows-set m.done c a.is_open
  Move-Grows (finishes {current = c}) a = Grows-same _
  Move-Grows (counts_last {current = c} last) a = Grows-same _
  Move-Grows (counts _ _) a = Grows-same _
  Move-Grows sends_done a = Grows-same _
  Move-Grows (sent_done _) a = Grows-same _
  Move-Grows (takes_child {c = c} at_c) a = Grows-same _
  Move-Grows (leaves_child _ _) a = Grows-same _
  Move-Grows (pushes_child {c = c}) a = Grows-same _
  Move-Grows handed_out a = Grows-same _

  pub Move-inside :
      {m m' : Memory} {p p' : Pc}
      → Move t num_threads m p m' p'
      → length m.m_state ≡ t.n
      → (x s s' : ℕ) → x + 1 ≢ done_task
      → t.n ≤ x
      → s' + hold x p ≡ s + hold x p'
      → count (x + 1) m.m_task_queue + s ≡ 0
      → count (x + 1) m'.m_task_queue + s' ≡ 0
  Move-inside (leaves {rest = r} at_front) size x s s' ne_x out e h =
      ground (arith, rw at_front at h)
  Move-inside (pops {current = c} {rest = r} at_front ne at_c) size x s s' ne_x out e h =
      ground (arith, rw at_front at h)
  Move-inside (parent_finished {p = p} at_p) size x s s' ne_x out e h = omega arith
  Move-inside (parent_not_finished _ _) size x s s' ne_x out e h = omega arith
  Move-inside {m} (puts_back {current = c}) size x s s' ne_x out e h =
      omega (arith, push_node x c m.m_task_queue)
  Move-inside (starts_work {current = c}) size x s s' ne_x out e h = omega arith
  Move-inside (is_done at_c) size x s s' ne_x out e h = omega arith
  Move-inside (not_done _ at_c) size x s s' ne_x out e h = omega arith
  Move-inside (parent_done _) size x s s' ne_x out e h = omega arith
  Move-inside (parent_not_done {p = p} at_p) size x s s' ne_x out e h = omega arith
  Move-inside (stores {current = c}) size x s s' ne_x out e h = omega arith
  Move-inside (finishes {current = c}) size x s s' ne_x out e h = omega arith
  Move-inside (counts_last {current = c} last) size x s s' ne_x out e h = omega arith
  Move-inside (counts _ _) size x s s' ne_x out e h = omega arith
  Move-inside {m} sends_done size x s s' ne_x out e h =
      ground (arith, count-push (x + 1) done_task m.m_task_queue)
  Move-inside (sent_done _) size x s s' ne_x out e h = omega arith
  Move-inside {m} (takes_child {c = c} at_c) size x s s' ne_x out e h =
      ground (arith, get_elem?-lt m.m_state c at_c)
  Move-inside (leaves_child _ _) size x s s' ne_x out e h = omega arith
  Move-inside {m} (pushes_child {c = c}) size x s s' ne_x out e h =
      omega (arith, push_node x c m.m_task_queue)
  Move-inside handed_out size x s s' ne_x out e h = omega arith

  pub Move-sizes :
      {m m' : Memory} {p p' : Pc}
      → Move t num_threads m p m' p'
      → (length m'.done ≡ length m.done) × (length m'.m_state ≡ length m.m_state)
  Move-sizes (leaves {rest = r} at_front) = (refl, refl)
  Move-sizes (pops {current = c} {rest = r} at_front ne at_c) = (refl, refl)
  Move-sizes (parent_finished {p = p} at_p) = (refl, refl)
  Move-sizes (parent_not_finished _ _) = (refl, refl)
  Move-sizes (puts_back {current = c}) = (refl, refl)
  Move-sizes {m} (starts_work {current = c}) = (refl, length-set m.m_state c in_progress)
  Move-sizes (is_done at_c) = (refl, refl)
  Move-sizes (not_done _ at_c) = (refl, refl)
  Move-sizes (parent_done _) = (refl, refl)
  Move-sizes (parent_not_done {p = p} at_p) = (refl, refl)
  Move-sizes {m} (stores {current = c}) = (length-set m.done c true, refl)
  Move-sizes {m} (finishes {current = c}) = (refl, length-set m.m_state c finished)
  Move-sizes (counts_last {current = c} last) = (refl, refl)
  Move-sizes (counts _ _) = (refl, refl)
  Move-sizes sends_done = (refl, refl)
  Move-sizes (sent_done _) = (refl, refl)
  Move-sizes {m} (takes_child {c = c} at_c) = (refl, length-set m.m_state c in_queue)
  Move-sizes (leaves_child _ _) = (refl, refl)
  Move-sizes (pushes_child {c = c}) = (refl, refl)
  Move-sizes handed_out = (refl, refl)

  -- A node is finished only when it is done.
  pub Move-finished :
      {m m' : Memory} {p p' : Pc}
      → Move t num_threads m p m' p'
      → Active t m p
      → Fine t m.done p
      → length m.m_state ≡ t.n
      → ((x : ℕ) → get_elem? m.m_state x ≡ some finished → get_elem? m.done x ≡ some true)
      → (x : ℕ) → get_elem? m'.m_state x ≡ some finished
      → get_elem? m'.done x ≡ some true
  Move-finished (leaves {rest = r} at_front) a f size fin x h = fin x h
  Move-finished (pops {current = c} {rest = r} at_front ne at_c) a f size fin x h = fin x h
  Move-finished (parent_finished {p = p} at_p) a f size fin x h = fin x h
  Move-finished (parent_not_finished _ _) a f size fin x h = fin x h
  Move-finished (puts_back {current = c}) a f size fin x h = fin x h
  Move-finished {m} (starts_work {current = c}) a f size fin x h =
      ground (arith, get_elem?-set m.m_state c x in_progress, a.inside, fin x)
  Move-finished (is_done at_c) a f size fin x h = fin x h
  Move-finished (not_done _ at_c) a f size fin x h = fin x h
  Move-finished (parent_done _) a f size fin x h = fin x h
  Move-finished (parent_not_done {p = p} at_p) a f size fin x h = fin x h
  Move-finished {m} (stores {current = c}) a f size fin x h =
      Grows-set m.done c a.is_open x (fin x h)
  Move-finished {m} (finishes {current = c}) a f size fin x h =
      ground (arith, get_elem?-set m.m_state c x finished, f.0, f.1, fin x)
  Move-finished (counts_last {current = c} last) a f size fin x h = fin x h
  Move-finished (counts _ _) a f size fin x h = fin x h
  Move-finished sends_done a f size fin x h = fin x h
  Move-finished (sent_done _) a f size fin x h = fin x h
  Move-finished {m} (takes_child {c = c} at_c) a f size fin x h =
      ground (arith, get_elem?-set m.m_state c x in_queue, get_elem?-lt m.m_state c at_c, fin x)
  Move-finished (leaves_child _ _) a f size fin x h = fin x h
  Move-finished (pushes_child {c = c}) a f size fin x h = fin x h
  Move-finished handed_out a f size fin x h = fin x h
