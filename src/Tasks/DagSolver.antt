-- ===== src/Tasks/DagSolver.antt =====
-- exercise4/implementation/dag_solver.hpp: threads take nodes from a shared queue, and put them back while a
-- parent is not done. A thread makes one access to what is shared at a time, in any order with those of
-- other threads.
pub mod Balance
mod Keeps
pub mod Order
pub mod Safety
use wt_lab_efficient_paral.Common.{
  ℕ, zero, suc, ◌+◌, ◌<◌, ◌≤◌, ◌≡◌, ◌≢◌, Bool, true, false, List, [], ◌∷◌, Option, some, get_elem?,
  set, update, replicate,
}
use wt_lab_efficient_paral.Connectivity.Concurrent.{ℤ, pos, negsuc}
use wt_lab_efficient_paral.Queues.MutexStdQueue.{push}
use wt_lab_efficient_paral.Tasks.Naive.{pred, to_int}
use wt_lab_efficient_paral.Tasks.Solver.{done_task}
use wt_lab_efficient_paral.Tasks.Dag.{DagTask, incoming, outgoing}

pub data NodeState : Type 0 where
  initial : NodeState
  in_queue : NodeState
  in_progress : NodeState
  finished : NodeState

-- What the threads share. `m_task_queue` has each node increased by 1.
pub record Memory : Type 0 where
  pub num_work_left : ℤ
  pub m_task_queue : List ℕ
  pub m_state : List NodeState
  pub done : List Bool

-- Whether the value that `fetch_sub(1)` gives is at most 1.
abbrev pub is_last : ℤ → Bool
is_last (pos zero) = true
is_last (pos (suc zero)) = true
is_last (pos (suc (suc k))) = false
is_last (negsuc k) = true

-- Where a thread stands: it tests the states of the parents, is in `work`, or hands out the child nodes.
-- `threw` is a thread in which `work` has thrown an error.
pub data Pc : Type 0 where
  pop : Pc
  test_parents : (current : ℕ) (rest : List ℕ) → Pc
  put_back : (current : ℕ) → Pc
  load_done : (current : ℕ) → Pc
  load_parents : (current : ℕ) (rest : List ℕ) → Pc
  set_finished : (current : ℕ) → Pc
  count_down : (current : ℕ) → Pc
  send_done : (rounds current : ℕ) → Pc
  hand_out : (rest : List ℕ) → Pc
  push_child : (child : ℕ) (rest : List ℕ) → Pc
  returned : Pc
  threw : Pc

module _ (t : DagTask) (num_threads : ℕ) where
  pub data Move (m : Memory) : Pc → Memory → Pc → Type 0 where
    leaves :
        {rest : List ℕ}
        → m.m_task_queue ≡ done_task ∷ rest
        → Move m pop (record m { m_task_queue = rest }) returned
    pops :
        {current : ℕ} {rest parents : List ℕ}
        → m.m_task_queue ≡ suc current ∷ rest
        → suc current ≢ done_task
        → incoming t current ≡ some parents
        → Move m pop (record m { m_task_queue = rest }) (test_parents current parents)
    parent_finished :
        {current p : ℕ} {rest : List ℕ}
        → get_elem? m.m_state p ≡ some finished
        → Move m (test_parents current (p ∷ rest)) m (test_parents current rest)
    parent_not_finished :
        {current p : ℕ} {rest : List ℕ} {state : NodeState}
        → get_elem? m.m_state p ≡ some state
        → state ≢ finished
        → Move m (test_parents current (p ∷ rest)) m (put_back current)
    puts_back :
        {current : ℕ}
        → Move m
            (put_back current)
            (record m { m_task_queue = push (current + 1) m.m_task_queue })
            pop
    starts_work :
        {current : ℕ}
        → Move m
            (test_parents current [])
            (record m { m_state = set m.m_state current in_progress })
            (load_done current)
    is_done :
        {current : ℕ} → get_elem? m.done current ≡ some true → Move m (load_done current) m threw
    not_done :
        {current : ℕ} {parents : List ℕ}
        → get_elem? m.done current ≡ some false
        → incoming t current ≡ some parents
        → Move m (load_done current) m (load_parents current parents)
    parent_done :
        {current p : ℕ} {rest : List ℕ}
        → get_elem? m.done p ≡ some true
        → Move m (load_parents current (p ∷ rest)) m (load_parents current rest)
    parent_not_done :
        {current p : ℕ} {rest : List ℕ}
        → get_elem? m.done p ≡ some false
        → Move m (load_parents current (p ∷ rest)) m threw
    stores :
        {current : ℕ}
        → Move m
            (load_parents current [])
            (record m { done = set m.done current true })
            (set_finished current)
    finishes :
        {current : ℕ}
        → Move m
            (set_finished current)
            (record m { m_state = set m.m_state current finished })
            (count_down current)
    counts_last :
        {current : ℕ}
        → is_last m.num_work_left ≡ true
        → Move m
            (count_down current)
            (record m { num_work_left = pred m.num_work_left })
            (send_done num_threads current)
    counts :
        {current : ℕ} {children : List ℕ}
        → is_last m.num_work_left ≡ false
        → outgoing t current ≡ some children
        → Move m
            (count_down current)
            (record m { num_work_left = pred m.num_work_left })
            (hand_out children)
    sends_done :
        {rounds current : ℕ}
        → Move m
            (send_done (suc rounds) current)
            (record m { m_task_queue = push done_task m.m_task_queue })
            (send_done rounds current)
    sent_done :
        {current : ℕ} {children : List ℕ}
        → outgoing t current ≡ some children
        → Move m (send_done zero current) m (hand_out children)
    takes_child :
        {c : ℕ} {rest : List ℕ}
        → get_elem? m.m_state c ≡ some initial
        → Move m
            (hand_out (c ∷ rest))
            (record m { m_state = set m.m_state c in_queue })
            (push_child c rest)
    leaves_child :
        {c : ℕ} {rest : List ℕ} {state : NodeState}
        → get_elem? m.m_state c ≡ some state
        → state ≢ initial
        → Move m (hand_out (c ∷ rest)) m (hand_out rest)
    pushes_child :
        {c : ℕ} {rest : List ℕ}
        → Move m
            (push_child c rest)
            (record m { m_task_queue = push (c + 1) m.m_task_queue })
            (hand_out rest)
    handed_out : Move m (hand_out []) m pop

pub record System : Type 0 where
  pub mem : Memory
  pub pc : ℕ → Pc

module _ (t : DagTask) (num_threads : ℕ) where
  pub data Step (s : System) : System → Type 0 where
    pick :
        (i : ℕ) {m : Memory} {p : Pc}
        → i < num_threads
        → Move t num_threads s.mem (s.pc i) m p
        → Step s (record { mem = m; pc = update s.pc i p })

  -- The constructor, and `solve` up to the start of the threads.
  abbrev pub start : System
  start = record {
    mem = record {
      num_work_left = to_int t.n;
      m_task_queue = push 1 [];
      m_state = set (replicate t.n initial) 0 in_queue;
      done = replicate t.n false;
    };
    pc = λ i. pop;
  }

  pub data Reach : System → Type 0 where
    here : Reach start
    later : {s s' : System} → Reach s → Step s s' → Reach s'
