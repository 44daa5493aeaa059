-- ===== src/Tasks/Solver.antt =====
-- exercise4/implementation/tree_solver.hpp without `keep_stats`: each thread has a queue of its own beside
-- the one that all share. A thread makes one access to what is shared at a time, in any order with those
-- of other threads.
pub mod Balance
pub mod Safety
use wt_lab_efficient_paral.Common.{
  ℕ, zero, suc, ◌+◌, ◌-◌, ◌*◌, ◌/◌, ◌%◌, ◌^◌, ◌<◌, ◌≤◌, ◌≡◌, ◌≢◌, Bool, true, false, List, [], ◌∷◌,
  ◌++◌, Option, none, some, get_elem?, set, update, length, ◌==◌, if◌then◌else◌, ◌>>=◌,
}
use wt_lab_efficient_paral.Connectivity.Concurrent.{ℤ, pos, negsuc}
use wt_lab_efficient_paral.Queues.MutexStdQueue.{push}
use wt_lab_efficient_paral.Tasks.Tree.{
  TreeTask, children, fresh, Outcome, already_worked, parent_not_worked, worked, work,
}
use wt_lab_efficient_paral.Tasks.Naive.{pred, to_int, IsPositive}

-- The greatest `NodeId`.
abbrev pub done_task : ℕ
done_task = 2 ^ 32 - 1

-- `fetch_add(k)`
abbrev pub add : ℕ → ℤ → ℤ
add zero z = z
add (suc k) (pos i) = add k (pos (suc i))
add (suc k) (negsuc zero) = add k (pos zero)
add (suc k) (negsuc (suc i)) = add k (negsuc i)

-- `std::max(z, 0)`
abbrev pub clamp : ℤ → ℕ
clamp (pos i) = i
clamp (negsuc i) = 0

abbrev pub desired : (num_threads total_elements : ℕ) → ℕ
desired num_threads total_elements =
    let avg = total_elements / num_threads in if avg == 0 then 1 else avg

-- What the threads share. The queues have each node increased by 1.
pub record Memory : Type 0 where
  pub num_work_left : ℤ
  pub num_elements_in_queues : ℤ
  pub m_global_queue : List ℕ
  pub done : List Bool

-- Where a thread stands: at the choice of a queue, in `work` of a node, or where it hands out the child
-- nodes, of which its own queue is to have `size`. `threw` is a thread in which `work` has thrown an
-- error.
pub data Pc : Type 0 where
  ready : Pc
  send_done : (rounds : ℕ) → Pc
  pop_global : Pc
  popped : (current : ℕ) → Pc
  load_done : (current : ℕ) → Pc
  load_parent : (current : ℕ) → Pc
  store_done : (current : ℕ) → Pc
  load_elements : (rest : List ℕ) → Pc
  add_elements : (size : ℕ) (rest : List ℕ) → Pc
  push_local : (size : ℕ) (rest : List ℕ) → Pc
  push_global : (size : ℕ) (rest : List ℕ) → Pc
  give_back : (size : ℕ) → Pc
  returned : Pc
  threw : Pc

pub record Thread : Type 0 where
  pub local_queue : List ℕ
  pub pc : Pc

abbrev pub goto : Pc → List ℕ → Thread
goto p queue = record { local_queue = queue; pc = p }

module _ (t : TreeTask) (num_threads : ℕ) where
  pub data Move (m : Memory) : Thread → Memory → Thread → Type 0 where
    pops_local :
        {current : ℕ} {queue : List ℕ}
        → Move m
            (goto ready (current ∷ queue))
            (record m { num_work_left = pred m.num_work_left })
            (goto (popped current) queue)
    claims :
        IsPositive m.num_work_left
        → Move m
            (goto ready [])
            (record m { num_work_left = pred m.num_work_left })
            (goto pop_global [])
    none_left :
        ¬ IsPositive m.num_work_left
        → Move m
            (goto ready [])
            (record m { num_work_left = pred m.num_work_left })
            (goto (send_done num_threads) [])
    sends_done :
        {rounds : ℕ} {queue : List ℕ}
        → Move m
            (goto (send_done (suc rounds)) queue)
            (record m { m_global_queue = push done_task m.m_global_queue })
            (goto (send_done rounds) queue)
    sent_done : {queue : List ℕ} → Move m (goto (send_done zero) queue) m (goto pop_global queue)
    pops_global :
        {current : ℕ} {rest queue : List ℕ}
        → m.m_global_queue ≡ current ∷ rest
        → Move m
            (goto pop_global queue)
            (record m { m_global_queue = rest })
            (goto (popped current) queue)
    leaves :
        {current : ℕ} {queue : List ℕ}
        → current ≡ done_task
        → Move m
            (goto (popped current) queue)
            (record m { num_elements_in_queues = pred m.num_elements_in_queues })
            (goto returned queue)
    starts :
        {current : ℕ} {queue : List ℕ}
        → suc current ≢ done_task
        → Move m
            (goto (popped (suc current)) queue)
            (record m { num_elements_in_queues = pred m.num_elements_in_queues })
            (goto (load_done current) queue)
    is_done :
        {current : ℕ} {queue : List ℕ}
        → get_elem? m.done current ≡ some true
        → Move m (goto (load_done current) queue) m (goto threw queue)
    not_done :
        {current : ℕ} {queue : List ℕ}
        → get_elem? m.done current ≡ some false
        → Move m (goto (load_done current) queue) m (goto (load_parent current) queue)
    parent_not_done :
        {current parent : ℕ} {queue : List ℕ}
        → get_elem? t.parent current ≡ some parent
        → get_elem? m.done parent ≡ some false
        → Move m (goto (load_parent current) queue) m (goto threw queue)
    parent_done :
        {current parent : ℕ} {queue : List ℕ}
        → get_elem? t.parent current ≡ some parent
        → get_elem? m.done parent ≡ some true
        → Move m (goto (load_parent current) queue) m (goto (store_done current) queue)
    stores :
        {current : ℕ} {cs queue : List ℕ}
        → children t current ≡ some cs
        → Move m
            (goto (store_done current) queue)
            (record m { done = set m.done current true })
            (goto (load_elements cs) queue)
    loads_elements :
        {rest queue : List ℕ}
        → Move m (goto (load_elements rest) queue) m (
            goto
              (add_elements
                (desired num_threads (clamp m.num_elements_in_queues + length rest))
                rest)
              queue)
    adds_elements :
        {size : ℕ} {rest queue : List ℕ}
        → Move m
            (goto (add_elements size rest) queue)
            (record m { num_elements_in_queues = add (length rest) m.num_elements_in_queues })
            (goto (push_local size rest) queue)
    keeps :
        {size c : ℕ} {rest queue : List ℕ}
        → length queue < size
        → Move m
            (goto (push_local size (c ∷ rest)) queue)
            m
            (goto (push_local size rest) (push (c + 1) queue))
    is_full :
        {size : ℕ} {rest queue : List ℕ}
        → size ≤ length queue
        → Move m (goto (push_local size rest) queue) m (goto (push_global size rest) queue)
    none_to_keep :
        {size : ℕ} {queue : List ℕ}
        → Move m (goto (push_local size []) queue) m (goto (push_global size []) queue)
    shares :
        {size c : ℕ} {rest queue : List ℕ}
        → Move m
            (goto (push_global size (c ∷ rest)) queue)
            (record m { m_global_queue = push (c + 1) m.m_global_queue })
            (goto (push_global size rest) queue)
    none_to_share :
        {size : ℕ} {queue : List ℕ}
        → Move m (goto (push_global size []) queue) m (goto (give_back size) queue)
    gives_back :
        {size e : ℕ} {queue : List ℕ}
        → size * 3 / 2 < length (e ∷ queue)
        → Move m
            (goto (give_back size) (e ∷ queue))
            (record m { m_global_queue = push e m.m_global_queue })
            (goto (give_back size) queue)
    is_balanced :
        {size : ℕ} {queue : List ℕ}
        → length queue ≤ size * 3 / 2
        → Move m (goto (give_back size) queue) m (goto ready queue)

pub record System : Type 0 where
  pub mem : Memory
  pub thread : ℕ → Thread

module _ (t : TreeTask) (num_threads : ℕ) where
  pub data Step (s : System) : System → Type 0 where
    pick :
        (i : ℕ) {m : Memory} {th : Thread}
        → i < num_threads
        → Move t num_threads s.mem (s.thread i) m th
        → Step s (record { mem = m; thread = update s.thread i th })

  -- `solve` starts with the root in the shared queue.
  abbrev pub start : System
  start = record {
    mem = record {
      num_work_left = to_int t.n;
      num_elements_in_queues = pos 0;
      m_global_queue = push 1 [];
      done = fresh t;
    };
    thread = λ i. goto ready [];
  }

  pub data Reach : System → Type 0 where
    here : Reach start
    later : {s s' : System} → Reach s → Step s s' → Reach s'

-- What `solve` does when the threads have returned. An inner `none` stands for an error that `work`
-- throws; a node goes into the queue as it is, though it comes out less 1.
unfoldable pub final_loop : ℕ → TreeTask → List ℕ → List Bool → Option (Option (List Bool))
unfolding work
final_loop zero t queue done = none
final_loop (suc fuel) t [] done = some (some done)
final_loop (suc fuel) t (current ∷ queue) done = elim (current == done_task) [
  | true ↦ final_loop fuel t queue done
  | false ↦ (do
    outcome ← work t ((current + (2 ^ 32 - 1)) % 2 ^ 32) done
    elim outcome [
      | already_worked ↦ some none
      | parent_not_worked ↦ some none
      | worked next done' ↦ final_loop fuel t (queue ++ next) done'
    ])
]
