-- ===== src/Tasks/Naive.antt =====
-- exercise4/implementation/tree_solver_naive.hpp: threads that take nodes from a queue until as many were
-- claimed as the tree has. A thread makes one access to `num_work_left`, to the queue or to `done` at a
-- time, in any order with those of other threads.
pub mod Balance
pub mod Invariant
mod Progress
pub mod Ends
use wt_lab_efficient_paral.Common.{
  ℕ, zero, suc, ◌+◌, ◌<◌, ◌≡◌, Bool, true, false, List, [], ◌∷◌, ◌++◌, Option, none, some,
  get_elem?, set, update, ltb, if◌then◌else◌, ◌%◌, ◌^◌, ◌-◌,
}
use wt_lab_efficient_paral.Connectivity.Concurrent.{ℤ, pos, negsuc}
use wt_lab_efficient_paral.Queues.MutexStdQueue.{push}
use wt_lab_efficient_paral.Tasks.Tree.{TreeTask, children, fresh}

-- The conversion of a `std::size_t` to `int`, which keeps the lowest 32 bits.
abbrev pub to_int : ℕ → ℤ
to_int n =
    let bits = n % 2 ^ 32 in if ltb bits (2 ^ 31) then pos bits else negsuc (2 ^ 32 - 1 - bits)

-- `fetch_sub(1)` of a `std::atomic<int>`, which goes from the least to the greatest `int`.
abbrev pub pred : ℤ → ℤ
pred (pos zero) = negsuc zero
pred (pos (suc k)) = pos k
pred (negsuc k) = if ltb (suc k) (2 ^ 31) then negsuc (suc k) else pos (2 ^ 31 - 1)

abbrev pub IsPositive : ℤ → Type 0
IsPositive (pos zero) = ⊥
IsPositive (pos (suc k)) = Unit
IsPositive (negsuc k) = ⊥

-- What the threads share. `m_task_queue` has each node increased by 1.
pub record Memory : Type 0 where
  pub num_work_left : ℤ
  pub m_task_queue : List ℕ
  pub done : List Bool

-- Where a thread stands: in `do_work`, in `work` of a node, or in the loop that pushes its child nodes.
-- `threw` is a thread in which `work` has thrown an error.
pub data Pc : Type 0 where
  ready : Pc
  pop : Pc
  load_done : (current : ℕ) → Pc
  load_parent : (current : ℕ) → Pc
  store_done : (current : ℕ) → Pc
  push_children : (rest : List ℕ) → Pc
  returned : Pc
  threw : Pc

-- `pop` waits until the queue has an element.
pub data Move (t : TreeTask) (m : Memory) : Pc → Memory → Pc → Type 0 where
  claims :
      IsPositive m.num_work_left
      → Move t m ready (record m { num_work_left = pred m.num_work_left }) pop
  leaves :
      ¬ IsPositive m.num_work_left
      → Move t m ready (record m { num_work_left = pred m.num_work_left }) returned
  pops :
      {current : ℕ} {rest : List ℕ}
      → m.m_task_queue ≡ suc current ∷ rest
      → Move t m pop (record m { m_task_queue = rest }) (load_done current)
  is_done :
      {current : ℕ} → get_elem? m.done current ≡ some true → Move t m (load_done current) m threw
  not_done :
      {current : ℕ}
      → get_elem? m.done current ≡ some false
      → Move t m (load_done current) m (load_parent current)
  parent_not_done :
      {current parent : ℕ}
      → get_elem? t.parent current ≡ some parent
      → get_elem? m.done parent ≡ some false
      → Move t m (load_parent current) m threw
  parent_done :
      {current parent : ℕ}
      → get_elem? t.parent current ≡ some parent
      → get_elem? m.done parent ≡ some true
      → Move t m (load_parent current) m (store_done current)
  stores :
      {current : ℕ} {cs : List ℕ}
      → children t current ≡ some cs
      → Move t m
          (store_done current)
          (record m { done = set m.done current true })
          (push_children cs)
  pushes :
      {c : ℕ} {rest : List ℕ}
      → Move t m
          (push_children (c ∷ rest))
          (record m { m_task_queue = push (c + 1) m.m_task_queue })
          (push_children rest)
  pushed : Move t m (push_children []) m ready

pub record System : Type 0 where
  pub mem : Memory
  pub pc : ℕ → Pc

module _ (t : TreeTask) (num_threads : ℕ) where
  pub data Step (s : System) : System → Type 0 where
    pick :
        (i : ℕ) {m : Memory} {p : Pc}
        → i < num_threads
        → Move t s.mem (s.pc i) m p
        → Step s (record { mem = m; pc = update s.pc i p })

  -- `solve` starts with the root in the queue.
  abbrev pub start : System
  start = record {
    mem = record { num_work_left = to_int t.n; m_task_queue = push 1 []; done = fresh t };
    pc = λ i. ready;
  }

  -- The states that `k` steps reach.
  pub data Reach : ℕ → System → Type 0 where
    here : Reach 0 start
    later : {k : ℕ} {s s' : System} → Reach k s → Step s s' → Reach (k + 1) s'
