-- ===== src/Tasks/Solver/Balance.antt =====
-- exercise4/implementation/tree_solver.hpp: each node whose parent is done stands in exactly one place, a
-- queue, a thread or `done`.
use wt_lab_efficient_paral.Common.{
  ℕ, suc, ◌+◌, ◌≤◌, ◌≡◌, ◌≢◌, Bool, List, [], ◌∷◌, some, get_elem?, arith, ◌==◌, if◌then◌else◌,
}
use wt_lab_efficient_paral.Queues.MutexStdQueue.{push}
use wt_lab_efficient_paral.Tasks.Tree.{TreeTask}
use wt_lab_efficient_paral.Tasks.Tree.Trees.{count, IsTree, bit_at, issue}
use wt_lab_efficient_paral.Tasks.Naive.Balance.{Turn}
use wt_lab_efficient_paral.Tasks.Solver.{
  done_task, Memory, Pc, Thread, ready, send_done, pop_global, popped, load_done, load_parent,
  store_done, load_elements, add_elements, push_local, push_global, give_back, returned, threw,
  Move, pops_local, claims, none_left, sends_done, sent_done, pops_global, leaves, starts, is_done,
  not_done, parent_not_done, parent_done, stores, loads_elements, adds_elements, keeps, is_full,
  none_to_keep, shares, none_to_share, gives_back, is_balanced,
}

-- How often a thread has to work on `x`, or to hand it out.
abbrev pub pc_weight : ℕ → Pc → ℕ
pc_weight x ready = 0
pc_weight x (send_done rounds) = 0
pc_weight x pop_global = 0
pc_weight x (popped current) = if x + 1 == current then 1 else 0
pc_weight x (load_done current) = if x == current then 1 else 0
pc_weight x (load_parent current) = if x == current then 1 else 0
pc_weight x (store_done current) = if x == current then 1 else 0
pc_weight x (load_elements rest) = count x rest
pc_weight x (add_elements size rest) = count x rest
pc_weight x (push_local size rest) = count x rest
pc_weight x (push_global size rest) = count x rest
pc_weight x (give_back size) = 0
pc_weight x returned = 0
pc_weight x threw = 0

abbrev pub weight : ℕ → Thread → ℕ
weight x th = pc_weight x th.pc + count (x + 1) th.local_queue

abbrev pub Active : TreeTask → List Bool → Pc → Type 0
Active t done (load_done c) = Turn t done c
Active t done (load_parent c) = Turn t done c
Active t done (store_done c) = Turn t done c
Active t done p = Unit

pub count-push :
    (e d : ℕ) (queue : List ℕ) → count e (push d queue) ≡ count e queue + (if e == d then 1 else 0)
unfolding push
count-push e d [] = ground arith
count-push e d (y ∷ queue) = omega (arith, count-push e d queue)

count-push_suc :
    (x c : ℕ) (queue : List ℕ)
    → count (x + 1) (push (c + 1) queue) ≡ count (x + 1) queue + (if x == c then 1 else 0)
count-push_suc x c queue = ground (arith, count-push (x + 1) (c + 1) queue)

popped_suc : (x c : ℕ) → pc_weight x (popped (suc c)) ≡ pc_weight x (load_done c)
popped_suc x c = ground arith

module _ (t : TreeTask) (v : IsTree t) (num_threads : ℕ) where
  pub Move-balance :
      {m m' : Memory} {th th' : Thread}
      → Move t num_threads m th m' th'
      → Active t m.done th.pc
      → (x q s s' : ℕ) → x + 1 ≢ done_task
      → get_elem? t.parent x ≡ some q
      → s' + weight x th ≡ s + weight x th'
      → count (x + 1) m.m_global_queue + s + bit_at m.done x ≡ bit_at m.done q
      → count (x + 1) m'.m_global_queue + s' + bit_at m'.done x ≡ bit_at m'.done q
  Move-balance (pops_local {current = c} {queue = r}) a x q s s' ne at_x e h = omega arith
  Move-balance (claims _) a x q s s' ne at_x e h = omega arith
  Move-balance (none_left _) a x q s s' ne at_x e h = omega arith
  Move-balance {m} sends_done a x q s s' ne at_x e h =
      ground (arith, count-push (x + 1) done_task m.m_global_queue)
  Move-balance sent_done a x q s s' ne at_x e h = omega arith
  Move-balance (pops_global {current = c} {rest = r} at_front) a x q s s' ne at_x e h =
      omega (arith, rw at_front at h)
  Move-balance (leaves {current = c} is_end) a x q s s' ne at_x e h = ground (arith, is_end)
  Move-balance (starts {current = c} _) a x q s s' ne at_x e h = omega (arith, popped_suc x c)
  Move-balance (is_done at_c) a x q s s' ne at_x e h = absurd (ground (arith, a.is_not_done))
  Move-balance (not_done _) a x q s s' ne at_x e h = omega arith
  Move-balance (parent_not_done {parent = r} at_c at_r) a x q s s' ne at_x e h =
      absurd (ground (arith, a.parent_is_done r))
  Move-balance (parent_done _ _) a x q s s' ne at_x e h = omega arith
  Move-balance {m} (stores {current = c} {cs = cs} {queue = r} at_c) a x q s s' ne at_x e h =
      issue t v m.done a.inside a.is_not_done at_c x q (count (x + 1) m.m_global_queue + s)
        (count (x + 1) m.m_global_queue + s') at_x h (omega arith)
  Move-balance loads_elements a x q s s' ne at_x e h = omega arith
  Move-balance adds_elements a x q s s' ne at_x e h = omega arith
  Move-balance (keeps {c = c} {queue = r} _) a x q s s' ne at_x e h =
      omega (arith, count-push_suc x c r)
  Move-balance (is_full _) a x q s s' ne at_x e h = omega arith
  Move-balance none_to_keep a x q s s' ne at_x e h = omega arith
  Move-balance {m} (shares {c = c}) a x q s s' ne at_x e h =
      omega (arith, count-push_suc x c m.m_global_queue)
  Move-balance none_to_share a x q s s' ne at_x e h = omega arith
  Move-balance {m} (gives_back {e = d} {queue = r} _) a x q s s' ne at_x e h =
      omega (arith, count-push (x + 1) d m.m_global_queue)
  Move-balance (is_balanced _) a x q s s' ne at_x e h = omega arith

  pub Move-inside :
      {m m' : Memory} {th th' : Thread}
      → Move t num_threads m th m' th'
      → Active t m.done th.pc
      → (x s s' : ℕ) → x + 1 ≢ done_task
      → t.n ≤ x
      → s' + weight x th ≡ s + weight x th'
      → count (x + 1) m.m_global_queue + s ≡ 0
      → count (x + 1) m'.m_global_queue + s' ≡ 0
  Move-inside (pops_local {current = c} {queue = r}) a x s s' ne out e h = omega arith
  Move-inside (claims _) a x s s' ne out e h = omega arith
  Move-inside (none_left _) a x s s' ne out e h = omega arith
  Move-inside {m} sends_done a x s s' ne out e h =
      ground (arith, count-push (x + 1) done_task m.m_global_queue)
  Move-inside sent_done a x s s' ne out e h = omega arith
  Move-inside (pops_global {current = c} {rest = r} at_front) a x s s' ne out e h =
      omega (arith, rw at_front at h)
  Move-inside (leaves {current = c} is_end) a x s s' ne out e h = ground (arith, is_end)
  Move-inside (starts {current = c} _) a x s s' ne out e h = omega (arith, popped_suc x c)
  Move-inside (is_done at_c) a x s s' ne out e h = absurd (ground (arith, a.is_not_done))
  Move-inside (not_done _) a x s s' ne out e h = omega arith
  Move-inside (parent_not_done {parent = r} at_c at_r) a x s s' ne out e h =
      absurd (ground (arith, a.parent_is_done r))
  Move-inside (parent_done _ _) a x s s' ne out e h = omega arith
  Move-inside (stores {current = c} {cs = cs} {queue = r} at_c) a x s s' ne out e h =
      omega (arith, v.inside c x cs at_c a.inside out)
  Move-inside loads_elements a x s s' ne out e h = omega arith
  Move-inside adds_elements a x s s' ne out e h = omega arith
  Move-inside (keeps {c = c} {queue = r} _) a x s s' ne out e h =
      omega (arith, count-push_suc x c r)
  Move-inside (is_full _) a x s s' ne out e h = omega arith
  Move-inside none_to_keep a x s s' ne out e h = omega arith
  Move-inside {m} (shares {c = c}) a x s s' ne out e h =
      omega (arith, count-push_suc x c m.m_global_queue)
  Move-inside none_to_share a x s s' ne out e h = omega arith
  Move-inside {m} (gives_back {e = d} {queue = r} _) a x s s' ne out e h =
      omega (arith, count-push (x + 1) d m.m_global_queue)
  Move-inside (is_balanced _) a x s s' ne out e h = omega arith
