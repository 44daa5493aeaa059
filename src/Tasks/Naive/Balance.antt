-- ===== src/Tasks/Naive/Balance.antt =====
-- exercise4/implementation/tree_solver_naive.hpp: each node whose parent is done stands in exactly one
-- place, the queue, a thread or `done`, and the claims are those of nodes that are done and of threads
-- at work.
use wt_lab_efficient_paral.Common.{
  ℕ, zero, suc, ◌+◌, ◌≤◌, ◌<◌, ◌≡◌, refl, Bool, true, false, List, [], ◌∷◌, some, get_elem?, arith,
  ◌==◌, if◌then◌else◌, ltb, ◌%◌, ◌^◌,
}
use wt_lab_efficient_paral.Connectivity.Concurrent.{ℤ, pos, negsuc}
use wt_lab_efficient_paral.Queues.MutexStdQueue.{push}
use wt_lab_efficient_paral.Tasks.Tree.{TreeTask}
use wt_lab_efficient_paral.Tasks.Tree.Trees.{count, IsTree, bit_at, total, total-set, issue}
use wt_lab_efficient_paral.Tasks.Naive.{
  pred, to_int, IsPositive, Memory, Pc, ready, pop, load_done, load_parent, store_done,
  push_children, returned, threw, Move, claims, leaves, pops, is_done, not_done, parent_not_done,
  parent_done, stores, pushes, pushed,
}

-- How often a thread has to work on `x`, or to push it.
abbrev pub weight : ℕ → Pc → ℕ
weight x ready = 0
weight x pop = 0
weight x (load_done current) = if x == current then 1 else 0
weight x (load_parent current) = if x == current then 1 else 0
weight x (store_done current) = if x == current then 1 else 0
weight x (push_children rest) = count x rest
weight x returned = 0
weight x threw = 0

-- Whether a thread has claimed a node that is not done.
abbrev pub busy : Pc → ℕ
busy ready = 0
busy pop = 1
busy (load_done current) = 1
busy (load_parent current) = 1
busy (store_done current) = 1
busy (push_children rest) = 0
busy returned = 0
busy threw = 0

-- The claims that are left.
abbrev pub left : ℤ → ℕ
left (pos k) = k
left (negsuc k) = 0

pub left-claimed : (z : ℤ) → IsPositive z → left (pred z) + 1 ≡ left z
left-claimed (pos zero) h = absurd h
left-claimed (pos (suc k)) h = omega arith
left-claimed (negsuc k) h = absurd h

-- How far the counter is below zero.
abbrev pub below : ℤ → ℕ
below (pos k) = 0
below (negsuc k) = suc k

pub left-none :
    (z : ℤ)
    → ¬ IsPositive z
    → below z < 2 ^ 31
    → (left z ≡ 0) × (left (pred z) ≡ 0) × (below (pred z) ≡ below z + 1)
left-none (pos zero) h room = (refl, refl, refl)
left-none (pos (suc k)) h room = absurd (h tt)
left-none (negsuc k) h room = ground arith

below-claimed : (z : ℤ) → IsPositive z → below (pred z) ≡ 0
below-claimed (pos zero) h = absurd h
below-claimed (pos (suc k)) h = refl
below-claimed (negsuc k) h = absurd h

pub to_int-small : (n : ℕ) → n < 2 ^ 31 → to_int n ≡ pos n
to_int-small n h =
    let same : n % 2 ^ 32 ≡ n = omega arith in
    let test : ltb n (2 ^ 31) ≡ true = ground arith in rw (same, test) refl

-- Whether a thread has returned.
abbrev pub gone : Pc → ℕ
gone ready = 0
gone pop = 0
gone (load_done current) = 0
gone (load_parent current) = 0
gone (store_done current) = 0
gone (push_children rest) = 0
gone returned = 1
gone threw = 0

-- What a thread may rely on for the node it works on.
pub record Turn (t : TreeTask) (done : List Bool) (c : ℕ) : Type 0 where
  pub inside : c < t.n
  pub is_not_done : get_elem? done c ≡ some false
  pub parent_is_done : (q : ℕ) → get_elem? t.parent c ≡ some q → get_elem? done q ≡ some true

abbrev pub Active : TreeTask → List Bool → Pc → Type 0
Active t done ready = Unit
Active t done pop = Unit
Active t done (load_done c) = Turn t done c
Active t done (load_parent c) = Turn t done c
Active t done (store_done c) = Turn t done c
Active t done (push_children rest) = Unit
Active t done returned = Unit
Active t done threw = Unit

count-push :
    (x c : ℕ) (queue : List ℕ)
    → count (x + 1) (push (c + 1) queue) ≡ count (x + 1) queue + (if x == c then 1 else 0)
unfolding push
count-push x c [] = ground arith
count-push x c (y ∷ queue) = ground (arith, count-push x c queue)

count-front :
    (x c : ℕ) (rest : List ℕ)
    → count (x + 1) (suc c ∷ rest) ≡ count (x + 1) rest + (if x == c then 1 else 0)
count-front x c rest = ground arith

module _ (t : TreeTask) (v : IsTree t) where
  pub Move-balance :
      {m m' : Memory} {p p' : Pc}
      → Move t m p m' p'
      → Active t m.done p
      → (x q s s' : ℕ) → get_elem? t.parent x ≡ some q
      → s' + weight x p ≡ s + weight x p'
      → count (x + 1) m.m_task_queue + s + bit_at m.done x ≡ bit_at m.done q
      → count (x + 1) m'.m_task_queue + s' + bit_at m'.done x ≡ bit_at m'.done q
  Move-balance (claims _) a x q s s' at_x e h = omega arith
  Move-balance (leaves _) a x q s s' at_x e h = omega arith
  Move-balance (pops {current = c} {rest = rest} at_front) a x q s s' at_x e h =
      omega (arith, rw at_front at h, count-front x c rest)
  Move-balance (is_done h') a x q s s' at_x e h = absurd (ground (arith, a.is_not_done))
  Move-balance (not_done _) a x q s s' at_x e h = omega arith
  Move-balance (parent_not_done {parent = r} at_c at_r) a x q s s' at_x e h =
      absurd (ground (arith, a.parent_is_done r))
  Move-balance (parent_done _ _) a x q s s' at_x e h = omega arith
  Move-balance {m} (stores {current = c} {cs = cs} at_c) a x q s s' at_x e h =
      issue t v m.done a.inside a.is_not_done at_c x q (count (x + 1) m.m_task_queue + s)
        (count (x + 1) m.m_task_queue + s') at_x h (omega arith)
  Move-balance {m} (pushes {c = c} {rest = rest}) a x q s s' at_x e h =
      omega (arith, count-push x c m.m_task_queue)
  Move-balance pushed a x q s s' at_x e h = omega arith

  pub Move-inside :
      {m m' : Memory} {p p' : Pc}
      → Move t m p m' p'
      → Active t m.done p
      → (x s s' : ℕ) → t.n ≤ x
      → s' + weight x p ≡ s + weight x p'
      → count (x + 1) m.m_task_queue + s ≡ 0
      → count (x + 1) m'.m_task_queue + s' ≡ 0
  Move-inside (claims _) a x s s' out e h = omega arith
  Move-inside (leaves _) a x s s' out e h = omega arith
  Move-inside (pops {current = c} {rest = rest} at_front) a x s s' out e h =
      omega (arith, rw at_front at h, count-front x c rest)
  Move-inside (is_done h') a x s s' out e h = absurd (ground (arith, a.is_not_done))
  Move-inside (not_done _) a x s s' out e h = omega arith
  Move-inside (parent_not_done {parent = r} at_c at_r) a x s s' out e h =
      absurd (ground (arith, a.parent_is_done r))
  Move-inside (parent_done _ _) a x s s' out e h = omega arith
  Move-inside {m} (stores {current = c} {cs = cs} at_c) a x s s' out e h =
      omega (arith, v.inside c x cs at_c a.inside out)
  Move-inside {m} (pushes {c = c} {rest = rest}) a x s s' out e h =
      omega (arith, count-push x c m.m_task_queue)
  Move-inside pushed a x s s' out e h = omega arith

  pub Move-claimed :
      {m m' : Memory} {p p' : Pc}
      → Move t m p m' p'
      → Active t m.done p
      → below m.num_work_left < 2 ^ 31
      → (s s' : ℕ) → s' + busy p ≡ s + busy p'
      → left m.num_work_left + total m.done + s ≡ t.n + 1
      → left m'.num_work_left + total m'.done + s' ≡ t.n + 1
  Move-claimed {m} (claims positive) a room s s' e h =
      omega (arith, left-claimed m.num_work_left positive)
  Move-claimed {m} (leaves none_left) a room s s' e h =
      omega (arith, left-none m.num_work_left none_left room)
  Move-claimed (pops _) a room s s' e h = omega arith
  Move-claimed (is_done at_c) a room s s' e h = absurd (ground (arith, a.is_not_done))
  Move-claimed (not_done _) a room s s' e h = omega arith
  Move-claimed (parent_not_done {parent = q} at_c at_q) a room s s' e h =
      absurd (ground (arith, a.parent_is_done q))
  Move-claimed (parent_done _ _) a room s s' e h = omega arith
  Move-claimed {m} (stores {current = c} at_c) a room s s' e h =
      omega (arith, total-set m.done c a.is_not_done)
  Move-claimed pushes a room s s' e h = omega arith
  Move-claimed pushed a room s s' e h = omega arith

  -- The counter is below zero by the threads that have returned, at most.
  pub Move-below :
      {m m' : Memory} {p p' : Pc}
      → Move t m p m' p'
      → below m.num_work_left < 2 ^ 31
      → (s s' : ℕ) → s' + gone p ≡ s + gone p'
      → below m.num_work_left ≤ s
      → below m'.num_work_left ≤ s'
  Move-below {m} (claims positive) room s s' e h =
      omega (arith, below-claimed m.num_work_left positive)
  Move-below {m} (leaves none_left) room s s' e h =
      omega (arith, left-none m.num_work_left none_left room)
  Move-below (pops _) room s s' e h = omega arith
  Move-below (is_done _) room s s' e h = omega arith
  Move-below (not_done _) room s s' e h = omega arith
  Move-below (parent_not_done _ _) room s s' e h = omega arith
  Move-below (parent_done _ _) room s s' e h = omega arith
  Move-below (stores _) room s s' e h = omega arith
  Move-below pushes room s s' e h = omega arith
  Move-below pushed room s s' e h = omega arith
