-- ===== src/Tasks/DagSolver/Balance.antt =====
-- exercise4/implementation/dag_solver.hpp: a node whose state is not `initial` stands in exactly one
-- place, the queue, a thread or `done`.
use wt_lab_efficient_paral.Common.{
  ℕ, ◌⊎◌, inl, inr, ◌+◌, ◌<◌, ◌≡◌, ◌≢◌, Bool, true, false, List, Option, none, some, get_elem?, set,
  length, arith, ◌==◌, if◌then◌else◌, get_elem?-set, get_elem?-lt,
}
use wt_lab_efficient_paral.Queues.MutexStdQueue.{push}
use wt_lab_efficient_paral.Tasks.Tree.Trees.{count, bit_at, bit_at-set}
use wt_lab_efficient_paral.Tasks.Solver.{done_task}
use wt_lab_efficient_paral.Tasks.Solver.Balance.{count-push}
use wt_lab_efficient_paral.Tasks.Dag.{DagTask, incoming}
use wt_lab_efficient_paral.Tasks.DagSolver.{
  NodeState, initial, in_queue, in_progress, finished, Memory, Pc, test_parents, put_back,
  load_done, load_parents, set_finished, count_down, send_done, push_child, returned, threw, Move,
  leaves, pops, parent_finished, parent_not_finished, puts_back, starts_work, is_done, not_done,
  parent_done, parent_not_done, stores, finishes, counts_last, counts, sends_done, sent_done,
  takes_child, leaves_child, pushes_child, handed_out,
}

-- Whether a thread holds the node `x`.
abbrev pub hold : ℕ → Pc → ℕ
hold x (test_parents c rest) = if x == c then 1 else 0
hold x (put_back c) = if x == c then 1 else 0
hold x (load_done c) = if x == c then 1 else 0
hold x (load_parents c rest) = if x == c then 1 else 0
hold x (push_child c rest) = if x == c then 1 else 0
hold x p = 0

-- Whether a thread has worked on a node that it has not counted yet.
abbrev pub uncounted : Pc → ℕ
uncounted (set_finished c) = 1
uncounted (count_down c) = 1
uncounted p = 0

-- 1 for a node whose state is not `initial`.
abbrev pub known : Option NodeState → ℕ
known none = 0
known (some initial) = 0
known (some s) = 1

pub record Turn (n : ℕ) (m : Memory) (c : ℕ) : Type 0 where
  pub inside : c < n
  pub is_open : get_elem? m.done c ≡ some false
  pub is_known : known (get_elem? m.m_state c) ≡ 1

abbrev pub AllDone : ℕ → List Bool → Type 0
AllDone n done = (x : ℕ) → x < n → get_elem? done x ≡ some true

abbrev pub ParentsDone : DagTask → List Bool → ℕ → Type 0
ParentsDone t done c =
    (ps : List ℕ) × (incoming t c ≡ some ps)
    × ((p : ℕ) → 0 < count p ps → get_elem? done p ≡ some true)

-- What a thread may rely on at its place, whatever the others do.
abbrev pub Fine : DagTask → List Bool → Pc → Type 0
Fine t done (test_parents c rest) =
    (c + 1 ≢ done_task)
    × (ps : List ℕ) × (incoming t c ≡ some ps)
    × ((p : ℕ) → 0 < count p ps → (0 < count p rest) ⊎ (get_elem? done p ≡ some true))
Fine t done (put_back c) = c + 1 ≢ done_task
Fine t done (load_done c) = (c + 1 ≢ done_task) × ParentsDone t done c
Fine t done (load_parents c rest) =
    (c + 1 ≢ done_task)
    × ParentsDone t done c
    × ((p : ℕ) → 0 < count p rest → get_elem? done p ≡ some true)
Fine t done (set_finished c) = (c < t.n) × (get_elem? done c ≡ some true)
Fine t done (send_done rounds c) = AllDone t.n done
Fine t done (push_child c rest) = c + 1 ≢ done_task
Fine t done returned = AllDone t.n done
Fine t done threw = ⊥
Fine t done p = Unit

-- What holds of a thread that holds a node.
abbrev pub Active : DagTask → Memory → Pc → Type 0
Active t m (test_parents c rest) = Turn t.n m c
Active t m (put_back c) = Turn t.n m c
Active t m (load_done c) = Turn t.n m c
Active t m (load_parents c rest) = Turn t.n m c
Active t m p = Unit

abbrev pub Grows : List Bool → List Bool → Type 0
Grows done done' = (x : ℕ) → get_elem? done x ≡ some true → get_elem? done' x ≡ some true

-- What a thread relies on is not lost when nodes are done.
pub Fine-Grows :
    (t : DagTask) (done done' : List Bool) (p : Pc)
    → Grows done done'
    → Fine t done p
    → Fine t done' p
Fine-Grows t done done' (test_parents c rest) g (ne, ps, e, h) =
    (ne, ps, e, λ p k. elim (h p k) [ inl later_on ↦ inl later_on | inr now ↦ inr (g p now) ])
Fine-Grows t done done' (put_back c) g f = f
Fine-Grows t done done' (load_done c) g (ne, (ps, e, h)) = (ne, (ps, e, λ p k. g p (h p k)))
Fine-Grows t done done' (load_parents c rest) g (ne, (ps, e, h), k) =
    (ne, (ps, e, λ p l. g p (h p l)), λ p l. g p (k p l))
Fine-Grows t done done' (set_finished c) g (inside, f) = (inside, g c f)
Fine-Grows t done done' (send_done rounds c) g f = λ x lt. g x (f x lt)
Fine-Grows t done done' (push_child c rest) g f = f
Fine-Grows t done done' returned g f = λ x lt. g x (f x lt)
Fine-Grows t done done' threw g f = f
Fine-Grows t done done' p g f = tt

known-set :
    (states : List NodeState) (c x : ℕ) (s : NodeState)
    → c < length states
    → known (some s) ≡ 1
    → known (get_elem? (set states c s) x) ≡ (if c == x then 1 else known (get_elem? states x))
known-set states c x s inside h = ground (arith, get_elem?-set states c x s inside)

pub push_node :
    (x c : ℕ) (queue : List ℕ)
    → count (x + 1) (push (c + 1) queue) ≡ count (x + 1) queue + (if x == c then 1 else 0)
push_node x c queue = ground (arith, count-push (x + 1) (c + 1) queue)

module _ (t : DagTask) (num_threads : ℕ) where
  pub Move-balance :
      {m m' : Memory} {p p' : Pc}
      → Move t num_threads m p m' p'
      → Active t m p
      → Fine t m.done p
      → length m.m_state ≡ t.n
      → (x s s' : ℕ) → x + 1 ≢ done_task
      → s' + hold x p ≡ s + hold x p'
      → count (x + 1) m.m_task_queue + s + bit_at m.done x ≡ known (get_elem? m.m_state x)
      → count (x + 1) m'.m_task_queue + s' + bit_at m'.done x ≡ known (get_elem? m'.m_state x)
  Move-balance (leaves {rest = r} at_front) a f size x s s' ne_x e h =
      ground (arith, rw at_front at h)
  Move-balance (pops {current = c} {rest = r} at_front ne at_c) a f size x s s' ne_x e h =
      ground (arith, rw at_front at h)
  Move-balance (parent_finished {p = p} at_p) a f size x s s' ne_x e h = omega arith
  Move-balance (parent_not_finished _ _) a f size x s s' ne_x e h = omega arith
  Move-balance {m} (puts_back {current = c}) a f size x s s' ne_x e h =
      omega (arith, push_node x c m.m_task_queue)
  Move-balance {m} (starts_work {current = c}) a f size x s s' ne_x e h =
      ground (arith, known-set m.m_state c x in_progress, a.inside, a.is_known)
  Move-balance (is_done at_c) a f size x s s' ne_x e h = absurd (ground (arith, a.is_open))
  Move-balance (not_done _ at_c) a f size x s s' ne_x e h = omega arith
  Move-balance (parent_done _) a f size x s s' ne_x e h = omega arith
  Move-balance (parent_not_done {p = p} at_p) a f size x s s' ne_x e h =
      absurd (ground (arith, f.2 p))
  Move-balance {m} (stores {current = c}) a f size x s s' ne_x e h =
      ground (arith, bit_at-set m.done c x, get_elem?-lt m.done c a.is_open, a.is_open)
  Move-balance {m} (finishes {current = c}) a f size x s s' ne_x e h =
      ground (arith, known-set m.m_state c x finished, f.0, f.1)
  Move-balance (counts_last {current = c} last) a f size x s s' ne_x e h = omega arith
  Move-balance (counts _ _) a f size x s s' ne_x e h = omega arith
  Move-balance {m} sends_done a f size x s s' ne_x e h =
      ground (arith, count-push (x + 1) done_task m.m_task_queue)
  Move-balance (sent_done _) a f size x s s' ne_x e h = omega arith
  Move-balance {m} (takes_child {c = c} at_c) a f size x s s' ne_x e h =
      ground (arith, known-set m.m_state c x in_queue, get_elem?-lt m.m_state c at_c)
  Move-balance (leaves_child _ _) a f size x s s' ne_x e h = omega arith
  Move-balance {m} (pushes_child {c = c}) a f size x s s' ne_x e h =
      omega (arith, push_node x c m.m_task_queue)
  Move-balance handed_out a f size x s s' ne_x e h = omega arith
