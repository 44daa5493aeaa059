-- ===== src/Tasks/Naive/Invariant.antt =====
-- exercise4/implementation/tree_solver_naive.hpp: the balance in every reachable state.
use native.Mathlib.Decide.{ℕ_discrete}
use wt_lab_efficient_paral.Common.{
  ℕ, ◌^◌, ◌+◌, ◌≤◌, ◌<◌, ◌≡◌, refl, ◌∙◌, true, List, [], ◌∷◌, some, get_elem?, length, length-set,
  arith, get_elem?-set, get_elem?-lt, get_elem?-some, update, update_self, update_other, sum,
  sum-at, sum_zero, sum-update, sum-le, sum_ones,
}
use wt_lab_efficient_paral.Connectivity.Concurrent.{ℤ}
use wt_lab_efficient_paral.Queues.MutexStdQueue.{push}
use wt_lab_efficient_paral.Tasks.Tree.{TreeTask}
use wt_lab_efficient_paral.Tasks.Tree.Trees.{
  count, IsTree, bit_at, total, fresh_balance, root_inside, fresh-dummy, length-fresh, total-fresh,
}
use wt_lab_efficient_paral.Tasks.Naive.{
  Memory, Pc, ready, pop, load_done, load_parent, store_done, push_children, returned, threw, Move,
  claims, leaves, pops, is_done, not_done, parent_not_done, parent_done, stores, pushes, pushed,
  System, Step, pick, start, Reach, here, later,
}
use wt_lab_efficient_paral.Tasks.Naive.Balance.{
  weight, busy, left, Turn, Active, Move-balance, Move-inside, Move-claimed, left-none,
  left-claimed, below, gone, Move-below, to_int-small,
}

-- A thread has thrown nothing, and has returned only when no claims were left.
abbrev pub Fine : ℤ → Pc → Type 0
Fine z threw = ⊥
Fine z returned = left z ≡ 0
Fine z p = Unit

Fine-kept : (z z' : ℤ) (p : Pc) → left z' ≤ left z → Fine z p → Fine z' p
Fine-kept z z' ready le h = tt
Fine-kept z z' pop le h = tt
Fine-kept z z' (load_done c) le h = tt
Fine-kept z z' (load_parent c) le h = tt
Fine-kept z z' (store_done c) le h = tt
Fine-kept z z' (push_children rest) le h = tt
Fine-kept z z' returned le h = omega arith
Fine-kept z z' threw le h = h

count_zero-push : (c : ℕ) (queue : List ℕ) → count 0 (push (c + 1) queue) ≡ count 0 queue
unfolding push
count_zero-push c [] = ground arith
count_zero-push c (y ∷ queue) = ground (arith, count_zero-push c queue)

module _ (t : TreeTask) (v : IsTree t) where
  Move-left :
      {m m' : Memory} {p p' : Pc}
      → Move t m p m' p'
      → below m.num_work_left < 2 ^ 31
      → left m'.num_work_left ≤ left m.num_work_left
  Move-left {m} (claims h) room = omega (arith, left-claimed m.num_work_left h)
  Move-left {m} (leaves h) room = omega (arith, left-none m.num_work_left h room)
  Move-left (pops _) room = omega arith
  Move-left (is_done _) room = omega arith
  Move-left (not_done _) room = omega arith
  Move-left (parent_not_done _ _) room = omega arith
  Move-left (parent_done _ _) room = omega arith
  Move-left (stores _) room = omega arith
  Move-left pushes room = omega arith
  Move-left pushed room = omega arith

  Move-Fine :
      {m m' : Memory} {p p' : Pc}
      → Move t m p m' p'
      → Active t m.done p
      → below m.num_work_left < 2 ^ 31
      → Fine m'.num_work_left p'
  Move-Fine (claims h) a room = tt
  Move-Fine {m} (leaves h) a room = (left-none m.num_work_left h room).1
  Move-Fine (pops _) a room = tt
  Move-Fine (is_done at_c) a room = absurd (ground (arith, a.is_not_done))
  Move-Fine (not_done _) a room = tt
  Move-Fine (parent_not_done {parent = q} at_c at_q) a room =
      absurd (ground (arith, a.parent_is_done q))
  Move-Fine (parent_done _ _) a room = tt
  Move-Fine (stores _) a room = tt
  Move-Fine pushes a room = tt
  Move-Fine pushed a room = tt

  Move-positive :
      {m m' : Memory} {p p' : Pc}
      → Move t m p m' p'
      → count 0 m.m_task_queue ≡ 0
      → count 0 m'.m_task_queue ≡ 0
  Move-positive (claims _) h = h
  Move-positive (leaves _) h = h
  Move-positive (pops at_front) h = ground (arith, rw at_front at h)
  Move-positive (is_done _) h = h
  Move-positive (not_done _) h = h
  Move-positive (parent_not_done _ _) h = h
  Move-positive (parent_done _ _) h = h
  Move-positive (stores _) h = h
  Move-positive {m} (pushes {c = c}) h = omega (arith, count_zero-push c m.m_task_queue)
  Move-positive pushed h = h

  -- What stays of `done`.
  Move-done :
      {m m' : Memory} {p p' : Pc}
      → Move t m p m' p'
      → Active t m.done p
      → (length m'.done ≡ length m.done) × (get_elem? m'.done t.n ≡ get_elem? m.done t.n)
  Move-done (claims _) a = (refl, refl)
  Move-done (leaves _) a = (refl, refl)
  Move-done (pops _) a = (refl, refl)
  Move-done (is_done _) a = (refl, refl)
  Move-done (not_done _) a = (refl, refl)
  Move-done (parent_not_done _ _) a = (refl, refl)
  Move-done (parent_done _ _) a = (refl, refl)
  Move-done {m} (stores {current = c} _) a = (
    length-set m.done c true,
    ground (arith, get_elem?-set m.done c t.n true, get_elem?-lt m.done c a.is_not_done, a.inside),
  )
  Move-done pushes a = (refl, refl)
  Move-done pushed a = (refl, refl)

  module _ (num_threads : ℕ) where
    pub record Invariant (s : System) : Type 0 where
      pub size : length s.mem.done ≡ t.n + 1
      pub dummy : get_elem? s.mem.done t.n ≡ some true
      pub balance :
          (x q : ℕ)
          → get_elem? t.parent x ≡ some q
          → count (x + 1) s.mem.m_task_queue
              + sum (λ i. weight x (s.pc i)) num_threads
              + bit_at s.mem.done x
            ≡ bit_at s.mem.done q
      pub inside :
          (x : ℕ)
          → t.n ≤ x
          → count (x + 1) s.mem.m_task_queue + sum (λ i. weight x (s.pc i)) num_threads ≡ 0
      pub claimed :
          left s.mem.num_work_left + total s.mem.done + sum (λ i. busy (s.pc i)) num_threads
          ≡ t.n + 1
      pub positive : count 0 s.mem.m_task_queue ≡ 0
      pub low : below s.mem.num_work_left ≤ sum (λ i. gone (s.pc i)) num_threads
      pub fine : (i : ℕ) → Fine s.mem.num_work_left (s.pc i)

    module _ (s : System) (w : Invariant s) where
      at_work : (c : ℕ) → 1 ≤ sum (λ i. weight c (s.pc i)) num_threads → Turn t s.mem.done c
      at_work c some_work =
          let c_in : c < t.n = ground (arith, w.inside c) in
          let (q, at_q) = get_elem?-some t.parent c (omega (arith, v.size)) in
          let (b, at_b) = get_elem?-some s.mem.done c (omega (arith, w.size)) in
          record {
            inside = c_in;
            is_not_done = ground (arith, w.balance c q at_q);
            parent_is_done = λ r at_r. ground (arith, w.balance c r at_r);
          }

      pub active :
          (p : Pc)
          → ((x : ℕ) → weight x p ≤ sum (λ i. weight x (s.pc i)) num_threads)
          → Active t s.mem.done p
      active ready le = tt
      active pop le = tt
      active (load_done c) le = at_work c (ground (arith, le c))
      active (load_parent c) le = at_work c (ground (arith, le c))
      active (store_done c) le = at_work c (ground (arith, le c))
      active (push_children rest) le = tt
      active returned le = tt
      active threw le = tt

      pub thread-Active : (i : ℕ) → i < num_threads → Active t s.mem.done (s.pc i)
      thread-Active i lt = active (s.pc i) λ x. sum-at (λ j. weight x (s.pc j)) num_threads i lt

    gone-le_one : (p : Pc) → gone p ≤ 1
    gone-le_one returned = omega arith
    gone-le_one p = omega arith

    pub in_int :
        (s : System) → Invariant s → num_threads < 2 ^ 31 → below s.mem.num_work_left < 2 ^ 31
    in_int s w few =
        let at_most = sum-le (λ i. gone (s.pc i)) (λ i. 1) num_threads λ i. gone-le_one (s.pc i) in
        omega (arith, w.low, at_most, sum_ones num_threads)

    Step-Invariant :
        {s s' : System}
        → num_threads < 2 ^ 31
        → Step t num_threads s s'
        → Invariant s
        → Invariant s'
    Step-Invariant {s} few (pick i {m} {p} lt mv) w =
        let room = in_int s w few in
        let a = thread-Active s w i lt in
        let (same_size, same_dummy) = Move-done mv a in
        record {
          size = same_size ∙ w.size;
          dummy = same_dummy ∙ w.dummy;
          balance = λ x q at_x.
              Move-balance t v mv a x q (sum (λ j. weight x (s.pc j)) num_threads)
                (sum (λ j. weight x (update s.pc i p j)) num_threads) at_x
                (sum-update (weight x) s.pc i p num_threads lt) (w.balance x q at_x);
          inside = λ x out.
              Move-inside t v mv a x (sum (λ j. weight x (s.pc j)) num_threads)
                (sum (λ j. weight x (update s.pc i p j)) num_threads) out
                (sum-update (weight x) s.pc i p num_threads lt) (w.inside x out);
          claimed =
              Move-claimed t v mv a room (sum (λ j. busy (s.pc j)) num_threads)
                (sum (λ j. busy (update s.pc i p j)) num_threads)
                (sum-update busy s.pc i p num_threads lt) w.claimed;
          positive = Move-positive mv w.positive;
          low =
              Move-below t v mv room (sum (λ j. gone (s.pc j)) num_threads)
                (sum (λ j. gone (update s.pc i p j)) num_threads)
                (sum-update gone s.pc i p num_threads lt) w.low;
          fine = λ j. elim (ℕ_discrete i j) [
            | yes e ↦ rw (← e, update_self s.pc i p) (Move-Fine mv a room)
            | no ne ↦ rw (update_other s.pc i j p ne) (
                Fine-kept s.mem.num_work_left m.num_work_left (s.pc j) (Move-left mv room)
                  (w.fine j))
          ];
        }

    start-Invariant : t.n < 2 ^ 31 → Invariant (start t num_threads)
    unfolding push
    start-Invariant fits = record {
      size = length-fresh t.n;
      dummy = fresh-dummy t.n;
      balance = λ x q at_x.
          ground (arith, sum_zero (λ i. 0) num_threads (λ i lt. refl), fresh_balance t v x q at_x);
      inside =
          λ x out. ground (arith, sum_zero (λ i. 0) num_threads (λ i lt. refl), root_inside t v);
      claimed =
          rw (to_int-small t.n fits)
            (omega (arith, sum_zero (λ i. 0) num_threads (λ i lt. refl), total-fresh t.n));
      positive = refl;
      low = rw (to_int-small t.n fits) (omega arith);
      fine = λ i. tt;
    }

    pub Reach-Invariant :
        {k : ℕ} {s : System}
        → t.n < 2 ^ 31
        → num_threads < 2 ^ 31
        → Reach t num_threads k s
        → Invariant s
    Reach-Invariant fits few here = start-Invariant fits
    Reach-Invariant fits few (later r st) = Step-Invariant few st (Reach-Invariant fits few r)
