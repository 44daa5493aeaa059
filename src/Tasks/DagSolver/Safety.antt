-- ===== src/Tasks/DagSolver/Safety.antt =====
-- exercise4/implementation/dag_solver.hpp: every reachable state of the threads of `solve`.
use native.Mathlib.Decide.{ℕ_discrete}
use wt_lab_efficient_paral.Common.{
  ℕ, ◌^◌, zero, suc, inl, inr, ◌+◌, ◌≤◌, ◌<◌, ◌≡◌, ◌≢◌, refl, ap, ◌∙◌, true, false, some, get_elem?,
  set, length, length-set, arith, ◌==◌, if◌then◌else◌, get_elem?-set, get_elem?-some, Option-cases,
  update, update_self, update_other, sum, sum-at, sum_zero, sum-update, replicate, length-replicate,
  replicate-entry,
}
use wt_lab_efficient_paral.Queues.MutexStdQueue.{push}
use wt_lab_efficient_paral.Tasks.Tree.Trees.{count, bit_at, total, total-bound, total_full}
use wt_lab_efficient_paral.Tasks.Naive.Balance.{left, to_int-small}
use wt_lab_efficient_paral.Tasks.Solver.{done_task}
use wt_lab_efficient_paral.Tasks.Dag.{DagTask, evaluate}
use wt_lab_efficient_paral.Tasks.DagSolver.{
  initial, in_queue, finished, is_last, Pc, test_parents, put_back, load_done, load_parents,
  count_down, returned, threw, System, Step, pick, start, Reach, here, later,
}
use wt_lab_efficient_paral.Tasks.DagSolver.Balance.{
  hold, uncounted, known, Turn, AllDone, Fine, Active, Fine-Grows, Move-balance,
}
use wt_lab_efficient_paral.Tasks.DagSolver.Keeps.{
  Move-Grows, Move-inside, Move-sizes, Move-finished,
}
use wt_lab_efficient_paral.Tasks.DagSolver.Order.{
  IsOrdered, left-is_last, Move-IsOrdered, Move-left, Move-messages, Move-Fine,
}
use wt_lab_efficient_paral.Tasks.Tree.Trees.{evaluate_loop-true}

module _ (t : DagTask) (some_node : 0 < t.n) (fits : t.n < 2 ^ 31) (num_threads : ℕ) where
  record Invariant (s : System) : Type 0 where
    size_done : length s.mem.done ≡ t.n
    size_state : length s.mem.m_state ≡ t.n
    balance :
        (x : ℕ)
        → x + 1 ≢ done_task
        → count (x + 1) s.mem.m_task_queue
            + sum (λ i. hold x (s.pc i)) num_threads
            + bit_at s.mem.done x
          ≡ known (get_elem? s.mem.m_state x)
    inside :
        (x : ℕ)
        → x + 1 ≢ done_task
        → t.n ≤ x
        → count (x + 1) s.mem.m_task_queue + sum (λ i. hold x (s.pc i)) num_threads ≡ 0
    finished_done :
        (x : ℕ) → get_elem? s.mem.m_state x ≡ some finished → get_elem? s.mem.done x ≡ some true
    ordered : IsOrdered t s.mem.done
    counted :
        left s.mem.num_work_left + total s.mem.done
        ≡ t.n + sum (λ i. uncounted (s.pc i)) num_threads
    messages : 0 < count done_task s.mem.m_task_queue → AllDone t.n s.mem.done
    fine : (i : ℕ) → Fine t s.mem.done (s.pc i)

  module _ (s : System) (w : Invariant s) where
    at_work :
        (c : ℕ) → c + 1 ≢ done_task → 1 ≤ sum (λ i. hold c (s.pc i)) num_threads → Turn t.n s.mem c
    at_work c ne some_work =
        let c_in : c < t.n = ground (arith, w.inside c) in
        let (b, at_b) = get_elem?-some s.mem.done c (omega (arith, w.size_done)) in
        let (st, at_s) = get_elem?-some s.mem.m_state c (omega (arith, w.size_state)) in
        record {
          inside = c_in;
          is_open = ground (arith, w.balance c ne);
          is_known = ground (arith, w.balance c ne);
        }

    active :
        (p : Pc)
        → Fine t s.mem.done p
        → ((x : ℕ) → hold x p ≤ sum (λ i. hold x (s.pc i)) num_threads)
        → Active t s.mem p
    active (test_parents c rest) f le = at_work c f.0 (ground (arith, le c))
    active (put_back c) f le = at_work c f (ground (arith, le c))
    active (load_done c) f le = at_work c f.0 (ground (arith, le c))
    active (load_parents c rest) f le = at_work c f.0 (ground (arith, le c))
    active p f le = tt

    thread-Active : (i : ℕ) → i < num_threads → Active t s.mem (s.pc i)
    thread-Active i lt =
        active (s.pc i) (w.fine i) λ x. sum-at (λ j. hold x (s.pc j)) num_threads i lt

    done_bound : total s.mem.done ≤ t.n
    done_bound = omega (arith, total-bound s.mem.done, w.size_done)

    last_AllDone :
        (i : ℕ)
        → i < num_threads
        → (c : ℕ) → s.pc i ≡ count_down c
        → is_last s.mem.num_work_left ≡ true
        → AllDone t.n s.mem.done
    last_AllDone i lt c e last x x_in =
        let one : uncounted (s.pc i) ≡ 1 = ap uncounted e in
        let le = sum-at (λ j. uncounted (s.pc j)) num_threads i lt in
        let few = left-is_last s.mem.num_work_left last in
        total_full s.mem.done (omega (arith, w.counted, w.size_done, done_bound)) x
          (omega (arith, w.size_done))

  Step-Invariant : {s s' : System} → Step t num_threads s s' → Invariant s → Invariant s'
  Step-Invariant {s} (pick i {m} {p} lt mv) w =
      let a = thread-Active s w i lt in
      let f = w.fine i in
      let (same_done, same_state) = Move-sizes t num_threads mv in
      record {
        size_done = same_done ∙ w.size_done;
        size_state = same_state ∙ w.size_state;
        balance = λ x ne.
            Move-balance t num_threads mv a f w.size_state x
              (sum (λ j. hold x (s.pc j)) num_threads)
              (sum (λ j. hold x (update s.pc i p j)) num_threads) ne
              (sum-update (hold x) s.pc i p num_threads lt) (w.balance x ne);
        inside = λ x ne out.
            Move-inside t num_threads mv w.size_state x (sum (λ j. hold x (s.pc j)) num_threads)
              (sum (λ j. hold x (update s.pc i p j)) num_threads) ne out
              (sum-update (hold x) s.pc i p num_threads lt) (w.inside x ne out);
        finished_done = Move-finished t num_threads mv a f w.size_state w.finished_done;
        ordered = Move-IsOrdered t num_threads mv a f w.ordered;
        counted =
            Move-left t num_threads mv a (sum (λ j. uncounted (s.pc j)) num_threads)
              (sum (λ j. uncounted (update s.pc i p j)) num_threads)
              (sum-update uncounted s.pc i p num_threads lt)
              (sum-at (λ j. uncounted (s.pc j)) num_threads i lt) (done_bound s w) w.counted;
        messages = Move-messages t num_threads mv a f w.messages;
        fine = λ j. elim (ℕ_discrete i j) [
          | yes e ↦
              rw (← e, update_self s.pc i p)
                (Move-Fine t num_threads mv a (omega arith) w.size_state w.finished_done w.messages
                  (last_AllDone s w i lt) f)
          | no ne ↦
              rw (update_other s.pc i j p ne)
                (Fine-Grows t s.mem.done m.done (s.pc j) (Move-Grows t num_threads mv a) (w.fine j))
        ];
      }

  not_done_yet : (x : ℕ) → bit_at (replicate t.n false) x ≡ 0
  not_done_yet x = elim (Option-cases (get_elem? (replicate t.n false) x)) [
    | inl e ↦ rw e refl
    | inr (b, e) ↦ let same = replicate-entry t.n x false e in rw (e, same) refl
  ]

  start_known :
      (x : ℕ)
      → known (get_elem? (set (replicate t.n initial) 0 in_queue) x) ≡ (if 0 == x then 1 else 0)
  start_known x =
      let len = length-replicate t.n initial in
      let written = get_elem?-set (replicate t.n initial) 0 x in_queue (omega arith) in
      elim (Option-cases (get_elem? (replicate t.n initial) x)) [
        | inl e ↦ ground arith
        | inr (st, e) ↦ let same = replicate-entry t.n x initial e in ground arith
      ]

  start_unfinished : (x : ℕ) → get_elem? (set (replicate t.n initial) 0 in_queue) x ≢ some finished
  start_unfinished x h =
      let len = length-replicate t.n initial in
      let written = get_elem?-set (replicate t.n initial) 0 x in_queue (omega arith) in
      elim (ℕ_discrete 0 x) [
        | yes e ↦ ground arith
        | no ne ↦
            let at_x : get_elem? (replicate t.n initial) x ≡ some finished = ground arith in
            let same = replicate-entry t.n x initial at_x in cc
      ]

  total_none : (n : ℕ) → total (replicate n false) ≡ 0
  total_none zero = refl
  total_none (suc n) = omega (arith, total_none n)

  start-Invariant : Invariant (start t num_threads)
  unfolding push
  start-Invariant =
      let len = length-replicate t.n false in
      let idle = sum_zero (λ i. 0) num_threads (λ i lt. refl) in
      record {
        size_done = len;
        size_state = length-set (replicate t.n initial) 0 in_queue ∙ length-replicate t.n initial;
        balance = λ x ne. ground (arith, not_done_yet x, start_known x);
        inside = λ x ne out. ground arith;
        finished_done = λ x h. absurd (start_unfinished x h);
        ordered = λ x p ps h. absurd (ground (arith, not_done_yet x));
        counted = rw (to_int-small t.n fits) (omega (arith, total_none t.n));
        messages = λ h. absurd (omega arith);
        fine = λ i. tt;
      }

  Reach-Invariant : {s : System} → Reach t num_threads s → Invariant s
  Reach-Invariant here = start-Invariant
  Reach-Invariant (later r st) = Step-Invariant st (Reach-Invariant r)

  -- On a graph of at least one node and of fewer than 2 ^ 31 nodes: in every reachable
  -- state of the threads of solve, no thread has thrown an error of work, a node that is done has only
  -- parents that are done, and if a thread has returned, evaluate returns true.
  pub dag_solver_correct :
      (s : System)
      → Reach t num_threads s
      → ((i : ℕ) → s.pc i ≢ threw)
        × IsOrdered t s.mem.done
        × ((i : ℕ) → s.pc i ≡ returned → evaluate t s.mem.done ≡ some true)
  unfolding evaluate
  dag_solver_correct s r =
      let w = Reach-Invariant r in
      (
        λ i e. rw e at (w.fine i),
        w.ordered,
        λ i e.
            let all : AllDone t.n s.mem.done = rw e at (w.fine i) in
            evaluate_loop-true s.mem.done t.n 0 (λ x lt. all x (omega arith)),
      )
