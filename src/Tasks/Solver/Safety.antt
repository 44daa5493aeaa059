-- ===== src/Tasks/Solver/Safety.antt =====
-- exercise4/implementation/tree_solver.hpp: the balance in every reachable state, and that no thread
-- throws.
use native.Mathlib.Decide.{ℕ_discrete}
use wt_lab_efficient_paral.Common.{
  ℕ, ◌+◌, ◌≤◌, ◌<◌, ◌≡◌, ◌≢◌, refl, ◌∙◌, true, false, some, get_elem?, length, length-set, arith,
  get_elem?-set, get_elem?-lt, get_elem?-some, update, update_self, update_other, sum, sum-at,
  sum_zero, sum-update,
}
use wt_lab_efficient_paral.Queues.MutexStdQueue.{push}
use wt_lab_efficient_paral.Tasks.Tree.{TreeTask}
use wt_lab_efficient_paral.Tasks.Tree.Trees.{
  count, IsTree, bit_at, fresh_balance, root_inside, fresh-dummy, length-fresh,
}
use wt_lab_efficient_paral.Tasks.Naive.Balance.{Turn}
use wt_lab_efficient_paral.Tasks.Solver.{
  done_task, Memory, Pc, Thread, load_done, load_parent, store_done, threw, Move, pops_local,
  claims, none_left, sends_done, sent_done, pops_global, leaves, starts, is_done, not_done,
  parent_not_done, parent_done, stores, loads_elements, adds_elements, keeps, is_full, none_to_keep,
  shares, none_to_share, gives_back, is_balanced, System, Step, pick, start, Reach, here, later,
}
use wt_lab_efficient_paral.Tasks.Solver.Balance.{
  pc_weight, weight, Active, Move-balance, Move-inside,
}

-- A thread has thrown nothing, and has not taken `done_task` for a node.
abbrev Fine : Pc → Type 0
Fine (load_done c) = c + 1 ≢ done_task
Fine (load_parent c) = c + 1 ≢ done_task
Fine (store_done c) = c + 1 ≢ done_task
Fine threw = ⊥
Fine p = Unit

module _ (t : TreeTask) (v : IsTree t) (fits : t.n < done_task) (num_threads : ℕ) where
  Move-Fine :
      {m m' : Memory} {th th' : Thread}
      → Move t num_threads m th m' th'
      → Active t m.done th.pc
      → Fine th.pc
      → Fine th'.pc
  Move-Fine (pops_local {current = c} {queue = r}) a f = tt
  Move-Fine (claims _) a f = tt
  Move-Fine (none_left _) a f = tt
  Move-Fine sends_done a f = tt
  Move-Fine sent_done a f = tt
  Move-Fine (pops_global {current = c} {rest = r} at_front) a f = tt
  Move-Fine (leaves {current = c} is_end) a f = tt
  Move-Fine (starts {current = c} ne) a f = λ e. ne (omega arith)
  Move-Fine (is_done at_c) a f = absurd (ground (arith, a.is_not_done))
  Move-Fine (not_done _) a f = f
  Move-Fine (parent_not_done {parent = r} at_c at_r) a f =
      absurd (ground (arith, a.parent_is_done r))
  Move-Fine (parent_done _ _) a f = f
  Move-Fine (stores {current = c} {cs = cs} {queue = r} at_c) a f = tt
  Move-Fine loads_elements a f = tt
  Move-Fine adds_elements a f = tt
  Move-Fine (keeps {c = c} {queue = r} _) a f = tt
  Move-Fine (is_full _) a f = tt
  Move-Fine none_to_keep a f = tt
  Move-Fine (shares {c = c}) a f = tt
  Move-Fine none_to_share a f = tt
  Move-Fine (gives_back {e = d} {queue = r} _) a f = tt
  Move-Fine (is_balanced _) a f = tt

  Move-done :
      {m m' : Memory} {th th' : Thread}
      → Move t num_threads m th m' th'
      → Active t m.done th.pc
      → (length m'.done ≡ length m.done) × (get_elem? m'.done t.n ≡ get_elem? m.done t.n)
  Move-done (pops_local {current = c} {queue = r}) a = (refl, refl)
  Move-done (claims _) a = (refl, refl)
  Move-done (none_left _) a = (refl, refl)
  Move-done sends_done a = (refl, refl)
  Move-done sent_done a = (refl, refl)
  Move-done (pops_global {current = c} {rest = r} at_front) a = (refl, refl)
  Move-done (leaves {current = c} is_end) a = (refl, refl)
  Move-done (starts {current = c} ne) a = (refl, refl)
  Move-done (is_done at_c) a = (refl, refl)
  Move-done (not_done _) a = (refl, refl)
  Move-done (parent_not_done {parent = r} at_c at_r) a = (refl, refl)
  Move-done (parent_done _ _) a = (refl, refl)
  Move-done {m} (stores {current = c} {cs = cs} {queue = r} at_c) a = (
    length-set m.done c true,
    ground (arith, get_elem?-set m.done c t.n true, get_elem?-lt m.done c a.is_not_done, a.inside),
  )
  Move-done loads_elements a = (refl, refl)
  Move-done adds_elements a = (refl, refl)
  Move-done (keeps {c = c} {queue = r} _) a = (refl, refl)
  Move-done (is_full _) a = (refl, refl)
  Move-done none_to_keep a = (refl, refl)
  Move-done (shares {c = c}) a = (refl, refl)
  Move-done none_to_share a = (refl, refl)
  Move-done (gives_back {e = d} {queue = r} _) a = (refl, refl)
  Move-done (is_balanced _) a = (refl, refl)

  record Invariant (s : System) : Type 0 where
    size : length s.mem.done ≡ t.n + 1
    dummy : get_elem? s.mem.done t.n ≡ some true
    balance :
        (x q : ℕ)
        → get_elem? t.parent x ≡ some q
        → count (x + 1) s.mem.m_global_queue
            + sum (λ i. weight x (s.thread i)) num_threads
            + bit_at s.mem.done x
          ≡ bit_at s.mem.done q
    inside :
        (x : ℕ)
        → x + 1 ≢ done_task
        → t.n ≤ x
        → count (x + 1) s.mem.m_global_queue + sum (λ i. weight x (s.thread i)) num_threads ≡ 0
    fine : (i : ℕ) → Fine (s.thread i).pc

  not_token : (x : ℕ) {q : ℕ} → get_elem? t.parent x ≡ some q → x + 1 ≢ done_task
  not_token x at_x e = omega (arith, get_elem?-lt t.parent x at_x, v.size, fits)

  module _ (s : System) (w : Invariant s) where
    at_work :
        (c : ℕ)
        → c + 1 ≢ done_task
        → 1 ≤ sum (λ i. weight c (s.thread i)) num_threads
        → Turn t s.mem.done c
    at_work c ne some_work =
        let c_in : c < t.n = ground (arith, w.inside c) in
        let (q, at_q) = get_elem?-some t.parent c (omega (arith, v.size)) in
        let (b, at_b) = get_elem?-some s.mem.done c (omega (arith, w.size)) in
        record {
          inside = c_in;
          is_not_done = ground (arith, w.balance c q at_q);
          parent_is_done = λ r at_r. ground (arith, w.balance c r at_r);
        }

    active :
        (p : Pc)
        → Fine p
        → ((x : ℕ) → pc_weight x p ≤ sum (λ i. weight x (s.thread i)) num_threads)
        → Active t s.mem.done p
    active (load_done c) f le = at_work c f (ground (arith, le c))
    active (load_parent c) f le = at_work c f (ground (arith, le c))
    active (store_done c) f le = at_work c f (ground (arith, le c))
    active p f le = tt

    thread-Active : (i : ℕ) → i < num_threads → Active t s.mem.done (s.thread i).pc
    thread-Active i lt =
        active (s.thread i).pc (w.fine i)
          λ x. omega (arith, sum-at (λ j. weight x (s.thread j)) num_threads i lt)

  Step-Invariant : {s s' : System} → Step t num_threads s s' → Invariant s → Invariant s'
  Step-Invariant {s} (pick i {m} {th} lt mv) w =
      let a = thread-Active s w i lt in
      let (same_size, same_dummy) = Move-done mv a in
      record {
        size = same_size ∙ w.size;
        dummy = same_dummy ∙ w.dummy;
        balance = λ x q at_x.
            Move-balance t v num_threads mv a x q (sum (λ j. weight x (s.thread j)) num_threads)
              (sum (λ j. weight x (update s.thread i th j)) num_threads) (not_token x at_x) at_x
              (sum-update (weight x) s.thread i th num_threads lt) (w.balance x q at_x);
        inside = λ x ne out.
            Move-inside t v num_threads mv a x (sum (λ j. weight x (s.thread j)) num_threads)
              (sum (λ j. weight x (update s.thread i th j)) num_threads) ne out
              (sum-update (weight x) s.thread i th num_threads lt) (w.inside x ne out);
        fine = λ j. elim (ℕ_discrete i j) [
          | yes e ↦ rw (← e, update_self s.thread i th) (Move-Fine mv a (w.fine i))
          | no ne ↦ rw (update_other s.thread i j th ne) (w.fine j)
        ];
      }

  start-Invariant : Invariant (start t num_threads)
  unfolding push
  start-Invariant = record {
    size = length-fresh t.n;
    dummy = fresh-dummy t.n;
    balance = λ x q at_x. ground (
      arith,
      sum_zero (λ i. 0 + 0) num_threads (λ i lt. omega arith),
      fresh_balance t v x q at_x,
    );
    inside = λ x ne out.
        ground (arith, sum_zero (λ i. 0 + 0) num_threads (λ i lt. omega arith), root_inside t v);
    fine = λ i. tt;
  }

  Reach-Invariant : {s : System} → Reach t num_threads s → Invariant s
  Reach-Invariant here = start-Invariant
  Reach-Invariant (later r st) = Step-Invariant st (Reach-Invariant r)

  -- On a tree whose nodes are not done, with fewer nodes than the greatest NodeId: in every reachable
  -- state of the threads of solve, none has thrown an error of work, and a node that stands in the
  -- shared queue has not been worked on, while its parent has.
  pub tree_solver_safe :
      (s : System)
      → Reach t num_threads s
      → ((i : ℕ) → (s.thread i).pc ≢ threw)
        × ((x q : ℕ)
            → get_elem? t.parent x ≡ some q
            → 0 < count (x + 1) s.mem.m_global_queue
            → (get_elem? s.mem.done x ≡ some false) × (get_elem? s.mem.done q ≡ some true))
  tree_solver_safe s r =
      let w = Reach-Invariant r in
      (
        λ i e. rw e at (w.fine i),
        λ x q at_x some_queued.
            let inside = get_elem?-lt t.parent x at_x in
            let (b, at_b) = get_elem?-some s.mem.done x (omega (arith, w.size, v.size)) in
            (ground (arith, w.balance x q at_x), ground (arith, w.balance x q at_x)),
      )
