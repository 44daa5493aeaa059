-- ===== src/Tasks/Naive/Progress.antt =====
-- exercise4/implementation/tree_solver_naive.hpp: a thread can go on, or all have returned and all nodes
-- are done.
use native.Mathlib.Decide.{ℕ_discrete}
use wt_lab_efficient_paral.Common.{
  ℕ, ◌⊎◌, inl, inr, zero, suc, ◌+◌, ◌≤◌, ◌<◌, ◌≡◌, refl, sym, ap, ◌∙◌, true, List, [], ◌∷◌, some,
  arith, get_elem?-some, sum, sum-at, sum_zero,
}
use wt_lab_efficient_paral.Connectivity.Concurrent.{ℤ, pos, negsuc}
use wt_lab_efficient_paral.Tasks.Tree.{TreeTask}
use wt_lab_efficient_paral.Tasks.Tree.Trees.{count, IsTree, total}
use wt_lab_efficient_paral.Tasks.Naive.{
  Memory, Pc, ready, pop, load_done, load_parent, store_done, push_children, returned, threw, Move,
  claims, leaves, pops, not_done, parent_done, stores, pushes, pushed, System, Step, pick,
}
use wt_lab_efficient_paral.Tasks.Naive.Balance.{weight, busy, left, Active}
use wt_lab_efficient_paral.Tasks.Tree.{evaluate}
use wt_lab_efficient_paral.Tasks.Tree.Trees.{all_done, total-all, total_full, evaluate-true}
use wt_lab_efficient_paral.Tasks.Naive.Invariant.{Fine, Invariant, thread-Active}

-- A thread that cannot go on has returned, or waits for the queue.
abbrev IsStuck : Memory → Pc → Type 0
IsStuck m ready = ⊥
IsStuck m pop = m.m_task_queue ≡ []
IsStuck m (load_done c) = ⊥
IsStuck m (load_parent c) = ⊥
IsStuck m (store_done c) = ⊥
IsStuck m (push_children rest) = ⊥
IsStuck m returned = Unit
IsStuck m threw = ⊥

record CanMove (t : TreeTask) (m : Memory) (p : Pc) : Type 0 where
  m' : Memory
  p' : Pc
  move : Move t m p m' p'

module _ (t : TreeTask) (v : IsTree t) where
  ready_moves : (m : Memory) (z : ℤ) → m.num_work_left ≡ z → CanMove t m ready
  ready_moves m (pos zero) e = record { m' = _; p' = _; move = leaves (rw e (λ h. h)) }
  ready_moves m (pos (suc k)) e = record { m' = _; p' = _; move = claims (rw e tt) }
  ready_moves m (negsuc k) e = record { m' = _; p' = _; move = leaves (rw e (λ h. h)) }

  pop_moves :
      (m : Memory) (queue : List ℕ)
      → m.m_task_queue ≡ queue
      → count 0 queue ≡ 0
      → CanMove t m pop ⊎ IsStuck m pop
  pop_moves m [] e h = inr e
  pop_moves m (zero ∷ rest) e h = absurd (ground arith)
  pop_moves m (suc c ∷ rest) e h = inl (record { m' = _; p' = _; move = pops e })

  move_cases :
      (m : Memory) (p : Pc)
      → Active t m.done p
      → Fine m.num_work_left p
      → count 0 m.m_task_queue ≡ 0
      → CanMove t m p ⊎ IsStuck m p
  move_cases m ready a f h = inl (ready_moves m m.num_work_left refl)
  move_cases m pop a f h = pop_moves m m.m_task_queue refl h
  move_cases m (load_done c) a f h = inl (record { m' = _; p' = _; move = not_done a.is_not_done })
  move_cases m (load_parent c) a f h =
      let (q, at_q) = get_elem?-some t.parent c (omega (arith, v.size, a.inside)) in
      inl (record { m' = _; p' = _; move = parent_done at_q (a.parent_is_done q at_q) })
  move_cases m (store_done c) a f h =
      let (cs, at_c) = v.rows c a.inside in inl (record { m' = _; p' = _; move = stores at_c })
  move_cases m (push_children []) a f h = inl (record { m' = _; p' = _; move = pushed })
  move_cases m (push_children (c ∷ rest)) a f h = inl (record { m' = _; p' = _; move = pushes })
  move_cases m returned a f h = inr tt
  move_cases m threw a f h = absurd f

  stuck-weight : (m : Memory) (p : Pc) → IsStuck m p → (x : ℕ) → weight x p ≡ 0
  stuck-weight m pop h x = refl
  stuck-weight m returned h x = refl
  stuck-weight m p h x = absurd h

  stuck_cases : (m : Memory) (p : Pc) → IsStuck m p → (m.m_task_queue ≡ []) ⊎ (p ≡ returned)
  stuck_cases m pop h = inl h
  stuck_cases m returned h = inr refl
  stuck_cases m p h = absurd h

  stuck_idle : (m : Memory) (p : Pc) → IsStuck m p → busy p ≡ 0 → p ≡ returned
  stuck_idle m pop h e = absurd (omega arith)
  stuck_idle m returned h e = refl
  stuck_idle m p h e = absurd h

  module _ (num_threads : ℕ) (s : System) (w : Invariant t v num_threads s) where
    search :
        (k : ℕ)
        → k ≤ num_threads
        → ((s' : System) × Step t num_threads s s') ⊎ ((i : ℕ) → i < k → IsStuck s.mem (s.pc i))
    search zero h = inr (λ i lt. absurd (omega arith))
    search (suc k) h =
        elim (move_cases s.mem (s.pc k) (thread-Active t v num_threads s w k (omega arith))
          (w.fine k) w.positive) [
            | inl can ↦ inl (_, pick k (omega arith) can.move)
            | inr stuck ↦ elim (search k (omega arith)) [
              | inl go ↦ inl go
              | inr others ↦ inr λ i lt. elim (ℕ_discrete i k) [
                | yes e ↦ rw e stuck
                | no ne ↦ others i (omega arith)
              ]
            ]
          ]

    module _ (stuck : (i : ℕ) → i < num_threads → IsStuck s.mem (s.pc i)) where
      no_weight : (x : ℕ) → sum (λ i. weight x (s.pc i)) num_threads ≡ 0
      no_weight x =
          sum_zero (λ i. weight x (s.pc i)) num_threads
            λ i lt. stuck-weight s.mem (s.pc i) (stuck i lt) x

      empty_queue : s.mem.m_task_queue ≡ [] → total s.mem.done ≡ t.n + 1
      empty_queue e =
          let done =
            all_done t v s.mem.done w.dummy
              λ x q at_x. let b = w.balance x q at_x in omega (arith, rw e at b, no_weight x) in
          total-all s.mem.done (λ x lt. elim (ℕ_discrete x t.n) [
            | yes e ↦ rw e w.dummy
            | no ne ↦ done x (omega (arith, w.size))
          ])
          ∙ w.size

      none_returned_early :
          (k : ℕ)
          → k ≤ num_threads
          → (s.mem.m_task_queue ≡ []) ⊎ ((i : ℕ) → i < k → s.pc i ≡ returned)
      none_returned_early zero h = inr (λ i lt. absurd (omega arith))
      none_returned_early (suc k) h = elim (stuck_cases s.mem (s.pc k) (stuck k (omega arith))) [
        | inl e ↦ inl e
        | inr at_k ↦ elim (none_returned_early k (omega arith)) [
          | inl e ↦ inl e
          | inr others ↦
              inr
                λ i lt. elim (ℕ_discrete i k) [ yes e ↦ rw e at_k | no ne ↦ others i (omega arith) ]
        ]
      ]

      all_total : 0 < num_threads → total s.mem.done ≡ t.n + 1
      all_total some_thread = elim (none_returned_early num_threads (omega arith)) [
        | inl e ↦ empty_queue e
        | inr all ↦
            let none_left : left s.mem.num_work_left ≡ 0 = rw (all 0 some_thread) at (w.fine 0) in
            let none_busy = sum_zero (λ i. busy (s.pc i)) num_threads λ i lt. ap busy (all i lt) in
            omega (arith, w.claimed, none_left, none_busy)
      ]

      all_returned : 0 < num_threads → (i : ℕ) → i < num_threads → s.pc i ≡ returned
      all_returned some_thread i lt = stuck_idle s.mem (s.pc i) (stuck i lt) (
          omega
            (arith, w.claimed, all_total some_thread, sum-at (λ j. busy (s.pc j)) num_threads i lt))

      evaluates : 0 < num_threads → evaluate t s.mem.done ≡ some true
      evaluates some_thread = evaluate-true t s.mem.done λ x lt.
          total_full s.mem.done (all_total some_thread ∙ sym w.size) x (omega (arith, w.size))

    -- Without a deadlock.
    pub progress :
        0 < num_threads
        → ((s' : System) × Step t num_threads s s')
          ⊎ (((i : ℕ) → i < num_threads → s.pc i ≡ returned) × (evaluate t s.mem.done ≡ some true))
    progress some_thread = elim (search num_threads (omega arith)) [
      | inl go ↦ inl go
      | inr stuck ↦ inr (all_returned stuck some_thread, evaluates stuck some_thread)
    ]
