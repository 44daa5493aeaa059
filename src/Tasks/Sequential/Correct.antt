-- ===== src/Tasks/Sequential/Correct.antt =====
-- exercise4/implementation/tree_solver_sequential.hpp: all nodes of a tree are worked on, in an order that
-- `work` accepts.
use wt_lab_efficient_paral.Common.{
  ℕ, zero, suc, ◌+◌, ◌≤◌, ◌<◌, ◌≡◌, refl, ◌∙◌, Bool, true, false, List, [], ◌∷◌, Option, none, some,
  get_elem?, set, length, length-set, arith, get_elem?-set, get_elem?-lt, get_elem?-some, Ends,
  ends, Ends-weaken,
}
use wt_lab_efficient_paral.Tasks.Tree.{TreeTask, worked, work, evaluate, fresh}
use wt_lab_efficient_paral.Tasks.Tree.Trees.{
  count, IsTree, bit_at, total, total-set, all_done, issue, evaluate-true, fresh-dummy,
  length-fresh, total-fresh, total-bound, count_self, fresh_balance, root_inside,
}
use wt_lab_efficient_paral.Tasks.Sequential.{push_all, solve_loop, solve}

count-push_all :
    (x : ℕ) (cs task_queue : List ℕ)
    → count x (push_all cs task_queue) ≡ count x cs + count x task_queue
count-push_all x [] task_queue = omega arith
count-push_all x (c ∷ cs) task_queue = omega (arith, count-push_all x cs (c ∷ task_queue))

module _ (t : TreeTask) (v : IsTree t) where
  -- The node that is worked on next, or waits, has a parent that is done.
  record Invariant (task_queue : List ℕ) (done : List Bool) : Type 0 where
    size : length done ≡ t.n + 1
    dummy : get_elem? done t.n ≡ some true
    balance :
        (x q : ℕ)
        → get_elem? t.parent x ≡ some q
        → count x task_queue + bit_at done x ≡ bit_at done q
    inside : (x : ℕ) → t.n ≤ x → count x task_queue ≡ 0

  module _ (current : ℕ) (task_queue : List ℕ) (done : List Bool)
      (w : Invariant (current ∷ task_queue) done) where
    current_inside : current < t.n
    current_inside = ground (arith, w.inside current, count_self current task_queue)

    work_current :
        (cs : List ℕ) × (work t current done ≡ some (worked cs (set done current true)))
        × Invariant (push_all cs task_queue) (set done current true)
        × (get_elem? done current ≡ some false)
    unfolding work
    work_current =
        let (q, at_q) = get_elem?-some t.parent current (omega (arith, v.size, current_inside)) in
        let (cs, at_cs) = v.rows current current_inside in
        let balance = w.balance current q at_q in
        let (b, at_b) = get_elem?-some done current (omega (arith, w.size, current_inside)) in
        let not_done : get_elem? done current ≡ some false =
          ground (arith, count_self current task_queue) in
        let parent_done : get_elem? done q ≡ some true =
          ground (arith, count_self current task_queue) in
        (
          cs,
          rw (not_done, at_q, parent_done, at_cs) refl,
          record {
            size = length-set done current true ∙ w.size;
            dummy = ground (
              arith,
              get_elem?-set done current t.n true,
              get_elem?-lt done current not_done,
              w.dummy,
            );
            balance = λ x p at_x.
                issue t v done current_inside not_done at_cs x p (count x (current ∷ task_queue))
                  (count x (push_all cs task_queue)) at_x (w.balance x p at_x)
                  (omega (arith, count-push_all x cs task_queue));
            inside = λ x h. omega (
              arith,
              count-push_all x cs task_queue,
              v.inside current x cs at_cs current_inside h,
              w.inside x h,
            );
          },
          not_done,
        )

  -- A result that no error has cut short, in which all nodes are done.
  abbrev Solved : Option (List Bool) → Type 0
  Solved none = ⊥
  Solved (some done) = (x : ℕ) → x < t.n → get_elem? done x ≡ some true

  solve_loop-Solved :
      (fuel : ℕ) (task_queue : List ℕ) (done : List Bool)
      → Invariant task_queue done
      → t.n + 2 ≤ fuel + total done
      → Ends Solved (solve_loop fuel t task_queue done)
  unfolding solve_loop
  solve_loop-Solved zero task_queue done w enough = absurd (omega (arith, total-bound done, w.size))
  solve_loop-Solved (suc fuel) [] done w enough =
      ends (all_done t v done w.dummy λ x p at_x. omega (arith, w.balance x p at_x))
  solve_loop-Solved (suc fuel) (current ∷ task_queue) done w enough =
      let (cs, is_worked, w', not_done) = work_current current task_queue done w in
      rw is_worked (
        solve_loop-Solved fuel (push_all cs task_queue) (set done current true) w'
          (omega (arith, total-set done current not_done)))

  start-Invariant : Invariant (0 ∷ []) (fresh t)
  start-Invariant = record {
    size = length-fresh t.n;
    dummy = fresh-dummy t.n;
    balance = λ x q at_x. omega (arith, fresh_balance t v x q at_x);
    inside = λ x h. ground (arith, root_inside t v);
  }

  Solved-end :
      (result : Option (List Bool))
      → Solved result
      → Ends (λ done. evaluate t done ≡ some true) result
  Solved-end none h = absurd h
  Solved-end (some done) h = ends (evaluate-true t done h)

  -- On a tree whose nodes are not done, solve ends without an error of work, and then evaluate returns
  -- true.
  pub solve_correct :
      Ends (λ result. Ends (λ done. evaluate t done ≡ some true) result) (solve t (fresh t))
  unfolding solve
  solve_correct =
      Ends-weaken
        (solve_loop-Solved (t.n + 1) (0 ∷ []) (fresh t) start-Invariant
          (omega (arith, total-fresh t.n)))
        λ result solved. Solved-end result solved
