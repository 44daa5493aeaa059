-- ===== src/Tasks/Naive/Ends.antt =====
-- exercise4/implementation/tree_solver_naive.hpp: `solve` ends under every scheduling, with all nodes done.
use wt_lab_efficient_paral.Common.{
  ℕ, ◌*◌, ◌^◌, ◌⊎◌, sum-change, sum-le, sum_ones, ◌+◌, ◌≤◌, ◌<◌, ◌≡◌, ◌≢◌, Bool, true, false, List,
  Option, none, some, get_elem?, set, length, arith, ◌==◌, if◌then◌else◌, get_elem?-set,
  get_elem?-lt, update, sum, sum-update,
}
use wt_lab_efficient_paral.Tasks.Tree.{TreeTask, children, fresh}
use wt_lab_efficient_paral.Tasks.Tree.Trees.{IsTree, bit_at}
use wt_lab_efficient_paral.Tasks.Naive.{
  Memory, Pc, ready, pop, load_done, load_parent, store_done, push_children, returned, threw, Move,
  claims, leaves, pops, is_done, not_done, parent_not_done, parent_done, stores, pushes, pushed,
  System, Step, pick, start, Reach, here, later,
}
use wt_lab_efficient_paral.Tasks.Naive.Balance.{
  left, Active, left-none, left-claimed, below, to_int-small,
}
use wt_lab_efficient_paral.Tasks.Tree.{evaluate}
use wt_lab_efficient_paral.Tasks.Naive.Invariant.{thread-Active, in_int, Reach-Invariant}
use wt_lab_efficient_paral.Tasks.Naive.Progress.{progress}

abbrev length_or_zero : Option (List ℕ) → ℕ
length_or_zero none = 0
length_or_zero (some cs) = length cs

-- How many child nodes a node has.
abbrev pub child_count : TreeTask → ℕ → ℕ
child_count t x = length_or_zero (children t x)

-- A bound for the steps of all threads together.
abbrev pub most_steps : TreeTask → ℕ → ℕ
most_steps t num_threads = 7 * t.n + sum (child_count t) t.n + num_threads

-- The child nodes that a node has still to give out.
abbrev unissued : TreeTask → List Bool → ℕ → ℕ
unissued t done x = if bit_at done x == 0 then child_count t x else 0

-- The steps that a thread makes at most until it is ready again, but for those that the push of child
-- nodes takes.
abbrev cost : Pc → ℕ
cost ready = 1
cost pop = 7
cost (load_done c) = 6
cost (load_parent c) = 5
cost (store_done c) = 4
cost (push_children rest) = 2 + length rest
cost returned = 0
cost threw = 0

abbrev budget : TreeTask → Memory → ℕ
budget t m = 7 * left m.num_work_left + sum (unissued t m.done) t.n

module _ (t : TreeTask) (v : IsTree t) where
  store_unissued :
      (done : List Bool) (c : ℕ) (cs : List ℕ)
      → c < t.n
      → get_elem? done c ≡ some false
      → children t c ≡ some cs
      → sum (unissued t (set done c true)) t.n + length cs ≡ sum (unissued t done) t.n
  store_unissued done c cs c_in is_open at_c =
      let inside = get_elem?-lt done c is_open in
      let change =
        sum-change (unissued t done) (unissued t (set done c true)) c
          (λ x ne. ground (arith, get_elem?-set done c x true inside)) t.n c_in in
      let before : unissued t done c ≡ length cs = ground arith in
      let after : unissued t (set done c true) c ≡ 0 =
        ground (arith, get_elem?-set done c c true inside) in
      omega arith

  Move-cost :
      {m m' : Memory} {p p' : Pc}
      → Move t m p m' p'
      → Active t m.done p
      → below m.num_work_left < 2 ^ 31
      → (s s' : ℕ) → s' + cost p ≡ s + cost p'
      → budget t m' + s' < budget t m + s
  Move-cost {m} (claims h) a room s s' e = omega (arith, left-claimed m.num_work_left h)
  Move-cost {m} (leaves h) a room s s' e = omega (arith, left-none m.num_work_left h room)
  Move-cost (pops _) a room s s' e = omega arith
  Move-cost (is_done _) a room s s' e = omega arith
  Move-cost (not_done _) a room s s' e = omega arith
  Move-cost (parent_not_done _ _) a room s s' e = omega arith
  Move-cost (parent_done _ _) a room s s' e = omega arith
  Move-cost {m} (stores {current = c} {cs = cs} at_c) a room s s' e =
      omega (arith, store_unissued m.done c cs a.inside a.is_not_done at_c)
  Move-cost pushes a room s s' e = omega arith
  Move-cost pushed a room s s' e = omega arith

  module _ (num_threads : ℕ) (fits : t.n < 2 ^ 31) (few : num_threads < 2 ^ 31) where
    abbrev remaining : System → ℕ
    remaining s = budget t s.mem + sum (λ i. cost (s.pc i)) num_threads

    remaining-start : remaining (start t num_threads) ≤ most_steps t num_threads
    remaining-start =
        let issued = sum-le (unissued t (fresh t)) (child_count t) t.n (λ i. ground arith) in
        rw (to_int-small t.n fits) (omega (arith, sum_ones num_threads, issued))

    Reach-remaining :
        {k : ℕ} {s : System} → Reach t num_threads k s → k + remaining s ≤ most_steps t num_threads
    Reach-remaining here = omega (arith, remaining-start)
    Reach-remaining (later {s = s} r (pick i {m} {p} lt mv)) =
        let w = Reach-Invariant t v num_threads fits few r in
        omega (
          arith,
          Reach-remaining r,
          Move-cost mv (thread-Active t v num_threads s w i lt) (in_int t v num_threads s w few)
              (sum (λ j. cost (s.pc j)) num_threads)
              (sum (λ j. cost (update s.pc i p j)) num_threads)
              (sum-update cost s.pc i p num_threads lt),
        )

    module _ (k : ℕ) (s : System) (reach : Reach t num_threads k s) where
      no_error : (i : ℕ) → s.pc i ≢ threw
      no_error i e = rw e at ((Reach-Invariant t v num_threads fits few reach).fine i)

      -- On a tree of fewer than 2 ^ 31 nodes, none of which is done, with at least one thread and fewer
      -- than 2 ^ 31 threads, after any steps of solve in any order: their number is bounded, no thread has thrown an error of work, and either a thread can
      -- make a further step, or all threads have returned and evaluate returns true.
      pub naive_solves :
          0 < num_threads
          → (k ≤ most_steps t num_threads)
            × ((i : ℕ) → s.pc i ≢ threw)
            × (((s' : System) × Step t num_threads s s')
                ⊎ (((i : ℕ) → i < num_threads → s.pc i ≡ returned)
                    × (evaluate t s.mem.done ≡ some true)))
      naive_solves some_thread = (
        omega (arith, Reach-remaining reach),
        no_error,
        progress t v num_threads s (Reach-Invariant t v num_threads fits few reach) some_thread,
      )
