-- ===== src/Tasks/Dag.antt =====
-- exercise4/implementation/dag.hpp: a graph of tasks, each of which may be worked on once, after all its
-- parents. The arrays that the constructor reads are the record; `done`, which the threads share, is a
-- state of its own.
use wt_lab_efficient_paral.Common.{
  ℕ, ◌+◌, Bool, true, false, List, [], ◌∷◌, Option, some, get_elem?, set, ◌>>=◌, ◌==◌,
  if◌then◌else◌,
}
use wt_lab_efficient_paral.Tasks.Tree.{
  range, Outcome, already_worked, parent_not_worked, worked, evaluate_loop, reset_loop,
}

pub record DagTask : Type 0 where
  pub n : ℕ
  pub nodes : List ℕ
  pub reverse_nodes : List ℕ
  pub work_amount : List ℕ
  pub edges : List ℕ
  pub parent : List ℕ

unfoldable pub outgoing : DagTask → ℕ → Option (List ℕ)
outgoing t id = do
  first ← get_elem? t.nodes id
  last ← get_elem? t.nodes (id + 1)
  some (range t.edges first last)

unfoldable pub incoming : DagTask → ℕ → Option (List ℕ)
incoming t id = do
  first ← get_elem? t.reverse_nodes id
  last ← get_elem? t.reverse_nodes (id + 1)
  some (range t.parent first last)

-- The loop of `work` over the parents: whether all are done.
unfoldable pub parents_loop : List ℕ → List Bool → Option Bool
parents_loop [] done = some true
parents_loop (p ∷ rest) done = do
  done_p ← get_elem? done p
  (if done_p then parents_loop rest done else some false)

-- `work`, run alone; it gives no child nodes. The loop over `work_amount[id]` is left out.
unfoldable pub work : DagTask → ℕ → List Bool → Option Outcome
unfolding incoming parents_loop
work t id done = do
  done_id ← get_elem? done id
  (if done_id then some already_worked else (do
    parents ← incoming t id
    ready ← parents_loop parents done
    some (if ready then worked [] (set done id true) else parent_not_worked)))

unfoldable pub evaluate : DagTask → List Bool → Option Bool
unfolding evaluate_loop
evaluate t done = evaluate_loop t.n 0 done

unfoldable pub reset : DagTask → List Bool → List Bool
unfolding reset_loop
reset t done = reset_loop t.n 0 done

abbrev pub contains : ℕ → List ℕ → Bool
contains id [] = false
contains id (out ∷ rest) = if out == id then true else contains id rest

unfoldable pub structure_loop : DagTask → ℕ → List ℕ → Option Bool
unfolding outgoing
structure_loop t id [] = some true
structure_loop t id (prev ∷ rest) = do
  outs ← outgoing t prev
  (if contains id outs then structure_loop t id rest else some false)

unfoldable pub test_graph_structure : DagTask → ℕ → Option Bool
unfolding incoming structure_loop
test_graph_structure t id = do ins ← incoming t id; structure_loop t id ins
