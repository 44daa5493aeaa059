-- ===== src/Tasks/Tree.antt =====
-- exercise4/implementation/tree.hpp: a rooted tree of tasks, each of which may be worked on once, after
-- its parent. The arrays that the constructor reads are the record; `done`, which the threads share, is
-- a state of its own.
pub mod Trees
use wt_lab_efficient_paral.Common.{
  ℕ, zero, suc, ◌+◌, ◌-◌, Bool, true, false, List, [], ◌∷◌, Option, none, some, get_elem?, set,
  length, take, ◌>>=◌, if◌then◌else◌, replicate, ◌++◌,
}

-- `parent[0]` is the dummy node `n`, whose `done` is always 1.
pub record TreeTask : Type 0 where
  pub n : ℕ
  pub nodes : List ℕ
  pub work_amount : List ℕ
  pub edges : List ℕ
  pub parent : List ℕ

abbrev pub drop : ℕ → List ℕ → List ℕ
drop zero xs = xs
drop (suc k) [] = []
drop (suc k) (x ∷ xs) = drop k xs

-- What iterators to `edges[first]` and `edges[last]` enclose.
abbrev pub range : List ℕ → ℕ → ℕ → List ℕ
range edges first last = take (last - first) (drop first edges)

-- What `work` does: it throws one of its two errors, or gives the child nodes and the new `done`.
pub data Outcome : Type 0 where
  already_worked : Outcome
  parent_not_worked : Outcome
  worked : (children : List ℕ) (done : List Bool) → Outcome

-- The iterators of the child nodes; `none` stands for an access out of bounds.
unfoldable pub children : TreeTask → ℕ → Option (List ℕ)
children t id = do
  first ← get_elem? t.nodes id
  last ← get_elem? t.nodes (id + 1)
  some (range t.edges first last)

-- The loop over `work_amount[id]` has no effect and is left out.
unfoldable pub work : TreeTask → ℕ → List Bool → Option Outcome
unfolding children
work t id done = do
  done_id ← get_elem? done id
  (if done_id then some already_worked else (do
    parent ← get_elem? t.parent id
    done_parent ← get_elem? done parent
    (if done_parent
        then (do next ← children t id; some (worked next (set done id true)))
        else some parent_not_worked)))

-- The loops go over `rounds` nodes from `i` on. `some false` stands for the error that `evaluate` throws.
unfoldable pub evaluate_loop : (rounds i : ℕ) → List Bool → Option Bool
evaluate_loop zero i done = some true
evaluate_loop (suc rounds) i done = do
  done_i ← get_elem? done i
  (if done_i then evaluate_loop rounds (i + 1) done else some false)

unfoldable pub evaluate : TreeTask → List Bool → Option Bool
unfolding evaluate_loop
evaluate t done = evaluate_loop t.n 0 done

unfoldable pub reset_loop : (rounds i : ℕ) → List Bool → List Bool
reset_loop zero i done = done
reset_loop (suc rounds) i done = reset_loop rounds (i + 1) (set done i false)

unfoldable pub reset : TreeTask → List Bool → List Bool
unfolding reset_loop
reset t done = reset_loop t.n 0 done

-- `done` after the constructor.
abbrev pub fresh : TreeTask → List Bool
fresh t = replicate t.n false ++ true ∷ []
