-- ===== src/Graphs/Bfs.antt =====
-- exercise2/implementation/bfs.hpp: the distance between two nodes, level by level.
pub mod Grown
pub mod Loops
pub mod Correct
pub mod OnArray
use wt_lab_efficient_paral.Common.{
  ℕ, zero, suc, ◌+◌, Bool, true, false, List, [], ◌∷◌, Option, none, some, get_elem?, set,
  replicate, ◌==◌, ◌>>=◌,
}

-- What `BFSHelper` uses of a graph: the number of nodes, and the ids of the heads that iterating over
-- the edges of a node gives. A handle of a node is its id.
pub record Graph : Type 0 where
  pub num_nodes : ℕ
  pub neighbors : ℕ → Option (List ℕ)

-- Whether a loop returned because a head is the end node, or goes on with `visited` and
-- `next_frontier`. A frontier is a list with the back of the vector first.
pub data Outcome : Type 0 where
  found : Outcome
  continues : (visited : List Bool) (next_frontier : List ℕ) → Outcome

-- The loop over the edges of a node.
unfoldable pub edge_loop : ℕ → List ℕ → List Bool → List ℕ → Option Outcome
edge_loop end [] visited next_frontier = some (continues visited next_frontier)
edge_loop end (neighbor ∷ heads) visited next_frontier = elim (neighbor == end) [
  | true ↦ some found
  | false ↦ do
    seen ← get_elem? visited neighbor
    elim seen [
      | true ↦ edge_loop end heads visited next_frontier
      | false ↦ edge_loop end heads (set visited neighbor true) (neighbor ∷ next_frontier)
    ]
]

module _ (graph : Graph) where
  open graph use {num_nodes, neighbors}

  -- The loop over the nodes of a level.
  unfoldable pub frontier_loop : ℕ → List ℕ → List Bool → List ℕ → Option Outcome
  frontier_loop end [] visited next_frontier = some (continues visited next_frontier)
  frontier_loop end (n ∷ frontier) visited next_frontier = do
    heads ← neighbors n
    outcome ← edge_loop end heads visited next_frontier
    elim outcome [
      | found ↦ some found
      | continues visited' next_frontier' ↦ frontier_loop end frontier visited' next_frontier'
    ]

  -- The loop over the levels, on fuel; the result `none` within the `Option` is
  -- `std::numeric_limits<std::size_t>::max()`.
  unfoldable pub level_loop : ℕ → ℕ → List ℕ → List Bool → ℕ → Option (Option ℕ)
  level_loop zero end frontier visited distance = none
  level_loop (suc fuel) end [] visited distance = some none
  level_loop (suc fuel) end (n ∷ frontier) visited distance = do
    outcome ← frontier_loop end (n ∷ frontier) visited []
    elim outcome [
      | found ↦ some (some distance)
      | continues visited' next_frontier ↦ level_loop fuel end next_frontier visited' (distance + 1)
    ]

  -- There are no more levels than nodes, and a last round for the empty frontier.
  unfoldable pub bfs : ℕ → ℕ → Option (Option ℕ)
  unfolding level_loop
  bfs start end = elim (start == end) [
    | true ↦ some (some 0)
    | false ↦ do
      let fresh = replicate num_nodes false
      old ← get_elem? fresh start
      level_loop (num_nodes + 2) end (start ∷ []) (set fresh start true) 1
  ]
