-- ===== src/Connectivity/Sequential.antt =====
-- exercise3/implementation/dynamic_connectivity_sequential.hpp and .cpp: the union-find of the
-- sequential build, and the edges that it keeps for the search.
mod View
mod Compress
mod Link
pub mod State
pub mod Correct
use wt_lab_efficient_paral.Common.{
  ℕ, zero, suc, ◌+◌, Bool, true, false, List, [], ◌∷◌, ◌++◌, Option, none, some, get_elem?, set,
  length, replicate, ◌==◌, ltb, leb, ◌>>=◌, if◌then◌else◌,
}
use wt_lab_efficient_paral.Graphs.EdgeList.{Edge}

pub record DynamicConnectivity (W : Type 0) : Type 0 where
  pub union_find_parents : List ℕ
  pub union_find_ranks : List ℕ
  pub filtered_edges : List (Edge W)

abbrev pub count_up : (rounds first : ℕ) → List ℕ
count_up zero first = []
count_up (suc rounds) first = first ∷ count_up rounds (first + 1)

-- The loops go up in the forest. A node does not come twice, so a round for each node is enough.
unfoldable pub find_loop : ℕ → List ℕ → ℕ → Option ℕ
find_loop zero parents root = none
find_loop (suc fuel) parents root = do
  parent ← get_elem? parents root
  elim (parent == root) [ true ↦ some root | false ↦ find_loop fuel parents parent ]

unfoldable pub find_representative : List ℕ → ℕ → Option ℕ
unfolding find_loop
find_representative parents node = find_loop (length parents) parents node

unfoldable pub compress_loop : ℕ → ℕ → List ℕ → ℕ → Option (List ℕ)
compress_loop zero root parents node = none
compress_loop (suc fuel) root parents node = do
  parent ← get_elem? parents node
  elim (parent == root) [
    | true ↦ some parents
    | false ↦ compress_loop fuel root (set parents node root) parent
  ]

-- The root, and the parents after the compression.
unfoldable pub find_representative_and_compress : List ℕ → ℕ → Option (ℕ × List ℕ)
unfolding find_representative compress_loop
find_representative_and_compress parents node = do
  root ← find_representative parents node
  parents' ← compress_loop (length parents) root parents node
  some (root, parents')

module _ {W : Type 0} where
  -- The constructor; `limit` is the greatest `int`. `none` stands for the error that is thrown.
  unfoldable pub init : (limit num_nodes : ℕ) → Option (DynamicConnectivity W)
  init limit num_nodes =
      if leb limit num_nodes
      then none
      else some (record {
        union_find_parents = count_up num_nodes 0;
        union_find_ranks = replicate num_nodes 0;
        filtered_edges = [];
      })

  unfoldable pub connected : DynamicConnectivity W → ℕ → ℕ → Option Bool
  unfolding find_representative
  connected d a b = do
    root_a ← find_representative d.union_find_parents a
    root_b ← find_representative d.union_find_parents b
    some (root_a == root_b)

  -- The end of `unite`, with `a` the root that stays one.
  unfoldable pub link : ℕ → ℕ → List ℕ → DynamicConnectivity W → Option (DynamicConnectivity W)
  link a b parents d = do
    rank_a ← get_elem? d.union_find_ranks a
    rank_b ← get_elem? d.union_find_ranks b
    some (record d {
      union_find_parents = set parents b a;
      union_find_ranks =
          if rank_a == rank_b then set d.union_find_ranks a (rank_a + 1) else d.union_find_ranks;
    })

  -- The rest of `unite` for two roots.
  unfoldable pub join_roots :
      ℕ → ℕ → List ℕ → DynamicConnectivity W → Option (DynamicConnectivity W)
  join_roots a b parents d = do
    rank_a ← get_elem? d.union_find_ranks a
    rank_b ← get_elem? d.union_find_ranks b
    (if ltb rank_a rank_b then link b a parents d else link a b parents d)

  unfoldable pub unite : ℕ → ℕ → DynamicConnectivity W → Option (DynamicConnectivity W × Bool)
  unfolding find_representative_and_compress join_roots
  unite a b d = do
    (root_a, parents_a) ← find_representative_and_compress d.union_find_parents a
    (root_b, parents) ← find_representative_and_compress parents_a b
    (if root_a == root_b
        then some (record d { union_find_parents = parents }, false)
        else (do d' ← join_roots root_a root_b parents d; some (d', true)))

  -- The loop of `addEdges`, which keeps an edge that joins two trees, in both directions.
  unfoldable pub unite_loop : List (Edge W) → DynamicConnectivity W → Option (DynamicConnectivity W)
  unfolding unite
  unite_loop [] d = some d
  unite_loop (e ∷ edges) d = do
    (d', united) ← unite e.from e.to d
    unite_loop edges (
        if united
        then record d' {
          filtered_edges =
              d'.filtered_edges ++ e ∷ record { from = e.to; to = e.from; length = e.length } ∷ [];
        }
        else d')
