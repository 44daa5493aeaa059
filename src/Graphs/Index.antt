-- ===== src/Graphs/Index.antt =====
-- The part that the constructors of adj_array.hpp, weighted_graph_paired.hpp and
-- weighted_graph_separated.hpp in exercise2/implementation share: a counting sort by the source node.
-- `wrap` is what a number becomes that is stored in the index type, whose counters wrap around.
pub mod Counts
pub mod Fill
pub mod Rows
use wt_lab_efficient_paral.Common.{
  ℕ, zero, suc, ◌+◌, ◌-◌, List, [], ◌∷◌, Option, none, some, get_elem?, set, replicate, length,
  ◌==◌, assert, ◌>>=◌, ◌>>◌,
}
use wt_lab_efficient_paral.Graphs.EdgeList.{Edge}

-- `std::inclusive_scan` as it is documented, with the sum of what stands before.
unfoldable pub inclusive_scan : (ℕ → ℕ) → ℕ → List ℕ → List ℕ
inclusive_scan wrap acc [] = []
inclusive_scan wrap acc (x ∷ xs) = wrap (acc + x) ∷ inclusive_scan wrap (wrap (acc + x)) xs

module _ {W : Type 0} (wrap : ℕ → ℕ) where
  -- `c[e.from + 1]++` for each edge
  unfoldable pub count_loop : List (Edge W) → List ℕ → Option (List ℕ)
  count_loop [] c = some c
  count_loop (e ∷ es) c = do
    k ← get_elem? c (e.from + 1)
    count_loop es (set c (e.from + 1) (wrap (k + 1)))

  -- The index: where the edges of each node begin, and the end.
  unfoldable pub build_index : ℕ → List (Edge W) → Option (List ℕ)
  unfolding count_loop inclusive_scan
  build_index num_nodes edges = do
    counts ← count_loop edges (replicate (num_nodes + 1) 0)
    let c = inclusive_scan wrap 0 counts
    first ← get_elem? c 0
    assert (first == 0)
    last ← get_elem? c num_nodes
    assert (last == length edges)
    some c

  -- `edges_[c[e.from]++] = value` for each edge, with the value that the class stores of it.
  unfoldable pub fill_loop :
      {A : Type 0} → (Edge W → A) → List (Edge W) → List ℕ → List A → Option (List A)
  fill_loop value [] c edges_ = some edges_
  fill_loop value (e ∷ es) c edges_ = do
    k ← get_elem? c e.from
    old ← get_elem? edges_ k
    fill_loop value es (set c e.from (wrap (k + 1))) (set edges_ k (value e))

-- The loop `for (it = beginEdges(v); it != endEdges(v); ++it)`, where an iterator is its position, and
-- `begin` is not after the end: what it reads, one entry in each round.
module _ {A : Type 0} (read : ℕ → Option A) where
  unfoldable pub edges_loop : ℕ → ℕ → Option (List A)
  edges_loop zero it = some []
  edges_loop (suc rounds) it = do x ← read it; rest ← edges_loop rounds (it + 1); some (x ∷ rest)

  unfoldable pub for_edges : List ℕ → ℕ → Option (List A)
  unfolding edges_loop
  for_edges index_ v = do
    first ← get_elem? index_ v
    last ← get_elem? index_ (v + 1)
    edges_loop (last - first) first
