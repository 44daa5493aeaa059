-- ===== src/Graphs/WeightedPaired.antt =====
-- exercise2/implementation/weighted_graph_paired.hpp: targets and lengths of the edges as pairs in one
-- array. The index type is taken to be wide enough, as std::uint64_t is, which the aliases use.
use wt_lab_efficient_paral.Common.{
  ℕ, ◌-◌, ◌<◌, ◌≡◌, refl, List, Option, some, get_elem?, replicate, length, map, ◌>>=◌, Ends, ends,
  arith, length-replicate, Ends->>=,
}
use wt_lab_efficient_paral.Graphs.EdgeList.{Edge, InRange, leaving}
use wt_lab_efficient_paral.Graphs.Index.{build_index, fill_loop, for_edges}
use wt_lab_efficient_paral.Graphs.Index.Rows.{build_index-IsIndex, fill_loop-rows, for_edges-rows}

pub record WeightedGraphPaired (W : Type 0) : Type 0 where
  pub index_ : List ℕ
  pub edges_ : List (ℕ × W)

module _ {W : Type 0} where
  -- The constructor; `zero_length` is `0.0`.
  unfoldable pub init :
      (zero_length : W) (num_nodes : ℕ) → List (Edge W) → Option (WeightedGraphPaired W)
  init zero_length num_nodes edges = do
    c ← build_index (λ k. k) num_nodes edges
    filled ←
        fill_loop (λ k. k) (λ e. (e.to, e.length)) edges c
          (replicate (length edges) (0, zero_length))
    some (record { index_ = c; edges_ = filled })

  unfoldable pub num_nodes : WeightedGraphPaired W → ℕ
  num_nodes g = length g.index_ - 1

  unfoldable pub edge_head : WeightedGraphPaired W → ℕ → Option ℕ
  edge_head g e = do entry ← get_elem? g.edges_ e; some entry.0

  unfoldable pub edge_weight : WeightedGraphPaired W → ℕ → Option W
  edge_weight g e = do entry ← get_elem? g.edges_ e; some entry.1

  -- The heads and the weights that a client sees which iterates over the edges of a node.
  unfoldable pub neighbors : WeightedGraphPaired W → ℕ → Option (List ℕ)
  unfolding edge_head
  neighbors g v = for_edges (edge_head g) g.index_ v

  unfoldable pub weights : WeightedGraphPaired W → ℕ → Option (List W)
  unfolding edge_weight
  weights g v = for_edges (edge_weight g) g.index_ v

  -- The constructor ends in a graph that gives for each node the targets and the lengths of its edges.
  pub paired_rows :
      (zero_length : W) (n : ℕ) (es : List (Edge W))
      → InRange n es
      → Ends
          (λ g.
            (num_nodes g ≡ n)
            × ((v : ℕ)
                → v < n
                → (neighbors g v ≡ some (map (λ e. e.to) (leaving v es)))
                  × (weights g v ≡ some (map (λ e. e.length) (leaving v es)))))
          (init zero_length n es)
  unfolding init num_nodes neighbors edge_head weights edge_weight
  paired_rows zero_length n es ok =
      Ends->>= (build_index-IsIndex (λ k. k) n es (λ k h. refl) ok) λ c index.
        Ends->>=
          (fill_loop-rows n es ok c index (λ k. k) (λ k h. refl) (λ e. (e.to, e.length))
            (replicate (length es) (0, zero_length)) (length-replicate (length es) _))
          λ arr filled. ends (
            omega (arith, index.size),
            λ v inside. (
              for_edges-rows n es ok c index (λ e. (e.to, e.length)) _ (λ e. e.to) _ arr filled
                  (λ it e h. rw h refl) v inside,
              for_edges-rows n es ok c index (λ e. (e.to, e.length)) _ (λ e. e.length) _ arr filled
                  (λ it e h. rw h refl) v inside,
            ),
          )
