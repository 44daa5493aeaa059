-- ===== src/Graphs/WeightedSeparated.antt =====
-- exercise2/implementation/weighted_graph_separated.hpp: targets and lengths of the edges in two
-- arrays.
use wt_lab_efficient_paral.Common.{
  ℕ, ◌+◌, ◌-◌, ◌<◌, ◌≡◌, refl, List, [], ◌∷◌, Option, some, get_elem?, set, replicate, length, map,
  ◌>>=◌, Ends, ends, arith, length-replicate, Ends->>=, Ends-bind, Ends-weaken, sym, ◌∙◌,
}
use wt_lab_efficient_paral.Graphs.EdgeList.{Edge, InRange, leaving}
use wt_lab_efficient_paral.Graphs.Index.{build_index, fill_loop, for_edges}
use wt_lab_efficient_paral.Graphs.Index.Rows.{build_index-IsIndex, fill_loop-rows, for_edges-rows}
use wt_lab_efficient_paral.Graphs.WeightedPaired
use wt_lab_efficient_paral.Graphs.WeightedPaired.{paired_rows}

pub record WeightedGraphSeparated (W : Type 0) : Type 0 where
  pub index_ : List ℕ
  pub edges_ : List ℕ
  pub weights_ : List W

module _ {W : Type 0} where
  -- The second loop of the constructor, which writes to both arrays.
  unfoldable pub fill_both : List (Edge W) → List ℕ → List ℕ → List W → Option (List ℕ × List W)
  fill_both [] c edges_ weights_ = some (edges_, weights_)
  fill_both (e ∷ es) c edges_ weights_ = do
    e_count ← get_elem? c e.from
    old ← get_elem? edges_ e_count
    old_weight ← get_elem? weights_ e_count
    fill_both es (set c e.from (e_count + 1)) (set edges_ e_count e.to)
        (set weights_ e_count e.length)

  -- The constructor; `zero_length` is `0.0`.
  unfoldable pub init :
      (zero_length : W) (num_nodes : ℕ) → List (Edge W) → Option (WeightedGraphSeparated W)
  unfolding fill_both
  init zero_length num_nodes edges = do
    c ← build_index (λ k. k) num_nodes edges
    (targets, lengths) ←
        fill_both edges c (replicate (length edges) 0) (replicate (length edges) zero_length)
    some (record { index_ = c; edges_ = targets; weights_ = lengths })

  unfoldable pub num_nodes : WeightedGraphSeparated W → ℕ
  num_nodes g = length g.index_ - 1

  unfoldable pub edge_head : WeightedGraphSeparated W → ℕ → Option ℕ
  edge_head g e = get_elem? g.edges_ e

  unfoldable pub edge_weight : WeightedGraphSeparated W → ℕ → Option W
  edge_weight g e = get_elem? g.weights_ e

  -- The heads and the weights that a client sees which iterates over the edges of a node.
  unfoldable pub neighbors : WeightedGraphSeparated W → ℕ → Option (List ℕ)
  unfolding edge_head
  neighbors g v = for_edges (edge_head g) g.index_ v

  unfoldable pub weights : WeightedGraphSeparated W → ℕ → Option (List W)
  unfolding edge_weight
  weights g v = for_edges (edge_weight g) g.index_ v

  -- Writing to both arrays ends where writing to each alone does, with the same arrays.
  fill_both-ends :
      {P : List ℕ → Type 0} {Q : List W → Type 0} (es : List (Edge W)) (c ts : List ℕ) (ws : List W)
      → Ends P (fill_loop (λ k. k) (λ e. e.to) es c ts)
      → Ends Q (fill_loop (λ k. k) (λ e. e.length) es c ws)
      → Ends (λ both. P both.0 × Q both.1) (fill_both es c ts ws)
  unfolding fill_both fill_loop
  fill_both-ends [] c ts ws (ends p) (ends q) = ends (p, q)
  fill_both-ends {P} {Q} (e ∷ es) c ts ws h k =
      let (count, at_c, h') = Ends-bind {o = get_elem? c e.from} h in
      let (old, at_t, h'') = Ends-bind {o = get_elem? ts count} h' in
      let (count', at_c', k') = Ends-bind {o = get_elem? c e.from} k in
      let (old_weight, at_w, k'') = Ends-bind {o = get_elem? ws count'} k' in
      let same : count' ≡ count = cc in
      rw (at_c, at_t, rw same at at_w) (fill_both-ends es _ _ _ h'' (rw same at k''))

  -- For edges between nodes, both weighted graphs can be built, with that many nodes, and iterating
  -- over the edges of a node gives in both the same heads and weights: the targets and the lengths of
  -- its edges in the order of the list.
  pub weighted_graphs_agree :
      (zero_length : W) (n : ℕ) (es : List (Edge W))
      → InRange n es
      → Ends
          (λ g.
            Ends
              (λ p.
                (num_nodes g ≡ n)
                × (WeightedPaired.num_nodes p ≡ n)
                × ((v : ℕ)
                    → v < n
                    → (neighbors g v ≡ some (map (λ e. e.to) (leaving v es)))
                      × (weights g v ≡ some (map (λ e. e.length) (leaving v es)))
                      × (WeightedPaired.neighbors p v ≡ neighbors g v)
                      × (WeightedPaired.weights p v ≡ weights g v)))
              (WeightedPaired.init zero_length n es))
          (init zero_length n es)
  unfolding init num_nodes neighbors edge_head weights edge_weight
  weighted_graphs_agree zero_length n es ok =
      Ends->>= (build_index-IsIndex (λ k. k) n es (λ k h. refl) ok) λ c index.
        Ends->>=
          (fill_both-ends es c _ _
            (fill_loop-rows n es ok c index (λ k. k) (λ k h. refl) (λ e. e.to)
              (replicate (length es) 0) (length-replicate (length es) _))
            (fill_loop-rows n es ok c index (λ k. k) (λ k h. refl) (λ e. e.length)
              (replicate (length es) zero_length) (length-replicate (length es) _)))
          λ both filled. ends (
            Ends-weaken (paired_rows zero_length n es ok) λ p rows. (
              omega (arith, index.size),
              rows.0,
              λ v inside.
                  let heads =
                    for_edges-rows n es ok c index (λ e. e.to) _ (λ e. e.to) _ both.0 filled.0
                      (λ it e h. h) v inside in
                  let lengths =
                    for_edges-rows n es ok c index (λ e. e.length) _ (λ e. e.length) _ both.1
                      filled.1 (λ it e h. h) v inside in
                  (
                    heads,
                    lengths,
                    (rows.1 v inside).0 ∙ sym heads,
                    (rows.1 v inside).1 ∙ sym lengths,
                  ),
            ))
