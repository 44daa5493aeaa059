-- ===== src/Graphs/AdjArray.antt =====
-- exercise2/implementation/adj_array.hpp (exercise3/implementation has the same file): the targets of
-- all edges in one array, and where those of each node begin.
use native.Mathlib.Nat.{mod-eq_of_lt}
use wt_lab_efficient_paral.Common.{
  ℕ, ◌+◌, ◌-◌, ◌%◌, refl, ap, ◌∙◌, [], ◌∷◌, ◌<◌, ◌≤◌, ◌≡◌, List, Option, none, some, get_elem?,
  replicate, length, ltb, if◌then◌else◌, false, map, ◌>>=◌, Ends, ends, arith, length-replicate,
  Ends->>=,
}
use wt_lab_efficient_paral.Graphs.EdgeList.{Edge, InRange, leaving, leaving-InRange}
use wt_lab_efficient_paral.Graphs.Index.{build_index, fill_loop, for_edges}
use wt_lab_efficient_paral.Graphs.Index.Rows.{build_index-IsIndex, fill_loop-rows, for_edges-rows}

pub record AdjArray : Type 0 where
  pub index_ : List ℕ
  pub edges_ : List ℕ

-- What is stored in an index type whose greatest number is `limit`.
abbrev pub narrow : ℕ → ℕ → ℕ
narrow limit k = k % (limit + 1)

module _ {W : Type 0} where
  -- The constructor; `limit` is the greatest number of the index type, in which the counters and the
  -- targets are stored. `none` also stands for the error that is thrown when it is too small.
  unfoldable pub init : (limit num_nodes : ℕ) → List (Edge W) → Option AdjArray
  init limit num_nodes edges = if ltb limit num_nodes then none else do
    c ← build_index (narrow limit) num_nodes edges
    targets ← fill_loop (narrow limit) (λ e. narrow limit e.to) edges c (replicate (length edges) 0)
    some (record { index_ = c; edges_ = targets })

unfoldable pub num_nodes : AdjArray → ℕ
num_nodes g = length g.index_ - 1

unfoldable pub edge_head : AdjArray → ℕ → Option ℕ
edge_head g e = get_elem? g.edges_ e

-- The heads that a client sees which iterates over the edges of a node.
unfoldable pub neighbors : AdjArray → ℕ → Option (List ℕ)
unfolding edge_head
neighbors g v = for_edges (edge_head g) g.index_ v

narrow-exact : (limit k : ℕ) → k ≤ limit → narrow limit k ≡ k
narrow-exact limit k h = mod-eq_of_lt (omega arith)

module _ {W : Type 0} where
  narrow-targets :
      (limit n : ℕ) (es : List (Edge W))
      → n ≤ limit
      → InRange n es
      → map (λ e. narrow limit e.to) es ≡ map (λ e. e.to) es
  narrow-targets limit n [] fits ok = refl
  narrow-targets limit n (e ∷ es) fits (at_from, at_to, ok) =
      rw (narrow-exact limit e.to (omega arith), narrow-targets limit n es fits ok) refl

  -- For edges between nodes, and an index type that holds the number of nodes and the number of
  -- edges, the constructor ends with its asserts holding and no access out of bounds, in a graph with
  -- that many nodes, in which iterating over the edges of a node gives the targets of its edges in
  -- the order of the list.
  pub adj_array_correct :
      (limit n : ℕ) (es : List (Edge W))
      → n ≤ limit
      → length es ≤ limit
      → InRange n es
      → Ends
          (λ g.
            (num_nodes g ≡ n)
            × ((v : ℕ) → v < n → neighbors g v ≡ some (map (λ e. e.to) (leaving v es))))
          (init limit n es)
  unfolding init num_nodes neighbors edge_head
  adj_array_correct limit n es fits few ok =
      let small : ltb limit n ≡ false = ground arith in
      let exact : (k : ℕ) → k ≤ length es → narrow limit k ≡ k =
        λ k h. narrow-exact limit k (omega arith) in
      rw small (
        Ends->>= (build_index-IsIndex (narrow limit) n es exact ok) λ c index.
          Ends->>=
            (fill_loop-rows n es ok c index (narrow limit) exact (λ e. narrow limit e.to)
              (replicate (length es) 0) (length-replicate (length es) _))
            λ arr filled. ends (
              omega (arith, index.size),
              λ v inside.
                  for_edges-rows n es ok c index (λ e. narrow limit e.to) _ (λ e. narrow limit e.to)
                    _ arr filled (λ it e h. h) v inside
                  ∙ ap some
                      (narrow-targets limit n (leaving v es) fits (leaving-InRange n v es ok)),
            ))
