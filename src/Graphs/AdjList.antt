-- ===== src/Graphs/AdjList.antt =====
-- exercise2/implementation/adj_list.hpp: for each node a list of the targets of its edges.
use wt_lab_efficient_paral.Common.{
  ℕ, ◌<◌, ◌≤◌, ◌≡◌, ap, ◌∙◌, List, [], ◌∷◌, ◌++◌, Option, none, some, get_elem?, set, replicate,
  length, ltb, if◌then◌else◌, ◌>>=◌, false, map, arith, Ends, ends, Ends-weaken, Ends->>=,
  get_elem?-some, get_elem?-replicate, length-set, length-replicate,
}
use wt_lab_efficient_paral.Graphs.EdgeList.{Edge, InRange, leaving}
use wt_lab_efficient_paral.Graphs.Append.{pushed, push_step, pushed-append}

pub record AdjList : Type 0 where
  pub edges_ : List (List ℕ)

module _ {W : Type 0} where
  -- `edges_[e.from].push_back(e.to)` for each edge
  unfoldable pub push_loop : List (Edge W) → List (List ℕ) → Option (List (List ℕ))
  push_loop [] edges_ = some edges_
  push_loop (e ∷ es) edges_ = do
    row ← get_elem? edges_ e.from
    push_loop es (set edges_ e.from (row ++ e.to ∷ []))

  -- The constructor; `limit` is the greatest number of the index type. `none` also stands for the
  -- error that is thrown when it is too small.
  unfoldable pub init : (limit num_nodes : ℕ) → List (Edge W) → Option AdjList
  unfolding push_loop
  init limit num_nodes edges =
      if ltb limit num_nodes
      then none
      else do rows ← push_loop edges (replicate num_nodes []); some (record { edges_ = rows })

unfoldable pub num_nodes : AdjList → ℕ
num_nodes g = length g.edges_

-- An iterator is a place in the row of the node, so iterating over the edges of a node goes through its
-- row.
unfoldable pub neighbors : AdjList → ℕ → Option (List ℕ)
neighbors g v = get_elem? g.edges_ v

module _ {W : Type 0} where
  push_loop-rows :
      (n : ℕ) (es : List (Edge W)) (rows : List (List ℕ))
      → InRange n es
      → length rows ≡ n
      → Ends
          (λ rows'.
            (length rows' ≡ n)
            × ((v : ℕ) (row : List ℕ)
                → get_elem? rows v ≡ some row
                → get_elem? rows' v ≡ some (pushed (λ r t. r ++ t ∷ []) row (leaving v es))))
          (push_loop es rows)
  unfolding push_loop
  push_loop-rows n [] rows ok size = ends (size, λ v row h. h)
  push_loop-rows n (e ∷ es) rows (at_from, at_to, ok) size =
      let (row, at_row) = get_elem?-some rows e.from (omega arith) in
      rw at_row (
        Ends-weaken (push_loop-rows n es _ ok (length-set rows e.from (row ++ e.to ∷ []) ∙ size))
          λ rows' h. (
            h.0,
            λ v x at_v.
                let (x', at_x', rest) = push_step (λ r t. r ++ t ∷ []) rows e es v at_row at_v in
                h.1 v x' at_x' ∙ ap some rest,
          ))

  -- The constructor ends, in a graph in which the row of a node is the targets of its edges.
  pub init-rows :
      (limit n : ℕ) (es : List (Edge W))
      → n ≤ limit
      → InRange n es
      → Ends
          (λ g.
            (num_nodes g ≡ n)
            × ((v : ℕ) → v < n → neighbors g v ≡ some (map (λ e. e.to) (leaving v es))))
          (init limit n es)
  unfolding init num_nodes neighbors
  init-rows limit n es fits ok =
      let small : ltb limit n ≡ false = ground arith in
      rw small (
        Ends->>= (push_loop-rows n es (replicate n []) ok (length-replicate n [])) λ rows h. ends (
          h.0,
          λ v inside.
              h.1 v [] (get_elem?-replicate n v [] inside)
              ∙ ap some (pushed-append [] (leaving v es)),
        ))
