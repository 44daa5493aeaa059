-- ===== src/Graphs/NodeGraph.antt =====
-- exercise2/implementation/node_graph.hpp: nodes that each hold pointers to their neighbors.
use mathlib.Core.List.{append_assoc, append-nil}
use wt_lab_efficient_paral.Common.{
  ℕ, zero, suc, ◌+◌, ◌<◌, ◌≤◌, ◌≡◌, refl, List, [], ◌∷◌, ◌++◌, Option, true, some, get_elem?, set,
  length, ◌>>=◌, ◌>>◌, assert, ◌==◌, ap, ◌∙◌, sym, map, arith, Ends, ends, Ends-weaken, Ends->>=,
  get_elem?-some, length-set, ==_self,
}
use wt_lab_efficient_paral.Graphs.EdgeList.{Edge, InRange, leaving, leaving-InRange}
use wt_lab_efficient_paral.Graphs.AdjList
use wt_lab_efficient_paral.Graphs.Append.{pushed, push_step}

-- A pointer to a node is its position in `nodes_`, which owns the nodes.
pub record Node : Type 0 where
  pub id : ℕ
  pub neighbors : List ℕ

pub record NodeGraph : Type 0 where
  pub nodes_ : List Node

unfoldable pub new_nodes : (rounds id : ℕ) → List Node
new_nodes zero id = []
new_nodes (suc rounds) id = record { id = id; neighbors = [] } ∷ new_nodes rounds (id + 1)

module _ {W : Type 0} where
  unfoldable pub link_loop : List (Edge W) → List Node → Option (List Node)
  link_loop [] nodes_ = some nodes_
  link_loop (e ∷ es) nodes_ = do
    target ← get_elem? nodes_ e.to
    source ← get_elem? nodes_ e.from
    link_loop es (set nodes_ e.from (record source { neighbors = source.neighbors ++ e.to ∷ [] }))

  unfoldable pub init : (num_nodes : ℕ) → List (Edge W) → Option NodeGraph
  unfolding new_nodes link_loop
  init num_nodes edges = do
    let fresh = new_nodes num_nodes 0
    assert (length fresh == num_nodes)
    linked ← link_loop edges fresh
    some (record { nodes_ = linked })

unfoldable pub num_nodes : NodeGraph → ℕ
num_nodes g = length g.nodes_

unfoldable pub node_id : NodeGraph → ℕ → Option ℕ
node_id g n = do node ← get_elem? g.nodes_ n; some node.id

-- The ids of the heads that a client sees which iterates over the edges of a node.
unfoldable pub ids_loop : NodeGraph → List ℕ → Option (List ℕ)
unfolding node_id
ids_loop g [] = some []
ids_loop g (n ∷ ns) = do id ← node_id g n; rest ← ids_loop g ns; some (id ∷ rest)

unfoldable pub neighbor_ids : NodeGraph → ℕ → Option (List ℕ)
unfolding ids_loop
neighbor_ids g n = do node ← get_elem? g.nodes_ n; ids_loop g node.neighbors

abbrev add : Node → ℕ → Node
add node t = record node { neighbors = node.neighbors ++ t ∷ [] }

new_nodes-length : (rounds id : ℕ) → length (new_nodes rounds id) ≡ rounds
unfolding new_nodes
new_nodes-length zero id = refl
new_nodes-length (suc rounds) id = ap suc (new_nodes-length rounds (id + 1))

new_nodes-entry :
    (rounds id v : ℕ)
    → v < rounds
    → get_elem? (new_nodes rounds id) v ≡ some (record { id = id + v; neighbors = [] })
unfolding new_nodes
new_nodes-entry zero id v h = absurd (omega arith)
new_nodes-entry (suc rounds) id zero h =
    ap (λ i. some (record { id = i; neighbors = [] })) (omega arith)
new_nodes-entry (suc rounds) id (suc v) h =
    new_nodes-entry rounds (id + 1) v (omega arith)
    ∙ ap (λ i. some (record { id = i; neighbors = [] })) (omega arith)

module _ {W : Type 0} where
  pushed-node :
      (node : Node) (es : List (Edge W))
      → pushed add node es ≡ record node { neighbors = node.neighbors ++ map (λ e. e.to) es }
  pushed-node node [] = ap (λ l. record node { neighbors = l }) (sym (append-nil node.neighbors))
  pushed-node node (e ∷ es) =
      pushed-node (add node e.to) es
      ∙ ap (λ l. record node { neighbors = l })
          (append_assoc node.neighbors (e.to ∷ []) (map (λ e. e.to) es))

  link_loop-rows :
      (n : ℕ) (es : List (Edge W)) (nodes : List Node)
      → InRange n es
      → length nodes ≡ n
      → Ends
          (λ nodes'.
            (length nodes' ≡ n)
            × ((v : ℕ) (node : Node)
                → get_elem? nodes v ≡ some node
                → get_elem? nodes' v ≡ some (pushed add node (leaving v es))))
          (link_loop es nodes)
  unfolding link_loop
  link_loop-rows n [] nodes ok size = ends (size, λ v node h. h)
  link_loop-rows n (e ∷ es) nodes (at_from, at_to, ok) size =
      let (source, at_source) = get_elem?-some nodes e.from (omega arith) in
      let (target, at_target) = get_elem?-some nodes e.to (omega arith) in
      rw (at_target, at_source)
        (Ends-weaken (link_loop-rows n es _ ok (length-set nodes e.from (add source e.to) ∙ size))
          λ nodes' h. (
            h.0,
            λ v x at_v.
                let (x', at_x', rest) = push_step add nodes e es v at_source at_v in
                h.1 v x' at_x' ∙ ap some rest,
          ))

  ids_loop-same :
      (n : ℕ) (g : NodeGraph) (es : List (Edge W))
      → ((v : ℕ) → v < n → node_id g v ≡ some v)
      → InRange n es
      → ids_loop g (map (λ e. e.to) es) ≡ some (map (λ e. e.to) es)
  unfolding ids_loop
  ids_loop-same n g [] ids ok = refl
  ids_loop-same n g (e ∷ es) ids (at_from, at_to, ok) =
      rw (ids e.to at_to, ids_loop-same n g es ids ok) refl

  -- The constructor ends, in a graph in which every node has its number as id, and the ids of the
  -- neighbors of a node are the targets of its edges.
  init-rows :
      (n : ℕ) (es : List (Edge W))
      → InRange n es
      → Ends
          (λ g.
            (num_nodes g ≡ n)
            × ((v : ℕ)
                → v < n
                → (node_id g v ≡ some v)
                  × (neighbor_ids g v ≡ some (map (λ e. e.to) (leaving v es)))))
          (init n es)
  unfolding init num_nodes node_id neighbor_ids
  init-rows n es ok =
      let fresh : List Node = new_nodes n 0 in
      let size : length fresh ≡ n = new_nodes-length n 0 in
      let all : (length fresh == n) ≡ true = ap (λ k. k == n) size ∙ ==_self n in
      rw all (
        Ends->>= (link_loop-rows n es fresh ok size) λ nodes h.
          let entry : (v : ℕ)
              → v < n
              → get_elem? nodes v
                ≡ some (record { id = v; neighbors = map (λ e. e.to) (leaving v es) }) =
            λ v inside.
              h.1 v _ (new_nodes-entry n 0 v inside)
              ∙ ap some (pushed-node (record { id = 0 + v; neighbors = [] }) (leaving v es))
              ∙ ap (λ i. some (record { id = i; neighbors = map (λ e. e.to) (leaving v es) }))
                  (omega arith) in
          let ids : (v : ℕ) → v < n → node_id (record { nodes_ = nodes }) v ≡ some v =
            λ v inside. rw (entry v inside) refl in
          ends (
            h.0,
            λ v inside. (
              ids v inside,
              rw (entry v inside) (
                  ids_loop-same n (record { nodes_ = nodes }) (leaving v es) ids
                    (leaving-InRange n v es ok)),
            ),
          ))

  -- For edges between nodes, and an index type that holds the number of nodes, the node graph and the
  -- adjacency list can both be built, with that many nodes. In the node graph every node has its
  -- number as id, and the ids of the neighbors of a node are, as its row in the adjacency list, the
  -- targets of its edges in the order of the list.
  pub node_graph_agrees :
      (limit n : ℕ) (es : List (Edge W))
      → n ≤ limit
      → InRange n es
      → Ends
          (λ g.
            Ends
              (λ a.
                (num_nodes g ≡ n)
                × (AdjList.num_nodes a ≡ n)
                × ((v : ℕ)
                    → v < n
                    → (node_id g v ≡ some v)
                      × (neighbor_ids g v ≡ some (map (λ e. e.to) (leaving v es)))
                      × (AdjList.neighbors a v ≡ neighbor_ids g v)))
              (AdjList.init limit n es))
          (init n es)
  node_graph_agrees limit n es fits ok = Ends-weaken (init-rows n es ok) λ g h.
      Ends-weaken (AdjList.init-rows limit n es fits ok) λ a k.
        (h.0, k.0, λ v inside. let (id, ids) = h.1 v inside in (id, ids, k.1 v inside ∙ sym ids))
