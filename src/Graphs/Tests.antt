-- ===== src/Graphs/Tests.antt =====
-- The graphs of a list of three edges.
use wt_lab_efficient_paral.Common.{ℕ, ◌<◌, ◌≡◌, List, [], ◌∷◌, some, map, Ends, Ends-value, arith}
use wt_lab_efficient_paral.Graphs.EdgeList.{Edge, InRange, leaving}
use wt_lab_efficient_paral.Graphs.AdjArray
use wt_lab_efficient_paral.Graphs.AdjArray.{adj_array_correct}
use wt_lab_efficient_paral.Graphs.AdjList
use wt_lab_efficient_paral.Graphs.Bfs.{bfs}
use wt_lab_efficient_paral.Graphs.Bfs.Loops.{IsGraph}
use wt_lab_efficient_paral.Graphs.Bfs.Correct.{IsDistance, bfs_correct}
use wt_lab_efficient_paral.Graphs.Bfs.OnArray.{graph_of, graph_of-IsGraph}
use wt_lab_efficient_paral.Graphs.NodeGraph
use wt_lab_efficient_paral.Graphs.NodeGraph.{node_graph_agrees}
use wt_lab_efficient_paral.Graphs.WeightedPaired
use wt_lab_efficient_paral.Graphs.WeightedSeparated
use wt_lab_efficient_paral.Graphs.WeightedSeparated.{weighted_graphs_agree}

abbrev three_edges : List (Edge ℕ)
three_edges =
    record { from = 2; to = 1; length = 7 }
    ∷ record { from = 0; to = 2; length = 8 }
    ∷ record { from = 2; to = 0; length = 9 }
    ∷ []

three_edges-InRange : InRange 3 three_edges
three_edges-InRange =
    (omega arith, omega arith, (omega arith, omega arith, (omega arith, omega arith, tt)))

adj_array_correct_example :
    Ends
      (λ g.
        (AdjArray.num_nodes g ≡ 3)
        × ((v : ℕ)
            → v < 3
            → AdjArray.neighbors g v ≡ some (map (λ e. e.to) (leaving v three_edges))))
      (AdjArray.init 255 3 three_edges)
adj_array_correct_example =
    adj_array_correct 255 3 three_edges (omega arith) (omega arith) three_edges-InRange

node_graph_agrees_example :
    Ends
      (λ g.
        Ends
          (λ a.
            (NodeGraph.num_nodes g ≡ 3)
            × (AdjList.num_nodes a ≡ 3)
            × ((v : ℕ)
                → v < 3
                → (NodeGraph.node_id g v ≡ some v)
                  × (NodeGraph.neighbor_ids g v ≡ some (map (λ e. e.to) (leaving v three_edges)))
                  × (AdjList.neighbors a v ≡ NodeGraph.neighbor_ids g v)))
          (AdjList.init 255 3 three_edges))
      (NodeGraph.init 3 three_edges)
node_graph_agrees_example = node_graph_agrees 255 3 three_edges (omega arith) three_edges-InRange

weighted_graphs_agree_example :
    Ends
      (λ g.
        Ends
          (λ p.
            (WeightedSeparated.num_nodes g ≡ 3)
            × (WeightedPaired.num_nodes p ≡ 3)
            × ((v : ℕ)
                → v < 3
                → (WeightedSeparated.neighbors g v ≡ some (map (λ e. e.to) (leaving v three_edges)))
                  × (WeightedSeparated.weights g v
                      ≡ some (map (λ e. e.length) (leaving v three_edges)))
                  × (WeightedPaired.neighbors p v ≡ WeightedSeparated.neighbors g v)
                  × (WeightedPaired.weights p v ≡ WeightedSeparated.weights g v)))
          (WeightedPaired.init 0 3 three_edges))
      (WeightedSeparated.init 0 3 three_edges)
weighted_graphs_agree_example = weighted_graphs_agree 0 3 three_edges three_edges-InRange

three_nodes :
    (g : AdjArray.AdjArray) × (AdjArray.init 255 3 three_edges ≡ some g)
    × (AdjArray.num_nodes g ≡ 3)
    × ((v : ℕ) → v < 3 → AdjArray.neighbors g v ≡ some (map (λ e. e.to) (leaving v three_edges)))
three_nodes =
    let (g, is_g, facts) =
      Ends-value
        (adj_array_correct 255 3 three_edges (omega arith) (omega arith) three_edges-InRange) in
    (g, is_g, facts.0, facts.1)

three_nodes-IsGraph : IsGraph (graph_of three_nodes.0)
three_nodes-IsGraph =
    graph_of-IsGraph 3 three_edges three_nodes.0 three_edges-InRange three_nodes.2 three_nodes.3

node_zero : 0 < AdjArray.num_nodes three_nodes.0
node_zero = omega (arith, three_nodes.2)

bfs_correct_example :
    Ends (IsDistance (graph_of three_nodes.0) 0 1) (bfs (graph_of three_nodes.0) 0 1)
bfs_correct_example = bfs_correct (graph_of three_nodes.0) 0 1 three_nodes-IsGraph node_zero
