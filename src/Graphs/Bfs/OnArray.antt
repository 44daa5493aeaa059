-- ===== src/Graphs/Bfs/OnArray.antt =====
-- The adjacency array as a graph for `BFSHelper`.
use mathlib.Core.List.{Memᴰ}
use wt_lab_efficient_paral.Common.{ℕ, ◌<◌, ◌≡◌, List, [], ◌∷◌, some, map, Ends-of}
use wt_lab_efficient_paral.Graphs.EdgeList.{Edge, InRange, leaving, leaving-InRange}
use wt_lab_efficient_paral.Graphs.AdjArray
use wt_lab_efficient_paral.Graphs.AdjArray.{AdjArray}
use wt_lab_efficient_paral.Graphs.Bfs.{Graph}
use wt_lab_efficient_paral.Graphs.Bfs.Loops.{IsGraph}

abbrev pub graph_of : AdjArray → Graph
graph_of g = record { num_nodes = AdjArray.num_nodes g; neighbors = AdjArray.neighbors g }

module _ {W : Type 0} where
  target-inside :
      (n : ℕ) (es : List (Edge W)) (v : ℕ) → InRange n es → Memᴰ v (map (λ e. e.to) es) → v < n
  target-inside n [] v ok m = elim m [ ]
  target-inside n (e ∷ es) v (at_from, at_to, ok) (Memᴰ.head same) = rw same at_to
  target-inside n (e ∷ es) v (at_from, at_to, ok) (Memᴰ.tail m) = target-inside n es v ok m

  pub graph_of-IsGraph :
      (n : ℕ) (es : List (Edge W)) (g : AdjArray)
      → InRange n es
      → AdjArray.num_nodes g ≡ n
      → ((v : ℕ) → v < n → AdjArray.neighbors g v ≡ some (map (λ e. e.to) (leaving v es)))
      → IsGraph (graph_of g)
  graph_of-IsGraph n es g ok size rows u inside =
      let inside_n : u < n = rw size at inside in
      Ends-of (map (λ e. e.to) (leaving u es)) (rows u inside_n)
        λ v m. rw size (target-inside n (leaving u es) v (leaving-InRange n u es ok) m)
