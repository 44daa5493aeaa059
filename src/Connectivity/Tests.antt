-- ===== src/Connectivity/Tests.antt =====
-- Runs of the union-finds, and their theorems at concrete runs.
use wt_lab_efficient_paral.Common.{
  Option, false, ◌>>=◌, List, [], ◌∷◌, ends, ℕ, ◌≡◌, ◌<◌, ◌↔◌, inl, inr, refl, true, some, length,
  Ends, arith,
}
use wt_lab_efficient_paral.Connectivity.Components
use wt_lab_efficient_paral.Connectivity.Components.{roots}
use wt_lab_efficient_paral.Connectivity.Components.Correct.{InRange, Listed, components_correct}
use wt_lab_efficient_paral.Connectivity.Sequential
use wt_lab_efficient_paral.Connectivity.Sequential.Correct.{sequential_correct}
use wt_lab_efficient_paral.Graphs.EdgeList
use wt_lab_efficient_paral.Graphs.EdgeList.{Edge}
use wt_lab_efficient_paral.Connectivity.Joined.{Joined}
use wt_lab_efficient_paral.Connectivity.Concurrent.{
  System, Reach, here, later, pick, start_unite, read_rank, found_a, found_b, link_tie_a,
  raise_rank, init, find_representative, connected,
}
use wt_lab_efficient_paral.Connectivity.Concurrent.Local.{Asked, Joins}
use wt_lab_efficient_paral.Connectivity.Concurrent.Roots.{Root}
use wt_lab_efficient_paral.Connectivity.Concurrent.Correct.{
  IsSettled, find_representative_ends, union_find_correct, connected_correct,
}

-- Thread 0 unites nodes 0 and 1 of three.
united_run : (s : System) × Reach 3 s
unfolding init
united_run = (
  _,
  later
      (later
        (later
          (later
            (later
              (later (later here (pick 0 (start_unite {a = 0} {b = 1} (omega arith) (omega arith))))
                (pick 0 (read_rank refl)))
              (pick 0 found_a))
            (pick 0 (read_rank refl)))
          (pick 0 found_b))
        (pick 0 (link_tie_a refl (omega arith) refl)))
      (pick 0 (raise_rank refl)),
)

abbrev united_state : System
united_state = united_run.0

united-IsSettled : IsSettled united_state.log
unfolding united_run
united-IsSettled x y (inl e) = inl e
united-IsSettled x y (inr e) = absurd e

find_zero : find_representative 2 united_state.union_find 0 ≡ some 1
unfolding united_run find_representative init
find_zero = refl

find_one : find_representative 1 united_state.union_find 1 ≡ some 1
unfolding united_run find_representative init
find_one = refl

find_two : find_representative 1 united_state.union_find 2 ≡ some 2
unfolding united_run find_representative init
find_two = refl

zero_inside : 0 < length united_state.union_find
unfolding united_run init
zero_inside = omega arith

find_representative_ends_example :
    (fuel : ℕ) × Ends
      (λ y. Root united_state.union_find 0 y × Joins united_state.union_find 0 y)
      (find_representative fuel united_state.union_find 0)
find_representative_ends_example =
    find_representative_ends 3 united_state united_run.1 0 zero_inside

union_find_correct_example : (◌≡◌ {A = ℕ} 1 2) ↔ Joined (Asked united_state.log) 0 2
union_find_correct_example =
    union_find_correct 3 united_state united_run.1 2 1 0 2 1 2 united-IsSettled find_zero find_two

two_inside : 2 < length united_state.union_find
unfolding united_run init
two_inside = omega arith

connected_correct_example :
    (fuel : ℕ) × Ends
      (λ answer. (answer ≡ true) ↔ Joined (Asked united_state.log) 0 2)
      (connected 1 fuel united_state.union_find 0 2)
connected_correct_example =
    connected_correct 3 united_state united_run.1 0 2 united-IsSettled zero_inside two_inside

-- Nodes 0 and 2 of three are joined by two edges, one of them from the greater to the smaller node.
abbrev two_edges : List (ℕ × ℕ)
two_edges = (2, 1) ∷ (0, 1) ∷ []

two_edges-InRange : InRange 3 two_edges
two_edges-InRange = (omega arith, omega arith, (omega arith, omega arith, tt))

components_correct_example :
    Ends
      (λ c.
        (c.num_components ≡ roots c.union_find)
        × (length c.union_find ≡ 3)
        × ((x y : ℕ)
            → x < 3
            → y < 3
            → Ends
                (λ r.
                  Ends
                    (λ r'. (r ≡ r') ↔ Joined (Listed two_edges) x y)
                    (Components.find_representative c.union_find y))
                (Components.find_representative c.union_find x)))
      (Components.add_edges two_edges (Components.init 3))
components_correct_example = components_correct 3 two_edges two_edges-InRange

one_component :
    Ends (λ c. c.num_components ≡ 1) (Components.add_edges two_edges (Components.init 3))
unfolding Components.add_edges Components.add_edge Components.init Components.find_representative
    find_representative Components.link Components.decrement
one_component = ends refl

-- The sequential union-find joins nodes 0 and 2 of four by two edges, and leaves node 3 apart; a third
-- edge within the tree is not kept.
abbrev edge_list : List (Edge ℕ)
edge_list =
    record { from = 0; to = 1; length = 7 }
    ∷ record { from = 2; to = 1; length = 8 }
    ∷ record { from = 0; to = 2; length = 9 }
    ∷ []

abbrev sequential_run : Option (Sequential.DynamicConnectivity ℕ)
sequential_run = do d ← Sequential.init 127 4; Sequential.unite_loop edge_list d

sequential_joins : (sequential_run >>= λ d. Sequential.connected d 0 2) ≡ some true
unfolding Sequential.init Sequential.unite_loop Sequential.unite Sequential.join_roots
    Sequential.link Sequential.connected Sequential.find_representative Sequential.find_loop
    Sequential.find_representative_and_compress Sequential.compress_loop
sequential_joins = refl

sequential_parts : (sequential_run >>= λ d. Sequential.connected d 3 2) ≡ some false
unfolding Sequential.init Sequential.unite_loop Sequential.unite Sequential.join_roots
    Sequential.link Sequential.connected Sequential.find_representative Sequential.find_loop
    Sequential.find_representative_and_compress Sequential.compress_loop
sequential_parts = refl

sequential_keeps : (sequential_run >>= λ d. some (length d.filtered_edges)) ≡ some 4
unfolding Sequential.init Sequential.unite_loop Sequential.unite Sequential.join_roots
    Sequential.link Sequential.find_representative Sequential.find_loop
    Sequential.find_representative_and_compress Sequential.compress_loop
sequential_keeps = refl

edge_list-InRange : EdgeList.InRange 4 edge_list
edge_list-InRange =
    (omega arith, omega arith, (omega arith, omega arith, (omega arith, omega arith, tt)))

sequential_correct_example :
    Ends
      (λ d.
        (x y : ℕ)
        → x < 4
        → y < 4
        → Ends
            (λ answer. (answer ≡ true) ↔ Joined (Sequential.Correct.Listed edge_list) x y)
            (Sequential.connected d x y))
      (Sequential.init 127 4 >>= λ d. Sequential.unite_loop edge_list d)
sequential_correct_example = sequential_correct 127 4 edge_list (omega arith) edge_list-InRange
