-- ===== src/Graphs/Bfs/Correct.antt =====
-- The distance that `bfs` returns is the length of a shortest walk.
use mathlib.Core.List.{Memᴰ}
use native.Mathlib.Decide.{dec_lt}
use wt_lab_efficient_paral.Common.{
  ℕ, zero, suc, ◌+◌, ◌≤◌, ◌<◌, ◌≡◌, ◌≢◌, refl, sym, ◌∙◌, ◌⊎◌, inl, inr, Bool, true, false, List, [],
  ◌∷◌, Option, none, some, get_elem?, set, replicate, length, ◌==◌, Ends, ends, Ends-value, arith,
  Bool-cases, get_elem?-set, get_elem?-replicate, replicate-entry, length-set, length-replicate,
}
use wt_lab_efficient_paral.Graphs.Bfs.{Graph, Outcome, found, continues, level_loop, bfs}
use wt_lab_efficient_paral.Graphs.Bfs.Grown.{Marked, unmarked, Grown, Ok}
use wt_lab_efficient_paral.Graphs.Bfs.Loops.{Arc, IsGraph, Next, frontier_loop-Ok}

-- A walk of `d` edges from `start`.
pub data Walk (graph : Graph) (start : ℕ) : ℕ → ℕ → Type 0 where
  stay : Walk graph start 0 start
  go : {d u v : ℕ} → Walk graph start d u → Arc graph u v → Walk graph start (suc d) v

-- What the result of a search has to be.
abbrev pub IsDistance : Graph → ℕ → ℕ → Option ℕ → Type 0
IsDistance graph start end none = (d : ℕ) → Walk graph start d end → ⊥
IsDistance graph start end (some d) =
    Walk graph start d end × ((d' : ℕ) → Walk graph start d' end → d ≤ d')

unmarked-le : (visited : List Bool) → unmarked visited ≤ length visited
unmarked-le [] = omega arith
unmarked-le (true ∷ visited) = omega (arith, unmarked-le visited)
unmarked-le (false ∷ visited) = omega (arith, unmarked-le visited)

module _ (graph : Graph) (start end : ℕ) where
  -- Before the loop over a level: `frontier` is reached by walks of `d` edges, and everything that
  -- shorter walks reach is marked.
  record Level (d : ℕ) (frontier : List ℕ) (vis : List Bool) : Type 0 where
    size : length vis ≡ graph.num_nodes
    sound : (v : ℕ) → Memᴰ v frontier → Walk graph start d v
    nodes : (v : ℕ) → Memᴰ v frontier → v < graph.num_nodes
    closed : (u : ℕ) → Marked vis u → Memᴰ u frontier ⊎ ((v : ℕ) → Arc graph u v → Marked vis v)
    complete : (j v : ℕ) → j ≤ d → Walk graph start j v → Marked vis v
    end_unmarked : Marked vis end → ⊥

  module _ (valid : IsGraph graph) where
    Arc-node : (u v : ℕ) → u < graph.num_nodes → Arc graph u v → v < graph.num_nodes
    Arc-node u v inside (heads, at_u, m) =
        let (heads', at_u', heads_in) = Ends-value (valid u inside) in
        let same : heads ≡ heads' = cc in heads_in v (rw same at m)

    Level-next :
        (d : ℕ) (frontier : List ℕ) (vis vis' : List Bool) (nx : List ℕ)
        → Level d frontier vis
        → Grown end (Next graph frontier) vis [] vis' nx
        → Level (suc d) nx vis'
    Level-next d frontier vis vis' nx l g = record {
      size = g.size ∙ l.size;
      sound = λ v m. let (u, at_u, arc) = from v m in go (l.sound u at_u) arc;
      nodes = λ v m. let (u, at_u, arc) = from v m in Arc-node u v (l.nodes u at_u) arc;
      closed =
          λ u m. elim (g.new u m) [ inl old ↦ inr (λ v arc. arcs u old v arc) | inr q ↦ inl q ];
      complete = λ j v le w. reached j v le w;
      end_unmarked =
          λ m. elim (g.new end m) [ inl old ↦ l.end_unmarked old | inr q ↦ g.not_end (from end q) ];
    }
      where
        from : (v : ℕ) → Memᴰ v nx → Next graph frontier v
        from v m = elim (g.next v m) [ inl none_there ↦ elim none_there [ ] | inr p ↦ p ]

        arcs : (u : ℕ) → Marked vis u → (v : ℕ) → Arc graph u v → Marked vis' v
        arcs u m v arc = elim (l.closed u m) [
          | inl at_u ↦ g.covers v (u, at_u, arc)
          | inr cl ↦ g.keeps v (cl v arc)
        ]

        reached : (j v : ℕ) → j ≤ suc d → Walk graph start j v → Marked vis' v
        reached zero v le stay = g.keeps v (l.complete 0 v (omega arith) stay)
        reached (suc j) v le (go {u} w arc) = arcs u (l.complete j u (omega arith) w) v arc

    found-IsDistance :
        (d : ℕ) (frontier : List ℕ) (vis : List Bool)
        → Level d frontier vis
        → Next graph frontier end
        → IsDistance graph start end (some (suc d))
    found-IsDistance d frontier vis l (u, at_u, arc) = (
      go (l.sound u at_u) arc,
      λ d' w. elim (dec_lt d d') [
        | yes lt ↦ omega arith
        | no ge ↦ absurd (l.end_unmarked (l.complete d' end (omega arith) w))
      ],
    )

    all-Marked :
        (d : ℕ) (vis : List Bool) → Level d [] vis → (j v : ℕ) → Walk graph start j v → Marked vis v
    all-Marked d vis l zero v stay = l.complete 0 v (omega arith) stay
    all-Marked d vis l (suc j) v (go {u} w arc) = elim (l.closed u (all-Marked d vis l j u w)) [
      | inl none_there ↦ elim none_there [ ]
      | inr cl ↦ cl v arc
    ]

    -- The rounds that are left: one for each level, and one for the empty frontier.
    abbrev rounds : List ℕ → List Bool → ℕ
    rounds [] vis = 1
    rounds (n ∷ frontier) vis = unmarked vis + 2

    fewer :
        (vis vis' : List Bool) (nx : List ℕ) (fuel : ℕ)
        → unmarked vis' + length nx ≡ unmarked vis + 0
        → unmarked vis + 2 ≤ suc fuel
        → rounds nx vis' ≤ fuel
    fewer vis vis' [] fuel count room = omega arith
    fewer vis vis' (n ∷ nx) fuel count room = omega arith

    after-Level :
        (fuel d distance : ℕ) (frontier : List ℕ) (vis : List Bool)
        → distance ≡ suc d
        → Level d frontier vis
        → (o : Outcome) → Ok end (Next graph frontier) vis [] o
        → ((vis' : List Bool) (nx : List ℕ)
            → Grown end (Next graph frontier) vis [] vis' nx
            → Ends (IsDistance graph start end) (level_loop graph fuel end nx vis' (distance + 1)))
        → Ends (IsDistance graph start end) (elim o [
          | found ↦ some (some distance)
          | continues vis' nx ↦ level_loop graph fuel end nx vis' (distance + 1)
        ])
    after-Level fuel d distance frontier vis e l found p rest =
        rw e (ends (found-IsDistance d frontier vis l p))
    after-Level fuel d distance frontier vis e l (continues vis' nx) g rest = rest vis' nx g

    level_loop-IsDistance :
        (fuel d distance : ℕ) (frontier : List ℕ) (vis : List Bool)
        → distance ≡ suc d
        → Level d frontier vis
        → rounds frontier vis ≤ fuel
        → Ends (IsDistance graph start end) (level_loop graph fuel end frontier vis distance)
    unfolding level_loop
    level_loop-IsDistance zero d distance [] vis e l room = absurd (omega arith)
    level_loop-IsDistance zero d distance (n ∷ frontier) vis e l room = absurd (omega arith)
    level_loop-IsDistance (suc fuel) d distance [] vis e l room =
        ends (λ j w. l.end_unmarked (all-Marked d vis l j end w))
    level_loop-IsDistance (suc fuel) d distance (n ∷ frontier) vis e l room =
        let (o, is_o, ok) =
          Ends-value (frontier_loop-Ok graph valid end (n ∷ frontier) vis [] l.size l.nodes) in
        rw is_o (
          after-Level fuel d distance (n ∷ frontier) vis e l o ok λ vis' nx g.
            level_loop-IsDistance fuel (suc d) (distance + 1) nx vis' (omega arith)
              (Level-next d (n ∷ frontier) vis vis' nx l g) (fewer vis vis' nx fuel g.count room))

    first-Level :
        start < graph.num_nodes
        → start ≢ end
        → Level 0 (start ∷ []) (set (replicate graph.num_nodes false) start true)
    first-Level inside ne =
        let fresh : List Bool = replicate graph.num_nodes false in
        let size : length fresh ≡ graph.num_nodes = length-replicate graph.num_nodes false in
        let written = λ (v : ℕ). get_elem?-set fresh start v true (omega (arith, size)) in
        let only : (v : ℕ) → Marked (set fresh start true) v → start ≡ v = λ v m.
          elim (Bool-cases (start == v)) [
            | inl same ↦ ground arith
            | inr apart ↦
                let e : get_elem? fresh v ≡ some true = sym (written v ∙ rw apart refl) ∙ m in
                let wrong = replicate-entry graph.num_nodes v false e in cc
          ] in
        record {
          size = length-set fresh start true ∙ size;
          sound = λ v m. elim m [
            | Memᴰ.head e ↦ rw e stay
            | Memᴰ.tail none_there ↦ elim none_there [ ]
          ];
          nodes = λ v m. elim m [
            | Memᴰ.head e ↦ rw e inside
            | Memᴰ.tail none_there ↦ elim none_there [ ]
          ];
          closed = λ u m. inl (Memᴰ.head (sym (only u m)));
          complete = λ j v le w. at_start j v le w;
          end_unmarked = λ m. ne (only end m);
        }
      where
        at_start :
            (j v : ℕ)
            → j ≤ 0
            → Walk graph start j v
            → Marked (set (replicate graph.num_nodes false) start true) v
        at_start zero v le stay =
            let size = length-replicate graph.num_nodes false in
            let test : (start == start) ≡ true = ground arith in
            get_elem?-set (replicate graph.num_nodes false) start start true
              (omega (arith, size, inside))
            ∙ rw test refl
        at_start (suc j) v le (go w arc) = absurd (omega arith)

    -- In a graph in which every node has heads, and they are nodes, `bfs` between two nodes ends with
    -- no access out of bounds. It returns the length of a shortest walk from `start` to `end`, or the
    -- greatest `std::size_t` if there is no walk.
    pub bfs_correct :
        start < graph.num_nodes → Ends (IsDistance graph start end) (bfs graph start end)
    unfolding bfs
    bfs_correct inside = elim (Bool-cases (start == end)) [
      | inl same ↦
          let e : start ≡ end = ground arith in
          rw (bfs, same) (ends (rw (← e) stay, λ d' w. omega arith))
      | inr apart ↦
          let ne : start ≢ end = ground arith in
          let n = graph.num_nodes in
          let old = get_elem?-replicate n start false inside in
          let l = first-Level inside ne in
          let few = unmarked-le (set (replicate n false) start true) in
          rw (bfs, apart, old)
            (level_loop-IsDistance (n + 2) 0 1 (start ∷ []) (set (replicate n false) start true)
              (omega arith) l (omega (arith, few, l.size)))
    ]
