-- ===== src/Graphs/Bfs/Loops.antt =====
-- The two inner loops of the search, as they change `visited` and `next_frontier`.
use mathlib.Core.List.{Memᴰ}
use wt_lab_efficient_paral.Common.{
  ℕ, ◌<◌, ◌≡◌, ◌≢◌, refl, sym, ap, ◌∙◌, ◌⊎◌, inl, inr, Bool, true, List, [], ◌∷◌, some, set, length,
  ◌==◌, Ends, ends, Ends-weaken, Ends-value, arith, Bool-cases, get_elem?-some, length-set,
}
use wt_lab_efficient_paral.Graphs.Bfs.{Graph, Outcome, found, continues, edge_loop, frontier_loop}
use wt_lab_efficient_paral.Graphs.Bfs.Grown.{
  Grown, Ok, Grown-nothing, Grown-seen, Grown-mark, Ok-then, Ok-same,
}

module _ (end : ℕ) where
  to_cons : (h : ℕ) (hs : List ℕ) (v : ℕ) → (v ≡ h) ⊎ Memᴰ v hs → Memᴰ v (h ∷ hs)
  to_cons h hs v (inl e) = Memᴰ.head e
  to_cons h hs v (inr m) = Memᴰ.tail m

  from_cons : (h : ℕ) (hs : List ℕ) (v : ℕ) → Memᴰ v (h ∷ hs) → (v ≡ h) ⊎ Memᴰ v hs
  from_cons h hs v (Memᴰ.head e) = inl e
  from_cons h hs v (Memᴰ.tail m) = inr m

  with_head :
      (h : ℕ) (hs : List ℕ) (vis : List Bool) (nx : List ℕ) {vis' : List Bool} {nx' : List ℕ}
      (o : Outcome)
      → Grown end (λ v. v ≡ h) vis nx vis' nx'
      → Ok end (λ v. Memᴰ v hs) vis' nx' o
      → Ok end (λ v. Memᴰ v (h ∷ hs)) vis nx o
  with_head h hs vis nx o g k =
      Ok-same end (λ v. (v ≡ h) ⊎ Memᴰ v hs) (λ v. Memᴰ v (h ∷ hs)) vis nx o (to_cons h hs)
        (from_cons h hs) (Ok-then end (λ v. Memᴰ v hs) o g k)

  pub edge_loop-Ok :
      (heads : List ℕ) (vis : List Bool) (nx : List ℕ)
      → ((h : ℕ) → Memᴰ h heads → h < length vis)
      → Ends (Ok end (λ v. Memᴰ v heads) vis nx) (edge_loop end heads vis nx)
  unfolding edge_loop
  edge_loop-Ok [] vis nx inside =
      ends (Grown-nothing end (λ v. Memᴰ v []) vis nx (λ v m. elim m [ ]))
  edge_loop-Ok (h ∷ hs) vis nx inside =
      let in_h = inside h (Memᴰ.head refl) in
      let (seen, at_h) = get_elem?-some vis h in_h in
      elim (Bool-cases (h == end)) [
        | inl same ↦
            let is_end : h ≡ end = ground arith in
            rw (edge_loop, same) (ends (Memᴰ.head (sym is_end)))
        | inr apart ↦
            let ne : h ≢ end = ground arith in
            let inside' = λ (v : ℕ) (m : Memᴰ v hs). inside v (Memᴰ.tail m) in
            elim (Bool-cases seen) [
              | inl marked ↦
                  rw (edge_loop, apart, at_h ∙ ap some marked)
                    (Ends-weaken (edge_loop-Ok hs vis nx inside') λ o k.
                      with_head h hs vis nx o (Grown-seen end h vis nx ne (at_h ∙ ap some marked))
                        k)
              | inr fresh ↦
                  let size = length-set vis h true in
                  rw (edge_loop, apart, at_h ∙ ap some fresh)
                    (Ends-weaken
                      (edge_loop-Ok hs (set vis h true) (h ∷ nx)
                        λ v m. omega (arith, size, inside' v m))
                      λ o k.
                        with_head h hs vis nx o (Grown-mark end h vis nx ne (at_h ∙ ap some fresh))
                          k)
            ]
      ]

-- An edge of the graph.
abbrev pub Arc : Graph → ℕ → ℕ → Type 0
Arc graph u v = (heads : List ℕ) × (graph.neighbors u ≡ some heads) × Memᴰ v heads

-- Every node has heads, and they are nodes.
abbrev pub IsGraph : Graph → Type 0
IsGraph graph =
    (u : ℕ)
    → u < graph.num_nodes
    → Ends (λ heads. (v : ℕ) → Memᴰ v heads → v < graph.num_nodes) (graph.neighbors u)

-- The heads of the nodes of a frontier.
abbrev pub Next : Graph → List ℕ → ℕ → Type 0
Next graph frontier v = (u : ℕ) × Memᴰ u frontier × Arc graph u v

module _ (graph : Graph) (valid : IsGraph graph) (end : ℕ) where
  to_next :
      (n : ℕ) (heads frontier : List ℕ)
      → graph.neighbors n ≡ some heads
      → (v : ℕ) → Memᴰ v heads ⊎ Next graph frontier v
      → Next graph (n ∷ frontier) v
  to_next n heads frontier at_n v (inl m) = (n, Memᴰ.head refl, (heads, at_n, m))
  to_next n heads frontier at_n v (inr (u, m, arc)) = (u, Memᴰ.tail m, arc)

  from_next :
      (n : ℕ) (heads frontier : List ℕ)
      → graph.neighbors n ≡ some heads
      → (v : ℕ) → Next graph (n ∷ frontier) v
      → Memᴰ v heads ⊎ Next graph frontier v
  from_next n heads frontier at_n v (u, Memᴰ.head e, (heads', at_u, m)) =
      let same : heads' ≡ heads = cc in inl (rw same at m)
  from_next n heads frontier at_n v (u, Memᴰ.tail t, arc) = inr (u, t, arc)

  -- The rest of the level after the edges of `n`.
  after_node :
      (n : ℕ) (heads frontier : List ℕ) (vis : List Bool) (nx : List ℕ)
      → graph.neighbors n ≡ some heads
      → (o : Outcome) → Ok end (λ v. Memᴰ v heads) vis nx o
      → ((vis' : List Bool) (nx' : List ℕ)
          → length vis' ≡ length vis
          → Ends
              (Ok end (Next graph frontier) vis' nx')
              (frontier_loop graph end frontier vis' nx'))
      → Ends (Ok end (Next graph (n ∷ frontier)) vis nx) (elim o [
        | found ↦ some found
        | continues vis' nx' ↦ frontier_loop graph end frontier vis' nx'
      ])
  after_node n heads frontier vis nx at_n found m go =
      ends (to_next n heads frontier at_n end (inl m))
  after_node n heads frontier vis nx at_n (continues vis' nx') g go =
      Ends-weaken (go vis' nx' g.size) λ o k.
        Ok-same end (λ v. Memᴰ v heads ⊎ Next graph frontier v) (Next graph (n ∷ frontier)) vis nx o
          (to_next n heads frontier at_n) (from_next n heads frontier at_n)
          (Ok-then end (Next graph frontier) o g k)

  pub frontier_loop-Ok :
      (frontier : List ℕ) (vis : List Bool) (nx : List ℕ)
      → length vis ≡ graph.num_nodes
      → ((u : ℕ) → Memᴰ u frontier → u < graph.num_nodes)
      → Ends (Ok end (Next graph frontier) vis nx) (frontier_loop graph end frontier vis nx)
  unfolding frontier_loop
  frontier_loop-Ok [] vis nx size inside =
      ends (Grown-nothing end (Next graph []) vis nx (λ v (u, m, arc). elim m [ ]))
  frontier_loop-Ok (n ∷ frontier) vis nx size inside =
      let (heads, at_n, heads_in) = Ends-value (valid n (inside n (Memᴰ.head refl))) in
      let edges = edge_loop-Ok end heads vis nx λ v m. omega (arith, size, heads_in v m) in
      let (o, is_o, ok) = Ends-value edges in
      rw (at_n, is_o)
        (after_node n heads frontier vis nx at_n o ok λ vis' nx' size'.
          frontier_loop-Ok frontier vis' nx' (size' ∙ size) λ u m. inside u (Memᴰ.tail m))
